-- ===== src/WgQuick.antt =====
-- The wg-quick files of internal/wg: what import.go reads, and what export.go and config_gen.go
-- write.
pub mod Types
pub mod Import
pub mod Export
pub mod Sizes
mod Lines
mod Blocks
mod Keys
mod Interface
mod Short
mod RoundTrip
pub mod Client
mod Parsed
mod Tests
