-- ===== src/Server/Peers.antt =====
-- internal/server/routes_peers.go: the requests for peers and the handlers that change them.
pub mod Validate
pub mod Lease
pub mod Handlers
pub mod ConfigFile
mod Free
mod Occupied
mod Answers
mod Address
mod Enabled
mod Quiet
pub mod Frames
mod Leased
pub mod Histories
mod Example
mod Tests
