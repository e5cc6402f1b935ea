-- ===== src/Server.antt =====
-- internal/server: the handlers of networks and bridges over the database and the two managers.
pub mod Types
pub mod Example
pub mod Validate
pub mod Subnets
pub mod Names
pub mod Handlers
pub mod Networks
pub mod Bridges
pub mod Peers
pub mod Requests
pub mod Steps
pub mod Passes
pub mod Keeps
pub mod Quiet
pub mod Frames
pub mod Stored
pub mod Firewall
pub mod Plan
