-- ===== src/Nft.antt =====
-- internal/nft: the rules of the wgpilot table, and the manager that keeps them in memory and sends
-- them to the kernel.
pub mod Rules
pub mod Manager
pub mod Netlink
