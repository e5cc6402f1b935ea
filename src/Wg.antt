-- ===== src/Wg.antt =====
-- internal/wg: the network texts, the manager of interfaces and peers, and the reconciliation of
-- the kernel with the database.
pub mod Nets
pub mod Types
pub mod Manager
pub mod Reconcile
