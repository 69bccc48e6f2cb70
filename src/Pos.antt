-- ===== src/Pos.antt =====
-- frontend/packages/pos: the till.
pub mod Sale
pub mod Payment
pub mod Keypads
pub mod Modals
pub mod Returns
pub mod Gate
pub mod Health
pub mod Shift
