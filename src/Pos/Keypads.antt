-- ===== src/Pos/Keypads.antt =====
-- The two keypads of the till, for weights and for PINs.
pub mod Weight
pub mod Pin
