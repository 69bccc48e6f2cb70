-- ===== src/Pos/Modals.antt =====
-- The modals of the till that report to the sale page: a manager's authorization, a customer, and a
-- parked sale.
pub mod Override
pub mod Attach
pub mod Parked
