-- ===== src/Pos/Payment.antt =====
-- frontend/packages/pos/src/components: the three modals that take a payment. Each reports the payment
-- to the page of the sale through `onPaid`; a report is kept in the state.
pub mod Cash
pub mod Tenders
pub mod Card
pub mod Split
