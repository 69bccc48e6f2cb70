-- ===== src/Store/Checkout.antt =====
-- frontend/packages/store/src/pages/CartCheckoutPage.tsx: the page that shows the cart, prices it and
-- places the order.
pub mod Prices
pub mod Form
pub mod Page
pub mod Amounts
pub mod Placing
