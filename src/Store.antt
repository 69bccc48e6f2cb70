-- ===== src/Store.antt =====
-- frontend/packages/store: the storefront.
pub mod Cart
pub mod Checkout
pub mod Product
pub mod Shop
pub mod Account
pub mod Status
