-- ===== src/Store/Shop.antt =====
-- frontend/packages/store/src/pages/ShopPage.tsx: the list of products.
pub mod Types
pub mod Page
pub mod Pending
pub mod Address
pub mod Adding
