-- ===== src/Store/Product.antt =====
-- frontend/packages/store/src/pages/ProductDetailPage.tsx: the page of one product.
pub mod Page
pub mod Stock
pub mod Choice
pub mod Late
pub mod Labels
