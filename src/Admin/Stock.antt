-- ===== src/Admin/Stock.antt =====
-- frontend/packages/admin/src/pages/ProductsInventoryPage.tsx: the list of products and their stock.
pub mod Levels
pub mod Keys
pub mod Page
pub mod Updates
pub mod Sent
