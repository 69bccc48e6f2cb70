-- ===== src/Admin/Orders.antt =====
-- frontend/packages/admin/src/pages/OrdersPage.tsx: the orders, and how they are fulfilled.
pub mod Page
pub mod Bulk
pub mod Export
