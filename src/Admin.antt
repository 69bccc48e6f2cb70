-- ===== src/Admin.antt =====
-- frontend/packages/admin: the management of the shop.
pub mod Variants
pub mod Handles
pub mod Orders
pub mod Palette
pub mod Stock
pub mod Edit
pub mod Create
pub mod Editing
pub mod Security
pub mod Settings
pub mod Analytics
pub mod Entry
pub mod Users
pub mod Customers
pub mod Sales
pub mod Shell
pub mod Import
pub mod Reports
