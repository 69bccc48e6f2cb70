-- ===== src/Admin/Palette.antt =====
-- frontend/packages/admin/src/components/CommandPalette.tsx: the search over products, orders and
-- customers that opens by a shortcut. What keeps the focus inside the panel is not modelled.
pub mod Rows
pub mod State
pub mod Effects
pub mod Sound
pub mod Sections
