-- ===== src/Pos/Sale.antt =====
-- frontend/packages/pos/src/pages/SalePage.tsx, the page of the till: its lines, its handlers, its
-- keyboard shortcuts, and the runs of the page between a click and the replies of the server.
pub mod Items
pub mod Bodies
pub mod Lines
pub mod Weighed
pub mod Parking
pub mod State
pub mod Handlers
pub mod Payments
pub mod Keyboard
pub mod Events
pub mod Replies
pub mod Steps
pub mod Validity
pub mod Run
pub mod Safety
pub mod Paying
pub mod Storno
pub mod Guarded
pub mod Shortcuts
