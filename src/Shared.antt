-- ===== src/Shared.antt =====
-- frontend/packages/shared/src: the types that the applications share, the export of tables, and how
-- their components with requests to the server run. Uri and Numerals are functions of the language.
pub mod Types
pub mod Machine
pub mod Csv
pub mod Socket
pub mod Uri
pub mod Numerals
pub mod Client
pub mod Api
pub mod Barcode
pub mod Camera
pub mod Debounce
pub mod Toasts
