-- ===== src/Tests.antt =====
-- The theorems at concrete inputs, and runs of the definitions, with whole numbers in the place of the
-- host's arithmetic.
mod Whole
mod Samples
mod Carts
mod Checkouts
mod Sales
mod Runs
mod Modals
mod Counters
mod Tools
mod Stores
mod Offices
mod Stocks
mod Clients
mod Pages
mod Accounts
mod Charts
