-- ===== src/Accounts.antt =====
-- Accounts (backend/app): the SQLite account store, plans and purchases.
pub mod Model
pub mod Tokens
pub mod Usage
pub mod Plans
pub mod Subscriptions
pub mod History
pub mod Billing
mod Tests
