-- ===== src/Budget.antt =====
-- The logic inside the components of the budget dashboard,
-- frontend/src/domains/budget/components.
pub mod MoneyFlow
pub mod Plot
pub mod AccountForm
pub mod Transactions
pub mod Dashboard
pub mod Categories
