-- ===== src/Bank.antt =====
-- bantam/api.py: the handlers that change customers, accounts, money and alerts. `Reply` holds what
-- they share, `Customers`, `Accounts`, `Payments` and `Alerts` the handlers, `Server` a request for
-- each of them, `Decided` what a decision of an identity is; the other children hold what is proved.
pub mod Reply
pub mod Customers
pub mod Accounts
pub mod Payments
pub mod Alerts
pub mod Server
pub mod Frame
pub mod Turns
pub mod Orderly
pub mod Book
pub mod Freeze
pub mod Rows
pub mod Decided
pub mod Waiting
pub mod Kyc
pub mod Decisions
pub mod Tests
