-- ===== src/Ledger.antt =====
-- bantam/ledger.py: `Checks`, `Posting` and `Transfer` hold the service, the other children what is
-- proved of it.
pub mod Checks
pub mod Posting
pub mod Transfer
pub mod Written
pub mod Executed
pub mod Outcomes
pub mod Keys
pub mod Reconciliation
pub mod Report
pub mod Conservation
pub mod Rules
pub mod Overdraft
pub mod Idempotency
pub mod Authorisation
pub mod Challenges
pub mod Spent
pub mod Answers
pub mod Reported
pub mod Reversal
pub mod Tests
