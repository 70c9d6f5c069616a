-- ===== src/Mfa.antt =====
-- bantam/mfa.py: `Store` holds the tables, `Transactions` the steps that every ceremony shares,
-- `Login`, `Totp`, `Passkey` and `Factors` the operations, the other children what is proved.
pub mod Store
pub mod Transactions
pub mod Totp
pub mod Passkey
pub mod Login
pub mod Factors
pub mod Consumed
pub mod SingleUse
pub mod Steps
pub mod LastFactor
pub mod Tests
