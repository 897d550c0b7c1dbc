-- ===== src/Ledger.antt =====
-- The books: what wallets hold against what the ledger says (wallets and wallet_transactions).
pub mod Sums
pub mod Orders
pub mod Book
pub mod TopUp
