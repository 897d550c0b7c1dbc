-- ===== src/Repository.antt =====
-- internal/repository: each method is the statements that it sends, over the tables of `Db`.
pub mod Statements
pub mod Wallets
pub mod Orders
pub mod Jobs
pub mod Catalog
pub mod Proxies
pub mod Panels
pub mod Users
pub mod Older
