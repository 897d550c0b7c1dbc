-- ===== src/Db.antt =====
-- The database as the program sees it: the tables of migrations/*.sql (`Rows`), statements and
-- transactions of database/sql with the faults a connection can show (`Session`), and rules for
-- what a transaction leaves behind (`Hoare`, `Rules`, `Moves`, `Success`), and for the rows
-- an UPDATE changes (`Updates`).
pub mod Rows
pub mod Errors
pub mod Session
pub mod Hoare
pub mod Rules
pub mod Moves
pub mod Success
pub mod Frame
pub mod Updates
