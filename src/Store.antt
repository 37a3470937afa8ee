-- ===== src/Store.antt =====
-- webapp/backend/internal/repository: the tables, the statements, transactions and the repositories.
pub mod Accounts
pub mod Backing
pub mod Counter
pub mod Db
pub mod Leaves
pub mod Listing
pub mod Orders
pub mod Owned
pub mod Paging
pub mod Rows
pub mod Recent
pub mod Tx
