-- ===== src/Registry.antt =====
-- src/cregistry/registry.c and src/cregistry/sql.c: the connection to the registry's database, its
-- transactions, its schema, and how the database is attached.
pub mod Connection
pub mod Transactions
pub mod Schema
pub mod Attach
pub mod Open
pub mod Sessions
