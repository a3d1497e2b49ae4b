-- ===== src/Order.antt =====
-- The domain layer, internal/order: one module for each of its files, and the in-memory store.
pub mod Errors
pub mod Money
pub mod Status
pub mod Aggregate
pub mod Cursor
pub mod Ports
pub mod Memory
pub mod Rows
pub mod Postgres
pub mod Service
