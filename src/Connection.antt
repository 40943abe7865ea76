-- ===== src/Connection.antt =====
-- A connection: include/redis_async/details/connection.
pub mod Delivery
pub mod Events
pub mod Reading
pub mod Transport
pub mod States
pub mod Machine
pub mod Exchange
