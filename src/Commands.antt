-- ===== src/Commands.antt =====
-- The commands of include/redis_async/commands.hpp.
pub mod Types
pub mod Args
pub mod Keys
pub mod Hashes
pub mod Lists
pub mod Sets
pub mod Request
