-- ===== src/Protocol.antt =====
-- The wire protocol: include/redis_async/details/protocol and include/redis_async/rd_types.hpp.
pub mod Types
pub mod Parser
pub mod Grammar
pub mod Serializer
pub mod RoundTrip
