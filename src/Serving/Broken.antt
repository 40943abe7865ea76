-- ===== src/Serving/Broken.antt =====
-- A connection that breaks, and its pool
-- (include/redis_async/details/connection/connection_fsm.hpp,
-- src/details/connection/connection_pool.cpp).
use redis_async.Errors as Errors
use redis_async.Connection.Machine.{Machine}
use redis_async.Pool.{Pool}
