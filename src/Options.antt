-- ===== src/Options.antt =====
-- The options of a connection: include/redis_async/common.hpp.
pub mod Literals
pub mod Text
pub mod Numbers
pub mod Parser
use redis_async.Prelude.{Bool, Bytes}
use redis_async.Prelude.Int.{ℤ}

-- `connection_options`; the timeouts are counts of milliseconds.
pub record ConnectionOptions : Type 0 where
  pub alias : Bytes
  pub schema : Bytes
  pub uri : Bytes
  pub database : Bytes
  pub password : Bytes
  pub keep_alive : Bool
  pub connect_timeout : ℤ
  pub socket_timeout : ℤ
