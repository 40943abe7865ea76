-- ===== src/Connection/Events.antt =====
-- The events of include/redis_async/details/connection/events.hpp, and the creation of a connection
-- in src/details/connection/base_connection.cpp.
use redis_async.Prelude.{ℕ, Option, ◌++◌, Bytes, codes, bytes_eq, if◌then◌else◌}
use redis_async.Errors as Errors
use redis_async.Errors.{Throws, ok, throw}
use redis_async.Protocol.Types.{Result}
use redis_async.Options.{ConnectionOptions}

-- `events::execute`. A callback is a number, or nothing where the `std::function` is empty.
pub record Execute : Type 0 where
  pub buff : Bytes
  pub result : Option ℕ
  pub error : Option ℕ

-- What the state machine of a connection processes: the options it connects with, the events of
-- namespace `events`, and the errors with their texts.
pub data FsmEvent : Type 0 where
  options : ConnectionOptions → FsmEvent
  complete : FsmEvent
  recv : Result → FsmEvent
  execute : Execute → FsmEvent
  terminate : FsmEvent
  query_error connection_error : Bytes → FsmEvent

-- The transports for which a connection can be made.
pub data Transport : Type 0 where
  tcp_transport socket_transport : Transport

-- `basic_connection::create`, as far as it may throw: the transport of the connection.
unfoldable pub create : ConnectionOptions → Throws Transport
create opts =
    if bytes_eq opts.schema (codes "tcp")
    then ok tcp_transport
    else if bytes_eq opts.schema (codes "unix")
    then ok socket_transport
    else throw
        (Errors.connection_error (codes "Schema " ++ (opts.schema ++ codes " is unsupported")))
