-- ===== src/Connection/Machine/Session/Refines.antt =====
-- The state machine of a connection as a session
-- (include/redis_async/details/connection/connection_fsm.hpp).
use redis_async.Connection.Machine.{Machine}
use redis_async.Connection.Machine.Session.{Session}
