-- ===== src/Serving/Closing.antt =====
-- The last reply to a connection of a closed pool
-- (src/details/connection/connection_pool.cpp,
-- include/redis_async/details/connection/connection_fsm.hpp).
use redis_async.Prelude.{ℕ, Bool, ◌∷◌, List}
use redis_async.Connection.Events.{Transport}
use redis_async.Connection.Machine.{
  terminated, Machine, Action, close_transport, call_terminated, no_callbacks,
}
use redis_async.Connection.Machine.Session.{told}
use redis_async.Pool as Pool
use redis_async.Pool.{Pool}

-- A machine that has terminated.
abbrev pub ended : Machine → Machine
ended m = record m { state = terminated; callbacks = no_callbacks }

module _ (transport : Transport) (at_once : ℕ → Bool) (c : ℕ) where
  -- What a machine calls that terminates while it is idle.
  abbrev pub leaving : Machine → List Action
  leaving m = close_transport ∷ told m.callbacks.terminated_callback call_terminated
