-- ===== src/Service/Singleton.antt =====
-- The one service of a program: rd_service of src/redis_async.cpp.
use redis_async.Prelude.{
  ℕ, ◌≡◌, refl, ap, append-nil, Option, none, some, Bool, [], ◌++◌, List, Bytes, codes,
}
use redis_async.Errors.{raise, connection_error, Throws, ok, throw}
use redis_async.Options.{ConnectionOptions}
use redis_async.Connection.Events.{Execute}
use redis_async.Pool.{Call}
use redis_async.Service as Service
use redis_async.Service.{
  Service, new_service, add_options, lookup, ServiceState, running, closing, closed,
}

-- `DEFAULT_POOL_SIZE`
abbrev pub default_pool_size : ℕ
default_pool_size = 4

-- `impl`: the service that `impl_ptr` holds, made where it holds none.
unfoldable pub impl : ℕ → Option Service → Service
unfolding new_service
impl pool_size none = new_service pool_size
impl pool_size (some s) = s

-- What `impl_ptr` holds after a call, and what the call returns or throws. A service that throws is
-- as it was.
abbrev pub held {ℓ} : {A : Type ℓ} → Service → Throws (Service × A) → Option Service × Throws A
held s (ok (t, a)) = (some t, ok a)
held s (raise e) = (some s, raise e)

abbrev pub no_value : Throws Service → Throws (Service × Unit {0})
no_value (ok t) = ok (t, tt)
no_value (raise e) = raise e

module _ (split : ℕ → Bytes → List Bytes) (to_lower_copy : Bytes → Bytes) where
  unfoldable pub add_connection :
      Option Service → Bytes → Option ℕ → ℕ → Option Service × Throws (Unit {0})
  unfolding impl Service.add_connection
  add_connection held_service text pool_size fresh =
      let s = impl default_pool_size held_service in
      held s (no_value (Service.add_connection split to_lower_copy s text pool_size fresh))

unfoldable pub add_connection_options :
    Option Service → ConnectionOptions → Option ℕ → ℕ → Option Service × Throws (Unit {0})
unfolding impl add_options
add_connection_options held_service co pool_size fresh =
    let s = impl default_pool_size held_service in
    held s (no_value (add_options s co pool_size fresh))

-- The request's buffer is written already.
unfoldable pub execute : Option Service → Bytes → Execute → ℕ → Option Service × Throws (List Call)
unfolding impl Service.get_connection
execute held_service alias e fresh =
    let s = impl default_pool_size held_service in held s (Service.get_connection s alias e fresh)

-- `stop`, with the destructor of the service, which `reset` calls where no other pointer holds it.
unfoldable pub stop : (ℕ → Bool) → Option Service → ℕ → Option Service × List Call
unfolding Service.stop
stop at_once none callback = (none, [])
stop at_once (some s) callback =
    let (stopped, calls) = Service.stop at_once s callback in
    (none, calls ++ (Service.stop at_once stopped callback).1)

-- After `stop` the next request makes a service of the default size, which knows no alias: it throws
-- that the alias is not registered, whatever was there before.
pub execute-stop :
    (at_once : ℕ → Bool) (g : Option Service) (callback : ℕ) (alias : Bytes) (e : Execute)
    (fresh : ℕ)
    → execute (stop at_once g callback).0 alias e fresh ≡ (
      some (new_service default_pool_size),
      throw (connection_error (codes "Database alias '" ++ (alias ++ codes "' is not registered"))),
    )
unfolding execute stop impl new_service lookup Service.get_connection Service.stop
execute-stop at_once none callback alias e fresh = refl
execute-stop at_once (some s) callback alias e fresh = refl

-- Stopping a held service holds none, and makes the calls of the service's `stop` and no others: the
-- destructor finds the service stopped.
pub stop-calls :
    (at_once : ℕ → Bool) (s : Service) (callback : ℕ)
    → stop at_once (some s) callback ≡ (none, (Service.stop at_once s callback).1)
unfolding stop Service.stop
stop-calls at_once s callback = by_state s.state
  where
    by_state :
        (state : ServiceState)
        → let t = record s { state = state } in
          stop at_once (some t) callback ≡ (none, (Service.stop at_once t callback).1)
    by_state running = ap (λ calls. (none, calls)) (append-nil _)
    by_state closing = refl
    by_state closed = refl
