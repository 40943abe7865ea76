-- ===== src/Pool/History.antt =====
-- A history of a pool: the calls that its clients and its connections make on it, one after the
-- other, each of which runs to its end (src/details/connection/connection_pool.cpp).
pub mod Outcomes
use redis_async.Prelude.{ℕ, ◌+◌, ◌++◌, Option, none, some, Bool, if◌then◌else◌, ◌==◌, [], ◌∷◌, List}
use redis_async.Errors.{RdError, Throws, ok, ◌>>=◌}
use redis_async.Connection.Events.{Execute}
use redis_async.Pool.{
  Pool, Call, execute, fail, get_connection, connection_ready, connection_terminated,
  connection_error_pool, close,
}

-- The calls that others make on the pool.
pub data Event : Type 0 where
  requested : Execute → ℕ → Event
  became_ready : ℕ → Event
  terminated : Option ℕ → Event
  failed : Option ℕ → RdError → Event
  closing : Option ℕ → Event

module _ (at_once : ℕ → Bool) where
  unfoldable pub step : Pool → Event → Throws (Pool × List Call)
  unfolding get_connection connection_ready connection_terminated connection_error_pool close
  step p (requested e fresh) = get_connection p e fresh
  step p (became_ready c) = ok (connection_ready at_once p c)
  step p (terminated c) = ok (connection_terminated p c)
  step p (failed c err) = ok (connection_error_pool p c err)
  step p (closing callback) = ok (close at_once p callback)

  -- The state after a history, and every call that was made in it.
  unfoldable pub run : Pool → List Event → Throws (Pool × List Call)
  unfolding step
  run p [] = ok (p, [])
  run p (ev ∷ evs) = step p ev >>= λ (q, calls). run q evs >>= λ (r, more). ok (r, calls ++ more)

-- The requests of a history, in the order in which they were made.
unfoldable pub requests : List Event → List Execute
requests [] = []
requests (requested e fresh ∷ evs) = e ∷ requests evs
requests (_ ∷ evs) = requests evs

-- The requests that connections were told to execute, in this order.
unfoldable pub executed : List Call → List Execute
executed [] = []
executed (execute c e ∷ calls) = e ∷ executed calls
executed (_ ∷ calls) = executed calls

unfoldable pub count_of : Option ℕ → ℕ → ℕ
count_of none x = 0
count_of (some y) x = if y == x then 1 else 0

-- How many of the requests have the error callback `x`.
unfoldable pub pending : ℕ → List Execute → ℕ
unfolding count_of
pending x [] = 0
pending x (e ∷ es) = count_of e.error x + pending x es

-- How many requests with the error callback `x` a connection was told to execute, or were failed.
unfoldable pub handled : ℕ → List Call → ℕ
unfolding count_of
handled x [] = 0
handled x (execute c e ∷ calls) = count_of e.error x + handled x calls
handled x (fail y err ∷ calls) = count_of (some y) x + handled x calls
handled x (_ ∷ calls) = handled x calls
