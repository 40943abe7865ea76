-- ===== src/Pool/Draining.antt =====
-- The requests that wait in a pool, and connections that become ready one after the other
-- (src/details/connection/connection_pool.cpp).
use redis_async.Prelude.{ℕ, ◌≡◌, refl, sym, Bool, [], ◌∷◌, ◌++◌, map, List, append-nil}
use redis_async.Errors.{raise, Throws, ok, ◌>>=◌}
use redis_async.Connection.Events.{Execute}
use redis_async.Pool.{Pool, Call, execute, next_event, connection_ready}
use redis_async.Pool.History.{Event, became_ready, step, run}

-- Connections that become ready, each with the request that waits for one.
abbrev pub Pairs : Type 0
Pairs = List (ℕ × Execute)

abbrev pub waiting : Pairs → List Execute
waiting = map (λ (c, e). e)

abbrev pub readied : Pairs → List Event
readied = map (λ (c, e). became_ready c)

abbrev pub handed : Pairs → List Call
handed = map (λ (c, e). execute c e)

module _ (at_once : ℕ → Bool) where
  -- The history behind the connections that are given the requests.
  run_behind :
      (p : Pool) (pairs : Pairs) (rest : List Execute) (more : List Event)
      → run at_once (record p { queue = waiting pairs ++ rest }) (readied pairs ++ more) ≡ (
          run at_once (record p { queue = rest }) more >>= λ (q, calls).
          ok (q, handed pairs ++ calls))
  unfolding run step connection_ready next_event
  run_behind p [] rest more = by_outcome (run at_once (record p { queue = rest }) more)
    where
      by_outcome :
          (r : Throws (Pool × List Call))
          → r ≡ ◌>>=◌ {B = Pool × List Call} r (λ (q, calls). ok (q, calls))
      by_outcome (ok a) = refl
      by_outcome (raise e) = refl
  run_behind p ((c, e) ∷ pairs) rest more =
      rw (run_behind p pairs rest more) (by_outcome (run at_once (record p { queue = rest }) more))
    where
      by_outcome :
          (r : Throws (Pool × List Call))
          → (◌>>=◌ {B = Pool × List Call} r (λ (q, calls). ok (q, handed pairs ++ calls))
              >>= λ (q, calls). ok (q, execute c e ∷ calls))
            ≡ ◌>>=◌ {B = Pool × List Call} r
                (λ (q, calls). ok (q, execute c e ∷ handed pairs ++ calls))
      by_outcome (ok a) = refl
      by_outcome (raise err) = refl

  -- As many connections that become ready, one after the other, as requests are first in the queue of
  -- a pool, open or closed: each is given the next of them, in the order of the queue, and the
  -- requests behind them wait on.
  pub run-readied :
      (p : Pool) (pairs : Pairs) (rest : List Execute)
      → p.queue ≡ waiting pairs ++ rest
      → run at_once p (readied pairs) ≡ ok (record p { queue = rest }, handed pairs)
  unfolding run
  run-readied p pairs rest e = rw (sym (append-nil (readied pairs))) (by_queue p.queue e)
    where
      by_queue :
          (es : List Execute)
          → es ≡ waiting pairs ++ rest
          → run at_once (record p { queue = es }) (readied pairs ++ [])
            ≡ ok (record p { queue = rest }, handed pairs)
      by_queue es h = rw (h, run_behind p pairs rest [], append-nil (handed pairs)) refl
