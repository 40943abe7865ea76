-- ===== src/Serving/Conversation/Asked.antt =====
-- Requests on a pool of which the last connection is idle
-- (src/details/connection/connection_pool.cpp).
use redis_async.Prelude.{
  ℕ, ◌≡◌, refl, sym, ap, Bool, false, [], ◌∷◌, ◌++◌, map, List, length, ltb, append-nil,
  append_assoc, arith,
}
use redis_async.Errors.{ok}
use redis_async.Connection.Events.{Execute}
use redis_async.Pool.{Pool, execute, get_idle_connection, get_connection, enqueue_event}
use redis_async.Pool.History.{step, run}
use redis_async.Serving.Conversation.{Talk, request_of, asked}

module _ (at_once : ℕ → Bool) where
  get_connection-waiting :
      (p : Pool) (e : Execute) (fresh : ℕ)
      → p.closed ≡ false
      → p.ready ≡ []
      → ltb (length p.connections) p.pool_size ≡ false
      → get_connection p e fresh ≡ ok (record p { queue = p.queue ++ e ∷ [] }, [])
  unfolding get_connection get_idle_connection enqueue_event
  get_connection-waiting p e fresh o r full = ground (arith, o, r, full)

  get_connection-idle :
      (p : Pool) (e : Execute) (fresh c : ℕ)
      → p.closed ≡ false
      → p.ready ≡ c ∷ []
      → get_connection p e fresh ≡ ok (record p { ready = [] }, execute c e ∷ [])
  unfolding get_connection get_idle_connection
  get_connection-idle p e fresh c o r = ground (arith, o, r)

  -- Requests wait where no connection is idle and none may be made.
  run-waiting :
      (p : Pool) (fresh : ℕ) (talks : List Talk)
      → p.closed ≡ false
      → p.ready ≡ []
      → ltb (length p.connections) p.pool_size ≡ false
      → run at_once p (asked fresh talks)
        ≡ ok (record p { queue = p.queue ++ map request_of talks }, [])
  unfolding run step
  run-waiting p fresh [] o r full =
      ap (λ es. ok (record p { queue = es }, [])) (sym (append-nil p.queue))
  run-waiting p fresh (t ∷ talks) o r full =
      let e : Execute = request_of t in
      rw
        (
          get_connection-waiting p e fresh o r full,
          run-waiting (record p { queue = p.queue ++ e ∷ [] }) fresh talks o r full,
          append_assoc p.queue (e ∷ []) (map request_of talks),
        )
        refl

  -- The first request goes to the idle connection.
  pub run-asked :
      (p : Pool) (c fresh : ℕ) (t : Talk) (talks : List Talk)
      → p.closed ≡ false
      → p.ready ≡ c ∷ []
      → p.queue ≡ []
      → ltb (length p.connections) p.pool_size ≡ false
      → run at_once p (asked fresh (t ∷ talks))
        ≡ ok (record p { ready = []; queue = map request_of talks }, execute c (request_of t) ∷ [])
  unfolding run step
  run-asked p c fresh t talks o r q full =
      rw
        (
          get_connection-idle p (request_of t) fresh c o r,
          run-waiting (record p { ready = [] }) fresh talks o refl full,
          q,
        )
        refl
