-- ===== src/Pool/Threads/Races.antt =====
-- Races of two threads on one pool (src/details/connection/connection_pool.cpp).
use redis_async.Prelude.{
  ℕ, ◌+◌, ◌≡◌, refl, sym, subst, ◌<◌, append_assoc, length-append, Bool, true, false, [], ◌∷◌, ◌++◌,
  List, length, ltb, arith,
}
use redis_async.Errors.{ok}
use redis_async.Connection.Events.{Execute, Transport, create}
use redis_async.Pool.{
  Pool, get_idle_connection, add_idle_connection, next_event, enqueue_event, create_new_connection,
}
use redis_async.Pool.Threads.{
  takes_idle, tests_closed, pushes, pushes_idle, takes_event, finds_none, adds_idle, asks,
  looks_for_idle, tests_size, creates, enqueues, finished, advance, in_hand, System, Step, enters,
  moves, Reach, here, later,
}

infixl 20 ◌▹◌
module _ {at_once : ℕ → Bool} {p : Pool} where
  -- One step more.
  ◌▹◌ : {s t : System} → Reach at_once p s → Step at_once s t → Reach at_once p t
  ◌▹◌ r step = later r step

module _ (at_once : ℕ → Bool) where
  -- A pool that is open and where no connection is idle and no request waits.
  abbrev pub Resting : Pool → Type 0
  Resting p = (p.closed ≡ false) × ((p.ready ≡ []) × (p.queue ≡ []))

  rests : (p : Pool) → Resting p → record p { closed = false; ready = []; queue = [] } ≡ p
  rests p h = by_fields p.closed p.ready p.queue h.0 h.1.0 h.1.1
    where
      by_fields :
          (b : Bool) (cs : List ℕ) (es : List Execute)
          → b ≡ false
          → cs ≡ []
          → es ≡ []
          → record p { closed = false; ready = []; queue = [] }
            ≡ record p { closed = b; ready = cs; queue = es }
      by_fields b cs es o r q = rw (o, r, q) refl

  -- Where a race on a pool ends, with these idle connections, requests that wait and connections.
  abbrev pub Ended : Pool → (connections ready : List ℕ) (queue asked : List Execute) → System
  Ended p connections ready queue asked = record {
    pool = record p { connections = connections; ready = ready; queue = queue };
    threads = finished ∷ finished ∷ [];
    calls = [];
    asked = asked;
  }

  -- On an open pool of which no connection is idle, no request waits and all connections are made, a
  -- connection that becomes ready may look for a request before another thread's request is queued,
  -- and become idle after that thread looked for an idle connection: both calls end, the connection
  -- is idle and the request waits.
  pub Reach-idle :
      (p : Pool) (c : ℕ) (e : Execute) (fresh : ℕ)
      → Resting p
      → ltb (length p.connections) p.pool_size ≡ false
      → Reach at_once p (Ended p p.connections (c ∷ []) (e ∷ []) (e ∷ []))
  unfolding in_hand advance next_event add_idle_connection get_idle_connection enqueue_event
  Reach-idle p c e fresh h full =
      subst (λ q. Reach at_once q (Ended q q.connections (c ∷ []) (e ∷ []) (e ∷ []))) (rests p h)
        on_fields
    where
      on_fields :
          let q = record p { closed = false; ready = []; queue = [] } in
          Reach at_once q (Ended q q.connections (c ∷ []) (e ∷ []) (e ∷ []))
      on_fields =
          let q : Pool = record p { closed = false; ready = []; queue = [] } in
          let idle : Pool = record q { ready = c ∷ [] } in
          here
          ▹ enters (takes_event c) refl
          ▹ moves [] [] (takes_event c) (finds_none c) q [] refl refl
          ▹ moves [] [] (finds_none c) (adds_idle c) q [] refl refl
          ▹ moves [] [] (adds_idle c) (pushes_idle c) q [] refl refl
          ▹ enters (asks e fresh) refl
          ▹ moves (pushes_idle c ∷ []) [] (asks e fresh) (looks_for_idle e fresh) q [] refl refl
          ▹ moves (pushes_idle c ∷ []) [] (looks_for_idle e fresh) (takes_idle e fresh) q [] refl
              refl
          ▹ moves (pushes_idle c ∷ []) [] (takes_idle e fresh) (tests_size e fresh) q [] refl refl
          ▹ moves (pushes_idle c ∷ []) [] (tests_size e fresh) (enqueues e) q [] refl (rw full refl)
          ▹ moves [] (enqueues e ∷ []) (pushes_idle c) finished idle [] refl refl
          ▹ moves (finished ∷ []) [] (enqueues e) finished (record idle { queue = e ∷ [] }) [] refl
              refl

  -- On an open pool of which no connection is idle, no request waits and one connection may still be
  -- made, for options for which it can be, two threads may each read the number of the connections
  -- before the other adds to them: both make a connection, and the pool has one more than its size.
  pub Reach-beyond_size :
      (p : Pool) (d e : Execute) (c b : ℕ) (transport : Transport)
      → Resting p
      → length p.connections + 1 ≡ p.pool_size
      → create p.co ≡ ok transport
      → Reach at_once p (Ended p (p.connections ++ c ∷ b ∷ []) [] (d ∷ e ∷ []) (d ∷ e ∷ []))
        × (p.pool_size < length (p.connections ++ c ∷ b ∷ []))
  unfolding in_hand advance create_new_connection get_idle_connection enqueue_event
  Reach-beyond_size p d e c b transport h one created = (
    subst
        (λ q. Reach at_once q (Ended q (q.connections ++ c ∷ b ∷ []) [] (d ∷ e ∷ []) (d ∷ e ∷ [])))
        (rests p h) on_fields,
    omega (arith, one, length-append p.connections (c ∷ b ∷ [])),
  )
    where
      room : ltb (length p.connections) p.pool_size ≡ true
      room = ground (arith, one)

      on_fields :
          let q = record p { closed = false; ready = []; queue = [] } in
          Reach at_once q (Ended q (q.connections ++ c ∷ b ∷ []) [] (d ∷ e ∷ []) (d ∷ e ∷ []))
      on_fields =
          let q : Pool = record p { closed = false; ready = []; queue = [] } in
          let r : Pool = record q { connections = p.connections ++ c ∷ [] } in
          let s : Pool = record q { connections = (p.connections ++ c ∷ []) ++ b ∷ [] } in
          rw (sym (append_assoc p.connections (c ∷ []) (b ∷ []))) (
            here
            ▹ enters (asks d c) refl
            ▹ moves [] [] (asks d c) (looks_for_idle d c) q [] refl refl
            ▹ moves [] [] (looks_for_idle d c) (takes_idle d c) q [] refl refl
            ▹ moves [] [] (takes_idle d c) (tests_size d c) q [] refl refl
            ▹ moves [] [] (tests_size d c) (tests_closed d c) q [] refl (rw room refl)
            ▹ enters (asks e b) refl
            ▹ moves (tests_closed d c ∷ []) [] (asks e b) (looks_for_idle e b) q [] refl refl
            ▹ moves (tests_closed d c ∷ []) [] (looks_for_idle e b) (takes_idle e b) q [] refl refl
            ▹ moves (tests_closed d c ∷ []) [] (takes_idle e b) (tests_size e b) q [] refl refl
            ▹ moves (tests_closed d c ∷ []) [] (tests_size e b) (tests_closed e b) q [] refl
                (rw room refl)
            ▹ moves [] (tests_closed e b ∷ []) (tests_closed d c) (creates d c) q [] refl refl
            ▹ moves (creates d c ∷ []) [] (tests_closed e b) (creates e b) q [] refl refl
            ▹ moves [] (creates e b ∷ []) (creates d c) (pushes d c) q [] refl
                (rw (advance, created) refl)
            ▹ moves (pushes d c ∷ []) [] (creates e b) (pushes e b) q [] refl
                (rw (advance, created) refl)
            ▹ moves [] (pushes e b ∷ []) (pushes d c) (enqueues d) r [] refl refl
            ▹ moves (enqueues d ∷ []) [] (pushes e b) (enqueues e) s [] refl refl
            ▹ moves [] (enqueues e ∷ []) (enqueues d) finished (record s { queue = d ∷ [] }) [] refl
                refl
            ▹ moves (finished ∷ []) [] (enqueues e) finished (record s { queue = d ∷ e ∷ [] }) []
                refl refl)
