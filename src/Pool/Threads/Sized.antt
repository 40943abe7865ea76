-- ===== src/Pool/Threads/Sized.antt =====
-- How many connections a pool has while the calls of several threads interleave
-- (src/details/connection/connection_pool.cpp).
use redis_async.Prelude.{
  ℕ, suc, ◌+◌, ◌≤◌, ◌<◌, ◌≡◌, ◌⊎◌, inl, ap, subst, ◌∙◌, refl, Bool, true, [], ◌∷◌, ◌++◌, List,
  length, length-append, arith,
}
use redis_async.Pool.{Pool, Call, next_event, enqueue_event, clear_queue}
use redis_async.Pool.Invariant.{Shrunk, close_connections-Shrunk, erase_connection-Shrunk}
use redis_async.Pool.Threads.{
  Thread, takes_event, finds_none, adds_idle, closes_connections, asks, looks_for_idle, tests_size,
  takes_idle, tests_closed, pushes, pushes_idle, creates, enqueues, erases, clears, leaves,
  tests_last, marks_closed, sets_callback, tests_queue, threw, finished, advance, System, Step,
  enters, moves, start, is_start,
}

-- The threads that have found room for a connection and have not added it, and those that are in
-- get_connection.
unfoldable pub making : Thread → ℕ
making (tests_closed e fresh) = 1
making (creates e fresh) = 1
making (pushes e fresh) = 1
making _ = 0

unfoldable pub asking : Thread → ℕ
asking (asks e fresh) = 1
asking (looks_for_idle e fresh) = 1
asking (takes_idle e fresh) = 1
asking (tests_size e fresh) = 1
asking (tests_closed e fresh) = 1
asking (creates e fresh) = 1
asking (pushes e fresh) = 1
asking (enqueues e) = 1
asking _ = 0

making-asking : (t : Thread) → making t ≤ asking t
unfolding making asking
making-asking t = ground arith

-- A count over all threads.
unfoldable pub total : (Thread → ℕ) → List Thread → ℕ
total f [] = 0
total f (t ∷ ts) = f t + total f ts

total-append : (f : Thread → ℕ) (ts us : List Thread) → total f (ts ++ us) ≡ total f ts + total f us
unfolding total
total-append f [] us = omega arith
total-append f (t ∷ ts) us = omega (arith, total-append f ts us)

total_monotone :
    (f g : Thread → ℕ) → ((t : Thread) → f t ≤ g t) → (ts : List Thread) → total f ts ≤ total g ts
unfolding total
total_monotone f g le [] = omega arith
total_monotone f g le (t ∷ ts) = omega (arith, le t, total_monotone f g le ts)

-- Before and after a step: the connections and those that are being made are no more than before, or
-- there was room for one more.
abbrev Sized : Pool → Thread → (Pool × Thread) × List Call → Type 0
Sized p t ((q, u), calls) =
    (q.pool_size ≡ p.pool_size)
    × ((length q.connections + making u ≤ length p.connections + making t)
        ⊎ ((length q.connections < p.pool_size) × (making u ≤ 1) × (asking u ≡ 1)))

Shrunk-Sized :
    (p q : Pool) (t u : Thread) (calls : List Call)
    → Shrunk p q
    → making u ≤ making t
    → Sized p t ((q, u), calls)
Shrunk-Sized p q t u calls s le = (
  ap (λ r. r.pool_size) s.same,
  inl (omega (arith, s.fewer, le, ap (λ r. length r.connections) s.same)),
)

module _ (at_once : ℕ → Bool) where
  advance-Sized : (p : Pool) (t : Thread) → Sized p t (advance at_once p t)
  unfolding making asking advance next_event enqueue_event clear_queue
  advance-Sized p (takes_event c) = ground arith
  advance-Sized p (finds_none c) = ground arith
  advance-Sized p (adds_idle c) = ground arith
  advance-Sized p (pushes_idle c) = ground arith
  advance-Sized p closes_connections =
      Shrunk-Sized p _ closes_connections finished [] (close_connections-Shrunk at_once p)
        (omega arith)
  advance-Sized p (asks e fresh) = ground arith
  advance-Sized p (looks_for_idle e fresh) = ground arith
  advance-Sized p (tests_size e fresh) = ground arith
  advance-Sized p (takes_idle e fresh) = ground arith
  advance-Sized p (tests_closed e fresh) = ground arith
  advance-Sized p (creates e fresh) = ground arith
  advance-Sized p (pushes e fresh) = ground (arith, length-append p.connections (fresh ∷ []))
  advance-Sized p (enqueues e) = ground arith
  advance-Sized p (erases c err) =
      Shrunk-Sized p _ (erases c err) (clears err) [] (erase_connection-Shrunk p c) (omega arith)
  advance-Sized p (clears err) = ground arith
  advance-Sized p (leaves c) =
      Shrunk-Sized p _ (leaves c) tests_last [] (erase_connection-Shrunk p c) (omega arith)
  advance-Sized p tests_last = ground arith
  advance-Sized p (marks_closed callback) = ground arith
  advance-Sized p (sets_callback callback) = ground arith
  advance-Sized p tests_queue = ground arith
  advance-Sized p (threw e err) = ground arith
  advance-Sized p finished = ground arith

module _ (at_once : ℕ → Bool) (n : ℕ) where
  -- The states that are reached while at most n + 1 threads are in get_connection.
  pub data ReachFew (p : Pool) : System → Type 0 where
    here : ReachFew p (start p)
    later :
        {s t : System}
        → ReachFew p s
        → Step at_once s t
        → total asking t.threads ≤ suc n
        → ReachFew p t

  -- The size is as it was; the connections and those that are being made are at most n more.
  abbrev pub IsSized : Pool → System → Type 0
  IsSized p s =
      (s.pool.pool_size ≡ p.pool_size)
      × (length s.pool.connections + total making s.threads ≤ p.pool_size + n)

  making-is_start : (t : Thread) → is_start t ≡ true → making t ≡ 0
  unfolding making
  making-is_start t h = ground (arith, h)

  Step-IsSized :
      (p : Pool) {s t : System}
      → Step at_once s t
      → total asking t.threads ≤ suc n
      → IsSized p s
      → IsSized p t
  unfolding total
  Step-IsSized p {s} (enters t begins) few (size, bound) =
      (size, omega (arith, bound, total-append making s.threads (t ∷ []), making-is_start t begins))
  Step-IsSized p {s} (moves before after t u q made at step) few (size, bound) =
      let (kept, either) = subst (Sized s.pool t) step (advance-Sized at_once s.pool t) in
      (
        kept ∙ size,
        omega (
          arith,
          either,
          size,
          bound,
          few,
          ap (total making) at,
          total-append making before (t ∷ after),
          total-append making before (u ∷ after),
          total-append asking before (u ∷ after),
          total_monotone making asking making-asking before,
          total_monotone making asking making-asking after,
        ),
      )

  -- While at most n + 1 threads are in get_connection at a time, and however the steps of all threads
  -- interleave, a pool that has at most its size of connections never has more than n beyond its
  -- size, those that a thread has still to make counted.
  pub ReachFew-IsSized :
      (p : Pool) (s : System) → length p.connections ≤ p.pool_size → ReachFew p s → IsSized p s
  unfolding total
  ReachFew-IsSized p s h here = (refl, omega (arith, h))
  ReachFew-IsSized p s h (later r step few) = Step-IsSized p step few (ReachFew-IsSized p _ h r)
