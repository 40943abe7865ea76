-- ===== src/Pool/Threads/Handed.antt =====
-- Where the requests of a pool are while the calls of several threads interleave
-- (src/details/connection/connection_pool.cpp).
use redis_async.Prelude.{ℕ, ◌+◌, ◌≡◌, ap, subst, Bool, [], ◌∷◌, ◌++◌, List, arith}
use redis_async.Connection.Events.{Execute}
use redis_async.Pool.{
  Pool, Call, get_idle_connection, add_idle_connection, erase_connection, next_event, enqueue_event,
  clear_queue, create_new_connection,
}
use redis_async.Pool.History.{count_of, pending, handled}
use redis_async.Pool.Invariant.{close_connections-Shrunk}
use redis_async.Pool.Serves.{pending-append, handled-append, fail_all-handled}
use redis_async.Pool.Steps.{close_connections-IsQuiet}
use redis_async.Pool.Threads.{
  Thread, takes_event, finds_none, adds_idle, closes_connections, asks, looks_for_idle, tests_size,
  takes_idle, tests_closed, pushes, pushes_idle, creates, enqueues, erases, clears, leaves,
  tests_last, marks_closed, sets_callback, tests_queue, threw, finished, advance, in_hand, System,
  Step, enters, moves, Reach, here, later,
}

-- Before and after a step, for the error callback `x`.
abbrev Kept : ℕ → Pool → Thread → (Pool × Thread) × List Call → Type 0
Kept x p t ((q, u), calls) =
    pending x p.queue + pending x (in_hand t)
    ≡ handled x calls + (pending x q.queue + pending x (in_hand u))

module _ (at_once : ℕ → Bool) where
  advance-Kept : (x : ℕ) (p : Pool) (t : Thread) → Kept x p t (advance at_once p t)
  unfolding in_hand advance pending handled count_of next_event add_idle_connection
      get_idle_connection create_new_connection enqueue_event erase_connection clear_queue
  advance-Kept x p (takes_event c) = ground arith
  advance-Kept x p (finds_none c) = ground arith
  advance-Kept x p (adds_idle c) = ground arith
  advance-Kept x p (pushes_idle c) = ground arith
  advance-Kept x p closes_connections = omega (
    arith,
    (close_connections-IsQuiet at_once p).no_failure x,
    ap (λ q. pending x q.queue) (close_connections-Shrunk at_once p).same,
  )
  advance-Kept x p (asks e fresh) = ground arith
  advance-Kept x p (looks_for_idle e fresh) = ground arith
  advance-Kept x p (tests_size e fresh) = ground arith
  advance-Kept x p (takes_idle e fresh) = ground arith
  advance-Kept x p (tests_closed e fresh) = ground arith
  advance-Kept x p (creates e fresh) = ground arith
  advance-Kept x p (pushes e fresh) = ground arith
  advance-Kept x p (enqueues e) = ground (arith, pending-append x p.queue (e ∷ []))
  advance-Kept x p (erases c err) = ground arith
  advance-Kept x p (clears err) = ground (arith, fail_all-handled x p.queue err)
  advance-Kept x p (leaves c) = ground arith
  advance-Kept x p tests_last = ground arith
  advance-Kept x p (marks_closed callback) = ground arith
  advance-Kept x p (sets_callback callback) = ground arith
  advance-Kept x p tests_queue = ground arith
  advance-Kept x p (threw e err) = ground arith
  advance-Kept x p finished = ground arith

-- The requests that the threads have in hand.
unfoldable pub in_hands : List Thread → List Execute
in_hands [] = []
in_hands (t ∷ ts) = in_hand t ++ in_hands ts

pending-in_hands :
    (x : ℕ) (before : List Thread) (t : Thread) (after : List Thread)
    → pending x (in_hands (before ++ t ∷ after))
      ≡ pending x (in_hands before) + (pending x (in_hand t) + pending x (in_hands after))
unfolding in_hands pending
pending-in_hands x [] t after = omega (arith, pending-append x (in_hand t) (in_hands after))
pending-in_hands x (s ∷ before) t after = omega (
  arith,
  pending-in_hands x before t after,
  pending-append x (in_hand s) (in_hands (before ++ t ∷ after)),
  pending-append x (in_hand s) (in_hands before),
)

-- For every error callback: the requests that waited at the start or were brought are as many as those
-- that were handed to a connection or failed, those that wait and those in the hands of threads.
abbrev pub IsKept : Pool → System → Type 0
IsKept p s =
    (x : ℕ)
    → pending x p.queue + pending x s.asked
      ≡ handled x s.calls + (pending x s.pool.queue + pending x (in_hands s.threads))

module _ (at_once : ℕ → Bool) where
  Step-IsKept : (p : Pool) {s t : System} → Step at_once s t → IsKept p s → IsKept p t
  unfolding in_hands pending
  Step-IsKept p {s} (enters t begins) h x =
      omega (arith, h x, pending-append x s.asked (in_hand t), pending-in_hands x s.threads t [])
  Step-IsKept p {s} (moves before after t u q made at step) h x = omega (
    arith,
    h x,
    ap (λ ts. pending x (in_hands ts)) at,
    subst (Kept x s.pool t) step (advance-Kept at_once x s.pool t),
    handled-append x s.calls made,
    pending-in_hands x before t after,
    pending-in_hands x before u after,
  )

  -- However the steps of calls from any number of threads interleave: for every error callback, the
  -- requests that carry it and waited at the start or were brought are as many as those that were
  -- handed to a connection or failed, those that wait and those in the hands of threads, the threads
  -- that threw among them.
  pub Reach-IsKept : (p : Pool) (s : System) → Reach at_once p s → IsKept p s
  unfolding pending handled in_hands
  Reach-IsKept p s here = λ x. omega arith
  Reach-IsKept p s (later r step) = Step-IsKept p step (Reach-IsKept p _ r)
