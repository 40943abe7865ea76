-- ===== src/Pool/Threads.antt =====
-- Calls of several threads on one pool: what a member of connection_pool::impl does under one lock, or
-- with one read or exchange of the flag closed_, is a step, and the steps of the threads interleave
-- (src/details/connection/connection_pool.cpp).
pub mod Handed
pub mod Races
pub mod Sized
use redis_async.Prelude.{
  ℕ, ◌+◌, ◌≡◌, refl, Option, none, some, Bool, true, false, ◌&&◌, not, [], ◌∷◌, ◌++◌, List, codes,
  length, ltb, if◌then◌else◌,
}
use redis_async.Errors.{Exception, raise, RdError, connection_error, Throws, ok, throw}
use redis_async.Connection.Events.{Execute, create}
use redis_async.Pool.{
  Pool, Call, execute, refuse, call_back, is_nil, pop, erase_connection, next_event, enqueue_event,
  clear_queue, close_connections,
}

-- Where a thread is in its call: connection_ready, get_connection, connection_error,
-- connection_terminated and close, each by the step that comes next.
pub data Thread : Type 0 where
  takes_event : (c : ℕ) → Thread
  finds_none : (c : ℕ) → Thread
  adds_idle pushes_idle : (c : ℕ) → Thread
  closes_connections : Thread
  asks looks_for_idle takes_idle tests_size tests_closed creates pushes :
      (e : Execute) (fresh : ℕ) → Thread
  enqueues : (e : Execute) → Thread
  erases : (c : Option ℕ) (err : RdError) → Thread
  clears : (err : RdError) → Thread
  leaves : (c : Option ℕ) → Thread
  tests_last : Thread
  marks_closed sets_callback : (callback : Option ℕ) → Thread
  tests_queue : Thread
  threw : (e : Execute) (err : Exception) → Thread
  finished : Thread

module _ (at_once : ℕ → Bool) where
  -- The next step of a thread. A test of both the flag and the number of the connections is one step.
  -- `close` holds the lock of the queue from its test until the connections are closed, and the steps
  -- allow more: another thread's step may stand between.
  unfoldable pub advance : Pool → Thread → (Pool × Thread) × List Call
  unfolding next_event close_connections enqueue_event erase_connection clear_queue
  advance p (takes_event c) = elim (next_event p) [
    | some (e, q) ↦ ((q, finished), execute c e ∷ [])
    | none ↦ ((p, finds_none c), [])
  ]
  advance p (finds_none c) = ((p, if p.closed then closes_connections else adds_idle c), [])
  advance p (adds_idle c) = ((p, if p.closed then finished else pushes_idle c), [])
  advance p (pushes_idle c) = ((record p { ready = p.ready ++ c ∷ [] }, finished), [])
  advance p closes_connections =
      let (q, calls) = close_connections at_once p in ((q, finished), calls)
  advance p (asks e fresh) =
      if p.closed
      then (elim (refuse e.error (connection_error (codes "Connection pool is closed"))) [
        | ok calls ↦ ((p, finished), calls)
        | raise err ↦ ((p, threw e err), [])
      ])
      else ((p, looks_for_idle e fresh), [])
  advance p (looks_for_idle e fresh) =
      ((p, if p.closed then tests_size e fresh else takes_idle e fresh), [])
  advance p (takes_idle e fresh) = elim (pop p.ready) [
    | some (c, rest) ↦ ((record p { ready = rest }, finished), execute c e ∷ [])
    | none ↦ ((p, tests_size e fresh), [])
  ]
  advance p (tests_size e fresh) = (
    (
      p,
      if not p.closed && ltb (length p.connections) p.pool_size
          then tests_closed e fresh
          else enqueues e,
    ),
    [],
  )
  advance p (tests_closed e fresh) = ((p, if p.closed then enqueues e else creates e fresh), [])
  advance p (creates e fresh) = elim (create p.co) [
    | ok transport ↦ ((p, pushes e fresh), [])
    | raise err ↦ ((p, threw e err), [])
  ]
  advance p (pushes e fresh) =
      ((record p { connections = p.connections ++ fresh ∷ [] }, enqueues e), [])
  advance p (enqueues e) = ((enqueue_event p e, finished), [])
  advance p (erases c err) = ((erase_connection p c, clears err), [])
  advance p (clears err) = let (q, calls) = clear_queue p err in ((q, finished), calls)
  advance p (leaves c) = ((erase_connection p c, tests_last), [])
  advance p tests_last =
      ((p, finished), if is_nil p.connections && p.closed then call_back p.closed_callback else [])
  advance p (marks_closed callback) =
      if p.closed
      then ((p, finished), [])
      else ((record p { closed = true }, sets_callback callback), [])
  advance p (sets_callback callback) = ((record p { closed_callback = callback }, tests_queue), [])
  advance p tests_queue = ((p, if is_nil p.queue then closes_connections else finished), [])
  advance p (threw e err) = ((p, threw e err), [])
  advance p finished = ((p, finished), [])

-- The request that a thread has in hand.
unfoldable pub in_hand : Thread → List Execute
in_hand (asks e fresh) = e ∷ []
in_hand (looks_for_idle e fresh) = e ∷ []
in_hand (tests_size e fresh) = e ∷ []
in_hand (takes_idle e fresh) = e ∷ []
in_hand (tests_closed e fresh) = e ∷ []
in_hand (creates e fresh) = e ∷ []
in_hand (pushes e fresh) = e ∷ []
in_hand (enqueues e) = e ∷ []
in_hand (threw e err) = e ∷ []
in_hand _ = []

-- Where a call begins.
abbrev pub is_start : Thread → Bool
is_start (takes_event c) = true
is_start (asks e fresh) = true
is_start (erases c err) = true
is_start (leaves c) = true
is_start (marks_closed callback) = true
is_start _ = false

-- The pool, the threads that are in a call of it, the calls that were made and the requests that
-- were brought, in their order.
pub record System : Type 0 where
  pub pool : Pool
  pub threads : List Thread
  pub calls : List Call
  pub asked : List Execute

abbrev pub start : Pool → System
start p = record { pool = p; threads = []; calls = []; asked = [] }

module _ (at_once : ℕ → Bool) where
  -- A thread begins a call, or takes its next step.
  pub data Step (s : System) : System → Type 0 where
    enters :
        (t : Thread)
        → is_start t ≡ true
        → Step s (record s { threads = s.threads ++ t ∷ []; asked = s.asked ++ in_hand t })
    moves :
        (before after : List Thread) (t u : Thread) (q : Pool) (made : List Call)
        → s.threads ≡ before ++ t ∷ after
        → advance at_once s.pool t ≡ ((q, u), made)
        → Step s (record s { pool = q; threads = before ++ u ∷ after; calls = s.calls ++ made })

  pub data Reach (p : Pool) : System → Type 0 where
    here : Reach p (start p)
    later : {s t : System} → Reach p s → Step s t → Reach p t
