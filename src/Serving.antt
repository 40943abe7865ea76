-- ===== src/Serving.antt =====
-- A pool and one of its connections together: the callbacks that
-- src/details/connection/connection_pool.cpp gives a connection, and the calls that the pool makes
-- on it.
pub mod Arrivals
pub mod Broken
pub mod Closing
pub mod Conversation
pub mod Served
use redis_async.Prelude.{
  length, All, Bytes, ℕ, ◌≡◌, refl, ap, ◌∙◌, Option, none, some, Bool, true, false, [], ◌∷◌, ◌++◌,
  map, List, append-nil, ◌==◌, arith, if◌then◌else◌,
}
use redis_async.Errors as Errors
use redis_async.Errors.{raise, Throws, ok, throw, ◌>>=◌, Returns, bind-Returns}
use redis_async.Connection.Events.{
  Execute, FsmEvent, options, complete, recv, execute, terminate, query_error, connection_error,
  Transport,
}
use redis_async.Connection.Machine.{
  idle, query, Machine, Action, async_write, call_idle, call_terminated, call_error, post_result,
  call_query_error, no_query, dispatch,
}
use redis_async.Connection.Machine.Session.{
  told, dispatch-execute, dispatch-recv, dispatch-query_error,
}
use redis_async.Protocol.Types.{Run}
use redis_async.Connection.Reading.{Read, finished, raised, out_of_rounds, handle_read}
use redis_async.Pool as Pool
use redis_async.Pool.{
  Pool, Call, next_event, add_idle_connection, connection_ready, connection_terminated,
  connection_error_pool,
}

-- The answers to requests: the results that are posted and the calls of their error callbacks.
unfoldable pub answers : List Action → List Action
answers [] = []
answers (post_result result error res ∷ acts) = post_result result error res ∷ answers acts
answers (call_query_error error what ∷ acts) = call_query_error error what ∷ answers acts
answers (_ ∷ acts) = answers acts

-- The texts that are written.
unfoldable pub writes : List Action → List Bytes
writes [] = []
writes (async_write text ∷ acts) = text ∷ writes acts
writes (_ ∷ acts) = writes acts

-- A reply of the server: a result or an error.
abbrev pub IsReply : FsmEvent → Type 0
IsReply (recv res) = Unit
IsReply (query_error what) = Unit
IsReply _ = ⊥

-- Requests with their replies, and the answers when each has its own.
abbrev pub Replied : Type 0
Replied = List (Execute × FsmEvent)

abbrev pub answer : Execute → FsmEvent → List Action
answer e (recv res) = told e.result (λ r. post_result r e.error res)
answer e (query_error what) = told e.error (λ k. call_query_error k what)
answer e _ = []

unfoldable pub all_answers : Replied → List Action
all_answers [] = []
all_answers ((e, reply) ∷ pairs) = answer e reply ++ all_answers pairs

-- The machine after its result, and while it executes a request.
abbrev pub idled : Machine → Machine
idled m = record m { state = idle; query_ = no_query }

abbrev busied : Execute → Machine → Machine
busied e m = record m { state = query; query_ = record e { buff = [] } }

-- The pool, the machine and what was called.
abbrev pub Served : Type 0
Served = (Pool × Machine) × List Action

-- The connection `c` is within its event: a `terminate` takes no effect before that has ended.
abbrev pub others : (ℕ → Bool) → ℕ → ℕ → Bool
others at_once c d = if d == c then false else at_once d

module _ (transport : Transport) (at_once : ℕ → Bool) (c : ℕ) where
  -- The callbacks of a connection; that of an error is called with no connection.
  unfoldable pub on_action : Pool → Action → Pool × List Call
  unfolding connection_ready connection_terminated connection_error_pool
  on_action p (call_idle k) = connection_ready (others at_once c) p c
  on_action p (call_terminated k) = connection_terminated p (some c)
  on_action p (call_error k what) = connection_error_pool p none (Errors.connection_error what)
  on_action p _ = (p, [])

  unfoldable pub tell_pool : Pool → List Action → Pool × List Call
  unfolding on_action
  tell_pool p [] = (p, [])
  tell_pool p (a ∷ acts) =
      let (q, made) = on_action p a in let (r, more) = tell_pool q acts in (r, made ++ more)

  -- What a call of the pool is to the connection; calls on other connections are left to those.
  abbrev pub event_for : Call → Option FsmEvent
  event_for (Pool.execute d e) = if d == c then some (execute e) else none
  event_for (Pool.terminate d) = if d == c then some terminate else none
  event_for _ = none

  -- The calls of the pool on the connection, in their order.
  unfoldable pub follow : List Call → Machine → Throws (Machine × List Action)
  unfolding dispatch
  follow [] m = ok (m, [])
  follow (call ∷ calls) m = elim (event_for call) [
    | some ev ↦ dispatch transport true ev m >>= λ (n, acts).
        follow calls n >>= λ (o, more). ok (o, acts ++ more)
    | none ↦ follow calls m
  ]

  -- An event on a connected transport: the machine tells the pool what it has to; what the pool calls
  -- on the connection within the callbacks is dispatched behind the event, and the end of the
  -- connection, where that is its end, is told to the pool. The pool has no call on the connection for
  -- that. A `terminate` that the state query deferred is an event behind the reply.
  unfoldable pub process : Pool → Machine → FsmEvent → Throws Served
  unfolding dispatch tell_pool follow
  process p m ev = dispatch transport true ev m >>= λ (n, acts).
      let (q, made) = tell_pool p acts in
      follow made n >>= λ (o, more). ok (((tell_pool q more).0, o), acts ++ more)

  -- Events one after the other.
  unfoldable pub serve : Pool → Machine → List FsmEvent → Throws Served
  unfolding process
  serve p m [] = ok ((p, m), [])
  serve p m (ev ∷ evs) =
      process p m ev >>= λ ((q, n), acts). serve q n evs >>= λ (last, rest). ok (last, acts ++ rest)

-- What becomes of a connection that reads: the pool, the machine, the bytes that are left in
-- `incoming_`, and what was called; or an exception left `handle_read`, and no read follows.
pub data Outcome : Type 0 where
  reads_on : Pool → Machine → Bytes → List Action → Outcome
  stopped : Outcome

-- A read after which the next one is started.
abbrev pub whole_read : Read × Bool → Option (List FsmEvent × Bytes)
whole_read (finished evs left, true) = some (evs, left)
whole_read _ = none

abbrev pub behind : List Action → Outcome → Outcome
behind acts (reads_on p m incoming more) = reads_on p m incoming (acts ++ more)
behind acts stopped = stopped

module _ (transport : Transport) (at_once : ℕ → Bool) (c : ℕ) (parse : Bytes → Run) where
  -- The bytes that arrive, read by read. Each is put behind what is left in `incoming_`. The next read
  -- is started after each, also by a connection that has terminated: its transport is closed and gives
  -- no bytes, and its machine does nothing with an event.
  unfoldable pub receive : Pool → Machine → Bytes → List Bytes → Outcome
  unfolding serve
  receive p m incoming [] = reads_on p m incoming []
  receive p m incoming (arrived ∷ arrivals) =
      elim (whole_read (handle_read parse none (length arrived) (incoming ++ arrived))) [
        | some (evs, left) ↦ elim (serve transport at_once c p m evs) [
          | ok ((q, n), acts) ↦ behind acts (receive q n left arrivals)
          | raise err ↦ stopped
        ]
        | none ↦ stopped
      ]
