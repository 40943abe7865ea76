-- ===== src/Connection/Machine/Answers.antt =====
-- What becomes of the requests that a connection executes
-- (include/redis_async/details/connection/connection_fsm.hpp).
use redis_async.Prelude.{
  ℕ, ◌+◌, ◌≡◌, refl, ◌⊎◌, inl, inr, none, some, Bool, false, [], ◌∷◌, ◌++◌, List, length, All, ◌≢◌,
  append-nil, arith,
}
use redis_async.Errors.{raise, Throws, ok, Returns, bind-Returns_eq}
use redis_async.Connection.Events.{Execute, FsmEvent, options, execute, connection_error, Transport}
use redis_async.Options.Text.{is_empty}
use redis_async.Connection.Transport.{Endpoint, connect_async}
use redis_async.Pool.History.{count_of, pending}
use redis_async.Pool.Serves.{pending-append}
use redis_async.Connection.Machine.{
  State, idle, query, terminated, Machine, Action, post_result, call_query_error, row,
  notify_result, notify_query_error, notify_error, notify_idle, notify_terminated, send,
  send_startup_message, on_exit, run_effect, connect_transport, on_entry, take_row, dispatch,
  without_row, is_deferred, run,
}

-- The request that is being executed.
unfoldable pub in_flight : State → Execute → List Execute
in_flight query q = q ∷ []
in_flight _ q = []

-- The request that an event starts, and the one that it cuts off.
unfoldable pub started : State → FsmEvent → List Execute
started idle (execute evt) = evt ∷ []
started _ ev = []

unfoldable pub cut : State → Execute → FsmEvent → List Execute
cut query q (connection_error what) = q ∷ []
cut _ q ev = []

-- How many requests with the error callback `x` were given a result or an error.
unfoldable pub answered : ℕ → List Action → ℕ
unfolding count_of
answered x [] = 0
answered x (post_result result error res ∷ calls) = count_of error x + answered x calls
answered x (call_query_error error what ∷ calls) = count_of (some error) x + answered x calls
answered x (_ ∷ calls) = answered x calls

pub answered-append :
    (x : ℕ) (before after : List Action)
    → answered x (before ++ after) ≡ answered x before + answered x after
unfolding answered
answered-append x [] after = omega arith
answered-append x (a ∷ before) after = ground (arith, answered-append x before after)

-- What can be dispatched: options with which the transport can connect, and requests that have a
-- callback for their result.
abbrev pub IsFit : Transport → FsmEvent → Type 0
IsFit transport (options opts) =
    (is_empty opts.uri ≡ false)
    × ((endpoint : Endpoint) × (connect_async transport opts ≡ ok endpoint))
IsFit transport (execute evt) = evt.result ≢ none
IsFit transport _ = Unit

-- The request that is being executed has a callback for its result.
abbrev pub IsAnswerable : Machine → Type 0
IsAnswerable m = All (λ e. e.result ≢ none) (in_flight m.state m.query_)

-- What one event does: for every error callback, the requests that carry it and were in flight or are
-- started are those that are answered, are cut off or are in flight.
record Balanced (m : Machine) (ev : FsmEvent) (n : Machine) (calls : List Action) : Type 0 where
  answerable : IsAnswerable n
  balanced :
      (x : ℕ)
      → pending x (in_flight m.state m.query_) + pending x (started m.state ev)
        ≡ answered x calls
          + (pending x (cut m.state m.query_ ev) + pending x (in_flight n.state n.query_))
  last :
      (cut m.state m.query_ ev ≡ [])
      ⊎ ((n.state ≡ terminated) × (length (cut m.state m.query_ ev) ≡ 1))

module _ (transport : Transport) where
  dispatch-Balanced :
      (connected : Bool) (ev : FsmEvent) (m : Machine)
      → IsFit transport ev
      → IsAnswerable m
      → Returns (λ (n, calls). Balanced m ev n calls) (dispatch transport connected ev m)
  unfolding in_flight started cut answered pending count_of row notify_result notify_query_error
      notify_error notify_idle notify_terminated send send_startup_message on_exit run_effect
      connect_transport on_entry take_row dispatch without_row is_deferred
  dispatch-Balanced connected ev m fit h = ground arith

  -- The machine that a dispatch leaves, for what follows it.
  abbrev next_of : Throws (Machine × List Action) → (Machine → List Execute) → List Execute
  next_of (ok (n, calls)) later = later n
  next_of (raise e) later = []

  -- The requests that a history starts, and those that it cuts off.
  unfoldable pub begun : List (FsmEvent × Bool) → Machine → List Execute
  unfolding dispatch started
  begun [] m = []
  begun ((ev, connected) ∷ evs) m =
      started m.state ev ++ next_of (dispatch transport connected ev m) (begun evs)

  unfoldable pub cut_off : List (FsmEvent × Bool) → Machine → List Execute
  unfolding dispatch cut
  cut_off [] m = []
  cut_off ((ev, connected) ∷ evs) m =
      cut m.state m.query_ ev ++ next_of (dispatch transport connected ev m) (cut_off evs)

  -- What a history does, from the machine `m` to the machine `n` with these calls.
  pub record Accounts (evs : List (FsmEvent × Bool)) (m n : Machine) (calls : List Action)
      : Type 0 where
    pub answerable : IsAnswerable n
    pub each_once :
        (x : ℕ)
        → pending x (in_flight m.state m.query_) + pending x (begun evs m)
          ≡ answered x calls + (pending x (cut_off evs m) + pending x (in_flight n.state n.query_))
    pub cut_last : (cut_off evs m ≡ []) ⊎ ((n.state ≡ terminated) × (length (cut_off evs m) ≡ 1))

  -- In the terminate state nothing happens any more.
  pub run_terminated :
      (evs : List (FsmEvent × Bool)) (m : Machine)
      → m.state ≡ terminated
      → (run transport evs m ≡ ok (m, [])) × (begun evs m ≡ []) × (cut_off evs m ≡ [])
  unfolding run dispatch without_row is_deferred row begun cut_off started cut
  run_terminated [] m h = (refl, refl, refl)
  run_terminated ((ev, connected) ∷ evs) m h = ground (arith, run_terminated evs m h)

  nothing_happens : (m : Machine) → IsAnswerable m → Accounts [] m m []
  unfolding begun cut_off answered pending
  nothing_happens m h = ground arith

  run_ended :
      (evs : List (FsmEvent × Bool)) (m n : Machine) (calls : List Action)
      → run transport evs m ≡ ok (n, calls)
      → m.state ≡ terminated
      → n.state ≡ terminated
  run_ended evs m n calls e h = ground (arith, run_terminated evs m h, e, h)

  Accounts-cons :
      (ev : FsmEvent) (connected : Bool) (evs : List (FsmEvent × Bool)) (m n o : Machine)
      (calls more : List Action)
      → dispatch transport connected ev m ≡ ok (n, calls)
      → run transport evs n ≡ ok (o, more)
      → Balanced m ev n calls
      → Accounts evs n o more
      → Accounts ((ev, connected) ∷ evs) m o (calls ++ more)
  unfolding begun cut_off
  Accounts-cons ev connected evs m n o calls more first rest b a = record {
    answerable = a.answerable;
    each_once = λ x. rw first (
        omega (
          arith,
          b.balanced x,
          a.each_once x,
          answered-append x calls more,
          pending-append x (started m.state ev) (begun evs n),
          pending-append x (cut m.state m.query_ ev) (cut_off evs n),
        ));
    cut_last = rw first (cut_then b.last);
  }
    where
      cut_then :
          (cut m.state m.query_ ev ≡ [])
            ⊎ ((n.state ≡ terminated) × (length (cut m.state m.query_ ev) ≡ 1))
          → (cut m.state m.query_ ev ++ cut_off evs n ≡ [])
            ⊎ ((o.state ≡ terminated) × (length (cut m.state m.query_ ev ++ cut_off evs n) ≡ 1))
      cut_then (inl none_cut) = rw none_cut a.cut_last
      cut_then (inr (ended, one)) = inr (
        run_ended evs n o more rest ended,
        rw ((run_terminated evs n ended).2, append-nil (cut m.state m.query_ ev)) one,
      )

  -- From a machine whose request in flight, if it has one, has a callback for its result: a history of
  -- events that are fit to be dispatched runs to its end, what follows a call of no_transition left
  -- aside. For every error callback, the requests that carry it and were in flight or are started are
  -- as many as those that are given a result or an error, those that are cut off by a
  -- connection_error and those in flight at the end; one request is cut off at most, and then the
  -- machine has terminated.
  pub run-Accounts :
      (evs : List (FsmEvent × Bool)) (m : Machine)
      → All (λ (ev, connected). IsFit transport ev) evs
      → IsAnswerable m
      → Returns (λ (n, calls). Accounts evs m n calls) (run transport evs m)
  unfolding run
  run-Accounts [] m fit h = nothing_happens m h
  run-Accounts ((ev, connected) ∷ evs) m fit h =
      bind-Returns_eq (λ (n, calls). Balanced m ev n calls) _ (dispatch transport connected ev m) _
        (dispatch-Balanced connected ev m fit.0 h)
        (λ (n, calls) first b.
          bind-Returns_eq (λ (o, more). Accounts evs n o more) _ (run transport evs n) _
            (run-Accounts evs n fit.1 b.answerable)
            (λ (o, more) rest a. Accounts-cons ev connected evs m n o calls more first rest b a))
