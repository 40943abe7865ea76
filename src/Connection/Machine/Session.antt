-- ===== src/Connection/Machine/Session.antt =====
-- A connection as its owner and its requests see it: a session with four phases, stated apart from the
-- state machine of include/redis_async/details/connection/connection_fsm.hpp.
pub mod Refines
use redis_async.Prelude.{
  ℕ, ◌≡◌, ◌∙◌, ◌⊎◌, Option, none, some, Bool, true, false, if◌then◌else◌, [], ◌∷◌, ◌++◌, List,
  Bytes, Bool-cases, arith,
}
use redis_async.Errors.{ok, Ensures, bind-Ensures}
use redis_async.Protocol.Types.{Result}
use redis_async.Connection.Events.{
  Execute, FsmEvent, options, complete, recv, execute, terminate, query_error, connection_error,
  Transport,
}
use redis_async.Connection.Machine.{
  State, unplugged, idle, query, terminated, Callbacks, Machine, Action, async_write, call_idle,
  call_terminated, call_error, post_result, call_query_error, row, notify_result,
  notify_query_error, notify_error, notify_idle, notify_terminated, send, send_startup_message,
  on_exit, run_effect, connect_transport, on_entry, take_row, dispatch, without_row, is_deferred,
  run, new_machine, no_query, no_callbacks,
}

-- The phases; a busy session has the callbacks of its request.
pub data Phase : Type 0 where
  setting_up ready gone : Phase
  busy : (result error : Option ℕ) → Phase

unfoldable pub phase_of : State → Execute → Phase
phase_of idle q = ready
phase_of query q = busy q.result q.error
phase_of terminated q = gone
phase_of _ q = setting_up

-- The calls of callbacks among the calls.
unfoldable pub visible : List Action → List Action
visible [] = []
visible (call_idle k ∷ calls) = call_idle k ∷ visible calls
visible (call_terminated k ∷ calls) = call_terminated k ∷ visible calls
visible (call_error k what ∷ calls) = call_error k what ∷ visible calls
visible (post_result r e res ∷ calls) = post_result r e res ∷ visible calls
visible (call_query_error e what ∷ calls) = call_query_error e what ∷ visible calls
visible (_ ∷ calls) = visible calls

-- One call, if the callback is there.
abbrev pub told : Option ℕ → (ℕ → Action) → List Action
told none call = []
told (some k) call = call k ∷ []

-- What a session may do, with the calls that it makes. A busy one is not gone but by an error, which
-- abandons its request: neither callback of the request is called.
pub data Turn (cb : Callbacks) (p : Phase) (calls : List Action) (q : Phase) : Type 0 where
  stays : p ≡ q → calls ≡ [] → Turn cb p calls q
  is_set_up :
      p ≡ setting_up → q ≡ ready → calls ≡ told cb.idle_callback call_idle → Turn cb p calls q
  begins :
      (result error : Option ℕ) → p ≡ ready → q ≡ busy result error → calls ≡ [] → Turn cb p calls q
  has_result :
      (result error : Option ℕ) (res : Result)
      → p ≡ busy result error
      → q ≡ ready
      → calls ≡ told result (λ r. post_result r error res) ++ told cb.idle_callback call_idle
      → Turn cb p calls q
  has_error :
      (result error : Option ℕ) (what : Bytes)
      → p ≡ busy result error
      → q ≡ ready
      → calls ≡ told error (λ e. call_query_error e what) ++ told cb.idle_callback call_idle
      → Turn cb p calls q
  leaves :
      (p ≡ setting_up) ⊎ (p ≡ ready)
      → q ≡ gone
      → calls ≡ told cb.terminated_callback call_terminated
      → Turn cb p calls q
  breaks :
      (what : Bytes)
      → (p ≡ setting_up) ⊎ (p ≡ ready)
      → q ≡ gone
      → calls
        ≡ told cb.error_callback (λ k. call_error k what)
          ++ told cb.terminated_callback call_terminated
      → Turn cb p calls q
  abandons :
      (result error : Option ℕ) (what : Bytes)
      → p ≡ busy result error
      → q ≡ gone
      → calls
        ≡ told cb.error_callback (λ k. call_error k what)
          ++ told cb.terminated_callback call_terminated
      → Turn cb p calls q

-- Turns one after the other.
pub data Session (cb : Callbacks) : Phase → List Action → Phase → Type 0 where
  over : (p : Phase) → Session cb p [] p
  turn :
      (p q r : Phase) (calls more : List Action)
      → Turn cb p calls q
      → Session cb q more r
      → Session cb p (calls ++ more) r

-- The session of the callbacks: they are in place until the session is gone.
abbrev pub IsOwned : Callbacks → Machine → Type 0
IsOwned cb m = (m.state ≡ terminated) ⊎ (m.callbacks ≡ cb)

abbrev pub is_open : State → Bool
is_open unplugged = false
is_open terminated = false
is_open _ = true

abbrev pub query_left : State → Execute → Execute
query_left query q = no_query
query_left _ q = q

module _ (transport : Transport) where
  -- A result in the state `query`.
  pub dispatch-recv :
      (connected : Bool) (res : Result) (m : Machine)
      → m.state ≡ query
      → dispatch transport connected (recv res) m
        ≡ ok (
          record m { state = idle; query_ = no_query },
          told m.query_.result (λ r. post_result r m.query_.error res)
              ++ told m.callbacks.idle_callback call_idle,
        )
  unfolding row notify_result notify_idle on_exit run_effect on_entry take_row dispatch without_row
      is_deferred
  dispatch-recv connected res m h = ground arith

  pub dispatch-query_error :
      (connected : Bool) (what : Bytes) (m : Machine)
      → m.state ≡ query
      → dispatch transport connected (query_error what) m
        ≡ ok (
          record m { state = idle; query_ = no_query },
          told m.query_.error (λ e. call_query_error e what)
              ++ told m.callbacks.idle_callback call_idle,
        )
  unfolding row notify_query_error notify_idle on_exit run_effect on_entry take_row dispatch
      without_row is_deferred
  dispatch-query_error connected what m h = ground arith

  pub dispatch-execute :
      (connected : Bool) (evt : Execute) (m : Machine)
      → m.state ≡ idle
      → dispatch transport connected (execute evt) m
        ≡ ok (
          record m {
            state = query;
            query_ = record evt { buff = if connected then [] else evt.buff };
          },
          if connected then async_write evt.buff ∷ [] else [],
        )
  unfolding row send on_exit run_effect on_entry take_row dispatch without_row is_deferred
  dispatch-execute connected evt m h = ground arith

  pub dispatch-connection_error :
      (connected : Bool) (what : Bytes) (m : Machine)
      → is_open m.state ≡ true
      → dispatch transport connected (connection_error what) m
        ≡ ok (
          record m {
            state = terminated;
            callbacks = no_callbacks;
            query_ = query_left m.state m.query_;
          },
          told m.callbacks.error_callback (λ k. call_error k what)
              ++ told m.callbacks.terminated_callback call_terminated,
        )
  unfolding row notify_error notify_terminated on_exit run_effect on_entry take_row dispatch
      without_row is_deferred
  dispatch-connection_error connected what m h = ground arith
