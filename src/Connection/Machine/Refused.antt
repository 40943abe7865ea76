-- ===== src/Connection/Machine/Refused.antt =====
-- A connection of which the server refuses the password
-- (include/redis_async/details/connection/connection_fsm.hpp).
use redis_async.Prelude.{◌≡◌, refl, Bool, true, false, [], ◌∷◌, List, All, arith}
use redis_async.Errors.{ok}
use redis_async.Options.{ConnectionOptions}
use redis_async.Options.Text.{is_empty}
use redis_async.Connection.Events.{
  FsmEvent, options, complete, recv, execute, terminate, query_error, connection_error, Transport,
}
use redis_async.Connection.Transport.{Endpoint, connect_async}
use redis_async.Connection.Machine.{
  authn, Callbacks, Machine, Action, connect_transport_to, async_read, async_write, no_transition,
  new_machine, no_query, row, without_row, is_deferred, send, send_startup_message, on_exit,
  run_effect, connect_transport, on_entry, take_row, dispatch, run,
}
use redis_async.Connection.Machine.Login.{auth_text}

-- The requests, the end and the errors of the server.
abbrev pub IsHeld : FsmEvent → Type 0
IsHeld (execute evt) = Unit
IsHeld terminate = Unit
IsHeld (query_error what) = Unit
IsHeld _ = ⊥

unfoldable pub refusals : List (FsmEvent × Bool) → List Action
refusals [] = []
refusals ((query_error what, connected) ∷ evs) = no_transition (query_error what) ∷ refusals evs
refusals (_ ∷ evs) = refusals evs

module _ (transport : Transport) where
  stays_in_authn :
      (evs : List (FsmEvent × Bool)) (m : Machine)
      → All (λ (ev, connected). IsHeld ev) evs
      → m.state ≡ authn
      → run transport evs m ≡ ok (m, refusals evs)
  unfolding refusals run dispatch row without_row is_deferred
  stays_in_authn [] m h e = refl
  stays_in_authn ((options opts, b) ∷ evs) m h e = absurd h.0
  stays_in_authn ((complete, b) ∷ evs) m h e = absurd h.0
  stays_in_authn ((recv res, b) ∷ evs) m h e = absurd h.0
  stays_in_authn ((execute evt, b) ∷ evs) m h e = ground (arith, stays_in_authn evs m h.1 e)
  stays_in_authn ((terminate, b) ∷ evs) m h e = ground (arith, stays_in_authn evs m h.1 e)
  stays_in_authn ((query_error what, b) ∷ evs) m h e = ground (arith, stays_in_authn evs m h.1 e)
  stays_in_authn ((connection_error what, b) ∷ evs) m h e = absurd h.0

  -- A connection whose options have a uri, with which its transport connects, and a password: after
  -- it has connected and sent the password, with the transport connected, errors of the server,
  -- requests and the call of terminate leave it in the state authn. An error of the server, as the
  -- refusal of the password, makes it call no_transition; nothing else is called, no callback of
  -- the connection and of no request.
  pub run-refused :
      (cb : Callbacks) (opts : ConnectionOptions) (endpoint : Endpoint)
      (evs : List (FsmEvent × Bool))
      → is_empty opts.uri ≡ false
      → is_empty opts.password ≡ false
      → connect_async transport opts ≡ ok endpoint
      → All (λ (ev, connected). IsHeld ev) evs
      → run transport ((options opts, false) ∷ (complete, true) ∷ evs) (new_machine cb)
        ≡ ok (
          record { state = authn; callbacks = cb; conn_opts = opts; query_ = no_query },
          connect_transport_to endpoint
              ∷ async_read
              ∷ async_write (auth_text opts.password)
              ∷ refusals evs,
        )
  unfolding run dispatch row take_row on_exit run_effect on_entry connect_transport
      send_startup_message send new_machine auth_text
  run-refused cb opts endpoint evs uri password connects held =
      let m : Machine = record {
        state = authn;
        callbacks = cb;
        conn_opts = opts;
        query_ = no_query;
      } in
      ground (arith, stays_in_authn evs m held refl)
