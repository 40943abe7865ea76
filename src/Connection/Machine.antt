-- ===== src/Connection/Machine.antt =====
-- The state machine of a connection: the handlers of connection_fsm_def in
-- include/redis_async/details/connection/connection_fsm.hpp, with the overrides of
-- concrete_connection.hpp beside it.
pub mod Answers
pub mod Created
pub mod Established
pub mod Login
pub mod Refused
pub mod Session
use redis_async.Prelude.{
  ℕ, Option, none, some, Bool, true, false, [], ◌∷◌, ◌++◌, ◌||◌, List, Bytes, codes, if◌then◌else◌,
}
use redis_async.Prelude.Int.{pos}
use redis_async.Errors as Errors
use redis_async.Errors.{Throws, ok, throw, ◌>>=◌}
use redis_async.Protocol.Types.{Result}
use redis_async.Protocol.Serializer.{serialize}
use redis_async.Options.{ConnectionOptions}
use redis_async.Options.Text.{is_empty}
use redis_async.Connection.Events.{
  Execute, FsmEvent, options, complete, recv, execute, terminate, query_error, connection_error,
  Transport,
}
unfoldable pub use redis_async.Connection.States.{new_machine, row, is_deferred, without_row}
pub use redis_async.Connection.States.{
  State, unplugged, connecting, authn, idle, query, terminated, Callbacks, Machine, Action,
  connect_transport_to, async_read, async_write, close_transport, process_event, call_idle,
  call_terminated, call_error, post_result, call_query_error, no_transition, no_query, no_callbacks,
  Effect, no_action, on_connection_error, disconnect,
}
use redis_async.Connection.Transport.{Endpoint, connect_async}

-- `notify_result`: the callbacks are captured and posted to the strand.
unfoldable pub notify_result : Execute → Result → List Action
notify_result q res = elim q.result [
  | none ↦ []
  | some result_cb ↦ post_result result_cb q.error res ∷ []
]

-- `notify_error` of a query.
unfoldable pub notify_query_error : Execute → Bytes → List Action
notify_query_error q what = elim q.error [
  | none ↦ []
  | some error_cb ↦ call_query_error error_cb what ∷ []
]

-- `notifyErrorImpl`, `notifyIdleImpl` and `notifyTerminatedImpl`.
unfoldable pub notify_error : Machine → Bytes → List Action
notify_error m what = elim m.callbacks.error_callback [
  | none ↦ []
  | some callback ↦ call_error callback what ∷ []
]

unfoldable pub notify_idle : Machine → List Action
notify_idle m = elim m.callbacks.idle_callback [
  | none ↦ []
  | some callback ↦ call_idle callback ∷ []
]

unfoldable pub notify_terminated : Machine → Machine × List Action
notify_terminated m = (
  record m { callbacks = no_callbacks },
  elim m.callbacks.terminated_callback [
    | none ↦ []
    | some callback ↦ call_terminated callback ∷ []
  ],
)

-- `send`; `connected` says whether the transport is connected.
unfoldable pub send : Bool → Bytes → List Action
send connected m = if connected then async_write m ∷ [] else []

-- The serializer has a result on every command with a name.
abbrev pub written : Option Bytes → Bytes
written none = []
written (some buff) = buff

unfoldable pub send_startup_message : Bool → Machine → List Action
unfolding send
send_startup_message connected m =
    if is_empty m.conn_opts.password
    then process_event complete ∷ []
    else send connected
        (written (serialize [] (record { arguments = codes "AUTH" ∷ m.conn_opts.password ∷ [] })))

unfoldable pub on_exit : State → FsmEvent → Machine → Machine × List Action
unfolding notify_result notify_query_error
on_exit connecting complete m = (m, async_read ∷ [])
on_exit query (query_error what) m =
    (record m { query_ = no_query }, notify_query_error m.query_ what)
on_exit query (recv res) m = (record m { query_ = no_query }, notify_result m.query_ res)
on_exit query _ m = (record m { query_ = no_query }, [])
on_exit _ _ m = (m, [])

unfoldable pub run_effect : Effect → FsmEvent → Machine → List Action
unfolding notify_error
run_effect on_connection_error (connection_error what) m = notify_error m what
run_effect disconnect ev m = close_transport ∷ []
run_effect _ ev m = []

module _ (transport : Transport) where
  unfoldable pub connect_transport : ConnectionOptions → Machine → Throws (Machine × List Action)
  connect_transport opts m =
      if is_empty opts.uri
      then throw (Errors.connection_error (codes "No connection uri!"))
      else connect_async transport opts >>= λ endpoint.
          ok (record m { conn_opts = opts }, connect_transport_to endpoint ∷ [])

  -- The vector that `send` moves from is left empty; where it does not move, the buffer stays.
  unfoldable pub on_entry : Bool → State → FsmEvent → Machine → Throws (Machine × List Action)
  unfolding connect_transport send_startup_message notify_idle notify_terminated send
  on_entry connected connecting (options opts) m = connect_transport opts m
  on_entry connected authn ev m = ok (m, send_startup_message connected m)
  on_entry connected idle ev m = ok (m, notify_idle m)
  on_entry connected query (execute evt) m = ok (
    record m { query_ = record evt { buff = if connected then [] else evt.buff } },
    send connected evt.buff,
  )
  on_entry connected query ev m = ok (record m { query_ = no_query }, [])
  on_entry connected terminated ev m = ok (notify_terminated m)
  on_entry connected _ ev m = ok (m, [])

  -- A row of the table: the exit of the state, the action, the entry of the next state.
  unfoldable pub take_row :
      Bool → State × Effect → FsmEvent → Machine → Throws (Machine × List Action)
  unfolding on_exit run_effect on_entry
  take_row connected (target, effect) ev m =
      let (left, exit_calls) = on_exit m.state ev m in
      let calls = exit_calls ++ run_effect effect ev left in
      on_entry connected target ev (record left { state = target }) >>= λ (entered, entry_calls).
      ok (entered, calls ++ entry_calls)

  -- An event that the machine dispatches. Where there is no row the machine stays as it is: the event
  -- is deferred, the state is the terminate state, or `no_transition` is called.
  unfoldable pub dispatch : Bool → FsmEvent → Machine → Throws (Machine × List Action)
  unfolding row take_row without_row
  dispatch connected ev m = elim (row m.state ev) [
    | none ↦ ok (m, without_row m.state ev)
    | some next ↦ take_row connected next ev m
  ]

  -- The events in the order in which they are dispatched, each with whether the transport is
  -- connected. The calls are those that a dispatch makes: `start_read` at the end of `handle_read` is
  -- none of them, it is in the result of handle_read in Reading.
  unfoldable pub run : List (FsmEvent × Bool) → Machine → Throws (Machine × List Action)
  unfolding dispatch
  run [] m = ok (m, [])
  run ((ev, connected) ∷ evs) m =
      dispatch connected ev m >>= λ (n, calls). run evs n >>= λ (o, more). ok (o, calls ++ more)

  -- `create_connection`, the connection of which `create` found the transport.
  unfoldable pub create_connection : ConnectionOptions → Callbacks → Throws (Machine × List Action)
  unfolding dispatch new_machine
  create_connection opts callbacks = dispatch false (options opts) (new_machine callbacks)
