-- ===== src/Connection/States.antt =====
-- The states of a connection and its transition table: connection_fsm_def of
-- include/redis_async/details/connection/connection_fsm.hpp.
use redis_async.Prelude.{
  ℕ, Option, none, some, Bool, true, false, [], ◌∷◌, ◌||◌, List, Bytes, if◌then◌else◌,
}
use redis_async.Prelude.Int.{pos}
use redis_async.Protocol.Types.{Result}
use redis_async.Options.{ConnectionOptions}
use redis_async.Connection.Events.{
  Execute, FsmEvent, options, complete, recv, execute, terminate, query_error, connection_error,
}
use redis_async.Connection.Transport.{Endpoint}

pub data State : Type 0 where
  unplugged connecting authn idle query terminated : State

-- `connection_callbacks`, numbers where they are set.
pub record Callbacks : Type 0 where
  pub idle_callback : Option ℕ
  pub terminated_callback : Option ℕ
  pub error_callback : Option ℕ

-- The state of boost::msm and the members that the handlers use; `query_` is that of the state
-- `query`.
pub record Machine : Type 0 where
  pub state : State
  pub callbacks : Callbacks
  pub conn_opts : ConnectionOptions
  pub query_ : Execute

-- What the handlers call: the transport, `process_event` of the machine, the callbacks of the
-- connection, the post of a result to the strand, the error callback of a request, and the
-- `no_transition` of the machine, which asserts and throws.
pub data Action : Type 0 where
  connect_transport_to : Endpoint → Action
  async_read : Action
  async_write : Bytes → Action
  close_transport : Action
  process_event : FsmEvent → Action
  call_idle : ℕ → Action
  call_terminated : ℕ → Action
  call_error : ℕ → Bytes → Action
  post_result : (result : ℕ) (error : Option ℕ) (res : Result) → Action
  call_query_error : (error : ℕ) (what : Bytes) → Action
  no_transition : FsmEvent → Action

abbrev pub no_query : Execute
no_query = record { buff = []; result = none; error = none }

abbrev pub no_callbacks : Callbacks
no_callbacks = record { idle_callback = none; terminated_callback = none; error_callback = none }

abbrev pub no_options : ConnectionOptions
no_options = record {
  alias = [];
  schema = [];
  uri = [];
  database = [];
  password = [];
  keep_alive = false;
  connect_timeout = pos 0;
  socket_timeout = pos 0;
}

-- The constructor.
unfoldable pub new_machine : Callbacks → Machine
new_machine callbacks = record {
  state = unplugged;
  callbacks = callbacks;
  conn_opts = no_options;
  query_ = no_query;
}

-- The functors of the transition table.
pub data Effect : Type 0 where
  no_action on_connection_error disconnect : Effect

-- `transition_table`: the next state and the action.
unfoldable pub row : State → FsmEvent → Option (State × Effect)
row unplugged (options opts) = some (connecting, no_action)
row unplugged terminate = some (terminated, no_action)
row connecting complete = some (authn, no_action)
row connecting (connection_error what) = some (terminated, on_connection_error)
row authn complete = some (idle, no_action)
row authn (recv res) = some (idle, no_action)
row authn (connection_error what) = some (terminated, on_connection_error)
row idle (execute evt) = some (query, no_action)
row idle terminate = some (terminated, disconnect)
row idle (connection_error what) = some (terminated, on_connection_error)
row query (recv res) = some (idle, no_action)
row query (query_error what) = some (idle, no_action)
row query (connection_error what) = some (terminated, on_connection_error)
row _ _ = none

-- `deferred_events` of the states.
unfoldable pub is_deferred : State → FsmEvent → Bool
is_deferred unplugged terminate = true
is_deferred unplugged (execute evt) = true
is_deferred connecting terminate = true
is_deferred connecting (execute evt) = true
is_deferred authn terminate = true
is_deferred authn (execute evt) = true
is_deferred query terminate = true
is_deferred _ _ = false

abbrev pub is_terminated : State → Bool
is_terminated terminated = true
is_terminated _ = false

-- What is called where there is no row.
unfoldable pub without_row : State → FsmEvent → List Action
unfolding is_deferred
without_row s ev = if is_deferred s ev || is_terminated s then [] else no_transition ev ∷ []
