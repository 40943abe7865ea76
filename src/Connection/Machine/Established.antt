-- ===== src/Connection/Machine/Established.antt =====
-- How a connection is set up, from its creation to its first call of a callback
-- (src/details/connection/base_connection.cpp, src/details/connection/transport.cpp,
-- include/redis_async/details/connection/connection_fsm.hpp).
use redis_async.Prelude.{
  ◌≡◌, Option, none, some, Bool, true, [], ◌∷◌, ◌++◌, List, Bytes, if◌then◌else◌,
}
use redis_async.Errors.{Throws, ok, ◌>>=◌}
use redis_async.Options.{ConnectionOptions}
use redis_async.Options.Text.{is_empty}
use redis_async.Protocol.Types.{Result}
use redis_async.Connection.Events.{FsmEvent, complete, recv, Transport}
use redis_async.Connection.Transport.{Endpoint, connect_callback}
use redis_async.Connection.Transport.Targets.{IsTarget}
use redis_async.Connection.Reading.{handle_connect}
use redis_async.Connection.Machine.{
  idle, terminated, Callbacks, Machine, Action, connect_transport_to, async_read, async_write,
  process_event, call_idle, call_error, call_terminated, run, create_connection,
}
use redis_async.Connection.Machine.Login.{auth_text}
use redis_async.Connection.Machine.Session.{told}

-- What follows the connect: the machine processes `complete` itself where there is no password, and the
-- server answers the password with a result.
abbrev pub follows : ConnectionOptions → Result → Option Bytes → List (FsmEvent × Bool)
follows opts res none = (if is_empty opts.password then complete else recv res, true) ∷ []
follows opts res (some ec) = []

-- From the creation, when boost::asio has answered the resolver and the connect.
unfoldable pub establish :
    Transport
    → ConnectionOptions
    → Callbacks
    → Result
    → (resolved answered : Option Bytes) → Throws (Machine × List Action)
unfolding create_connection
establish transport opts callbacks res resolved answered =
    let ec = connect_callback transport resolved answered in
    create_connection transport opts callbacks >>= λ (m, calls).
    run transport ((handle_connect ec, true) ∷ follows opts res ec) m >>= λ (n, more).
    ok (n, calls ++ more)

-- The password alone is written, or nothing.
abbrev pub startup : ConnectionOptions → List Action
startup opts =
    if is_empty opts.password
    then process_event complete ∷ []
    else async_write (auth_text opts.password) ∷ []

-- Where the machine is in the end, and what it called behind the connect.
abbrev Answered : ConnectionOptions → Callbacks → Option Bytes → Machine × List Action → Type 0
Answered opts callbacks none (m, calls) =
    (m.state ≡ idle)
    × (calls ≡ async_read ∷ (startup opts ++ told callbacks.idle_callback call_idle))
Answered opts callbacks (some ec) (m, calls) =
    (m.state ≡ terminated)
    × (calls
        ≡ told callbacks.error_callback (λ k. call_error k ec)
          ++ told callbacks.terminated_callback call_terminated)

abbrev pub Established :
    ConnectionOptions → Callbacks → Option Bytes → Machine × List Action → Type 0
Established opts callbacks ec (m, calls) =
    (endpoint : Endpoint) × (rest : List Action) × (calls ≡ connect_transport_to endpoint ∷ rest)
    × IsTarget opts.uri endpoint
    × Answered opts callbacks ec (m, rest)
