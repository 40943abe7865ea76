-- ===== src/Connection/Machine/Created.antt =====
-- A connection that basic_connection::create makes
-- (src/details/connection/base_connection.cpp).
use redis_async.Prelude.{◌≡◌, refl, false, [], ◌∷◌, List}
use redis_async.Errors.{raise, Throws, ok, ◌>>=◌, Returns}
use redis_async.Options.{ConnectionOptions}
use redis_async.Options.Text.{is_empty}
use redis_async.Connection.Events.{Transport, create}
use redis_async.Connection.Transport.{Endpoint, connect_async}
use redis_async.Connection.Transport.Targets.{IsTarget, connect_async-create}
use redis_async.Connection.Machine.{
  connecting, Callbacks, Machine, Action, connect_transport_to, new_machine, row, on_exit,
  run_effect, connect_transport, on_entry, take_row, dispatch, create_connection,
}

-- It connects to the target of the options, and nothing else was called.
abbrev pub Connects : ConnectionOptions → Callbacks → Machine × List Action → Type 0
Connects opts callbacks (m, calls) =
    (m.state ≡ connecting)
    × (m.callbacks ≡ callbacks)
    × (m.conn_opts ≡ opts)
    × ((endpoint : Endpoint) × (calls ≡ connect_transport_to endpoint ∷ [])
        × IsTarget opts.uri endpoint)

-- A connection that is created for options with a uri throws nothing and is connecting, with the
-- options and its callbacks: a TCP transport to the host before the first colon of the uri and the
-- service behind it, or that of Redis where there is no colon; a socket to the path that the uri
-- is. The transport is that of the schema.
pub create-Connects :
    (opts : ConnectionOptions) (callbacks : Callbacks) (transport : Transport)
    → create opts ≡ ok transport
    → is_empty opts.uri ≡ false
    → Returns (Connects opts callbacks) (create_connection transport opts callbacks)
unfolding create_connection new_machine dispatch row take_row on_exit run_effect on_entry
    connect_transport
create-Connects opts callbacks transport created uri =
    rw uri
      (by_endpoint (connect_async transport opts) (connect_async-create opts transport created uri))
  where
    by_endpoint :
        (r : Throws Endpoint)
        → Returns (IsTarget opts.uri) r
        → Returns (Connects opts callbacks) (
            (r >>= λ endpoint. ok (
              record (record (new_machine callbacks) { state = connecting }) { conn_opts = opts },
              connect_transport_to endpoint ∷ [],
            ))
            >>= λ (entered, entry_calls). ok (entered, entry_calls))
    by_endpoint (ok endpoint) h = (refl, refl, refl, (endpoint, refl, h))
    by_endpoint (raise e) h = h
