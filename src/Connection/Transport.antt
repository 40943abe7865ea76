-- ===== src/Connection/Transport.antt =====
-- The transports: src/details/connection/transport.cpp, as far as it is not boost::asio.
pub mod Targets
use redis_async.Prelude.{
  ℕ, suc, ◌≡◌, refl, Option, none, some, Bool, true, false, not, [], ◌∷◌, ◌++◌, Bytes, codes,
  bytes_eq, take, drop, if◌then◌else◌,
}
use redis_async.Errors.{connection_error, Throws, ok, throw}
use redis_async.Options.{ConnectionOptions}
use redis_async.Options.Text.{is_empty, find}
use redis_async.Connection.Events.{Transport, tcp_transport, socket_transport}

-- What a transport asks boost::asio to connect to: a host and a service to resolve, or a path.
pub data Endpoint : Type 0 where
  tcp_query : (host svc : Bytes) → Endpoint
  stream_endpoint : (path : Bytes) → Endpoint

-- The host and the service of a uri.
unfoldable pub host_and_svc : Bytes → Bytes × Bytes
host_and_svc uri = elim (find b':' uri) [
  | none ↦ (uri, codes "6379")
  | some at ↦ (take at uri, drop (suc at) uri)
]

-- `tcp_transport::connect_async`
unfoldable pub tcp_connect_async : ConnectionOptions → Throws Endpoint
unfolding host_and_svc
tcp_connect_async conn =
    if is_empty conn.uri
    then throw (connection_error (codes "No connection uri!"))
    else if not (bytes_eq conn.schema (codes "tcp"))
    then throw (connection_error (codes "Wrong connection schema for TCP transport"))
    else ok (tcp_query (host_and_svc conn.uri).0 (host_and_svc conn.uri).1)

-- `socket_transport::connect_async`
unfoldable pub socket_connect_async : ConnectionOptions → Throws Endpoint
socket_connect_async conn =
    if not (bytes_eq conn.schema (codes "unix"))
    then throw (connection_error (codes "Wrong connection schema for Unix Domain socket transport"))
    else ok (stream_endpoint (if is_empty conn.uri then codes "/tmp/.s.REDIS.6379" else conn.uri))

unfoldable pub connect_async : Transport → ConnectionOptions → Throws Endpoint
unfolding tcp_connect_async socket_connect_async
connect_async tcp_transport conn = tcp_connect_async conn
connect_async socket_transport conn = socket_connect_async conn

-- What a transport does when boost::asio calls it back: connect to what was resolved, or call the
-- callback of `connect_async` with no error or with the text of one.
pub data Next : Type 0 where
  async_connect : Next
  call_back : Option Bytes → Next

-- `tcp_transport::handle_resolve` and `tcp_transport::handle_connect`
unfoldable pub handle_resolve : Option Bytes → Next
handle_resolve none = async_connect
handle_resolve (some ec) = call_back (some ec)

unfoldable pub handle_connect : Option Bytes → Next
handle_connect ec = call_back ec

-- What the callback of `connect_async` is called with, when boost::asio answers the resolver of a TCP
-- transport and the connect of either. What was resolved goes to the connect; the callback of a
-- socket is given to the connect itself.
abbrev called_with : Next → Option Bytes → Option Bytes
called_with async_connect ec = ec
called_with (call_back ec) answered = ec

unfoldable pub connect_callback : Transport → (resolved answered : Option Bytes) → Option Bytes
unfolding handle_resolve handle_connect
connect_callback tcp_transport resolved answered = elim (handle_resolve resolved) [
  | async_connect ↦ called_with (handle_connect answered) answered
  | call_back ec ↦ ec
]
connect_callback socket_transport resolved answered = answered
