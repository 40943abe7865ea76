-- ===== src/Connection/Transport/Targets.antt =====
-- What a transport connects to (src/details/connection/transport.cpp), for a connection that
-- basic_connection::create makes (src/details/connection/base_connection.cpp).
use redis_async.Prelude.{
  ℕ, suc, ◌≡◌, refl, ap, ◌⊎◌, inl, inr, Option, none, some, Bool, true, false, [], ◌∷◌, ◌++◌, Bytes,
  codes, bytes_eq, take, drop, ◌==◌, if◌then◌else◌, arith,
}
use redis_async.Errors.{ok, Returns}
use redis_async.Options.{ConnectionOptions}
use redis_async.Options.Text.{is_empty, find, one_later}
use redis_async.Options.Text.Found.{Without}
use redis_async.Connection.Events.{Transport, tcp_transport, socket_transport, create}
use redis_async.Connection.Transport.{
  Endpoint, tcp_query, stream_endpoint, host_and_svc, tcp_connect_async, socket_connect_async,
  connect_async,
}

-- Where the first `c` stands.
abbrev pub IsSplit : ℕ → Bytes → Option ℕ → Type 0
IsSplit c bs none = Without c bs
IsSplit c bs (some n) = (bs ≡ take n bs ++ c ∷ drop (suc n) bs) × Without c (take n bs)

pub find-IsSplit : (c : ℕ) (bs : Bytes) → IsSplit c bs (find c bs)
find-IsSplit c [] = tt
find-IsSplit c (b ∷ bs) = at_head (b == c) refl (find c bs) (find-IsSplit c bs)
  where
    at_head :
        (here : Bool)
        → (b == c) ≡ here
        → (later : Option ℕ) → IsSplit c bs later
        → IsSplit c (b ∷ bs) (if here then some 0 else one_later later)
    at_head true e later h = (ap (λ a. a ∷ bs) (ground (arith, e)), tt)
    at_head false e none h = (λ same. absurd (ground (arith, e, same)), h)
    at_head false e (some n) h = (ap (◌∷◌ b) h.0, (λ same. absurd (ground (arith, e, same)), h.1))

-- What the text of a uri names: a host without a colon, with the service behind a colon or else that
-- of Redis; or a path.
abbrev pub IsTarget : Bytes → Endpoint → Type 0
IsTarget uri (tcp_query host svc) =
    Without b':' host × ((uri ≡ host ++ b':' ∷ svc) ⊎ ((uri ≡ host) × (svc ≡ codes "6379")))
IsTarget uri (stream_endpoint path) = path ≡ uri

tcp-IsTarget : (uri : Bytes) → IsTarget uri (tcp_query (host_and_svc uri).0 (host_and_svc uri).1)
unfolding host_and_svc
tcp-IsTarget uri = by_find (find b':' uri) (find-IsSplit b':' uri)
  where
    by_find :
        (at : Option ℕ)
        → IsSplit b':' uri at
        → let hs : Bytes × Bytes = elim at [
          | none ↦ (uri, codes "6379")
          | some n ↦ (take n uri, drop (suc n) uri)
        ] in
          IsTarget uri (tcp_query hs.0 hs.1)
    by_find none h = (h, inr (refl, refl))
    by_find (some n) h = (h.1, inl h.0)

-- The schema for which a connection has its transport.
abbrev schema_of : Transport → Bytes
schema_of tcp_transport = codes "tcp"
schema_of socket_transport = codes "unix"

create-schema :
    (opts : ConnectionOptions) (transport : Transport)
    → create opts ≡ ok transport
    → bytes_eq opts.schema (schema_of transport) ≡ true
unfolding create
create-schema opts tcp_transport e = ground (arith, e)
create-schema opts socket_transport e = ground (arith, e)

-- A connection that is created for options with a uri connects its transport with them, and throws
-- nothing: a TCP transport to the host before the first colon of the uri and the service behind it,
-- or that of Redis where there is no colon; a socket to the path that the uri is.
pub connect_async-create :
    (opts : ConnectionOptions) (transport : Transport)
    → create opts ≡ ok transport
    → is_empty opts.uri ≡ false
    → Returns (IsTarget opts.uri) (connect_async transport opts)
unfolding connect_async tcp_connect_async socket_connect_async
connect_async-create opts tcp_transport created uri =
    rw (tcp_connect_async, uri, create-schema opts tcp_transport created) (tcp-IsTarget opts.uri)
connect_async-create opts socket_transport created uri =
    rw (socket_connect_async, create-schema opts socket_transport created, uri) refl
