-- ===== src/Service/Abstract.antt =====
-- What a service promises, stated apart from src/details/redis_impl.cpp: a registry of pools by
-- their aliases, a function that forgets how the pools are kept.
pub mod Isolated
pub mod Refines
use redis_async.Prelude.{
  ℕ, Option, none, some, Bool, true, false, [], ◌∷◌, ◌++◌, List, Bytes, codes, bytes_eq,
  if◌then◌else◌,
}
use redis_async.Errors.{raise, RdError, connection_error, Throws, ok, throw}
use redis_async.Options.{ConnectionOptions}
use redis_async.Options.Text.{is_empty}
use redis_async.Connection.Events.{Execute}
use redis_async.Pool as Pool
use redis_async.Pool.{Pool, Call, create_pool}
use redis_async.Service.{
  Service, is_running, lookup, not_running, size_or, add_options, get_connection, stop,
}

-- What clients ask of a service; `fresh` is a connection that may be made.
pub data Ask : Type 0 where
  adds : (options : ConnectionOptions) (pool_size : Option ℕ) (fresh : ℕ) → Ask
  requests : (alias : Bytes) (e : Execute) (fresh : ℕ) → Ask
  stops : (callback : ℕ) → Ask

-- What the service returns or throws: nothing, or the calls of a pool for a request.
abbrev pub Reply : Type 0
Reply = Throws (List Call)

module _ (at_once : ℕ → Bool) where
  -- A service that throws is as it was. The calls that stop makes on the pools are left out.
  unfoldable pub respond : Service → Ask → Service × Reply
  respond s (adds options pool_size fresh) = elim (add_options s options pool_size fresh) [
    | ok t ↦ (t, ok [])
    | raise err ↦ (s, raise err)
  ]
  respond s (requests alias e fresh) = elim (get_connection s alias e fresh) [
    | ok (t, calls) ↦ (t, ok calls)
    | raise err ↦ (s, raise err)
  ]
  respond s (stops callback) = ((stop at_once s callback).0, ok [])

  unfoldable pub respond_all : Service → List Ask → Service × List Reply
  unfolding respond
  respond_all s [] = (s, [])
  respond_all s (ask ∷ asks) =
      let (t, reply) = respond s ask in
      let (u, replies) = respond_all t asks in (u, reply ∷ replies)

pub record Registry : Type 0 where
  pub size : ℕ
  pub runs : Bool
  pub pool_of : Bytes → Option Pool

-- A function, changed at one alias.
abbrev pub changed : (Bytes → Option Pool) → Bytes → Pool → Bytes → Option Pool
changed pool_of alias p other = if bytes_eq other alias then some p else pool_of other

abbrev pub refuses : Bytes → Reply
refuses why = throw (connection_error why)

-- A registry takes options with a uri and an alias, and makes a pool for an alias that is new.
unfoldable pub adds_pool : Registry → ConnectionOptions → Option ℕ → ℕ → Registry × Reply
adds_pool r co pool_size fresh = elim (r.pool_of co.alias) [
  | some p ↦ (r, ok [])
  | none ↦ elim (create_pool (size_or pool_size r.size) co fresh) [
    | ok p ↦ (record r { pool_of = changed r.pool_of co.alias p }, ok [])
    | raise err ↦ (r, raise err)
  ]
]

-- A request is one of the pool of its alias.
unfoldable pub asks_pool : Registry → Bytes → Execute → ℕ → Registry × Reply
asks_pool r alias e fresh = elim (r.pool_of alias) [
  | none ↦ (r, refuses (codes "Database alias '" ++ (alias ++ codes "' is not registered")))
  | some p ↦ elim (Pool.get_connection p e fresh) [
    | ok (q, calls) ↦ (record r { pool_of = changed r.pool_of alias q }, ok calls)
    | raise err ↦ (r, raise err)
  ]
]

-- After its end it has no pools and refuses everything.
unfoldable pub answers : Registry → Ask → Registry × Reply
unfolding adds_pool asks_pool
answers r (adds co pool_size fresh) =
    if r.runs
    then (if is_empty co.uri
        then (r, refuses (codes "No URI in database connection string"))
        else if is_empty co.alias
        then (r, refuses (codes "No alias name in database connection string"))
        else adds_pool r co pool_size fresh)
    else (r, throw not_running)
answers r (requests alias e fresh) =
    if r.runs then asks_pool r alias e fresh else (r, throw not_running)
answers r (stops callback) =
    (if r.runs then record r { runs = false; pool_of = λ alias. none } else r, ok [])

unfoldable pub answers_all : Registry → List Ask → Registry × List Reply
unfolding answers
answers_all r [] = (r, [])
answers_all r (ask ∷ asks) =
    let (t, reply) = answers r ask in let (u, replies) = answers_all t asks in (u, reply ∷ replies)

-- The registry that a service is.
unfoldable pub view : Service → Registry
view s = record {
  size = s.pool_size;
  runs = is_running s.state;
  pool_of = λ alias. lookup alias s.pools;
}
