-- ===== src/Service.antt =====
-- The service with its pools by their aliases: redis_impl of src/details/redis_impl.cpp.
pub mod Abstract
pub mod Registry
pub mod Stopping
pub mod Singleton
use redis_async.Prelude.{
  ℕ, suc, ◌+◌, ◌-◌, ◌%◌, ◌^◌, Option, none, some, Bool, true, false, [], ◌∷◌, ◌++◌, List, Bytes,
  codes, bytes_eq, ltb, ◌==◌, if◌then◌else◌,
}
use redis_async.Errors.{RdError, connection_error, Throws, ok, throw, ◌>>=◌}
use redis_async.Options.{ConnectionOptions}
use redis_async.Options.Text.{is_empty}
use redis_async.Options.Parser.{parse_options}
use redis_async.Connection.Events.{Execute}
use redis_async.Pool as Pool
use redis_async.Pool.{Pool, Call, create_pool}

-- `redis_impl::state_type`; no code sets `closed`.
pub data ServiceState : Type 0 where
  running closing closed : ServiceState

-- `redis_impl`. The map of pools is the list of its entries in the order of the keys.
pub record Service : Type 0 where
  pub pool_size : ℕ
  pub pools : List (Bytes × Pool)
  pub state : ServiceState

abbrev pub is_running : ServiceState → Bool
is_running running = true
is_running _ = false

-- `operator<` of strings.
abbrev pub bytes_lt : Bytes → Bytes → Bool
bytes_lt bs [] = false
bytes_lt [] (c ∷ cs) = true
bytes_lt (b ∷ bs) (c ∷ cs) = let rest = bytes_lt bs cs in if b == c then rest else ltb b c

-- `count` and `operator[]` of a key.
unfoldable pub lookup : Bytes → List (Bytes × Pool) → Option Pool
lookup key [] = none
lookup key ((k, p) ∷ pools) = let rest = lookup key pools in if bytes_eq key k then some p else rest

-- `insert` of a key that is not there.
unfoldable pub insert : Bytes → Pool → List (Bytes × Pool) → List (Bytes × Pool)
insert key pool [] = (key, pool) ∷ []
insert key pool ((k, p) ∷ pools) =
    let rest = insert key pool pools in
    if bytes_lt key k then (key, pool) ∷ (k, p) ∷ pools else (k, p) ∷ rest

-- The pool of a key has changed.
unfoldable pub update : Bytes → Pool → List (Bytes × Pool) → List (Bytes × Pool)
update key pool [] = []
update key pool ((k, p) ∷ pools) =
    let rest = update key pool pools in if bytes_eq key k then (k, pool) ∷ pools else (k, p) ∷ rest

abbrev pub not_running : RdError
not_running = connection_error (codes "Database service is not running")

abbrev pub size_or : Option ℕ → ℕ → ℕ
size_or none n = n
size_or (some m) n = m

-- `fresh` is the first connection of a pool that is made.
unfoldable pub add_pool : Service → ConnectionOptions → Option ℕ → ℕ → Throws Service
unfolding insert lookup
add_pool s co pool_size fresh = elim (lookup co.alias s.pools) [
  | some p ↦ ok s
  | none ↦ create_pool (size_or pool_size s.pool_size) co fresh >>= λ p.
      ok (record s { pools = insert co.alias p s.pools })
]

unfoldable pub add_options : Service → ConnectionOptions → Option ℕ → ℕ → Throws Service
unfolding add_pool
add_options s options pool_size fresh =
    if is_running s.state
    then (if is_empty options.uri
        then throw (connection_error (codes "No URI in database connection string"))
        else if is_empty options.alias
        then throw (connection_error (codes "No alias name in database connection string"))
        else add_pool s options pool_size fresh)
    else throw not_running

-- The pool's calls, and the pool as they leave it.
unfoldable pub get_connection : Service → Bytes → Execute → ℕ → Throws (Service × List Call)
unfolding lookup update
get_connection s alias e fresh =
    if is_running s.state
    then elim (lookup alias s.pools) [
      | none ↦
          throw
            (connection_error (codes "Database alias '" ++ (alias ++ codes "' is not registered")))
      | some p ↦ Pool.get_connection p e fresh >>= λ (q, calls).
          ok (record s { pools = update alias q s.pools }, calls)
    ]
    else throw not_running

module _ (split : ℕ → Bytes → List Bytes) (to_lower_copy : Bytes → Bytes) where
  unfoldable pub add_connection : Service → Bytes → Option ℕ → ℕ → Throws Service
  unfolding add_options
  add_connection s connection_string pool_size fresh =
      if is_running s.state
      then (parse_options split to_lower_copy connection_string >>= λ co.
          add_options s co pool_size fresh)
      else throw not_running

module _ (at_once : ℕ → Bool) where
  -- The loop of `stop`: every pool is closed with the same callback.
  unfoldable pub close_all : List (Bytes × Pool) → ℕ → List Call
  close_all [] callback = []
  close_all ((k, p) ∷ pools) callback =
      (Pool.close at_once p (some callback)).1 ++ close_all pools callback

  unfoldable pub stop : Service → ℕ → Service × List Call
  unfolding close_all
  stop s callback =
      if is_running s.state
      then (record s { pools = []; state = closing }, close_all s.pools callback)
      else (s, [])

-- The callback of `stop`: the count of the pools, a `size_t`, goes down with each call, and the
-- io_service is stopped where it comes to 0. The count at the end and how often it is stopped.
unfoldable pub count_down : ℕ → List Call → ℕ × ℕ
count_down pool_count [] = (pool_count, 0)
count_down pool_count (Pool.call_closed callback ∷ calls) =
    let left = (pool_count + 2 ^ 64 - 1) % 2 ^ 64 in
    let (last, stops) = count_down left calls in (last, if left == 0 then suc stops else stops)
count_down pool_count (_ ∷ calls) = count_down pool_count calls

-- `std::map::size`
abbrev pub size {ℓ} : {A : Type ℓ} → List A → ℕ
size [] = 0
size (x ∷ xs) = suc (size xs)

-- The constructor, and `set_defaults`.
unfoldable pub new_service : ℕ → Service
new_service pool_size = record { pool_size = pool_size; pools = []; state = running }

unfoldable pub set_defaults : Service → ℕ → Service
set_defaults s pool_size = record s { pool_size = pool_size }
