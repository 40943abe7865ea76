-- ===== src/Service/Registry.antt =====
-- The pools of a service, found by their aliases (src/details/redis_impl.cpp).
use redis_async.Prelude.{
  ℕ, ◌≡◌, refl, subst, inl, inr, Option, none, some, true, false, [], ◌∷◌, List, Bytes, bytes_eq,
  bytes_eq_refl, bytes_eq-eq, if◌then◌else◌, Bool-cases, arith,
}
use redis_async.Errors.{ok}
use redis_async.Options.{ConnectionOptions}
use redis_async.Options.Text.{is_empty}
use redis_async.Connection.Events.{Execute}
use redis_async.Pool as Pool
use redis_async.Pool.{Pool, Call, create_pool}
use redis_async.Service.{
  Service, is_running, bytes_lt, lookup, insert, update, size_or, add_pool, add_options,
  get_connection,
}

lookup-insert :
    (key : Bytes) (p : Pool) (ps : List (Bytes × Pool))
    → lookup key ps ≡ none
    → lookup key (insert key p ps) ≡ some p
unfolding lookup insert
lookup-insert key p [] h = rw (bytes_eq_refl key) refl
lookup-insert key p ((k, x) ∷ ps) h = elim (Bool-cases (bytes_lt key k)) [
  | inl before ↦ rw (before, bytes_eq_refl key) refl
  | inr after ↦ elim (Bool-cases (bytes_eq key k)) [
    | inl same ↦ absurd (ground (arith, h, same))
    | inr other ↦ rw (after, other) (lookup-insert key p ps (ground (arith, h, other)))
  ]
]

lookup-insert_other :
    (other key : Bytes) (p : Pool) (ps : List (Bytes × Pool))
    → bytes_eq other key ≡ false
    → lookup other (insert key p ps) ≡ lookup other ps
unfolding lookup insert
lookup-insert_other other key p [] h = rw h refl
lookup-insert_other other key p ((k, x) ∷ ps) h = elim (Bool-cases (bytes_lt key k)) [
  | inl before ↦ rw (before, h) refl
  | inr after ↦ rw (after, lookup-insert_other other key p ps h) refl
]

lookup-update :
    (key : Bytes) (p q : Pool) (ps : List (Bytes × Pool))
    → lookup key ps ≡ some p
    → lookup key (update key q ps) ≡ some q
unfolding lookup update
lookup-update key p q [] h = absurd (ground (arith, h))
lookup-update key p q ((k, x) ∷ ps) h = elim (Bool-cases (bytes_eq key k)) [
  | inl same ↦ rw (same, same) refl
  | inr other ↦ rw (other, other) (lookup-update key p q ps (ground (arith, h, other)))
]

lookup-update_other :
    (other key : Bytes) (q : Pool) (ps : List (Bytes × Pool))
    → bytes_eq other key ≡ false
    → lookup other (update key q ps) ≡ lookup other ps
unfolding lookup update
lookup-update_other other key q [] h = refl
lookup-update_other other key q ((k, x) ∷ ps) h = elim (Bool-cases (bytes_eq key k)) [
  | inl same ↦ rw (same, subst (λ x. bytes_eq other x ≡ false) (bytes_eq-eq key k same) h) refl
  | inr differs ↦ rw (differs, lookup-update_other other key q ps h) refl
]

-- The pools `after` have `p` for the key, and are the pools `before` for every other key.
abbrev pub Registers : Bytes → Pool → (before after : List (Bytes × Pool)) → Type 0
Registers key p before after =
    (other : Bytes)
    → lookup other after ≡ (if bytes_eq other key then some p else lookup other before)

registers :
    (key : Bytes) (p : Pool) (before after : List (Bytes × Pool))
    → lookup key after ≡ some p
    → ((other : Bytes) → bytes_eq other key ≡ false → lookup other after ≡ lookup other before)
    → Registers key p before after
registers key p before after found kept other = elim (Bool-cases (bytes_eq other key)) [
  | inl same ↦ rw (same, bytes_eq-eq other key same, found) refl
  | inr differs ↦ rw (differs, kept other differs) refl
]

-- Options with a uri and an alias that no pool has yet, added to a running service, make a pool if one
-- can be made, of the size that is given or else of the service's: the alias finds it, and every
-- other alias finds what it found before.
pub add_options-Registers :
    (s : Service) (co : ConnectionOptions) (pool_size : Option ℕ) (fresh : ℕ) (p : Pool)
    → is_running s.state ≡ true
    → is_empty co.uri ≡ false
    → is_empty co.alias ≡ false
    → lookup co.alias s.pools ≡ none
    → create_pool (size_or pool_size s.pool_size) co fresh ≡ ok p
    → (add_options s co pool_size fresh ≡ ok (record s { pools = insert co.alias p s.pools }))
      × Registers co.alias p s.pools (insert co.alias p s.pools)
unfolding add_options add_pool
add_options-Registers s co pool_size fresh p runs has_uri has_alias unknown made = (
  rw (add_options, runs, has_uri, has_alias, add_pool, unknown, made) refl,
  registers co.alias p s.pools (insert co.alias p s.pools)
      (lookup-insert co.alias p s.pools unknown)
      (λ other differs. lookup-insert_other other co.alias p s.pools differs),
)

-- A request for an alias of a running service goes to the pool of the alias, and where that returns,
-- its calls are those of the pool: the alias finds the pool as it is then, and every other alias
-- finds what it found before.
pub get_connection-Registers :
    (s : Service) (alias : Bytes) (e : Execute) (fresh : ℕ) (p q : Pool) (calls : List Call)
    → is_running s.state ≡ true
    → lookup alias s.pools ≡ some p
    → Pool.get_connection p e fresh ≡ ok (q, calls)
    → (get_connection s alias e fresh ≡ ok (record s { pools = update alias q s.pools }, calls))
      × Registers alias q s.pools (update alias q s.pools)
unfolding get_connection
get_connection-Registers s alias e fresh p q calls runs known answered = (
  rw (get_connection, runs, known, answered) refl,
  registers alias q s.pools (update alias q s.pools) (lookup-update alias p q s.pools known)
      (λ other differs. lookup-update_other other alias q s.pools differs),
)
