-- ===== src/Service/Abstract/Refines.antt =====
-- The service as a registry (src/details/redis_impl.cpp).
use mathlib.Core.Path.{fun_ext}
use redis_async.Prelude.{
  ℕ, ◌≡◌, refl, ap, ◌∙◌, inl, inr, Option, none, some, Bool, true, false, [], ◌∷◌, ◌++◌, List,
  Bytes, codes, Bool-cases, Option-cases,
}
use redis_async.Errors.{raise, Exception, connection_error, ok, throw, Throws-cases}
use redis_async.Options.{ConnectionOptions}
use redis_async.Options.Text.{is_empty}
use redis_async.Connection.Events.{Execute}
use redis_async.Pool as Pool
use redis_async.Pool.{Pool, Call, create_pool}
use redis_async.Service.{
  Service, ServiceState, running, closing, closed, is_running, lookup, insert, update, size_or,
  add_pool, add_options, get_connection, stop,
}
use redis_async.Service.Registry.{Registers, add_options-Registers, get_connection-Registers}
use redis_async.Service.Abstract.{
  Ask, adds, requests, stops, Reply, respond, respond_all, Registry, changed, adds_pool, asks_pool,
  answers, answers_all, view,
}

-- The registry that a response leaves, with the reply.
abbrev seen : Service × Reply → Registry × Reply
seen (s, reply) = (view s, reply)

abbrev pub seen_all : Service × List Reply → Registry × List Reply
seen_all (s, replies) = (view s, replies)

view-changed :
    (s : Service) (alias : Bytes) (p : Pool) (pools : List (Bytes × Pool))
    → Registers alias p s.pools pools
    → view (record s { pools = pools })
      ≡ record (view s) { pool_of = changed (view s).pool_of alias p }
unfolding view
view-changed s alias p pools h = ap (λ f. record (view s) { pool_of = f }) (fun_ext h)

-- What the code does where Registry does not say it.
get_connection-unknown :
    (s : Service) (alias : Bytes) (e : Execute) (fresh : ℕ)
    → is_running s.state ≡ true
    → lookup alias s.pools ≡ none
    → get_connection s alias e fresh
      ≡ throw
          (connection_error (codes "Database alias '" ++ (alias ++ codes "' is not registered")))
unfolding get_connection
get_connection-unknown s alias e fresh runs unknown = rw (get_connection, runs, unknown) refl

get_connection-throw :
    (s : Service) (alias : Bytes) (e : Execute) (fresh : ℕ) (p : Pool) (err : Exception)
    → is_running s.state ≡ true
    → lookup alias s.pools ≡ some p
    → Pool.get_connection p e fresh ≡ raise err
    → get_connection s alias e fresh ≡ raise err
unfolding get_connection
get_connection-throw s alias e fresh p err runs known threw =
    rw (get_connection, runs, known, threw) refl

add_pool-known :
    (s : Service) (co : ConnectionOptions) (pool_size : Option ℕ) (fresh : ℕ) (p : Pool)
    → lookup co.alias s.pools ≡ some p
    → add_pool s co pool_size fresh ≡ ok s
unfolding add_pool
add_pool-known s co pool_size fresh p known = rw (add_pool, known) refl

add_pool-throw :
    (s : Service) (co : ConnectionOptions) (pool_size : Option ℕ) (fresh : ℕ) (err : Exception)
    → lookup co.alias s.pools ≡ none
    → create_pool (size_or pool_size s.pool_size) co fresh ≡ raise err
    → add_pool s co pool_size fresh ≡ raise err
unfolding add_pool
add_pool-throw s co pool_size fresh err unknown threw = rw (add_pool, unknown, threw) refl

add_options-checked :
    (s : Service) (co : ConnectionOptions) (pool_size : Option ℕ) (fresh : ℕ)
    → is_running s.state ≡ true
    → is_empty co.uri ≡ false
    → is_empty co.alias ≡ false
    → add_options s co pool_size fresh ≡ add_pool s co pool_size fresh
unfolding add_options
add_options-checked s co pool_size fresh runs uri alias = rw (add_options, runs, uri, alias) refl

module _ (at_once : ℕ → Bool) where
  requests-Refines :
      (s : Service) (alias : Bytes) (e : Execute) (fresh : ℕ)
      → is_running s.state ≡ true
      → seen (respond at_once s (requests alias e fresh)) ≡ asks_pool (view s) alias e fresh
  unfolding respond asks_pool view
  requests-Refines s alias e fresh runs = elim (Option-cases (lookup alias s.pools)) [
    | inl unknown ↦
        rw (respond, get_connection-unknown s alias e fresh runs unknown, asks_pool, unknown) refl
    | inr (p, known) ↦ elim (Throws-cases (Pool.get_connection p e fresh)) [
      | inl ((q, calls), answered) ↦
          let (does, registers) =
            get_connection-Registers s alias e fresh p q calls runs known answered in
          rw (respond, does, asks_pool, known, answered)
            (ap (λ r. (r, ok calls)) (view-changed s alias q (update alias q s.pools) registers))
      | inr (err, threw) ↦
          rw
            (
              respond,
              get_connection-throw s alias e fresh p err runs known threw,
              asks_pool,
              known,
              threw,
            )
            refl
    ]
  ]

  adds-Refines :
      (s : Service) (co : ConnectionOptions) (pool_size : Option ℕ) (fresh : ℕ)
      → is_running s.state ≡ true
      → is_empty co.uri ≡ false
      → is_empty co.alias ≡ false
      → seen (respond at_once s (adds co pool_size fresh)) ≡ adds_pool (view s) co pool_size fresh
  unfolding respond adds_pool view
  adds-Refines s co pool_size fresh runs uri alias = elim (Option-cases (lookup co.alias s.pools)) [
    | inr (p, known) ↦
        rw
          (
            respond,
            add_options-checked s co pool_size fresh runs uri alias,
            add_pool-known s co pool_size fresh p known,
            adds_pool,
            known,
          )
          refl
    | inl unknown ↦ elim (Throws-cases (create_pool (size_or pool_size s.pool_size) co fresh)) [
      | inl (p, made) ↦
          let (does, registers) =
            add_options-Registers s co pool_size fresh p runs uri alias unknown made in
          rw (respond, does, adds_pool, unknown, made)
            (ap (λ r. (r, ok [])) (view-changed s co.alias p (insert co.alias p s.pools) registers))
      | inr (err, threw) ↦
          rw
            (
              respond,
              add_options-checked s co pool_size fresh runs uri alias,
              add_pool-throw s co pool_size fresh err unknown threw,
              adds_pool,
              unknown,
              threw,
            )
            refl
    ]
  ]

  -- Whatever is asked of a service.
  respond-Refines : (s : Service) (ask : Ask) → seen (respond at_once s ask) ≡ answers (view s) ask
  unfolding respond answers view stop lookup add_options get_connection
  respond-Refines s ask = by_state s.state ask
    where
      by_state :
          (state : ServiceState) (ask : Ask)
          → let t = record s { state = state } in
            seen (respond at_once t ask) ≡ answers (view t) ask
      by_state running (adds co pool_size fresh) = elim (Bool-cases (is_empty co.uri)) [
        | inl no_uri ↦ rw (respond, add_options, answers, no_uri) refl
        | inr uri ↦ elim (Bool-cases (is_empty co.alias)) [
          | inl no_alias ↦ rw (respond, add_options, answers, uri, no_alias) refl
          | inr alias ↦
              rw (answers, uri, alias)
                (adds-Refines (record s { state = running }) co pool_size fresh refl uri alias)
        ]
      ]
      by_state running (requests alias e fresh) =
          requests-Refines (record s { state = running }) alias e fresh refl
      by_state running (stops callback) = refl
      by_state closing (adds co pool_size fresh) = refl
      by_state closing (requests alias e fresh) = refl
      by_state closing (stops callback) = refl
      by_state closed (adds co pool_size fresh) = refl
      by_state closed (requests alias e fresh) = refl
      by_state closed (stops callback) = refl

  -- Whatever is asked of a service, it replies as the registry that it is, and is the registry that
  -- this leaves: a request goes to the pool of its alias and to no other, options make a pool for an
  -- alias that is new, and after its end it refuses everything.
  pub respond_all-Refines :
      (s : Service) (asks : List Ask)
      → seen_all (respond_all at_once s asks) ≡ answers_all (view s) asks
  unfolding respond_all answers_all
  respond_all-Refines s [] = refl
  respond_all-Refines s (ask ∷ asks) =
      ap (λ (all : Registry × List Reply). (all.0, (respond at_once s ask).1 ∷ all.1))
        (respond_all-Refines (respond at_once s ask).0 asks)
      ∙ ap
          (λ (one : Registry × Reply).
            ((answers_all one.0 asks).0, one.1 ∷ (answers_all one.0 asks).1))
          (respond-Refines s ask)
