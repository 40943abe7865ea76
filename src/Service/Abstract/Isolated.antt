-- ===== src/Service/Abstract/Isolated.antt =====
-- The pools of a service do not disturb each other (src/details/redis_impl.cpp).
use redis_async.Prelude.{
  ℕ, ◌≡◌, refl, ap, sym, subst, ◌∙◌, inl, inr, Option, none, some, Bool, true, false, [], ◌∷◌, List,
  Bytes, bytes_eq, bytes_eq-eq, if◌then◌else◌, Bool-cases, Option-cases, arith,
}
use redis_async.Errors.{Throws-cases}
use redis_async.Options.{ConnectionOptions}
use redis_async.Options.Text.{is_empty}
use redis_async.Connection.Events.{Execute}
use redis_async.Pool as Pool
use redis_async.Pool.{Pool, create_pool}
use redis_async.Service.{Service, lookup, size_or}
use redis_async.Service.Abstract.{
  Ask, adds, requests, stops, Reply, respond_all, Registry, changed, adds_pool, asks_pool, answers,
  answers_all, view,
}
use redis_async.Service.Abstract.Refines.{seen_all, respond_all-Refines}

-- What is asked for an alias; the end of the service is for all.
abbrev pub concerns : Bytes → Ask → Bool
concerns alias (adds co pool_size fresh) = bytes_eq alias co.alias
concerns alias (requests other e fresh) = bytes_eq alias other
concerns alias (stops callback) = true

-- What of a history concerns an alias, and the replies to that.
unfoldable pub asked_of : Bytes → List Ask → List Ask
asked_of alias [] = []
asked_of alias (ask ∷ asks) =
    if concerns alias ask then ask ∷ asked_of alias asks else asked_of alias asks

unfoldable pub replies_of : Bytes → List Ask → List Reply → List Reply
replies_of alias [] replies = []
replies_of alias (ask ∷ asks) [] = []
replies_of alias (ask ∷ asks) (reply ∷ replies) =
    let rest = replies_of alias asks replies in if concerns alias ask then reply ∷ rest else rest

-- The registries do not differ for an alias.
record IsAlike (alias : Bytes) (r t : Registry) : Type 0 where
  pub size : r.size ≡ t.size
  pub runs : r.runs ≡ t.runs
  pub pool : r.pool_of alias ≡ t.pool_of alias

IsAlike-refl : (alias : Bytes) (r : Registry) → IsAlike alias r r
IsAlike-refl alias r = record { size = refl; runs = refl; pool = refl }

-- A registry with another pool for another alias.
changed-IsAlike :
    (alias other : Bytes) (r t : Registry) (p : Pool)
    → bytes_eq alias other ≡ false
    → IsAlike alias r t
    → IsAlike alias (record r { pool_of = changed r.pool_of other p }) t
changed-IsAlike alias other r t p h like = record {
  size = like.size;
  runs = like.runs;
  pool = rw h like.pool;
}

-- What holds on both branches of a test.
if-both : {X : Type 0} (P : X → Type 0) (b : Bool) (x y : X) → P x → P y → P (if b then x else y)
if-both P true x y h k = h
if-both P false x y h k = k

if-related :
    {X : Type 0} (R : X → X → Type 0) (b c : Bool) (x y v w : X)
    → b ≡ c
    → R x v
    → R y w
    → R (if b then x else y) (if c then v else w)
if-related R b true x y v w same h k = rw same h
if-related R b false x y v w same h k = rw same k

-- What does not concern the alias leaves the registry alike.
adds_pool-other :
    (alias : Bytes) (r t : Registry) (co : ConnectionOptions) (pool_size : Option ℕ) (fresh : ℕ)
    → bytes_eq alias co.alias ≡ false
    → IsAlike alias r t
    → IsAlike alias (adds_pool r co pool_size fresh).0 t
unfolding adds_pool
adds_pool-other alias r t co pool_size fresh h like = elim (Option-cases (r.pool_of co.alias)) [
  | inr (p, known) ↦ rw (adds_pool, known) like
  | inl unknown ↦ elim (Throws-cases (create_pool (size_or pool_size r.size) co fresh)) [
    | inl (p, made) ↦ rw (adds_pool, unknown, made) (changed-IsAlike alias co.alias r t p h like)
    | inr (err, threw) ↦ rw (adds_pool, unknown, threw) like
  ]
]

asks_pool-other :
    (alias : Bytes) (r t : Registry) (other : Bytes) (e : Execute) (fresh : ℕ)
    → bytes_eq alias other ≡ false
    → IsAlike alias r t
    → IsAlike alias (asks_pool r other e fresh).0 t
unfolding asks_pool
asks_pool-other alias r t other e fresh h like = elim (Option-cases (r.pool_of other)) [
  | inl unknown ↦ rw (asks_pool, unknown) like
  | inr (p, known) ↦ elim (Throws-cases (Pool.get_connection p e fresh)) [
    | inl ((q, calls), answered) ↦
        rw (asks_pool, known, answered) (changed-IsAlike alias other r t q h like)
    | inr (err, threw) ↦ rw (asks_pool, known, threw) like
  ]
]

answers-other :
    (alias : Bytes) (r t : Registry) (ask : Ask)
    → concerns alias ask ≡ false
    → IsAlike alias r t
    → IsAlike alias (answers r ask).0 t
unfolding answers
answers-other alias r t (adds co pool_size fresh) h like =
    if-both (λ (x : Registry × Reply). IsAlike alias x.0 t) r.runs _ _
      (if-both (λ (x : Registry × Reply). IsAlike alias x.0 t) (is_empty co.uri) _ _ like
        (if-both (λ (x : Registry × Reply). IsAlike alias x.0 t) (is_empty co.alias) _ _ like
          (adds_pool-other alias r t co pool_size fresh h like)))
      like
answers-other alias r t (requests other e fresh) h like =
    if-both (λ (x : Registry × Reply). IsAlike alias x.0 t) r.runs _ _
      (asks_pool-other alias r t other e fresh h like) like
answers-other alias r t (stops callback) h like = absurd (ground (arith, h))

-- What concerns the alias has the same reply, and leaves registries alike.
abbrev Agrees : Bytes → Registry × Reply → Registry × Reply → Type 0
Agrees alias (r, reply) (t, other) = IsAlike alias r t × (reply ≡ other)

changed-both :
    (alias : Bytes) (r t : Registry) (p : Pool)
    → IsAlike alias r t
    → IsAlike alias
        (record r { pool_of = changed r.pool_of alias p })
        (record t { pool_of = changed t.pool_of alias p })
changed-both alias r t p like = record {
  size = like.size;
  runs = like.runs;
  pool = ap (λ x. if bytes_eq alias alias then some p else x) like.pool;
}

adds_pool-Agrees :
    (r t : Registry) (co : ConnectionOptions) (pool_size : Option ℕ) (fresh : ℕ)
    → IsAlike co.alias r t
    → Agrees co.alias (adds_pool r co pool_size fresh) (adds_pool t co pool_size fresh)
unfolding adds_pool
adds_pool-Agrees r t co pool_size fresh like = elim (Option-cases (t.pool_of co.alias)) [
  | inr (p, known) ↦ rw (adds_pool, like.pool, known) (like, refl)
  | inl unknown ↦ elim (Throws-cases (create_pool (size_or pool_size t.size) co fresh)) [
    | inl (p, made) ↦
        rw (adds_pool, like.pool, unknown, like.size, made) (changed-both co.alias r t p like, refl)
    | inr (err, threw) ↦ rw (adds_pool, like.pool, unknown, like.size, threw) (like, refl)
  ]
]

asks_pool-Agrees :
    (alias : Bytes) (r t : Registry) (e : Execute) (fresh : ℕ)
    → IsAlike alias r t
    → Agrees alias (asks_pool r alias e fresh) (asks_pool t alias e fresh)
unfolding asks_pool
asks_pool-Agrees alias r t e fresh like = elim (Option-cases (t.pool_of alias)) [
  | inl unknown ↦ rw (asks_pool, like.pool, unknown) (like, refl)
  | inr (p, known) ↦ elim (Throws-cases (Pool.get_connection p e fresh)) [
    | inl ((q, calls), answered) ↦
        rw (asks_pool, like.pool, known, answered) (changed-both alias r t q like, refl)
    | inr (err, threw) ↦ rw (asks_pool, like.pool, known, threw) (like, refl)
  ]
]

answers-Agrees :
    (alias : Bytes) (r t : Registry) (ask : Ask)
    → concerns alias ask ≡ true
    → IsAlike alias r t
    → Agrees alias (answers r ask) (answers t ask)
unfolding answers
answers-Agrees alias r t (adds co pool_size fresh) h like =
    if-related (Agrees alias) r.runs t.runs _ _ _ _ like.runs
      (if-related (Agrees alias) (is_empty co.uri) (is_empty co.uri) _ _ _ _ refl (like, refl)
        (if-related (Agrees alias) (is_empty co.alias) (is_empty co.alias) _ _ _ _ refl (like, refl)
          (subst
            (λ a.
              IsAlike a r t
              → Agrees a (adds_pool r co pool_size fresh) (adds_pool t co pool_size fresh))
            (sym (bytes_eq-eq alias co.alias h)) (adds_pool-Agrees r t co pool_size fresh) like)))
      (like, refl)
answers-Agrees alias r t (requests other e fresh) h like =
    if-related (Agrees alias) r.runs t.runs _ _ _ _ like.runs
      (subst (λ a. Agrees alias (asks_pool r a e fresh) (asks_pool t a e fresh))
        (bytes_eq-eq alias other h) (asks_pool-Agrees alias r t e fresh like))
      (like, refl)
answers-Agrees alias r t (stops callback) h like = (by_runs r.runs t.runs like.runs, refl)
  where
    by_runs :
        (b c : Bool)
        → b ≡ c
        → IsAlike alias
            (if b then record r { runs = false; pool_of = λ alias. none } else r)
            (if c then record t { runs = false; pool_of = λ alias. none } else t)
    by_runs b c same =
        if-related (IsAlike alias) b c _ _ _ _ same
          (record { size = like.size; runs = refl; pool = refl }) like

-- A history and the part of it that concerns the alias.
answers_all-IsAlike :
    (alias : Bytes) (r t : Registry) (asks : List Ask)
    → IsAlike alias r t
    → IsAlike alias (answers_all r asks).0 (answers_all t (asked_of alias asks)).0
      × (replies_of alias asks (answers_all r asks).1 ≡ (answers_all t (asked_of alias asks)).1)
unfolding answers_all asked_of replies_of
answers_all-IsAlike alias r t [] like = (like, refl)
answers_all-IsAlike alias r t (ask ∷ asks) like = elim (Bool-cases (concerns alias ask)) [
  | inl mine ↦
      let (next, reply) = answers-Agrees alias r t ask mine like in
      let (last, replies) =
        answers_all-IsAlike alias (answers r ask).0 (answers t ask).0 asks next in
      rw mine (
        last,
        ap (◌∷◌ (answers r ask).1) replies
            ∙ ap (λ x. x ∷ (answers_all (answers t ask).0 (asked_of alias asks)).1) reply,
      )
  | inr other ↦
      rw other (
        answers_all-IsAlike alias (answers r ask).0 t asks (answers-other alias r t ask other like))
]

module _ (at_once : ℕ → Bool) where
  -- What is asked of a service for one alias has the replies that it has when nothing is asked for
  -- other aliases, and leaves the alias the same pool; the calls of stop are for every alias.
  pub respond_all-asked_of :
      (s : Service) (alias : Bytes) (asks : List Ask)
      → let (t, replies) = respond_all at_once s asks in
        let (u, own) = respond_all at_once s (asked_of alias asks) in
        (replies_of alias asks replies ≡ own) × (lookup alias t.pools ≡ lookup alias u.pools)
  unfolding view
  respond_all-asked_of s alias asks =
      by_registry (respond_all at_once s asks) (respond_all at_once s (asked_of alias asks)) _ _
        (respond_all-Refines at_once s asks) (respond_all-Refines at_once s (asked_of alias asks))
        (answers_all-IsAlike alias (view s) (view s) asks (IsAlike-refl alias (view s)))
    where
      by_registry :
          (all own : Service × List Reply) (seen mine : Registry × List Reply)
          → seen_all all ≡ seen
          → seen_all own ≡ mine
          → IsAlike alias seen.0 mine.0 × (replies_of alias asks seen.1 ≡ mine.1)
          → (replies_of alias asks all.1 ≡ own.1)
            × (lookup alias all.0.pools ≡ lookup alias own.0.pools)
      by_registry all own seen mine h k (like, replies) = (
        ap (λ x. replies_of alias asks x.1) h ∙ replies ∙ sym (ap (λ x. x.1) k),
        ap (λ x. x.0.pool_of alias) h ∙ like.pool ∙ sym (ap (λ x. x.0.pool_of alias) k),
      )
