-- ===== src/Pool/Requests.antt =====
-- The requests of a history of a pool: each is handed over once, and in order
-- (src/details/connection/connection_pool.cpp).
use redis_async.Prelude.{
  Bytes, codes, ℕ, zero, suc, ◌≡◌, ◌∙◌, refl, sym, subst, inl, none, false, [], ◌∷◌, ◌++◌, List,
  arith, append_assoc,
}
use mathlib.Core.List.{Sublistᴰ}
use mathlib.Core.List.Sublistᴰ
use redis_async.Errors.{raise, connection_error, Throws, ok, throw, ◌>>=◌}
use redis_async.Options.{ConnectionOptions}
use redis_async.Connection.Events.{Execute, Transport, create}
use redis_async.Pool.{Pool, Call, construct, create_pool, create_new_connection}
use redis_async.Pool.History.{executed}
use redis_async.Pool.Invariant.{IsValid}
use redis_async.Pool.Serves.{Serves, pending-append, handled-append, executed-append}

pub Serves-trans :
    {p q r : Pool} (es fs : List Execute) (calls more : List Call)
    → Serves p es q calls
    → Serves q fs r more
    → Serves p (es ++ fs) r (calls ++ more)
Serves-trans {p} {q} {r} es fs calls more a b = record {
  valid = b.valid;
  size_kept = b.size_kept ∙ a.size_kept;
  each_once = λ x.
      omega
        (arith, a.each_once x, b.each_once x, pending-append x es fs, handled-append x calls more);
  in_order = ordered;
}
  where
    executed_then :
        executed (calls ++ more) ++ r.queue ≡ executed calls ++ (executed more ++ r.queue)
    executed_then =
        rw (executed-append calls more, append_assoc (executed calls) (executed more) r.queue) refl

    first :
        Sublistᴰ (executed calls ++ (executed more ++ r.queue)) (executed calls ++ (q.queue ++ fs))
    first = Sublistᴰ.append (Sublistᴰ.refl (executed calls)) b.in_order

    second : Sublistᴰ ((executed calls ++ q.queue) ++ fs) ((p.queue ++ es) ++ fs)
    second = Sublistᴰ.append a.in_order (Sublistᴰ.refl fs)

    ordered : Sublistᴰ (executed (calls ++ more) ++ r.queue) (p.queue ++ (es ++ fs))
    ordered =
        rw (executed_then, sym (append_assoc p.queue es fs))
          (Sublistᴰ.trans first (rw (sym (append_assoc (executed calls) q.queue fs)) second))

-- What is there to say of a new pool.
abbrev pub IsNew : ℕ → ℕ → Pool → Type 0
IsNew pool_size fresh p =
    IsValid p
    × (p.pool_size ≡ pool_size)
    × (p.connections ≡ fresh ∷ [])
    × (p.ready ≡ [])
    × (p.queue ≡ [])
    × (p.closed ≡ false)

-- The pool before its first connection.
abbrev empty_pool : ℕ → ConnectionOptions → Pool
empty_pool n co = record {
  pool_size = suc n;
  co = co;
  connections = [];
  ready = [];
  queue = [];
  closed = false;
  closed_callback = none;
}

first_connection-IsNew :
    (n : ℕ) (co : ConnectionOptions) (fresh : ℕ) (p : Pool) (o : Throws Transport)
    → create co ≡ o
    → (o >>= λ _. ok (record (empty_pool n co) { connections = fresh ∷ [] })) ≡ ok p
    → IsNew (suc n) fresh p
first_connection-IsNew n co fresh p (raise err) made h = absurd (ground (arith, h))
first_connection-IsNew n co fresh p (ok t) made h = subst (IsNew (suc n) fresh) (ok_inj h) (
  record { bounded = omega arith; either = inl refl; transport = t; supported = made },
  refl,
  refl,
  refl,
  refl,
  refl,
)
  where
    ok_inj : {q : Pool} → ok q ≡ ok p → q ≡ p
    ok_inj e = ground (arith, e)

-- A pool that `connection_pool::create` returns is valid, open, of the size that was asked for and
-- has its one connection; no connection is idle and no request waits.
pub create_pool-IsValid :
    (pool_size : ℕ) (co : ConnectionOptions) (fresh : ℕ) (p : Pool)
    → create_pool pool_size co fresh ≡ ok p
    → IsNew pool_size fresh p
unfolding create_pool construct create_new_connection
create_pool-IsValid zero co fresh p made = absurd (ground (arith, made))
create_pool-IsValid (suc n) co fresh p made = by_uri co.uri refl made
  where
    by_uri :
        (uri : Bytes)
        → co.uri ≡ uri
        → ((elim uri [
          | [] ↦ throw (connection_error (codes "No URI in database connection string"))
          | _ ∷ _ ↦ ok (empty_pool n co)
        ])
            >>= λ p. create_new_connection p fresh)
          ≡ ok p
        → IsNew (suc n) fresh p
    by_uri [] e h = absurd (ground (arith, h))
    by_uri (u ∷ us) e h = first_connection-IsNew n co fresh p (create co) refl h
