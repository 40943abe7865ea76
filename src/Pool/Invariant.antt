-- ===== src/Pool/Invariant.antt =====
-- What holds of a pool at all times.
use redis_async.Prelude.{
  ℕ, ◌≤◌, ◌≡◌, refl, sym, subst, ◌⊎◌, inl, inr, Option, none, some, Bool, [], ◌∷◌, List, length,
  arith, Bool-cases,
}
use redis_async.Errors.{ok}
use redis_async.Connection.Events.{Transport, create}
use redis_async.Pool.{
  Pool, erase, erase_connection, connection_terminated, terminate_all, close_connections,
}

-- The pool has no more connections than its size, an idle connection or a waiting request but not
-- both, and options for which a connection can be made.
pub record IsValid (p : Pool) : Type 0 where
  pub bounded : length p.connections ≤ p.pool_size
  pub either : (p.ready ≡ []) ⊎ (p.queue ≡ [])
  pub transport : Transport
  pub supported : create p.co ≡ ok transport

pub length-erase : (c : ℕ) (ds : List ℕ) → length (erase c ds) ≤ length ds
unfolding erase
length-erase c [] = omega arith
length-erase c (d ∷ ds) = ground (arith, length-erase c ds)

-- The pool `q` is `p` with other connections, and with no more.
pub record Shrunk (p q : Pool) : Type 0 where
  pub left : List ℕ
  pub same : q ≡ record p { connections = left }
  pub fewer : length left ≤ length p.connections

pub Shrunk-refl : (p : Pool) → Shrunk p p
Shrunk-refl p = record { left = p.connections; same = refl; fewer = omega arith }

pub Shrunk-trans : {p q r : Pool} → Shrunk p q → Shrunk q r → Shrunk p r
Shrunk-trans {p} {q} {r} a b = record {
  left = b.left;
  same = subst (λ t. r ≡ record t { connections = b.left }) a.same b.same;
  fewer = omega (arith, a.fewer, subst (λ t. length b.left ≤ length t.connections) a.same b.fewer);
}

pub IsValid-Shrunk : {p q : Pool} → Shrunk p q → IsValid p → IsValid q
IsValid-Shrunk {p} {q} s v = subst IsValid (sym s.same) (record {
  bounded = omega (arith, s.fewer, v.bounded);
  either = v.either;
  transport = v.transport;
  supported = v.supported;
})

pub erase_connection-Shrunk : (p : Pool) (c : Option ℕ) → Shrunk p (erase_connection p c)
unfolding erase_connection
erase_connection-Shrunk p none = Shrunk-refl p
erase_connection-Shrunk p (some c) = record {
  left = erase c p.connections;
  same = refl;
  fewer = length-erase c p.connections;
}

module _ (at_once : ℕ → Bool) where
  pub terminate_all-Shrunk : (p : Pool) (copy : List ℕ) → Shrunk p (terminate_all at_once p copy).0
  unfolding terminate_all connection_terminated
  terminate_all-Shrunk p [] = Shrunk-refl p
  terminate_all-Shrunk p (c ∷ copy) = elim (Bool-cases (at_once c)) [
    | inl now ↦ rw now (
        Shrunk-trans (erase_connection-Shrunk p (some c))
          (terminate_all-Shrunk (erase_connection p (some c)) copy))
    | inr later ↦ rw later (terminate_all-Shrunk p copy)
  ]

  pub close_connections-Shrunk : (p : Pool) → Shrunk p (close_connections at_once p).0
  unfolding close_connections
  close_connections-Shrunk p = terminate_all-Shrunk p p.connections
