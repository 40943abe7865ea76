-- ===== src/Pool/Serves.antt =====
-- What a part of a history of a pool does with its requests
-- (src/details/connection/connection_pool.cpp).
use redis_async.Prelude.{
  ℕ, ◌+◌, ◌≡◌, refl, sym, subst, inl, inr, Option, none, some, Bool, true, false, ◌&&◌,
  if◌then◌else◌, [], ◌∷◌, ◌++◌, List, arith, Option-cases, append-nil, ap,
}
use mathlib.Core.List.{Sublistᴰ}
use mathlib.Core.List.Sublistᴰ
use redis_async.Errors.{RdError}
use redis_async.Connection.Events.{Execute}
use redis_async.Pool.{
  Pool, Call, execute, terminate, fail, call_closed, is_nil, call_back, erase_connection,
  enqueue_event, fail_all, connection_terminated,
}
use redis_async.Pool.History.{executed, handled, pending, count_of}
use redis_async.Pool.Invariant.{IsValid, Shrunk, IsValid-Shrunk}

-- What a part of a history does, from the pool `p` to the pool `q`, with these requests and calls.
pub record Serves (p : Pool) (submitted : List Execute) (q : Pool) (calls : List Call)
    : Type 0 where
  pub valid : IsValid q
  pub size_kept : q.pool_size ≡ p.pool_size
  pub each_once :
      (x : ℕ) → pending x p.queue + pending x submitted ≡ handled x calls + pending x q.queue
  pub in_order : Sublistᴰ (executed calls ++ q.queue) (p.queue ++ submitted)

pub pending-append :
    (x : ℕ) (ds es : List Execute) → pending x (ds ++ es) ≡ pending x ds + pending x es
unfolding pending
pending-append x [] es = omega arith
pending-append x (d ∷ ds) es = omega (arith, pending-append x ds es)

pub handled-append :
    (x : ℕ) (before after : List Call)
    → handled x (before ++ after) ≡ handled x before + handled x after
unfolding handled
handled-append x [] after = omega arith
handled-append x (execute c e ∷ before) after = omega (arith, handled-append x before after)
handled-append x (fail y err ∷ before) after = omega (arith, handled-append x before after)
handled-append x (terminate c ∷ before) after = handled-append x before after
handled-append x (call_closed y ∷ before) after = handled-append x before after

pub executed-append :
    (before after : List Call) → executed (before ++ after) ≡ executed before ++ executed after
unfolding executed
executed-append [] after = refl
executed-append (execute c e ∷ before) after = ap (◌∷◌ e) (executed-append before after)
executed-append (fail y err ∷ before) after = executed-append before after
executed-append (terminate c ∷ before) after = executed-append before after
executed-append (call_closed y ∷ before) after = executed-append before after

pub next_request-Serves :
    (p : Pool) (c : ℕ) (e : Execute) (rest : List Execute)
    → p.queue ≡ e ∷ rest
    → IsValid p
    → Serves p [] (record p { queue = rest }) (execute c e ∷ [])
unfolding executed handled pending
next_request-Serves p c e rest queued v = record {
  valid = record {
    bounded = v.bounded;
    either = ground (arith, v.either, queued);
    transport = v.transport;
    supported = v.supported;
  };
  size_kept = refl;
  each_once = λ x. rw queued (omega arith);
  in_order = rw (queued, append-nil rest) (Sublistᴰ.refl (e ∷ rest));
}

pub enqueue-Serves :
    (p : Pool) (e : Execute) → p.ready ≡ [] → IsValid p → Serves p (e ∷ []) (enqueue_event p e) []
unfolding executed handled pending enqueue_event
enqueue-Serves p e idle v = record {
  valid = record {
    bounded = v.bounded;
    either = inl idle;
    transport = v.transport;
    supported = v.supported;
  };
  size_kept = refl;
  each_once = λ x. omega (arith, pending-append x p.queue (e ∷ []));
  in_order = Sublistᴰ.refl (p.queue ++ e ∷ []);
}

-- Calls that hand over no request.
pub record IsQuiet (calls : List Call) : Type 0 where
  pub no_request : executed calls ≡ []
  pub no_failure : (x : ℕ) → handled x calls ≡ 0

pub IsQuiet-append :
    {before after : List Call} → IsQuiet before → IsQuiet after → IsQuiet (before ++ after)
IsQuiet-append {before} {after} b a = record {
  no_request = rw (executed-append before after, b.no_request, a.no_request) refl;
  no_failure = λ x. omega (arith, handled-append x before after, b.no_failure x, a.no_failure x);
}

pub call_back-IsQuiet : (callback : Option ℕ) → IsQuiet (call_back callback)
unfolding executed handled
call_back-IsQuiet none = record { no_request = refl; no_failure = λ x. refl }
call_back-IsQuiet (some callback) = record { no_request = refl; no_failure = λ x. refl }

pub connection_terminated-IsQuiet :
    (p : Pool) (c : Option ℕ) → IsQuiet (connection_terminated p c).1
unfolding connection_terminated executed handled
connection_terminated-IsQuiet p c =
    test (is_nil (erase_connection p c).connections && (erase_connection p c).closed)
  where
    test : (b : Bool) → IsQuiet (if b then call_back (erase_connection p c).closed_callback else [])
    test true = call_back-IsQuiet (erase_connection p c).closed_callback
    test false = record { no_request = refl; no_failure = λ x. refl }

-- The pool lost connections at most.
pub quiet-Serves :
    {p q : Pool} (calls : List Call) → Shrunk p q → IsQuiet calls → IsValid p → Serves p [] q calls
unfolding pending
quiet-Serves {p} calls s quiet v =
    subst (λ q. Serves p [] q calls) (sym s.same)
      (record {
        valid = subst IsValid s.same (IsValid-Shrunk s v);
        size_kept = refl;
        each_once = λ x. omega (arith, quiet.no_failure x);
        in_order = rw (quiet.no_request, append-nil p.queue) (Sublistᴰ.refl p.queue);
      })

pub terminate-IsQuiet :
    (c : ℕ) {calls more : List Call}
    → IsQuiet calls
    → IsQuiet more
    → IsQuiet (terminate c ∷ (calls ++ more))
unfolding executed handled
terminate-IsQuiet c quiet still =
    let both = IsQuiet-append quiet still in
    record { no_request = both.no_request; no_failure = λ x. both.no_failure x }

-- Nothing is called.
pub nothing : IsQuiet []
unfolding executed handled
nothing = record { no_request = refl; no_failure = λ x. refl }

pub fail_all-handled :
    (x : ℕ) (es : List Execute) (err : RdError) → handled x (fail_all es err) ≡ pending x es
unfolding fail_all handled pending count_of
fail_all-handled x [] err = refl
fail_all-handled x (e ∷ es) err = elim (Option-cases e.error) [
  | inl silent ↦ rw silent (omega (arith, fail_all-handled x es err))
  | inr (y, heard) ↦ rw heard (omega (arith, fail_all-handled x es err))
]

pub fail_all-executed : (es : List Execute) (err : RdError) → executed (fail_all es err) ≡ []
unfolding fail_all executed
fail_all-executed [] err = refl
fail_all-executed (e ∷ es) err = elim (Option-cases e.error) [
  | inl silent ↦ rw silent (fail_all-executed es err)
  | inr (y, heard) ↦ rw heard (fail_all-executed es err)
]
