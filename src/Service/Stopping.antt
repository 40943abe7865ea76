-- ===== src/Service/Stopping.antt =====
-- The end of a service with its pools: redis_impl::stop of src/details/redis_impl.cpp.
use redis_async.Prelude.{
  ℕ, suc, ◌+◌, ◌-◌, ◌%◌, ◌^◌, ◌≤◌, ◌<◌, ◌≡◌, refl, ap, ◌∙◌, some, Bool, true, false, [], ◌∷◌, ◌++◌,
  List, Bytes, All, arith,
}
use redis_async.Pool.{
  Pool, Call, call_closed, execute, terminate, fail, close_connections, terminate_all, close,
}
use redis_async.Connection.Events.{Execute}
use redis_async.Pool.Invariant.{terminate_all-Shrunk}
use redis_async.Service.{Service, close_all, count_down, size, is_running, stop}

-- How often the callback of `close` is called.
unfoldable pub closings : List Call → ℕ
closings [] = 0
closings (call_closed callback ∷ calls) = suc (closings calls)
closings (_ ∷ calls) = closings calls

closings-append :
    (before after : List Call) → closings (before ++ after) ≡ closings before + closings after
unfolding closings
closings-append [] after = omega arith
closings-append (c ∷ before) after = ground (arith, closings-append before after)

-- As many calls as there are pools bring the count to 0.
stops-pos :
    (n : ℕ) (calls : List Call)
    → 0 < n
    → n < 2 ^ 64
    → n ≤ closings calls
    → 0 < (count_down n calls).1
unfolding count_down closings
stops-pos n [] p lt le = absurd (omega arith)
stops-pos n (call_closed callback ∷ calls) p lt le =
    let left : ℕ = (n + 2 ^ 64 - 1) % 2 ^ 64 in
    let smaller : left ≡ n - 1 = omega arith in ground (arith, stops-pos left calls, smaller)
stops-pos n (execute c e ∷ calls) p lt le = stops-pos n calls p lt le
stops-pos n (terminate c ∷ calls) p lt le = stops-pos n calls p lt le
stops-pos n (fail c err ∷ calls) p lt le = stops-pos n calls p lt le

-- The pool is open and no request waits.
abbrev pub IsIdle : Bytes × Pool → Type 0
IsIdle (alias, p) = (p.closed ≡ false) × (p.queue ≡ [])

module _ (at_once : ℕ → Bool) where
  closings-close_connections :
      (p : Pool) (callback : ℕ)
      → p.closed_callback ≡ some callback
      → 1 ≤ closings (close_connections at_once p).1
  unfolding close_connections closings
  closings-close_connections p callback e =
      let kept : (terminate_all at_once p p.connections).0.closed_callback ≡ some callback =
        ap (λ q. q.closed_callback) (terminate_all-Shrunk at_once p p.connections).same ∙ e in
      rw kept (
        omega (
          arith,
          closings-append (terminate_all at_once p p.connections).1 (call_closed callback ∷ []),
        ))

  closings-close :
      (p : Pool) (callback : ℕ)
      → p.closed ≡ false
      → p.queue ≡ []
      → 1 ≤ closings (close at_once p (some callback)).1
  unfolding close
  closings-close p callback = by_fields p.queue p.closed
    where
      by_fields :
          (es : List Execute) (b : Bool)
          → b ≡ false
          → es ≡ []
          → 1 ≤ closings (close at_once (record p { queue = es; closed = b }) (some callback)).1
      by_fields es true o e = absurd (ground (arith, o))
      by_fields (x ∷ es) false o e = absurd (ground (arith, e))
      by_fields [] false o e = closings-close_connections _ callback refl

  closings-close_all :
      (pools : List (Bytes × Pool)) (callback : ℕ)
      → All IsIdle pools
      → size pools ≤ closings (close_all at_once pools callback)
  unfolding close_all closings
  closings-close_all [] callback h = omega arith
  closings-close_all ((k, p) ∷ pools) callback h = omega (
    arith,
    closings-append (close at_once p (some callback)).1 (close_all at_once pools callback),
    closings-close p callback h.0.0 h.0.1,
    closings-close_all pools callback h.1,
  )

  -- A running service whose pools, one at least and as many as a size_t counts, are open and have no
  -- request that waits, stops the io_service within the call of `stop`, whatever connections of its
  -- pools terminate within it.
  pub stop-stops :
      (s : Service) (callback : ℕ)
      → is_running s.state ≡ true
      → 0 < size s.pools
      → size s.pools < 2 ^ 64
      → All IsIdle s.pools
      → 0 < (count_down (size s.pools) (stop at_once s callback).1).1
  unfolding stop
  stop-stops s callback runs some_pools fits h =
      rw (stop, runs)
        (stops-pos (size s.pools) (close_all at_once s.pools callback) some_pools fits
          (closings-close_all s.pools callback h))
