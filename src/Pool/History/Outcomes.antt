-- ===== src/Pool/History/Outcomes.antt =====
-- How a history of a pool ends: it returns, or throws where a closed pool calls an error callback that
-- is empty (src/details/connection/connection_pool.cpp).
use redis_async.Prelude.{ℕ, ◌≡◌, refl, ap, none, Bool, true, [], ◌∷◌, ◌++◌, List}
use redis_async.Errors.{bad_function_call, Throws, ok, raise, ◌>>=◌}
use redis_async.Connection.Events.{Execute}
use redis_async.Pool.{Pool, Call}
use redis_async.Pool.History.{Event, requested, step, run}

-- One call: it has the property, or is a request without an error callback on a closed pool, which
-- throws.
abbrev pub StepEnds :
    Pool → Event → (Pool × List Call → Type 0) → Throws (Pool × List Call) → Type 0
StepEnds p ev P (ok done) = P done
StepEnds p ev P (raise err) =
    (err ≡ bad_function_call)
    × ((e : Execute) × (fresh : ℕ) × (ev ≡ requested e fresh) × (e.error ≡ none))
    × (p.closed ≡ true)

module _ (at_once : ℕ → Bool) where
  -- The calls of the history before a request without an error callback returned, with the property,
  -- and left the pool closed.
  pub record Refusal (p : Pool) (evs : List Event) (P : List Event → Pool × List Call → Type 0)
      : Type 0 where
    pub before : List Event
    pub after : List Event
    pub request : Execute
    pub fresh : ℕ
    pub pool : Pool
    pub calls : List Call
    pub at : evs ≡ before ++ requested request fresh ∷ after
    pub silent : request.error ≡ none
    pub returned : run at_once p before ≡ ok (pool, calls)
    pub closed : pool.closed ≡ true
    pub holds : P before (pool, calls)

  -- A history returns, with the property, or throws at such a request.
  abbrev pub RunEnds :
      Pool
      → List Event
      → (List Event → Pool × List Call → Type 0)
      → Throws (Pool × List Call)
      → Type 0
  RunEnds p evs P (ok done) = P evs done
  RunEnds p evs P (raise err) = (err ≡ bad_function_call) × Refusal p evs P

  run-step :
      (p q r : Pool) (ev : Event) (evs : List Event) (calls more : List Call)
      → step at_once p ev ≡ ok (q, calls)
      → run at_once q evs ≡ ok (r, more)
      → run at_once p (ev ∷ evs) ≡ ok (r, calls ++ more)
  unfolding run
  run-step p q r ev evs calls more one rest = rw (run, one, rest) refl

  -- What holds of each call, and of a call and a history behind it, holds of a history.
  module _ (Inv : Pool → Type 0) (P : Pool → List Event → Pool × List Call → Type 0)
      (none_made : (p : Pool) → Inv p → P p [] (p, []))
      (first : (p : Pool) (ev : Event)
        → Inv p
        → StepEnds p ev (λ (q, calls). P p (ev ∷ []) (q, calls) × Inv q) (step at_once p ev))
      (both : (p q r : Pool) (ev : Event) (evs : List Event) (calls more : List Call)
        → P p (ev ∷ []) (q, calls)
        → P q evs (r, more)
        → P p (ev ∷ evs) (r, calls ++ more)) where
    pub run-RunEnds :
        (p : Pool) (evs : List Event) → Inv p → RunEnds p evs (P p) (run at_once p evs)
    unfolding run
    run-RunEnds p [] inv = none_made p inv
    run-RunEnds p (ev ∷ evs) inv =
        by_step (step at_once p ev) refl (first p ev inv) (λ q. run-RunEnds q evs)
      where
        by_rest :
            (q : Pool) (calls : List Call) (t : Throws (Pool × List Call))
            → step at_once p ev ≡ ok (q, calls)
            → P p (ev ∷ []) (q, calls)
            → RunEnds q evs (P q) t
            → RunEnds p (ev ∷ evs) (P p) (t >>= λ (r, more). ok (r, calls ++ more))
        by_rest q calls (ok (r, more)) one now later = both p q r ev evs calls more now later
        by_rest q calls (raise err) one now (bad, h) = (
          bad,
          record {
            before = ev ∷ h.before;
            after = h.after;
            request = h.request;
            fresh = h.fresh;
            pool = h.pool;
            calls = calls ++ h.calls;
            at = ap (◌∷◌ ev) h.at;
            silent = h.silent;
            returned = run-step p q h.pool ev h.before calls h.calls one h.returned;
            closed = h.closed;
            holds = both p q h.pool ev h.before calls h.calls now h.holds;
          },
        )

        by_step :
            (s : Throws (Pool × List Call))
            → step at_once p ev ≡ s
            → StepEnds p ev (λ (q, calls). P p (ev ∷ []) (q, calls) × Inv q) s
            → ((q : Pool) → Inv q → RunEnds q evs (P q) (run at_once q evs))
            → RunEnds p
                (ev ∷ evs)
                (P p)
                (s >>= λ (q, calls). run at_once q evs >>= λ (r, more). ok (r, calls ++ more))
        by_step (ok (q, calls)) one (now, kept) rest =
            by_rest q calls (run at_once q evs) one now (rest q kept)
        by_step (raise err) one (bad, (e, fresh, is, silent), shut) rest = (
          bad,
          record {
            before = [];
            after = evs;
            request = e;
            fresh = fresh;
            pool = p;
            calls = [];
            at = ap (λ x. x ∷ evs) is;
            silent = silent;
            returned = refl;
            closed = shut;
            holds = none_made p inv;
          },
        )
