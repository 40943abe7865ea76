-- ===== src/Serving/Arrivals.antt =====
-- Replies that arrive read by read, and the connection that reads them
-- (include/redis_async/details/connection/connection_fsm.hpp).
use redis_async.Prelude.{
  ℕ, ◌^◌, ◌<◌, ◌≡◌, refl, sym, ap, Option, none, Bool, true, [], ◌∷◌, ◌++◌, map, All, List, Bytes,
  length, append_assoc,
}
use redis_async.Prelude.Int.{ℤ}
use redis_async.Errors.{raise, Throws, ok, ◌>>=◌}
use redis_async.Protocol.Parser.{parse}
use redis_async.Protocol.Parser.Bounds.{CastsToInt64}
use redis_async.Connection.Events.{FsmEvent, Transport}
use redis_async.Connection.Reading.{event_of, finished, handle_read}
use redis_async.Connection.Reading.Replies.{Segment, IsSegment, join, read_message-join}
use redis_async.Connection.Machine.{Machine, Action}
use redis_async.Pool.{Pool}
use redis_async.Serving.{Served, process, serve, Outcome, reads_on, stopped, behind, receive}

-- The events of the replies, of one read and of all.
abbrev pub events_of : List Segment → List FsmEvent
events_of = map (λ s. event_of s.reply)

unfoldable pub all_events : List (List Segment) → List FsmEvent
all_events [] = []
all_events (ss ∷ reads) = events_of ss ++ all_events reads

-- The outcome of events that were all read.
abbrev pub read_all : Throws ((Pool × Machine) × List Action) → Outcome
read_all (ok ((p, m), acts)) = reads_on p m [] acts
read_all (raise err) = stopped

module _ (transport : Transport) (at_once : ℕ → Bool) (c : ℕ) where
  serve-append :
      (p : Pool) (m : Machine) (evs more : List FsmEvent)
      → serve transport at_once c p m (evs ++ more) ≡ (
          serve transport at_once c p m evs >>= λ ((q, n), acts).
          serve transport at_once c q n more >>= λ (last, rest). ok (last, acts ++ rest))
  unfolding serve
  serve-append p m [] more = by_outcome (serve transport at_once c p m more)
    where
      by_outcome : (r : Throws Served) → r ≡ (r >>= λ (last, rest). ok (last, rest))
      by_outcome (ok a) = refl
      by_outcome (raise err) = refl
  serve-append p m (ev ∷ evs) more =
      by_process (process transport at_once c p m ev) (λ q n. serve-append q n evs more)
    where
      and_then : List Action → Throws Served → Throws Served
      and_then acts r = r >>= λ (last, rest). ok (last, acts ++ rest)

      then_more : Served → Throws Served
      then_more ((q, n), acts) = and_then acts (serve transport at_once c q n more)

      by_more :
          (acts also : List Action) (r : Throws Served)
          → and_then acts (and_then also r) ≡ and_then (acts ++ also) r
      by_more acts also (ok (last, rest)) =
          ap (λ all. ok (last, all)) (sym (append_assoc acts also rest))
      by_more acts also (raise err) = refl

      by_serve :
          (acts : List Action) (r : Throws Served)
          → and_then acts (r >>= then_more) ≡ (and_then acts r >>= then_more)
      by_serve acts (ok ((q, n), also)) = by_more acts also (serve transport at_once c q n more)
      by_serve acts (raise err) = refl

      by_process :
          (r : Throws Served)
          → ((q : Pool) (n : Machine)
              → serve transport at_once c q n (evs ++ more)
                ≡ (serve transport at_once c q n evs >>= then_more))
          → (r >>= λ ((q, n), acts). and_then acts (serve transport at_once c q n (evs ++ more)))
            ≡ ((r >>= λ ((q, n), acts). and_then acts (serve transport at_once c q n evs))
                >>= then_more)
      by_process (ok ((q, n), acts)) ih =
          rw (ih q n) (by_serve acts (serve transport at_once c q n evs))
      by_process (raise err) ih = refl

module _ (lexical_cast : Bytes → Option ℤ) (max_size : ℕ) (casts : CastsToInt64 lexical_cast)
    (transport : Transport) (at_once : ℕ → Bool) (c : ℕ) where
  handle_read-join :
      (ss : List Segment)
      → length (join ss) < 2 ^ 64
      → All (IsSegment lexical_cast max_size) ss
      → handle_read (parse lexical_cast max_size) none (length (join ss)) (join ss)
        ≡ (finished (events_of ss) [], true)
  unfolding handle_read
  handle_read-join ss fits h = rw (read_message-join lexical_cast max_size casts ss fits h) refl

  -- However the replies and errors of the server are cut into reads between them, each read of at
  -- most as many bytes as a size_t counts, the connection and its pool do what they do for the events
  -- of all, one after the other, and no byte is left; lexical_cast returns values of `int64_t`.
  pub receive-join :
      (p : Pool) (m : Machine) (reads : List (List Segment))
      → All (λ ss. (length (join ss) < 2 ^ 64) × All (IsSegment lexical_cast max_size) ss) reads
      → receive transport at_once c (parse lexical_cast max_size) p m [] (map join reads)
        ≡ read_all (serve transport at_once c p m (all_events reads))
  unfolding receive all_events serve
  receive-join p m [] h = refl
  receive-join p m (ss ∷ reads) h =
      rw
        (
          receive,
          handle_read-join ss h.0.0 h.0.1,
          serve-append transport at_once c p m (events_of ss) (all_events reads),
        )
        (by_serve (serve transport at_once c p m (events_of ss))
          (λ q n. receive-join q n reads h.1))
    where
      by_rest :
          (acts : List Action) (r : Throws Served)
          → behind acts (read_all r) ≡ read_all (r >>= λ (last, rest). ok (last, acts ++ rest))
      by_rest acts (ok (last, rest)) = refl
      by_rest acts (raise err) = refl

      by_serve :
          (r : Throws Served)
          → ((q : Pool) (n : Machine)
              → receive transport at_once c (parse lexical_cast max_size) q n [] (map join reads)
                ≡ read_all (serve transport at_once c q n (all_events reads)))
          → (elim r [
            | ok ((q, n), acts) ↦
                behind acts (
                  receive transport at_once c (parse lexical_cast max_size) q n [] (map join reads))
            | raise err ↦ stopped
          ])
            ≡ read_all (
                r >>= λ ((q, n), acts).
                serve transport at_once c q n (all_events reads) >>= λ (last, rest).
                ok (last, acts ++ rest))
      by_serve (ok ((q, n), acts)) ih =
          rw (ih q n) (by_rest acts (serve transport at_once c q n (all_events reads)))
      by_serve (raise err) ih = refl
