-- ===== src/Serving/Conversation/Spoken.antt =====
-- What a conversation comes to (src/details/connection/connection_pool.cpp,
-- include/redis_async/details/connection/connection_fsm.hpp).
use redis_async.Prelude.{
  All-append, ℕ, ◌^◌, ◌<◌, ◌≡◌, ◌≢◌, refl, sym, ap, subst, ◌∙◌, Option, some, Bool, false, [], ◌∷◌,
  ◌++◌, map, All, List, Bytes, length, ltb, arith,
}
use redis_async.Prelude.Int.{ℤ}
use redis_async.Errors.{raise, Throws, ok, Returns}
use redis_async.Protocol.Types.{Run}
use redis_async.Protocol.Parser.{parse}
use redis_async.Protocol.Parser.Bounds.{CastsToInt64}
use redis_async.Protocol.RoundTrip.{ReadsDecimals, Fits}
use redis_async.Connection.Events.{Execute, FsmEvent, Transport}
use redis_async.Connection.Reading.{event_of, returned}
use redis_async.Connection.Reading.Replies.{Segment, IsSegment, join}
use redis_async.Connection.Machine.{State, idle, no_query, Machine, Action, async_write}
use redis_async.Pool.{Pool, Call}
use redis_async.Pool.History.{Event, run}
use redis_async.Serving.{
  Served, answers, writes, IsReply, answer, all_answers, idled, busied, follow, serve, Outcome,
  reads_on, behind, receive,
}
use redis_async.Serving.Served.{follow-execute, Ends, serve-Ends}
use redis_async.Serving.Arrivals.{events_of, all_events, read_all, receive-join}
use redis_async.Serving.Conversation.{concat, Talk, request_of, replied, asked, converse}
use redis_async.Serving.Conversation.Asked.{run-asked}
use redis_async.Serving.Conversation.Texts.{ReadAs, server_reads}

-- The parts of talks.
replies-replied :
    (talks : List Talk) → map (λ (e, reply). reply) (replied talks) ≡ map (λ t. t.reply) talks
replies-replied [] = refl
replies-replied (t ∷ talks) = ap (◌∷◌ t.reply) (replies-replied talks)

requests-replied :
    (talks : List Talk) → map (λ (e, reply). e) (replied talks) ≡ map request_of talks
requests-replied [] = refl
requests-replied (t ∷ talks) = ap (◌∷◌ (request_of t)) (requests-replied talks)

buffs-replied :
    (talks : List Talk)
    → map (λ (e, reply). e.buff) (replied talks) ≡ map (λ t. (request_of t).buff) talks
buffs-replied [] = refl
buffs-replied (t ∷ talks) = ap (◌∷◌ (request_of t).buff) (buffs-replied talks)

replied-IsReply :
    (talks : List Talk)
    → All IsReply (map (λ t. t.reply) talks)
    → All (λ (e, reply). IsReply reply) (replied talks)
replied-IsReply [] h = tt
replied-IsReply (t ∷ talks) h = (h.0, replied-IsReply talks h.1)

answer-busied :
    (e : Execute) (m : Machine) (ev : FsmEvent) → answer (busied e m).query_ ev ≡ answer e ev
answer-busied e m ev = ground arith

module _ (lexical_cast : Bytes → Option ℤ) (max_size : ℕ) where
  reply-IsReply : (s : Segment) → IsSegment lexical_cast max_size s → IsReply (event_of s.reply)
  unfolding event_of returned
  reply-IsReply s h = ground (arith, h.whole, h.there)

  events_of-IsReply :
      (ss : List Segment) → All (IsSegment lexical_cast max_size) ss → All IsReply (events_of ss)
  events_of-IsReply [] h = tt
  events_of-IsReply (s ∷ ss) h = (reply-IsReply s h.0, events_of-IsReply ss h.1)

  -- Reads of whole replies, each of at most as many bytes as a size_t counts.
  abbrev pub AreReads : List (List Segment) → Type 0
  AreReads = All (λ ss. (length (join ss) < 2 ^ 64) × All (IsSegment lexical_cast max_size) ss)

  all_events-IsReply :
      (reads : List (List Segment)) → AreReads reads → All IsReply (all_events reads)
  unfolding all_events
  all_events-IsReply [] h = tt
  all_events-IsReply (ss ∷ reads) h =
      All-append IsReply (events_of ss) (all_events reads) (events_of-IsReply ss h.0.1)
        (all_events-IsReply reads h.1)

module _ (transport : Transport) (at_once : ℕ → Bool) (c : ℕ) (parse : Bytes → Run) where
  converse-eq :
      (p q : Pool) (m n : Machine) (events : List Event) (arrivals : List Bytes) (made : List Call)
      (acts : List Action)
      → run at_once p events ≡ ok (q, made)
      → follow transport at_once c made m ≡ ok (n, acts)
      → converse transport at_once c parse p m events arrivals
        ≡ behind acts (receive transport at_once c parse q n [] arrivals)
  unfolding converse
  converse-eq p q m n events arrivals made acts ran followed = rw (converse, ran, followed) refl

module _ (lexical_cast : Bytes → Option ℤ) (max_size : ℕ) (casts : CastsToInt64 lexical_cast)
    (reads : ReadsDecimals lexical_cast) (transport : Transport) (at_once : ℕ → Bool) (c : ℕ) where
  the_pool :
      (p : Pool) → p.ready ≡ c ∷ [] → p.queue ≡ [] → record p { ready = c ∷ []; queue = [] } ≡ p
  the_pool p r q = by_fields p.ready p.queue r q
    where
      by_fields :
          (cs : List ℕ) (es : List Execute)
          → cs ≡ c ∷ []
          → es ≡ []
          → record p { ready = c ∷ []; queue = [] } ≡ record p { ready = cs; queue = es }
      by_fields cs es r q = rw (r, q) refl

  the_machine : (m : Machine) → m.state ≡ idle → m.query_ ≡ no_query → idled m ≡ m
  the_machine m ready clear = by_fields m.state m.query_ ready clear
    where
      by_fields :
          (s : State) (e : Execute)
          → s ≡ idle
          → e ≡ no_query
          → idled m ≡ record m { state = s; query_ = e }
      by_fields s e ready clear = rw (ready, clear) refl

  -- What a conversation comes to: the pool and the machine as they were, each command answered with
  -- the reply to it, and the texts of the commands written, which the parser reads as the commands.
  abbrev pub Spoken : Pool → Machine → List Talk → Outcome → Type 0
  Spoken p m talks outcome =
      (acts : List Action) × (outcome ≡ reads_on p m [] acts)
      × (answers acts ≡ all_answers (replied talks))
      × (writes acts ≡ map (λ t. (request_of t).buff) talks)
      × ReadAs lexical_cast max_size casts reads talks (writes acts)

  -- Clients make requests of commands with names on an open pool that has all its connections, one of
  -- them idle, and where no request waits; then the replies arrive, one for each, in reads of whole
  -- replies of at most as many bytes as a size_t counts. The connection, which has an idle callback,
  -- writes the texts of the commands in their order, and the parser reads them as the commands; each
  -- request is given the reply in its place, where it has the callback for it, and no other; and the
  -- pool and the connection are as they were, with no byte left. The counts of the commands must fit
  -- `int64_t` and the most elements of an array, all the texts the count of a size_t, and
  -- lexical_cast must return values of `int64_t` and read decimal prints.
  pub converse-Spoken :
      (p : Pool) (m : Machine) (k fresh : ℕ) (t : Talk) (talks : List Talk)
      (arrivals : List (List Segment))
      → p.closed ≡ false
      → p.ready ≡ c ∷ []
      → p.queue ≡ []
      → ltb (length p.connections) p.pool_size ≡ false
      → m.state ≡ idle
      → m.query_ ≡ no_query
      → m.callbacks.idle_callback ≡ some k
      → All (λ t. (t.cmd.arguments ≢ []) × Fits max_size t.cmd) (t ∷ talks)
      → length (concat (map (λ t. (request_of t).buff) (t ∷ talks))) < 2 ^ 64
      → AreReads lexical_cast max_size arrivals
      → all_events arrivals ≡ map (λ t. t.reply) (t ∷ talks)
      → Spoken p m (t ∷ talks) (
          converse transport at_once c
            (parse lexical_cast max_size)
            p
            m
            (asked fresh (t ∷ talks))
            (map join arrivals))
  unfolding answers all_answers writes
  converse-Spoken p m k fresh t talks arrivals o r queue full ready clear callback commands short
        whole replies =
      let q : Pool = record p { ready = []; queue = map request_of talks } in
      let n : Machine = busied (request_of t) m in
      let wrote = async_write (request_of t).buff ∷ [] in
      let are_replies : All IsReply (map (λ t. t.reply) (t ∷ talks)) =
        subst (All IsReply) replies (all_events-IsReply lexical_cast max_size arrivals whole) in
      subst (Spoken p m (t ∷ talks))
        (sym (
          converse-eq transport at_once c (parse lexical_cast max_size) p q m n
            (asked fresh (t ∷ talks)) (map join arrivals) _ wrote
            (run-asked at_once p c fresh t talks o r queue full)
            (follow-execute transport at_once c m (request_of t) ready)
          ∙ ap (behind wrote) (
              receive-join lexical_cast max_size casts transport at_once c q n arrivals whole
              ∙ ap (λ evs. read_all (serve transport at_once c q n evs)) replies)))
        (by_served (serve transport at_once c q n (map (λ t. t.reply) (t ∷ talks))) (
          subst
            (λ evs.
              Returns (Ends transport at_once c q n t.reply (replied talks))
                (serve transport at_once c q n (t.reply ∷ evs)))
            (replies-replied talks)
            (serve-Ends transport at_once c q n k t.reply (replied talks) are_replies.0
              (replied-IsReply talks are_replies.1) o (sym (requests-replied talks)) refl
              callback)))
    where
      by_served :
          (served : Throws Served)
          → Returns
              (Ends transport at_once c
                (record p { ready = []; queue = map request_of talks })
                (busied (request_of t) m)
                t.reply
                (replied talks))
              served
          → Spoken p m (t ∷ talks) (behind (async_write (request_of t).buff ∷ []) (read_all served))
      by_served (raise err) h = absurd h
      by_served (ok ((last, n), acts)) (pool, machine, answered, wrote) =
          let texts : writes (async_write (request_of t).buff ∷ acts)
              ≡ map (λ t. (request_of t).buff) (t ∷ talks) =
            ap (◌∷◌ (request_of t).buff) (wrote ∙ buffs-replied talks) in
          (
            async_write (request_of t).buff ∷ acts,
            ap (λ q. reads_on q n [] (async_write (request_of t).buff ∷ acts))
                  (pool ∙ the_pool p r queue)
                ∙ ap (λ o. reads_on p o [] (async_write (request_of t).buff ∷ acts))
                    (machine ∙ the_machine m ready clear),
            answered
                ∙ ap (λ first. first ++ all_answers (replied talks))
                    (answer-busied (request_of t) m t.reply),
            texts,
            subst (ReadAs lexical_cast max_size casts reads (t ∷ talks)) (sym texts)
                (server_reads lexical_cast max_size casts reads (t ∷ talks) commands short),
          )
