-- ===== src/Serving/Served.antt =====
-- The replies to the requests of a pool, by one of its connections
-- (src/details/connection/connection_pool.cpp,
-- include/redis_async/details/connection/connection_fsm.hpp).
use redis_async.Prelude.{
  All, ℕ, ◌≡◌, refl, ap, ◌∙◌, some, Bool, true, false, [], ◌∷◌, ◌++◌, map, List, append-nil,
  append_assoc, ◌==◌, arith,
}
use redis_async.Errors.{ok, Returns, bind-Returns}
use redis_async.Connection.Events.{
  Execute, FsmEvent, options, complete, recv, execute, terminate, query_error, connection_error,
  Transport,
}
use redis_async.Connection.Machine.{idle, query, Machine, Action, async_write, call_idle, dispatch}
use redis_async.Connection.Machine.Session.{
  told, dispatch-execute, dispatch-recv, dispatch-query_error,
}
use redis_async.Pool as Pool
use redis_async.Pool.{
  Pool, Call, next_event, add_idle_connection, connection_ready, connection_terminated,
  connection_error_pool,
}
use redis_async.Serving.{
  answers, writes, IsReply, Replied, answer, all_answers, idled, busied, on_action, tell_pool,
  follow, process, serve, Served, others,
}

module _ (transport : Transport) (at_once : ℕ → Bool) (c : ℕ) where
  ready_next :
      (p : Pool) (e : Execute) (es : List Execute)
      → p.queue ≡ e ∷ es
      → connection_ready (others at_once c) p c ≡ (record p { queue = es }, Pool.execute c e ∷ [])
  unfolding connection_ready next_event
  ready_next p e es h = ground (arith, h)

  ready_idle :
      (p : Pool)
      → p.queue ≡ []
      → p.closed ≡ false
      → connection_ready (others at_once c) p c ≡ (record p { ready = p.ready ++ c ∷ [] }, [])
  unfolding connection_ready next_event add_idle_connection
  ready_idle p h o = ground (arith, h, o)

  -- What a machine tells that has a reply and is idle.
  abbrev pub told_of : Machine → FsmEvent → List Action
  told_of m ev = answer m.query_ ev ++ told m.callbacks.idle_callback call_idle

  pub dispatch-reply :
      (m : Machine) (ev : FsmEvent)
      → IsReply ev
      → m.state ≡ query
      → dispatch transport true ev m ≡ ok (idled m, told_of m ev)
  dispatch-reply m (recv res) r busy = dispatch-recv transport true res m busy
  dispatch-reply m (query_error what) r busy = dispatch-query_error transport true what m busy
  dispatch-reply m (options opts) r busy = absurd r
  dispatch-reply m complete r busy = absurd r
  dispatch-reply m (execute evt) r busy = absurd r
  dispatch-reply m terminate r busy = absurd r
  dispatch-reply m (connection_error what) r busy = absurd r

  -- Answers are nothing to the pool.
  tell-answer :
      (p : Pool) (e : Execute) (ev : FsmEvent) (acts : List Action)
      → tell_pool transport at_once c p (answer e ev ++ acts) ≡ tell_pool transport at_once c p acts
  unfolding tell_pool on_action
  tell-answer p e ev acts = ground arith

  pub tell_idle :
      (p : Pool) (m : Machine) (ev : FsmEvent) (k : ℕ)
      → m.callbacks.idle_callback ≡ some k
      → tell_pool transport at_once c p (told_of m ev) ≡ connection_ready (others at_once c) p c
  unfolding tell_pool on_action
  tell_idle p m ev k callback =
      rw
        (
          callback,
          tell-answer p m.query_ ev (call_idle k ∷ []),
          append-nil (connection_ready (others at_once c) p c).1,
        )
        refl

  pub follow-execute :
      (n : Machine) (e : Execute)
      → n.state ≡ idle
      → follow transport at_once c (Pool.execute c e ∷ []) n
        ≡ ok (busied e n, async_write e.buff ∷ [])
  unfolding follow
  follow-execute n e h = rw (follow, same c, dispatch-execute transport true e n h) refl
    where
      same : (d : ℕ) → (d == d) ≡ true
      same d = ground arith

  process-last :
      (p : Pool) (m : Machine) (k : ℕ) (ev : FsmEvent)
      → IsReply ev
      → p.closed ≡ false
      → p.queue ≡ []
      → m.state ≡ query
      → m.callbacks.idle_callback ≡ some k
      → process transport at_once c p m ev
        ≡ ok ((record p { ready = p.ready ++ c ∷ [] }, idled m), told_of m ev ++ [])
  unfolding process follow
  process-last p m k ev r o none_wait busy callback =
      rw (dispatch-reply m ev r busy, tell_idle p m ev k callback, ready_idle p none_wait o) refl

  process-next :
      (p : Pool) (m : Machine) (k : ℕ) (ev : FsmEvent) (e : Execute) (es : List Execute)
      → IsReply ev
      → p.queue ≡ e ∷ es
      → m.state ≡ query
      → m.callbacks.idle_callback ≡ some k
      → process transport at_once c p m ev
        ≡ ok ((record p { queue = es }, busied e m), told_of m ev ++ async_write e.buff ∷ [])
  unfolding process
  process-next p m k ev e es r waits busy callback =
      rw
        (
          dispatch-reply m ev r busy,
          tell_idle p m ev k callback,
          ready_next p e es waits,
          follow-execute (idled m) e refl,
        )
        refl

  answers-told :
      (m : Machine) (ev : FsmEvent) (acts : List Action)
      → answers (told_of m ev ++ acts) ≡ answer m.query_ ev ++ answers acts
  unfolding answers
  answers-told m ev acts = ground arith

  writes-told :
      (m : Machine) (ev : FsmEvent) (acts : List Action)
      → writes (told_of m ev ++ acts) ≡ writes acts
  unfolding writes
  writes-told m ev acts = ground arith

  -- How replies end that are one for a request in flight and one for each that waits.
  abbrev pub Ends : Pool → Machine → FsmEvent → Replied → Served → Type 0
  Ends p m ev pairs ((q, n), acts) =
      (q ≡ record p { queue = []; ready = p.ready ++ c ∷ [] })
      × (n ≡ idled m)
      × (answers acts ≡ answer m.query_ ev ++ all_answers pairs)
      × (writes acts ≡ map (λ (e, reply). e.buff) pairs)

  -- A connection that has an idle callback and executes a request, and requests that wait in its open
  -- pool: when replies arrive, one for the first request and one for each that waits, each request
  -- gets the answer to it, in the order of the queue, where it has the callback for that answer, and
  -- no other answer is given; the requests that waited are written in their order, and at the end
  -- the queue is empty and the connection idle.
  pub serve-Ends :
      (p : Pool) (m : Machine) (k : ℕ) (ev : FsmEvent) (pairs : Replied)
      → IsReply ev
      → All (λ (e, reply). IsReply reply) pairs
      → p.closed ≡ false
      → p.queue ≡ map (λ (e, reply). e) pairs
      → m.state ≡ query
      → m.callbacks.idle_callback ≡ some k
      → Returns
          (Ends p m ev pairs)
          (serve transport at_once c p m (ev ∷ map (λ (e, reply). reply) pairs))
  unfolding serve all_answers answers writes
  serve-Ends p m k ev [] r rs o waits busy callback =
      rw (process-last p m k ev r o waits busy callback) (
        ap (λ es. record p { queue = es; ready = p.ready ++ c ∷ [] }) waits,
        refl,
        rw (append-nil (told_of m ev ++ [])) (answers-told m ev []),
        rw (append-nil (told_of m ev ++ [])) (writes-told m ev []),
      )
  serve-Ends p m k ev ((e, reply) ∷ pairs) r rs o waits busy callback =
      let q : Pool = record p { queue = map (λ (e, reply). e) pairs } in
      let replies : List FsmEvent = reply ∷ map (λ (e, reply). reply) pairs in
      let wrote_e = async_write e.buff ∷ [] in
      rw (process-next p m k ev e q.queue r waits busy callback) (
        bind-Returns _ _ (serve transport at_once c q (busied e m) replies) _
          (serve-Ends q (busied e m) k reply pairs rs.0 rs.1 o refl refl callback)
          (λ ((last, n), acts) (pool, machine, answered, wrote). (
            pool,
            machine,
            ap answers (append_assoc (told_of m ev) wrote_e acts)
                ∙ answers-told m ev (wrote_e ++ acts)
                ∙ ap (λ more. answer m.query_ ev ++ more) answered,
            ap writes (append_assoc (told_of m ev) wrote_e acts)
                ∙ writes-told m ev (wrote_e ++ acts)
                ∙ ap (◌∷◌ e.buff) wrote,
          )))
