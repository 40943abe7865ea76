-- ===== src/Pool/Steps.antt =====
-- What each call on a pool does with the requests
-- (src/details/connection/connection_pool.cpp).
use redis_async.Prelude.{
  ℕ, ◌<◌, ◌≡◌, refl, sym, subst, inl, inr, Option, none, some, Bool, true, false, [], ◌∷◌, ◌++◌,
  List, length, ltb, arith, Bool-cases, append-nil, ap, length-append,
}
use mathlib.Core.List.{Sublistᴰ}
use mathlib.Core.List.Sublistᴰ
use redis_async.Errors.{RdError, ok, ◌>>=◌}
use redis_async.Options.{ConnectionOptions}
use redis_async.Connection.Events.{Execute}
use redis_async.Pool.{
  Pool, Call, execute, fail, refuse, erase_connection, next_event, get_idle_connection,
  add_idle_connection, clear_queue, create_new_connection, connection_terminated, terminate_all,
  close_connections, connection_ready, connection_error_pool, get_connection, close,
}
use redis_async.Pool.History.{executed, handled, pending, count_of, requested}
use redis_async.Pool.History.Outcomes.{StepEnds}
use redis_async.Pool.Invariant.{
  Shrunk-refl, erase_connection-Shrunk, IsValid, close_connections-Shrunk, IsValid-Shrunk,
}
use redis_async.Pool.Serves.{
  Serves, next_request-Serves, next_request-Serves, enqueue-Serves, enqueue-Serves, IsQuiet,
  IsQuiet-append, call_back-IsQuiet, call_back-IsQuiet, call_back-IsQuiet,
  connection_terminated-IsQuiet, quiet-Serves, terminate-IsQuiet, nothing, fail_all-handled,
  fail_all-executed, fail_all-executed, fail_all-executed,
}

pub connection_error_pool-Serves :
    (p : Pool) (c : Option ℕ) (err : RdError)
    → IsValid p
    → Serves p [] (connection_error_pool p c err).0 (connection_error_pool p c err).1
unfolding connection_error_pool clear_queue pending
connection_error_pool-Serves p c err v =
    let s = erase_connection-Shrunk p c in
    let valid = IsValid-Shrunk s v in
    let queue_kept : (erase_connection p c).queue ≡ p.queue = ap (λ q. q.queue) s.same in
    record {
      valid = record {
        bounded = valid.bounded;
        either = inr refl;
        transport = valid.transport;
        supported = valid.supported;
      };
      size_kept = ap (λ q. q.pool_size) s.same;
      each_once =
          λ x. rw (fail_all-handled x (erase_connection p c).queue err, queue_kept) (omega arith);
      in_order =
          rw (fail_all-executed (erase_connection p c).queue err)
            (Sublistᴰ.nil-sublist (p.queue ++ []));
    }

-- A pool by its fields, on which its operations compute.
abbrev pool : ℕ → ConnectionOptions → List ℕ → List ℕ → List Execute → Bool → Option ℕ → Pool
pool n opts cs idle waiting shut callback = record {
  pool_size = n;
  co = opts;
  connections = cs;
  ready = idle;
  queue = waiting;
  closed = shut;
  closed_callback = callback;
}

-- Nothing but the idle connections changed, and no request waits.
idle-Serves :
    (p q : Pool) → q ≡ record p { ready = q.ready } → p.queue ≡ [] → IsValid p → Serves p [] q []
unfolding executed handled pending
idle-Serves p q same empty v =
    subst (λ q. Serves p [] q []) (sym same)
      (record {
        valid = record {
          bounded = v.bounded;
          either = inr empty;
          transport = v.transport;
          supported = v.supported;
        };
        size_kept = refl;
        each_once = λ x. omega arith;
        in_order = rw (append-nil p.queue) (Sublistᴰ.refl p.queue);
      })

refused-Serves :
    (p : Pool) (e : Execute) (y : ℕ) (err : RdError)
    → e.error ≡ some y
    → IsValid p
    → Serves p (e ∷ []) p (fail y err ∷ [])
unfolding executed handled pending count_of
refused-Serves p e y err heard v = record {
  valid = v;
  size_kept = refl;
  each_once = λ x. rw heard (omega arith);
  in_order =
      subst (λ es. Sublistᴰ es (p.queue ++ e ∷ [])) (append-nil p.queue)
        (Sublistᴰ.append (Sublistᴰ.refl p.queue) (Sublistᴰ.nil-sublist (e ∷ [])));
}

idle_connection-Serves :
    (p : Pool) (e : Execute) (c : ℕ) (rest : List ℕ)
    → p.ready ≡ c ∷ rest
    → IsValid p
    → Serves p (e ∷ []) (record p { ready = rest }) (execute c e ∷ [])
unfolding executed handled pending
idle_connection-Serves p e c rest idle v =
    let empty : p.queue ≡ [] = ground (arith, v.either, idle) in
    record {
      valid = record {
        bounded = v.bounded;
        either = inr empty;
        transport = v.transport;
        supported = v.supported;
      };
      size_kept = refl;
      each_once = λ x. rw empty (omega arith);
      in_order = rw empty (Sublistᴰ.refl (e ∷ []));
    }

grown-IsValid :
    (p : Pool) (fresh : ℕ)
    → length p.connections < p.pool_size
    → IsValid p
    → IsValid (record p { connections = p.connections ++ fresh ∷ [] })
grown-IsValid p fresh room v = record {
  bounded = omega (arith, room, length-append p.connections (fresh ∷ []));
  either = v.either;
  transport = v.transport;
  supported = v.supported;
}

-- Marking the pool as closed changes nothing that is served.
closed-IsValid :
    (p : Pool) (last : Option ℕ)
    → IsValid p
    → IsValid (record p { closed = true; closed_callback = last })
closed-IsValid p last v = record {
  bounded = v.bounded;
  either = v.either;
  transport = v.transport;
  supported = v.supported;
}

-- The connections and the marks of the end are in no request's way.
onward-Serves :
    (p : Pool) (cs : List ℕ) (shut : Bool) (last : Option ℕ) {submitted : List Execute} {q : Pool}
    {calls : List Call}
    → Serves
        (record p { connections = cs; closed = shut; closed_callback = last })
        submitted
        q
        calls
    → Serves p submitted q calls
onward-Serves p cs shut last s = record {
  valid = s.valid;
  size_kept = s.size_kept;
  each_once = s.each_once;
  in_order = s.in_order;
}

pub nothing-Serves : (p : Pool) → IsValid p → Serves p [] p []
nothing-Serves p v = quiet-Serves [] (Shrunk-refl p) nothing v

module _ (at_once : ℕ → Bool) where
  terminate_all-IsQuiet : (p : Pool) (copy : List ℕ) → IsQuiet (terminate_all at_once p copy).1
  unfolding terminate_all connection_terminated
  terminate_all-IsQuiet p [] = nothing
  terminate_all-IsQuiet p (c ∷ copy) = elim (Bool-cases (at_once c)) [
    | inl now ↦ rw now (
        terminate-IsQuiet c (connection_terminated-IsQuiet p (some c))
          (terminate_all-IsQuiet (erase_connection p (some c)) copy))
    | inr later ↦ rw later (terminate-IsQuiet c nothing (terminate_all-IsQuiet p copy))
  ]

  pub close_connections-IsQuiet : (p : Pool) → IsQuiet (close_connections at_once p).1
  unfolding close_connections
  close_connections-IsQuiet p =
      IsQuiet-append (terminate_all-IsQuiet p p.connections) (call_back-IsQuiet _)

  close_connections-Serves :
      (p : Pool)
      → IsValid p
      → Serves p [] (close_connections at_once p).0 (close_connections at_once p).1
  close_connections-Serves p v =
      quiet-Serves _ (close_connections-Shrunk at_once p) (close_connections-IsQuiet p) v

  pub connection_ready-Serves :
      (p : Pool) (c : ℕ)
      → IsValid p
      → Serves p [] (connection_ready at_once p c).0 (connection_ready at_once p c).1
  unfolding connection_ready next_event add_idle_connection
  connection_ready-Serves p c =
      by_fields p.pool_size p.co p.connections p.ready p.queue p.closed p.closed_callback
    where
      by_fields :
          (n : ℕ) (opts : ConnectionOptions) (cs idle : List ℕ) (waiting : List Execute)
          (shut : Bool) (callback : Option ℕ)
          → let p = pool n opts cs idle waiting shut callback in
            IsValid p
            → Serves p [] (connection_ready at_once p c).0 (connection_ready at_once p c).1
      by_fields n opts cs idle (e ∷ rest) shut callback v = next_request-Serves _ c e rest refl v
      by_fields n opts cs idle [] true callback v = close_connections-Serves _ v
      by_fields n opts cs idle [] false callback v = idle-Serves _ _ refl refl v

  pub close-Serves :
      (p : Pool) (last : Option ℕ)
      → IsValid p
      → Serves p [] (close at_once p last).0 (close at_once p last).1
  unfolding close
  close-Serves p last =
      by_fields p.pool_size p.co p.connections p.ready p.queue p.closed p.closed_callback
    where
      by_fields :
          (n : ℕ) (opts : ConnectionOptions) (cs idle : List ℕ) (waiting : List Execute)
          (shut : Bool) (callback : Option ℕ)
          → let p = pool n opts cs idle waiting shut callback in
            IsValid p → Serves p [] (close at_once p last).0 (close at_once p last).1
      by_fields n opts cs idle waiting true callback v = quiet-Serves [] (Shrunk-refl _) nothing v
      by_fields n opts cs idle [] false callback v =
          onward-Serves (pool n opts cs idle [] false callback) cs true last
            (close_connections-Serves _ (closed-IsValid _ last v))
      by_fields n opts cs idle (e ∷ rest) false callback v =
          onward-Serves (pool n opts cs idle (e ∷ rest) false callback) cs true last
            (quiet-Serves [] (Shrunk-refl _) nothing (closed-IsValid _ last v))

-- A part of a history that serves its requests, and leaves a valid pool.
abbrev pub ServesOn : Pool → List Execute → Pool × List Call → Type 0
ServesOn p submitted (q, calls) = Serves p submitted q calls × IsValid q

pub served :
    {p q : Pool} {submitted : List Execute} {calls : List Call}
    → Serves p submitted q calls
    → ServesOn p submitted (q, calls)
served s = (s, s.valid)

pub get_connection-Serves :
    (p : Pool) (e : Execute) (fresh : ℕ)
    → IsValid p
    → StepEnds p (requested e fresh) (ServesOn p (e ∷ [])) (get_connection p e fresh)
unfolding get_connection get_idle_connection create_new_connection
get_connection-Serves p e fresh =
    by_fields p.pool_size p.co p.connections p.ready p.queue p.closed p.closed_callback
  where
    by_error :
        (p : Pool) (err : RdError) (o : Option ℕ)
        → e.error ≡ o
        → p.closed ≡ true
        → IsValid p
        → StepEnds p
            (requested e fresh)
            (ServesOn p (e ∷ []))
            (refuse o err >>= λ calls. ok (p, calls))
    by_error p err none silent shut v = (refl, (e, fresh, refl, silent), shut)
    by_error p err (some y) heard shut v = served (refused-Serves p e y err heard v)

    by_fields :
        (n : ℕ) (opts : ConnectionOptions) (cs idle : List ℕ) (waiting : List Execute) (shut : Bool)
        (callback : Option ℕ)
        → let p = pool n opts cs idle waiting shut callback in
          IsValid p
          → StepEnds p (requested e fresh) (ServesOn p (e ∷ [])) (get_connection p e fresh)
    by_fields n opts cs idle waiting true callback v = by_error _ _ e.error refl refl v
    by_fields n opts cs (c ∷ rest) waiting false callback v =
        served (idle_connection-Serves _ e c rest refl v)
    by_fields n opts cs [] waiting false callback v = elim (Bool-cases (ltb (length cs) n)) [
      | inl room ↦
          rw (room, v.supported)
            (served (
              onward-Serves (pool n opts cs [] waiting false callback) (cs ++ fresh ∷ []) false
                callback
                (enqueue-Serves _ e refl (grown-IsValid _ fresh (ground (arith, room)) v))))
      | inr full ↦ rw full (served (enqueue-Serves _ e refl v))
    ]
