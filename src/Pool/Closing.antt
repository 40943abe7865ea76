-- ===== src/Pool/Closing.antt =====
-- The end of a pool, and of one of its connections
-- (src/details/connection/connection_pool.cpp).
use redis_async.Prelude.{
  ℕ, ◌≡◌, ◌∙◌, refl, ap, sym, subst, some, Bool, true, false, [], ◌∷◌, ◌++◌, map, List, arith,
  append_assoc,
}
use redis_async.Errors.{ok}
use redis_async.Connection.Events.{Execute}
use redis_async.Pool.{
  Pool, execute, terminate, call_closed, call_back, erase, erase_connection, connection_terminated,
  terminate_all, close_connections, close, get_connection, get_idle_connection,
}

-- When the connection that is the first of the idle ones has terminated, an open pool hands the
-- next request to that connection.
pub get_connection-connection_terminated :
    (p : Pool) (c : ℕ) (rest : List ℕ) (e : Execute) (fresh : ℕ)
    → p.closed ≡ false
    → p.ready ≡ c ∷ rest
    → get_connection (connection_terminated p (some c)).0 e fresh
      ≡ ok (record p { connections = erase c p.connections; ready = rest }, execute c e ∷ [])
unfolding get_connection get_idle_connection connection_terminated erase_connection
get_connection-connection_terminated p c rest e fresh open_pool idle = simp (open_pool, idle) refl

closing_pool : Pool → ℕ → List ℕ → Pool
closing_pool p last cs = record p { connections = cs; closed = true; closed_callback = some last }

terminate_all_at_once :
    (p : Pool) (last c : ℕ) (cs : List ℕ)
    → terminate_all (λ c. true) (closing_pool p last (c ∷ cs)) (c ∷ cs)
      ≡ (closing_pool p last [], map terminate (c ∷ cs) ++ call_closed last ∷ [])
unfolding closing_pool terminate_all connection_terminated erase_connection erase
terminate_all_at_once p last c [] = ground arith
terminate_all_at_once p last c (d ∷ cs) = ground (arith, terminate_all_at_once p last d cs)

close_connections_at_once :
    (p : Pool) (last c : ℕ) (cs : List ℕ)
    → close_connections (λ c. true) (closing_pool p last (c ∷ cs))
      ≡ (closing_pool p last [], map terminate (c ∷ cs) ++ call_closed last ∷ call_closed last ∷ [])
unfolding close_connections closing_pool
close_connections_at_once p last c cs =
    ap (λ (q, calls). (q, calls ++ call_back q.closed_callback)) (terminate_all_at_once p last c cs)
    ∙ ap (λ calls. (closing_pool p last [], calls))
        (append_assoc (map terminate (c ∷ cs)) (call_closed last ∷ []) (call_closed last ∷ []))

-- Closing an open pool with connections on which no request waits, each of which terminates at
-- once, calls the callback twice: the last connection calls it, and so does `close_connections`.
pub close-at_once :
    (p : Pool) (last c : ℕ) (cs : List ℕ)
    → p.closed ≡ false
    → p.queue ≡ []
    → p.connections ≡ c ∷ cs
    → close (λ c. true) p (some last) ≡ (
      record p { connections = []; closed = true; closed_callback = some last },
      map terminate (c ∷ cs) ++ call_closed last ∷ call_closed last ∷ [],
    )
unfolding close close_connections closing_pool
close-at_once p last c cs open_pool empty connected =
    by_fields p.connections p.queue p.closed open_pool empty connected
  where
    by_fields :
        (ds : List ℕ) (es : List Execute) (b : Bool)
        → b ≡ false
        → es ≡ []
        → ds ≡ c ∷ cs
        → let q : Pool = record p { connections = ds; queue = es; closed = b } in
          close (λ c. true) q (some last) ≡ (
            record q { connections = []; closed = true; closed_callback = some last },
            map terminate (c ∷ cs) ++ call_closed last ∷ call_closed last ∷ [],
          )
    by_fields ds es true o e d = absurd (ground (arith, o))
    by_fields ds (x ∷ es) false o e d = absurd (ground (arith, e))
    by_fields [] [] false o e d = absurd (ground (arith, d))
    by_fields (y ∷ ys) [] false o e d =
        subst
          (λ ds.
            close (λ c. true) (record p { connections = ds; queue = []; closed = false })
              (some last)
            ≡ (
              closing_pool (record p { queue = [] }) last [],
              map terminate (c ∷ cs) ++ call_closed last ∷ call_closed last ∷ [],
            ))
          (sym d) (close_connections_at_once (record p { queue = [] }) last c cs)
