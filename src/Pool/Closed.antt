-- ===== src/Pool/Closed.antt =====
-- What can still happen to a pool that is closed
-- (src/details/connection/connection_pool.cpp).
use redis_async.Prelude.{◌≤◌, ◌≡◌, true, length}
use redis_async.Pool.{Pool}

-- From the closed pool `p` to `q`: the pool stays closed, with its callback and its idle
-- connections, and has no more connections and no more waiting requests than before.
pub record Ends (p q : Pool) : Type 0 where
  pub still_closed : q.closed ≡ true
  pub same_callback : q.closed_callback ≡ p.closed_callback
  pub same_ready : q.ready ≡ p.ready
  pub fewer_connections : length q.connections ≤ length p.connections
  pub fewer_requests : length q.queue ≤ length p.queue
