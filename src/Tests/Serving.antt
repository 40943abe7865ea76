-- ===== src/Tests/Serving.antt =====
-- Tests of requests and their replies, and instances of the theorems on them.
use redis_async.Prelude.{
  ℕ, ◌≡◌, refl, some, true, false, [], ◌∷◌, map, ℕ, List, codes, ◌==◌, if◌then◌else◌,
}
use redis_async.Errors.{ok}
use redis_async.Commands.Types.{SingleCommand}
use redis_async.Protocol.Types.{Result, string}
use redis_async.Pool.{Pool, erase_connection, close_connections}
use redis_async.Connection.Events.{FsmEvent, recv, query_error, execute, tcp_transport}
use redis_async.Connection.Machine.{
  Machine, Action, idle, query, async_write, call_idle, post_result, call_query_error, no_query,
}
use redis_async.Connection.Delivery.{
  Ending, returned, raised, deliver, posted, exceptions, given, failed, deliver_complete,
}
use redis_async.Serving.{Replied, idled, serve, others}
use redis_async.Errors as Errors
use redis_async.Tests.Pool.{idle_pool, new_pool, ask, options}
use redis_async.Connection.Events as Events
use redis_async.Tests.Machine.{cb}

abbrev pub machine : Machine
machine = record { state = idle; callbacks = cb; conn_opts = options; query_ = no_query }

abbrev pub ping : SingleCommand
ping = record { arguments = codes "PING" ∷ [] }

-- Two requests wait while the first is executed, and the second is refused.
abbrev waiting : Replied
waiting = (ask 11, query_error (codes "ERR b")) ∷ (ask 12, recv (string (codes "c"))) ∷ []

abbrev pub busy_pool : Pool
busy_pool = record new_pool { queue = ask 11 ∷ ask 12 ∷ [] }

abbrev pub busy_machine : Machine
busy_machine = record machine { state = query; query_ = ask 10 }

serve_test :
    serve tcp_transport
      (λ c. false)
      1
      busy_pool
      busy_machine
      (recv (string (codes "a")) ∷ map (λ (e, reply). reply) waiting)
    ≡ ok (
      (record busy_pool { queue = []; ready = 1 ∷ [] }, idled busy_machine),
      post_result 10 (some 10) (string (codes "a"))
          ∷ call_idle 1
          ∷ async_write (ask 11).buff
          ∷ call_query_error 11 (codes "ERR b")
          ∷ call_idle 1
          ∷ async_write (ask 12).buff
          ∷ post_result 12 (some 12) (string (codes "c"))
          ∷ call_idle 1
          ∷ [],
    )
unfolding serve
serve_test = refl

-- The second result callback throws.
abbrev ending : ℕ → Result → Ending
ending result res = if result == 11 then raised (Errors.query_error (codes "no")) else returned

abbrev posts_of_three : List Action
posts_of_three =
    post_result 10 (some 20) (string (codes "a"))
    ∷ post_result 11 (some 21) (string (codes "b"))
    ∷ post_result 12 (some 22) (string (codes "c"))
    ∷ []

deliver_complete_example :
    let notices = (deliver ending posts_of_three).0 in
    ((deliver ending posts_of_three).1 ≡ [])
    × (given notices ≡ posted ending posts_of_three)
    × (failed notices ≡ exceptions ending posts_of_three)
deliver_complete_example =
    deliver_complete ending posts_of_three ((λ e. cc), ((λ e. cc), ((λ e. cc), tt)))

failed_test : failed (deliver ending posts_of_three).0 ≡ (21, Errors.query_error (codes "no")) ∷ []
unfolding deliver failed
failed_test = refl

-- A closed pool with two connections, one of which is idle.
abbrev closed_pool : Pool
closed_pool = record idle_pool {
  connections = 2 ∷ 1 ∷ [];
  ready = 2 ∷ [];
  closed = true;
  closed_callback = some 7;
}

-- No connection is left.
closed_test :
    (erase_connection (close_connections (others (λ c. true) 1) closed_pool).0 (some 1)).connections
    ≡ []
unfolding erase_connection close_connections
closed_test = refl
