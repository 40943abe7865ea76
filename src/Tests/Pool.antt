-- ===== src/Tests/Pool.antt =====
-- Tests of the pool of connections, and instances of its theorems.
use redis_async.Prelude.{
  ℕ, ◌≡◌, refl, none, some, true, false, [], ◌∷◌, ◌++◌, map, List, codes, ◌==◌,
}
use redis_async.Prelude.Int.{pos}
use redis_async.Errors.{raise, bad_function_call, connection_error, ok}
use redis_async.Options.{ConnectionOptions}
use redis_async.Connection.Events.{Execute, create}
use redis_async.Pool.{
  Pool, execute, terminate, fail, call_closed, erase, get_connection, connection_terminated, close,
  construct, create_pool, create_new_connection,
}
use redis_async.Pool.History.{Event, requested, became_ready, failed, closing, run}
use redis_async.Pool.Serves.{Serves}
use redis_async.Pool.Closing.{get_connection-connection_terminated, close-at_once}

abbrev pub options : ConnectionOptions
options = record {
  alias = codes "main";
  schema = codes "tcp";
  uri = codes "localhost:6379";
  database = [];
  password = [];
  keep_alive = true;
  connect_timeout = pos 1000;
  socket_timeout = pos 1000;
}

-- A new pool of at most two connections.
abbrev pub new_pool : Pool
new_pool = record {
  pool_size = 2;
  co = options;
  connections = 1 ∷ [];
  ready = [];
  queue = [];
  closed = false;
  closed_callback = none;
}

abbrev pub ask : ℕ → Execute
ask n = record { buff = codes "*1\r\n$4\r\nPING\r\n"; result = some n; error = some n }

pub create_pool_test : create_pool 2 options 1 ≡ ok new_pool
unfolding create_pool construct create_new_connection create
create_pool_test = refl

-- Three requests, of which the first connection serves the first; the second connection fails, and
-- the requests that wait fail with it.
abbrev history : List Event
history =
    requested (ask 10) 2
    ∷ requested (ask 11) 3
    ∷ requested (ask 12) 4
    ∷ became_ready 1
    ∷ failed (some 2) (connection_error (codes "refused"))
    ∷ closing (some 7)
    ∷ []

run_test :
    run (λ c. c == 1) new_pool history
    ≡ ok (
      record new_pool { connections = []; closed = true; closed_callback = some 7 },
      execute 1 (ask 10)
          ∷ fail 11 (connection_error (codes "refused"))
          ∷ fail 12 (connection_error (codes "refused"))
          ∷ terminate 1
          ∷ call_closed 7
          ∷ call_closed 7
          ∷ [],
    )
unfolding run create
run_test = refl

-- The pool when one connection is idle and another is not.
abbrev pub idle_pool : Pool
idle_pool = record new_pool { connections = 1 ∷ 2 ∷ []; ready = 1 ∷ [] }

get_connection-connection_terminated_example :
    get_connection (connection_terminated idle_pool (some 1)).0 (ask 10) 3
    ≡ ok (
      record idle_pool { connections = erase 1 (1 ∷ 2 ∷ []); ready = [] },
      execute 1 (ask 10) ∷ [],
    )
get_connection-connection_terminated_example =
    get_connection-connection_terminated idle_pool 1 [] (ask 10) 3 refl refl

close-at_once_example : close (λ c. true) idle_pool (some 7) ≡ (
  record idle_pool { connections = []; closed = true; closed_callback = some 7 },
  map terminate (1 ∷ 2 ∷ []) ++ call_closed 7 ∷ call_closed 7 ∷ [],
)
close-at_once_example = close-at_once idle_pool 7 1 (2 ∷ []) refl refl refl

abbrev closed_pool : Pool
closed_pool = record idle_pool { closed = true; closed_callback = some 7; queue = ask 10 ∷ [] }

-- A request without an error callback on a closed pool.
throws_test :
    run (λ c. false) closed_pool (requested (record (ask 10) { error = none }) 3 ∷ [])
    ≡ raise bad_function_call
unfolding run
throws_test = refl
