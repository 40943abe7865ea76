-- ===== src/Tests/Machine.antt =====
-- Tests of the state machine of a connection, and instances of its theorems.
use redis_async.Prelude.{◌≡◌, refl, none, some, Bool, true, false, [], ◌∷◌, List, codes}
use redis_async.Errors.{ok, Returns, Ensures}
use redis_async.Options.{ConnectionOptions}
use redis_async.Protocol.Types.{string}
use redis_async.Connection.Events.{
  FsmEvent, options, complete, recv, execute, terminate, query_error, connection_error,
  tcp_transport,
}
use redis_async.Connection.Transport.{tcp_query, connect_callback, connect_async}
use redis_async.Connection.Reading.{handle_connect}
use redis_async.Connection.Machine.Established.{Established, establish}
use redis_async.Connection.Machine.{
  Callbacks, authn, terminated, new_machine, no_callbacks, no_query, connect_transport_to,
  async_read, async_write, call_idle, call_error, call_terminated, post_result, run,
}
use redis_async.Connection.Machine.Answers.{Accounts, in_flight, run-Accounts}
use redis_async.Connection.Machine.Session.{Session}
use redis_async.Connection.Machine.Login.{IsLoggedIn, online, auth_text, run-IsLoggedIn}
use redis_async.Connection.Machine.Refused.{refusals, run-refused}
use redis_async.Tests.Pool as TestsPool
use redis_async.Tests.Pool.{ask}

abbrev pub cb : Callbacks
cb = record { idle_callback = some 1; terminated_callback = some 2; error_callback = some 3 }

abbrev opts : ConnectionOptions
opts = record TestsPool.options { password = codes "secret" }

-- A connection that logs in, executes a request and breaks in the next one.
abbrev history : List (FsmEvent × Bool)
history =
    (options opts, false)
    ∷ (complete, true)
    ∷ (recv (string (codes "OK")), true)
    ∷ (execute (ask 10), true)
    ∷ (recv (string (codes "PONG")), true)
    ∷ (execute (ask 11), true)
    ∷ (connection_error (codes "End of file"), false)
    ∷ (execute (ask 12), false)
    ∷ []

run_test :
    run tcp_transport history (new_machine cb)
    ≡ ok (
      record { state = terminated; callbacks = no_callbacks; conn_opts = opts; query_ = no_query },
      connect_transport_to (tcp_query (codes "localhost") (codes "6379"))
          ∷ async_read
          ∷ async_write (auth_text (codes "secret"))
          ∷ call_idle 1
          ∷ async_write (ask 10).buff
          ∷ post_result 10 (some 10) (string (codes "PONG"))
          ∷ call_idle 1
          ∷ async_write (ask 11).buff
          ∷ call_error 3 (codes "End of file")
          ∷ call_terminated 2
          ∷ [],
    )
unfolding run new_machine auth_text connect_async
run_test = refl

connects : connect_async tcp_transport opts ≡ ok (tcp_query (codes "localhost") (codes "6379"))
unfolding connect_async
connects = refl

run-Accounts_example :
    Returns
      (λ (n, calls). Accounts tcp_transport history (new_machine cb) n calls)
      (run tcp_transport history (new_machine cb))
unfolding new_machine in_flight
run-Accounts_example =
    run-Accounts tcp_transport history (new_machine cb)
      (
        (refl, (tcp_query (codes "localhost") (codes "6379"), connects)),
        (tt, (tt, ((λ e. cc), (tt, ((λ e. cc), (tt, ((λ e. cc), tt))))))),
      )
      tt

abbrev login : List FsmEvent
login = options opts ∷ complete ∷ recv (string (codes "OK")) ∷ execute (ask 10) ∷ []

run-IsLoggedIn_example :
    Ensures (λ (n, calls). IsLoggedIn calls n) (run tcp_transport (online login) (new_machine cb))
run-IsLoggedIn_example = run-IsLoggedIn tcp_transport cb login

-- The password is refused, and a request and the end wait.
abbrev refused : List (FsmEvent × Bool)
refused =
    (query_error (codes "WRONGPASS"), true) ∷ (execute (ask 10), true) ∷ (terminate, true) ∷ []

run-refused_example :
    run tcp_transport ((options opts, false) ∷ (complete, true) ∷ refused) (new_machine cb)
    ≡ ok (
      record { state = authn; callbacks = cb; conn_opts = opts; query_ = no_query },
      connect_transport_to (tcp_query (codes "localhost") (codes "6379"))
          ∷ async_read
          ∷ async_write (auth_text (codes "secret"))
          ∷ refusals refused,
    )
run-refused_example =
    run-refused tcp_transport cb opts (tcp_query (codes "localhost") (codes "6379")) refused refl
      refl connects (tt, (tt, (tt, tt)))

-- The host is not found.
unresolved_test :
    Returns
      (λ (m, calls).
        calls
        ≡ connect_transport_to (tcp_query (codes "localhost") (codes "6379"))
          ∷ call_error 3 (codes "Host not found")
          ∷ call_terminated 2
          ∷ [])
      (establish tcp_transport opts cb (string (codes "OK")) (some (codes "Host not found")) none)
unfolding establish connect_async run handle_connect connect_callback
unresolved_test = refl
