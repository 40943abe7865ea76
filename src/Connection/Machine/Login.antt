-- ===== src/Connection/Machine/Login.antt =====
-- How a connection starts: the reads of the transport and the password
-- (include/redis_async/details/connection/connection_fsm.hpp).
use redis_async.Prelude.{
  map, ◌≡◌, refl, ◌⊎◌, inl, inr, Bool, true, false, ◌||◌, [], ◌∷◌, ◌++◌, List, Bytes, codes,
  bytes_eq, bytes_eq_refl, append_assoc, append-nil, arith, subst, sym,
}
use redis_async.Errors.{Ensures, bind-Ensures}
use redis_async.Protocol.Serializer.{serialize}
use redis_async.Options.Text.{is_empty}
use redis_async.Connection.Events.{FsmEvent, Transport}
use redis_async.Connection.Machine.{
  State, authn, idle, query, Callbacks, Machine, new_machine, Action, async_write, written, row,
  notify_result, notify_query_error, notify_error, notify_idle, notify_terminated, send,
  send_startup_message, on_exit, run_effect, connect_transport, on_entry, take_row, dispatch,
  without_row, is_deferred, run,
}

-- The transport has connected, and the connection has not ended.
unfoldable pub is_connected : State → Bool
is_connected authn = true
is_connected idle = true
is_connected query = true
is_connected _ = false

-- The command that the password is sent in.
unfoldable pub auth_text : Bytes → Bytes
auth_text password = written (serialize [] (record { arguments = codes "AUTH" ∷ password ∷ [] }))

-- The text is among those that are written.
unfoldable pub sends : Bytes → List Action → Bool
sends text [] = false
sends text (async_write buff ∷ calls) = bytes_eq buff text || sends text calls
sends text (_ ∷ calls) = sends text calls

sends-append :
    (text : Bytes) (before after : List Action)
    → sends text (before ++ after) ≡ (sends text before || sends text after)
unfolding sends
sends-append text [] after = refl
sends-append text (a ∷ before) after = ground (arith, sends-append text before after)

-- The machine is not connected, has no password, or has sent it.
abbrev pub IsLoggedIn : List Action → Machine → Type 0
IsLoggedIn calls m =
    (is_connected m.state ≡ false)
    ⊎ ((is_empty m.conn_opts.password ≡ true)
        ⊎ (sends (auth_text m.conn_opts.password) calls ≡ true))

-- The transport is connected all the time.
abbrev pub online : List FsmEvent → List (FsmEvent × Bool)
online evs = map (λ ev. (ev, true)) evs

module _ (transport : Transport) where
  -- A dispatch ends unconnected, keeps a connection with its options, or starts one.
  dispatch-Login :
      (ev : FsmEvent) (m : Machine)
      → Ensures
          (λ (n, calls).
            IsLoggedIn calls n ⊎ ((is_connected m.state ≡ true) × (n.conn_opts ≡ m.conn_opts)))
          (dispatch transport true ev m)
  unfolding is_connected sends auth_text row notify_result notify_query_error notify_error
      notify_idle notify_terminated send send_startup_message on_exit run_effect connect_transport
      on_entry take_row dispatch without_row is_deferred
  dispatch-Login ev m = ground (arith, bytes_eq_refl (auth_text m.conn_opts.password))

  later-IsLoggedIn :
      (before calls : List Action) (m n : Machine)
      → IsLoggedIn before m
      → IsLoggedIn calls n ⊎ ((is_connected m.state ≡ true) × (n.conn_opts ≡ m.conn_opts))
      → IsLoggedIn (before ++ calls) n
  later-IsLoggedIn before calls m n h (inl (inl away)) = inl away
  later-IsLoggedIn before calls m n h (inl (inr (inl none_set))) = inr (inl none_set)
  later-IsLoggedIn before calls m n h (inl (inr (inr sent))) =
      inr (inr (ground (arith, sends-append (auth_text n.conn_opts.password) before calls, sent)))
  later-IsLoggedIn before calls m n (inl away) (inr (here, same)) =
      absurd (ground (arith, away, here))
  later-IsLoggedIn before calls m n (inr (inl none_set)) (inr (here, same)) =
      inr (inl (subst (λ o. is_empty o.password ≡ true) (sym same) none_set))
  later-IsLoggedIn before calls m n (inr (inr sent)) (inr (here, same)) = inr (
      inr (
        subst (λ o. sends (auth_text o.password) (before ++ calls) ≡ true) (sym same)
          (ground (arith, sends-append (auth_text m.conn_opts.password) before calls, sent))))

  run_after :
      (evs : List FsmEvent) (m : Machine) (before : List Action)
      → IsLoggedIn before m
      → Ensures (λ (n, calls). IsLoggedIn (before ++ calls) n) (run transport (online evs) m)
  unfolding run
  run_after [] m before h = rw (append-nil before) h
  run_after (ev ∷ evs) m before h =
      bind-Ensures _ _ (dispatch transport true ev m) _ (dispatch-Login ev m) (λ (n, calls) first.
        bind-Ensures _ _ (run transport (online evs) n) _
          (run_after evs n (before ++ calls) (later-IsLoggedIn before calls m n h first))
          (λ (o, more) rest. subst (λ cs. IsLoggedIn cs o) (append_assoc before calls more) rest))

  -- While the transport stays connected and nothing throws, a connection that was started from the
  -- beginning and that has connected, and has not ended, has no password or has sent the command AUTH
  -- with it.
  pub run-IsLoggedIn :
      (callbacks : Callbacks) (evs : List FsmEvent)
      → Ensures
          (λ (n, calls). IsLoggedIn calls n)
          (run transport (online evs) (new_machine callbacks))
  unfolding new_machine is_connected
  run-IsLoggedIn callbacks evs = run_after evs (new_machine callbacks) [] (inl refl)
