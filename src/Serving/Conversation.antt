-- ===== src/Serving/Conversation.antt =====
-- A conversation: requests that are made on a pool, what its connection writes for them, and the
-- answers when the replies arrive (src/details/connection/connection_pool.cpp,
-- include/redis_async/details/connection/connection_fsm.hpp).
pub mod Asked
pub mod Called
pub mod Spoken
pub mod Texts
use redis_async.Prelude.{
  ℕ, suc, ◌+◌, ◌^◌, ◌<◌, ◌≡◌, ◌≢◌, refl, sym, ap, subst, ◌∙◌, Option, none, some, Bool, true, false,
  [], ◌∷◌, ◌++◌, map, All, List, Bytes, length, ltb, append-nil, append_assoc, arith,
}
use redis_async.Prelude.Int.{ℤ}
use redis_async.Errors.{raise, Throws, ok, throw, ◌>>=◌, Returns}
use redis_async.Commands.Types.{SingleCommand}
use redis_async.Protocol.Types.{array, protocol_error, error, positive, Run}
use redis_async.Protocol.Parser.{parse}
use redis_async.Protocol.Parser.Bounds.{CastsToInt64}
use redis_async.Protocol.Serializer.{serialize, command_size, format_count}
use redis_async.Protocol.Serializer.Layout.{encode, serialize-eq-encode}
use redis_async.Protocol.RoundTrip.{ReadsDecimals, Fits, strings, length-encode}
use redis_async.Connection.Events.{Execute, FsmEvent, recv, Transport}
use redis_async.Connection.Exchange.{request, parsed_request}
use redis_async.Connection.Reading.{event_of, returned, finished, read_message}
use redis_async.Connection.Reading.Replies.{Segment, IsSegment, join, read_message-join}
use redis_async.Connection.Machine.{State, idle, no_query, Machine, Action, async_write}
use redis_async.Pool.{Pool, Call, execute, get_idle_connection, get_connection, enqueue_event}
use redis_async.Pool.History.{Event, requested, step, run}
use redis_async.Serving.{
  Served, answers, writes, IsReply, Replied, answer, all_answers, idled, busied, follow, serve,
  Outcome, reads_on, stopped, behind, receive,
}
use redis_async.Serving.Served.{follow-execute, Ends, serve-Ends}
use redis_async.Serving.Arrivals.{events_of, all_events, read_all, receive-join}

-- Texts one behind the other.
unfoldable pub concat : List Bytes → Bytes
concat [] = []
concat (text ∷ texts) = text ++ concat texts

-- A command with its callbacks, and the reply to it.
pub record Talk : Type 0 where
  pub cmd : SingleCommand
  pub result : ℕ
  pub error : Option ℕ
  pub reply : FsmEvent

abbrev pub request_of : Talk → Execute
request_of t = request t.cmd t.result t.error

abbrev pub replied : List Talk → Replied
replied = map (λ t. (request_of t, t.reply))

-- The calls of clients; `fresh` is a connection that is not made.
abbrev pub asked : ℕ → List Talk → List Event
asked fresh = map (λ t. requested (request_of t) fresh)

module _ (transport : Transport) (at_once : ℕ → Bool) (c : ℕ) (parse : Bytes → Run) where
  -- The requests are made, the connection executes what the pool gives it, and reads what arrives.
  unfoldable pub converse : Pool → Machine → List Event → List Bytes → Outcome
  converse p m events arrivals = elim (run at_once p events) [
    | ok (q, made) ↦ elim (follow transport at_once c made m) [
      | ok (n, acts) ↦ behind acts (receive transport at_once c parse q n [] arrivals)
      | raise err ↦ stopped
    ]
    | raise err ↦ stopped
  ]
