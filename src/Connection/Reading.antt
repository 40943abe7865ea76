-- ===== src/Connection/Reading.antt =====
-- What a connection does with the bytes that arrive: handle_read and read_message of
-- include/redis_async/details/connection/connection_fsm.hpp, and handler_parse_result.hpp beside it.
pub mod Drained
pub mod Replies
use redis_async.Prelude.{
  ℕ, zero, suc, ◌+◌, ◌-◌, ◌%◌, ◌^◌, Option, none, some, Bool, true, false, [], ◌∷◌, List, Bytes,
  drop, ◌==◌, if◌then◌else◌,
}
use redis_async.Connection.Events.{FsmEvent, complete, recv, query_error, connection_error}
use redis_async.Protocol.Types.{
  ParseResult, protocol_error, error, positive, errc_value, message, Exception, Run, done, threw,
  out_of_fuel,
}

-- `handler_parse_result_t`: the event and what the operator returns.
unfoldable pub event_of : ParseResult → FsmEvent
event_of (protocol_error code) = query_error (message (errc_value code))
event_of (error str consumed) = query_error str
event_of (positive result consumed) = recv result

unfoldable pub returned : ParseResult → ℕ
returned (protocol_error code) = 0
returned (error str consumed) = consumed
returned (positive result consumed) = consumed

-- How a call of read_message ends: with the events that were processed, in their order, and the
-- bytes that are left in `incoming_`; with these events and an exception of the parser; or out of
-- rounds.
pub data Read : Type 0 where
  finished : List FsmEvent → Bytes → Read
  raised : List FsmEvent → Exception → Read
  out_of_rounds : Read

unfoldable pub behind : FsmEvent → Read → Read
behind ev (finished evs incoming) = finished (ev ∷ evs) incoming
behind ev (raised evs e) = raised (ev ∷ evs) e
behind ev out_of_rounds = out_of_rounds

-- `if (!consumed) consumed = max_bytes`
abbrev pub consumed_of : ParseResult → ℕ → ℕ
consumed_of r max_bytes = if returned r == 0 then max_bytes else returned r

-- The visit of the result, and the rounds that follow it.
unfoldable pub on_parsed : (ParseResult → Read) → Run → Read
unfolding behind event_of
on_parsed next (done r) = behind (event_of r) (next r)
on_parsed next (threw e) = raised [] e
on_parsed next out_of_fuel = out_of_rounds

-- The call returned.
abbrev pub has_returned : Read → Bool
has_returned (finished evs incoming) = true
has_returned _ = false

module _ (parse : Bytes → Run) where
  -- The loop; the difference is one of `size_t`, and `consume` takes no more than there is.
  unfoldable pub read_rounds : (rounds max_bytes : ℕ) → Bytes → Read
  unfolding on_parsed returned
  read_rounds zero max_bytes incoming = out_of_rounds
  read_rounds (suc rounds) zero incoming = finished [] incoming
  read_rounds (suc rounds) (suc m) incoming =
      on_parsed
        (λ r.
          read_rounds rounds ((suc m + 2 ^ 64 - consumed_of r (suc m)) % 2 ^ 64)
            (drop (consumed_of r (suc m)) incoming))
        (parse incoming)

  -- `read_message` with a number of rounds that is enough: each takes a byte at least.
  unfoldable pub read_message : ℕ → Bytes → Read
  unfolding read_rounds
  read_message max_bytes incoming = read_rounds (suc max_bytes) max_bytes incoming

  -- `handle_read`, and whether it starts the next read; with an error the machine is told.
  unfoldable pub handle_read : Option Bytes → ℕ → Bytes → Read × Bool
  unfolding read_message
  handle_read none bytes_transferred incoming =
      let read = read_message bytes_transferred incoming in (read, has_returned read)
  handle_read (some ec) bytes_transferred incoming =
      (finished (connection_error ec ∷ []) incoming, false)

-- `handle_connect`: the event that it processes.
unfoldable pub handle_connect : Option Bytes → FsmEvent
handle_connect none = complete
handle_connect (some ec) = connection_error ec

-- `handle_write`: the event that it processes, if any.
unfoldable pub handle_write : Option Bytes → Option FsmEvent
handle_write none = none
handle_write (some ec) = some (connection_error ec)
