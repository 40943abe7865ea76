-- ===== src/Tests/Conversation.antt =====
-- A conversation of a connection with a server, and instances of the theorems on it.
use redis_async.Prelude.{
  ℕ, ◌≡◌, refl, some, false, [], ◌∷◌, map, List, codes, arith, ◌==◌, if◌then◌else◌,
}
use redis_async.Protocol.Types.{string, positive, error, Result}
use redis_async.Protocol.Parser.{
  parse, primary, string_parser, search, error_parser, int_parser, bulk_string_parser,
}
use redis_async.Protocol.Serializer.{
  command_size, serialize, snprintf_at, size_for_int, format_count, write_arguments, write_argument,
  copy_argument,
}
use redis_async.Protocol.Serializer as Serializer
use redis_async.Prelude.Decimal.{decimal}
use redis_async.Pool.{Pool}
use redis_async.Connection.Events.{FsmEvent, recv, query_error, tcp_transport}
use redis_async.Connection.Exchange.{request}
use redis_async.Serving.{serve, receive, reads_on}
use redis_async.Serving.Arrivals.{all_events, read_all, receive-join}
use redis_async.Serving.Conversation.{concat, Talk, asked, converse}
use redis_async.Connection.Delivery.{Ending, raised_unknown}
use redis_async.Connection.Delivery as Delivery
use redis_async.Connection.Machine.{Action}
use redis_async.Serving.Conversation.Called.{Called, results_of, errors_of, converse-Called}
use redis_async.Serving.Conversation.Spoken.{AreReads, Spoken, converse-Spoken}
use redis_async.Connection.Reading.{event_of, returned}
use redis_async.Connection.Reading.Replies.{Segment, IsSegment, join}
use redis_async.Tests.Cast.{read_int, read_int-CastsToInt64, read_int-ReadsDecimals}
use redis_async.Tests.Pool.{new_pool}
use redis_async.Tests.Serving.{machine, ping, busy_pool, busy_machine}

-- A read of two replies, and one of an error.
abbrev ok_segment : Segment
ok_segment = record { bytes = codes "+OK\r\n"; reply = positive (string (codes "OK")) 5 }

abbrev error_segment : Segment
error_segment = record { bytes = codes "-ERR a\r\n"; reply = error (codes "ERR a") 8 }

ok-IsSegment : IsSegment read_int 100 ok_segment
unfolding returned parse primary string_parser search error_parser int_parser bulk_string_parser
ok-IsSegment = record { parsed = refl; whole = refl; there = omega arith }

error-IsSegment : IsSegment read_int 100 error_segment
unfolding returned parse primary string_parser search error_parser int_parser bulk_string_parser
error-IsSegment = record { parsed = refl; whole = refl; there = omega arith }

abbrev reads : List (List Segment)
reads = (ok_segment ∷ error_segment ∷ []) ∷ (ok_segment ∷ []) ∷ []

reads-AreReads : AreReads read_int 100 reads
unfolding join
reads-AreReads =
    ((omega arith, (ok-IsSegment, (error-IsSegment, tt))), ((omega arith, (ok-IsSegment, tt)), tt))

receive-join_example :
    receive tcp_transport
      (λ c. false)
      1
      (parse read_int 100)
      busy_pool
      busy_machine
      []
      (map join reads)
    ≡ read_all (serve tcp_transport (λ c. false) 1 busy_pool busy_machine (all_events reads))
receive-join_example =
    receive-join read_int 100 read_int-CastsToInt64 tcp_transport (λ c. false) 1 busy_pool
      busy_machine reads reads-AreReads

abbrev talk : ℕ → FsmEvent → Talk
talk n reply = record { cmd = ping; result = n; error = some n; reply = reply }

abbrev okay : FsmEvent
okay = recv (string (codes "OK"))

abbrev rest : List Talk
rest = talk 11 (query_error (codes "ERR a")) ∷ talk 12 okay ∷ []

-- A pool of one connection.
abbrev one_pool : Pool
one_pool = record new_pool { pool_size = 1; ready = 1 ∷ [] }

converse-Spoken_example :
    Spoken read_int 100 read_int-CastsToInt64 read_int-ReadsDecimals tcp_transport
      (λ c. false)
      1
      one_pool
      machine
      (talk 10 okay ∷ rest)
      (converse tcp_transport
        (λ c. false)
        1
        (parse read_int 100)
        one_pool
        machine
        (asked 9 (talk 10 okay ∷ rest))
        (map join reads))
unfolding all_events event_of concat request serialize Serializer.◌>>=◌ snprintf_at command_size
    size_for_int format_count decimal write_arguments write_argument copy_argument
converse-Spoken_example =
    converse-Spoken read_int 100 read_int-CastsToInt64 read_int-ReadsDecimals tcp_transport
      (λ c. false) 1 one_pool machine 1 9 (talk 10 okay) rest reads refl refl refl refl refl refl
      refl
      (
        (λ e. cc, (omega arith, omega arith, (omega arith, tt))),
        (
          (λ e. cc, (omega arith, omega arith, (omega arith, tt))),
          ((λ e. cc, (omega arith, omega arith, (omega arith, tt))), tt),
        ),
      )
      (omega arith) reads-AreReads refl

-- The last result callback throws.
abbrev ending : ℕ → Result → Ending
ending result res = if result == 12 then raised_unknown else Delivery.returned

converse-Called_example :
    (acts : List Action) × (converse tcp_transport
        (λ c. false)
        1
        (parse read_int 100)
        one_pool
        machine
        (asked 9 (talk 10 okay ∷ rest))
        (map join reads)
      ≡ reads_on one_pool machine [] acts)
    × Called ending (talk 10 okay ∷ rest) acts
unfolding all_events event_of concat request serialize Serializer.◌>>=◌ snprintf_at command_size
    size_for_int format_count decimal write_arguments write_argument copy_argument
converse-Called_example =
    converse-Called read_int 100 read_int-CastsToInt64 read_int-ReadsDecimals tcp_transport
      (λ c. false) 1 ending one_pool machine 1 9 (talk 10 okay) rest reads refl refl refl refl refl
      refl refl
      (
        (λ e. cc, (omega arith, omega arith, (omega arith, tt))),
        (
          (λ e. cc, (omega arith, omega arith, (omega arith, tt))),
          ((λ e. cc, (omega arith, omega arith, (omega arith, tt))), tt),
        ),
      )
      (λ e. cc, (λ e. cc, (λ e. cc, tt))) (omega arith) reads-AreReads refl

-- What that comes to.
told_test :
    (results_of (talk 10 okay ∷ rest) ≡ (10, string (codes "OK")) ∷ (12, string (codes "OK")) ∷ [])
    × (errors_of (talk 10 okay ∷ rest) ≡ (11, codes "ERR a") ∷ [])
unfolding results_of errors_of
told_test = (refl, refl)
