-- ===== src/Tests/Reading.antt =====
-- Tests of the loop of a connection that reads replies, and instances of its theorems.
use redis_async.Prelude.{◌≡◌, refl, [], ◌∷◌, codes, length, arith}
use redis_async.Prelude.Int.{pos}
use redis_async.Protocol.Types.{int, string, error, positive, done, message, errc_value}
use redis_async.Protocol.Parser.{
  parse, primary, string_parser, search, error_parser, int_parser, bulk_string_parser,
}
use redis_async.Connection.Events.{recv, query_error}
use redis_async.Connection.Reading.{finished, returned, read_message}
use redis_async.Connection.Reading.Drained.{IsDrained, read_message-IsDrained}
use redis_async.Connection.Reading.Replies.{Segment, IsSegment, read_message-truncated}
use redis_async.Tests.Cast.{read_int, read_int-CastsToInt64}

read_message_test :
    read_message (parse read_int 100) 19 (codes "+OK\r\n-ERR a\r\n:12\r\n$")
    ≡ finished
        (recv (string (codes "OK"))
          ∷ query_error (codes "ERR a")
          ∷ recv (int (pos 12))
          ∷ query_error
              (codes "Buffer just does not contain enough information to completely parse it")
          ∷ [])
        []
unfolding read_message message errc_value parse primary string_parser search error_parser int_parser
    bulk_string_parser read_int
read_message_test = refl

read_message-IsDrained_example :
    IsDrained (read_message (parse read_int 100) (length (codes "+OK\r\n*7")) (codes "+OK\r\n*7"))
read_message-IsDrained_example =
    read_message-IsDrained read_int 100 read_int-CastsToInt64 (codes "+OK\r\n*7") (omega arith)

abbrev okay : Segment
okay = record { bytes = codes "+OK\r\n"; reply = positive (string (codes "OK")) 5 }

abbrev refusal : Segment
refusal = record { bytes = codes "-ERR a\r\n"; reply = error (codes "ERR a") 8 }

okay-IsSegment : IsSegment read_int 100 okay
unfolding returned parse primary string_parser search error_parser int_parser bulk_string_parser
    read_int
okay-IsSegment = record { parsed = refl; whole = refl; there = omega arith }

refusal-IsSegment : IsSegment read_int 100 refusal
unfolding returned parse primary string_parser search error_parser int_parser bulk_string_parser
    read_int
refusal-IsSegment = record { parsed = refl; whole = refl; there = omega arith }

whole_test :
    parse read_int 100 (codes "$5\r\nhello\r\n") ≡ done (positive (string (codes "hello")) 11)
unfolding parse primary string_parser search error_parser int_parser bulk_string_parser read_int
whole_test = refl

read_message-truncated_example :
    read_message (parse read_int 100) (length (codes "$5\r\nhe")) (codes "$5\r\nhe")
    ≡ finished
        (query_error
            (codes "Buffer just does not contain enough information to completely parse it")
          ∷ [])
        []
unfolding parse primary string_parser search error_parser int_parser bulk_string_parser read_int
read_message-truncated_example =
    read_message-truncated read_int 100 read_int-CastsToInt64 (codes "$5\r\nhe") (codes "llo\r\n")
      (omega arith) (omega arith) (omega arith)
