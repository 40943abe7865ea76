-- ===== src/Tests/Protocol.antt =====
-- Runs of the parser and the serializer of include/redis_async/details/protocol, and the theorems
-- about them at concrete inputs. The inputs are those of tests/test_parser.cpp, as far as it has
-- them.
use redis_async.Prelude.{◌-◌, ◌≡◌, ◌↔◌, refl, some, [], ◌∷◌, ◌++◌, Bytes, codes, length, arith}
use redis_async.Prelude.Int.{pos, negsuc}
use redis_async.Commands.Types.{SingleCommand, UpdateType}
use redis_async.Commands.Request.{Request, set}
use redis_async.Commands.Request.Words.{Builds, build-words}
use redis_async.Protocol.Types.{
  int, string, nil, array, no_elements, element, push_back, count_range, bulk_terminator,
  wrong_introduction, protocol_error, error, positive, done, threw, length_error,
}
use redis_async.Protocol.Parser.{
  parse, primary, error_parser, int_parser, bulk_string_parser, array_parser, search, string_parser,
  on_element, array_elements,
}
use redis_async.Protocol.Parser.Bounds.{Within, parse-Within}
use redis_async.Protocol.Parser.Append.{starved, parse-append}
use redis_async.Protocol.Parser.Truncated.{parse-truncated}
use redis_async.Protocol.Grammar.Sound.{parse-eq-positive_iff}
use redis_async.Protocol.Grammar.Bodies.{Begins}
use redis_async.Protocol.Grammar.Nested.{parse-array_error}
use redis_async.Protocol.Serializer.{serialize, command_size}
use redis_async.Protocol.Serializer.Layout.{encode, serialize-eq-encode, serialize-empty}
use redis_async.Protocol.RoundTrip.{strings, parse-serialize}
use redis_async.Tests.Cast.{read_int, read_int-CastsToInt64, read_int-ReadsDecimals}

abbrev mixed : Bytes
mixed = codes "*3\r\n$4\r\nsome\r\n$-1\r\n:-555423\r\n"

mixed_test :
    parse read_int 1000 mixed
    ≡ done (
        positive
          (array (
            element
              (string (codes "some"))
              (element nil (element (int (negsuc 555422)) no_elements))))
          (length mixed))
unfolding parse primary bulk_string_parser array_parser read_int search string_parser int_parser
    on_element array_elements push_back
mixed_test = refl

rejected_test :
    (parse read_int 1000 (codes ",whats up\r\n") ≡ done (protocol_error wrong_introduction))
    × (parse read_int 1000 (codes "$-2\r\n") ≡ done (protocol_error count_range))
    × (parse read_int 1000 (codes "$1\r\nabc") ≡ done (protocol_error bulk_terminator))
    × (parse read_int 1000 (codes "-Some Error\r\n") ≡ done (error (codes "Some Error") 13))
    × (parse read_int 1000 (codes "*1001\r\n") ≡ threw length_error)
unfolding parse primary error_parser bulk_string_parser array_parser read_int search string_parser
    int_parser
rejected_test = (refl, refl, refl, refl, refl)

parse-Within_example : Within 1 (length mixed - 1) (parse read_int 1000 mixed)
parse-Within_example = parse-Within read_int 1000 read_int-CastsToInt64 mixed

parse-append_example :
    parse read_int 1000 (codes ":7\r\n" ++ codes "+OK") ≡ parse read_int 1000 (codes ":7\r\n")
unfolding parse primary int_parser string_parser search read_int
parse-append_example =
    parse-append read_int 1000 read_int-CastsToInt64 (codes ":7\r\n") (codes "+OK") (λ e. cc)

parse-truncated_example : parse read_int 1000 (codes "$4\r\nso") ≡ done starved
unfolding parse primary bulk_string_parser int_parser string_parser search read_int
parse-truncated_example =
    parse-truncated read_int 1000 read_int-CastsToInt64 (codes "$4\r\nso") (codes "me\r\n")
      (omega arith)

parse-eq-positive_iff_example :
    (parse read_int 1000 mixed ≡ done (positive nil 5)) ↔ Begins read_int 1000 nil 5 mixed
parse-eq-positive_iff_example =
    parse-eq-positive_iff read_int 1000 read_int-CastsToInt64 mixed nil 5

parse-array_error_example :
    parse read_int 1000 (codes "*2\r\n-ERR\r\n:1\r\n") ≡ done (error (codes "ERR") 6)
unfolding read_int
parse-array_error_example =
    parse-array_error read_int 1000 (codes "2") (codes "ERR") (codes ":1\r\n") 1 (refl, tt) refl
      (omega arith) (refl, (refl, (refl, tt)))

abbrev ping_message : SingleCommand
ping_message = record { arguments = codes "PING" ∷ codes "Hello, World!" ∷ [] }

abbrev hset_empty : SingleCommand
hset_empty = record { arguments = codes "HSET" ∷ codes "key" ∷ codes "value1" ∷ codes "" ∷ [] }

serialize-eq-encode_example :
    serialize (codes "+") ping_message ≡ some (codes "+" ++ encode ping_message)
serialize-eq-encode_example = serialize-eq-encode (codes "+") ping_message (λ e. cc)

serialize-empty_example :
    serialize (codes "x") (record { arguments = [] })
    ≡ some (codes "x" ++ (b'*' ∷ b'0' ∷ 13 ∷ 0 ∷ []))
serialize-empty_example = serialize-empty (codes "x")

parse-serialize_example :
    (written : Bytes) × (serialize [] hset_empty ≡ some ([] ++ written))
    × ((rest : Bytes)
        → parse read_int 1000 (written ++ rest)
          ≡ done (positive (array (strings hset_empty.arguments)) (command_size hset_empty)))
parse-serialize_example =
    parse-serialize read_int 1000 read_int-CastsToInt64 read_int-ReadsDecimals [] hset_empty
      (λ e. cc) (omega arith)

abbrev set_px : Request
set_px = set (codes "k") (codes "v") UpdateType.not_exist (pos 20)

build-words_example : Builds set_px
build-words_example = build-words set_px
