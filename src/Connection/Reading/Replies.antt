-- ===== src/Connection/Reading/Replies.antt =====
-- The replies that read_message reads off the bytes that have arrived, and a reply of which a part has
-- arrived (include/redis_async/details/connection/connection_fsm.hpp).
use redis_async.Prelude.{
  ℕ, zero, suc, ◌+◌, ◌-◌, ◌%◌, ◌^◌, ◌<◌, ◌≡◌, ◌≢◌, ◌∙◌, refl, sym, Option, [], ◌∷◌, ◌++◌, map, All,
  List, Bytes, codes, length, length-append, drop, drop-append_length, arith,
}
use redis_async.Prelude.Int.{ℤ}
use redis_async.Protocol.Types.{
  ParseResult, protocol_error, error, positive, message, errc_value, done,
}
use redis_async.Protocol.Parser.{parse}
use redis_async.Protocol.Parser.Bounds.{CastsToInt64}
use redis_async.Protocol.Parser.Append.{starved, parse-append}
use redis_async.Protocol.Parser.Truncated.{Exceeds, parse-truncated}
use redis_async.Connection.Events.{query_error}
use redis_async.Connection.Reading.{
  event_of, returned, finished, behind, consumed_of, on_parsed, read_rounds, read_message,
}

-- The bytes of a reply and what the parser returns for them.
pub record Segment : Type 0 where
  pub bytes : Bytes
  pub reply : ParseResult

unfoldable pub join : List Segment → Bytes
join [] = []
join (s ∷ ss) = s.bytes ++ join ss

module _ (lexical_cast : Bytes → Option ℤ) (max_size : ℕ) where
  -- The parser reads the reply off these bytes and takes all of them, of which there is one at least.
  pub record IsSegment (s : Segment) : Type 0 where
    pub parsed : parse lexical_cast max_size s.bytes ≡ done s.reply
    pub whole : returned s.reply ≡ length s.bytes
    pub there : 0 < length s.bytes

drop_all : (bs : Bytes) → drop (length bs) bs ≡ []
drop_all [] = refl
drop_all (b ∷ bs) = drop_all bs

module _ (lexical_cast : Bytes → Option ℤ) (max_size : ℕ) (casts : CastsToInt64 lexical_cast) where
  not_starved :
      (bs : Bytes) (r : ParseResult)
      → returned r ≡ length bs
      → 0 < length bs
      → done r ≢ done starved
  unfolding returned
  not_starved bs (protocol_error code) e l same = omega arith
  not_starved bs (error str n) e l same = cc
  not_starved bs (positive x n) e l same = cc

  parsed_first :
      (s : Segment) (rest : Bytes)
      → IsSegment lexical_cast max_size s
      → parse lexical_cast max_size (s.bytes ++ rest) ≡ done s.reply
  parsed_first s rest h =
      parse-append lexical_cast max_size casts s.bytes rest
        (λ e. not_starved s.bytes s.reply h.whole h.there (sym h.parsed ∙ e))
      ∙ h.parsed

  read_rounds-join :
      (rounds max_bytes : ℕ) (ss : List Segment)
      → length (join ss) ≡ max_bytes
      → max_bytes < rounds
      → max_bytes < 2 ^ 64
      → All (IsSegment lexical_cast max_size) ss
      → read_rounds (parse lexical_cast max_size) rounds max_bytes (join ss)
        ≡ finished (map (λ s. event_of s.reply) ss) []
  unfolding read_rounds join
  read_rounds-join zero max_bytes ss e lt fits h = absurd (omega arith)
  read_rounds-join (suc rounds) zero [] e lt fits h = refl
  read_rounds-join (suc rounds) (suc m) [] e lt fits h = absurd (omega arith)
  read_rounds-join (suc rounds) zero (s ∷ ss) e lt fits h =
      absurd (omega (arith, h.0.there, length-append s.bytes (join ss)))
  read_rounds-join (suc rounds) (suc m) (s ∷ ss) e lt fits h =
      let parsed = parsed_first s (join ss) h.0 in
      let taken : consumed_of s.reply (suc m) ≡ length s.bytes =
        ground (arith, h.0.whole, h.0.there) in
      rw
        (
          parsed,
          taken,
          drop-append_length s.bytes (join ss),
          read_rounds-join rounds ((suc m + 2 ^ 64 - length s.bytes) % 2 ^ 64) ss
              (omega (arith, length-append s.bytes (join ss)))
              (omega (arith, h.0.there, length-append s.bytes (join ss))) (omega arith) h.1,
        )
        refl

  -- When the buffer holds replies and server's errors one behind the other, as many bytes as have
  -- arrived, a number of the type size_t, read_message processes the event of each, in their order,
  -- and leaves no byte; lexical_cast returns values of `int64_t`.
  pub read_message-join :
      (ss : List Segment)
      → length (join ss) < 2 ^ 64
      → All (IsSegment lexical_cast max_size) ss
      → read_message (parse lexical_cast max_size) (length (join ss)) (join ss)
        ≡ finished (map (λ s. event_of s.reply) ss) []
  unfolding read_message
  read_message-join ss fits h =
      read_rounds-join (suc (length (join ss))) (length (join ss)) ss refl (omega arith) fits h

  -- When only the first bytes of a reply or a server's error have arrived, one at least, and as many
  -- as the buffer holds, a number of the type size_t, read_message processes a query_error and drops
  -- these bytes; lexical_cast returns values of `int64_t`.
  pub read_message-truncated :
      (bs more : Bytes)
      → 0 < length bs
      → length bs < 2 ^ 64
      → Exceeds (length bs) (parse lexical_cast max_size (bs ++ more))
      → read_message (parse lexical_cast max_size) (length bs) bs
        ≡ finished
            (query_error
                (codes "Buffer just does not contain enough information to completely parse it")
              ∷ [])
            []
  unfolding read_message read_rounds on_parsed behind event_of returned message errc_value
  read_message-truncated [] more there fits x = absurd (omega arith)
  read_message-truncated (b ∷ bs) more there fits x =
      let k = length bs in
      let none_left : (suc k + 2 ^ 64 - suc k) % 2 ^ 64 ≡ 0 = omega arith in
      rw (parse-truncated lexical_cast max_size casts (b ∷ bs) more x, none_left, drop_all bs) refl
