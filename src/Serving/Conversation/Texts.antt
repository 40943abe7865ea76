-- ===== src/Serving/Conversation/Texts.antt =====
-- The texts of requests as a server reads them
-- (include/redis_async/details/protocol/serializer.hpp).
use redis_async.Prelude.{
  ℕ, ◌^◌, ◌<◌, ◌≡◌, ◌≢◌, refl, sym, ap, subst, ◌∙◌, Option, [], ◌∷◌, ◌++◌, map, All, List, Bytes,
  length, arith,
}
use redis_async.Prelude.Int.{ℤ}
use redis_async.Protocol.Types.{array, positive}
use redis_async.Protocol.Parser.{parse}
use redis_async.Protocol.Parser.Bounds.{CastsToInt64}
use redis_async.Protocol.Serializer.{command_size, format_count}
use redis_async.Protocol.Serializer.Layout.{encode, serialize-eq-encode}
use redis_async.Protocol.RoundTrip.{ReadsDecimals, Fits, strings, length-encode}
use redis_async.Connection.Events.{recv}
use redis_async.Connection.Exchange.{request, parsed_request}
use redis_async.Connection.Reading.{event_of, returned, finished, read_message}
use redis_async.Connection.Reading.Replies.{Segment, IsSegment, join, read_message-join}
use redis_async.Serving.Arrivals.{events_of}
use redis_async.Serving.Conversation.{concat, Talk, request_of}

-- The text that is written for a command, as the server's parser reads it.
module _ (lexical_cast : Bytes → Option ℤ) (max_size : ℕ) (casts : CastsToInt64 lexical_cast)
    (reads : ReadsDecimals lexical_cast) where
  abbrev segment_of : Talk → Segment
  segment_of t = record {
    bytes = (request_of t).buff;
    reply = positive (array (strings t.cmd.arguments)) (command_size t.cmd);
  }

  request-buff : (t : Talk) → t.cmd.arguments ≢ [] → (request_of t).buff ≡ encode t.cmd
  unfolding request
  request-buff t name = rw (serialize-eq-encode [] t.cmd name) refl

  -- The parser reads the texts as the commands.
  abbrev pub ReadAs : List Talk → List Bytes → Type 0
  ReadAs talks texts =
      read_message (parse lexical_cast max_size) (length (concat texts)) (concat texts)
      ≡ finished (map (λ t. recv (array (strings t.cmd.arguments))) talks) []

  segment_of-IsSegment :
      (t : Talk)
      → t.cmd.arguments ≢ []
      → Fits max_size t.cmd
      → IsSegment lexical_cast max_size (segment_of t)
  unfolding request returned encode format_count
  segment_of-IsSegment t name fits = record {
    parsed = parsed_request lexical_cast max_size casts t.cmd reads name fits;
    whole = sym (ap length (request-buff t name) ∙ length-encode t.cmd);
    there = rw (request-buff t name) (omega arith);
  }

  segments-AreSegments :
      (talks : List Talk)
      → All (λ t. (t.cmd.arguments ≢ []) × Fits max_size t.cmd) talks
      → All (IsSegment lexical_cast max_size) (map segment_of talks)
  segments-AreSegments [] h = tt
  segments-AreSegments (t ∷ talks) h =
      (segment_of-IsSegment t h.0.0 h.0.1, segments-AreSegments talks h.1)

  -- A command is a result for the server's reader.
  heard :
      (talks : List Talk)
      → events_of (map segment_of talks) ≡ map (λ t. recv (array (strings t.cmd.arguments))) talks
  unfolding event_of
  heard [] = refl
  heard (t ∷ talks) = ap (◌∷◌ (recv (array (strings t.cmd.arguments)))) (heard talks)

  joined :
      (talks : List Talk)
      → join (map segment_of talks) ≡ concat (map (λ t. (request_of t).buff) talks)
  unfolding join concat
  joined [] = refl
  joined (t ∷ talks) = ap (λ more. (request_of t).buff ++ more) (joined talks)

  pub server_reads :
      (talks : List Talk)
      → All (λ t. (t.cmd.arguments ≢ []) × Fits max_size t.cmd) talks
      → length (concat (map (λ t. (request_of t).buff) talks)) < 2 ^ 64
      → ReadAs talks (map (λ t. (request_of t).buff) talks)
  server_reads talks commands short = rw (sym (joined talks)) (
      read_message-join lexical_cast max_size casts (map segment_of talks)
        (subst (λ bs. length bs < 2 ^ 64) (sym (joined talks)) short)
        (segments-AreSegments talks commands)
      ∙ ap (λ evs. finished evs []) (heard talks))
