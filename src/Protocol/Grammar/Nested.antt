-- ===== src/Protocol/Grammar/Nested.antt =====
-- A server's error among the elements of an array, under array_parser_t of
-- include/redis_async/details/protocol/parser.hpp.
use redis_async.Prelude.{ℕ, suc, ◌+◌, ◌≤◌, ◌≡◌, ◌∙◌, Option, some, ◌∷◌, ◌++◌, Bytes, length, le→ltb}
use redis_async.Prelude.Int.{ℤ, pos}
use redis_async.Protocol.Types.{error, done, Run}
use redis_async.Protocol.Parser.{
  terminator, error_parser, on_element, array_elements, array_body, primary, raw_parse, parse,
  error_wrapped,
}
use redis_async.Protocol.Grammar.{IsLine}
use redis_async.Protocol.Grammar.Complete.{string_parser-line, array_parser-line}

error_parser-line :
    (s rest : Bytes)
    → IsLine s
    → error_parser (s ++ (terminator ++ rest)) 1 ≡ done (error s (2 + length s + 1))
unfolding error_parser error_wrapped
error_parser-line s rest h = rw (string_parser-line s rest 1 h)

module _ (lexical_cast : Bytes → Option ℤ) (max_size : ℕ) where
  raw_parse-error :
      (depth : ℕ) (s rest : Bytes)
      → IsLine s
      → raw_parse lexical_cast max_size (suc depth) (b'-' ∷ (s ++ (terminator ++ rest)))
        ≡ done (error s (2 + length s + 1))
  unfolding raw_parse primary
  raw_parse-error depth s rest h = error_parser-line s rest h

  array_body-error :
      (parser : Bytes → Run) (s bs : Bytes) (k m n : ℕ)
      → suc k ≤ max_size
      → parser bs ≡ done (error s n)
      → array_body lexical_cast max_size parser bs (pos (suc k)) m ≡ done (error s n)
  unfolding array_body array_elements on_element
  array_body-error parser s bs k m n fits e = rw (le→ltb max_size (suc k) fits) (rw (e, on_element))

  raw_parse-array_error :
      (depth : ℕ) (c s rest : Bytes) (k : ℕ)
      → IsLine c
      → lexical_cast c ≡ some (pos (suc k))
      → suc k ≤ max_size
      → IsLine s
      → raw_parse lexical_cast max_size
          (suc (suc depth))
          (b'*' ∷ (c ++ (terminator ++ (b'-' ∷ (s ++ (terminator ++ rest))))))
        ≡ done (error s (2 + length s + 1))
  unfolding raw_parse primary
  raw_parse-array_error depth c s rest k h e fits l =
      let parser = raw_parse lexical_cast max_size (suc depth) in
      let reply = b'-' ∷ (s ++ (terminator ++ rest)) in
      array_parser-line lexical_cast max_size parser c reply h e
      ∙ array_body-error parser s reply k (2 + length c + 1) (2 + length s + 1) fits
          (raw_parse-error depth s rest l)

  -- On an array whose first element is a server's error the parser returns that error with the count
  -- of the error's own line, so that the bytes of the array's header are in no count. Both lines must
  -- be without a terminator, and lexical_cast must read the count of the array, one or more and at
  -- most the most elements of an array.
  pub parse-array_error :
      (c s rest : Bytes) (k : ℕ)
      → IsLine c
      → lexical_cast c ≡ some (pos (suc k))
      → suc k ≤ max_size
      → IsLine s
      → parse lexical_cast max_size
          (b'*' ∷ (c ++ (terminator ++ (b'-' ∷ (s ++ (terminator ++ rest))))))
        ≡ done (error s (2 + length s + 1))
  unfolding parse
  parse-array_error c s rest k =
      raw_parse-array_error (length (c ++ (terminator ++ (b'-' ∷ (s ++ (terminator ++ rest)))))) c s
        rest k
