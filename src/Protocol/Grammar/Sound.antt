-- ===== src/Protocol/Grammar/Sound.antt =====
-- Whatever the parser of include/redis_async/details/protocol/parser.hpp reads is a reply of the
-- grammar.
use redis_async.Prelude.{
  ℕ, zero, suc, ◌≡◌, ◌↔◌, sym, subst, inl, inr, Option, none, [], ◌∷◌, ◌++◌, append_assoc, Bytes,
  length, length-append, ◌==◌, if◌then◌else◌, Bool-cases, Option-cases, ==_iff, arith,
}
use redis_async.Prelude.Int.{ℤ}
use redis_async.Protocol.Types.{
  Result, int, string, protocol_error, positive, count_conversion, count_conversion,
  not_enough_data, Run, done,
}
use redis_async.Protocol.Parser.{
  terminator, string_parser, error_parser, markup_int, int_wrapped, int_parser, bulk_counted,
  bulk_string_parser, array_counted, array_parser, primary, raw_parse, parse,
}
use redis_async.Protocol.Parser.Bounds.{CastsToInt64}
use redis_async.Protocol.Grammar.{IsLine, simple, integer}
use redis_async.Protocol.Grammar.Complete.{
  string_parser-line, int_parser-line, bulk_string_parser-line, array_parser-line, parse-Wire,
}
use redis_async.Protocol.Grammar.Lines.{split_cases}
use redis_async.Protocol.Grammar.Bodies.{Begins, Sound, reply_at, bulk_body-Sound, array_body-Sound}

module _ (lexical_cast : Bytes → Option ℤ) (max_size : ℕ) where
  string_parser-Sound :
      (bs : Bytes) → Sound lexical_cast max_size (b'+' ∷ bs) (done (string_parser bs 1))
  string_parser-Sound bs = elim (split_cases bs) [
    | inl short ↦ rw (short 1) (λ x n h. cc)
    | inr (s, rest, (eq, line)) ↦
        rw (eq, string_parser-line s rest 1 line)
          (reply_at lexical_cast max_size (string s) (b'+' ∷ (s ++ terminator)) rest (simple line)
            (rw (append_assoc s terminator rest)) (omega (arith, length-append s terminator)))
  ]

  error_parser-Sound : (bs : Bytes) → Sound lexical_cast max_size (b'-' ∷ bs) (error_parser bs 1)
  unfolding error_parser
  error_parser-Sound bs = elim (split_cases bs) [
    | inl short ↦ rw (short 1) (λ x n h. cc)
    | inr (s, rest, (eq, line)) ↦ rw (eq, string_parser-line s rest 1 line) (λ x n h. cc)
  ]

  -- A line that is no number.
  int_parser-none :
      (s rest : Bytes)
      → IsLine s
      → lexical_cast s ≡ none
      → int_parser lexical_cast max_size (s ++ (terminator ++ rest)) 1
        ≡ protocol_error count_conversion
  unfolding int_parser
  int_parser-none s rest line e = rw (string_parser-line s rest 1 line, e, int_wrapped, markup_int)

  int_parser-short :
      (bs : Bytes)
      → string_parser bs 1 ≡ protocol_error not_enough_data
      → int_parser lexical_cast max_size bs 1 ≡ protocol_error not_enough_data
  unfolding int_parser
  int_parser-short bs e = rw e

  int_parser-Sound :
      (bs : Bytes)
      → Sound lexical_cast max_size (b':' ∷ bs) (done (int_parser lexical_cast max_size bs 1))
  int_parser-Sound bs = elim (split_cases bs) [
    | inl short ↦ rw (int_parser-short bs (short 1)) (λ x n h. cc)
    | inr (s, rest, (eq, line)) ↦ rw eq (elim (Option-cases (lexical_cast s)) [
      | inl e ↦ rw (int_parser-none s rest line e) (λ x n h. cc)
      | inr (k, e) ↦ rw (int_parser-line lexical_cast max_size s rest 1 line e) (
          reply_at lexical_cast max_size (int k) (b':' ∷ (s ++ terminator)) rest (integer line e)
            (rw (append_assoc s terminator rest)) (omega (arith, length-append s terminator)))
    ])
  ]

  bulk_string_parser-Sound :
      CastsToInt64 lexical_cast
      → (bs : Bytes)
      → Sound lexical_cast max_size (b'$' ∷ bs) (bulk_string_parser lexical_cast max_size bs 1)
  unfolding bulk_string_parser bulk_counted
  bulk_string_parser-Sound casts bs = elim (split_cases bs) [
    | inl short ↦ rw (int_parser-short bs (short 1)) (λ x n h. cc)
    | inr (s, rest, (eq, line)) ↦ rw eq (elim (Option-cases (lexical_cast s)) [
      | inl e ↦ rw (int_parser-none s rest line e) (λ x n h. cc)
      | inr (k, e) ↦
          subst (Sound lexical_cast max_size (b'$' ∷ (s ++ (terminator ++ rest))))
            (sym (bulk_string_parser-line lexical_cast max_size s rest line e))
            (bulk_body-Sound lexical_cast max_size s rest k line e (casts s k e))
    ])
  ]

  array_parser-Sound :
      (parse : Bytes → Run)
      → ((bs : Bytes) → Sound lexical_cast max_size bs (parse bs))
      → (bs : Bytes)
      → Sound lexical_cast max_size (b'*' ∷ bs) (array_parser lexical_cast max_size parse bs 1)
  unfolding array_parser array_counted
  array_parser-Sound parse sound bs = elim (split_cases bs) [
    | inl short ↦ rw (int_parser-short bs (short 1)) (λ x n h. cc)
    | inr (s, rest, (eq, line)) ↦ rw eq (elim (Option-cases (lexical_cast s)) [
      | inl e ↦ rw (int_parser-none s rest line e) (λ x n h. cc)
      | inr (k, e) ↦
          subst (Sound lexical_cast max_size (b'*' ∷ (s ++ (terminator ++ rest))))
            (sym (array_parser-line lexical_cast max_size parse s rest line e))
            (array_body-Sound lexical_cast max_size parse sound s rest k line e)
    ])
  ]

  -- The split on the first byte, which is then the one that the reply begins with.
  on_byte :
      (b c : ℕ) (bs : Bytes) (r s : Run)
      → Sound lexical_cast max_size (c ∷ bs) r
      → Sound lexical_cast max_size (b ∷ bs) s
      → Sound lexical_cast max_size (b ∷ bs) (if b == c then r else s)
  on_byte b c bs r s here there = elim (Bool-cases (b == c)) [
    | inl e ↦
        rw e (subst (λ d. Sound lexical_cast max_size (d ∷ bs) r) (sym ((==_iff b c).0 e)) here)
    | inr e ↦ rw e there
  ]

  primary-Sound :
      CastsToInt64 lexical_cast
      → (parse : Bytes → Run) → ((bs : Bytes) → Sound lexical_cast max_size bs (parse bs))
      → (b : ℕ) (bs : Bytes)
      → Sound lexical_cast max_size (b ∷ bs) (primary lexical_cast max_size parse b bs)
  unfolding primary
  primary-Sound casts parse sound b bs = on_byte b b'+' bs _ _ (string_parser-Sound bs) (
      on_byte b b'-' bs _ _ (error_parser-Sound bs) (
        on_byte b b':' bs _ _ (int_parser-Sound bs) (
          on_byte b b'$' bs _ _ (bulk_string_parser-Sound casts bs)
            (on_byte b b'*' bs _ _ (array_parser-Sound parse sound bs) (λ x n h. cc)))))

  raw_parse-Sound :
      CastsToInt64 lexical_cast
      → (depth : ℕ) (bs : Bytes)
      → Sound lexical_cast max_size bs (raw_parse lexical_cast max_size depth bs)
  unfolding raw_parse
  raw_parse-Sound casts zero bs = λ x n h. cc
  raw_parse-Sound casts (suc depth) [] = λ x n h. cc
  raw_parse-Sound casts (suc depth) (b ∷ bs) =
      primary-Sound casts (raw_parse lexical_cast max_size depth) (raw_parse-Sound casts depth) b bs

module _ (lexical_cast : Bytes → Option ℤ) (max_size : ℕ) (casts : CastsToInt64 lexical_cast) where
  -- The parser returns the reply `x` and the count `n` on a buffer exactly when the buffer begins
  -- with `n` bytes that the grammar has for `x`; lexical_cast is asked to return values of `int64_t`.
  pub parse-eq-positive_iff :
      (bs : Bytes) (x : Result) (n : ℕ)
      → (parse lexical_cast max_size bs ≡ done (positive x n)) ↔ Begins lexical_cast max_size x n bs
  unfolding parse
  parse-eq-positive_iff bs x n = (
    raw_parse-Sound lexical_cast max_size casts (suc (length bs)) bs x n,
    λ (ws, rest, eq, len, w). rw (eq, len) (parse-Wire lexical_cast max_size casts rest w),
  )
