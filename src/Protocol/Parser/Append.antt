-- ===== src/Protocol/Parser/Append.antt =====
-- More bytes behind a buffer that was parsed: what include/redis_async/details/protocol/parser.hpp
-- returns on a buffer that goes on.
use redis_async.Prelude.{
  ℕ, zero, suc, ◌+◌, ◌-◌, ◌≤◌, ◌<◌, ◌≡◌, ◌≢◌, refl, ap, subst, inl, inr, Option, [], ◌∷◌, ◌++◌,
  Bytes, length, drop, length-drop, length-append, take-append_le, drop-append_le, starts_with, ltb,
  ◌==◌, Bool-cases, arith,
}
use redis_async.Prelude.Int.{ℤ, pos, negsuc, IsInt64}
use redis_async.Protocol.Types.{
  Result, int, Elements, push_back, not_enough_data, ParseResult, protocol_error, error, positive,
  Run, done, threw, out_of_fuel, no_elements,
}
use redis_async.Protocol.Parser.{
  terminator, search, string_parser, error_wrapped, error_parser, int_wrapped, int_parser,
  on_element, bulk_body, bulk_counted, bulk_string_parser, array_elements, array_body,
  array_counted, array_parser, primary, raw_parse, parse,
}
use redis_async.Protocol.Parser.Bounds.{
  search_found, Within, IsInt, CastsToInt64, int_parser-IsInt, raw_parse-Within,
}

-- The outcome by which the parser asks for more bytes.
abbrev pub starved : ParseResult
starved = protocol_error not_enough_data

search-append : (bs more : Bytes) → search bs ≢ length bs → search (bs ++ more) ≡ search bs
unfolding search
search-append [] more h = absurd (h refl)
search-append (b ∷ []) more h = absurd (h (ground arith))
search-append (b ∷ c ∷ bs) more h = ground (arith, search-append (c ∷ bs) more)

string_parser-append :
    (bs more : Bytes) (before : ℕ)
    → string_parser bs before ≢ starved
    → string_parser (bs ++ more) before ≡ string_parser bs before
unfolding string_parser
string_parser-append bs more before h = elim (Bool-cases (search bs == length bs)) [
  | inl end ↦ absurd (h (rw end))
  | inr found ↦
      let ne : search bs ≢ length bs = ground arith in
      ground (
        arith,
        search-append bs more ne,
        search_found bs ne,
        length-append bs more,
        take-append_le (search bs) bs more,
      )
]

error_parser-append :
    (bs more : Bytes) (before : ℕ)
    → error_parser bs before ≢ done starved
    → error_parser (bs ++ more) before ≡ error_parser bs before
unfolding error_parser
error_parser-append bs more before h =
    ap error_wrapped (string_parser-append bs more before λ e. h (rw e))

starts_with-append_two :
    (bs more : Bytes)
    → 2 ≤ length bs
    → starts_with terminator (bs ++ more) ≡ starts_with terminator bs
starts_with-append_two [] more h = absurd (omega arith)
starts_with-append_two (b ∷ []) more h = absurd (omega arith)
starts_with-append_two (b ∷ c ∷ bs) more h = refl

module _ (lexical_cast : Bytes → Option ℤ) (max_size : ℕ) (casts : CastsToInt64 lexical_cast) where
  int_parser-append :
      (bs more : Bytes) (before : ℕ)
      → int_parser lexical_cast max_size bs before ≢ starved
      → int_parser lexical_cast max_size (bs ++ more) before
        ≡ int_parser lexical_cast max_size bs before
  unfolding int_parser
  int_parser-append bs more before h =
      ap (int_wrapped lexical_cast max_size) (string_parser-append bs more before λ e. h (rw e))

  bulk_body-append :
      (head more : Bytes) (k : ℤ) (n : ℕ)
      → IsInt64 k
      → bulk_body lexical_cast max_size head k n ≢ starved
      → bulk_body lexical_cast max_size (head ++ more) k n
        ≡ bulk_body lexical_cast max_size head k n
  unfolding bulk_body
  bulk_body-append head more (negsuc zero) n k64 h = refl
  bulk_body-append head more (negsuc (suc k)) n k64 h = refl
  bulk_body-append head more (pos k) n k64 h = elim (Bool-cases (ltb (length head) (k + 2))) [
    | inl short ↦ absurd (h (ground arith))
    | inr whole ↦ ground (
      arith,
      length-append head more,
      length-drop k head,
      take-append_le k head more,
      drop-append_le k head more,
      starts_with-append_two (drop k head) more,
    )
  ]

  bulk_counted-append :
      (bs more : Bytes) (before : ℕ) (r : ParseResult)
      → IsInt before (length bs) r
      → bulk_counted lexical_cast max_size bs before r ≢ done starved
      → bulk_counted lexical_cast max_size (bs ++ more) before r
        ≡ bulk_counted lexical_cast max_size bs before r
  unfolding bulk_counted
  bulk_counted-append bs more before (protocol_error e) i h = refl
  bulk_counted-append bs more before (error str n) i h = refl
  bulk_counted-append bs more before (positive (int k) n) i h =
      rw (drop-append_le (n - before) bs more (omega arith))
        (ap done (bulk_body-append (drop (n - before) bs) more k n i.2 λ e. h (rw e)))
  bulk_counted-append bs more before (positive _ n) i h = elim i [ ]

  bulk_string_parser-append :
      (bs more : Bytes) (before : ℕ)
      → bulk_string_parser lexical_cast max_size bs before ≢ done starved
      → bulk_string_parser lexical_cast max_size (bs ++ more) before
        ≡ bulk_string_parser lexical_cast max_size bs before
  unfolding bulk_string_parser
  bulk_string_parser-append bs more before h =
      rw (int_parser-append bs more before λ e. h (rw (e, bulk_counted))) (
        bulk_counted-append bs more before (int_parser lexical_cast max_size bs before)
          (int_parser-IsInt lexical_cast max_size casts bs before) h)

on_element-append :
    (r r' : Run) (next next' : Result → ℕ → Run)
    → on_element r next ≢ done starved
    → (r ≢ done starved → r' ≡ r)
    → ((x : Result) (n : ℕ)
        → r ≡ done (positive x n)
        → next x n ≢ done starved
        → next' x n ≡ next x n)
    → on_element r' next' ≡ on_element r next
unfolding on_element
on_element-append (done (protocol_error e)) r' next next' h same k = rw (same h)
on_element-append (done (error str n)) r' next next' h same k = rw (same h)
on_element-append (done (positive x n)) r' next next' h same k = rw (same (λ e. cc)) (k x n refl h)
on_element-append (threw e) r' next next' h same k = rw (same h)
on_element-append out_of_fuel r' next next' h same k = rw (same h)

-- On inputs of at most `limit` bytes `parse` keeps within them, and `parse'` agrees with it on the
-- inputs that go on, except where `parse` asks for more.
record Extends (limit : ℕ) (more : Bytes) (parse parse' : Bytes → Run) : Type 0 where
  within : (bs : Bytes) → length bs ≤ limit → Within 1 (length bs - 1) (parse bs)
  agrees :
      (bs : Bytes) → length bs ≤ limit → parse bs ≢ done starved → parse' (bs ++ more) ≡ parse bs

pub consumed-le :
    (from : Bytes) {r : Run} {x : Result} {n : ℕ}
    → Within 1 (length from - 1) r
    → r ≡ done (positive x n)
    → n ≤ length from
consumed-le from w e = let bounds = subst (Within 1 (length from - 1)) e w in omega arith

module _ (lexical_cast : Bytes → Option ℤ) (max_size : ℕ) (casts : CastsToInt64 lexical_cast) where
  array_elements-append :
      (count : ℕ) {limit : ℕ} {more : Bytes} {parse parse' : Bytes → Run}
      → Extends limit more parse parse'
      → (from : Bytes) (n : ℕ) (acc : Elements) → length from ≤ limit
      → array_elements lexical_cast max_size parse count from n acc ≢ done starved
      → array_elements lexical_cast max_size parse' count (from ++ more) n acc
        ≡ array_elements lexical_cast max_size parse count from n acc
  unfolding array_elements
  array_elements-append zero ext from n acc small h = refl
  array_elements-append (suc count) {more = more} {parse = parse} {parse' = parse'} ext from n acc
        small h =
      on_element-append (parse from) (parse' (from ++ more)) _ _ h (ext.agrees from small)
        λ x m e h'. rw (drop-append_le m from more (consumed-le from (ext.within from small) e)) (
          array_elements-append count ext (drop m from) (n + m) (push_back acc x)
            (omega (arith, length-drop m from)) h')

  array_body-append :
      {limit : ℕ} {more : Bytes} {parse parse' : Bytes → Run}
      → Extends limit more parse parse'
      → (head : Bytes) (k : ℤ) (n : ℕ) → length head ≤ limit
      → array_body lexical_cast max_size parse head k n ≢ done starved
      → array_body lexical_cast max_size parse' (head ++ more) k n
        ≡ array_body lexical_cast max_size parse head k n
  unfolding array_body
  array_body-append ext head (negsuc zero) n small h = refl
  array_body-append ext head (negsuc (suc k)) n small h = refl
  array_body-append ext head (pos k) n small h = elim (Bool-cases (ltb max_size k)) [
    | inl large ↦ rw large
    | inr fits ↦ rw fits (array_elements-append k ext head n no_elements small (rw fits at h))
  ]

  array_counted-append :
      (bs : Bytes) {more : Bytes} {parse parse' : Bytes → Run} (r : ParseResult)
      → Extends (length bs) more parse parse'
      → IsInt 1 (length bs) r
      → array_counted lexical_cast max_size parse bs 1 r ≢ done starved
      → array_counted lexical_cast max_size parse' (bs ++ more) 1 r
        ≡ array_counted lexical_cast max_size parse bs 1 r
  unfolding array_counted
  array_counted-append bs (protocol_error e) ext i h = refl
  array_counted-append bs (error str n) ext i h = refl
  array_counted-append bs {more = more} (positive (int k) n) ext i h =
      rw (drop-append_le (n - 1) bs more (omega arith))
        (array_body-append ext (drop (n - 1) bs) k n (omega (arith, length-drop (n - 1) bs)) h)
  array_counted-append bs (positive _ n) ext i h = elim i [ ]

  array_parser-append :
      (bs : Bytes) {more : Bytes} {parse parse' : Bytes → Run}
      → Extends (length bs) more parse parse'
      → array_parser lexical_cast max_size parse bs 1 ≢ done starved
      → array_parser lexical_cast max_size parse' (bs ++ more) 1
        ≡ array_parser lexical_cast max_size parse bs 1
  unfolding array_parser
  array_parser-append bs {more} ext h =
      rw (int_parser-append lexical_cast max_size casts bs more 1 λ e. h (rw (e, array_counted))) (
        array_counted-append bs (int_parser lexical_cast max_size bs 1) ext
          (int_parser-IsInt lexical_cast max_size casts bs 1) h)

  primary-append :
      (b : ℕ) (bs : Bytes) {more : Bytes} {parse parse' : Bytes → Run}
      → Extends (length bs) more parse parse'
      → primary lexical_cast max_size parse b bs ≢ done starved
      → primary lexical_cast max_size parse' b (bs ++ more)
        ≡ primary lexical_cast max_size parse b bs
  unfolding primary
  primary-append b bs {more} {parse} {parse'} ext h = ground (
    arith,
    string_parser-append bs more 1,
    error_parser-append bs more 1,
    int_parser-append lexical_cast max_size casts bs more 1,
    bulk_string_parser-append lexical_cast max_size casts bs more 1,
    array_parser-append bs ext,
  )

  raw_parse-append :
      (depth depth' : ℕ) (bs more : Bytes)
      → length bs < depth
      → depth ≤ depth'
      → raw_parse lexical_cast max_size depth bs ≢ done starved
      → raw_parse lexical_cast max_size depth' (bs ++ more)
        ≡ raw_parse lexical_cast max_size depth bs
  unfolding raw_parse
  raw_parse-append zero depth' bs more lt le h = absurd (omega arith)
  raw_parse-append (suc depth) zero bs more lt le h = absurd (omega arith)
  raw_parse-append (suc depth) (suc depth') [] more lt le h = absurd (h refl)
  raw_parse-append (suc depth) (suc depth') (b ∷ bs) more lt le h =
      primary-append b bs
        (record {
          within = λ cs small. raw_parse-Within lexical_cast max_size casts depth cs (omega arith);
          agrees = λ cs small. raw_parse-append depth depth' cs more (omega arith) (omega arith);
        })
        h

  -- Whatever the parser returns on a buffer, other than asking for more bytes, it returns on every
  -- longer buffer too; lexical_cast is asked to return values of `int64_t`.
  pub parse-append :
      (bs more : Bytes)
      → parse lexical_cast max_size bs ≢ done starved
      → parse lexical_cast max_size (bs ++ more) ≡ parse lexical_cast max_size bs
  unfolding parse
  parse-append bs more h =
      raw_parse-append (suc (length bs)) (suc (length (bs ++ more))) bs more (omega arith)
        (omega (arith, length-append bs more)) h
