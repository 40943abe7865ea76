-- ===== src/Protocol/Parser/Bounds.antt =====
-- What the parser of include/redis_async/details/protocol/parser.hpp takes from its input.
use redis_async.Prelude.{
  ℕ, zero, suc, ◌+◌, ◌-◌, ◌≤◌, ◌<◌, ◌≡◌, ◌≢◌, refl, inl, inr, Option, some, [], ◌∷◌, Bytes, length,
  drop, length-drop, ltb, ◌==◌, Bool-cases, Option-cases, arith, subst,
}
use redis_async.Prelude.Int.{ℤ, pos, negsuc, IsInt64}
use redis_async.Protocol.Types.{
  Result, int, string, Elements, push_back, ParseResult, protocol_error, error, positive,
  bad_variant_access, length_error, Run, done, threw, out_of_fuel, no_elements,
}
use redis_async.Protocol.Parser.{
  search, on_element, string_parser, error_wrapped, error_parser, markup_int, int_wrapped,
  int_parser, bulk_body, bulk_counted, bulk_string_parser, array_elements, array_body,
  array_counted, array_parser, primary, raw_parse, parse,
}

-- The terminator is found whole, or not at all.
pub search_found : (bs : Bytes) → search bs ≢ length bs → search bs + 2 ≤ length bs
unfolding search
search_found [] h = absurd (h refl)
search_found (b ∷ []) h = ground arith
search_found (b ∷ c ∷ bs) h = ground (arith, search_found (c ∷ bs))

-- What a parser behind the first `before` bytes may return: counts that cover those bytes and at
-- least two and at most `len` more, no exception but `length_error`, and no end of the fuel.
abbrev pub Within : (before len : ℕ) → Run → Type 0
Within before len (done (protocol_error e)) = Unit
Within before len (done (error str n)) = (before + 2 ≤ n) × (n ≤ before + len)
Within before len (done (positive r n)) = (before + 2 ≤ n) × (n ≤ before + len)
Within before len (threw length_error) = Unit
Within before len (threw bad_variant_access) = ⊥
Within before len out_of_fuel = ⊥

-- The same for the parser of a string: it returns a string, or a protocol error.
abbrev IsString : ℕ → ℕ → ParseResult → Type 0
IsString before len (protocol_error e) = Unit
IsString before len (positive (string s) n) = (before + 2 ≤ n) × (n ≤ before + len)
IsString before len _ = ⊥

string_parser-IsString :
    (bs : Bytes) (before : ℕ) → IsString before (length bs) (string_parser bs before)
unfolding string_parser
string_parser-IsString bs before = elim (Bool-cases (search bs == length bs)) [
  | inl end ↦ rw end tt
  | inr found ↦ rw found (omega (arith, search_found bs (ground arith)))
]

error_wrapped-Within :
    (before len : ℕ) (r : ParseResult) → IsString before len r → Within before len (error_wrapped r)
unfolding error_wrapped
error_wrapped-Within before len (protocol_error e) h = tt
error_wrapped-Within before len (error str n) h = elim h [ ]
error_wrapped-Within before len (positive (string s) n) h = h
error_wrapped-Within before len (positive _ n) h = elim h [ ]

error_parser-Within : (bs : Bytes) (before : ℕ) → Within before (length bs) (error_parser bs before)
unfolding error_parser
error_parser-Within bs before =
    error_wrapped-Within before (length bs) (string_parser bs before)
      (string_parser-IsString bs before)

string_result-Within :
    (before len : ℕ) (r : ParseResult) → IsString before len r → Within before len (done r)
string_result-Within before len (protocol_error e) h = tt
string_result-Within before len (error str n) h = elim h [ ]
string_result-Within before len (positive (string s) n) h = h
string_result-Within before len (positive _ n) h = elim h [ ]

-- The parser of a number returns a number of `int_t`, or a protocol error.
abbrev pub IsInt : ℕ → ℕ → ParseResult → Type 0
IsInt before len (protocol_error e) = Unit
IsInt before len (positive (int k) n) = (before + 2 ≤ n) × (n ≤ before + len) × IsInt64 k
IsInt before len _ = ⊥

int_result-Within :
    (before len : ℕ) (r : ParseResult) → IsInt before len r → Within before len (done r)
int_result-Within before len (protocol_error e) h = tt
int_result-Within before len (error str n) h = elim h [ ]
int_result-Within before len (positive (int k) n) h = (h.0, h.1)
int_result-Within before len (positive _ n) h = elim h [ ]

on_element-Within :
    (m len : ℕ) (r : Run) (next : Result → ℕ → Run)
    → m ≤ len
    → Within 1 m r
    → ((x : Result) (n : ℕ) → 3 ≤ n → n ≤ 1 + m → Within 1 len (next x n))
    → Within 1 len (on_element r next)
unfolding on_element
on_element-Within m len (done (protocol_error e)) next le h k = tt
on_element-Within m len (done (error str n)) next le h k = (h.0, omega arith)
on_element-Within m len (done (positive x n)) next le h k = k x n (omega arith) (omega arith)
on_element-Within m len (threw length_error) next le h k = tt
on_element-Within m len (threw bad_variant_access) next le h k = elim h [ ]
on_element-Within m len out_of_fuel next le h k = elim h [ ]

-- What is asked of `boost::lexical_cast<int_t>` here: what it returns is an `int64_t`.
abbrev pub CastsToInt64 : (Bytes → Option ℤ) → Type 0
CastsToInt64 lexical_cast = (s : Bytes) (k : ℤ) → lexical_cast s ≡ some k → IsInt64 k

module _ (lexical_cast : Bytes → Option ℤ) (max_size : ℕ) (casts : CastsToInt64 lexical_cast) where
  int_wrapped-IsInt :
      (before len : ℕ) (r : ParseResult)
      → IsString before len r
      → IsInt before len (int_wrapped lexical_cast max_size r)
  unfolding int_wrapped
  int_wrapped-IsInt before len (protocol_error e) h = tt
  int_wrapped-IsInt before len (error str n) h = elim h [ ]
  int_wrapped-IsInt before len (positive (string s) n) h = elim (Option-cases (lexical_cast s)) [
    | inl e ↦ rw (e, int_wrapped, IsInt, markup_int) tt
    | inr (k, e) ↦ rw (e, int_wrapped, IsInt, markup_int) (h.0, h.1, casts s k e)
  ]
  int_wrapped-IsInt before len (positive _ n) h = elim h [ ]

  pub int_parser-IsInt :
      (bs : Bytes) (before : ℕ)
      → IsInt before (length bs) (int_parser lexical_cast max_size bs before)
  unfolding int_parser
  int_parser-IsInt bs before =
      int_wrapped-IsInt before (length bs) (string_parser bs before)
        (string_parser-IsString bs before)

  bulk_body-Within :
      (before len : ℕ) (head : Bytes) (k : ℤ) (n : ℕ)
      → before + 2 ≤ n
      → n + length head ≤ before + len
      → IsInt64 k
      → Within before len (done (bulk_body lexical_cast max_size head k n))
  unfolding bulk_body
  bulk_body-Within before len head (negsuc zero) n lo hi k64 = (lo, omega arith)
  bulk_body-Within before len head (negsuc (suc k)) n lo hi k64 = tt
  bulk_body-Within before len head (pos k) n lo hi k64 = ground arith

  bulk_counted-Within :
      (bs : Bytes) (before : ℕ) (r : ParseResult)
      → IsInt before (length bs) r
      → Within before (length bs) (bulk_counted lexical_cast max_size bs before r)
  unfolding bulk_counted
  bulk_counted-Within bs before (protocol_error e) h = tt
  bulk_counted-Within bs before (error str n) h = elim h [ ]
  bulk_counted-Within bs before (positive (int k) n) h =
      bulk_body-Within before (length bs) (drop (n - before) bs) k n h.0
        (omega (arith, length-drop (n - before) bs)) h.2
  bulk_counted-Within bs before (positive _ n) h = elim h [ ]

  -- The loop over the elements, for any parser that keeps within what it is given.

  array_elements-Within :
      (count : ℕ) (parse : Bytes → Run) (len limit : ℕ)
      → ((bs : Bytes) → length bs ≤ limit → Within 1 (length bs - 1) (parse bs))
      → (from : Bytes) (n : ℕ) (acc : Elements) → length from ≤ limit
      → 3 ≤ n
      → n + length from ≤ 1 + len
      → Within 1 len (array_elements lexical_cast max_size parse count from n acc)
  unfolding array_elements
  array_elements-Within zero parse len limit ok from n acc small lo hi = (lo, omega arith)
  array_elements-Within (suc count) parse len limit ok from n acc small lo hi =
      on_element-Within (length from - 1) len (parse from) _ (omega arith) (ok from small)
        λ x m low high.
          array_elements-Within count parse len limit ok (drop m from) (n + m) (push_back acc x)
            (omega (arith, length-drop m from)) (omega arith) (omega (arith, length-drop m from))

  array_body-Within :
      (parse : Bytes → Run) (len : ℕ)
      → ((bs : Bytes) → length bs ≤ len → Within 1 (length bs - 1) (parse bs))
      → (head : Bytes) (k : ℤ) (n : ℕ) → 3 ≤ n
      → n + length head ≤ 1 + len
      → Within 1 len (array_body lexical_cast max_size parse head k n)
  unfolding array_body
  array_body-Within parse len ok head (negsuc zero) n lo hi = (lo, omega arith)
  array_body-Within parse len ok head (negsuc (suc k)) n lo hi = tt
  array_body-Within parse len ok head (pos k) n lo hi = elim (Bool-cases (ltb max_size k)) [
    | inl large ↦ rw large tt
    | inr small ↦
        rw small (array_elements-Within k parse len len ok head n no_elements (omega arith) lo hi)
  ]

  array_counted-Within :
      (parse : Bytes → Run) (bs : Bytes) (r : ParseResult)
      → ((cs : Bytes) → length cs ≤ length bs → Within 1 (length cs - 1) (parse cs))
      → IsInt 1 (length bs) r
      → Within 1 (length bs) (array_counted lexical_cast max_size parse bs 1 r)
  unfolding array_counted
  array_counted-Within parse bs (protocol_error e) ok h = tt
  array_counted-Within parse bs (error str n) ok h = elim h [ ]
  array_counted-Within parse bs (positive (int k) n) ok h =
      array_body-Within parse (length bs) ok (drop (n - 1) bs) k n (omega arith)
        (omega (arith, length-drop (n - 1) bs))
  array_counted-Within parse bs (positive _ n) ok h = elim h [ ]

  primary-Within :
      (parse : Bytes → Run) (b : ℕ) (bs : Bytes)
      → ((cs : Bytes) → length cs ≤ length bs → Within 1 (length cs - 1) (parse cs))
      → Within 1 (length bs) (primary lexical_cast max_size parse b bs)
  unfolding primary bulk_string_parser array_parser
  primary-Within parse b bs ok = ground (
    arith,
    string_result-Within 1 (length bs) (string_parser bs 1) (string_parser-IsString bs 1),
    error_parser-Within bs 1,
    int_result-Within 1 (length bs) (int_parser lexical_cast max_size bs 1) (int_parser-IsInt bs 1),
    bulk_counted-Within bs 1 (int_parser lexical_cast max_size bs 1) (int_parser-IsInt bs 1),
    array_counted-Within parse bs (int_parser lexical_cast max_size bs 1) ok
        (int_parser-IsInt bs 1),
  )

  -- A bound on the depth above the input's length is enough.
  pub raw_parse-Within :
      (depth : ℕ) (bs : Bytes)
      → length bs < depth
      → Within 1 (length bs - 1) (raw_parse lexical_cast max_size depth bs)
  unfolding raw_parse
  raw_parse-Within zero bs h = absurd (omega arith)
  raw_parse-Within (suc depth) [] h = tt
  raw_parse-Within (suc depth) (b ∷ bs) h =
      subst
        (λ k.
          Within 1 k (primary lexical_cast max_size (raw_parse lexical_cast max_size depth) b bs))
        (omega arith)
        (primary-Within (raw_parse lexical_cast max_size depth) b bs
          λ cs le. raw_parse-Within depth cs (omega arith))

  -- For every input the parser returns or throws `length_error`, never running out of the bound on
  -- the depth and never taking a variant for what it is not; a reply or a server's error that it
  -- returns accounts for at least three bytes, and for no more than the input has; lexical_cast is
  -- asked to return values of `int64_t`.
  pub parse-Within : (bs : Bytes) → Within 1 (length bs - 1) (parse lexical_cast max_size bs)
  unfolding parse
  parse-Within bs = raw_parse-Within (suc (length bs)) bs (omega arith)
