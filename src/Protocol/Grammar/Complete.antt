-- ===== src/Protocol/Grammar/Complete.antt =====
-- Every reply of the grammar is read by the parser of
-- include/redis_async/details/protocol/parser.hpp.
use redis_async.Prelude.{
  ℕ, zero, suc, ◌+◌, ◌-◌, ◌<◌, ◌≡◌, refl, ap, Option, some, [], ◌∷◌, ◌++◌, append_assoc, Bytes,
  length, drop, length-append, take-append_length, drop-append_length, le→ltb, arith,
}
use redis_async.Prelude.Int.{ℤ, pos, IsInt64}
use redis_async.Protocol.Types.{
  Result, int, string, nil, array, Elements, push_back, append, size, append-push_back,
  append-no_elements, positive, Run, done, no_elements, element,
}
use redis_async.Protocol.Parser.{
  terminator, search, string_parser, markup_int, int_wrapped, int_parser, on_element, bulk_body,
  bulk_counted, bulk_string_parser, array_elements, array_body, array_counted, array_parser,
  primary, raw_parse, parse,
}
use redis_async.Protocol.Parser.Bounds.{CastsToInt64}
use redis_async.Protocol.Grammar.{
  IsLine, Wire, WireAll, simple, integer, bulk, no_bulk, no_array, items, none_left, followed,
}

pub search-line : (s rest : Bytes) → IsLine s → search (s ++ (terminator ++ rest)) ≡ length s
unfolding search
search-line [] rest h = refl
search-line (b ∷ []) rest h = ground arith
search-line (b ∷ c ∷ s) rest h = ground (arith, search-line (c ∷ s) rest h.1)

pub string_parser-line :
    (s rest : Bytes) (before : ℕ)
    → IsLine s
    → string_parser (s ++ (terminator ++ rest)) before ≡ positive (string s) (2 + length s + before)
unfolding string_parser
string_parser-line s rest before h =
    rw
      (
        search-line s rest h,
        take-append_length s (terminator ++ rest),
        length-append s (terminator ++ rest),
      )
      (ground arith)

-- The bytes behind a line and its terminator.
drop-line_lem : (s rest : Bytes) → drop (suc (suc (length s))) (s ++ (terminator ++ rest)) ≡ rest
drop-line_lem [] rest = refl
drop-line_lem (b ∷ s) rest = drop-line_lem s rest

pub drop-line :
    (s rest : Bytes) (n : ℕ) → n ≡ length s + 2 → drop n (s ++ (terminator ++ rest)) ≡ rest
drop-line s rest n e = let m : n ≡ suc (suc (length s)) = omega arith in rw m (drop-line_lem s rest)

module _ (lexical_cast : Bytes → Option ℤ) (max_size : ℕ) where
  pub int_parser-line :
      (c rest : Bytes) (before : ℕ) {k : ℤ}
      → IsLine c
      → lexical_cast c ≡ some k
      → int_parser lexical_cast max_size (c ++ (terminator ++ rest)) before
        ≡ positive (int k) (2 + length c + before)
  unfolding int_parser
  int_parser-line c rest before h e =
      rw (string_parser-line c rest before h, e, int_wrapped, markup_int)

  bulk_body-whole :
      (s rest : Bytes) (n : ℕ)
      → IsInt64 (pos (length s))
      → bulk_body lexical_cast max_size (s ++ (terminator ++ rest)) (pos (length s)) n
        ≡ positive (string s) (n + length s + 2)
  unfolding bulk_body
  bulk_body-whole s rest n small =
      rw
        (
          take-append_length s (terminator ++ rest),
          drop-append_length s (terminator ++ rest),
          length-append s (terminator ++ rest),
        )
        (ground arith)

  -- A line, as a number, then the bytes that its parser leaves.
  pub bulk_string_parser-line :
      (c rest : Bytes) {k : ℤ}
      → IsLine c
      → lexical_cast c ≡ some k
      → bulk_string_parser lexical_cast max_size (c ++ (terminator ++ rest)) 1
        ≡ done (bulk_body lexical_cast max_size rest k (2 + length c + 1))
  unfolding bulk_string_parser bulk_counted
  bulk_string_parser-line c rest h e =
      rw (int_parser-line c rest 1 h e, drop-line c rest (2 + length c + 1 - 1) (omega arith))

  pub array_parser-line :
      (parse : Bytes → Run) (c rest : Bytes) {k : ℤ}
      → IsLine c
      → lexical_cast c ≡ some k
      → array_parser lexical_cast max_size parse (c ++ (terminator ++ rest)) 1
        ≡ array_body lexical_cast max_size parse rest k (2 + length c + 1)
  unfolding array_parser array_counted
  array_parser-line parse c rest h e =
      rw (int_parser-line c rest 1 h e, drop-line c rest (2 + length c + 1 - 1) (omega arith))

  -- `parse` reads `x` off `bs`, whatever follows.
  abbrev Reads : (Bytes → Run) → Result → Bytes → Type 0
  Reads parse x bs = (rest : Bytes) → parse (bs ++ rest) ≡ done (positive x (length bs))

  array_elements-then :
      (parse : Bytes → Run) (count : ℕ) (x : Result) (bs rest : Bytes) (n : ℕ) (acc : Elements)
      → Reads parse x bs
      → array_elements lexical_cast max_size parse (suc count) (bs ++ rest) n acc
        ≡ array_elements lexical_cast max_size parse count rest (n + length bs) (push_back acc x)
  unfolding array_elements on_element
  array_elements-then parse count x bs rest n acc reads =
      rw (reads rest, on_element, drop-append_length bs rest)

  array_elements-zero :
      (parse : Bytes → Run) (bs : Bytes) (n : ℕ) (acc : Elements)
      → array_elements lexical_cast max_size parse 0 bs n acc ≡ done (positive (array acc) n)
  unfolding array_elements
  array_elements-zero parse bs n acc = refl

-- Two counts of the bytes of one reply.
recount : (x : Result) {m n : ℕ} → m ≡ n → done (positive x m) ≡ done (positive x n)
recount x e = ap (λ k. done (positive x k)) e

module _ (lexical_cast : Bytes → Option ℤ) (max_size : ℕ) (casts : CastsToInt64 lexical_cast) where
  mutual
    unfolding raw_parse primary bulk_body array_body size append

    raw_parse-Wire :
        {x : Result} {bs : Bytes}
        → Wire lexical_cast max_size x bs
        → (depth : ℕ) → length bs < suc depth
        → Reads lexical_cast max_size (raw_parse lexical_cast max_size (suc depth)) x bs
    raw_parse-Wire (simple {s} h) depth lt rest =
        rw (append_assoc s terminator rest, string_parser-line s rest 1 h)
          (recount (string s) (omega (arith, length-append s terminator)))
    raw_parse-Wire (integer {c} {k} h e) depth lt rest =
        rw (append_assoc c terminator rest, int_parser-line lexical_cast max_size c rest 1 h e)
          (recount (int k) (omega (arith, length-append c terminator)))
    raw_parse-Wire (bulk {c} {s} h e) depth lt rest =
        rw
          (
            append_assoc c (terminator ++ (s ++ terminator)) rest,
            append_assoc s terminator rest,
            bulk_string_parser-line lexical_cast max_size c (s ++ (terminator ++ rest)) h e,
            bulk_body-whole lexical_cast max_size s rest (2 + length c + 1) (casts c _ e),
          )
          (recount (string s) (
            omega (
              arith,
              length-append c (terminator ++ (s ++ terminator)),
              length-append s terminator,
            )))
    raw_parse-Wire (no_bulk {c} h e) depth lt rest =
        rw
          (append_assoc c terminator rest, bulk_string_parser-line lexical_cast max_size c rest h e)
          (recount nil (omega (arith, length-append c terminator)))
    raw_parse-Wire (no_array {c} h e) depth lt rest =
        rw
          (
            append_assoc c terminator rest,
            array_parser-line lexical_cast max_size (raw_parse lexical_cast max_size depth) c rest h
                e,
          )
          (recount nil (omega (arith, length-append c terminator)))
    raw_parse-Wire (items {c} {bs} {xs} h e fits all) depth lt rest =
        rw
          (
            append_assoc c (terminator ++ bs) rest,
            array_parser-line lexical_cast max_size (raw_parse lexical_cast max_size depth) c
                (bs ++ rest) h e,
            le→ltb max_size (size xs) fits,
            array_elements-WireAll all depth (omega (arith, length-append c (terminator ++ bs)))
                rest (2 + length c + 1) no_elements,
          )
          (recount (array xs) (omega (arith, length-append c (terminator ++ bs))))

    array_elements-WireAll :
        {xs : Elements} {bs : Bytes}
        → WireAll lexical_cast max_size xs bs
        → (depth : ℕ) → length bs < depth
        → (rest : Bytes) (n : ℕ) (acc : Elements)
        → array_elements lexical_cast max_size
            (raw_parse lexical_cast max_size depth)
            (size xs)
            (bs ++ rest)
            n
            acc
          ≡ done (positive (array (append acc xs)) (n + length bs))
    array_elements-WireAll none_left depth lt rest n acc =
        rw
          (
            append-no_elements acc,
            array_elements-zero lexical_cast max_size (raw_parse lexical_cast max_size depth) rest n
                acc,
          )
          (recount (array acc) (omega arith))
    array_elements-WireAll (followed {x} {xs} {bs} {cs} w all) zero lt rest n acc =
        absurd (omega arith)
    array_elements-WireAll (followed {x} {xs} {bs} {cs} w all) (suc depth) lt rest n acc =
        rw
          (
            append_assoc bs cs rest,
            array_elements-then lexical_cast max_size (raw_parse lexical_cast max_size (suc depth))
                (size xs) x bs (cs ++ rest) n acc
                (raw_parse-Wire w depth (omega (arith, length-append bs cs))),
            array_elements-WireAll all (suc depth) (omega (arith, length-append bs cs)) rest
                (n + length bs) (push_back acc x),
            append-push_back acc x xs,
          )
          (recount (array (append acc (element x xs))) (omega (arith, length-append bs cs)))

  -- A whole reply of the grammar, with any bytes behind it, is read as the value that it stands
  -- for, and the count is its length.
  pub parse-Wire :
      {x : Result} {bs : Bytes} (rest : Bytes)
      → Wire lexical_cast max_size x bs
      → parse lexical_cast max_size (bs ++ rest) ≡ done (positive x (length bs))
  unfolding parse
  parse-Wire {x} {bs} rest w =
      raw_parse-Wire w (length (bs ++ rest)) (omega (arith, length-append bs rest)) rest
