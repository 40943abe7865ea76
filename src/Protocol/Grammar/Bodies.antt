-- ===== src/Protocol/Grammar/Bodies.antt =====
-- What the parser of include/redis_async/details/protocol/parser.hpp reads behind a count: the
-- bytes of a bulk string, and the elements of an array.
use redis_async.Prelude.{
  ℕ, zero, suc, ◌+◌, ◌%◌, ◌^◌, ◌≤◌, ◌≡◌, refl, ap, ◌∙◌, sym, subst, inl, inr, Option, some, true,
  [], ◌∷◌, ◌++◌, append_assoc, Bytes, length, take, drop, length-append, length-take,
  take-append-drop, drop-append_length, starts_with, ltb, ltb→le, Bool-cases, arith,
}
use native.Mathlib.Nat.{add-zero}
use redis_async.Prelude.Int.{ℤ, pos, negsuc, IsInt64}
use redis_async.Protocol.Types.{
  Result, string, nil, array, Elements, push_back, append, size, append-push_back,
  append-no_elements, protocol_error, error, positive, Run, done, threw, out_of_fuel, no_elements,
  element,
}
use redis_async.Protocol.Parser.{
  terminator, on_element, bulk_body, array_elements, array_body, parse,
}
use redis_async.Protocol.Grammar.{
  IsLine, Wire, WireAll, bulk, no_bulk, no_array, items, none_left, followed,
}
use redis_async.Protocol.Grammar.Lines.{starts_with→append}

drop_behind :
    (from ws rest : Bytes) (j : ℕ) → from ≡ ws ++ rest → j ≡ length ws → drop j from ≡ rest
drop_behind from ws rest j eq len = rw (eq, len) (drop-append_length ws rest)

on_element_inv :
    (r : Run) (next : Result → ℕ → Run) {x : Result} {n : ℕ}
    → on_element r next ≡ done (positive x n)
    → (y : Result) × (j : ℕ) × (r ≡ done (positive y j)) × (next y j ≡ done (positive x n))
unfolding on_element
on_element_inv (done (positive y j)) next h = (y, j, refl, h)
on_element_inv (done (protocol_error e)) next h = cc
on_element_inv (done (error str j)) next h = cc
on_element_inv (threw e) next h = cc
on_element_inv out_of_fuel next h = cc

module _ (lexical_cast : Bytes → Option ℤ) (max_size : ℕ) where
  -- `bs` begins with a reply that stands for `x` and has `n` bytes.
  abbrev pub Begins : Result → ℕ → Bytes → Type 0
  Begins x n bs =
      (ws : Bytes) × (rest : Bytes) × (bs ≡ ws ++ rest)
      × (n ≡ length ws)
      × Wire lexical_cast max_size x ws

  -- The same for a run of replies, `n` bytes behind `m` others.
  abbrev BeginsAll : Elements → ℕ → ℕ → Bytes → Type 0
  BeginsAll xs m n bs =
      (ws : Bytes) × (rest : Bytes) × (bs ≡ ws ++ rest)
      × (n ≡ m + length ws)
      × WireAll lexical_cast max_size xs ws

  -- The outcome `r` of a parser on `bs` is no reply, or one that stands there.
  abbrev pub Sound : Bytes → Run → Type 0
  Sound bs r = (x : Result) (n : ℕ) → r ≡ done (positive x n) → Begins x n bs

  pub reply_at :
      (y : Result) (ws rest : Bytes) {bs : Bytes} {m : ℕ}
      → Wire lexical_cast max_size y ws
      → bs ≡ ws ++ rest
      → m ≡ length ws
      → Sound bs (done (positive y m))
  reply_at y ws rest w eq len x n h =
      (ws, rest, eq, cc, subst (λ z. Wire lexical_cast max_size z ws) (cc) w)

  bulk_whole-Sound :
      (c rest : Bytes) (k : ℕ)
      → IsLine c
      → lexical_cast c ≡ some (pos k)
      → k ≤ length rest
      → starts_with terminator (drop k rest) ≡ true
      → Sound
          (b'$' ∷ (c ++ (terminator ++ rest)))
          (done (positive (string (take k rest)) (2 + length c + 1 + k + 2)))
  bulk_whole-Sound c rest k line e le h =
      let (rest', eq) = starts_with→append terminator (drop k rest) h in
      let len = length-take k rest le in
      reply_at (string (take k rest)) (b'$' ∷ (c ++ (terminator ++ (take k rest ++ terminator))))
        rest' (bulk line (rw len e))
        (rw (
          append_assoc c (terminator ++ (take k rest ++ terminator)) rest',
          append_assoc (take k rest) terminator rest',
          ← eq,
          take-append-drop k rest,
        ))
        (omega (
          arith,
          len,
          length-append c (terminator ++ (take k rest ++ terminator)),
          length-append (take k rest) terminator,
        ))

  pub bulk_body-Sound :
      (c rest : Bytes) (k : ℤ)
      → IsLine c
      → lexical_cast c ≡ some k
      → IsInt64 k
      → Sound
          (b'$' ∷ (c ++ (terminator ++ rest)))
          (done (bulk_body lexical_cast max_size rest k (2 + length c + 1)))
  unfolding bulk_body
  bulk_body-Sound c rest (negsuc zero) line e small =
      reply_at nil (b'$' ∷ (c ++ terminator)) rest (no_bulk line e)
        (rw (append_assoc c terminator rest)) (omega (arith, length-append c terminator))
  bulk_body-Sound c rest (negsuc (suc k)) line e small = λ x n h. cc
  bulk_body-Sound c rest (pos k) line e small =
      elim (Bool-cases (ltb (length rest) ((k + 2) % 2 ^ 64))) [
        | inl short ↦ rw short (λ x n h. cc)
        | inr enough ↦ rw enough (elim (Bool-cases (starts_with terminator (drop k rest))) [
          | inl e' ↦ rw e' (bulk_whole-Sound c rest k line e (ground arith) e')
          | inr e' ↦ rw e' (λ x n h. cc)
        ])
      ]

  -- The loop, for any parser of an element that reads what stands there.
  array_elements-Sound :
      (parse : Bytes → Run)
      → ((bs : Bytes) → Sound bs (parse bs))
      → (count : ℕ) (from : Bytes) (m : ℕ) (acc : Elements) (x : Result) (n : ℕ)
      → array_elements lexical_cast max_size parse count from m acc ≡ done (positive x n)
      → (xs : Elements) × BeginsAll xs m n from × (x ≡ array (append acc xs)) × (size xs ≡ count)
  unfolding array_elements size
  array_elements-Sound parse sound zero from m acc x n h =
      let len : n ≡ m + 0 = (cc) ∙ sym (add-zero m) in
      (
        no_elements,
        ([], from, refl, len, none_left),
        (cc) ∙ ap array (sym (append-no_elements acc)),
        refl,
      )
  array_elements-Sound parse sound (suc count) from m acc x n h =
      let (y, j, e, h') = on_element_inv (parse from) _ h in
      let (ws, rest, eq, len, w) = sound from y j e in
      let behind : drop j from ≡ rest = drop_behind from ws rest j eq len in
      let (xs, (ws', rest', eq', len', all), whole, count') =
        array_elements-Sound parse sound count (drop j from) (m + j) (push_back acc y) x n h' in
      (
        element y xs,
        (
          ws ++ ws',
          rest',
          eq ∙ ap (◌++◌ ws) (sym behind ∙ eq') ∙ sym (append_assoc ws ws' rest'),
          omega (arith, length-append ws ws'),
          followed w all,
        ),
        whole ∙ ap array (append-push_back acc y xs),
        ap suc count',
      )

  pub array_body-Sound :
      (parse : Bytes → Run)
      → ((bs : Bytes) → Sound bs (parse bs))
      → (c rest : Bytes) (k : ℤ) → IsLine c
      → lexical_cast c ≡ some k
      → Sound
          (b'*' ∷ (c ++ (terminator ++ rest)))
          (array_body lexical_cast max_size parse rest k (2 + length c + 1))
  unfolding array_body append
  array_body-Sound parse sound c rest (negsuc zero) line e =
      reply_at nil (b'*' ∷ (c ++ terminator)) rest (no_array line e)
        (rw (append_assoc c terminator rest)) (omega (arith, length-append c terminator))
  array_body-Sound parse sound c rest (negsuc (suc k)) line e = λ x n h. cc
  array_body-Sound parse sound c rest (pos k) line e = elim (Bool-cases (ltb max_size k)) [
    | inl large ↦ rw large (λ x n h. cc)
    | inr fits ↦ rw fits λ x n h.
        let (xs, (ws, rest', eq, len, all), whole, count) =
          array_elements-Sound parse sound k rest (2 + length c + 1) no_elements x n h in
        (
          b'*' ∷ (c ++ (terminator ++ ws)),
          rest',
          rw (append_assoc c (terminator ++ ws) rest', ← eq),
          omega (arith, length-append c (terminator ++ ws)),
          subst (λ z. Wire lexical_cast max_size z (b'*' ∷ (c ++ (terminator ++ ws)))) (sym whole)
              (items line (rw count e) (rw count (ltb→le max_size k fits)) all),
        )
  ]
