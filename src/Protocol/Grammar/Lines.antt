-- ===== src/Protocol/Grammar/Lines.antt =====
-- The lines of a buffer, found by the search of
-- include/redis_async/details/protocol/parser.hpp.
use redis_async.Prelude.{
  ℕ, suc, ◌≡◌, ◌≢◌, refl, ap, sym, subst, ◌⊎◌, inl, inr, true, false, [], ◌∷◌, ◌++◌, Bytes, length,
  starts_with, ◌==◌, Bool-cases, ==_iff, arith,
}
use redis_async.Protocol.Types.{protocol_error, not_enough_data}
use redis_async.Protocol.Parser.{terminator, search, string_parser}
use redis_async.Protocol.Grammar.{IsLine}

-- A line at the front of `bs`, and what follows its terminator.
abbrev pub Line : Bytes → Bytes → Bytes → Type 0
Line s rest bs = (bs ≡ s ++ (terminator ++ rest)) × IsLine s

pub starts_with→append :
    (ps bs : Bytes) → starts_with ps bs ≡ true → (rest : Bytes) × (bs ≡ ps ++ rest)
starts_with→append [] bs h = (bs, refl)
starts_with→append (p ∷ ps) [] h = cc
starts_with→append (p ∷ ps) (b ∷ bs) h = elim (Bool-cases (p == b)) [
  | inl e ↦
      let (rest, eq) = starts_with→append ps bs (rw e at h) in
      (rest, rw (← eq) (ap (λ c. c ∷ bs) (sym ((==_iff p b).0 e))))
  | inr e ↦ absurd (cc (rw e at h))
]

IsLine-cons :
    (b : ℕ) (s rest : Bytes)
    → starts_with terminator (b ∷ (s ++ (terminator ++ rest))) ≡ false
    → IsLine s
    → IsLine (b ∷ s)
IsLine-cons b [] rest h l = (ground arith, tt)
IsLine-cons b (c ∷ s) rest h l = (h, l)

search_split :
    (bs : Bytes)
    → search bs ≢ length bs
    → (s : Bytes) × (rest : Bytes) × Line s rest bs × (search bs ≡ length s)
unfolding search
search_split [] h = absurd (h refl)
search_split (b ∷ bs) h = elim (Bool-cases (starts_with terminator (b ∷ bs))) [
  | inl e ↦ let (rest, eq) = starts_with→append terminator (b ∷ bs) e in ([], rest, (eq, tt), rw e)
  | inr e ↦
      let (s, rest, (eq, line), n) = search_split bs λ x. h (rw e (ap suc x)) in
      (
        b ∷ s,
        rest,
        (
          ap (◌∷◌ b) eq,
          IsLine-cons b s rest (subst (λ cs. starts_with terminator (b ∷ cs) ≡ false) eq e) line,
        ),
        rw e (ap suc n),
      )
]

-- A buffer begins with a line, or the parsers ask for more.
pub split_cases :
    (bs : Bytes)
    → ((before : ℕ) → string_parser bs before ≡ protocol_error not_enough_data)
      ⊎ ((s : Bytes) × (rest : Bytes) × Line s rest bs)
unfolding string_parser
split_cases bs = elim (Bool-cases (search bs == length bs)) [
  | inl e ↦ inl (λ before. rw e)
  | inr e ↦ let (s, rest, line, found) = search_split bs (ground arith) in inr (s, rest, line)
]
