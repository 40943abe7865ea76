-- ===== src/Tests/Cast.antt =====
-- A reader of decimal numbers in the range of `int64_t`, in place of `boost::lexical_cast`.
use redis_async.Prelude.{
  ℕ, zero, suc, ◌+◌, ◌^◌, ◌<◌, ◌≡◌, refl, ◌∙◌, subst, inl, inr, Option, none, some, Bool, true,
  ◌&&◌, [], ◌∷◌, Bytes, length, All, ltb, leb, ◌==◌, lt→ltb, Bool-cases, if◌then◌else◌, arith,
  codes,
}
use native.Mathlib.Nat.{le_refl}
use redis_async.Prelude.Int.{ℤ, pos, negsuc, IsInt64}
use redis_async.Prelude.Decimal.{
  value, value-digits, digits, decimal, IsDigit, decimal-IsDigit, length-digits_pos,
}
use redis_async.Protocol.Parser.Bounds.{CastsToInt64}
use redis_async.Protocol.RoundTrip.{ReadsDecimals}

all_digits : Bytes → Bool
all_digits [] = true
all_digits (c ∷ cs) = (leb b'0' c && leb c b'9') && all_digits cs

unsigned : Bytes → Option ℤ
unsigned bs = let n = value 0 bs in if all_digits bs && ltb n (2 ^ 63) then some (pos n) else none

negative : ℕ → ℤ
negative zero = pos zero
negative (suc n) = negsuc n

signed : Bytes → Option ℤ
signed [] = none
signed (c ∷ cs) =
    let n = value 0 (c ∷ cs) in
    if all_digits (c ∷ cs) && ltb n (2 ^ 63 + 1) then some (negative n) else none

unfoldable pub read_int : Bytes → Option ℤ
unfolding value all_digits unsigned negative signed
read_int [] = none
read_int (c ∷ cs) = if c == b'-' then signed cs else unsigned (c ∷ cs)

negative-IsInt64 : (n : ℕ) → n < 2 ^ 63 + 1 → IsInt64 (negative n)
unfolding negative
negative-IsInt64 zero h = omega arith
negative-IsInt64 (suc n) h = omega arith

unsigned-IsInt64 : (bs : Bytes) (k : ℤ) → unsigned bs ≡ some k → IsInt64 k
unfolding unsigned
unsigned-IsInt64 bs (pos n) h = ground arith
unsigned-IsInt64 bs (negsuc n) h = ground arith

signed-IsInt64 : (bs : Bytes) (k : ℤ) → signed bs ≡ some k → IsInt64 k
unfolding signed
signed-IsInt64 [] k h = cc
signed-IsInt64 (c ∷ cs) k h =
    elim (Bool-cases (all_digits (c ∷ cs) && ltb (value 0 (c ∷ cs)) (2 ^ 63 + 1))) [
      | inl e ↦ subst IsInt64 (cc (rw e at h)) (negative-IsInt64 (value 0 (c ∷ cs)) (ground arith))
      | inr e ↦ absurd (cc (rw e at h))
    ]

pub read_int-CastsToInt64 : CastsToInt64 read_int
unfolding read_int
read_int-CastsToInt64 [] k h = cc
read_int-CastsToInt64 (c ∷ cs) k h = elim (Bool-cases (c == b'-')) [
  | inl e ↦ signed-IsInt64 cs k (rw e at h)
  | inr e ↦ unsigned-IsInt64 (c ∷ cs) k (rw e at h)
]

all_digits-IsDigit : (bs : Bytes) → All IsDigit bs → all_digits bs ≡ true
unfolding all_digits
all_digits-IsDigit [] h = refl
all_digits-IsDigit (c ∷ cs) h = ground (arith, all_digits-IsDigit cs h.1)

read_int-unsigned : (bs : Bytes) → 0 < length bs → All IsDigit bs → read_int bs ≡ unsigned bs
unfolding read_int
read_int-unsigned [] h d = absurd (omega arith)
read_int-unsigned (c ∷ cs) h d = ground arith

pub read_int-ReadsDecimals : ReadsDecimals read_int
unfolding decimal unsigned
read_int-ReadsDecimals n h =
    read_int-unsigned (digits n n) (length-digits_pos n n) (decimal-IsDigit n)
    ∙ rw (
      all_digits-IsDigit (digits n n) (decimal-IsDigit n),
      value-digits n n (le_refl n),
      lt→ltb n (2 ^ 63) h,
    )

read_int_test :
    (read_int (codes "-555423") ≡ some (negsuc 555422)) × (read_int (codes "12a") ≡ none)
unfolding read_int
read_int_test = (refl, refl)
