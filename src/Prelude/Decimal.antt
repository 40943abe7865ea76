-- ===== src/Prelude/Decimal.antt =====
-- The decimal print of `std::to_string`, and of `snprintf` at `%zu`.
use Prim.Native.Nat.{ℕ, zero, suc, ◌+◌, ◌-◌, ◌*◌, ◌/◌, ◌%◌, ◌≤◌, ◌<◌}
use mathlib.Core.Path.{◌≡◌, refl, ◌∙◌}
use mathlib.Core.List.{[], ◌∷◌, ◌++◌}
use native.Mathlib.Omega.{arith}
use redis_async.Prelude.Tests.{ltb, if◌then◌else◌, Bool-cases}
use redis_async.Prelude.Lists.{Bytes, length, length-append, All, All-append, codes}
use redis_async.Prelude.Int.{ℤ, pos, negsuc}
use mathlib.Core.Logic.{inl, inr}

-- The number of rounds is bounded by the first argument; `n` rounds are enough for `n`.
unfoldable pub digits : ℕ → ℕ → Bytes
digits zero n = (b'0' + n % 10) ∷ []
digits (suc f) n =
    let rest = digits f (n / 10) in
    if ltb n 10 then (b'0' + n) ∷ [] else rest ++ (b'0' + n % 10) ∷ []

unfoldable pub decimal : ℕ → Bytes
unfolding digits
decimal n = digits n n

unfoldable pub to_string : ℤ → Bytes
unfolding decimal
to_string (pos n) = decimal n
to_string (negsuc n) = b'-' ∷ decimal (suc n)

abbrev pub IsDigit : ℕ → Type 0
IsDigit c = (b'0' ≤ c) × (c ≤ b'9')

digits-IsDigit : (f n : ℕ) → All IsDigit (digits f n)
unfolding digits
digits-IsDigit zero n = omega arith
digits-IsDigit (suc f) n = elim (Bool-cases (ltb n 10)) [
  | inl small ↦ rw small (ground arith)
  | inr large ↦
      rw large (All-append IsDigit (digits f (n / 10)) _ (digits-IsDigit f (n / 10)) (omega arith))
]

-- A decimal print is made of digits.
pub decimal-IsDigit : (n : ℕ) → All IsDigit (decimal n)
unfolding decimal
decimal-IsDigit n = digits-IsDigit n n

pub length-digits_pos : (f n : ℕ) → 0 < length (digits f n)
unfolding digits
length-digits_pos zero n = omega arith
length-digits_pos (suc f) n = elim (Bool-cases (ltb n 10)) [
  | inl small ↦ rw small (omega arith)
  | inr large ↦ rw large (omega (arith, length-append (digits f (n / 10)) ((b'0' + n % 10) ∷ [])))
]

-- The number that digits print, behind a number that was read already.
unfoldable pub value : ℕ → Bytes → ℕ
value n [] = n
value n (c ∷ cs) = value (n * 10 + (c - b'0')) cs

pub value-append : (xs : Bytes) (n c : ℕ) → value n (xs ++ c ∷ []) ≡ value n xs * 10 + (c - b'0')
unfolding value
value-append [] n c = refl
value-append (x ∷ xs) n c = value-append xs (n * 10 + (x - b'0')) c

pub value-digits : (f n : ℕ) → n ≤ f → value 0 (digits f n) ≡ n
unfolding value digits
value-digits zero n h = omega arith
value-digits (suc f) n h = elim (Bool-cases (ltb n 10)) [
  | inl e ↦ rw e (omega arith)
  | inr e ↦
      rw e (
        value-append (digits f (n / 10)) 0 (b'0' + n % 10) ∙ omega (arith, value-digits f (n / 10)))
]

decimal_test : decimal 1230 ≡ codes "1230"
unfolding decimal
decimal_test = refl

to_string_test : to_string (negsuc 554) ≡ codes "-555"
unfolding to_string
to_string_test = refl
