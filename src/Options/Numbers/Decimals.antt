-- ===== src/Options/Numbers/Decimals.antt =====
-- std::stoi on a text that begins with a decimal print.
use redis_async.Prelude.{
  ℕ, ◌+◌, ◌-◌, ◌*◌, ◌^◌, ◌<◌, ◌≡◌, refl, ap, ◌∙◌, some, true, false, [], ◌∷◌, ◌++◌, Bytes, All,
  length, lt→ltb, ◌==◌, arith,
}
use native.Mathlib.Nat.{le_refl}
use redis_async.Prelude.Decimal.{
  value, value-digits, digits, decimal, IsDigit, decimal-IsDigit, length-digits_pos,
}
use redis_async.Options.Numbers.{
  is_digit, is_space, read_digits, read_number, stoi_returns, fits_int,
}

-- The text does not begin with a digit.
abbrev pub EndsNumber : Bytes → Type 0
EndsNumber [] = Unit
EndsNumber (c ∷ cs) = is_digit c ≡ false

read_digits_none : (v : ℕ) (rest : Bytes) → EndsNumber rest → read_digits v rest ≡ (v, 0)
unfolding read_digits
read_digits_none v [] h = refl
read_digits_none v (c ∷ cs) h = rw h refl

is_digit-true : (c : ℕ) → IsDigit c → is_digit c ≡ true
is_digit-true c h = ground arith

read_digits-append :
    (v : ℕ) (xs rest : Bytes)
    → All IsDigit xs
    → EndsNumber rest
    → read_digits v (xs ++ rest) ≡ (value v xs, length xs)
unfolding read_digits value
read_digits-append v [] rest d h = read_digits_none v rest h
read_digits-append v (x ∷ xs) rest d h =
    rw (is_digit-true x d.0, read_digits-append (v * 10 + (x - b'0')) xs rest d.1 h) refl

digit-is_space : (c : ℕ) → IsDigit c → is_space c ≡ false
digit-is_space c h = ground arith

digit-is_minus : (c : ℕ) → IsDigit c → (c == b'-') ≡ false
digit-is_minus c h = ground arith

digit-is_plus : (c : ℕ) → IsDigit c → (c == b'+') ≡ false
digit-is_plus c h = ground arith

read_number-digits :
    (xs rest : Bytes)
    → 0 < length xs
    → All IsDigit xs
    → EndsNumber rest
    → read_number 0 (xs ++ rest) ≡ some (false, (value 0 xs, length xs))
unfolding read_number
read_number-digits [] rest l d h = absurd (omega arith)
read_number-digits (x ∷ xs) rest l d h =
    rw
      (
        digit-is_space x d.0,
        digit-is_minus x d.0,
        digit-is_plus x d.0,
        read_digits-append 0 (x ∷ xs) rest d h,
      )
      (ground arith)

pub stoi_returns-decimal :
    (n : ℕ) (rest : Bytes) → n < 2 ^ 31 → EndsNumber rest → stoi_returns (decimal n ++ rest) ≡ true
unfolding stoi_returns decimal
stoi_returns-decimal n rest small h =
    ap fits_int (read_number-digits (digits n n) rest (length-digits_pos n n) (decimal-IsDigit n) h)
    ∙ rw (value-digits n n (le_refl n), lt→ltb n (2 ^ 31) small) refl
