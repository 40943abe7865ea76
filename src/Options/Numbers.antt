-- ===== src/Options/Numbers.antt =====
-- What src/common.cpp uses of the numbers of the standard library: std::stoi, std::stoul and
-- std::chrono::milliseconds.
pub mod Decimals
use redis_async.Prelude.{
  ℕ, zero, suc, ◌+◌, ◌-◌, ◌*◌, ◌%◌, ◌^◌, ◌≡◌, refl, Option, none, some, Bool, true, false, ◌&&◌,
  ◌||◌, [], ◌∷◌, Bytes, codes, ltb, ◌==◌, if◌then◌else◌,
}
use redis_async.Prelude.Int.{ℤ, pos, negsuc}

abbrev pub is_digit : ℕ → Bool
is_digit c = if ltb c b'0' then false else ltb c (suc b'9')

-- `isspace` in the locale "C".
abbrev pub is_space : ℕ → Bool
is_space c = (c == b' ') || (if ltb c 9 then false else ltb c 14)

-- The digits at the front, behind a number that was read already: the number and how many digits.
unfoldable pub read_digits : ℕ → Bytes → ℕ × ℕ
read_digits value [] = (value, 0)
read_digits value (c ∷ cs) =
    let (more, count) = read_digits (value * 10 + (c - b'0')) cs in
    if is_digit c then (more, suc count) else (value, 0)

-- A number with its sign (true for minus) and the position behind it.
abbrev pub signed_at : ℕ → Bool → Bytes → Option (Bool × (ℕ × ℕ))
signed_at before minus cs =
    let (value, count) = read_digits 0 cs in
    if count == 0 then none else some (minus, (value, before + count))

-- `strtol` and `strtoul` at base 10: white space, a sign, digits.
unfoldable pub read_number : ℕ → Bytes → Option (Bool × (ℕ × ℕ))
unfolding read_digits
read_number before [] = none
read_number before (c ∷ cs) =
    let behind = read_number (suc before) cs in
    if is_space c
    then behind
    else if c == b'-'
    then signed_at (suc before) true cs
    else if c == b'+'
    then signed_at (suc before) false cs
    else signed_at before false (c ∷ cs)

abbrev pub fits_int : Option (Bool × (ℕ × ℕ)) → Bool
fits_int none = false
fits_int (some (true, (value, at))) = ltb value (suc (2 ^ 31))
fits_int (some (false, (value, at))) = ltb value (2 ^ 31)

-- Whether `std::stoi` returns: there is a number, and an `int` holds it.
unfoldable pub stoi_returns : Bytes → Bool
unfolding read_number
stoi_returns str = fits_int (read_number 0 str)

-- `std::stoul`, none where it throws: the value, a negative number modulo 2^64, and the position.
unfoldable pub stoul : Bytes → Option (ℕ × ℕ)
unfolding read_number
stoul str = elim (read_number 0 str) [
  | none ↦ none
  | some (minus, (value, at)) ↦
      if ltb value (2 ^ 64)
      then some (if minus then (2 ^ 64 - value) % 2 ^ 64 else value, at)
      else none
]

-- The count of a duration, of the type `int64_t`, from a `size_t`.
unfoldable pub to_int64 : ℕ → ℤ
to_int64 n = if ltb n (2 ^ 63) then pos n else negsuc (2 ^ 64 - 1 - n)

-- The conversion of a duration to a shorter unit. Where the product is not in `int64_t` the
-- behaviour of the source is undefined; here it is the product.
unfoldable pub scale : ℕ → ℤ → ℤ
scale k (pos n) = pos (k * n)
scale zero (negsuc n) = pos 0
scale (suc k) (negsuc n) = negsuc (suc k * suc n - 1)

stoul_test : stoul (codes " +50ms") ≡ some (50, 4)
unfolding stoul
stoul_test = refl

stoul_negative_test : stoul (codes "-1") ≡ some (18446744073709551615, 2)
unfolding stoul
stoul_negative_test = refl
