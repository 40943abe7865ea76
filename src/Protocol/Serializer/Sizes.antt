-- ===== src/Protocol/Serializer/Sizes.antt =====
-- The sizes that include/redis_async/details/protocol/serializer.hpp computes, and the bytes that
-- they are the sizes of.
use redis_async.Prelude.{
  ℕ, zero, suc, ◌+◌, ◌/◌, ◌%◌, ◌≤◌, ◌<◌, ◌≡◌, refl, inl, inr, [], ◌∷◌, List, Bytes, length,
  length-append, ltb, Bool-cases, arith,
}
use native.Mathlib.Nat.{le_refl}
use redis_async.Prelude.Decimal.{digits, decimal, length-digits_pos}
use redis_async.Commands.Types.{SingleCommand}
use redis_async.Protocol.Serializer.{
  count_digits, size_for_int, add_arguments_size, command_size, format_count,
}

count_digits-zero : (f n r : ℕ) → n ≡ 0 → count_digits f n r ≡ r
unfolding count_digits
count_digits-zero zero n r e = refl
count_digits-zero (suc f) n r e = ground arith

-- The loop counts the digits that are printed, if the rounds are enough.
count_digits-digits :
    (f g n r : ℕ) → 0 < n → n ≤ f → n ≤ g → count_digits f n r ≡ r + length (digits g n)
unfolding count_digits digits
count_digits-digits zero g n r p hf hg = absurd (omega arith)
count_digits-digits (suc f) zero n r p hf hg = absurd (omega arith)
count_digits-digits (suc f) (suc g) n r p hf hg = elim (Bool-cases (ltb n 10)) [
  | inl small ↦ ground (arith, count_digits-zero f (n / 10) (r + 1))
  | inr large ↦ ground (
    arith,
    count_digits-digits f g (n / 10) (r + 1),
    length-append (digits g (n / 10)) ((b'0' + n % 10) ∷ []),
  )
]

size_for_int-digits : (n : ℕ) → 0 < n → size_for_int n ≡ length (digits n n)
unfolding size_for_int
size_for_int-digits n h =
    omega (arith, count_digits-digits n n n 0 h (le_refl n) (le_refl n), length-digits_pos n n)

-- `size_for_int` is the number of characters that `%zu` prints, 0 included.
pub size_for_int-eq-length : (n : ℕ) → size_for_int n ≡ length (decimal n)
unfolding decimal
size_for_int-eq-length zero = unfold size_for_int digits in refl
size_for_int-eq-length (suc n) = size_for_int-digits (suc n) (omega arith)

pub length-format_count : (intro n : ℕ) → length (format_count intro n) ≡ 1 + size_for_int n + 2
unfolding format_count
length-format_count intro n =
    omega (arith, size_for_int-eq-length n, length-append (decimal n) (13 ∷ 10 ∷ []))

-- The bytes that a run of arguments takes.
abbrev pub arguments_size : List Bytes → ℕ
arguments_size [] = 0
arguments_size (arg ∷ args) =
    length (format_count b'$' (length arg)) + (length arg + (2 + arguments_size args))

add_arguments_size-eq :
    (args : List Bytes) (sz : ℕ) → add_arguments_size args sz ≡ sz + arguments_size args
unfolding add_arguments_size
add_arguments_size-eq [] sz = omega arith
add_arguments_size-eq (arg ∷ args) sz = omega (
  arith,
  add_arguments_size-eq args (sz + (1 + size_for_int (length arg) + 2 + length arg + 2)),
  length-format_count b'$' (length arg),
)

pub command_size-eq :
    (cmd : SingleCommand)
    → command_size cmd
      ≡ length (format_count b'*' (length cmd.arguments)) + arguments_size cmd.arguments
unfolding command_size
command_size-eq cmd = omega (
  arith,
  add_arguments_size-eq cmd.arguments (1 + size_for_int (length cmd.arguments) + 2),
  length-format_count b'*' (length cmd.arguments),
)
