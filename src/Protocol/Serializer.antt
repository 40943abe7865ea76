-- ===== src/Protocol/Serializer.antt =====
-- The writer of commands: include/redis_async/details/protocol/serializer.hpp. A buffer is the list
-- of its bytes; a write that would leave it has no result.
pub mod Sizes
pub mod Layout
use Prim.Native.Nat.{max}
use redis_async.Prelude.{
  ℕ, zero, suc, ◌+◌, ◌-◌, ◌/◌, ◌≡◌, refl, Option, none, some, [], ◌∷◌, ◌++◌, List, Bytes, codes,
  length, take, drop, replicate, ltb, ◌==◌, if◌then◌else◌,
}
use redis_async.Prelude.Decimal.{decimal}
use redis_async.Commands.Types.{SingleCommand, CommandWrapper, container, single}

abbrev pub terminator_size : ℕ
terminator_size = 2

-- `while (arg)`; the first argument bounds the rounds.
unfoldable pub count_digits : ℕ → ℕ → ℕ → ℕ
count_digits zero arg r = r
count_digits (suc rounds) arg r =
    let rest = count_digits rounds (arg / 10) (r + 1) in if arg == 0 then r else rest

unfoldable pub size_for_int : ℕ → ℕ
unfolding count_digits
size_for_int arg = max 1 (count_digits arg arg 0)

-- The loop of `command_size`, from the sum so far.
unfoldable pub add_arguments_size : List Bytes → ℕ → ℕ
add_arguments_size [] sz = sz
add_arguments_size (arg ∷ args) sz =
    add_arguments_size args
      (sz + (1 + size_for_int (length arg) + terminator_size + length arg + terminator_size))

unfoldable pub command_size : SingleCommand → ℕ
unfolding add_arguments_size
command_size cmd =
    add_arguments_size cmd.arguments (1 + size_for_int (length cmd.arguments) + terminator_size)

-- `std::memcpy` to `buff.data() + total`.
unfoldable pub write_at : Bytes → ℕ → Bytes → Option Bytes
write_at buff total ws =
    if ltb (length buff) (total + length ws)
    then none
    else some (take total buff ++ (ws ++ drop (total + length ws) buff))

-- `snprintf` to `buff.data() + total`: at most `size` bytes with the NUL, and no byte if it is 0.
unfoldable pub snprintf_at : Bytes → ℕ → ℕ → Bytes → Option Bytes
unfolding write_at
snprintf_at buff total zero text = some buff
snprintf_at buff total (suc size) text = write_at buff total (take size text ++ 0 ∷ [])

-- A write after another; `do` blocks below stand for it.
infixl 5 ◌>>=◌
unfoldable pub ◌>>=◌ : {A B : Type 0} → Option A → (A → Option B) → Option B
none >>= f = none
some a >>= f = f a

pub >>=-some :
    {A B : Type 0} {m : Option A} {a : A} (f : A → Option B) {r : Option B}
    → m ≡ some a
    → f a ≡ r
    → (m >>= f) ≡ r
unfolding ◌>>=◌
>>=-some f e h = rw e h

-- "$%zu\r\n" and "*%zu\r\n" at a number.
unfoldable pub format_count : ℕ → ℕ → Bytes
format_count intro n = intro ∷ (decimal n ++ 13 ∷ 10 ∷ [])

-- The copy of an argument, which an empty one skips.
unfoldable pub copy_argument : Bytes → ℕ → Bytes → Option Bytes
copy_argument buff total arg = if length arg == 0 then some buff else write_at buff total arg

-- One round of the loop over the arguments: the buffer, and the new `total`.
unfoldable pub write_argument : Bytes → ℕ → ℕ → Bytes → Option (Bytes × ℕ)
write_argument buff total size arg = do
  let text = format_count b'$' (length arg)
  counted ← snprintf_at buff total size text
  let after_count = total + length text
  filled ← copy_argument counted after_count arg
  let after_arg = after_count + length arg
  returned ← write_at filled after_arg (13 ∷ [])
  fed ← write_at returned (after_arg + 1) (10 ∷ [])
  some (fed, after_arg + 2)

unfoldable pub write_arguments : Bytes → ℕ → ℕ → List Bytes → Option Bytes
write_arguments buff total size [] = some buff
write_arguments buff total size (arg ∷ args) = do
  (written, after) ← write_argument buff total size arg
  write_arguments written after size args

-- `Protocol::serialize` of one command.
unfoldable pub serialize : Bytes → SingleCommand → Option Bytes
serialize buff cmd = do
  let total = length buff
  let size = command_size cmd
  let resized = buff ++ replicate size 0
  let text = format_count b'*' (length cmd.arguments)
  counted ← snprintf_at resized total size text
  write_arguments counted (total + length text) size cmd.arguments

-- `Protocol::serialize` of several commands.
unfoldable pub serialize_container : Bytes → List SingleCommand → Option Bytes
serialize_container buff [] = some buff
serialize_container buff (cmd ∷ cmds) = do
  written ← serialize buff cmd
  serialize_container written cmds

-- `command_serializer_visitor`.
unfoldable pub visit : Bytes → CommandWrapper → Option Bytes
visit buff (container cmds) = serialize_container buff cmds
visit buff (single cmd) = serialize buff cmd

ping_test :
    serialize [] (record { arguments = codes "PING" ∷ codes "" ∷ [] })
    ≡ some (codes "*2\r\n$4\r\nPING\r\n$0\r\n\r\n")
unfolding ◌>>=◌ serialize write_arguments write_argument copy_argument snprintf_at format_count
    command_size size_for_int decimal
ping_test = refl
