-- ===== src/Protocol/Serializer/Layout.antt =====
-- What include/redis_async/details/protocol/serializer.hpp leaves in the buffer.
use redis_async.Prelude.{
  ℕ, zero, suc, ◌+◌, ◌-◌, ◌≤◌, ◌<◌, ◌≡◌, ◌≢◌, refl, ap, sym, subst, ◌∙◌, Option, some, false, [],
  ◌∷◌, ◌++◌, List, Bytes, length, drop, replicate, length-append, length-drop, drop-append_add,
  take_all, length-replicate, All, append_assoc, append-nil, take-append_length, ◌==◌, le→ltb,
  arith,
}
use redis_async.Prelude.Decimal.{decimal}
use redis_async.Commands.Types.{SingleCommand}
use redis_async.Protocol.Serializer.{
  command_size, size_for_int, format_count, write_at, snprintf_at, copy_argument, write_argument,
  write_arguments, serialize, serialize_container, ◌>>=◌, >>=-some,
}
use redis_async.Protocol.Serializer.Sizes.{arguments_size, command_size-eq, length-format_count}

-- The text of a command: its count of arguments, and each as a bulk string.
unfoldable pub encode_arguments : List Bytes → Bytes
encode_arguments [] = []
encode_arguments (arg ∷ args) =
    format_count b'$' (length arg) ++ (arg ++ (13 ∷ 10 ∷ encode_arguments args))

unfoldable pub encode : SingleCommand → Bytes
encode cmd = format_count b'*' (length cmd.arguments) ++ encode_arguments cmd.arguments

-- The buffer after a write: what stands before `total`, then `room` bytes to come.
abbrev Filled : Option Bytes → Bytes → ℕ → Type 0
Filled r before room = (pad : Bytes) × (r ≡ some (before ++ pad)) × (length pad ≡ room)

write_at-Filled :
    (before pad ws : Bytes) (total : ℕ)
    → total ≡ length before
    → length ws ≤ length pad
    → Filled (write_at (before ++ pad) total ws) (before ++ ws) (length pad - length ws)
unfolding write_at
write_at-Filled before pad ws total e h = (
  drop (length ws) pad,
  rw (
    e,
    length-append before pad,
    le→ltb (length before + length pad) (length before + length ws) (omega arith),
    take-append_length before pad,
    drop-append_add (length before + length ws) before pad (length ws) refl,
    append_assoc before ws (drop (length ws) pad),
  ),
  length-drop (length ws) pad,
)

-- The NUL of `snprintf` falls into the room that is left, and a later write covers it.
snprintf_at-Filled :
    (before pad text : Bytes) (total size : ℕ)
    → total ≡ length before
    → length text < size
    → length text < length pad
    → Filled
        (snprintf_at (before ++ pad) total size text)
        (before ++ text)
        (length pad - length text)
unfolding snprintf_at
snprintf_at-Filled before pad text total zero e fits h = absurd (omega arith)
snprintf_at-Filled before pad text total (suc size) e fits h =
    let len = length-append text (0 ∷ []) in
    let (rest, written, room) = write_at-Filled before pad (text ++ 0 ∷ []) total e (omega arith) in
    (
      0 ∷ rest,
      rw (
        take_all size text (omega arith),
        written,
        append_assoc before (text ++ 0 ∷ []) rest,
        append_assoc text (0 ∷ []) rest,
        append_assoc before text (0 ∷ rest),
      ),
      omega arith,
    )

copy_argument-Filled :
    (before pad ws : Bytes) (total : ℕ)
    → total ≡ length before
    → length ws ≤ length pad
    → Filled (copy_argument (before ++ pad) total ws) (before ++ ws) (length pad - length ws)
unfolding copy_argument
copy_argument-Filled before pad [] total e h = (pad, rw (append-nil before), omega arith)
copy_argument-Filled before pad (b ∷ ws) total e h =
    let ne : (suc (length ws) == 0) ≡ false = ground arith in
    rw ne (write_at-Filled before pad (b ∷ ws) total e h)

-- The write after a write, for any bytes that the first one leaves behind it.
bind-Filled :
    {B : Type 0} {m : Option Bytes} (before : Bytes) {room : ℕ} (f : Bytes → Option B)
    (P : Option B → Type 0)
    → Filled m before room
    → ((pad : Bytes) → length pad ≡ room → P (f (before ++ pad)))
    → P (m >>= f)
bind-Filled before f P (pad, e, l) k = subst P (sym (>>=-some f e refl)) (k pad l)

-- The same of a pair of the buffer and the place behind it.
abbrev FilledTo : Bytes → ℕ → ℕ → Option (Bytes × ℕ) → Type 0
FilledTo before after room r =
    (pad : Bytes) × (r ≡ some (before ++ pad, after)) × (length pad ≡ room)

abbrev argument_text : Bytes → Bytes
argument_text arg = format_count b'$' (length arg)

write_argument-Filled :
    (before pad arg : Bytes) (total size room : ℕ)
    → total ≡ length before
    → length (argument_text arg) < size
    → length pad ≡ length (argument_text arg) + (length arg + (2 + room))
    → FilledTo
        ((((before ++ argument_text arg) ++ arg) ++ 13 ∷ []) ++ 10 ∷ [])
        (total + length (argument_text arg) + length arg + 2)
        room
        (write_argument (before ++ pad) total size arg)
unfolding write_argument
write_argument-Filled before pad arg total size room e fits h =
    bind-Filled b₁ _ P (snprintf_at-Filled before pad text total size e fits (omega arith)) λ p₁ l₁.
      bind-Filled b₂ _ P (copy_argument-Filled b₁ p₁ arg _ n₁ (omega arith)) λ p₂ l₂.
        bind-Filled b₃ _ P (write_at-Filled b₂ p₂ (13 ∷ []) _ n₂ (omega arith)) λ p₃ l₃.
          bind-Filled b₄ _ P (write_at-Filled b₃ p₃ (10 ∷ []) _ n₃ (omega arith))
            λ p₄ l₄. (p₄, refl, omega arith)
  where
    text : Bytes
    text = argument_text arg

    b₁ : Bytes
    b₁ = before ++ text

    b₂ : Bytes
    b₂ = b₁ ++ arg

    b₃ : Bytes
    b₃ = b₂ ++ 13 ∷ []

    b₄ : Bytes
    b₄ = b₃ ++ 10 ∷ []

    P : Option (Bytes × ℕ) → Type 0
    P = FilledTo b₄ (total + length text + length arg + 2) room

    n₁ : total + length text ≡ length b₁
    n₁ = omega (arith, length-append before text)

    n₂ : total + length text + length arg ≡ length b₂
    n₂ = omega (arith, n₁, length-append b₁ arg)

    n₃ : total + length text + length arg + 1 ≡ length b₃
    n₃ = omega (arith, n₂, length-append b₂ (13 ∷ []))

length-zero : (bs : Bytes) → length bs ≡ 0 → bs ≡ []
length-zero [] e = refl
length-zero (b ∷ bs) e = absurd (omega arith)

-- The last regrouping of `write_arguments-Filled`.
append_argument :
    (before text arg rest : Bytes)
    → ((((before ++ text) ++ arg) ++ 13 ∷ []) ++ 10 ∷ []) ++ rest
      ≡ before ++ (text ++ (arg ++ (13 ∷ 10 ∷ rest)))
append_argument before text arg rest = simp append_assoc

length-append_argument :
    (before text arg : Bytes)
    → length ((((before ++ text) ++ arg) ++ 13 ∷ []) ++ 10 ∷ [])
      ≡ length before + length text + length arg + 2
length-append_argument before text arg = omega (
  arith,
  length-append before text,
  length-append (before ++ text) arg,
  length-append ((before ++ text) ++ arg) (13 ∷ []),
  length-append (((before ++ text) ++ arg) ++ 13 ∷ []) (10 ∷ []),
)

write_arguments-Filled :
    (args : List Bytes) (before pad : Bytes) (total size : ℕ)
    → total ≡ length before
    → arguments_size args < size
    → length pad ≡ arguments_size args
    → write_arguments (before ++ pad) total size args ≡ some (before ++ encode_arguments args)
unfolding write_arguments encode_arguments
write_arguments-Filled [] before pad total size e fits h = rw (length-zero pad h)
write_arguments-Filled (arg ∷ args) before pad total size e fits h =
    let (pad', written, room) =
      write_argument-Filled before pad arg total size (arguments_size args) e (omega arith) h in
    >>=-some _ written (
      write_arguments-Filled args ((((before ++ argument_text arg) ++ arg) ++ 13 ∷ []) ++ 10 ∷ [])
        pad' (total + length (argument_text arg) + length arg + 2) size
        (omega (arith, length-append_argument before (argument_text arg) arg)) (omega arith) room
      ∙ ap some (append_argument before (argument_text arg) arg (encode_arguments args)))

arguments_size-pos : (args : List Bytes) → args ≢ [] → 0 < arguments_size args
arguments_size-pos [] h = absurd (h refl)
arguments_size-pos (arg ∷ args) h = omega arith

-- A command with a name or an argument is written whole behind what the buffer held, and no write
-- leaves the room that was made for it.
pub serialize-eq-encode :
    (buff : Bytes) (cmd : SingleCommand)
    → cmd.arguments ≢ []
    → serialize buff cmd ≡ some (buff ++ encode cmd)
unfolding serialize encode
serialize-eq-encode buff cmd h =
    let total = command_size-eq cmd in
    let some_bytes = arguments_size-pos cmd.arguments h in
    let resized : length (replicate {A = ℕ} (command_size cmd) 0) ≡ command_size cmd =
      length-replicate (command_size cmd) 0 in
    let (pad, counted, room) =
      snprintf_at-Filled buff (replicate (command_size cmd) 0)
        (format_count b'*' (length cmd.arguments)) (length buff) (command_size cmd) refl
        (omega arith) (omega arith) in
    >>=-some _ counted (
      write_arguments-Filled cmd.arguments (buff ++ format_count b'*' (length cmd.arguments)) pad
        (length buff + length (format_count b'*' (length cmd.arguments))) (command_size cmd)
        (sym (length-append buff (format_count b'*' (length cmd.arguments))))
        (omega (arith, length-format_count b'*' (length cmd.arguments))) (omega arith)
      ∙ ap some (
          append_assoc buff (format_count b'*' (length cmd.arguments))
            (encode_arguments cmd.arguments)))

-- The same for each command of a container, one behind the other.
abbrev pub encode_all : List SingleCommand → Bytes
encode_all [] = []
encode_all (cmd ∷ cmds) = encode cmd ++ encode_all cmds

-- A container of commands that each have a name or an argument is written as their texts, one behind
-- the other, behind what the buffer held.
pub serialize_container-eq-encode :
    (cmds : List SingleCommand) (buff : Bytes)
    → All (λ cmd. cmd.arguments ≢ []) cmds
    → serialize_container buff cmds ≡ some (buff ++ encode_all cmds)
unfolding serialize_container
serialize_container-eq-encode [] buff h = rw (append-nil buff)
serialize_container-eq-encode (cmd ∷ cmds) buff h = >>=-some _ (serialize-eq-encode buff cmd h.0) (
    serialize_container-eq-encode cmds (buff ++ encode cmd) h.1
    ∙ ap some (append_assoc buff (encode cmd) (encode_all cmds)))

-- A command with no argument, which the default constructor makes, is written as the count 0, a
-- carriage return and a NUL in place of the line feed.
pub serialize-empty :
    (buff : Bytes)
    → serialize buff (record { arguments = [] }) ≡ some (buff ++ (b'*' ∷ b'0' ∷ 13 ∷ 0 ∷ []))
unfolding serialize write_arguments snprintf_at format_count command_size size_for_int decimal
serialize-empty buff =
    let text : Bytes = b'*' ∷ b'0' ∷ 13 ∷ 0 ∷ [] in
    let (pad, written, room) =
      write_at-Filled buff (0 ∷ 0 ∷ 0 ∷ 0 ∷ []) text (length buff) refl (omega arith) in
    >>=-some _ written (
      ap (λ ws. some ((buff ++ text) ++ ws)) (length-zero pad room)
      ∙ ap some (append-nil (buff ++ text)))
