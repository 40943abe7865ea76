-- ===== src/Protocol/RoundTrip.antt =====
-- A command that include/redis_async/details/protocol/serializer.hpp wrote, read by
-- include/redis_async/details/protocol/parser.hpp.
use redis_async.Prelude.{
  ℕ, suc, ◌^◌, ◌≤◌, ◌<◌, ◌≡◌, ◌≢◌, refl, ap, sym, subst, ◌∙◌, Option, some, [], ◌∷◌, ◌++◌, List,
  Bytes, length, length-append, All, append_assoc, arith,
}
use redis_async.Prelude.Int.{ℤ, pos}
use redis_async.Prelude.Decimal.{decimal, decimal-IsDigit, IsDigit}
use redis_async.Commands.Types.{SingleCommand}
use redis_async.Protocol.Types.{Elements, string, array, no_elements, element, size, positive, done}
use redis_async.Protocol.Parser.{terminator, parse}
use redis_async.Protocol.Parser.Bounds.{CastsToInt64}
use redis_async.Protocol.Grammar.{IsLine, Wire, WireAll, bulk, items, none_left, followed}
use redis_async.Protocol.Grammar.Complete.{parse-Wire}
use redis_async.Protocol.Serializer.{command_size, format_count, serialize}
use redis_async.Protocol.Serializer.Sizes.{arguments_size, command_size-eq}
use redis_async.Protocol.Serializer.Layout.{encode_arguments, encode, serialize-eq-encode}

-- The elements of the array that stands for a list of texts.
unfoldable pub strings : List Bytes → Elements
strings [] = no_elements
strings (arg ∷ args) = element (string arg) (strings args)

-- What is asked of `boost::lexical_cast<int_t>` here: it reads a decimal print in its range.
abbrev pub ReadsDecimals : (Bytes → Option ℤ) → Type 0
ReadsDecimals lexical_cast = (n : ℕ) → n < 2 ^ 63 → lexical_cast (decimal n) ≡ some (pos n)

digits-IsLine : (bs : Bytes) → All IsDigit bs → IsLine bs
digits-IsLine [] h = tt
digits-IsLine (b ∷ []) h = (ground arith, tt)
digits-IsLine (b ∷ c ∷ bs) h = (ground arith, digits-IsLine (c ∷ bs) h.1)

size-strings : (args : List Bytes) → size (strings args) ≡ length args
unfolding size strings
size-strings [] = refl
size-strings (arg ∷ args) = ap suc (size-strings args)

length-encode_arguments : (args : List Bytes) → length (encode_arguments args) ≡ arguments_size args
unfolding encode_arguments
length-encode_arguments [] = refl
length-encode_arguments (arg ∷ args) = omega (
  arith,
  length-append (format_count b'$' (length arg)) (arg ++ (13 ∷ 10 ∷ encode_arguments args)),
  length-append arg (13 ∷ 10 ∷ encode_arguments args),
  length-encode_arguments args,
)

pub length-encode : (cmd : SingleCommand) → length (encode cmd) ≡ command_size cmd
unfolding encode
length-encode cmd = omega (
  arith,
  length-append (format_count b'*' (length cmd.arguments)) (encode_arguments cmd.arguments),
  length-encode_arguments cmd.arguments,
  command_size-eq cmd,
)

-- The texts are short enough for the server's counts, which are of `int64_t`.
abbrev pub Fits : ℕ → SingleCommand → Type 0
Fits max_size cmd =
    (length cmd.arguments < 2 ^ 63)
    × (length cmd.arguments ≤ max_size)
    × All (λ arg. length arg < 2 ^ 63) cmd.arguments

regroup :
    (count arg rest : Bytes)
    → (b'$' ∷ (count ++ (terminator ++ (arg ++ terminator)))) ++ rest
      ≡ (b'$' ∷ (count ++ 13 ∷ 10 ∷ [])) ++ (arg ++ (13 ∷ 10 ∷ rest))
regroup count arg rest = simp append_assoc

module _ (lexical_cast : Bytes → Option ℤ) (max_size : ℕ) (reads : ReadsDecimals lexical_cast) where
  encode_arguments-WireAll :
      (args : List Bytes)
      → All (λ arg. length arg < 2 ^ 63) args
      → WireAll lexical_cast max_size (strings args) (encode_arguments args)
  unfolding strings encode_arguments format_count
  encode_arguments-WireAll [] h = none_left
  encode_arguments-WireAll (arg ∷ args) h =
      subst (WireAll lexical_cast max_size (strings (arg ∷ args)))
        (regroup (decimal (length arg)) arg (encode_arguments args))
        (followed
          (bulk (digits-IsLine (decimal (length arg)) (decimal-IsDigit (length arg)))
            (reads (length arg) h.0))
          (encode_arguments-WireAll args h.1))

  encode-Wire :
      (cmd : SingleCommand)
      → Fits max_size cmd
      → Wire lexical_cast max_size (array (strings cmd.arguments)) (encode cmd)
  unfolding encode format_count
  encode-Wire cmd h =
      let count = decimal (length cmd.arguments) in
      subst (Wire lexical_cast max_size (array (strings cmd.arguments)))
        (ap (◌∷◌ b'*') (sym (append_assoc count terminator (encode_arguments cmd.arguments))))
        (items (digits-IsLine count (decimal-IsDigit (length cmd.arguments)))
          (rw (size-strings cmd.arguments) (reads (length cmd.arguments) h.0))
          (rw (size-strings cmd.arguments) h.1) (encode_arguments-WireAll cmd.arguments h.2))

module _ (lexical_cast : Bytes → Option ℤ) (max_size : ℕ) (casts : CastsToInt64 lexical_cast) where
  -- Serialising a command with a name appends one text to the buffer, and the parser reads that
  -- text, whatever follows it, as the array of the command's arguments, each a string; the count is
  -- the size that was reserved. Its counts must fit `int64_t` and the most elements of an array, and
  -- lexical_cast must return values of `int64_t` and read decimal prints.
  pub parse-serialize :
      ReadsDecimals lexical_cast
      → (buff : Bytes) (cmd : SingleCommand) → cmd.arguments ≢ []
      → Fits max_size cmd
      → (written : Bytes) × (serialize buff cmd ≡ some (buff ++ written))
        × ((rest : Bytes)
            → parse lexical_cast max_size (written ++ rest)
              ≡ done (positive (array (strings cmd.arguments)) (command_size cmd)))
  parse-serialize reads buff cmd some_name fits = (
    encode cmd,
    serialize-eq-encode buff cmd some_name,
    λ rest.
        parse-Wire lexical_cast max_size casts rest
          (encode-Wire lexical_cast max_size reads cmd fits)
        ∙ ap (λ n. done (positive (array (strings cmd.arguments)) n)) (length-encode cmd),
  )
