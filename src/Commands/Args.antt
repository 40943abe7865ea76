-- ===== src/Commands/Args.antt =====
-- The builder of arguments: include/redis_async/details/protocol/command_args.hpp.
pub mod Pieces
use redis_async.Prelude.{◌≡◌, sym, ◌∙◌, [], ◌∷◌, ◌++◌, List, Bytes, append-nil, append_assoc}
use redis_async.Prelude.Int.{ℤ}
use redis_async.Prelude.Decimal.{to_string}
use redis_async.Commands.Types.{SingleCommand}

pub record CmdArgs : Type 0 where
  pub cmd : SingleCommand

-- A `CmdArgs` as it is constructed.
abbrev pub no_args : CmdArgs
no_args = record { cmd = record { arguments = [] } }

-- `operator<<` of a text, and `_append`.
infixl 60 ◌<<◌
unfoldable pub ◌<<◌ : CmdArgs → Bytes → CmdArgs
args << arg = record { cmd = record { arguments = args.cmd.arguments ++ arg ∷ [] } }

-- `operator<<` of a number.
infixl 60 ◌<<#◌
unfoldable pub ◌<<#◌ : CmdArgs → ℤ → CmdArgs
unfolding ◌<<◌
args <<# n = args << to_string n

-- `operator<<` of a range of texts.
unfoldable pub append_range : CmdArgs → List Bytes → CmdArgs
unfolding ◌<<◌
append_range args [] = args
append_range args (arg ∷ range) = append_range (args << arg) range

-- `operator<<` of a range of pairs.
unfoldable pub append_pairs : CmdArgs → List (Bytes × Bytes) → CmdArgs
unfolding ◌<<◌
append_pairs args [] = args
append_pairs args ((key, value) ∷ range) = append_pairs (args << key << value) range

-- The texts of a range of pairs, in order.
abbrev pub flatten_pairs : List (Bytes × Bytes) → List Bytes
flatten_pairs [] = []
flatten_pairs ((key, value) ∷ range) = key ∷ value ∷ flatten_pairs range

pub append_range-arguments :
    (range : List Bytes) (args : CmdArgs)
    → (append_range args range).cmd.arguments ≡ args.cmd.arguments ++ range
unfolding append_range
append_range-arguments [] args = sym (append-nil args.cmd.arguments)
append_range-arguments (arg ∷ range) args =
    append_range-arguments range (args << arg) ∙ append_assoc args.cmd.arguments (arg ∷ []) range

pub append_pairs-arguments :
    (range : List (Bytes × Bytes)) (args : CmdArgs)
    → (append_pairs args range).cmd.arguments ≡ args.cmd.arguments ++ flatten_pairs range
unfolding append_pairs
append_pairs-arguments [] args = sym (append-nil args.cmd.arguments)
append_pairs-arguments ((key, value) ∷ range) args =
    append_pairs-arguments range (args << key << value)
    ∙ append_assoc (args.cmd.arguments ++ key ∷ []) (value ∷ []) (flatten_pairs range)
    ∙ append_assoc args.cmd.arguments (key ∷ []) (value ∷ flatten_pairs range)
