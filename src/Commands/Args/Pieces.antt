-- ===== src/Commands/Args/Pieces.antt =====
-- What the templates of include/redis_async/details/protocol/command_args.hpp append.
use redis_async.Prelude.{
  ◌≡◌, refl, sym, ap, ◌∙◌, [], ◌∷◌, ◌++◌, List, Bytes, append-nil, append_assoc,
}
use redis_async.Prelude.Int.{ℤ}
use redis_async.Prelude.Decimal.{to_string}
use redis_async.Commands.Args.{CmdArgs, ◌<<◌, ◌<<#◌, append_range, append_pairs}

-- What `operator<<` takes: a text, a number, a pair of iterators, between which there are such
-- things or pairs of them, and a tuple of such things.
mutual
  pub data Piece : Type 0 where
    text : Bytes → Piece
    number : ℤ → Piece
    range : Pieces → Piece
    pair_range : PiecePairs → Piece
    tuple : Pieces → Piece

  pub data Pieces : Type 0 where
    none_left : Pieces
    piece : Piece → Pieces → Pieces

  pub data PiecePairs : Type 0 where
    no_pairs : PiecePairs
    pair : Piece → Piece → PiecePairs → PiecePairs

-- `operator<<`, by the type of its argument; the loops of `_append` over a range, and the recursion
-- over a tuple.
unfoldable mutual
  unfolding ◌<<◌ ◌<<#◌

  pub append_piece : CmdArgs → Piece → CmdArgs
  append_piece args (text arg) = args << arg
  append_piece args (number n) = args <<# n
  append_piece args (range pieces) = append_pieces args pieces
  append_piece args (pair_range pairs) = append_piece_pairs args pairs
  append_piece args (tuple pieces) = append_pieces args pieces

  pub append_pieces : CmdArgs → Pieces → CmdArgs
  append_pieces args none_left = args
  append_pieces args (piece first rest) = append_pieces (append_piece args first) rest

  pub append_piece_pairs : CmdArgs → PiecePairs → CmdArgs
  append_piece_pairs args no_pairs = args
  append_piece_pairs args (pair key value rest) =
      append_piece_pairs (append_piece (append_piece args key) value) rest

-- `append` of one thing or of several, each by the `_append` of its type, which does what `operator<<`
-- does.
unfoldable pub append_call : CmdArgs → Piece → Pieces → CmdArgs
unfolding append_piece
append_call args first none_left = append_piece args first
append_call args first (piece next rest) = append_call (append_piece args first) next rest

-- The words of a piece, in the order of reading.
unfoldable mutual
  words : Piece → List Bytes
  words (text arg) = arg ∷ []
  words (number n) = to_string n ∷ []
  words (range pieces) = words_of pieces
  words (pair_range pairs) = words_of_pairs pairs
  words (tuple pieces) = words_of pieces

  words_of : Pieces → List Bytes
  words_of none_left = []
  words_of (piece first rest) = words first ++ words_of rest

  words_of_pairs : PiecePairs → List Bytes
  words_of_pairs no_pairs = []
  words_of_pairs (pair key value rest) = words key ++ (words value ++ words_of_pairs rest)

mutual
  unfolding append_piece append_pieces append_piece_pairs words words_of words_of_pairs

  append_piece-words :
      (args : CmdArgs) (x : Piece)
      → (append_piece args x).cmd.arguments ≡ args.cmd.arguments ++ words x
  append_piece-words args (text arg) = refl
  append_piece-words args (number n) = refl
  append_piece-words args (range pieces) = append_pieces-words_of args pieces
  append_piece-words args (pair_range pairs) = append_piece_pairs-words_of_pairs args pairs
  append_piece-words args (tuple pieces) = append_pieces-words_of args pieces

  append_pieces-words_of :
      (args : CmdArgs) (xs : Pieces)
      → (append_pieces args xs).cmd.arguments ≡ args.cmd.arguments ++ words_of xs
  append_pieces-words_of args none_left = sym (append-nil args.cmd.arguments)
  append_pieces-words_of args (piece first rest) =
      append_pieces-words_of (append_piece args first) rest
      ∙ ap (λ ws. ws ++ words_of rest) (append_piece-words args first)
      ∙ append_assoc args.cmd.arguments (words first) (words_of rest)

  append_piece_pairs-words_of_pairs :
      (args : CmdArgs) (xs : PiecePairs)
      → (append_piece_pairs args xs).cmd.arguments ≡ args.cmd.arguments ++ words_of_pairs xs
  append_piece_pairs-words_of_pairs args no_pairs = sym (append-nil args.cmd.arguments)
  append_piece_pairs-words_of_pairs args (pair key value rest) =
      append_piece_pairs-words_of_pairs (append_piece (append_piece args key) value) rest
      ∙ ap (λ ws. ws ++ words_of_pairs rest)
          (append_piece-words (append_piece args key) value
            ∙ ap (λ ws. ws ++ words value) (append_piece-words args key))
      ∙ append_assoc (args.cmd.arguments ++ words key) (words value) (words_of_pairs rest)
      ∙ append_assoc args.cmd.arguments (words key) (words value ++ words_of_pairs rest)

append_call-words_of :
    (args : CmdArgs) (first : Piece) (rest : Pieces)
    → (append_call args first rest).cmd.arguments
      ≡ args.cmd.arguments ++ words_of (piece first rest)
unfolding append_call words_of
append_call-words_of args first none_left =
    append_piece-words args first
    ∙ ap (λ ws. args.cmd.arguments ++ ws) (sym (append-nil (words first)))
append_call-words_of args first (piece next rest) =
    append_call-words_of (append_piece args first) next rest
    ∙ ap (λ ws. ws ++ words_of (piece next rest)) (append_piece-words args first)
    ∙ append_assoc args.cmd.arguments (words first) (words_of (piece next rest))

-- The ranges of texts and of pairs of texts that the commands append are such ranges.
abbrev texts_of : List Bytes → Pieces
texts_of [] = none_left
texts_of (arg ∷ args) = piece (text arg) (texts_of args)

abbrev pairs_of : List (Bytes × Bytes) → PiecePairs
pairs_of [] = no_pairs
pairs_of ((key, value) ∷ rest) = pair (text key) (text value) (pairs_of rest)

append_range-append_piece :
    (args : CmdArgs) (texts : List Bytes)
    → append_range args texts ≡ append_piece args (range (texts_of texts))
unfolding append_range append_piece append_pieces
append_range-append_piece args [] = refl
append_range-append_piece args (arg ∷ texts) = append_range-append_piece (args << arg) texts

append_pairs-append_piece :
    (args : CmdArgs) (pairs : List (Bytes × Bytes))
    → append_pairs args pairs ≡ append_piece args (pair_range (pairs_of pairs))
unfolding append_pairs append_piece append_piece_pairs
append_pairs-append_piece args [] = refl
append_pairs-append_piece args ((key, value) ∷ pairs) =
    append_pairs-append_piece (args << key << value) pairs
