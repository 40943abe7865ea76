-- ===== src/Protocol/Grammar.antt =====
-- The grammar of replies, stated apart from the parser of
-- include/redis_async/details/protocol/parser.hpp.
pub mod Complete
pub mod Lines
pub mod Bodies
pub mod Sound
pub mod Nested
use redis_async.Prelude.{
  ℕ, ◌≤◌, ◌≡◌, Option, some, false, [], ◌∷◌, ◌++◌, Bytes, length, starts_with,
}
use redis_async.Prelude.Int.{ℤ, pos, negsuc}
use redis_async.Protocol.Types.{
  Result, Elements, int, string, nil, array, no_elements, element, size,
}
use redis_async.Protocol.Parser.{terminator}

-- A text that holds no terminator.
abbrev pub IsLine : Bytes → Type 0
IsLine [] = Unit
IsLine (b ∷ bs) = (starts_with terminator (b ∷ bs) ≡ false) × IsLine bs

-- `Wire r bs`: the bytes `bs` are one whole reply that stands for `r`. A count is a line that
-- `lexical_cast` reads; an array has at most `max_size` elements.
module _ (lexical_cast : Bytes → Option ℤ) (max_size : ℕ) where
  mutual
    pub data Wire : Result → Bytes → Type 0 where
      simple : {s : Bytes} → IsLine s → Wire (string s) (b'+' ∷ (s ++ terminator))
      integer :
          {c : Bytes} {k : ℤ}
          → IsLine c
          → lexical_cast c ≡ some k
          → Wire (int k) (b':' ∷ (c ++ terminator))
      bulk :
          {c s : Bytes}
          → IsLine c
          → lexical_cast c ≡ some (pos (length s))
          → Wire (string s) (b'$' ∷ (c ++ (terminator ++ (s ++ terminator))))
      no_bulk :
          {c : Bytes}
          → IsLine c
          → lexical_cast c ≡ some (negsuc 0)
          → Wire nil (b'$' ∷ (c ++ terminator))
      no_array :
          {c : Bytes}
          → IsLine c
          → lexical_cast c ≡ some (negsuc 0)
          → Wire nil (b'*' ∷ (c ++ terminator))
      items :
          {c bs : Bytes} {xs : Elements}
          → IsLine c
          → lexical_cast c ≡ some (pos (size xs))
          → size xs ≤ max_size
          → WireAll xs bs
          → Wire (array xs) (b'*' ∷ (c ++ (terminator ++ bs)))

    -- The replies of an array's elements, one behind the other.
    pub data WireAll : Elements → Bytes → Type 0 where
      none_left : WireAll no_elements []
      followed :
          {x : Result} {xs : Elements} {bs cs : Bytes}
          → Wire x bs
          → WireAll xs cs
          → WireAll (element x xs) (bs ++ cs)
