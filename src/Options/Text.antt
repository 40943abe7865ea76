-- ===== src/Options/Text.antt =====
-- What src/common.cpp uses of std::string.
pub mod Found
use redis_async.Prelude.{
  ℕ, zero, suc, Option, none, some, Bool, true, false, [], ◌∷◌, Bytes, starts_with, ◌==◌,
  if◌then◌else◌,
}

abbrev pub is_empty : Bytes → Bool
is_empty [] = true
is_empty (b ∷ bs) = false

abbrev pub one_later : Option ℕ → Option ℕ
one_later none = none
one_later (some n) = some (suc n)

-- `find`: the first position of a text that is not empty.
unfoldable pub find_text : Bytes → Bytes → Option ℕ
find_text text [] = none
find_text text (b ∷ bs) =
    let later = find_text text bs in if starts_with text (b ∷ bs) then some 0 else one_later later

-- `find` of a character.
abbrev pub find : ℕ → Bytes → Option ℕ
find c [] = none
find c (b ∷ bs) = let later = find c bs in if b == c then some 0 else one_later later

-- `rfind` of a character: its last position.
abbrev pub rfind : ℕ → Bytes → Option ℕ
rfind c [] = none
rfind c (b ∷ bs) = elim (rfind c bs) [
  | some n ↦ some (suc n)
  | none ↦ if b == c then some 0 else none
]
