-- ===== src/Options/Text/Found.antt =====
-- Where a character is found in a text.
use redis_async.Prelude.{
  ℕ, ◌≡◌, ◌≢◌, refl, none, some, [], ◌∷◌, ◌++◌, Bytes, All, codes, length, arith,
}
use redis_async.Options.Text.{find, find_text, rfind}

-- No character of the text is `c`.
abbrev pub Without : ℕ → Bytes → Type 0
Without c bs = All (λ b. b ≢ c) bs

pub find_first : (c : ℕ) (xs ys : Bytes) → Without c xs → find c (xs ++ c ∷ ys) ≡ some (length xs)
find_first c [] ys h = ground arith
find_first c (x ∷ xs) ys h = ground (arith, find_first c xs ys h.1, h.0)

pub find-none : (c : ℕ) (xs : Bytes) → Without c xs → find c xs ≡ none
find-none c [] h = refl
find-none c (x ∷ xs) h = ground (arith, find-none c xs h.1, h.0)

pub rfind-none : (c : ℕ) (xs : Bytes) → Without c xs → rfind c xs ≡ none
rfind-none c [] h = refl
rfind-none c (x ∷ xs) h = rw (rfind-none c xs h.1) (ground (arith, h.0))

pub rfind_last : (c : ℕ) (xs ys : Bytes) → Without c ys → rfind c (xs ++ c ∷ ys) ≡ some (length xs)
rfind_last c [] ys h = rw (rfind-none c ys h) (ground arith)
rfind_last c (x ∷ xs) ys h = rw (rfind_last c xs ys h) refl

pub find_text-first :
    (xs ys : Bytes)
    → Without b':' xs
    → find_text (codes "://") (xs ++ (codes "://" ++ ys)) ≡ some (length xs)
unfolding find_text
find_text-first [] ys h = refl
find_text-first (x ∷ xs) ys h = ground (arith, find_text-first xs ys h.1, h.0)
