-- ===== src/Options/Literals.antt =====
-- The literals of connection strings and aliases (src/common.cpp).
use redis_async.Prelude.{
  ℕ, ◌≡◌, ◌≢◌, refl, ap, [], ◌∷◌, List, Bytes, All, ◌==◌, if◌then◌else◌, arith,
}
use redis_async.Errors.{Throws}
use redis_async.Options.{ConnectionOptions}
use redis_async.Options.Parser.{parse_options}

-- A `std::string` made of a pointer: the characters before the first NUL.
unfoldable pub c_string : Bytes → Bytes
c_string [] = []
c_string (b ∷ bs) = let rest = c_string bs in if b == 0 then [] else b ∷ rest

-- `operator""_rd`
unfoldable pub rd_literal : Bytes → Bytes
unfolding c_string
rd_literal v = c_string v

module _ (split : ℕ → Bytes → List Bytes) (to_lower_copy : Bytes → Bytes) where
  -- `operator""_redis`, with `connection_options::parse`.
  unfoldable pub redis_literal : Bytes → Throws ConnectionOptions
  unfolding c_string parse_options
  redis_literal uri = parse_options split to_lower_copy (c_string uri)

c_string-id : (bs : Bytes) → All (λ b. b ≢ 0) bs → c_string bs ≡ bs
unfolding c_string
c_string-id [] h = refl
c_string-id (b ∷ bs) h = ground (arith, h.0, c_string-id bs h.1)

-- A literal without a NUL is the connection string that is written.
redis_literal-eq-parse_options :
    (split : ℕ → Bytes → List Bytes) (to_lower_copy : Bytes → Bytes) (uri : Bytes)
    → All (λ b. b ≢ 0) uri
    → redis_literal split to_lower_copy uri ≡ parse_options split to_lower_copy uri
unfolding redis_literal
redis_literal-eq-parse_options split to_lower_copy uri h =
    ap (parse_options split to_lower_copy) (c_string-id uri h)
