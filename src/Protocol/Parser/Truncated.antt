-- ===== src/Protocol/Parser/Truncated.antt =====
-- A reply of which only the first bytes have arrived, under
-- include/redis_async/details/protocol/parser.hpp.
use redis_async.Prelude.{
  ℕ, ◌-◌, ◌<◌, ◌≡◌, ◌≢◌, ◌⊎◌, refl, inl, inr, subst, Option, ◌++◌, Bytes, length, arith,
}
use redis_async.Prelude.Int.{ℤ}
use redis_async.Protocol.Types.{
  not_enough_data, protocol_error, error, positive, Run, done, threw, out_of_fuel,
}
use redis_async.Protocol.Parser.{parse}
use redis_async.Protocol.Parser.Bounds.{Within, CastsToInt64, parse-Within}
use redis_async.Protocol.Parser.Append.{starved, parse-append}

starved-cases : (r : Run) → (r ≡ done starved) ⊎ (r ≢ done starved)
starved-cases (done (protocol_error not_enough_data)) = inl refl
starved-cases (done (protocol_error _)) = inr (λ e. cc)
starved-cases (done (error str n)) = inr (λ e. cc)
starved-cases (done (positive x n)) = inr (λ e. cc)
starved-cases (threw e) = inr (λ e. cc)
starved-cases out_of_fuel = inr (λ e. cc)

-- A reply, or a server's error, that accounts for more than `len` bytes.
abbrev pub Exceeds : ℕ → Run → Type 0
Exceeds len (done (positive x n)) = len < n
Exceeds len (done (error str n)) = len < n
Exceeds len _ = ⊥

Exceeds-Within : (len : ℕ) (r : Run) → Within 1 (len - 1) r → ¬ Exceeds len r
Exceeds-Within len (done (protocol_error e)) w x = x
Exceeds-Within len (done (error str n)) w x = omega arith
Exceeds-Within len (done (positive r n)) w x = omega arith
Exceeds-Within len (threw e) w x = x
Exceeds-Within len out_of_fuel w x = x

module _ (lexical_cast : Bytes → Option ℤ) (max_size : ℕ) (casts : CastsToInt64 lexical_cast) where
  -- If the parser reads a reply or a server's error off a buffer, then on any first part of the
  -- buffer that ends before the bytes it counted it asks for more bytes, and returns nothing else;
  -- lexical_cast is asked to return values of `int64_t`.
  pub parse-truncated :
      (bs more : Bytes)
      → Exceeds (length bs) (parse lexical_cast max_size (bs ++ more))
      → parse lexical_cast max_size bs ≡ done starved
  parse-truncated bs more x = elim (starved-cases (parse lexical_cast max_size bs)) [
    | inl e ↦ e
    | inr ne ↦ absurd (
        Exceeds-Within (length bs) (parse lexical_cast max_size bs)
          (parse-Within lexical_cast max_size casts bs)
          (subst (Exceeds (length bs)) (parse-append lexical_cast max_size casts bs more ne) x))
  ]
