-- ===== src/Connection/Reading/Drained.antt =====
-- The loop of read_message ends with all bytes taken
-- (include/redis_async/details/connection/connection_fsm.hpp).
use redis_async.Prelude.{
  ℕ, zero, suc, ◌+◌, ◌-◌, ◌%◌, ◌^◌, ◌≤◌, ◌<◌, ◌≡◌, refl, subst, Option, [], ◌∷◌, Bytes, length,
  drop, length-drop, arith,
}
use redis_async.Prelude.Int.{ℤ}
use redis_async.Protocol.Types.{
  ParseResult, protocol_error, error, positive, bad_variant_access, length_error, Run, done, threw,
  out_of_fuel,
}
use redis_async.Protocol.Parser.{parse}
use redis_async.Protocol.Parser.Bounds.{Within, CastsToInt64, parse-Within}
use redis_async.Connection.Events.{FsmEvent}
use redis_async.Connection.Reading.{
  returned, Read, finished, raised, out_of_rounds, behind, consumed_of, on_parsed, read_rounds,
  read_message,
}

-- No byte is left in the buffer, or the parser threw `length_error`.
abbrev pub IsDrained : Read → Type 0
IsDrained (finished evs []) = Unit
IsDrained (finished evs (b ∷ bs)) = ⊥
IsDrained (raised evs length_error) = Unit
IsDrained (raised evs bad_variant_access) = ⊥
IsDrained out_of_rounds = ⊥

behind-IsDrained : (ev : FsmEvent) (r : Read) → IsDrained r → IsDrained (behind ev r)
unfolding behind
behind-IsDrained ev (finished evs []) h = tt
behind-IsDrained ev (finished evs (b ∷ bs)) h = h
behind-IsDrained ev (raised evs length_error) h = tt
behind-IsDrained ev (raised evs bad_variant_access) h = h
behind-IsDrained ev out_of_rounds h = h

on_parsed-IsDrained :
    (next : ParseResult → Read) (len : ℕ) (r : Run)
    → 0 < len
    → Within 1 (len - 1) r
    → ((p : ParseResult) → 0 < consumed_of p len → consumed_of p len ≤ len → IsDrained (next p))
    → IsDrained (on_parsed next r)
unfolding on_parsed returned
on_parsed-IsDrained next len (done (protocol_error e)) some_bytes w h =
    behind-IsDrained _ (next (protocol_error e)) (h (protocol_error e) some_bytes (omega arith))
on_parsed-IsDrained next len (done (error str n)) some_bytes w h =
    behind-IsDrained _ (next (error str n)) (h (error str n) (ground arith) (ground arith))
on_parsed-IsDrained next len (done (positive x n)) some_bytes w h =
    behind-IsDrained _ (next (positive x n)) (h (positive x n) (ground arith) (ground arith))
on_parsed-IsDrained next len (threw length_error) some_bytes w h = tt
on_parsed-IsDrained next len (threw bad_variant_access) some_bytes w h = w
on_parsed-IsDrained next len out_of_fuel some_bytes w h = w

module _ (lexical_cast : Bytes → Option ℤ) (max_size : ℕ) (casts : CastsToInt64 lexical_cast) where
  read_rounds-IsDrained :
      (rounds max_bytes : ℕ) (incoming : Bytes)
      → length incoming ≡ max_bytes
      → max_bytes < rounds
      → max_bytes < 2 ^ 64
      → IsDrained (read_rounds (parse lexical_cast max_size) rounds max_bytes incoming)
  unfolding read_rounds
  read_rounds-IsDrained zero max_bytes incoming e lt fits = absurd (omega arith)
  read_rounds-IsDrained (suc rounds) zero [] e lt fits = tt
  read_rounds-IsDrained (suc rounds) zero (b ∷ incoming) e lt fits = absurd (omega arith)
  read_rounds-IsDrained (suc rounds) (suc m) incoming e lt fits =
      on_parsed-IsDrained _ (suc m) (parse lexical_cast max_size incoming) (omega arith)
        (subst (λ k. Within 1 (k - 1) (parse lexical_cast max_size incoming)) e
          (parse-Within lexical_cast max_size casts incoming))
        (λ p some_taken no_more.
          read_rounds-IsDrained rounds ((suc m + 2 ^ 64 - consumed_of p (suc m)) % 2 ^ 64)
            (drop (consumed_of p (suc m)) incoming)
            (omega (arith, length-drop (consumed_of p (suc m)) incoming)) (omega arith)
            (omega arith))

  -- When as many bytes have arrived as the buffer holds, a number of the type size_t, read_message
  -- ends: it leaves no byte in the buffer, or the parser threw `length_error`; lexical_cast returns
  -- values of `int64_t`.
  pub read_message-IsDrained :
      (incoming : Bytes)
      → length incoming < 2 ^ 64
      → IsDrained (read_message (parse lexical_cast max_size) (length incoming) incoming)
  unfolding read_message
  read_message-IsDrained incoming fits =
      read_rounds-IsDrained (suc (length incoming)) (length incoming) incoming refl (omega arith)
        fits
