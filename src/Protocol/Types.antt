-- ===== src/Protocol/Types.antt =====
-- The values of replies and the outcomes of parsing: include/redis_async/rd_types.hpp,
-- include/redis_async/error.hpp and include/redis_async/details/protocol/parser_types.hpp.
use redis_async.Prelude.{ℕ, zero, suc, ◌≡◌, refl, ap, Bytes, codes}
use redis_async.Prelude.Int.{ℤ}

-- `result_t`, a variant of `int_t`, `string_t`, `nil_t` and `array_holder_t`. The vector of
-- `array_holder_t` is the second type of the block.
mutual
  pub data Result : Type 0 where
    int : ℤ → Result
    string : Bytes → Result
    nil : Result
    array : Elements → Result

  pub data Elements : Type 0 where
    no_elements : Elements
    element : Result → Elements → Elements

-- `std::vector::push_back`.
unfoldable pub push_back : Elements → Result → Elements
push_back no_elements r = element r no_elements
push_back (element x xs) r = element x (push_back xs r)

-- `std::vector::size`.
unfoldable pub size : Elements → ℕ
size no_elements = 0
size (element x xs) = suc (size xs)

-- The elements of one vector behind those of another.
unfoldable pub append : Elements → Elements → Elements
append no_elements ys = ys
append (element x xs) ys = element x (append xs ys)

pub append-push_back :
    (xs : Elements) (r : Result) (ys : Elements)
    → append (push_back xs r) ys ≡ append xs (element r ys)
unfolding push_back append
append-push_back no_elements r ys = refl
append-push_back (element x xs) r ys = ap (element x) (append-push_back xs r ys)

pub append-no_elements : (xs : Elements) → append xs no_elements ≡ xs
unfolding append
append-no_elements no_elements = refl
append-no_elements (element x xs) = ap (element x) (append-no_elements xs)

-- `error::errc`.
pub data Errc : Type 0 where
  wrong_introduction parser_error count_conversion : Errc
  count_range bulk_terminator not_enough_data : Errc

-- The values of the enumeration, from 1.
unfoldable pub errc_value : Errc → ℕ
errc_value wrong_introduction = 1
errc_value parser_error = 2
errc_value count_conversion = 3
errc_value count_range = 4
errc_value bulk_terminator = 5
errc_value not_enough_data = 6

-- `category::message`, by the value of the code.
unfoldable pub message : ℕ → Bytes
message (suc zero) = codes "Wrong introduction"
message (suc (suc zero)) = codes "Parser error"
message (suc (suc (suc zero))) = codes "Cannot convert count to number"
message (suc (suc (suc (suc zero)))) = codes "Unacceptable count value"
message (suc (suc (suc (suc (suc zero))))) = codes "Terminator for bulk string not found"
message (suc (suc (suc (suc (suc (suc zero)))))) =
    codes "Buffer just does not contain enough information to completely parse it"
message _ = codes "Unknown protocol error"

-- `parse_result_t`, a variant of `protocol_error_t`, `error_t` and `positive_parse_result_t`.
pub data ParseResult : Type 0 where
  protocol_error : Errc → ParseResult
  error : (str : Bytes) (consumed : ℕ) → ParseResult
  positive : (result : Result) (consumed : ℕ) → ParseResult

-- What the standard library throws out of the parser.
pub data Exception : Type 0 where
  bad_variant_access length_error : Exception

-- One run of the parser: it returns, an exception leaves it, or the bound on the depth of nested
-- arrays is used up, which has no counterpart in the program.
pub data Run : Type 0 where
  done : ParseResult → Run
  threw : Exception → Run
  out_of_fuel : Run
