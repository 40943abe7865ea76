-- ===== src/Protocol/Parser.antt =====
-- The parser of replies: include/redis_async/details/protocol/parser.hpp and markup_helper.hpp.
-- A pair of iterators is the list of the bytes between them; `std::next` and `+` drop bytes.
pub mod Bounds
pub mod Append
pub mod Truncated
use redis_async.Prelude.{
  ℕ, zero, suc, ◌+◌, ◌-◌, ◌%◌, ◌^◌, Option, none, some, [], ◌∷◌, Bytes, length, take, drop,
  starts_with, ltb, ◌==◌, if◌then◌else◌,
}
use redis_async.Prelude.Int.{ℤ, pos, negsuc}
use redis_async.Protocol.Types.{
  Result, int, string, nil, array, Elements, no_elements, push_back, wrong_introduction,
  count_conversion, count_range, bulk_terminator, not_enough_data, ParseResult, protocol_error,
  error, positive, bad_variant_access, length_error, Run, done, threw, out_of_fuel,
}

-- "\r\n"
abbrev pub terminator : Bytes
terminator = 13 ∷ 10 ∷ []

-- `std::search` for the terminator: how far the place found, or the end, is from the start.
unfoldable pub search : Bytes → ℕ
search [] = 0
search (b ∷ bs) = if starts_with terminator (b ∷ bs) then 0 else suc (search bs)

unfoldable pub string_parser : Bytes → ℕ → ParseResult
string_parser bs already_consumed =
    let found = search bs in
    if found == length bs
    then protocol_error not_enough_data
    else positive (string (take found bs)) (length terminator + found + already_consumed)

-- `std::get<string_t>` throws on another alternative.
unfoldable pub markup_error : Result → ℕ → Run
markup_error (string str) consumed = done (error str consumed)
markup_error _ consumed = threw bad_variant_access

unfoldable pub error_wrapped : ParseResult → Run
unfolding markup_error
error_wrapped (positive result consumed) = markup_error result consumed
error_wrapped other = done other

unfoldable pub error_parser : Bytes → ℕ → Run
unfolding error_wrapped
error_parser bs already_consumed = error_wrapped (string_parser bs already_consumed)

-- `std::get_if<positive_parse_result_t>`: any other outcome is what the array's parser returns.
unfoldable pub on_element : Run → (Result → ℕ → Run) → Run
on_element (done (positive result consumed)) next = next result consumed
on_element other next = other

-- `boost::lexical_cast<int_t>`, which throws on what is no number, and the most elements that
-- `std::vector<result_t>::reserve` accepts.
module _ (lexical_cast : Bytes → Option ℤ) (max_size : ℕ) where
  -- `none` stands for each exception: both are caught by `int_parser_t`.
  unfoldable pub markup_int : Result → ℕ → Option ParseResult
  markup_int (string str) consumed = elim (lexical_cast str) [
    | none ↦ none
    | some n ↦ some (positive (int n) consumed)
  ]
  markup_int _ consumed = none

  unfoldable pub int_wrapped : ParseResult → ParseResult
  unfolding markup_int
  int_wrapped (positive result consumed) = elim (markup_int result consumed) [
    | none ↦ protocol_error count_conversion
    | some r ↦ r
  ]
  int_wrapped other = other

  unfoldable pub int_parser : Bytes → ℕ → ParseResult
  unfolding int_wrapped
  int_parser bs already_consumed = int_wrapped (string_parser bs already_consumed)

  -- `count + terminator_size` is computed in `std::size_t`.
  unfoldable pub bulk_body : Bytes → ℤ → ℕ → ParseResult
  bulk_body head (negsuc zero) consumed = positive nil consumed
  bulk_body head (negsuc (suc _)) consumed = protocol_error count_range
  bulk_body head (pos count) consumed =
      if ltb (length head) ((count + length terminator) % 2 ^ 64)
      then protocol_error not_enough_data
      else if starts_with terminator (drop count head)
      then positive (string (take count head)) (consumed + count + length terminator)
      else protocol_error bulk_terminator

  unfoldable pub bulk_counted : Bytes → ℕ → ParseResult → Run
  unfolding bulk_body
  bulk_counted bs already_consumed (positive (int count) consumed) =
      done (bulk_body (drop (consumed - already_consumed) bs) count consumed)
  bulk_counted bs already_consumed (positive _ consumed) = threw bad_variant_access
  bulk_counted bs already_consumed other = done other

  unfoldable pub bulk_string_parser : Bytes → ℕ → Run
  unfolding bulk_counted
  bulk_string_parser bs already_consumed =
      bulk_counted bs already_consumed (int_parser bs already_consumed)

  -- `while (count)`, with the parser of an element given.
  unfoldable pub array_elements : (Bytes → Run) → ℕ → Bytes → ℕ → Elements → Run
  unfolding on_element
  array_elements parse zero element_from consumed acc = done (positive (array acc) consumed)
  array_elements parse (suc count) element_from consumed acc =
      on_element (parse element_from) λ result n.
        array_elements parse count (drop n element_from) (consumed + n) (push_back acc result)

  unfoldable pub array_body : (Bytes → Run) → Bytes → ℤ → ℕ → Run
  array_body parse head (negsuc zero) consumed = done (positive nil consumed)
  array_body parse head (negsuc (suc _)) consumed = done (protocol_error count_range)
  array_body parse head (pos count) consumed =
      if ltb max_size count
      then threw length_error
      else array_elements parse count head consumed no_elements

  unfoldable pub array_counted : (Bytes → Run) → Bytes → ℕ → ParseResult → Run
  unfolding array_body
  array_counted parse bs already_consumed (positive (int count) consumed) =
      array_body parse (drop (consumed - already_consumed) bs) count consumed
  array_counted parse bs already_consumed (positive _ consumed) = threw bad_variant_access
  array_counted parse bs already_consumed other = done other

  unfoldable pub array_parser : (Bytes → Run) → Bytes → ℕ → Run
  unfolding array_counted
  array_parser parse bs already_consumed =
      array_counted parse bs already_consumed (int_parser bs already_consumed)

  -- The visit of the parser that `construct_primary_parser_t` chooses by the first byte.
  unfoldable pub primary : (Bytes → Run) → ℕ → Bytes → Run
  primary parse intro bs =
      if intro == b'+'
      then done (string_parser bs 1)
      else if intro == b'-'
      then error_parser bs 1
      else if intro == b':'
      then done (int_parser bs 1)
      else if intro == b'$'
      then bulk_string_parser bs 1
      else if intro == b'*'
      then array_parser parse bs 1
      else done (protocol_error wrong_introduction)

  -- The first argument bounds the depth of nested calls.
  unfoldable pub raw_parse : ℕ → Bytes → Run
  raw_parse zero bs = out_of_fuel
  raw_parse (suc depth) [] = done (protocol_error not_enough_data)
  raw_parse (suc depth) (b ∷ bs) = primary (raw_parse depth) b bs

  -- `raw_parse` with a bound that is enough: each nested call starts behind a byte more.
  unfoldable pub parse : Bytes → Run
  unfolding raw_parse
  parse bs = raw_parse (suc (length bs)) bs
