-- ===== src/Tests/Options.antt =====
-- Tests of the parser of connection strings, the inputs of tests/test_connect_opt.cpp among them, and
-- instances of its theorems.
use redis_async.Prelude.{
  ℕ, ◌+◌, ◌≡◌, refl, true, [], ◌∷◌, ◌++◌, map, List, Bytes, codes, ltb, ◌==◌, if◌then◌else◌, arith,
}
use redis_async.Prelude.Int.{pos}
use redis_async.Prelude.Decimal.{decimal}
use redis_async.Errors.{ok, throw, connection_error}
use redis_async.Options.{ConnectionOptions}
use redis_async.Options.Parser.{parse_options, parse_parameters, default_options}
use redis_async.Options.Parser.Layout.{
  Parts, IsPrintable, print, options_of, parse_options-print, parse_options-print_parameters,
}
use redis_async.Options.Parser.Filled.{IsFilled, parse_options-IsFilled}

-- In place of `boost::split`.
abbrev to_first : ℕ → List Bytes → List Bytes
to_first b [] = (b ∷ []) ∷ []
to_first b (text ∷ texts) = (b ∷ text) ∷ texts

abbrev pub split_at : ℕ → Bytes → List Bytes
split_at c [] = [] ∷ []
split_at c (b ∷ bs) = let rest = split_at c bs in if b == c then [] ∷ rest else to_first b rest

-- In place of `boost::to_lower_copy`.
abbrev pub to_lower : Bytes → Bytes
to_lower bs = map (λ b. if ltb b b'A' then b else if ltb b'Z' b then b else b + 32) bs

tcp_test :
    parse_options split_at to_lower
      (codes "main=tcp://192.168.0.10:6379?keep_alive=True&connect_timeout=732ms")
    ≡ ok (record default_options {
      alias = codes "main";
      schema = codes "tcp";
      uri = codes "192.168.0.10:6379";
      keep_alive = true;
      connect_timeout = pos 732;
    })
unfolding parse_options
tcp_test = refl

unix_test :
    parse_options split_at to_lower
      (codes "logs=unix:///path/to/socket?socket_timeout=50ms&connect_timeout=1s")
    ≡ ok (record default_options {
      alias = codes "logs";
      schema = codes "unix";
      uri = codes "/path/to/socket";
      socket_timeout = pos 50;
      connect_timeout = pos 1000;
    })
unfolding parse_options
unix_test = refl

invalid_test :
    parse_options split_at to_lower (codes "=tcp://localhost")
    ≡ throw (connection_error (codes "invalid connection string"))
unfolding parse_options
invalid_test = refl

abbrev parts : Parts
parts = record {
  alias = codes "main";
  schema = codes "tcp";
  password = codes "pw";
  uri = codes "host:6379";
  database = 12;
}

parts-IsPrintable : IsPrintable parts
parts-IsPrintable = record {
  alias_there = refl;
  alias_ends = omega arith;
  schema_there = refl;
  schema_ends = omega arith;
  password_there = refl;
  password_ends = omega arith;
  uri_there = refl;
  database_fits = omega arith;
}

parse_options-print_example :
    parse_options split_at to_lower (print parts []) ≡ ok (options_of parts (decimal 12))
parse_options-print_example =
    parse_options-print split_at to_lower parts parts-IsPrintable (omega arith)

parse_options-print_parameters_example :
    parse_options split_at to_lower (print parts (codes "?keep_alive=true"))
    ≡ parse_parameters split_at to_lower
        (codes "keep_alive=true")
        (options_of parts (decimal 12 ++ codes "?keep_alive=true"))
parse_options-print_parameters_example =
    parse_options-print_parameters split_at to_lower parts (codes "keep_alive=true")
      parts-IsPrintable (omega arith) (omega arith)

abbrev filled : ConnectionOptions
filled = record default_options {
  alias = codes "main";
  schema = codes "tcp";
  uri = codes "192.168.0.10";
}

filled_test : parse_options split_at to_lower (codes "main=tcp://192.168.0.10") ≡ ok filled
unfolding parse_options
filled_test = refl

parse_options-IsFilled_example : IsFilled filled
parse_options-IsFilled_example =
    parse_options-IsFilled split_at to_lower (codes "main=tcp://192.168.0.10") filled filled_test
