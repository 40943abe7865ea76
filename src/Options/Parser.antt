-- ===== src/Options/Parser.antt =====
-- The parser of connection strings: src/common.cpp, under the names of connect_string_parser.
pub mod Layout
pub mod Filled
use redis_async.Prelude.{
  ℕ, suc, ◌+◌, Option, none, some, Bool, true, false, [], ◌∷◌, ◌++◌, List, Bytes, codes, bytes_eq,
  take, drop, if◌then◌else◌,
}
use redis_async.Prelude.Int.{ℤ, pos}
use redis_async.Errors.{RdError, connection_error, Throws, ok, throw, ◌>>=◌}
use redis_async.Options.{ConnectionOptions}
use redis_async.Options.Text.{is_empty, find, find_text, rfind}
use redis_async.Options.Numbers.{stoi_returns, stoul, to_int64, scale}

-- `connection_options opts;`
abbrev pub default_options : ConnectionOptions
default_options = record {
  alias = [];
  schema = [];
  uri = [];
  database = [];
  password = [];
  keep_alive = false;
  connect_timeout = pos 0;
  socket_timeout = pos 0;
}

abbrev pub invalid : RdError
invalid = connection_error (codes "invalid connection string")

-- The part behind `://`: the part before an `@`, and the rest.
unfoldable pub split_auth : Bytes → Bytes × Bytes
split_auth rest = elim (find b'@' rest) [
  | none ↦ ([], rest)
  | some at ↦ (take at rest, drop (at + 1) rest)
]

-- The part behind `alias=`.
unfoldable pub split_schema :
    Bytes → ConnectionOptions → Throws ((Bytes × Bytes) × ConnectionOptions)
unfolding split_auth find_text
split_schema rest opts = elim (find_text (codes "://") rest) [
  | none ↦ throw invalid
  | some at ↦
      if is_empty (take at rest)
      then throw invalid
      else ok (split_auth (drop (at + 3) rest), record opts { schema = take at rest })
]

unfoldable pub split_uri : Bytes → ConnectionOptions → Throws ((Bytes × Bytes) × ConnectionOptions)
unfolding split_schema
split_uri uri opts = elim (find b'=' uri) [
  | none ↦ throw invalid
  | some at ↦
      if is_empty (take at uri)
      then throw invalid
      else split_schema (drop (at + 1) uri) (record opts { alias = take at uri })
]

unfoldable pub set_auth_opts : Bytes → ConnectionOptions → ConnectionOptions
set_auth_opts auth opts = if is_empty auth then opts else record opts { password = auth }

-- `path.substr(0, parameter_pos)`
unfoldable pub before_parameters : Bytes → Bytes
before_parameters path = elim (rfind b'?' path) [ none ↦ path | some at ↦ take at path ]

unfoldable pub parameters_of : Bytes → Bytes
parameters_of path = elim (rfind b'?' path) [ none ↦ [] | some at ↦ drop (at + 1) path ]

-- The database, if the path ends in its number, and the uri.
unfoldable pub set_uri : Bytes → ConnectionOptions → ConnectionOptions
unfolding before_parameters stoi_returns
set_uri path opts = elim (rfind b'/' path) [
  | none ↦ record opts { uri = before_parameters path }
  | some at ↦
      if stoi_returns (drop (at + 1) path)
      then record opts { database = drop (at + 1) path; uri = take at path }
      else record opts { uri = before_parameters path }
]

unfoldable pub split_path : Bytes → ConnectionOptions → Throws (Bytes × ConnectionOptions)
unfolding set_uri parameters_of
split_path path opts =
    let with_uri = set_uri path opts in
    if is_empty with_uri.uri then throw invalid else ok (parameters_of path, with_uri)

unfoldable pub parse_timeout_option : Bytes → Throws ℤ
unfolding stoul to_int64 scale
parse_timeout_option str = elim (stoul str) [
  | none ↦ throw (connection_error (codes "invalid uri parameter of timeout type: " ++ str))
  | some (timeout, at) ↦
      if bytes_eq (drop at str) (codes "ms")
      then ok (to_int64 timeout)
      else if bytes_eq (drop at str) (codes "s")
      then ok (scale 1000 (to_int64 timeout))
      else if bytes_eq (drop at str) (codes "m")
      then ok (scale 60000 (to_int64 timeout))
      else throw (connection_error (codes "unknown timeout unit: " ++ drop at str))
]

-- `split c` is `boost::split` at each character `c`, `to_lower_copy` the function of boost.
module _ (split : ℕ → Bytes → List Bytes) (to_lower_copy : Bytes → Bytes) where
  unfoldable pub parse_bool_option : Bytes → Throws Bool
  parse_bool_option str =
      if bytes_eq (to_lower_copy str) (codes "true")
      then ok true
      else if bytes_eq (to_lower_copy str) (codes "false")
      then ok false
      else throw (connection_error (codes "invalid uri parameter of bool type: " ++ str))

  unfoldable pub set_option : Bytes → Bytes → ConnectionOptions → Throws ConnectionOptions
  unfolding parse_bool_option parse_timeout_option
  set_option key val opts =
      if bytes_eq key (codes "keep_alive")
      then (parse_bool_option val >>= λ b. ok (record opts { keep_alive = b }))
      else if bytes_eq key (codes "connect_timeout")
      then (parse_timeout_option val >>= λ t. ok (record opts { connect_timeout = t }))
      else if bytes_eq key (codes "socket_timeout")
      then (parse_timeout_option val >>= λ t. ok (record opts { socket_timeout = t }))
      else throw (connection_error (codes "unknown uri parameter " ++ key))

  -- One round of the loop.
  unfoldable pub set_pair : Bytes → List Bytes → ConnectionOptions → Throws ConnectionOptions
  unfolding set_option
  set_pair parameter (key ∷ val ∷ []) opts = set_option key val opts
  set_pair parameter kv_pair opts =
      throw (connection_error (codes "invalid option: not a key-value pair: " ++ parameter))

  unfoldable pub set_pairs : List Bytes → ConnectionOptions → Throws ConnectionOptions
  unfolding set_pair
  set_pairs [] opts = ok opts
  set_pairs (parameter ∷ parameters) opts =
      set_pair parameter (split b'=' parameter) opts >>= λ changed. set_pairs parameters changed

  unfoldable pub parse_parameters : Bytes → ConnectionOptions → Throws ConnectionOptions
  unfolding set_pairs
  parse_parameters parameter_string opts =
      if is_empty parameter_string then ok opts else set_pairs (split b'&' parameter_string) opts

  -- `connect_string_parser::operator()`, which `connection_options::parse` calls.
  unfoldable pub parse_options : Bytes → Throws ConnectionOptions
  unfolding split_uri set_auth_opts split_path parse_parameters
  parse_options uri = split_uri uri default_options >>= λ ((auth, path), named).
      split_path path (set_auth_opts auth named) >>= λ (parameter_string, with_uri).
      parse_parameters parameter_string with_uri
