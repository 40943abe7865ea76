-- ===== src/Options/Parser/Layout.antt =====
-- Connection strings as they are documented in include/redis_async/common.hpp, and what the parser of
-- src/common.cpp makes of them.
use redis_async.Prelude.{
  ℕ, ◌+◌, ◌<◌, ◌^◌, ◌≡◌, ◌∙◌, refl, ap, true, false, [], ◌∷◌, ◌++◌, List, Bytes, All, codes, length,
  take-append_length, drop-append_add, append_assoc, append-nil, sym, arith,
}
use redis_async.Prelude.Decimal.{decimal, IsDigit, decimal-IsDigit}
use redis_async.Errors.{ok}
use redis_async.Options.{ConnectionOptions}
use redis_async.Options.Text.{is_empty}
use redis_async.Options.Text.Found.{Without, find_first, rfind-none, rfind_last, find_text-first}
use redis_async.Options.Numbers.{stoi_returns}
use redis_async.Options.Numbers.Decimals.{EndsNumber, stoi_returns-decimal}
use redis_async.Options.Parser.{
  default_options, split_auth, split_schema, split_uri, set_auth_opts, set_uri, parameters_of,
  split_path, parse_parameters, parse_options,
}

-- The parts of a connection string.
pub record Parts : Type 0 where
  pub alias : Bytes
  pub schema : Bytes
  pub password : Bytes
  pub uri : Bytes
  pub database : ℕ

-- The parts are there, and none has the mark that ends it.
pub record IsPrintable (t : Parts) : Type 0 where
  pub alias_there : is_empty t.alias ≡ false
  pub alias_ends : Without b'=' t.alias
  pub schema_there : is_empty t.schema ≡ false
  pub schema_ends : Without b':' t.schema
  pub password_there : is_empty t.password ≡ false
  pub password_ends : Without b'@' t.password
  pub uri_there : is_empty t.uri ≡ false
  pub database_fits : t.database < 2 ^ 31

-- `alias=schema://password@uri/database`, and a text behind it.
unfoldable pub print : Parts → Bytes → Bytes
print t rest =
    t.alias
    ++ b'='
      ∷ (t.schema
          ++ (codes "://" ++ (t.password ++ b'@' ∷ (t.uri ++ b'/' ∷ (decimal t.database ++ rest)))))

split_auth-printed :
    (password path : Bytes)
    → Without b'@' password
    → split_auth (password ++ b'@' ∷ path) ≡ (password, path)
unfolding split_auth
split_auth-printed password path h =
    rw
      (
        split_auth,
        find_first b'@' password path h,
        take-append_length password (b'@' ∷ path),
        drop-append_add (length password + 1) password (b'@' ∷ path) 1 refl,
      )
      refl

split_schema-printed :
    (schema rest : Bytes) (opts : ConnectionOptions)
    → is_empty schema ≡ false
    → Without b':' schema
    → split_schema (schema ++ (codes "://" ++ rest)) opts
      ≡ ok (split_auth rest, record opts { schema = schema })
unfolding split_schema
split_schema-printed schema rest opts there h =
    rw
      (
        split_schema,
        find_text-first schema rest h,
        take-append_length schema (codes "://" ++ rest),
        drop-append_add (length schema + 3) schema (codes "://" ++ rest) 3 refl,
        there,
      )
      refl

split_uri-printed :
    (alias rest : Bytes) (opts : ConnectionOptions)
    → is_empty alias ≡ false
    → Without b'=' alias
    → split_uri (alias ++ b'=' ∷ rest) opts ≡ split_schema rest (record opts { alias = alias })
unfolding split_uri
split_uri-printed alias rest opts there h =
    rw
      (
        split_uri,
        find_first b'=' alias rest h,
        take-append_length alias (b'=' ∷ rest),
        drop-append_add (length alias + 1) alias (b'=' ∷ rest) 1 refl,
        there,
      )
      refl

split_path-printed :
    (uri last : Bytes) (opts : ConnectionOptions)
    → is_empty uri ≡ false
    → Without b'/' last
    → stoi_returns last ≡ true
    → split_path (uri ++ b'/' ∷ last) opts
      ≡ ok (parameters_of (uri ++ b'/' ∷ last), record opts { database = last; uri = uri })
unfolding split_path set_uri
split_path-printed uri last opts there h number =
    rw
      (
        split_path,
        set_uri,
        rfind_last b'/' uri last h,
        take-append_length uri (b'/' ∷ last),
        drop-append_add (length uri + 1) uri (b'/' ∷ last) 1 refl,
        number,
        there,
      )
      refl

Without-append : (c : ℕ) (xs ys : Bytes) → Without c xs → Without c ys → Without c (xs ++ ys)
Without-append c [] ys hx hy = hy
Without-append c (x ∷ xs) ys hx hy = (hx.0, Without-append c xs ys hx.1 hy)

slash_no_digit : (xs : Bytes) → All IsDigit xs → Without b'/' xs
slash_no_digit [] d = tt
slash_no_digit (x ∷ xs) d = (omega (arith, d.0), slash_no_digit xs d.1)

query_no_digit : (xs : Bytes) → All IsDigit xs → Without b'?' xs
query_no_digit [] d = tt
query_no_digit (x ∷ xs) d = (omega (arith, d.0), query_no_digit xs d.1)

parameters_of_last :
    (front parameters : Bytes)
    → Without b'?' parameters
    → parameters_of (front ++ b'?' ∷ parameters) ≡ parameters
unfolding parameters_of
parameters_of_last front parameters h =
    rw
      (
        parameters_of,
        rfind_last b'?' front parameters h,
        drop-append_add (length front + 1) front (b'?' ∷ parameters) 1 refl,
      )
      refl

parameters_of-printed :
    (uri number parameters : Bytes)
    → Without b'?' parameters
    → parameters_of (uri ++ b'/' ∷ (number ++ b'?' ∷ parameters)) ≡ parameters
parameters_of-printed uri number parameters h =
    ap parameters_of (sym (append_assoc uri (b'/' ∷ number) (b'?' ∷ parameters)))
    ∙ parameters_of_last (uri ++ b'/' ∷ number) parameters h

-- The options that the parts say, with this text as the database.
abbrev pub options_of : Parts → Bytes → ConnectionOptions
options_of t last = record default_options {
  alias = t.alias;
  schema = t.schema;
  uri = t.uri;
  database = last;
  password = t.password;
}

module _ (split : ℕ → Bytes → List Bytes) (to_lower_copy : Bytes → Bytes) where
  parse_options-print_then :
      (t : Parts) (rest : Bytes)
      → IsPrintable t
      → EndsNumber rest
      → Without b'/' rest
      → parse_options split to_lower_copy (print t rest)
        ≡ parse_parameters split to_lower_copy
            (parameters_of (t.uri ++ b'/' ∷ (decimal t.database ++ rest)))
            (options_of t (decimal t.database ++ rest))
  unfolding print parse_options
  parse_options-print_then t rest h ends no_slash =
      let path = t.uri ++ b'/' ∷ (decimal t.database ++ rest) in
      let behind = t.password ++ b'@' ∷ path in
      rw
        (
          parse_options,
          split_uri-printed t.alias (t.schema ++ (codes "://" ++ behind)) default_options
              h.alias_there h.alias_ends,
          split_schema-printed t.schema behind (record default_options { alias = t.alias })
              h.schema_there h.schema_ends,
          split_auth-printed t.password path h.password_ends,
          set_auth_opts,
          h.password_there,
          split_path-printed t.uri (decimal t.database ++ rest)
              (record default_options { alias = t.alias; schema = t.schema; password = t.password })
              h.uri_there
              (Without-append b'/' (decimal t.database) rest
                (slash_no_digit (decimal t.database) (decimal-IsDigit t.database)) no_slash)
              (stoi_returns-decimal t.database rest h.database_fits ends),
        )
        refl

  -- A connection string with an alias, a schema, a password, a uri and the number of a database, an
  -- `int`, is read back as these parts, the other options as they are by default. No part that is a
  -- text may be empty, or have the character that ends it (`=`, `:`, `@`); the uri may not have `?`.
  pub parse_options-print :
      (t : Parts)
      → IsPrintable t
      → Without b'?' t.uri
      → parse_options split to_lower_copy (print t []) ≡ ok (options_of t (decimal t.database))
  unfolding parse_parameters parameters_of
  parse_options-print t h no_query =
      parse_options-print_then t [] h tt tt
      ∙ rw
          (
            parameters_of,
            append-nil (decimal t.database),
            rfind-none b'?' (t.uri ++ b'/' ∷ decimal t.database) (
                Without-append b'?' t.uri (b'/' ∷ decimal t.database) no_query
                  (omega arith, query_no_digit (decimal t.database) (decimal-IsDigit t.database))),
          )
          refl

  -- Where parameters follow such a connection string, they are read into the options, but the text
  -- of the database is the number with the parameters behind it. The parameters may not have `/` or
  -- `?`; the parts are as above.
  pub parse_options-print_parameters :
      (t : Parts) (parameters : Bytes)
      → IsPrintable t
      → Without b'/' parameters
      → Without b'?' parameters
      → parse_options split to_lower_copy (print t (b'?' ∷ parameters))
        ≡ parse_parameters split to_lower_copy parameters
            (options_of t (decimal t.database ++ b'?' ∷ parameters))
  parse_options-print_parameters t parameters h no_slash no_query =
      parse_options-print_then t (b'?' ∷ parameters) h refl (omega arith, no_slash)
      ∙ rw (parameters_of-printed t.uri (decimal t.database) parameters no_query) refl
