-- ===== src/Options/Parser/Filled.antt =====
-- The options that the parser of src/common.cpp returns are filled in.
use redis_async.Prelude.{
  ℕ, ◌≡◌, refl, ◌∙◌, ◌+◌, ap, subst, codes, inl, inr, Bool, false, [], ◌∷◌, List, Bytes, take, drop,
  bytes_eq, Bool-cases, Option-cases,
}
use redis_async.Errors.{raise, Throws, ok, ◌>>=◌, Ensures, bind-Ensures, Ensures-map}
use redis_async.Prelude.Int.{ℤ}
use redis_async.Options.Numbers.{stoi_returns}
use redis_async.Options.{ConnectionOptions}
use redis_async.Options.Text.{is_empty, find, find_text, rfind}
use redis_async.Options.Parser.{
  default_options, split_schema, split_uri, set_auth_opts, set_uri, split_path,
  parse_timeout_option, parse_bool_option, set_option, set_pair, set_pairs, parse_parameters,
  parse_options,
}

-- The parts of the connection string proper.
pub record SameTarget (a b : ConnectionOptions) : Type 0 where
  pub same_alias : b.alias ≡ a.alias
  pub same_schema : b.schema ≡ a.schema
  pub same_uri : b.uri ≡ a.uri
  pub same_database : b.database ≡ a.database
  pub same_password : b.password ≡ a.password

-- What a service and a pool ask of the options.
pub record IsFilled (opts : ConnectionOptions) : Type 0 where
  pub alias_there : is_empty opts.alias ≡ false
  pub schema_there : is_empty opts.schema ≡ false
  pub uri_there : is_empty opts.uri ≡ false

same_target : (a : ConnectionOptions) → SameTarget a a
same_target a = record {
  same_alias = refl;
  same_schema = refl;
  same_uri = refl;
  same_database = refl;
  same_password = refl;
}

same_then : {a b c : ConnectionOptions} → SameTarget a b → SameTarget b c → SameTarget a c
same_then s t = record {
  same_alias = t.same_alias ∙ s.same_alias;
  same_schema = t.same_schema ∙ s.same_schema;
  same_uri = t.same_uri ∙ s.same_uri;
  same_database = t.same_database ∙ s.same_database;
  same_password = t.same_password ∙ s.same_password;
}

set_later :
    {A : Type 0} (opts : ConnectionOptions) (m : Throws A) (f : A → ConnectionOptions)
    → ((a : A) → SameTarget opts (f a))
    → Ensures (SameTarget opts) (m >>= λ a. ok (f a))
set_later opts (ok a) f h = h a
set_later opts (raise e) f h = tt

same_but :
    (opts : ConnectionOptions) (b : Bool) (c s : ℤ)
    → SameTarget opts (record opts { keep_alive = b; connect_timeout = c; socket_timeout = s })
same_but opts b c s = record {
  same_alias = refl;
  same_schema = refl;
  same_uri = refl;
  same_database = refl;
  same_password = refl;
}

set_uri-alias :
    (path : Bytes) (opts : ConnectionOptions)
    → ((set_uri path opts).alias ≡ opts.alias) × ((set_uri path opts).schema ≡ opts.schema)
unfolding set_uri
set_uri-alias path opts = elim (Option-cases (rfind b'/' path)) [
  | inl e ↦ rw (set_uri, e) (refl, refl)
  | inr (at, e) ↦ elim (Bool-cases (stoi_returns (drop (at + 1) path))) [
    | inl y ↦ rw (set_uri, e, y) (refl, refl)
    | inr n ↦ rw (set_uri, e, n) (refl, refl)
  ]
]

-- The alias and the schema are there.
record IsNamed (opts : ConnectionOptions) : Type 0 where
  alias_there : is_empty opts.alias ≡ false
  schema_there : is_empty opts.schema ≡ false

split_path-IsFilled :
    (path : Bytes) (opts : ConnectionOptions)
    → IsNamed opts
    → Ensures (λ (rest, named). IsFilled named) (split_path path opts)
unfolding split_path
split_path-IsFilled path opts named =
    let kept = set_uri-alias path opts in
    elim (Bool-cases (is_empty (set_uri path opts).uri)) [
      | inl empty ↦ rw (split_path, empty) tt
      | inr there ↦
          rw (split_path, there)
            (record {
              alias_there = ap is_empty kept.0 ∙ named.alias_there;
              schema_there = ap is_empty kept.1 ∙ named.schema_there;
              uri_there = there;
            })
    ]

split_schema-IsNamed :
    (rest : Bytes) (opts : ConnectionOptions)
    → is_empty opts.alias ≡ false
    → Ensures (λ (parts, named). IsNamed named) (split_schema rest opts)
unfolding split_schema
split_schema-IsNamed rest opts h = elim (Option-cases (find_text (codes "://") rest)) [
  | inl e ↦ rw (split_schema, e) tt
  | inr (at, e) ↦ elim (Bool-cases (is_empty (take at rest))) [
    | inl empty ↦ rw (split_schema, e, empty) tt
    | inr there ↦ rw (split_schema, e, there) (record { alias_there = h; schema_there = there })
  ]
]

split_uri-IsNamed :
    (uri : Bytes) (opts : ConnectionOptions)
    → Ensures (λ (parts, named). IsNamed named) (split_uri uri opts)
unfolding split_uri
split_uri-IsNamed uri opts = elim (Option-cases (find b'=' uri)) [
  | inl e ↦ rw (split_uri, e) tt
  | inr (at, e) ↦ elim (Bool-cases (is_empty (take at uri))) [
    | inl empty ↦ rw (split_uri, e, empty) tt
    | inr there ↦
        rw (split_uri, e, there)
          (split_schema-IsNamed (drop (at + 1) uri) (record opts { alias = take at uri }) there)
  ]
]

set_auth_opts-IsNamed :
    (auth : Bytes) (opts : ConnectionOptions) → IsNamed opts → IsNamed (set_auth_opts auth opts)
unfolding set_auth_opts
set_auth_opts-IsNamed [] opts h = h
set_auth_opts-IsNamed (c ∷ cs) opts h = record {
  alias_there = h.alias_there;
  schema_there = h.schema_there;
}

module _ (split : ℕ → Bytes → List Bytes) (to_lower_copy : Bytes → Bytes) where
  set_option-SameTarget :
      (key val : Bytes) (opts : ConnectionOptions)
      → Ensures (SameTarget opts) (set_option split to_lower_copy key val opts)
  unfolding set_option
  set_option-SameTarget key val opts = elim (Bool-cases (bytes_eq key (codes "keep_alive"))) [
    | inl e ↦
        rw (set_option, e)
          (set_later opts (parse_bool_option split to_lower_copy val) _
            (λ b. same_but opts b opts.connect_timeout opts.socket_timeout))
    | inr n ↦ elim (Bool-cases (bytes_eq key (codes "connect_timeout"))) [
      | inl e ↦
          rw (set_option, n, e)
            (set_later opts (parse_timeout_option val) _
              (λ t. same_but opts opts.keep_alive t opts.socket_timeout))
      | inr m ↦ elim (Bool-cases (bytes_eq key (codes "socket_timeout"))) [
        | inl e ↦
            rw (set_option, n, m, e)
              (set_later opts (parse_timeout_option val) _
                (λ t. same_but opts opts.keep_alive opts.connect_timeout t))
        | inr k ↦ rw (set_option, n, m, k) tt
      ]
    ]
  ]

  set_pair-SameTarget :
      (parameter : Bytes) (kv_pair : List Bytes) (opts : ConnectionOptions)
      → Ensures (SameTarget opts) (set_pair split to_lower_copy parameter kv_pair opts)
  unfolding set_pair
  set_pair-SameTarget parameter [] opts = tt
  set_pair-SameTarget parameter (key ∷ []) opts = tt
  set_pair-SameTarget parameter (key ∷ val ∷ []) opts = set_option-SameTarget key val opts
  set_pair-SameTarget parameter (key ∷ val ∷ more ∷ kv_pair) opts = tt

  set_pairs-SameTarget :
      (parameters : List Bytes) (opts : ConnectionOptions)
      → Ensures (SameTarget opts) (set_pairs split to_lower_copy parameters opts)
  unfolding set_pairs
  set_pairs-SameTarget [] opts = same_target opts
  set_pairs-SameTarget (parameter ∷ parameters) opts =
      bind-Ensures (SameTarget opts) (SameTarget opts)
        (set_pair split to_lower_copy parameter (split b'=' parameter) opts) _
        (set_pair-SameTarget parameter (split b'=' parameter) opts)
        (λ changed s.
          Ensures-map (SameTarget changed) (SameTarget opts)
            (set_pairs split to_lower_copy parameters changed) (λ last t. same_then s t)
            (set_pairs-SameTarget parameters changed))

  -- The parameters of a connection string leave its alias, schema, uri, database and password alone.
  pub parse_parameters-SameTarget :
      (parameter_string : Bytes) (opts : ConnectionOptions)
      → Ensures (SameTarget opts) (parse_parameters split to_lower_copy parameter_string opts)
  unfolding parse_parameters
  parse_parameters-SameTarget [] opts = same_target opts
  parse_parameters-SameTarget (c ∷ cs) opts = set_pairs-SameTarget (split b'&' (c ∷ cs)) opts

  parse_options-Ensures : (uri : Bytes) → Ensures IsFilled (parse_options split to_lower_copy uri)
  unfolding parse_options
  parse_options-Ensures uri =
      bind-Ensures (λ (parts, named). IsNamed named) IsFilled (split_uri uri default_options) _
        (split_uri-IsNamed uri default_options)
        (λ ((auth, path), named) h.
          bind-Ensures (λ (rest, opts). IsFilled opts) IsFilled
            (split_path path (set_auth_opts auth named)) _
            (split_path-IsFilled path (set_auth_opts auth named)
              (set_auth_opts-IsNamed auth named h))
            (λ (rest, opts) filled.
              Ensures-map (SameTarget opts) IsFilled
                (parse_parameters split to_lower_copy rest opts)
                (λ last s. record {
                  alias_there = ap is_empty s.same_alias ∙ filled.alias_there;
                  schema_there = ap is_empty s.same_schema ∙ filled.schema_there;
                  uri_there = ap is_empty s.same_uri ∙ filled.uri_there;
                })
                (parse_parameters-SameTarget rest opts)))

  -- The options that the parser returns have an alias, a schema and a uri, none of them empty.
  pub parse_options-IsFilled :
      (uri : Bytes) (opts : ConnectionOptions)
      → parse_options split to_lower_copy uri ≡ ok opts
      → IsFilled opts
  parse_options-IsFilled uri opts h = subst (Ensures IsFilled) h (parse_options-Ensures uri)
