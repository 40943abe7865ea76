-- ===== src/Commands/Request/Words.antt =====
-- The words of each command of src/commands.cpp, as the server's commands spell them, stated apart
-- from the code that builds them.
use redis_async.Prelude.{
  ◌≡◌, refl, ap, Bool, true, false, Option, none, some, zero, suc, [], ◌∷◌, ◌++◌, List, Bytes,
  codes,
}
use redis_async.Prelude.Int.{ℤ, pos, negsuc}
use redis_async.Prelude.Decimal.{to_string}
use redis_async.Errors.{Throws, ok, throw, client_error}
use redis_async.Commands.Types.{SingleCommand, UpdateType, exist, not_exist, always, other}
use redis_async.Commands.Args.{
  CmdArgs, ◌<<◌, no_args, append_range, append_pairs, flatten_pairs, append_range-arguments,
  append_pairs-arguments,
}
use redis_async.Commands.Keys
use redis_async.Commands.Hashes
use redis_async.Commands.Lists
use redis_async.Commands.Sets
use redis_async.Commands.Keys.{is_positive}
use redis_async.Commands.Request.{
  Request, build, ping, echo, set, get, mset, del, exists, expire, pexpire, ttl, pttl, rename, keys,
  mget, hset, hdel, hget, hkeys, hmset, hmget, lpush, rpush, lpop, rpop, llen, lrange, lset, lrem,
  lindex, ltrim, sadd, scard, sdiff, sdiffstore, sinter, sinterstore, smembers, spop, srem, sunion,
  sunionstore,
}

abbrev option_list : Option Bytes → List Bytes
option_list none = []
option_list (some b) = b ∷ []

-- "PX" and the milliseconds, for a time to live that is positive.
abbrev px : ℤ → List Bytes
px (pos (suc n)) = codes "PX" ∷ to_string (pos (suc n)) ∷ []
px _ = []

-- A count that is positive.
abbrev amount : ℤ → List Bytes
amount (pos (suc n)) = to_string (pos (suc n)) ∷ []
amount _ = []

abbrev condition : UpdateType → List Bytes
condition exist = codes "XX" ∷ []
condition not_exist = codes "NX" ∷ []
condition _ = []

abbrev is_empty {ℓ} : {A : Type ℓ} → List A → Bool
is_empty [] = true
is_empty (x ∷ xs) = false

abbrev is_other : UpdateType → Bool
is_other (other n) = true
is_other _ = false

abbrev pub words : Request → List Bytes
words (ping msg) = codes "PING" ∷ option_list msg
words (echo msg) = codes "ECHO" ∷ msg ∷ []
words (set key value type time) = codes "SET" ∷ key ∷ value ∷ (px time ++ condition type)
words (get key) = codes "GET" ∷ key ∷ []
words (mset items) = codes "MSET" ∷ flatten_pairs items
words (del items) = codes "DEL" ∷ items
words (exists items) = codes "EXISTS" ∷ items
words (expire key time) = codes "EXPIRE" ∷ key ∷ to_string time ∷ []
words (pexpire key time) = codes "PEXPIRE" ∷ key ∷ to_string time ∷ []
words (ttl key) = codes "TTL" ∷ key ∷ []
words (pttl key) = codes "PTTL" ∷ key ∷ []
words (rename key newkey) = codes "RENAME" ∷ key ∷ newkey ∷ []
words (keys glob) = codes "KEYS" ∷ glob ∷ []
words (mget items) = codes "MGET" ∷ items
words (hset key items) = codes "HSET" ∷ key ∷ flatten_pairs items
words (hdel key items) = codes "HDEL" ∷ key ∷ items
words (hget key field) = codes "HGET" ∷ key ∷ field ∷ []
words (hkeys key) = codes "HKEYS" ∷ key ∷ []
words (hmset key items) = codes "HMSET" ∷ key ∷ flatten_pairs items
words (hmget key items) = codes "HMGET" ∷ key ∷ items
words (lpush key items) = codes "LPUSH" ∷ key ∷ items
words (rpush key items) = codes "RPUSH" ∷ key ∷ items
words (lpop key) = codes "LPOP" ∷ key ∷ []
words (rpop key) = codes "RPOP" ∷ key ∷ []
words (llen key) = codes "LLEN" ∷ key ∷ []
words (lrange key start stop) = codes "LRANGE" ∷ key ∷ to_string start ∷ to_string stop ∷ []
words (lset key index element) = codes "LSET" ∷ key ∷ to_string index ∷ element ∷ []
words (lrem key count element) = codes "LREM" ∷ key ∷ to_string count ∷ element ∷ []
words (lindex key index) = codes "LINDEX" ∷ key ∷ to_string index ∷ []
words (ltrim key start stop) = codes "LTRIM" ∷ key ∷ to_string start ∷ to_string stop ∷ []
words (sadd key items) = codes "SADD" ∷ key ∷ items
words (scard key) = codes "SCARD" ∷ key ∷ []
words (sdiff items) = codes "SDIFF" ∷ items
words (sdiffstore dest items) = codes "SDIFFSTORE" ∷ dest ∷ items
words (sinter items) = codes "SINTER" ∷ items
words (sinterstore dest items) = codes "SINTERSTORE" ∷ dest ∷ items
words (smembers key) = codes "SMEMBERS" ∷ key ∷ []
words (spop key count) = codes "SPOP" ∷ key ∷ amount count
words (srem key items) = codes "SREM" ∷ key ∷ items
words (sunion items) = codes "SUNION" ∷ items
words (sunionstore dest items) = codes "SUNIONSTORE" ∷ dest ∷ items

-- The calls that are refused: a list of keys, members or pairs that is empty, and a type of update
-- that is none of the enumerators.
abbrev pub is_refused : Request → Bool
is_refused (set _ _ type _) = is_other type
is_refused (mset items) = is_empty items
is_refused (del items) = is_empty items
is_refused (exists items) = is_empty items
is_refused (mget items) = is_empty items
is_refused (hset _ items) = is_empty items
is_refused (hdel _ items) = is_empty items
is_refused (hmset _ items) = is_empty items
is_refused (hmget _ items) = is_empty items
is_refused (lpush _ items) = is_empty items
is_refused (rpush _ items) = is_empty items
is_refused (sadd _ items) = is_empty items
is_refused (sdiff items) = is_empty items
is_refused (sdiffstore _ items) = is_empty items
is_refused (sinter items) = is_empty items
is_refused (sinterstore _ items) = is_empty items
is_refused (srem _ items) = is_empty items
is_refused (sunion items) = is_empty items
is_refused (sunionstore _ items) = is_empty items
is_refused _ = false

abbrev pub Builds : Request → Type 0
Builds r =
    (is_refused r ≡ false → build r ≡ ok (record { arguments = words r }))
    × (is_refused r ≡ true → (msg : Bytes) × (build r ≡ throw (client_error msg)))

ok_range :
    (args : CmdArgs) (range : List Bytes)
    → ◌≡◌ {A = Throws SingleCommand}
        (ok (append_range args range).cmd)
        (ok (record { arguments = args.cmd.arguments ++ range }))
ok_range args range = ap (λ ws. ok (record { arguments = ws })) (append_range-arguments range args)

ok_pairs :
    (args : CmdArgs) (range : List (Bytes × Bytes))
    → ◌≡◌ {A = Throws SingleCommand}
        (ok (append_pairs args range).cmd)
        (ok (record { arguments = args.cmd.arguments ++ flatten_pairs range }))
ok_pairs args range = ap (λ ws. ok (record { arguments = ws })) (append_pairs-arguments range args)

-- Every call that is not refused builds the words of its command, in their order and with every
-- element of a list; every call that is refused, for an empty list or a type of update that no
-- enumerator has, throws a `client_error`.
pub build-words : (r : Request) → Builds r
unfolding build
build-words (ping none) = (λ _. unfold Keys.ping in refl, λ e. cc)
build-words (ping (some msg)) = (λ _. unfold Keys.ping in refl, λ e. cc)
build-words (set key value (other n) time) = (λ e. cc, λ _. unfold Keys.set in (_, refl))
build-words (set key value exist (pos zero)) = (λ _. unfold Keys.set in refl, λ e. cc)
build-words (set key value exist (pos (suc n))) = (λ _. unfold Keys.set in refl, λ e. cc)
build-words (set key value exist (negsuc n)) = (λ _. unfold Keys.set in refl, λ e. cc)
build-words (set key value not_exist (pos zero)) = (λ _. unfold Keys.set in refl, λ e. cc)
build-words (set key value not_exist (pos (suc n))) = (λ _. unfold Keys.set in refl, λ e. cc)
build-words (set key value not_exist (negsuc n)) = (λ _. unfold Keys.set in refl, λ e. cc)
build-words (set key value always (pos zero)) = (λ _. unfold Keys.set in refl, λ e. cc)
build-words (set key value always (pos (suc n))) = (λ _. unfold Keys.set in refl, λ e. cc)
build-words (set key value always (negsuc n)) = (λ _. unfold Keys.set in refl, λ e. cc)
build-words (spop key (pos zero)) = (λ _. unfold Sets.spop in refl, λ e. cc)
build-words (spop key (pos (suc n))) = (λ _. unfold Sets.spop in refl, λ e. cc)
build-words (spop key (negsuc n)) = (λ _. unfold Sets.spop in refl, λ e. cc)
build-words (echo msg) = (λ _. unfold Keys.echo in refl, λ e. cc)
build-words (get key) = (λ _. unfold Keys.get in refl, λ e. cc)
build-words (mset []) = (λ e. cc, λ _. unfold Keys.mset in (_, refl))
build-words (mset (item ∷ items)) =
    (λ _. unfold Keys.mset ◌<<◌ in ok_pairs (no_args << codes "MSET") (item ∷ items), λ e. cc)
build-words (del []) = (λ e. cc, λ _. unfold Keys.del in (_, refl))
build-words (del (item ∷ items)) =
    (λ _. unfold Keys.del ◌<<◌ in ok_range (no_args << codes "DEL") (item ∷ items), λ e. cc)
build-words (exists []) = (λ e. cc, λ _. unfold Keys.exists in (_, refl))
build-words (exists (item ∷ items)) =
    (λ _. unfold Keys.exists ◌<<◌ in ok_range (no_args << codes "EXISTS") (item ∷ items), λ e. cc)
build-words (expire key time) = (λ _. unfold Keys.expire in refl, λ e. cc)
build-words (pexpire key time) = (λ _. unfold Keys.pexpire in refl, λ e. cc)
build-words (ttl key) = (λ _. unfold Keys.ttl in refl, λ e. cc)
build-words (pttl key) = (λ _. unfold Keys.pttl in refl, λ e. cc)
build-words (rename key newkey) = (λ _. unfold Keys.rename in refl, λ e. cc)
build-words (keys glob) = (λ _. unfold Keys.keys in refl, λ e. cc)
build-words (mget []) = (λ e. cc, λ _. unfold Keys.mget in (_, refl))
build-words (mget (item ∷ items)) =
    (λ _. unfold Keys.mget ◌<<◌ in ok_range (no_args << codes "MGET") (item ∷ items), λ e. cc)
build-words (hset key []) = (λ e. cc, λ _. unfold Hashes.hset in (_, refl))
build-words (hset key (item ∷ items)) = (
  λ _. unfold Hashes.hset ◌<<◌ in ok_pairs (no_args << codes "HSET" << key) (item ∷ items),
  λ e. cc,
)
build-words (hdel key []) = (λ e. cc, λ _. unfold Hashes.hdel in (_, refl))
build-words (hdel key (item ∷ items)) = (
  λ _. unfold Hashes.hdel ◌<<◌ in ok_range (no_args << codes "HDEL" << key) (item ∷ items),
  λ e. cc,
)
build-words (hget key field) = (λ _. unfold Hashes.hget in refl, λ e. cc)
build-words (hkeys key) = (λ _. unfold Hashes.hkeys in refl, λ e. cc)
build-words (hmset key []) = (λ e. cc, λ _. unfold Hashes.hmset in (_, refl))
build-words (hmset key (item ∷ items)) = (
  λ _. unfold Hashes.hmset ◌<<◌ in ok_pairs (no_args << codes "HMSET" << key) (item ∷ items),
  λ e. cc,
)
build-words (hmget key []) = (λ e. cc, λ _. unfold Hashes.hmget in (_, refl))
build-words (hmget key (item ∷ items)) = (
  λ _. unfold Hashes.hmget ◌<<◌ in ok_range (no_args << codes "HMGET" << key) (item ∷ items),
  λ e. cc,
)
build-words (lpush key []) = (λ e. cc, λ _. unfold Lists.lpush in (_, refl))
build-words (lpush key (item ∷ items)) = (
  λ _. unfold Lists.lpush ◌<<◌ in ok_range (no_args << codes "LPUSH" << key) (item ∷ items),
  λ e. cc,
)
build-words (rpush key []) = (λ e. cc, λ _. unfold Lists.rpush in (_, refl))
build-words (rpush key (item ∷ items)) = (
  λ _. unfold Lists.rpush ◌<<◌ in ok_range (no_args << codes "RPUSH" << key) (item ∷ items),
  λ e. cc,
)
build-words (lpop key) = (λ _. unfold Lists.lpop in refl, λ e. cc)
build-words (rpop key) = (λ _. unfold Lists.rpop in refl, λ e. cc)
build-words (llen key) = (λ _. unfold Lists.llen in refl, λ e. cc)
build-words (lrange key start stop) = (λ _. unfold Lists.lrange in refl, λ e. cc)
build-words (lset key index element) = (λ _. unfold Lists.lset in refl, λ e. cc)
build-words (lrem key count element) = (λ _. unfold Lists.lrem in refl, λ e. cc)
build-words (lindex key index) = (λ _. unfold Lists.lindex in refl, λ e. cc)
build-words (ltrim key start stop) = (λ _. unfold Lists.ltrim in refl, λ e. cc)
build-words (sadd key []) = (λ e. cc, λ _. unfold Sets.sadd in (_, refl))
build-words (sadd key (item ∷ items)) = (
  λ _. unfold Sets.sadd ◌<<◌ in ok_range (no_args << codes "SADD" << key) (item ∷ items),
  λ e. cc,
)
build-words (scard key) = (λ _. unfold Sets.scard in refl, λ e. cc)
build-words (sdiff []) = (λ e. cc, λ _. unfold Sets.sdiff in (_, refl))
build-words (sdiff (item ∷ items)) =
    (λ _. unfold Sets.sdiff ◌<<◌ in ok_range (no_args << codes "SDIFF") (item ∷ items), λ e. cc)
build-words (sdiffstore dest []) = (λ e. cc, λ _. unfold Sets.sdiffstore in (_, refl))
build-words (sdiffstore dest (item ∷ items)) = (
  λ _.
      unfold Sets.sdiffstore ◌<<◌ in
      ok_range (no_args << codes "SDIFFSTORE" << dest) (item ∷ items),
  λ e. cc,
)
build-words (sinter []) = (λ e. cc, λ _. unfold Sets.sinter in (_, refl))
build-words (sinter (item ∷ items)) =
    (λ _. unfold Sets.sinter ◌<<◌ in ok_range (no_args << codes "SINTER") (item ∷ items), λ e. cc)
build-words (sinterstore dest []) = (λ e. cc, λ _. unfold Sets.sinterstore in (_, refl))
build-words (sinterstore dest (item ∷ items)) = (
  λ _.
      unfold Sets.sinterstore ◌<<◌ in
      ok_range (no_args << codes "SINTERSTORE" << dest) (item ∷ items),
  λ e. cc,
)
build-words (smembers key) = (λ _. unfold Sets.smembers in refl, λ e. cc)
build-words (srem key []) = (λ e. cc, λ _. unfold Sets.srem in (_, refl))
build-words (srem key (item ∷ items)) = (
  λ _. unfold Sets.srem ◌<<◌ in ok_range (no_args << codes "SREM" << key) (item ∷ items),
  λ e. cc,
)
build-words (sunion []) = (λ e. cc, λ _. unfold Sets.sunion in (_, refl))
build-words (sunion (item ∷ items)) =
    (λ _. unfold Sets.sunion ◌<<◌ in ok_range (no_args << codes "SUNION") (item ∷ items), λ e. cc)
build-words (sunionstore dest []) = (λ e. cc, λ _. unfold Sets.sunionstore in (_, refl))
build-words (sunionstore dest (item ∷ items)) = (
  λ _.
      unfold Sets.sunionstore ◌<<◌ in
      ok_range (no_args << codes "SUNIONSTORE" << dest) (item ∷ items),
  λ e. cc,
)
