-- ===== src/Commands/Request.antt =====
-- Every command of src/commands.cpp as one type, so that a property can speak of them all.
pub mod Words
use redis_async.Prelude.{Option, List, Bytes}
use redis_async.Prelude.Int.{ℤ}
use redis_async.Errors.{Throws}
use redis_async.Commands.Types.{SingleCommand, UpdateType}
use redis_async.Commands.Keys
use redis_async.Commands.Hashes
use redis_async.Commands.Lists
use redis_async.Commands.Sets

-- A call of one of the functions, with its arguments.
pub data Request : Type 0 where
  ping : Option Bytes → Request
  echo : Bytes → Request
  set : Bytes → Bytes → UpdateType → ℤ → Request
  get : Bytes → Request
  mset : List (Bytes × Bytes) → Request
  del : List Bytes → Request
  exists : List Bytes → Request
  expire : Bytes → ℤ → Request
  pexpire : Bytes → ℤ → Request
  ttl : Bytes → Request
  pttl : Bytes → Request
  rename : Bytes → Bytes → Request
  keys : Bytes → Request
  mget : List Bytes → Request
  hset : Bytes → List (Bytes × Bytes) → Request
  hdel : Bytes → List Bytes → Request
  hget : Bytes → Bytes → Request
  hkeys : Bytes → Request
  hmset : Bytes → List (Bytes × Bytes) → Request
  hmget : Bytes → List Bytes → Request
  lpush : Bytes → List Bytes → Request
  rpush : Bytes → List Bytes → Request
  lpop : Bytes → Request
  rpop : Bytes → Request
  llen : Bytes → Request
  lrange : Bytes → ℤ → ℤ → Request
  lset : Bytes → ℤ → Bytes → Request
  lrem : Bytes → ℤ → Bytes → Request
  lindex : Bytes → ℤ → Request
  ltrim : Bytes → ℤ → ℤ → Request
  sadd : Bytes → List Bytes → Request
  scard : Bytes → Request
  sdiff : List Bytes → Request
  sdiffstore : Bytes → List Bytes → Request
  sinter : List Bytes → Request
  sinterstore : Bytes → List Bytes → Request
  smembers : Bytes → Request
  spop : Bytes → ℤ → Request
  srem : Bytes → List Bytes → Request
  sunion : List Bytes → Request
  sunionstore : Bytes → List Bytes → Request

-- The call itself.
unfoldable pub build : Request → Throws SingleCommand
build (ping msg) = Keys.ping msg
build (echo msg) = Keys.echo msg
build (set key value type time) = Keys.set key value type time
build (get key) = Keys.get key
build (mset items) = Keys.mset items
build (del items) = Keys.del items
build (exists items) = Keys.exists items
build (expire key time) = Keys.expire key time
build (pexpire key time) = Keys.pexpire key time
build (ttl key) = Keys.ttl key
build (pttl key) = Keys.pttl key
build (rename key newkey) = Keys.rename key newkey
build (keys glob) = Keys.keys glob
build (mget items) = Keys.mget items
build (hset key items) = Hashes.hset key items
build (hdel key items) = Hashes.hdel key items
build (hget key field) = Hashes.hget key field
build (hkeys key) = Hashes.hkeys key
build (hmset key items) = Hashes.hmset key items
build (hmget key items) = Hashes.hmget key items
build (lpush key items) = Lists.lpush key items
build (rpush key items) = Lists.rpush key items
build (lpop key) = Lists.lpop key
build (rpop key) = Lists.rpop key
build (llen key) = Lists.llen key
build (lrange key start stop) = Lists.lrange key start stop
build (lset key index element) = Lists.lset key index element
build (lrem key count element) = Lists.lrem key count element
build (lindex key index) = Lists.lindex key index
build (ltrim key start stop) = Lists.ltrim key start stop
build (sadd key items) = Sets.sadd key items
build (scard key) = Sets.scard key
build (sdiff items) = Sets.sdiff items
build (sdiffstore dest items) = Sets.sdiffstore dest items
build (sinter items) = Sets.sinter items
build (sinterstore dest items) = Sets.sinterstore dest items
build (smembers key) = Sets.smembers key
build (spop key count) = Sets.spop key count
build (srem key items) = Sets.srem key items
build (sunion items) = Sets.sunion items
build (sunionstore dest items) = Sets.sunionstore dest items
