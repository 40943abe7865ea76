-- ===== src/Commands/Hashes.antt =====
-- The commands on hashes: src/commands.cpp, lines 137 to 177.
use redis_async.Prelude.{[], ◌∷◌, List, Bytes, codes}
use redis_async.Errors.{Throws, ok, throw, client_error}
use redis_async.Commands.Types.{SingleCommand, single_command}
use redis_async.Commands.Args.{no_args, ◌<<◌, append_range, append_pairs}

unfoldable pub hset : Bytes → List (Bytes × Bytes) → Throws SingleCommand
unfolding append_pairs
hset key [] = throw (client_error (codes "HSET could not run without [field, value]"))
hset key (first ∷ kv) = ok (append_pairs (no_args << codes "HSET" << key) (first ∷ kv)).cmd

unfoldable pub hdel : Bytes → List Bytes → Throws SingleCommand
unfolding append_range
hdel key [] = throw (client_error (codes "HDEL could not run without keys"))
hdel key (first ∷ keys) = ok (append_range (no_args << codes "HDEL" << key) (first ∷ keys)).cmd

unfoldable pub hget : Bytes → Bytes → Throws SingleCommand
unfolding single_command
hget key field = single_command (codes "HGET" ∷ key ∷ field ∷ [])

unfoldable pub hkeys : Bytes → Throws SingleCommand
unfolding single_command
hkeys key = single_command (codes "HKEYS" ∷ key ∷ [])

unfoldable pub hmset : Bytes → List (Bytes × Bytes) → Throws SingleCommand
unfolding append_pairs
hmset key [] = throw (client_error (codes "HMSET could not run without fields/values"))
hmset key (first ∷ kv) = ok (append_pairs (no_args << codes "HMSET" << key) (first ∷ kv)).cmd

unfoldable pub hmget : Bytes → List Bytes → Throws SingleCommand
unfolding append_range
hmget key [] = throw (client_error (codes "HMGET could not run without fields"))
hmget key (first ∷ fields) =
    ok (append_range (no_args << codes "HMGET" << key) (first ∷ fields)).cmd
