-- ===== src/Commands/Lists.antt =====
-- The commands on lists: src/commands.cpp, lines 179 to 235.
use redis_async.Prelude.{[], ◌∷◌, List, Bytes, codes}
use redis_async.Prelude.Int.{ℤ}
use redis_async.Errors.{Throws, ok, throw, client_error}
use redis_async.Commands.Types.{SingleCommand, single_command}
use redis_async.Commands.Args.{no_args, ◌<<◌, ◌<<#◌, append_range}

unfoldable pub lpush : Bytes → List Bytes → Throws SingleCommand
unfolding append_range
lpush key [] = throw (client_error (codes "LPUSH could not run without elements"))
lpush key (first ∷ elements) =
    ok (append_range (no_args << codes "LPUSH" << key) (first ∷ elements)).cmd

unfoldable pub rpush : Bytes → List Bytes → Throws SingleCommand
unfolding append_range
rpush key [] = throw (client_error (codes "RPUSH could not run without elements"))
rpush key (first ∷ elements) =
    ok (append_range (no_args << codes "RPUSH" << key) (first ∷ elements)).cmd

unfoldable pub lpop : Bytes → Throws SingleCommand
unfolding single_command
lpop key = single_command (codes "LPOP" ∷ key ∷ [])

unfoldable pub rpop : Bytes → Throws SingleCommand
unfolding single_command
rpop key = single_command (codes "RPOP" ∷ key ∷ [])

unfoldable pub llen : Bytes → Throws SingleCommand
unfolding single_command
llen key = single_command (codes "LLEN" ∷ key ∷ [])

unfoldable pub lrange : Bytes → ℤ → ℤ → Throws SingleCommand
unfolding ◌<<◌ ◌<<#◌
lrange key start stop = ok (no_args << codes "LRANGE" << key <<# start <<# stop).cmd

unfoldable pub lset : Bytes → ℤ → Bytes → Throws SingleCommand
unfolding ◌<<◌ ◌<<#◌
lset key index element = ok (no_args << codes "LSET" << key <<# index << element).cmd

unfoldable pub lrem : Bytes → ℤ → Bytes → Throws SingleCommand
unfolding ◌<<◌ ◌<<#◌
lrem key count element = ok (no_args << codes "LREM" << key <<# count << element).cmd

unfoldable pub lindex : Bytes → ℤ → Throws SingleCommand
unfolding ◌<<◌ ◌<<#◌
lindex key index = ok (no_args << codes "LINDEX" << key <<# index).cmd

unfoldable pub ltrim : Bytes → ℤ → ℤ → Throws SingleCommand
unfolding ◌<<◌ ◌<<#◌
ltrim key start stop = ok (no_args << codes "LTRIM" << key <<# start <<# stop).cmd
