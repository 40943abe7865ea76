-- ===== src/Commands/Sets.antt =====
-- The commands on sets: src/commands.cpp, lines 237 to 313.
use redis_async.Prelude.{[], ◌∷◌, List, Bytes, codes, if◌then◌else◌}
use redis_async.Prelude.Int.{ℤ}
use redis_async.Prelude.Decimal.{to_string}
use redis_async.Errors.{Throws, ok, throw, client_error}
use redis_async.Commands.Types.{SingleCommand, single_command}
use redis_async.Commands.Keys.{is_positive}
use redis_async.Commands.Args.{no_args, ◌<<◌, append_range}

unfoldable pub sadd : Bytes → List Bytes → Throws SingleCommand
unfolding append_range
sadd key [] = throw (client_error (codes "SADD could not run without elements"))
sadd key (first ∷ members) =
    ok (append_range (no_args << codes "SADD" << key) (first ∷ members)).cmd

unfoldable pub scard : Bytes → Throws SingleCommand
unfolding single_command
scard key = single_command (codes "SCARD" ∷ key ∷ [])

unfoldable pub sdiff : List Bytes → Throws SingleCommand
unfolding append_range
sdiff [] = throw (client_error (codes "SDIFF could not run without elements"))
sdiff (first ∷ keys) = ok (append_range (no_args << codes "SDIFF") (first ∷ keys)).cmd

unfoldable pub sdiffstore : Bytes → List Bytes → Throws SingleCommand
unfolding append_range
sdiffstore dest [] = throw (client_error (codes "SDIFFSTORE could not run without elements"))
sdiffstore dest (first ∷ keys) =
    ok (append_range (no_args << codes "SDIFFSTORE" << dest) (first ∷ keys)).cmd

unfoldable pub sinter : List Bytes → Throws SingleCommand
unfolding append_range
sinter [] = throw (client_error (codes "SINTER could not run without elements"))
sinter (first ∷ keys) = ok (append_range (no_args << codes "SINTER") (first ∷ keys)).cmd

unfoldable pub sinterstore : Bytes → List Bytes → Throws SingleCommand
unfolding append_range
sinterstore dest [] = throw (client_error (codes "SINTERSTORE could not run without elements"))
sinterstore dest (first ∷ keys) =
    ok (append_range (no_args << codes "SINTERSTORE" << dest) (first ∷ keys)).cmd

unfoldable pub smembers : Bytes → Throws SingleCommand
unfolding single_command
smembers key = single_command (codes "SMEMBERS" ∷ key ∷ [])

unfoldable pub spop : Bytes → ℤ → Throws SingleCommand
unfolding single_command is_positive
spop key count =
    if is_positive count
    then single_command (codes "SPOP" ∷ key ∷ to_string count ∷ [])
    else single_command (codes "SPOP" ∷ key ∷ [])

unfoldable pub srem : Bytes → List Bytes → Throws SingleCommand
unfolding append_range
srem key [] = throw (client_error (codes "SREM could not run without elements"))
srem key (first ∷ members) =
    ok (append_range (no_args << codes "SREM" << key) (first ∷ members)).cmd

unfoldable pub sunion : List Bytes → Throws SingleCommand
unfolding append_range
sunion [] = throw (client_error (codes "SUNION could not run without elements"))
sunion (first ∷ keys) = ok (append_range (no_args << codes "SUNION") (first ∷ keys)).cmd

unfoldable pub sunionstore : Bytes → List Bytes → Throws SingleCommand
unfolding append_range
sunionstore dest [] = throw (client_error (codes "SUNIONSTORE could not run without elements"))
sunionstore dest (first ∷ keys) =
    ok (append_range (no_args << codes "SUNIONSTORE" << dest) (first ∷ keys)).cmd
