-- ===== src/Commands/Keys.antt =====
-- The commands on keys and strings: src/commands.cpp, lines 13 to 135.
use redis_async.Prelude.{
  suc, Option, none, some, [], ◌∷◌, ◌++◌, List, Bytes, codes, Bool, true, false, if◌then◌else◌,
}
use redis_async.Prelude.Int.{ℤ, pos}
use redis_async.Prelude.Decimal.{to_string}
use redis_async.Errors.{Throws, ok, throw, client_error, ◌>>=◌}
use redis_async.Commands.Types.{
  SingleCommand, single_command, UpdateType, exist, not_exist, always, other,
}
use redis_async.Commands.Args.{CmdArgs, no_args, ◌<<◌, ◌<<#◌, append_range, append_pairs}

unfoldable pub set_update_type : CmdArgs → UpdateType → Throws CmdArgs
unfolding ◌<<◌
set_update_type args exist = ok (args << codes "XX")
set_update_type args not_exist = ok (args << codes "NX")
set_update_type args always = ok args
set_update_type args (other n) = throw (client_error (codes "Invalid update type " ++ to_string n))

-- A view with no data, the default argument, is `none`.
unfoldable pub ping : Option Bytes → Throws SingleCommand
unfolding single_command
ping none = single_command (codes "PING" ∷ [])
ping (some msg) = single_command (codes "PING" ∷ msg ∷ [])

unfoldable pub echo : Bytes → Throws SingleCommand
unfolding single_command
echo msg = single_command (codes "ECHO" ∷ msg ∷ [])

-- `n > 0`
unfoldable pub is_positive : ℤ → Bool
is_positive (pos (suc n)) = true
is_positive _ = false

-- The ttl is a count of milliseconds.
unfoldable pub set : Bytes → Bytes → UpdateType → ℤ → Throws SingleCommand
unfolding set_update_type is_positive ◌<<◌ ◌<<#◌
set key value type ttl =
    let args = no_args << codes "SET" << key << value in
    let timed = if is_positive ttl then args << codes "PX" <<# ttl else args in
    set_update_type timed type >>= λ updated. ok updated.cmd

unfoldable pub set_always : Bytes → Bytes → Throws SingleCommand
unfolding set
set_always key value = set key value always (pos 0)

unfoldable pub set_type : Bytes → Bytes → UpdateType → Throws SingleCommand
unfolding set
set_type key value type = set key value type (pos 0)

unfoldable pub set_ttl : Bytes → Bytes → ℤ → Throws SingleCommand
unfolding set
set_ttl key value ttl = set key value always ttl

unfoldable pub get : Bytes → Throws SingleCommand
unfolding single_command
get key = single_command (codes "GET" ∷ key ∷ [])

unfoldable pub mset : List (Bytes × Bytes) → Throws SingleCommand
unfolding append_pairs
mset [] = throw (client_error (codes "MSET could not run without parameters"))
mset (first ∷ kv) = ok (append_pairs (no_args << codes "MSET") (first ∷ kv)).cmd

unfoldable pub del : List Bytes → Throws SingleCommand
unfolding append_range
del [] = throw (client_error (codes "DEL could not run without parameters"))
del (first ∷ keys) = ok (append_range (no_args << codes "DEL") (first ∷ keys)).cmd

unfoldable pub exists : List Bytes → Throws SingleCommand
unfolding append_range
exists [] = throw (client_error (codes "EXISTS could not run without parameters"))
exists (first ∷ keys) = ok (append_range (no_args << codes "EXISTS") (first ∷ keys)).cmd

unfoldable pub expire : Bytes → ℤ → Throws SingleCommand
unfolding ◌<<◌ ◌<<#◌
expire key ttl = ok (no_args << codes "EXPIRE" << key <<# ttl).cmd

unfoldable pub pexpire : Bytes → ℤ → Throws SingleCommand
unfolding ◌<<◌ ◌<<#◌
pexpire key ttl = ok (no_args << codes "PEXPIRE" << key <<# ttl).cmd

unfoldable pub ttl : Bytes → Throws SingleCommand
unfolding single_command
ttl key = single_command (codes "TTL" ∷ key ∷ [])

unfoldable pub pttl : Bytes → Throws SingleCommand
unfolding single_command
pttl key = single_command (codes "PTTL" ∷ key ∷ [])

unfoldable pub rename : Bytes → Bytes → Throws SingleCommand
unfolding single_command
rename key newkey = single_command (codes "RENAME" ∷ key ∷ newkey ∷ [])

unfoldable pub keys : Bytes → Throws SingleCommand
unfolding single_command
keys glob = single_command (codes "KEYS" ∷ glob ∷ [])

unfoldable pub mget : List Bytes → Throws SingleCommand
unfolding append_range
mget [] = throw (client_error (codes "MGET could not run without parameters"))
mget (first ∷ keys) = ok (append_range (no_args << codes "MGET") (first ∷ keys)).cmd
