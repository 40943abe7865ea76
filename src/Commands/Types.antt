-- ===== src/Commands/Types.antt =====
-- The command that is sent: include/redis_async/commands.hpp and
-- include/redis_async/command_options.hpp.
use redis_async.Prelude.{[], ◌∷◌, List, Bytes, codes}
use redis_async.Prelude.Int.{ℤ}
use redis_async.Errors.{Throws, ok, throw, client_error}

-- `single_command_t`: the name of a command and its arguments.
pub record SingleCommand : Type 0 where
  pub arguments : List Bytes

-- `command_wrapper_t`: several commands, or one.
pub data CommandWrapper : Type 0 where
  container : List SingleCommand → CommandWrapper
  single : SingleCommand → CommandWrapper

-- The constructor from a list.
unfoldable pub single_command : List Bytes → Throws SingleCommand
single_command [] = throw (client_error (codes "Empty command not allowed"))
single_command (name ∷ args) = ok (record { arguments = name ∷ args })

-- `UpdateType`; `other` is a value of the enumeration's integer that no enumerator has.
pub data UpdateType : Type 0 where
  exist not_exist always : UpdateType
  other : ℤ → UpdateType
