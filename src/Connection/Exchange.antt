-- ===== src/Connection/Exchange.antt =====
-- The request of a command, and its text read back
-- (src/details/connection/connection_pool.cpp).
use redis_async.Prelude.{ℕ, ◌≡◌, ◌≢◌, ◌∙◌, sym, ap, Option, some, [], Bytes, append-nil}
use redis_async.Prelude.Int.{ℤ}
use redis_async.Commands.Types.{SingleCommand}
use redis_async.Protocol.Types.{array, positive, done}
use redis_async.Protocol.Parser.{parse}
use redis_async.Protocol.Parser.Bounds.{CastsToInt64}
use redis_async.Protocol.Serializer.{serialize, command_size}
use redis_async.Protocol.RoundTrip.{ReadsDecimals, Fits, strings, parse-serialize}
use redis_async.Connection.Events.{Execute}
use redis_async.Connection.Machine.{written}

-- The request of a command, as connection_pool::impl::get_connection makes it.
unfoldable pub request : SingleCommand → ℕ → Option ℕ → Execute
request cmd result error = record {
  buff = written (serialize [] cmd);
  result = some result;
  error = error;
}

module _ (lexical_cast : Bytes → Option ℤ) (max_size : ℕ) (casts : CastsToInt64 lexical_cast) where
  pub parsed_request :
      (cmd : SingleCommand)
      → ReadsDecimals lexical_cast
      → cmd.arguments ≢ []
      → Fits max_size cmd
      → parse lexical_cast max_size (written (serialize [] cmd))
        ≡ done (positive (array (strings cmd.arguments)) (command_size cmd))
  parsed_request cmd reads name fits =
      let (text, wrote, parsed) =
        parse-serialize lexical_cast max_size casts reads [] cmd name fits in
      ap (λ w. parse lexical_cast max_size (written w)) wrote
      ∙ ap (parse lexical_cast max_size) (sym (append-nil text))
      ∙ parsed []
