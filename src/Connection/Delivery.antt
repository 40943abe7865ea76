-- ===== src/Connection/Delivery.antt =====
-- The results that a connection posts to its strand, when the io_service runs them: the handler of
-- notify_result in include/redis_async/details/connection/connection_fsm.hpp.
use redis_async.Prelude.{
  ℕ, ◌≡◌, ◌≢◌, refl, Option, none, some, [], ◌∷◌, ◌++◌, List, Bytes, codes, All, arith,
}
use redis_async.Errors.{RdError, client_error, client_error_of}
use redis_async.Protocol.Types.{Result}
use redis_async.Connection.Machine.{Action, post_result}

-- How a result callback ends: it returns, or throws an `rd_error`, another `std::exception` or
-- something else.
pub data Ending : Type 0 where
  returned raised_unknown : Ending
  raised : RdError → Ending
  raised_std : (what : Bytes) → Ending

-- The `catch` clauses: what the error callback is called with.
unfoldable pub caught : Ending → Option RdError
unfolding client_error_of
caught returned = none
caught (raised err) = some err
caught (raised_std what) = some (client_error_of what)
caught raised_unknown = some (client_error (codes "Unknown exception"))

-- What an error callback is to be told of how the result callback ended, stated apart from the code:
-- the `rd_error` itself, or a `client_error` with the text of another exception.
abbrev pub reported : Ending → Option RdError
reported returned = none
reported (raised err) = some err
reported (raised_std what) = some (client_error (codes "Client thrown exception: " ++ what))
reported raised_unknown = some (client_error (codes "Unknown exception"))

-- The calls of callbacks. An error callback that is empty throws `std::bad_function_call`.
pub data Notice : Type 0 where
  result_called : (result : ℕ) (res : Result) → Notice
  error_called : (error : ℕ) (err : RdError) → Notice
  bad_function_call : Notice

module _ (ending : ℕ → Result → Ending) where
  -- The handlers one after the other: the calls, and the handlers that are left when an exception
  -- leaves one of them.
  unfoldable pub deliver : List Action → List Notice × List Action
  unfolding caught
  deliver [] = ([], [])
  deliver (post_result result error res ∷ posts) =
      let (notices, left) = deliver posts in
      elim (caught (ending result res)) [
        | none ↦ (result_called result res ∷ notices, left)
        | some err ↦ elim error [
          | none ↦ (result_called result res ∷ bad_function_call ∷ [], posts)
          | some error_cb ↦ (result_called result res ∷ error_called error_cb err ∷ notices, left)
        ]
      ]
  deliver (_ ∷ posts) = deliver posts

  -- The results that were posted, in their order, and what is to be reported of their callbacks, with
  -- the error callbacks of their requests.
  unfoldable pub posted : List Action → List (ℕ × Result)
  posted [] = []
  posted (post_result result error res ∷ posts) = (result, res) ∷ posted posts
  posted (_ ∷ posts) = posted posts

  abbrev pub exception_of : Option ℕ → Option RdError → List (ℕ × RdError)
  exception_of (some error_cb) (some err) = (error_cb, err) ∷ []
  exception_of _ _ = []

  unfoldable pub exceptions : List Action → List (ℕ × RdError)
  exceptions [] = []
  exceptions (post_result result error res ∷ posts) =
      exception_of error (reported (ending result res)) ++ exceptions posts
  exceptions (_ ∷ posts) = exceptions posts

-- The results and the errors that callbacks were called with.
unfoldable pub given : List Notice → List (ℕ × Result)
given [] = []
given (result_called result res ∷ notices) = (result, res) ∷ given notices
given (_ ∷ notices) = given notices

unfoldable pub failed : List Notice → List (ℕ × RdError)
failed [] = []
failed (error_called error err ∷ notices) = (error, err) ∷ failed notices
failed (_ ∷ notices) = failed notices

-- The request has an error callback.
abbrev pub HasError : Action → Type 0
HasError (post_result result error res) = error ≢ none
HasError _ = Unit

module _ (ending : ℕ → Result → Ending) where
  -- When each result was posted with an error callback, all handlers run, whatever their result
  -- callbacks throw: each result callback is called once, in the order of the posts, with the result
  -- that was posted for it, and an error callback is called for each that throws and for no other,
  -- in their order: with the exception itself, if it is an `rd_error`, and else with a `client_error`
  -- of the text of the exception, or of an unknown one.
  pub deliver_complete :
      (posts : List Action)
      → All HasError posts
      → let (notices, left) = deliver ending posts in
        (left ≡ [])
        × (given notices ≡ posted ending posts)
        × (failed notices ≡ exceptions ending posts)
  unfolding deliver caught client_error_of posted exceptions given failed
  deliver_complete [] h = (refl, refl, refl)
  deliver_complete (a ∷ posts) h = ground (arith, deliver_complete posts h.1)
