-- ===== src/Serving/Conversation/Called.antt =====
-- What clients are told in a conversation, when the handlers that the connection posted to its strand
-- have run (include/redis_async/details/connection/connection_fsm.hpp).
use redis_async.Prelude.{
  ℕ, ◌^◌, ◌<◌, ◌≡◌, ◌≢◌, refl, sym, ap, subst, ◌∙◌, Option, none, some, Bool, false, [], ◌∷◌, ◌++◌,
  map, All, List, Bytes, length, ltb, arith,
}
use redis_async.Prelude.Int.{ℤ}
use redis_async.Protocol.Types.{Result}
use redis_async.Protocol.Parser.{parse}
use redis_async.Protocol.Parser.Bounds.{CastsToInt64}
use redis_async.Protocol.RoundTrip.{ReadsDecimals, Fits}
use redis_async.Connection.Events.{FsmEvent, recv, query_error, Transport}
use redis_async.Connection.Exchange.{request}
use redis_async.Connection.Reading.Replies.{Segment, join}
use redis_async.Connection.Machine.{Machine, Action, call_query_error, idle, no_query}
use redis_async.Connection.Delivery.{
  Ending, deliver, posted, exceptions, given, failed, HasError, deliver_complete,
}
use redis_async.Pool.{Pool}
use redis_async.Serving.{answers, all_answers, reads_on}
use redis_async.Serving.Arrivals.{all_events}
use redis_async.Serving.Conversation.{Talk, concat, request_of, replied, asked, converse}
use redis_async.Serving.Conversation.Spoken.{AreReads, converse-Spoken}

-- The results that the server sent, each with the result callback of its command.
abbrev result_of : ℕ → FsmEvent → List (ℕ × Result)
result_of callback (recv res) = (callback, res) ∷ []
result_of callback _ = []

unfoldable pub results_of : List Talk → List (ℕ × Result)
results_of [] = []
results_of (t ∷ talks) = result_of t.result t.reply ++ results_of talks

-- The errors that the server sent, each with the error callback of its command.
abbrev error_of : Option ℕ → FsmEvent → List (ℕ × Bytes)
error_of (some callback) (query_error what) = (callback, what) ∷ []
error_of _ _ = []

unfoldable pub errors_of : List Talk → List (ℕ × Bytes)
errors_of [] = []
errors_of (t ∷ talks) = error_of t.error t.reply ++ errors_of talks

-- The error callbacks that a connection calls for errors of the server.
unfoldable pub refused : List Action → List (ℕ × Bytes)
refused [] = []
refused (call_query_error error what ∷ acts) = (error, what) ∷ refused acts
refused (_ ∷ acts) = refused acts

refused-answers : (acts : List Action) → refused (answers acts) ≡ refused acts
unfolding refused answers
refused-answers [] = refl
refused-answers (a ∷ acts) = ground (arith, refused-answers acts)

refused-all_answers : (talks : List Talk) → refused (all_answers (replied talks)) ≡ errors_of talks
unfolding refused all_answers errors_of request
refused-all_answers [] = refl
refused-all_answers (t ∷ talks) = ground (arith, refused-all_answers talks)

module _ (ending : ℕ → Result → Ending) where
  deliver-answers :
      (acts : List Action)
      → All HasError (answers acts)
      → deliver ending (answers acts) ≡ deliver ending acts
  unfolding deliver answers
  deliver-answers [] h = refl
  deliver-answers (a ∷ acts) h = ground (arith, deliver-answers acts, h)

  posted-all_answers :
      (talks : List Talk) → posted ending (all_answers (replied talks)) ≡ results_of talks
  unfolding posted all_answers results_of request
  posted-all_answers [] = refl
  posted-all_answers (t ∷ talks) = ground (arith, posted-all_answers talks)

  all_answers-HasError :
      (talks : List Talk)
      → All (λ t. t.error ≢ none) talks
      → All HasError (all_answers (replied talks))
  unfolding all_answers request
  all_answers-HasError [] h = tt
  all_answers-HasError (t ∷ talks) h = ground (arith, h.0, all_answers-HasError talks h.1)

  -- What was called, when all handlers have run: each result callback with its result, the error
  -- callbacks of the commands that the server refused, and those of the result callbacks that threw.
  abbrev pub Called : List Talk → List Action → Type 0
  Called talks acts =
      let (notices, left) = deliver ending acts in
      (left ≡ [])
      × (given notices ≡ results_of talks)
      × (refused acts ≡ errors_of talks)
      × (failed notices ≡ exceptions ending (all_answers (replied talks)))

  Called-answers :
      (talks : List Talk) (acts : List Action)
      → All (λ t. t.error ≢ none) talks
      → answers acts ≡ all_answers (replied talks)
      → Called talks acts
  Called-answers talks acts errors answered =
      let with_errors = all_answers-HasError talks errors in
      let same : deliver ending acts ≡ deliver ending (all_answers (replied talks)) =
        sym (deliver-answers acts (subst (All HasError) (sym answered) with_errors))
        ∙ ap (deliver ending) answered in
      let (left, results, exceptions) =
        deliver_complete ending (all_answers (replied talks)) with_errors in
      (
        ap (λ d. d.1) same ∙ left,
        ap (λ d. given d.0) same ∙ results ∙ posted-all_answers talks,
        sym (refused-answers acts) ∙ ap refused answered ∙ refused-all_answers talks,
        ap (λ d. failed d.0) same ∙ exceptions,
      )

module _ (lexical_cast : Bytes → Option ℤ) (max_size : ℕ) (casts : CastsToInt64 lexical_cast)
    (reads : ReadsDecimals lexical_cast) (transport : Transport) (at_once : ℕ → Bool) (c : ℕ)
    (ending : ℕ → Result → Ending) where
  -- Under the conditions of converse-Spoken, and where each command has an error callback: when the
  -- replies have arrived and all handlers have run, each result that the server sent was given to the
  -- result callback of its command, in the order of the commands, and each error to the error
  -- callback of its command, and none to another; the error callback was called besides for each
  -- command of which the result callback threw, and for no other: with the exception itself, if it is
  -- an `rd_error`, and else with a `client_error` of the text of the exception, or of an unknown one.
  -- The conditions are: the pool is
  -- open and has all its connections, one of them idle, and no request waits; that connection is idle
  -- and has an idle callback; the commands have names, their counts fit `int64_t` and the most
  -- elements of an array, all their texts the count of a size_t; the replies are one for each
  -- command, in reads of whole replies of at most as many bytes as a size_t counts; and lexical_cast
  -- returns values of `int64_t` and reads decimal prints.
  pub converse-Called :
      (p : Pool) (m : Machine) (k fresh : ℕ) (t : Talk) (talks : List Talk)
      (arrivals : List (List Segment))
      → p.closed ≡ false
      → p.ready ≡ c ∷ []
      → p.queue ≡ []
      → ltb (length p.connections) p.pool_size ≡ false
      → m.state ≡ idle
      → m.query_ ≡ no_query
      → m.callbacks.idle_callback ≡ some k
      → All (λ t. (t.cmd.arguments ≢ []) × Fits max_size t.cmd) (t ∷ talks)
      → All (λ t. t.error ≢ none) (t ∷ talks)
      → length (concat (map (λ t. (request_of t).buff) (t ∷ talks))) < 2 ^ 64
      → AreReads lexical_cast max_size arrivals
      → all_events arrivals ≡ map (λ t. t.reply) (t ∷ talks)
      → (acts : List Action) × (converse transport at_once c
            (parse lexical_cast max_size)
            p
            m
            (asked fresh (t ∷ talks))
            (map join arrivals)
          ≡ reads_on p m [] acts)
        × Called ending (t ∷ talks) acts
  converse-Called p m k fresh t talks arrivals o r q full ready clear callback commands errors short
        whole replies =
      let (acts, outcome, answered, texts, heard) =
        converse-Spoken lexical_cast max_size casts reads transport at_once c p m k fresh t talks
          arrivals o r q full ready clear callback commands short whole replies in
      (acts, outcome, Called-answers ending (t ∷ talks) acts errors answered)
