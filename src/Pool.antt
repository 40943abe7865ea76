-- ===== src/Pool.antt =====
-- The pool of connections: src/details/connection/connection_pool.cpp. A connection is a number, a
-- null pointer is `none`; what the pool calls on others is a list of calls, in their order.
pub mod History
pub mod Invariant
pub mod Serves
pub mod Steps
pub mod Requests
pub mod Closing
pub mod Closed
pub mod Draining
pub mod Threads
use redis_async.Prelude.{
  ℕ, zero, suc, Option, none, some, Bool, true, false, ◌&&◌, not, [], ◌∷◌, ◌++◌, List, Bytes, codes,
  length, ltb, ◌==◌, if◌then◌else◌,
}
use redis_async.Errors.{
  raise, bad_function_call, RdError, connection_error, Throws, ok, throw, ◌>>=◌,
}
use redis_async.Options.{ConnectionOptions}
use redis_async.Connection.Events.{Execute, create}

-- `connection_pool::impl`
pub record Pool : Type 0 where
  pub pool_size : ℕ
  pub co : ConnectionOptions
  pub connections : List ℕ
  pub ready : List ℕ
  pub queue : List Execute
  pub closed : Bool
  pub closed_callback : Option ℕ

-- What the pool calls: `execute` and `terminate` of a connection, the error callback of a request,
-- and the callback of `close`.
pub data Call : Type 0 where
  execute : ℕ → Execute → Call
  terminate : ℕ → Call
  fail : ℕ → RdError → Call
  call_closed : ℕ → Call

-- The constructor of `impl`.
unfoldable pub construct : ℕ → ConnectionOptions → Throws Pool
construct zero co = throw (connection_error (codes "Database connection pool size cannot be zero"))
construct (suc n) co = elim co.uri [
  | [] ↦ throw (connection_error (codes "No URI in database connection string"))
  | _ ∷ _ ↦ ok (record {
    pool_size = suc n;
    co = co;
    connections = [];
    ready = [];
    queue = [];
    closed = false;
    closed_callback = none;
  })
]

-- The front of a queue, and what is behind it.
abbrev pub pop {ℓ} : {A : Type ℓ} → List A → Option (A × List A)
pop [] = none
pop (x ∷ xs) = some (x, xs)

unfoldable pub get_idle_connection : Pool → Option (ℕ × Pool)
get_idle_connection p =
    if p.closed
    then none
    else elim (pop p.ready) [ none ↦ none | some (c, rest) ↦ some (c, record p { ready = rest }) ]

unfoldable pub add_idle_connection : Pool → ℕ → Pool
add_idle_connection p c = if p.closed then p else record p { ready = p.ready ++ c ∷ [] }

-- `std::find` and `erase`: the first connection that is `c`.
unfoldable pub erase : ℕ → List ℕ → List ℕ
erase c [] = []
erase c (d ∷ ds) = if d == c then ds else d ∷ erase c ds

-- No connection of the container is the null pointer.
unfoldable pub erase_connection : Pool → Option ℕ → Pool
unfolding erase
erase_connection p none = p
erase_connection p (some c) = record p { connections = erase c p.connections }

unfoldable pub next_event : Pool → Option (Execute × Pool)
next_event p = elim (pop p.queue) [
  | none ↦ none
  | some (e, rest) ↦ some (e, record p { queue = rest })
]

unfoldable pub enqueue_event : Pool → Execute → Pool
enqueue_event p e = record p { queue = p.queue ++ e ∷ [] }

-- The error callback of a request, if it has one.
abbrev pub call_error : Option ℕ → RdError → List Call
call_error none err = []
call_error (some callback) err = fail callback err ∷ []

unfoldable pub fail_all : List Execute → RdError → List Call
fail_all [] err = []
fail_all (e ∷ es) err = call_error e.error err ++ fail_all es err

unfoldable pub clear_queue : Pool → RdError → Pool × List Call
unfolding fail_all
clear_queue p err = (record p { queue = [] }, fail_all p.queue err)

-- `fresh` is the connection that is made.
unfoldable pub create_new_connection : Pool → ℕ → Throws Pool
create_new_connection p fresh =
    if p.closed
    then ok p
    else create p.co >>= λ _. ok (record p { connections = p.connections ++ fresh ∷ [] })

-- The callback of `close`, if there is one.
abbrev pub call_back : Option ℕ → List Call
call_back none = []
call_back (some callback) = call_closed callback ∷ []

abbrev pub is_nil {ℓ} : {A : Type ℓ} → List A → Bool
is_nil [] = true
is_nil (x ∷ xs) = false

unfoldable pub connection_terminated : Pool → Option ℕ → Pool × List Call
unfolding erase_connection
connection_terminated p c =
    let q = erase_connection p c in
    (q, if is_nil q.connections && q.closed then call_back q.closed_callback else [])

-- The error callback of a request, called without a test.
abbrev pub refuse : Option ℕ → RdError → Throws (List Call)
refuse none err = raise bad_function_call
refuse (some callback) err = ok (fail callback err ∷ [])

unfoldable pub connection_error_pool : Pool → Option ℕ → RdError → Pool × List Call
unfolding clear_queue erase_connection
connection_error_pool p c err = clear_queue (erase_connection p c) err

-- The request's buffer is written already; `fresh` is the connection that may be made.
unfoldable pub get_connection : Pool → Execute → ℕ → Throws (Pool × List Call)
unfolding get_idle_connection create_new_connection enqueue_event
get_connection p e fresh =
    if p.closed
    then (refuse e.error (connection_error (codes "Connection pool is closed")) >>= λ calls.
        ok (p, calls))
    else elim (get_idle_connection p) [
      | some (c, q) ↦ ok (q, execute c e ∷ [])
      | none ↦
          (if not p.closed && ltb (length p.connections) p.pool_size
            then create_new_connection p fresh
            else ok p)
          >>= λ q. ok (enqueue_event q e, [])
    ]

-- `connection_pool::create`, with its first connection.
unfoldable pub create_pool : ℕ → ConnectionOptions → ℕ → Throws Pool
unfolding construct create_new_connection
create_pool pool_size co fresh = construct pool_size co >>= λ p. create_new_connection p fresh

-- `at_once c`: the machine of the connection `c` is in a state in which `terminate` takes effect
-- within the call, so that `connection_terminated` is called back before it returns.
module _ (at_once : ℕ → Bool) where
  -- The loop over the copy.
  unfoldable pub terminate_all : Pool → List ℕ → Pool × List Call
  unfolding connection_terminated
  terminate_all p [] = (p, [])
  terminate_all p (c ∷ copy) =
      let (q, calls) = if at_once c then connection_terminated p (some c) else (p, []) in
      let (r, more) = terminate_all q copy in (r, terminate c ∷ (calls ++ more))

  unfoldable pub close_connections : Pool → Pool × List Call
  unfolding terminate_all
  close_connections p =
      let (q, calls) = terminate_all p p.connections in (q, calls ++ call_back q.closed_callback)

  unfoldable pub connection_ready : Pool → ℕ → Pool × List Call
  unfolding next_event close_connections add_idle_connection
  connection_ready p c = elim (next_event p) [
    | some (e, q) ↦ (q, execute c e ∷ [])
    | none ↦ if p.closed then close_connections p else (add_idle_connection p c, [])
  ]

  unfoldable pub close : Pool → Option ℕ → Pool × List Call
  unfolding close_connections
  close p callback =
      let q = record p { closed = true; closed_callback = callback } in
      if p.closed then (p, []) else if is_nil q.queue then close_connections q else (q, [])
