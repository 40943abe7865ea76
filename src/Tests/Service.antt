-- ===== src/Tests/Service.antt =====
-- Tests of the service, and instances of its theorems.
use redis_async.Prelude.{
  ◌≡◌, refl, ◌<◌, arith, none, some, true, false, [], ◌∷◌, Bytes, codes, List,
}
use redis_async.Errors.{ok, throw, connection_error}
use redis_async.Connection.Events.{create}
use redis_async.Pool as Pool
use redis_async.Pool.{Pool, Call, execute, create_pool}
use redis_async.Service.{
  Service, running, lookup, not_running, add_options, get_connection, stop, count_down, size,
}
use redis_async.Service.Abstract.{Ask, adds, requests, stops, respond_all, answers_all, view}
use redis_async.Service.Abstract.Isolated.{asked_of, replies_of, respond_all-asked_of}
use redis_async.Service.Abstract.Refines.{seen_all, respond_all-Refines}
use redis_async.Service.Stopping.{stop-stops}
use redis_async.Service.Singleton as Singleton
use redis_async.Service.Singleton.{default_pool_size, execute-stop, stop-calls}
use redis_async.Tests.Pool.{options, new_pool, idle_pool, ask}

abbrev other_pool : Bytes × Pool
other_pool = (codes "logs", new_pool)

abbrev service : Service
service = record { pool_size = 4; pools = other_pool ∷ []; state = running }

abbrev idle_service : Service
idle_service = record service { pools = other_pool ∷ (codes "main", idle_pool) ∷ [] }

idle_test :
    Pool.get_connection idle_pool (ask 10) 3
    ≡ ok (record idle_pool { ready = [] }, execute 1 (ask 10) ∷ [])
unfolding Pool.get_connection
idle_test = refl

abbrev asks : List Ask
asks =
    adds options (some 2) 1
    ∷ requests (codes "main") (ask 10) 3
    ∷ requests (codes "other") (ask 11) 4
    ∷ stops 7
    ∷ requests (codes "main") (ask 12) 5
    ∷ []

respond_all-Refines_example :
    seen_all (respond_all (λ c. true) service asks) ≡ answers_all (view service) asks
respond_all-Refines_example = respond_all-Refines (λ c. true) service asks

respond_all-asked_of_example :
    (replies_of (codes "main") asks (respond_all (λ c. true) service asks).1
      ≡ (respond_all (λ c. true) service (asked_of (codes "main") asks)).1)
    × (lookup (codes "main") (respond_all (λ c. true) service asks).0.pools
        ≡ lookup
            (codes "main")
            (respond_all (λ c. true) service (asked_of (codes "main") asks)).0.pools)
respond_all-asked_of_example = respond_all-asked_of (λ c. true) service (codes "main") asks

-- The request waits in the new pool, the alias other is not known, and nothing is served after stop.
respond_all_test :
    (respond_all (λ c. true) service asks).1
    ≡ ok []
      ∷ ok []
      ∷ throw (connection_error (codes "Database alias 'other' is not registered"))
      ∷ ok []
      ∷ throw not_running
      ∷ []
unfolding respond_all add_options create_pool create get_connection Pool.get_connection lookup stop
respond_all_test = refl

stop-stops_example :
    0 < (count_down (size idle_service.pools) (stop (λ c. false) idle_service 7).1).1
stop-stops_example =
    stop-stops (λ c. false) idle_service 7 refl (omega arith) (omega arith)
      ((refl, refl), ((refl, refl), tt))

-- The one service is made by the first call, and stopping it leaves none.
singleton_test :
    let (held, returned) = Singleton.add_connection_options none options (some 2) 1 in
    (returned ≡ ok tt)
    × ((Singleton.execute held (codes "main") (ask 10) 3).1 ≡ ok [])
    × ((Singleton.stop (λ c. true) held 7).0 ≡ none)
unfolding Singleton.add_connection_options Singleton.execute Singleton.stop add_options create_pool
    get_connection create Pool.get_connection
singleton_test = (refl, refl, refl)
