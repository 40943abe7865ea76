-- ===== src/Tests/Threads.antt =====
-- Instances of the theorems on a pool's threads, and on its queue.
use redis_async.Prelude.{
  ℕ, ◌≡◌, ◌<◌, refl, Bool, true, false, [], ◌∷◌, List, length, arith, ◌≤◌, if◌then◌else◌,
}
use redis_async.Connection.Events.{tcp_transport, create}
use redis_async.Pool.{Pool}
use redis_async.Pool.Draining.{Pairs}
use redis_async.Pool.Threads.{
  Reach, Thread, System, asks, looks_for_idle, takes_idle, tests_size, tests_closed, creates,
  pushes, enqueues, advance, in_hand, enters, moves,
}
use redis_async.Pool.Threads.Handed.{IsKept, Reach-IsKept}
use redis_async.Pool.Threads.Races.{Ended, Reach-idle, Reach-beyond_size}
use redis_async.Pool.Threads.Sized.{total, asking, ReachFew, here, later, IsSized, ReachFew-IsSized}
use redis_async.Tests.Pool.{new_pool, idle_pool, ask}

abbrev never : ℕ → Bool
never c = false

-- A pool of which both connections are busy.
abbrev busy_pool : Pool
busy_pool = record idle_pool { ready = [] }

Reach-idle_example :
    Reach never busy_pool (Ended never busy_pool (1 ∷ 2 ∷ []) (1 ∷ []) (ask 10 ∷ []) (ask 10 ∷ []))
Reach-idle_example = Reach-idle never busy_pool 1 (ask 10) 3 (refl, (refl, refl)) refl

Reach-IsKept_example :
    IsKept busy_pool (Ended never busy_pool (1 ∷ 2 ∷ []) (1 ∷ []) (ask 10 ∷ []) (ask 10 ∷ []))
Reach-IsKept_example =
    Reach-IsKept never busy_pool
      (Ended never busy_pool (1 ∷ 2 ∷ []) (1 ∷ []) (ask 10 ∷ []) (ask 10 ∷ []))
      (Reach-idle never busy_pool 1 (ask 10) 3 (refl, (refl, refl)) refl)

Reach-beyond_size_example :
    let three : List ℕ = 1 ∷ 2 ∷ 3 ∷ [] in
    Reach never new_pool
      (Ended never new_pool three [] (ask 10 ∷ ask 11 ∷ []) (ask 10 ∷ ask 11 ∷ []))
    × (2 < length three)
unfolding create
Reach-beyond_size_example =
    Reach-beyond_size never new_pool (ask 10) (ask 11) 2 3 tcp_transport (refl, (refl, refl))
      (omega arith) refl

-- One thread asks, and adds a second connection.
abbrev asking_system : Bool → Thread → System
asking_system added t = record {
  pool = if added then record new_pool { connections = 1 ∷ 2 ∷ [] } else new_pool;
  threads = t ∷ [];
  calls = [];
  asked = ask 10 ∷ [];
}

asking_test : ReachFew never 0 new_pool (asking_system true (enqueues (ask 10)))
unfolding in_hand advance create total asking
asking_test =
    let e = ask 10 in
    let step : (b c : Bool) (t u : Thread)
        → ReachFew never 0 new_pool (asking_system b t)
        → advance never (asking_system b t).pool t ≡ (((asking_system c u).pool, u), [])
        → total asking (u ∷ []) ≤ 1
        → ReachFew never 0 new_pool (asking_system c u) =
      λ b c t u r eq few. later r (moves [] [] t u (asking_system c u).pool [] refl eq) few in
    step false true (pushes e 2) (enqueues e)
      (step false false (creates e 2) (pushes e 2)
        (step false false (tests_closed e 2) (creates e 2)
          (step false false (tests_size e 2) (tests_closed e 2)
            (step false false (takes_idle e 2) (tests_size e 2)
              (step false false (looks_for_idle e 2) (takes_idle e 2)
                (step false false (asks e 2) (looks_for_idle e 2)
                  (later here (enters (asks e 2) refl) (omega arith)) refl (omega arith))
                refl (omega arith))
              refl (omega arith))
            refl (omega arith))
          refl (omega arith))
        refl (omega arith))
      refl (omega arith)

ReachFew-IsSized_example : IsSized never 0 new_pool (asking_system true (enqueues (ask 10)))
ReachFew-IsSized_example =
    ReachFew-IsSized never 0 new_pool (asking_system true (enqueues (ask 10))) (omega arith)
      asking_test

abbrev two_wait : Pool
two_wait = record new_pool { queue = ask 10 ∷ ask 11 ∷ [] }

abbrev pairs : Pairs
pairs = (1, ask 10) ∷ (2, ask 11) ∷ []
