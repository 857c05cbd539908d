-- ===== src/Examples/ReadRecursion.antt =====
-- A thread's recursive read locks, on which the theorem of ReadRecursion holds.
use sweater.Prelude.{◌≡◌, min, arith, false, List, [], ◌∷◌}
use sweater.Threads.{weigh}
use sweater.ReadRecursion.{Call, acquire, release, try_acquire, calls}
use sweater.ReadRecursion.Depths.{depths}
use sweater.ReadRecursion.Balance.{calls_depth, nothing_held, calls-depths}

-- Two mutexes, one taken twice, an attempt that the operating system refuses, and releases.
abbrev nested : List Call
nested =
    acquire 8
    ∷ acquire 16
    ∷ try_acquire 8 false
    ∷ release 16
    ∷ try_acquire 24 false
    ∷ release 8
    ∷ []

calls-depths_example :
    (weigh (depths 8) (calls nested nothing_held).held ≡ calls_depth nested (λ m. 0) 8)
    × ((calls nested nothing_held).os_holds 8 ≡ min 1 (calls_depth nested (λ m. 0) 8))
calls-depths_example = calls-depths nested 8 (omega arith)
