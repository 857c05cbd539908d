-- ===== src/Examples/RwGuards.antt =====
-- A guard that is moved to itself, on which the theorem of RwGuards holds.
use sweater.Prelude.{ℕ, ◌+◌, ◌≡◌, refl, List, [], ◌∷◌, Option, none, some}
use sweater.RwGuards.{acquire, release, Guards, construct, move_assign, destroy, Reach, new, step}
use sweater.RwGuards.Balance.{acquires-releases, acquires, releases, points}
use sweater.Threads.{weigh}

-- Mutex 7 is acquired once and released twice.
abbrev released_twice : Guards
released_twice = record { guards = none ∷ []; calls = release 7 ∷ release 7 ∷ acquire 7 ∷ [] }

abbrev self_moved : List (Option ℕ)
self_moved = none ∷ some 7 ∷ none ∷ []

released_twice-Reach : Reach released_twice self_moved
released_twice-Reach =
    step (step (step new (construct 7)) (move_assign 0 0 refl refl)) (destroy 0 refl)

acquires-releases_example :
    weigh (acquires 7) released_twice.calls + weigh (points 7) self_moved
    ≡ weigh (releases 7) released_twice.calls + weigh (points 7) released_twice.guards
acquires-releases_example =
    acquires-releases 7 {s = released_twice} {ms = self_moved} released_twice-Reach
