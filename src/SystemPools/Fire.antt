-- ===== src/SystemPools/Fire.antt =====
-- fire_and_forget of the shops over the system's pools (impls/apple.hpp, windows.hpp, openmp.hpp and
-- single_threaded.hpp), fire_with_after of impls/libuv.hpp, and dispatch over them, with the waiting
-- for idleness of dispatch_tracking.hpp. Whether the system has the memory and takes the work is a
-- parameter; work that it takes it calls once.
pub mod Settled
pub mod Items
pub mod Within
pub mod Idle
use sweater.Prelude.{
  ℕ, ◌+◌, Bool, true, false, List, [], ◌∷◌, ◌++◌, Option, none, some, ◌==◌, if◌then◌else◌,
}
use sweater.Future.Lite.{Outcome, value, thrown}

pub data Pool : Type 0 where
  apple : Pool
  windows : Pool
  libuv : Pool
  openmp : Pool
  -- with the threads that the build has, or without (Emscripten)
  single_threaded : (threads : Bool) → Pool

-- How fire_and_forget ends: it returns nothing or a bool, or std::thread's constructor throws.
pub data Ended : Type 0 where
  returned : Bool → Ended
  returned_void : Ended
  threw_system_error : Ended

-- What is done for one item of work, by the caller or by the system's threads.
pub data Event : Type 0 where
  allocate : Event
  in_flight_inc : Event
  run : Event
  after : Event
  in_flight_dec : Event
  deallocate : Event

-- What the system grants an item: the memory, and a place in its queue or a thread of its own.
pub record Granted : Type 0 where
  pub allocated : Bool
  pub queued : Bool

-- Whether the functor fits into a pointer and is trivial to copy and destroy.
unfoldable pub apple_fire_and_forget : (fits : Bool) → List Event
apple_fire_and_forget true = in_flight_inc ∷ run ∷ in_flight_dec ∷ []
apple_fire_and_forget false = allocate ∷ in_flight_inc ∷ run ∷ deallocate ∷ in_flight_dec ∷ []

-- The callback, or the caller itself where the pool is exhausted. With what is returned.
unfoldable pub windows_fire_and_forget : (fits : Bool) → Granted → List Event × Bool
windows_fire_and_forget true g =
    let callback = run ∷ in_flight_dec ∷ [] in
    let run_inline = run ∷ in_flight_dec ∷ [] in
    (in_flight_inc ∷ (if g.queued then callback else run_inline), true)
windows_fire_and_forget false g =
    let callback = run ∷ deallocate ∷ in_flight_dec ∷ [] in
    let run_inline = run ∷ deallocate ∷ in_flight_dec ∷ [] in
    if g.allocated
    then (allocate ∷ in_flight_inc ∷ (if g.queued then callback else run_inline), true)
    else ([], false)

unfoldable pub fire_with_after : Granted → List Event × Bool
fire_with_after g =
    let callbacks = run ∷ after ∷ in_flight_dec ∷ deallocate ∷ [] in
    if g.allocated
    then (if g.queued
        then (allocate ∷ in_flight_inc ∷ callbacks, true)
        else (allocate ∷ in_flight_inc ∷ in_flight_dec ∷ deallocate ∷ [], false))
    else ([], false)

-- std::thread( work ).detach(): its constructor throws when the system has no thread for it.
unfoldable pub detached_thread : Granted → List Event × Ended
detached_thread g = if g.queued then (run ∷ [], returned_void) else ([], threw_system_error)

unfoldable pub fire_and_forget : Pool → (fits : Bool) → Granted → List Event × Ended
fire_and_forget apple fits g = (apple_fire_and_forget fits, returned_void)
fire_and_forget windows fits g =
    let (events, fired) = windows_fire_and_forget fits g in (events, returned fired)
fire_and_forget libuv fits g = let (events, fired) = fire_with_after g in (events, returned fired)
fire_and_forget openmp fits g = detached_thread g
fire_and_forget (single_threaded true) fits g = detached_thread g
fire_and_forget (single_threaded false) fits g = (run ∷ [], returned_void)

module _ {A E : Type 0} (broken : E) where
  -- The promise in dispatch's closure: it gets what the work returns or throws, and when the closure
  -- is destroyed before that, an exception.
  unfoldable pub complete : Outcome A E → List Event → Option (Outcome A E) → Option (Outcome A E)
  complete work [] none = some (thrown broken)
  complete work [] (some o) = some o
  complete work (run ∷ events) o = complete work events (some work)
  complete work (_ ∷ events) o = complete work events o

  -- dispatch, dispatch_lite and dispatch_outcome of apple.hpp and windows.hpp: the closure has the
  -- promise, so it does not fit into a pointer, and what fire_and_forget returns is not looked at.
  unfoldable pub apple_dispatch : Outcome A E → Option (Outcome A E)
  apple_dispatch work = complete work (apple_fire_and_forget false) none

  unfoldable pub windows_dispatch : Granted → Outcome A E → Option (Outcome A E)
  windows_dispatch g work = complete work (windows_fire_and_forget false g).0 none

-- wait_until_idle, by the count that each poll finds and whether the deadline is over then. It returns
-- whether all is idle, and `none` if it polls on.
unfoldable pub wait_until_idle : List (ℕ × Bool) → Option Bool
wait_until_idle [] = none
wait_until_idle ((in_flight, expired) ∷ polls) =
    let rest = wait_until_idle polls in
    if in_flight == 0 then some true else if expired then some false else rest
