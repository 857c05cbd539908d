-- ===== src/Shop/Lifetime.antt =====
-- generic.hpp: what create_fire_and_destroy does with the functor that it makes, from the
-- construction to the worker's call, and dispatch over it; dispatch_lite and dispatch_outcome differ
-- from dispatch in the types of the promise and the future. The queue is third-party code: whether it
-- takes the work, and how often it moves it, are parameters. Constructions that throw are left out.
pub mod Settled
use sweater.Prelude.{
  ℕ, zero, suc, ◌+◌, Bool, true, false, if◌then◌else◌, List, [], ◌∷◌, ◌++◌, Option, none, some,
  length, set,
}
use sweater.Future.Lite.{Outcome, value, thrown}

-- How many objects of a functor's type were constructed and destroyed, and how many calls it had.
pub record Functors : Type 0 where
  pub constructed : ℕ
  pub destroyed : ℕ
  pub calls : ℕ

-- self_destructed_work's constructors. One that has its functor on the heap moves the pointer, one
-- that has it in place makes a new functor of the old one and destroys the old one.
abbrev pub created : Functors
created = record { constructed = 1; destroyed = 0; calls = 0 }

unfoldable pub moved : (requires_allocation : Bool) → Functors → Functors
moved true f = f
moved false f = record {
  constructed = f.constructed + 1;
  destroyed = f.destroyed + 1;
  calls = f.calls;
}

unfoldable pub moved_times : (requires_allocation : Bool) → ℕ → Functors → Functors
moved_times requires_allocation zero f = f
moved_times requires_allocation (suc n) f =
    moved_times requires_allocation n (moved requires_allocation f)

-- self_destructed_work::operator(), whose guard destroys the functor. Its destructor is trivial.
abbrev pub called : Functors → Functors
called f = record { constructed = f.constructed; destroyed = f.destroyed + 1; calls = f.calls + 1 }

-- What the queue and the worker do: whether the queue takes the work, and the moves until then, and
-- from then on.
pub record Enqueuing : Type 0 where
  pub taken : Bool
  pub moves_in : ℕ
  pub moves_out : ℕ

-- create_fire_and_destroy: the functor, and what it returns.
unfoldable pub create_fire_and_destroy : (requires_allocation : Bool) → Enqueuing → Functors × Bool
create_fire_and_destroy requires_allocation q =
    (moved_times requires_allocation q.moves_in created, q.taken)

-- The worker's part: it takes the work out of the queue and calls it.
unfoldable pub work_off : (requires_allocation : Bool) → Enqueuing → Functors → Functors
work_off requires_allocation q f =
    if q.taken then called (moved_times requires_allocation q.moves_out f) else f

-- The states that promises and futures share, in the order in which they are made, and the one of the
-- future that the caller gets.
pub record Dispatched (A E : Type 0) : Type 0 where
  pub states : List (Option (Outcome A E))
  pub future : ℕ
  pub functors : Functors

module _ {A E : Type 0} (bad_alloc : E) where
  -- The wrapper's constructor makes the first state. Where the work is not enqueued, another one takes
  -- its place, which has an exception.
  unfoldable pub dispatch : (requires_allocation : Bool) → Enqueuing → Dispatched A E
  dispatch requires_allocation q =
      let states = none ∷ [] in
      let (functors, dispatch_succeeded) = create_fire_and_destroy requires_allocation q in
      if dispatch_succeeded
      then (record { states = states; future = 0; functors = functors })
      else (record {
        states = states ++ (some (thrown bad_alloc) ∷ []);
        future = length states;
        functors = functors;
      })

module _ {A E : Type 0} where
  -- The wrapper's call: what the work returns or throws becomes the first state's result.
  unfoldable pub run_wrapper :
      Outcome A E → List (Option (Outcome A E)) → List (Option (Outcome A E))
  run_wrapper (value a) states = set states 0 (some (value a))
  run_wrapper (thrown e) states = set states 0 (some (thrown e))

  -- Once the worker is through with the work, if there is any.
  unfoldable pub worked_off :
      (requires_allocation : Bool) → Enqueuing → Outcome A E → Dispatched A E → Dispatched A E
  worked_off requires_allocation q work d = record {
    states = if q.taken then run_wrapper work d.states else d.states;
    future = d.future;
    functors = work_off requires_allocation q d.functors;
  }
