-- ===== src/Shop/Lifetime/Settled.antt =====
-- What becomes of dispatched work and of its functor.
use sweater.Prelude.{
  ℕ, zero, suc, ◌+◌, ◌≡◌, Bool, true, false, not, to_int, if◌then◌else◌, some, get_elem?, refl,
  arith,
}
use sweater.Future.Lite.{Outcome, value, thrown}
use sweater.Shop.Lifetime.{
  Functors, created, moved, moved_times, called, Enqueuing, create_fire_and_destroy, work_off,
  dispatch, run_wrapper, worked_off,
}

-- As many functors are alive, and as often called.
abbrev Kept : Functors → Functors → Type 0
Kept f g = (g.constructed + f.destroyed ≡ f.constructed + g.destroyed) × (g.calls ≡ f.calls)

moved-Kept : (requires_allocation : Bool) (f : Functors) → Kept f (moved requires_allocation f)
unfolding moved
moved-Kept true f = (refl, refl)
moved-Kept false f = (omega arith, refl)

moved_times-Kept :
    (requires_allocation : Bool) (n : ℕ) (f : Functors)
    → Kept f (moved_times requires_allocation n f)
unfolding moved_times
moved_times-Kept requires_allocation zero f = (refl, refl)
moved_times-Kept requires_allocation (suc n) f =
    let (alive, calls) = moved_times-Kept requires_allocation n (moved requires_allocation f) in
    let (alive_first, calls_first) = moved-Kept requires_allocation f in
    (omega (arith, alive, alive_first), omega (arith, calls, calls_first))

called_functors :
    (requires_allocation : Bool) (k n : ℕ)
    → let f =
        called (moved_times requires_allocation n (moved_times requires_allocation k created)) in
      (f.calls ≡ 1) × (f.constructed ≡ f.destroyed + 0)
called_functors b k n =
    let (alive_in, calls_in) = moved_times-Kept b k created in
    let (alive_out, calls_out) = moved_times-Kept b n (moved_times b k created) in
    (omega (arith, calls_in, calls_out), omega (arith, alive_in, alive_out))

module _ {A E : Type 0} (bad_alloc : E) (requires_allocation : Bool) where
  abbrev Settled : Enqueuing → Outcome A E → Type 0
  Settled q work =
      let d = worked_off requires_allocation q work (dispatch bad_alloc requires_allocation q) in
      (get_elem? d.states d.future ≡ some (some (if q.taken then work else thrown bad_alloc)))
      × (d.functors.calls ≡ to_int q.taken)
      × (d.functors.constructed ≡ d.functors.destroyed + to_int (not q.taken))

  settled :
      (taken : Bool) (k n : ℕ) (work : Outcome A E)
      → Settled (record { taken = taken; moves_in = k; moves_out = n }) work
  unfolding worked_off dispatch create_fire_and_destroy work_off run_wrapper
  settled true k n (value a) =
      let (calls, alive) = called_functors requires_allocation k n in (refl, calls, alive)
  settled true k n (thrown e) =
      let (calls, alive) = called_functors requires_allocation k n in (refl, calls, alive)
  settled false k n work =
      let (alive, calls) = moved_times-Kept requires_allocation k created in
      (refl, calls, omega (arith, alive))

-- After a dispatch whose work a worker has called if the queue took it, the caller's future has what
-- the work returned or threw, or bad_alloc where the queue refused it; the work was called once, or
-- not; and each functor that was made for it is destroyed, but for one, which a refusal leaves alive.
-- It is so with and without an allocation, and however often the queue moves the work.
pub dispatch-worked_off :
    {A E : Type 0} (bad_alloc : E) (requires_allocation : Bool) (q : Enqueuing) (work : Outcome A E)
    → let d = worked_off requires_allocation q work (dispatch bad_alloc requires_allocation q) in
      (get_elem? d.states d.future ≡ some (some (if q.taken then work else thrown bad_alloc)))
      × (d.functors.calls ≡ to_int q.taken)
      × (d.functors.constructed ≡ d.functors.destroyed + to_int (not q.taken))
dispatch-worked_off bad_alloc requires_allocation q work =
    settled bad_alloc requires_allocation q.taken q.moves_in q.moves_out work
