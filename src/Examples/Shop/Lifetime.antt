-- ===== src/Examples/Shop/Lifetime.antt =====
-- A dispatch that the queue refuses, and one that it takes, on which the theorem of Shop.Lifetime holds.
use sweater.Prelude.{ℕ, ◌+◌, ◌≡◌, true, false, not, to_int, if◌then◌else◌, some, get_elem?, refl}
use sweater.Future.Lite.{value, thrown}
use sweater.Shop.Lifetime.{
  Enqueuing, dispatch, worked_off, run_wrapper, create_fire_and_destroy, work_off, moved_times,
  moved,
}
use sweater.Shop.Lifetime.Settled.{dispatch-worked_off}

abbrev refusing : Enqueuing
refusing = record { taken = false; moves_in = 1; moves_out = 0 }

abbrev taking : Enqueuing
taking = record { taken = true; moves_in = 1; moves_out = 2 }

-- The functor in place was moved three times.
taking-Functors :
    (worked_off {A = ℕ} {E = ℕ} false taking
      (value 5)
      (dispatch 12 false taking)).functors.destroyed
    ≡ 4
unfolding worked_off dispatch run_wrapper create_fire_and_destroy work_off moved_times moved
taking-Functors = refl

dispatch-worked_off_example :
    let d = worked_off {A = ℕ} {E = ℕ} false refusing (value 5) (dispatch 12 false refusing) in
    (get_elem? d.states d.future ≡ some (some (if false then value 5 else thrown 12)))
    × (d.functors.calls ≡ to_int false)
    × (d.functors.constructed ≡ d.functors.destroyed + to_int (not false))
dispatch-worked_off_example = dispatch-worked_off 12 false refusing (value 5)
