-- ===== src/SystemPools/Fire/Within.antt =====
-- The order of an item's events: its work runs while it is counted in flight.
use sweater.Prelude.{
  ℕ, ◌+◌, ◌^◌, ◌<◌, ◌≡◌, Bool, true, false, not, ◌&&◌, List, [], ◌∷◌, to_int, refl, arith,
}
use sweater.SystemPools.Fire.{
  Pool, apple, windows, libuv, openmp, single_threaded, Event, allocate, in_flight_inc, run, after,
  in_flight_dec, deallocate, Granted, apple_fire_and_forget, windows_fire_and_forget,
  fire_with_after, fire_and_forget,
}
use sweater.SystemPools.Fire.Items.{Item, count, counted_after, is_tracked}
use sweater.SystemPools.Fire.Settled.{total, is_run}

-- The count goes up once at most, and the work runs only between that and the decrement.
unfoldable pub within : Bool → List Event → Bool
within counted [] = not counted
within counted (in_flight_inc ∷ es) = not counted && within true es
within counted (in_flight_dec ∷ es) = counted && within false es
within counted (run ∷ es) = counted && within counted es
within counted (after ∷ es) = counted && within counted es
within counted (allocate ∷ es) = within counted es
within counted (deallocate ∷ es) = within counted es

pub fire_and_forget-within :
    (pool : Pool) (fits : Bool) (g : Granted)
    → is_tracked pool ≡ true
    → within false (fire_and_forget pool fits g).0 ≡ true
unfolding fire_and_forget apple_fire_and_forget windows_fire_and_forget fire_with_after within
fire_and_forget-within apple true g t = refl
fire_and_forget-within apple false g t = refl
fire_and_forget-within windows true g t = ground arith
fire_and_forget-within windows false g t = ground arith
fire_and_forget-within libuv fits g t = ground arith
fire_and_forget-within openmp fits g t = cc
fire_and_forget-within (single_threaded threads) fits g t = cc

abbrev pub is_counted : Item → ℕ
is_counted x = to_int x.counted

abbrev pub is_astray : Item → ℕ
is_astray x = to_int (not (within x.counted x.rest))

abbrev pub is_inc : Event → ℕ
is_inc in_flight_inc = 1
is_inc _ = 0

abbrev pub is_after : Event → ℕ
is_after after = 1
is_after _ = 0

-- An item that will not be counted any more and is not counted has no work left.
pub within-is_run :
    (es : List Event)
    → within false es ≡ true
    → total is_inc es ≡ 0
    → (total is_run es ≡ 0) × (total is_after es ≡ 0)
unfolding within
within-is_run [] w e = (refl, refl)
within-is_run (in_flight_inc ∷ es) w e = absurd (omega (arith, e))
within-is_run (in_flight_dec ∷ es) w e = cc
within-is_run (run ∷ es) w e = cc
within-is_run (after ∷ es) w e = cc
within-is_run (allocate ∷ es) w e = omega (arith, within-is_run es w (omega (arith, e)))
within-is_run (deallocate ∷ es) w e = omega (arith, within-is_run es w (omega (arith, e)))

pub within-event :
    (e : Event) (counted : Bool) (es : List Event)
    → within counted (e ∷ es) ≡ true
    → within (counted_after e counted) es ≡ true
unfolding within
within-event in_flight_inc counted es w = ground arith
within-event in_flight_dec counted es w = ground arith
within-event run counted es w = ground arith
within-event after counted es w = ground arith
within-event allocate counted es w = w
within-event deallocate counted es w = w

pub count-within :
    (e : Event) (counted : Bool) (es : List Event) (others g : ℕ)
    → within counted (e ∷ es) ≡ true
    → g ≡ others + to_int counted
    → others + 1 < 2 ^ 64
    → count e g ≡ others + to_int (counted_after e counted)
unfolding within
count-within in_flight_inc true es others g w h few = cc
count-within in_flight_inc false es others g w h few = omega (arith, h, few)
count-within in_flight_dec true es others g w h few = omega (arith, h, few)
count-within in_flight_dec false es others g w h few = cc
count-within run counted es others g w h few = h
count-within after counted es others g w h few = h
count-within allocate counted es others g w h few = h
count-within deallocate counted es others g w h few = h
