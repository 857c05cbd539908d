-- ===== src/SystemPools/Fire/Items.antt =====
-- Several fired items at once: their events in any order, an event at a time, with the process-wide
-- count of dispatch_tracking.hpp.
use sweater.Prelude.{
  ℕ, ◌+◌, ◌-◌, ◌%◌, ◌^◌, ◌≡◌, Bool, true, false, List, [], ◌∷◌, some, get_elem?, set,
}
use sweater.SystemPools.Fire.{
  Pool, openmp, single_threaded, Event, in_flight_inc, in_flight_dec, Granted, fire_and_forget,
}

-- A call of fire_and_forget, and what the system grants it.
pub record Firing : Type 0 where
  pub pool : Pool
  pub fits : Bool
  pub granted : Granted

-- An item: whether it is counted in flight, and what is still to be done for it.
pub record Item : Type 0 where
  pub counted : Bool
  pub rest : List Event

pub record System : Type 0 where
  pub g_in_flight : ℕ
  pub items : List Item

-- in_flight_inc and in_flight_dec on the count, and what an event does to the item.
abbrev pub count : Event → ℕ → ℕ
count in_flight_inc g_in_flight = (g_in_flight + 1) % 2 ^ 64
count in_flight_dec g_in_flight = (g_in_flight + (2 ^ 64 - 1)) % 2 ^ 64
count _ g_in_flight = g_in_flight

abbrev pub counted_after : Event → Bool → Bool
counted_after in_flight_inc counted = true
counted_after in_flight_dec counted = false
counted_after _ counted = counted

pub data Step (s : System) : System → Type 0 where
  event :
      (i : ℕ) (e : Event) {counted : Bool} {rest : List Event}
      → get_elem? s.items i ≡ some (record { counted = counted; rest = e ∷ rest })
      → Step s (record {
        g_in_flight = count e s.g_in_flight;
        items = set s.items i (record { counted = counted_after e counted; rest = rest });
      })

-- Nothing is done for them yet.
unfoldable pub fired : List Firing → List Item
fired [] = []
fired (f ∷ fs) =
    record { counted = false; rest = (fire_and_forget f.pool f.fits f.granted).0 } ∷ fired fs

abbrev pub start : List Firing → System
start fs = record { g_in_flight = 0; items = fired fs }

pub data Reach (fs : List Firing) : System → Type 0 where
  new : Reach fs (start fs)
  step : {s t : System} → Reach fs s → Step s t → Reach fs t

-- The shops that count their items.
abbrev pub is_tracked : Pool → Bool
is_tracked openmp = false
is_tracked (single_threaded threads) = false
is_tracked _ = true

unfoldable pub AreTracked : List Firing → Type 0
AreTracked [] = Unit
AreTracked (f ∷ fs) = (is_tracked f.pool ≡ true) × AreTracked fs
