-- ===== src/Examples/Shop/Fire.antt =====
-- Fired work items, on which the theorems of Shop.Fire hold.
use sweater.Prelude.{◌+◌, ◌%◌, ◌^◌, ◌≡◌, refl, arith, [], ◌∷◌}
use sweater.Threads.{weigh}
use sweater.Shop.Fire.{
  queued, ended, not_added, in_flight, Fired, Reach, new, step, enqueue, add_queued_item,
  in_flight_inc, dequeue, in_flight_dec,
}
use sweater.Shop.Fire.Counting.{uncounted, pending, in_flight-pending}

-- The first item ended before its caller counted it, and the second is queued and counted: the
-- in-flight count is 0.
abbrev early_idle : Fired
early_idle = record {
  work_items_ = 1;
  g_in_flight = 0;
  works =
      record { place = ended; added = not_added }
      ∷ record { place = queued; added = in_flight }
      ∷ [];
}

early_idle-Reach : Reach 256 2 early_idle
early_idle-Reach =
    step
      (step
        (step (step (step (step new (enqueue 0 refl)) (dequeue 0 refl)) (in_flight_dec 0 refl))
          (enqueue 1 refl))
        (add_queued_item 1 refl tt))
      (in_flight_inc 1 refl)

in_flight-pending_example :
    (early_idle.g_in_flight + weigh uncounted early_idle.works) % 2 ^ 64
    ≡ weigh pending early_idle.works
in_flight-pending_example =
    in_flight-pending {hc = 256} {n = 2} {s = early_idle} (omega arith) early_idle-Reach

-- One item, counted and queued.
abbrev one_queued : Fired
one_queued = record {
  work_items_ = 1;
  g_in_flight = 1;
  works = record { place = queued; added = in_flight } ∷ [];
}

one_queued-Reach : Reach 256 1 one_queued
one_queued-Reach =
    step (step (step new (enqueue 0 refl)) (add_queued_item 0 refl tt)) (in_flight_inc 0 refl)
