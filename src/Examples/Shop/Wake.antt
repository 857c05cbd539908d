-- ===== src/Examples/Shop/Wake.antt =====
-- The wake-ups of a pool of seven workers, on which the theorems of Shop.Wake hold.
use sweater.Prelude.{arith}
use sweater.Shop.Wake.{Woken, every_worker_reached}

every_worker_reached_example : Woken 256 7 5
every_worker_reached_example = every_worker_reached 256 7 5 (omega arith) (omega arith)
