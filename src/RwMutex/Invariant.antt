-- ===== src/RwMutex/Invariant.antt =====
-- What holds of the lock's word and of the threads around it at every step.
mod Counts
mod Moves
pub use Counts.*
pub use Moves.{Step-Inv}
use sweater.Prelude.{ℕ, ◌<◌, ◌≡◌, ◌^◌, refl, arith, inl, inr, Bool}
use sweater.Threads.{weigh-replicate, length-replicate}
use sweater.RwMutex.Word.{free_word}
use sweater.RwMutex.Futex.{outside, System, start, Reach, new, step, is_ro_parked, is_rw_parked}

start-Inv : (n : ℕ) → n < 2 ^ 29 → Inv n (start n)
start-Inv n few = record {
  few = few;
  threads = length-replicate n outside;
  range = omega arith;
  readers = omega (arith, free_word.readers_eq, weigh-replicate is_reading n outside refl);
  writer = omega (arith, free_word.lock_eq, weigh-replicate is_writing n outside refl);
  alone = inl free_word.lock_eq;
  ro_announced = inl (weigh-replicate is_ro_parked n outside refl);
  rw_announced = inl (weigh-replicate is_rw_parked n outside refl);
  waiting = inl free_word.ww_eq;
  rw_heard = inl (weigh-replicate is_rw_parked n outside refl);
  ro_heard = inl (weigh-replicate is_ro_parked n outside refl);
}

pub Reach-Inv : {wp : Bool} {n : ℕ} {s : System} → n < 2 ^ 29 → Reach wp n s → Inv n s
Reach-Inv {n} few new = start-Inv n few
Reach-Inv few (step r st) = Step-Inv st (Reach-Inv few r)
