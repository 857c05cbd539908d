-- ===== src/Semaphore/Invariant.antt =====
-- What holds of the semaphore's three words and of the threads around them at every step.
mod Counts
mod Moves
pub use Counts.*
pub use Moves.{Step-Inv}
use sweater.Prelude.{ℕ, zero, suc, ◌+◌, ◌≤◌, ◌<◌, ◌≡◌, ◌^◌, refl, arith, replicate, length, inl}
use sweater.Threads.{weigh-replicate, length-replicate}
use sweater.Semaphore.Futex.{Pc, outside, System, start, Reach, new, step}

start-Inv : (hc n : ℕ) → n < hc → hc ≤ 2 ^ 16 → Inv hc n (start n)
start-Inv hc n few small = record {
  few = few;
  small = small;
  threads = length-replicate n outside;
  range = omega arith;
  debts =
      omega
        (arith, weigh-replicate in_debt n outside refl, weigh-replicate to_deposit n outside refl);
  heard = inl (weigh-replicate is_parked n outside refl);
  exact = omega (arith, weigh-replicate registered n outside refl);
  tokens = omega (arith, weigh-replicate in_debt n outside refl);
}

pub Reach-Inv : {hc n : ℕ} {s : System} → n < hc → hc ≤ 2 ^ 16 → Reach hc n s → Inv hc n s
Reach-Inv {hc} {n} few small new = start-Inv hc n few small
Reach-Inv few small (step r st) = Step-Inv st (Reach-Inv few small r)
