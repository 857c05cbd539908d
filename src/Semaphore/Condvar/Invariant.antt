-- ===== src/Semaphore/Condvar/Invariant.antt =====
-- What holds of the condition variable semaphore at every step, as long as the releases without a
-- debt fit their word.
mod Moves
pub mod Counts
pub use Counts.*
use sweater.Prelude.{
  ℕ, zero, suc, ◌+◌, ◌≤◌, ◌<◌, ◌≡◌, ◌^◌, refl, arith, Bool, replicate, length, inl,
}
use sweater.Threads.{weigh-replicate, length-replicate}
use sweater.Semaphore.Condvar.{outside, System, start, Reach, new, step, is_parked}
use Moves.{Step-Inv, Step-surplus}

pub Reach-Inv :
    {exact : Bool} {hc n : ℕ} {s : System}
    → hc ≤ 2 ^ 16
    → Reach exact hc n s
    → s.surplus + n < hc
    → Inv hc n s
Reach-Inv {hc} {n} small new fits = record {
  few = fits;
  small = small;
  threads = length-replicate n outside;
  range = omega arith;
  debts =
      omega
        (arith, weigh-replicate in_debt n outside refl, weigh-replicate to_deposit n outside refl);
  heard = inl (weigh-replicate is_parked n outside refl);
  exact = omega (arith, weigh-replicate registered n outside refl);
  tokens = omega (arith, weigh-replicate in_debt n outside refl);
}
Reach-Inv small (step r st) fits =
    Step-Inv st fits (Reach-Inv small r (omega (arith, Step-surplus st)))
