-- ===== src/Shop/Cover.antt =====
-- A spread calls its work on each iteration, once.
use sweater.Prelude.{
  suc-==-zero, refl, ℕ, zero, suc, ◌^◌, ◌<◌, ◌≡◌, ◌⊎◌, Bool, true, false, ◌==◌, if◌then◌else◌, ◌∙◌,
  arith, Bool-cases, inl, inr, List, [], ◌∷◌, ◌++◌, length-append,
}
use mathlib.Core.List.{append-nil}
use sweater.Chunks.Tiles.{
  Range, NonEmpty, RunsOnce, Tiles, times-Tiles, times-append, length-le-Tiles, Tiles-le,
}
use sweater.Shop.Config.{Config, Shop, Surroundings}
use sweater.Shop.Effects.{executed, executed-append}
use sweater.Shop.Dispatch.{perform_caller_work}
use sweater.Shop.HandOut.{hand_out-Tiles}
use sweater.Shop.Sharing.{IsReady, share-IsShared}
use sweater.Shop.Spread.{
  Shares, choose_wait, hand_out, join, spread_parts, caller_only, spread_work, share,
}

executed-choose_wait : (b c : Bool) → executed (choose_wait b c) ≡ []
unfolding choose_wait
executed-choose_wait true c = refl
executed-choose_wait false c = refl

executed-join : (cfg : Config) (env : Surroundings) (b : Bool) → executed (join cfg env b) ≡ []
unfolding join
executed-join cfg env b = ground arith

NonEmpty-append : (rs ss : List Range) → NonEmpty rs → NonEmpty ss → NonEmpty (rs ++ ss)
NonEmpty-append [] ss h k = k
NonEmpty-append (r ∷ rs) ss h k = (h.0, NonEmpty-append rs ss h.1 k)

Tiles-NonEmpty : (a b : ℕ) (rs : List Range) → Tiles a b rs → NonEmpty rs
Tiles-NonEmpty a b [] t = tt
Tiles-NonEmpty a b (r ∷ rs) t = (omega arith, Tiles-NonEmpty r.end_iteration b rs t.2)

abbrev from_zero : ℕ → List Range
from_zero stop = record { start_iteration = 0; end_iteration = stop } ∷ []

-- The caller's range, run after the others were handed out.
Tiles-RunsOnce :
    (c iterations : ℕ) (rs : List Range)
    → Tiles c iterations rs
    → RunsOnce iterations (rs ++ (if c == 0 then [] else from_zero c))
Tiles-RunsOnce zero iterations rs t = rw append-nil record {
  once = λ i. times-Tiles 0 iterations i rs t ∙ ground arith;
  some_work = Tiles-NonEmpty 0 iterations rs t;
  few = omega (arith, length-le-Tiles 0 iterations rs t);
}
Tiles-RunsOnce (suc c) iterations rs t = rw (suc-==-zero c) record {
  once = λ i.
      times-append i rs (from_zero (suc c))
      ∙ ground (arith, times-Tiles (suc c) iterations i rs t, Tiles-le (suc c) iterations rs t);
  some_work =
      NonEmpty-append rs (from_zero (suc c)) (Tiles-NonEmpty (suc c) iterations rs t)
        (omega arith, tt);
  few =
      omega (arith, length-append rs (from_zero (suc c)), length-le-Tiles (suc c) iterations rs t);
}

executed-caller :
    (c : ℕ)
    → executed (if c == 0 then [] else perform_caller_work c) ≡ (if c == 0 then [] else from_zero c)
unfolding perform_caller_work
executed-caller c = ground arith

spread_parts-executed :
    (cfg : Config) (shop : Shop) (env : Surroundings) (s : Shares)
    → let handed = hand_out cfg shop env s in
      executed (spread_parts cfg shop env s).effects
      ≡ executed handed.effects
        ++ (if handed.caller_end == 0 then [] else from_zero handed.caller_end)
unfolding spread_parts
spread_parts-executed cfg shop env s =
    let handed = hand_out cfg shop env s in
    rw
      (
        executed-append (choose_wait cfg.use_caller_thread s.queue_and_wait),
        executed-choose_wait cfg.use_caller_thread s.queue_and_wait,
        executed-append handed.effects,
        executed-append
            (if handed.caller_end == 0 then [] else perform_caller_work handed.caller_end),
        executed-join cfg env s.queue_and_wait,
        executed-caller handed.caller_end,
        append-nil,
      )
      refl

perform_caller_work-RunsOnce :
    (iterations : ℕ)
    → 0 < iterations
    → RunsOnce iterations (executed (perform_caller_work iterations))
unfolding perform_caller_work
perform_caller_work-RunsOnce iterations h = record {
  once = λ i. ground arith;
  some_work = (h, tt);
  few = h;
}

-- Where the caller does not do it all, there is a worker, or the shop is empty.
pub not_caller_only :
    (cfg : Config) (shop : Shop) (env : Surroundings) (cost : ℕ)
    → IsReady cfg shop cost
    → caller_only cfg shop env ≡ false
    → (0 < shop.worker_threads) ⊎ ((cfg.use_caller_thread ≡ true) × (shop.work_items ≡ 0))
unfolding caller_only
not_caller_only cfg shop env cost ready h = ground (arith, ready.someone)

-- Whatever the configuration, the load and the threads do, and whether the shared queue takes or
-- refuses the parts put on it as a batch, a spread calls its work on each iteration below `iterations`
-- exactly once, never on an empty range, and at most `iterations` times. The shop is ready for the
-- spread (`IsReady`), the queue takes the slices that are enqueued for a single worker, and
-- `iterations` is a std::uint32_t.
pub spread_work-RunsOnce :
    (cfg : Config) (shop : Shop) (env : Surroundings) (iterations cost : ℕ)
    → IsReady cfg shop cost
    → iterations < 2 ^ 32
    → ((w : ℕ) → env.worker_enqueued w ≡ true)
    → RunsOnce iterations (executed (spread_work cfg shop env iterations cost).effects)
unfolding spread_work
spread_work-RunsOnce cfg shop env zero cost ready small taken = record {
  once = λ i. ground arith;
  some_work = tt;
  few = omega arith;
}
spread_work-RunsOnce cfg shop env (suc n) cost ready small taken =
    elim (Bool-cases (caller_only cfg shop env)) [
      | inl alone ↦ rw (suc-==-zero n, alone) (perform_caller_work-RunsOnce (suc n) (omega arith))
      | inr shared ↦
          let s = share cfg shop (suc n) cost in
          let ok =
            share-IsShared cfg shop (suc n) cost ready
              (not_caller_only cfg shop env cost ready shared) (omega arith) small in
          rw (suc-==-zero n, shared, spread_parts-executed cfg shop env s)
            (Tiles-RunsOnce (hand_out cfg shop env s).caller_end (suc n) _
              (hand_out-Tiles cfg shop env cost (suc n) s ready ok taken))
    ]
