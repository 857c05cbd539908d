-- ===== src/Shop/Joined/Safety.antt =====
-- What a spread over its barrier promises its owner, whatever the interleaving.
use mathlib.Core.List.{append-nil}
use sweater.Prelude.{
  ℕ, ◌+◌, ◌*◌, ◌^◌, ◌≤◌, ◌<◌, ◌≡◌, inl, inr, Bool, true, false, not, ◌&&◌, refl, ap, sym, ◌∙◌,
  arith, List, [], ◌++◌,
}
use sweater.Barrier.Futex.{joined}
use sweater.Barrier.Futex.Safety.{has_part, joined_after_all}
use sweater.Chunks.Tiles.{RunsOnce}
use sweater.Shop.Arrivals.{slices_made}
use sweater.Shop.Config.{Config, Shop, Surroundings}
use sweater.Shop.Cover.{spread_work-RunsOnce}
use sweater.Shop.Effects.{Effect, executed}
use sweater.Shop.Joined.{Joint, JointReach}
use sweater.Shop.Joined.Invariant.{stands, JointReach-Sound}
use sweater.Shop.Joined.Plan.{Plan, spread_work-planned, planned-Plan}
use sweater.Shop.Joined.Stages.{Begins}
use sweater.Shop.Sharing.{IsReady}
use sweater.Shop.Spread.{choose_wait, caller_only, spread_work, share}
use sweater.Threads.{weigh}

choose_wait-Begins :
    (limit : ℕ) (use_caller queued : Bool) (es : List Effect)
    → Plan limit (use_caller && not queued) 0 0 es
    → Begins limit (use_caller && not queued) (choose_wait use_caller queued ++ es)
unfolding choose_wait
choose_wait-Begins limit true queued es plan = inl (es, refl, plan)
choose_wait-Begins limit false queued es plan = inr (refl, plan)

-- In every interleaving, once the owner of a spread is back from it, the ranges that were handed to
-- threads call the work on each iteration exactly once, and every one of them has arrived. The shop
-- is ready for the spread, there is something to do, the spread is not the caller's alone, the queue
-- refuses neither its batch nor the slices for a worker, and a slice for each part that the division
-- allows and the caller's range can be counted by a hardware_concurrency_t, which has at most 2 ^ 32
-- values.
pub spread_work-joined :
    (cfg : Config) (shop : Shop) (env : Surroundings) (iterations cost n : ℕ)
    → IsReady cfg shop cost
    → 0 < iterations
    → iterations < 2 ^ 32
    → caller_only cfg shop env ≡ false
    → env.bulk_enqueued ≡ true
    → ((w : ℕ) → env.worker_enqueued w ≡ true)
    → shop.worker_threads * shop.spread_work_stealing_division + 1 < cfg.hc_values
    → cfg.hc_values ≤ 2 ^ 32
    → {s : Joint} {stalled : Bool}
    → JointReach cfg.hc_values n (spread_work cfg shop env iterations cost).effects s
    → s.barrier.owner ≡ joined stalled
    → RunsOnce iterations s.handed × (weigh has_part s.barrier.workers ≡ 0)
unfolding slices_made
spread_work-joined cfg shop env iterations cost n ready some_work small shared taken each few fits
      {s} {stalled} r back =
    let shares = share cfg shop iterations cost in
    let limit = slices_made shop + 1 in
    let spin = cfg.use_caller_thread && not shares.queue_and_wait in
    let es = (spread_work cfg shop env iterations cost).effects in
    let fit : limit < 2 ^ 32 = omega (arith, few, fits) in
    let begins : Begins limit spin es =
      rw (spread_work-planned cfg shop env iterations cost shared some_work) (
        choose_wait-Begins limit cfg.use_caller_thread shares.queue_and_wait _
          (planned-Plan cfg shop env iterations cost shared ready some_work small taken each)) in
    let sound =
      JointReach-Sound cfg.hc_values limit n spin (executed es) few fit es begins refl r in
    let finished : s.rest ≡ [] =
      stands cfg.hc_values limit n spin (executed es) few fit s (joined stalled) sound back in
    let all : s.handed ≡ executed es =
      sym (append-nil s.handed) ∙ ap (λ x. s.handed ++ executed x) (sym finished) ∙ sound.given in
    (
      rw all (spread_work-RunsOnce cfg shop env iterations cost ready small each),
      joined_after_all few fit sound.reach back,
    )
