-- ===== src/Shop/HandOut.antt =====
-- What a spread hands out covers the iterations after the caller's own.
use sweater.Prelude.{
  ℕ, ◌+◌, ◌*◌, ◌/◌, ◌%◌, ◌≤◌, ◌<◌, ◌≡◌, ◌≢◌, ◌⊎◌, true, false, not, ◌&&◌, ◌==◌, refl, ap, subst,
  arith, Bool-cases, inl, inr, List, u32, max,
}
use native.Mathlib.Nat.{div-add-mod, mod-lt, mod-eq_of_lt}
use mathlib.Core.List.{append-nil}
use sweater.Chunks.Tiles.{Range, Tiles}
use sweater.Shop.Config.{Config, Shop, Surroundings}
use sweater.Shop.Effects.{executed}
use sweater.Shop.Dispatch.{slice_division, bulk_parts, dispatch_workers}
use sweater.Shop.Ranges.{
  Left, slice_division_bounds, bulk_parts-Tiles, dispatch_parts-Tiles, div-pos,
}
use sweater.Shop.Sharing.{IsReady, IsShared}
use sweater.Shop.Spread.{Shares, Bulk, bulk, enqueue_parts, hand_out}

-- Cut further by `sd`, the parts hold the same iterations.
sliced :
    (c d per_part extra iterations sd : ℕ)
    → c + d * per_part + extra ≡ iterations
    → extra ≤ d
    → 0 < sd
    → (c + d * sd * (per_part / sd) + (extra + per_part % sd * d) ≡ iterations)
      × (extra + per_part % sd * d ≤ d * sd)
sliced c d per_part extra iterations sd e h k =
    (omega (arith, e, ap (λ (t : ℕ). d * t) (div-add-mod per_part sd)), omega (arith, h, enough))
  where
    enough : (per_part % sd + 1) * d ≤ sd * d
    enough = let l : per_part % sd + 1 ≤ sd = omega (arith, mod-lt per_part k) in grind arith

sliced_few : (d sd threads hc : ℕ) → d ≤ threads → sd ≤ 16 → 16 * threads < hc → d * sd < hc
sliced_few d sd threads hc h k l = grind arith

bulk-Left :
    (cfg : Config) (shop : Shop) (iterations : ℕ) (s : Shares)
    → 4 ≤ shop.spread_work_stealing_division
    → shop.spread_work_stealing_division ≤ 16
    → (shop.work_items ≢ 0) ⊎ (16 * shop.worker_threads < cfg.hc_values)
    → IsShared shop iterations s
    → Left (bulk cfg shop s).parts (bulk cfg shop s).number_of_parts 0 s.caller_thread_end_iteration
      × (0 < (bulk cfg shop s).parts.iterations_per_part)
      × ((bulk cfg shop s).parts.iterations ≡ s.parts.iterations)
unfolding bulk
bulk-Left cfg shop iterations s lo hi room ok = elim (Bool-cases (shop.work_items == 0)) [
  | inr busy ↦ rw busy (ok.left, ok.each, refl)
  | inl idle ↦ rw idle (
    record {
      rest = rw (whole (ground arith), no_wrap) (omega (arith, cut.0));
      few = rw (whole (ground arith), no_wrap) (omega (arith, cut.1));
      fits = ok.left.fits;
    },
    div-pos s.parts.iterations_per_part sd bounds.0 (omega (arith, bounds.1, ok.each)),
    refl,
  )
]
  where
    sd : ℕ
    sd = slice_division shop s.parts.iterations_per_part

    d : ℕ
    d = s.number_of_dispatched_work_parts

    bounds : (0 < sd) × (sd ≤ max s.parts.iterations_per_part 1) × (sd ≤ 16)
    bounds = slice_division_bounds shop s.parts.iterations_per_part (omega (arith, lo)) hi

    cut :
        (s.caller_thread_end_iteration
            + d * sd * (s.parts.iterations_per_part / sd)
            + (s.parts.parts_with_extra_iteration + s.parts.iterations_per_part % sd * d)
          ≡ s.parts.iterations)
        × (s.parts.parts_with_extra_iteration + s.parts.iterations_per_part % sd * d ≤ d * sd)
    cut =
        sliced s.caller_thread_end_iteration d s.parts.iterations_per_part
          s.parts.parts_with_extra_iteration s.parts.iterations sd (omega (arith, ok.left.rest))
          (omega (arith, ok.left.few)) bounds.0

    no_wrap :
        u32 (s.parts.parts_with_extra_iteration + s.parts.iterations_per_part % sd * d)
        ≡ s.parts.parts_with_extra_iteration + s.parts.iterations_per_part % sd * d
    no_wrap = mod-eq_of_lt (omega (arith, cut.0, ok.left.fits))

    whole : 16 * shop.worker_threads < cfg.hc_values → d * sd % cfg.hc_values ≡ d * sd
    whole few = mod-eq_of_lt (sliced_few d sd shop.worker_threads cfg.hc_values ok.few bounds.2 few)

-- Where the shared queue's parts are sliced, hardware_concurrency_t counts the slices.
sliceable :
    (cfg : Config) (shop : Shop) (cost : ℕ)
    → IsReady cfg shop cost
    → (cfg.exact_worker_selection && not cfg.slow_thread_signals && shop.work_items == 0) ≡ false
    → (shop.work_items ≢ 0) ⊎ (16 * shop.worker_threads < cfg.hc_values)
sliceable cfg shop cost ready h = ground (arith, ready.sliceable)

-- A refused batch leaves every iteration to the caller.
enqueue_parts-Tiles :
    (cfg : Config) (env : Surroundings) (s : Shares) (b : Bulk)
    → Left b.parts b.number_of_parts 0 s.caller_thread_end_iteration
    → 0 < b.parts.iterations_per_part
    → b.parts.iterations ≡ s.parts.iterations
    → Tiles
        (enqueue_parts cfg env s b).caller_end
        s.parts.iterations
        (executed (enqueue_parts cfg env s b).effects)
unfolding enqueue_parts
enqueue_parts-Tiles cfg env s b left each same = elim (Bool-cases env.bulk_enqueued) [
  | inr no_room ↦ rw no_room refl
  | inl room ↦ elim (Bool-cases cfg.slow_thread_signals) [
    | inl slow ↦ rw (room, slow, append-nil) whole
    | inr fast ↦ rw (room, fast, append-nil) whole
  ]
]
  where
    queued : List Range
    queued = bulk_parts b.parts b.number_of_parts 0 s.caller_thread_end_iteration

    whole : Tiles s.caller_thread_end_iteration s.parts.iterations queued
    whole =
        subst (λ x. Tiles s.caller_thread_end_iteration x queued) same
          (bulk_parts-Tiles b.parts b.number_of_parts 0 s.caller_thread_end_iteration left each)

-- Where no worker's slices are refused, the parts handed out run from the end of the caller's part to the last iteration.
pub hand_out-Tiles :
    (cfg : Config) (shop : Shop) (env : Surroundings) (cost iterations : ℕ) (s : Shares)
    → IsReady cfg shop cost
    → IsShared shop iterations s
    → ((w : ℕ) → env.worker_enqueued w ≡ true)
    → Tiles
        (hand_out cfg shop env s).caller_end
        iterations
        (executed (hand_out cfg shop env s).effects)
unfolding hand_out dispatch_workers
hand_out-Tiles cfg shop env cost iterations s ready ok taken =
    elim (Bool-cases
      (cfg.exact_worker_selection && not cfg.slow_thread_signals && shop.work_items == 0)) [
        | inl direct ↦
            rw (direct, ← ok.all)
              (dispatch_parts-Tiles cfg env s.parts sd s.number_of_dispatched_work_parts 0 0
                s.caller_thread_end_iteration taken ok.left bounds.0
                (omega (arith, bounds.1, ok.each)))
        | inr queued ↦ elim (Bool-cases (s.number_of_dispatched_work_parts == 0)) [
          | inl nothing ↦ rw (queued, nothing) (ground (arith, ok.left.rest, ok.left.few, ok.all))
          | inr parts ↦
              let (left, each, same) =
                bulk-Left cfg shop iterations s ready.division_pos ready.division_le
                  (sliceable cfg shop cost ready queued) ok in
              rw (queued, parts, ← ok.all)
                (enqueue_parts-Tiles cfg env s (bulk cfg shop s) left each same)
        ]
      ]
  where
    sd : ℕ
    sd = slice_division shop s.parts.iterations_per_part

    bounds : (0 < sd) × (sd ≤ max s.parts.iterations_per_part 1) × (sd ≤ 16)
    bounds =
        slice_division_bounds shop s.parts.iterations_per_part (omega (arith, ready.division_pos))
          ready.division_le
