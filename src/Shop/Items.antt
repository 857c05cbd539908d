-- ===== src/Shop/Items.antt =====
-- What a spread does to the item counter and to the stealing division.
use sweater.Prelude.{
  suc-==-zero, ℕ, zero, suc, ◌+◌, ◌%◌, ◌≤◌, ◌≡◌, Bool, true, false, not, ◌==◌, ◌&&◌, if◌then◌else◌,
  refl, ap, arith, Bool-cases, inl, inr, List, [], ◌∷◌, ◌++◌, length, length-append, min,
}
use mathlib.Core.List.{append-nil}
use sweater.Chunks.Tiles.{Range}
use sweater.Shop.Config.{Config, Shop, Surroundings}
use sweater.Shop.Effects.{
  Effect, executed, refused, items_added, completed, Counted, Counted-append, enqueue,
}
use sweater.Shop.Ranges.{length-bulk_parts}
use sweater.Shop.Ranges.{executed-announce}
use sweater.Shop.Dispatch.{
  announce, Parts, part_slices, part_end, dispatch_parts, dispatch_workers, bulk_parts,
  perform_caller_work,
}
use sweater.Shop.Spread.{
  Bulk, Shares, bulk, enqueue_parts, hand_out, join, next_division, choose_wait, spread_parts,
  caller_only, spread_work, share,
}

items_added-announce :
    (rs : List Range) (es : List Effect)
    → items_added (announce rs ++ es) ≡ length rs + items_added es
unfolding announce
items_added-announce [] es = omega arith
items_added-announce (r ∷ rs) es = omega (arith, items_added-announce rs es)

refused-announce : (rs : List Range) (es : List Effect) → refused (announce rs ++ es) ≡ refused es
unfolding announce
refused-announce [] es = refl
refused-announce (r ∷ rs) es = refused-announce rs es

completed-announce :
    (rs : List Range) (es : List Effect) → completed (announce rs ++ es) ≡ completed es
unfolding announce
completed-announce [] es = refl
completed-announce (r ∷ rs) es = completed-announce rs es

Counted-announce :
    (w : ℕ) (b taken : Bool) (rs : List Range) (es : List Effect)
    → Counted es
    → Counted (announce rs ++ enqueue w rs b taken ∷ es)
Counted-announce w b true rs es (h, h') =
    let fs = enqueue w rs b true ∷ es in
    let done = completed-announce rs fs in
    let no = ap length (refused-announce rs fs) in
    let ran = ap length (executed-announce rs fs) in
    (
      omega (arith, h, items_added-announce rs fs, done, no, length-append rs (refused es)),
      omega (arith, h', done, ran, length-append rs (executed es)),
    )
Counted-announce w b false rs es (h, h') =
    let fs = enqueue w rs b false ∷ es in
    let done = completed-announce rs fs in
    let no = ap length (refused-announce rs fs) in
    let ran = ap length (executed-announce rs fs) in
    (
      omega (arith, h, items_added-announce rs fs, done, no, length-append rs (refused es)),
      omega (arith, h', done, ran, length-append rs (executed es)),
    )

dispatch_parts-Counted :
    (cfg : Config) (env : Surroundings) (p : Parts) (d left work_part worker iteration : ℕ)
    → Counted (dispatch_parts cfg env p d left work_part worker iteration).effects
unfolding dispatch_parts
dispatch_parts-Counted cfg env p d zero work_part worker iteration = (refl, refl)
dispatch_parts-Counted cfg env p d (suc left) work_part worker iteration =
    elim (Bool-cases (iteration == p.iterations)) [
      | inl done ↦ rw done (refl, refl)
      | inr more ↦ rw more (
          Counted-announce worker (work_part == 0) (env.worker_enqueued worker)
            (part_slices p d work_part iteration) _
            (dispatch_parts-Counted cfg env p d left (work_part + 1) ((worker + 1) % cfg.hc_values)
              (part_end p work_part iteration)))
    ]

enqueue_parts-Counted :
    (cfg : Config) (env : Surroundings) (s : Shares) (b : Bulk)
    → Counted (enqueue_parts cfg env s b).effects
unfolding enqueue_parts
enqueue_parts-Counted cfg env s b = elim (Bool-cases env.bulk_enqueued) [
  | inr no_room ↦ rw (no_room, append-nil) (omega (arith, all), omega (arith, all))
  | inl room ↦ elim (Bool-cases cfg.slow_thread_signals) [
    | inl slow ↦ rw (room, slow, append-nil) (omega (arith, all), omega (arith, all))
    | inr fast ↦ rw (room, fast, append-nil) (omega (arith, all), omega (arith, all))
  ]
]
  where
    all :
        length (bulk_parts b.parts b.number_of_parts 0 s.caller_thread_end_iteration)
        ≡ b.number_of_parts
    all = length-bulk_parts b.parts b.number_of_parts 0 s.caller_thread_end_iteration

hand_out-Counted :
    (cfg : Config) (shop : Shop) (env : Surroundings) (s : Shares)
    → Counted (hand_out cfg shop env s).effects
unfolding hand_out dispatch_workers
hand_out-Counted cfg shop env s =
    elim (Bool-cases
      (cfg.exact_worker_selection && not cfg.slow_thread_signals && shop.work_items == 0)) [
        | inl direct ↦ rw direct (dispatch_parts-Counted cfg env s.parts _ _ 0 0 _)
        | inr queued ↦ elim (Bool-cases (s.number_of_dispatched_work_parts == 0)) [
          | inl nothing ↦ rw (queued, nothing) (refl, refl)
          | inr parts ↦ rw (queued, parts) (enqueue_parts-Counted cfg env s (bulk cfg shop s))
        ]
      ]

choose_wait-Counted : (b c : Bool) → Counted (choose_wait b c)
unfolding choose_wait
choose_wait-Counted true c = (refl, refl)
choose_wait-Counted false c = (refl, refl)

caller-Counted : (n : ℕ) → Counted (if n == 0 then [] else perform_caller_work n)
unfolding perform_caller_work
caller-Counted zero = (refl, refl)
caller-Counted (suc n) = rw (suc-==-zero n) (omega arith, omega arith)

join-Counted : (cfg : Config) (env : Surroundings) (b : Bool) → Counted (join cfg env b)
unfolding join
join-Counted cfg env b = ground arith

spread_parts-Counted :
    (cfg : Config) (shop : Shop) (env : Surroundings) (s : Shares)
    → Counted (spread_parts cfg shop env s).effects
unfolding spread_parts
spread_parts-Counted cfg shop env s =
    let end = (hand_out cfg shop env s).caller_end in
    Counted-append (choose_wait cfg.use_caller_thread s.queue_and_wait) _
      (choose_wait-Counted cfg.use_caller_thread s.queue_and_wait)
      (Counted-append (hand_out cfg shop env s).effects _ (hand_out-Counted cfg shop env s) (
        Counted-append (if end == 0 then [] else perform_caller_work end) _ (caller-Counted end)
          (join-Counted cfg env s.queue_and_wait)))

-- Whatever the configuration, the load and the queue do: of the items that a spread adds to the item
-- counter, the calls of work_completed, one for each range that is executed, take off all but one for
-- each range that the queue refused, be it of a batch or of the slices for a single worker.
pub spread_work-Counted :
    (cfg : Config) (shop : Shop) (env : Surroundings) (iterations cost : ℕ)
    → Counted (spread_work cfg shop env iterations cost).effects
unfolding spread_work
spread_work-Counted cfg shop env zero cost = (refl, refl)
spread_work-Counted cfg shop env (suc n) cost = elim (Bool-cases (caller_only cfg shop env)) [
  | inl alone ↦ rw (suc-==-zero n, alone) (unfold perform_caller_work in (omega arith, omega arith))
  | inr shared ↦
      rw (suc-==-zero n, shared) (spread_parts-Counted cfg shop env (share cfg shop (suc n) cost))
]

-- A spread moves the stealing division up by one at most, and within 4 and 16.
spread_work-division :
    (cfg : Config) (shop : Shop) (env : Surroundings) (iterations cost : ℕ)
    → 4 ≤ shop.spread_work_stealing_division
    → shop.spread_work_stealing_division ≤ 16
    → (shop.spread_work_stealing_division ≤ (spread_work cfg shop env iterations cost).division)
      × ((spread_work cfg shop env iterations cost).division
          ≤ min 16 (shop.spread_work_stealing_division + 1))
unfolding spread_work spread_parts next_division
spread_work-division cfg shop env iterations cost h k = ground arith
