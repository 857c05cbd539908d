-- ===== src/Shop/Arrivals.antt =====
-- How many arrivals a spread's barrier expects at most.
use native.Mathlib.Nat.{mul-le-mul, mod-le}
use sweater.Prelude.{
  suc-==-zero, ℕ, zero, suc, ◌+◌, ◌*◌, ◌%◌, ◌^◌, ◌≤◌, ◌<◌, ◌≡◌, Bool, true, false, not, ◌==◌, ◌&&◌,
  if◌then◌else◌, refl, max, arith, Bool-cases, inl, inr, List, [], ◌∷◌, ◌++◌, length, ap, ◌∙◌,
}
use mathlib.Core.List.{append_assoc}
use sweater.Chunks.Tiles.{Range}
use sweater.Shop.Config.{Config, Shop, Surroundings}
use sweater.Shop.Cover.{not_caller_only}
use sweater.Shop.Ranges.{Left, Left-next, next-IsCut, slice_division_bounds}
use sweater.Shop.Effects.{Effect, add_expected_arrival, initialize}
use sweater.Shop.Dispatch.{
  announce, Parts, part_slices, part_end, dispatch_parts, dispatch_workers, perform_caller_work,
  slice_division,
}
use sweater.Shop.Sharing.{IsReady, IsShared, share-IsShared}
use sweater.Shop.Spread.{
  Bulk, Shares, bulk, enqueue_parts, hand_out, join, choose_wait, spread_parts, caller_only,
  spread_work, share,
}

-- The most arrivals that the barrier is set to expect, where it expects `e` before, if none arrives.
abbrev pub peak : ℕ → List Effect → ℕ
peak e [] = e
peak e (add_expected_arrival ∷ es) = peak (suc e) es
peak e (initialize n ∷ es) = max e (peak n es)
peak e (_ ∷ es) = peak e es

-- With at most `n` arrivals expected before, there are at most `most`.
abbrev Within : ℕ → ℕ → List Effect → Type 0
Within most n es = (e : ℕ) → e ≤ n → peak e es ≤ most

peak-announce :
    (rs : List Range) (e : ℕ) (es : List Effect)
    → peak e (announce rs ++ es) ≡ peak (length rs + e) es
unfolding announce
peak-announce [] e es = ap (λ k. peak k es) (omega arith)
peak-announce (r ∷ rs) e es = peak-announce rs (suc e) es ∙ ap (λ k. peak k es) (omega arith)

dispatch_parts-Within :
    (cfg : Config) (env : Surroundings) (p : Parts) (d left work_part worker iteration most n : ℕ)
    (es : List Effect)
    → Left p left work_part iteration
    → 0 < d
    → d ≤ p.iterations_per_part
    → Within most (n + left * d) es
    → Within most n ((dispatch_parts cfg env p d left work_part worker iteration).effects ++ es)
unfolding dispatch_parts
dispatch_parts-Within cfg env p d zero work_part worker iteration most n es l i j h e k =
    h e (omega (arith, k))
dispatch_parts-Within cfg env p d (suc left) work_part worker iteration most n es l i j h e k =
    elim (Bool-cases (iteration == p.iterations)) [
      | inl done ↦ rw done (h e (omega (arith, k)))
      | inr more ↦ rw more (
          let rs = part_slices p d work_part iteration in
          let few = (next-IsCut p d left work_part iteration l i j).1 in
          let next = (Left-next p left work_part iteration l).1 in
          rw (append_assoc (announce rs), peak-announce rs e)
            (dispatch_parts-Within cfg env p d left (work_part + 1) ((worker + 1) % cfg.hc_values)
              (part_end p work_part iteration) most (n + d) es next i j
              (λ f m. h f (omega (arith, m))) (length rs + e) (omega (arith, few, k))))
    ]

-- With `n` arrivals for what is handed out, the caller's own is one more.
caller-Within :
    (most n end : ℕ) (cfg : Config) (env : Surroundings) (wait : Bool)
    → n < most
    → Within most n ((if end == 0 then [] else perform_caller_work end) ++ join cfg env wait)
unfolding perform_caller_work join
caller-Within most n zero cfg env wait h e k = ground (arith, h, k)
caller-Within most n (suc m) cfg env wait h e k = rw (suc-==-zero m) (ground (arith, h, k))

enqueue_parts-Within :
    (cfg : Config) (env : Surroundings) (s : Shares) (b : Bulk) (most n : ℕ) (es : List Effect)
    → Within most n es
    → b.number_of_parts ≤ n
    → n ≤ most
    → peak 0 ((enqueue_parts cfg env s b).effects ++ es) ≤ most
unfolding enqueue_parts
enqueue_parts-Within cfg env s b most n es h k l = elim (Bool-cases env.bulk_enqueued) [
  | inl taken ↦ elim (Bool-cases cfg.slow_thread_signals) [
    | inl slow ↦ rw (taken, slow) (omega (arith, room))
    | inr fast ↦ rw (taken, fast) (omega (arith, room))
  ]
  | inr full ↦ rw full (omega (arith, h 0 (omega arith), k, l))
]
  where
    room : peak b.number_of_parts es ≤ most
    room = h b.number_of_parts k

-- How many slices a spread makes of its parts, at most.
unfoldable pub slices_made : Shop → ℕ
slices_made shop = shop.worker_threads * shop.spread_work_stealing_division

module _ (cfg : Config) (shop : Shop) (env : Surroundings) (iterations cost : ℕ) (s : Shares)
    (ready : IsReady cfg shop cost) (ok : IsShared shop iterations s) where
  unfoldable pub sd : ℕ
  sd = slice_division shop s.parts.iterations_per_part

  pub sd-le : (0 < sd) × (sd ≤ shop.spread_work_stealing_division)
  unfolding sd slice_division
  sd-le = ground (arith, ready.division_pos, ready.division_le)

  pub sd-each : sd ≤ s.parts.iterations_per_part
  unfolding sd
  sd-each =
      let bounds =
        slice_division_bounds shop s.parts.iterations_per_part (omega (arith, ready.division_pos))
          ready.division_le in
      omega (arith, bounds.1, ok.each)

  pub dispatched-le : s.number_of_dispatched_work_parts * sd ≤ slices_made shop
  unfolding slices_made
  dispatched-le = mul-le-mul ok.few sd-le.1

  pub bulk-le : (bulk cfg shop s).number_of_parts ≤ slices_made shop
  unfolding bulk sd slices_made
  bulk-le = elim (Bool-cases (shop.work_items == 0)) [
    | inl idle ↦ rw idle (
        let wrapped = mod-le (s.number_of_dispatched_work_parts * sd) cfg.hc_values in
        omega (arith, wrapped, dispatched-le))
    | inr busy ↦ rw busy (
        let some_slice : 1 ≤ shop.spread_work_stealing_division =
          omega (arith, ready.division_pos) in
        let one = mul-le-mul ok.few some_slice in omega (arith, one))
  ]

  hand_out-Within :
      (most : ℕ) (es : List Effect)
      → Within most (slices_made shop) es
      → slices_made shop ≤ most
      → peak 0 ((hand_out cfg shop env s).effects ++ es) ≤ most
  unfolding hand_out dispatch_workers sd
  hand_out-Within most es h k =
      elim (Bool-cases
        (cfg.exact_worker_selection && not cfg.slow_thread_signals && shop.work_items == 0)) [
          | inl direct ↦ rw direct (
              dispatch_parts-Within cfg env s.parts sd s.number_of_dispatched_work_parts 0 0
                s.caller_thread_end_iteration most 0 es ok.left sd-le.0 sd-each
                (λ f m. h f (omega (arith, m, dispatched-le))) 0 (omega arith))
          | inr queued ↦ elim (Bool-cases (s.number_of_dispatched_work_parts == 0)) [
            | inl nothing ↦ rw (queued, nothing) (omega (arith, h 0 (omega arith)))
            | inr parts ↦
                rw (queued, parts)
                  (enqueue_parts-Within cfg env s (bulk cfg shop s) most (slices_made shop) es h
                    bulk-le k)
          ]
        ]

peak-choose_wait :
    (b c : Bool) (e : ℕ) (es : List Effect) → peak e (choose_wait b c ++ es) ≡ peak e es
unfolding choose_wait
peak-choose_wait true c e es = refl
peak-choose_wait false c e es = refl

-- In a spread the barrier is never set to expect more arrivals than the stealing division for each
-- worker thread and one for the caller, so a counter that has more values than that does not wrap.
-- The shop is ready for the spread, and the iterations are a std::uint32_t.
pub spread_work-peak :
    (cfg : Config) (shop : Shop) (env : Surroundings) (iterations cost : ℕ)
    → IsReady cfg shop cost
    → iterations < 2 ^ 32
    → peak 0 (spread_work cfg shop env iterations cost).effects
      ≤ shop.worker_threads * shop.spread_work_stealing_division + 1
unfolding spread_work spread_parts slices_made
spread_work-peak cfg shop env zero cost ready small = omega arith
spread_work-peak cfg shop env (suc n) cost ready small =
    elim (Bool-cases (caller_only cfg shop env)) [
      | inl alone ↦ rw (suc-==-zero n, alone) (unfold perform_caller_work in omega arith)
      | inr shared ↦
          let s = share cfg shop (suc n) cost in
          let ok =
            share-IsShared cfg shop (suc n) cost ready
              (not_caller_only cfg shop env cost ready shared) (omega arith) small in
          let handed = hand_out cfg shop env s in
          rw (suc-==-zero n, shared, peak-choose_wait cfg.use_caller_thread s.queue_and_wait 0)
            (hand_out-Within cfg shop env (suc n) cost s ready ok (slices_made shop + 1) _
              (caller-Within (slices_made shop + 1) (slices_made shop) handed.caller_end cfg env
                s.queue_and_wait (omega arith))
              (omega arith))
    ]
