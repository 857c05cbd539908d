-- ===== src/Shop/Joined/Plan.antt =====
-- The calls of a spread of which the queue refuses nothing keep the barrier's rules.
use sweater.Prelude.{
  suc-==-zero, ℕ, zero, suc, ◌+◌, ◌-◌, ◌*◌, ◌%◌, ◌≤◌, ◌<◌, ◌≡◌, ◌^◌, Bool, true, false, not, ◌==◌,
  ◌&&◌, if◌then◌else◌, refl, arith, Bool-cases, inl, inr, List, [], ◌∷◌, ◌++◌, length, subst,
}
use mathlib.Core.List.{append_assoc}
use sweater.Chunks.Tiles.{Range}
use sweater.Shop.Arrivals.{slices_made, sd, sd-le, sd-each, dispatched-le, bulk-le}
use sweater.Shop.Ranges.{Left, Left-next, next-IsCut, length-bulk_parts}
use sweater.Shop.Config.{Config, Shop, Surroundings}
use sweater.Shop.Cover.{not_caller_only}
use sweater.Shop.Effects.{
  Effect, use_spin_wait, add_expected_arrival, initialize, enqueue, enqueue_bulk, run, spin_wait,
  wait,
}
use sweater.Shop.Dispatch.{
  announce, Parts, part_slices, part_end, dispatch_parts, dispatch_workers, bulk_parts,
  perform_caller_work,
}
use sweater.Shop.Sharing.{IsReady, IsShared, share-IsShared}
use sweater.Shop.Spread.{
  Bulk, Shares, bulk, enqueue_parts, hand_out, join, choose_wait, Handed, spread_parts, caller_only,
  spread_work, share,
}

-- With `e` arrivals expected so far, `k` of them for ranges that are not handed out yet: the barrier
-- never expects more than `limit`, is set only before any arrival is expected, a range is handed out
-- for an arrival that is expected, and at the end, where all are handed out, the wait is the chosen
-- one, or there is none and the chosen one spins.
abbrev pub Plan : (limit : ℕ) (spin : Bool) (k e : ℕ) → List Effect → Type 0
Plan limit spin k e [] = (k ≡ 0) × (spin ≡ true)
Plan limit spin k e (add_expected_arrival ∷ es) =
    (suc e ≤ limit) × Plan limit spin (suc k) (suc e) es
Plan limit spin k e (initialize n ∷ es) = (k ≡ 0) × (e ≡ 0) × (n ≤ limit) × Plan limit spin n n es
Plan limit spin k e (enqueue w rs b true ∷ es) =
    (length rs ≤ k) × Plan limit spin (k - length rs) e es
Plan limit spin k e (enqueue w rs b false ∷ es) = true ≡ false
Plan limit spin k e (enqueue_bulk rs true ∷ es) =
    (length rs ≤ k) × Plan limit spin (k - length rs) e es
Plan limit spin k e (enqueue_bulk rs false ∷ es) = true ≡ false
Plan limit spin k e (run r ∷ es) = (1 ≤ k) × Plan limit spin (k - 1) e es
Plan limit spin k e (wait ∷ es) = (spin ≡ false) × (k ≡ 0) × (es ≡ [])
Plan limit spin k e (spin_wait ∷ es) = (spin ≡ true) × (k ≡ 0) × (es ≡ [])
Plan limit spin k e (use_spin_wait v ∷ es) = true ≡ false
Plan limit spin k e (_ ∷ es) = Plan limit spin k e es

pub same-Plan :
    (limit : ℕ) (spin : Bool) (k l e f : ℕ) (es : List Effect)
    → k ≡ l
    → e ≡ f
    → Plan limit spin k e es
    → Plan limit spin l f es
same-Plan limit spin k l e f es p q h =
    subst (λ n. Plan limit spin n f es) p (subst (λ n. Plan limit spin k n es) q h)

module _ (limit : ℕ) (spin : Bool) where
  -- With all handed out and `n` expected at most.
  abbrev Steady : ℕ → List Effect → Type 0
  Steady n es = (e : ℕ) → e ≤ n → Plan limit spin 0 e es

  announce-Plan :
      (rs : List Range) (k e : ℕ) (es : List Effect)
      → length rs + e ≤ limit
      → Plan limit spin (length rs + k) (length rs + e) es
      → Plan limit spin k e (announce rs ++ es)
  unfolding announce
  announce-Plan [] k e es l h =
      same-Plan limit spin (0 + k) k (0 + e) e es (omega arith) (omega arith) h
  announce-Plan (r ∷ rs) k e es l h = (
    omega (arith, l),
    announce-Plan rs (suc k) (suc e) es (omega (arith, l)) (
        same-Plan limit spin (suc (length rs) + k) (length rs + suc k) (suc (length rs) + e)
          (length rs + suc e) es (omega arith) (omega arith) h),
  )

  dispatch_parts-Steady :
      (cfg : Config) (env : Surroundings) (p : Parts) (d left work_part worker iteration n : ℕ)
      (es : List Effect)
      → ((w : ℕ) → env.worker_enqueued w ≡ true)
      → Left p left work_part iteration
      → 0 < d
      → d ≤ p.iterations_per_part
      → n + left * d ≤ limit
      → Steady (n + left * d) es
      → Steady n ((dispatch_parts cfg env p d left work_part worker iteration).effects ++ es)
  unfolding dispatch_parts
  dispatch_parts-Steady cfg env p d zero work_part worker iteration n es taken left_over pos each l
        h e k =
      h e (omega (arith, k))
  dispatch_parts-Steady cfg env p d (suc left) work_part worker iteration n es taken left_over pos
        each l h e k =
      elim (Bool-cases (iteration == p.iterations)) [
        | inl done ↦ rw done (h e (omega (arith, k)))
        | inr more ↦
            rw (more, taken worker)
              (let rs = part_slices p d work_part iteration in
                let few = (next-IsCut p d left work_part iteration left_over pos each).1 in
                let next = (Left-next p left work_part iteration left_over).1 in
                let rest =
                  (dispatch_parts cfg env p d left (work_part + 1) ((worker + 1) % cfg.hc_values)
                    (part_end p work_part iteration)).effects in
                rw (append_assoc (announce rs)) (
                  announce-Plan rs 0 e _ (omega (arith, few, k, l)) (
                    omega arith,
                    same-Plan limit spin 0 (length rs + 0 - length rs) (length rs + e)
                        (length rs + e) (rest ++ es) (omega arith) refl
                        (dispatch_parts-Steady cfg env p d left (work_part + 1)
                          ((worker + 1) % cfg.hc_values) (part_end p work_part iteration) (n + d) es
                          taken next pos each (omega (arith, l)) (λ f m. h f (omega (arith, m)))
                          (length rs + e) (omega (arith, few, k))),
                  )))
      ]

  caller-Steady :
      (n end : ℕ) (cfg : Config) (env : Surroundings) (queued : Bool)
      → n < limit
      → (cfg.use_caller_thread && not queued) ≡ spin
      → Steady n ((if end == 0 then [] else perform_caller_work end) ++ join cfg env queued)
  unfolding perform_caller_work join
  caller-Steady n zero cfg env queued h c e k = ground (arith, h, c, k)
  caller-Steady n (suc m) cfg env queued h c e k = rw (suc-==-zero m) (ground (arith, h, c, k))

  enqueue_parts-Plan :
      (cfg : Config) (env : Surroundings) (s : Shares) (b : Bulk) (n : ℕ) (es : List Effect)
      → env.bulk_enqueued ≡ true
      → Steady n es
      → b.number_of_parts ≤ n
      → n ≤ limit
      → Plan limit spin 0 0 ((enqueue_parts cfg env s b).effects ++ es)
  unfolding enqueue_parts
  enqueue_parts-Plan cfg env s b n es taken h k l = elim (Bool-cases cfg.slow_thread_signals) [
    | inl slow ↦ rw (taken, slow) (refl, refl, omega (arith, k, l), (omega (arith, all), after))
    | inr fast ↦ rw (taken, fast) (refl, refl, omega (arith, k, l), (omega (arith, all), after))
  ]
    where
      rs : List Range
      rs = bulk_parts b.parts b.number_of_parts 0 s.caller_thread_end_iteration

      all : length rs ≡ b.number_of_parts
      all = length-bulk_parts b.parts b.number_of_parts 0 s.caller_thread_end_iteration

      after : Plan limit spin (b.number_of_parts - length rs) b.number_of_parts es
      after =
          same-Plan limit spin 0 (b.number_of_parts - length rs) b.number_of_parts b.number_of_parts
            es (omega (arith, all)) refl (h b.number_of_parts k)

  hand_out-Plan :
      (cfg : Config) (shop : Shop) (env : Surroundings) (iterations cost : ℕ) (s : Shares)
      → IsReady cfg shop cost
      → IsShared shop iterations s
      → (es : List Effect) → env.bulk_enqueued ≡ true
      → ((w : ℕ) → env.worker_enqueued w ≡ true)
      → Steady (slices_made shop) es
      → slices_made shop ≤ limit
      → Plan limit spin 0 0 ((hand_out cfg shop env s).effects ++ es)
  unfolding hand_out dispatch_workers sd
  hand_out-Plan cfg shop env iterations cost s ready ok es taken each h k =
      elim (Bool-cases
        (cfg.exact_worker_selection && not cfg.slow_thread_signals && shop.work_items == 0)) [
          | inl direct ↦ rw direct (
              let few = dispatched-le cfg shop env iterations cost s ready ok in
              dispatch_parts-Steady cfg env s.parts _ s.number_of_dispatched_work_parts 0 0
                s.caller_thread_end_iteration 0 es each ok.left
                (sd-le cfg shop env iterations cost s ready ok).0
                (sd-each cfg shop env iterations cost s ready ok) (omega (arith, few, k))
                (λ f m. h f (omega (arith, m, few))) 0 (omega arith))
          | inr queued ↦ elim (Bool-cases (s.number_of_dispatched_work_parts == 0)) [
            | inl nothing ↦ rw (queued, nothing) (refl, refl, omega arith, h 0 (omega arith))
            | inr parts ↦
                rw (queued, parts)
                  (enqueue_parts-Plan cfg env s (bulk cfg shop s) (slices_made shop) es taken h
                    (bulk-le cfg shop env iterations cost s ready ok) k)
          ]
        ]

-- The calls of a spread that shares its iterations, after its choice of the wait.
abbrev pub planned : Config → Shop → Surroundings → Shares → List Effect
planned cfg shop env s =
    handed.effects
    ++ ((if handed.caller_end == 0 then [] else perform_caller_work handed.caller_end)
        ++ join cfg env s.queue_and_wait)
  where
    handed : Handed
    handed = hand_out cfg shop env s

pub spread_work-planned :
    (cfg : Config) (shop : Shop) (env : Surroundings) (iterations cost : ℕ)
    → caller_only cfg shop env ≡ false
    → 0 < iterations
    → let s = share cfg shop iterations cost in
      (spread_work cfg shop env iterations cost).effects
      ≡ choose_wait cfg.use_caller_thread s.queue_and_wait ++ planned cfg shop env s
unfolding spread_work spread_parts
spread_work-planned cfg shop env zero cost shared h = absurd (omega arith)
spread_work-planned cfg shop env (suc n) cost shared h = rw (suc-==-zero n, shared) refl

module _ (cfg : Config) (shop : Shop) (env : Surroundings) (iterations cost : ℕ)
    (shared : caller_only cfg shop env ≡ false) where
  pub planned-Plan :
      IsReady cfg shop cost
      → 0 < iterations
      → iterations < 2 ^ 32
      → env.bulk_enqueued ≡ true
      → ((w : ℕ) → env.worker_enqueued w ≡ true)
      → let s = share cfg shop iterations cost in
        Plan
          (slices_made shop + 1)
          (cfg.use_caller_thread && not s.queue_and_wait)
          0
          0
          (planned cfg shop env s)
  planned-Plan ready some_work small taken each =
      let s = share cfg shop iterations cost in
      let ok =
        share-IsShared cfg shop iterations cost ready
          (not_caller_only cfg shop env cost ready shared) some_work small in
      let handed = hand_out cfg shop env s in
      let spins = cfg.use_caller_thread && not s.queue_and_wait in
      let rest =
        (if handed.caller_end == 0 then [] else perform_caller_work handed.caller_end)
        ++ join cfg env s.queue_and_wait in
      hand_out-Plan (slices_made shop + 1) spins cfg shop env iterations cost s ready ok rest taken
        each
        (caller-Steady (slices_made shop + 1) spins (slices_made shop) handed.caller_end cfg env
          s.queue_and_wait (omega arith) refl)
        (omega arith)
