-- ===== src/Shop/Pool/Stopping.antt =====
-- That stop_and_destroy_pool ends.
use sweater.Shop.Pool.Stranded.{stranded, Inv, Reach-Inv, weigh-notify}
use sweater.Prelude.{
  ℕ, zero, suc, ◌+◌, ◌*◌, ◌≤◌, ◌<◌, ◌≡◌, ◌⊎◌, inl, inr, refl, Bool, true, false, List, [], ◌∷◌,
  some, get_elem?, set, length, arith, if◌then◌else◌, ◌∙◌, ◌==◌, Bool-cases,
}
use sweater.Threads.{weigh, weigh-set, le-weigh}
use sweater.Shop.Wake.{propagate_spread_wake}
use sweater.Shop.Pool.{
  Pc, dequeuing, running, checking, waiting, notifying, returned, Worker, Pool, WorkerStep, run,
  complete, steal, run_out, leave, sleep, wake_idle, wake_busy, propagate, resume, unwoken,
  unreturned, Reach, by_worker, Run, none_yet, after,
}

-- How many steps a worker may still make, once `exit` is set, but for the items in the queue.
abbrev rank : Worker → ℕ
rank w = elim w.pc [
  | dequeuing own ↦ if own then 3 else 2
  | running own ↦ if own then 4 else 3
  | checking ↦ 1
  | waiting ↦ 7
  | notifying js ↦ 4 + length js
  | returned ↦ 0
]

abbrev pub steps_left : Pool → ℕ
steps_left s = weigh rank s.pool_ + 2 * s.queued

drops :
    (s : Pool) (i n : ℕ) (w w' : Worker)
    → get_elem? s.pool_ i ≡ some w
    → rank w' + 2 * n < rank w + 2 * s.queued
    → weigh rank (set s.pool_ i w') + 2 * n < steps_left s
drops s i n w w' e h = omega (arith, weigh-set rank s.pool_ i w w' e, h)

length-propagate_spread_wake : (hc workers i : ℕ) → length (propagate_spread_wake hc workers i) ≤ 2
unfolding propagate_spread_wake
length-propagate_spread_wake hc workers i = ground arith

-- Once brexit_ is set, each step of a worker is one less to make.
steps_left-WorkerStep :
    (hc : ℕ) {s t : Pool} → WorkerStep hc s t → s.brexit_ ≡ true → steps_left t < steps_left s
steps_left-WorkerStep hc {s} (run i {own = true} e q) h = drops s i _ _ _ e (omega (arith, q))
steps_left-WorkerStep hc {s} (run i {own = false} e q) h = drops s i _ _ _ e (omega (arith, q))
steps_left-WorkerStep hc {s} (complete i {own = true} e) h = drops s i _ _ _ e (omega arith)
steps_left-WorkerStep hc {s} (complete i {own = false} e) h = drops s i _ _ _ e (omega arith)
steps_left-WorkerStep hc {s} (steal i e) h = drops s i _ _ _ e (omega arith)
steps_left-WorkerStep hc {s} (run_out i e) h = drops s i _ _ _ e (omega arith)
steps_left-WorkerStep hc {s} (leave i e x) h = drops s i _ _ _ e (omega arith)
steps_left-WorkerStep hc {s} (sleep i e x) h = absurd (cc)
steps_left-WorkerStep hc {s} (wake_idle i e x) h = drops s i _ _ _ e (omega arith)
steps_left-WorkerStep hc {s} (wake_busy i e x) h =
    drops s i _ _ _ e (omega (arith, length-propagate_spread_wake hc (length s.pool_) i))
steps_left-WorkerStep hc {s} (propagate i j {js} {b} {k} e) h =
    let below : Worker = record { pc = notifying js; tokens = k; woken = b } in
    omega (
      arith,
      weigh-notify rank j (set s.pool_ i below) (λ w. refl),
      drops s i s.queued _ below e (omega arith),
    )
steps_left-WorkerStep hc {s} (resume i e) h = drops s i _ _ _ e (omega arith)

-- A worker that is not back can make a step, unless it waits without a token.
can_step :
    (hc i : ℕ) (s : Pool) (p : Pc) (k : ℕ) (b : Bool)
    → get_elem? s.pool_ i ≡ some (record { pc = p; tokens = k; woken = b })
    → s.brexit_ ≡ true
    → unwoken (record { pc = p; tokens = k; woken = b }) ≡ 0
    → stranded (record { pc = p; tokens = k; woken = b }) ≡ 0
    → (p ≡ returned) ⊎ ((t : Pool) × WorkerStep hc s t)
can_step hc i s (dequeuing true) k b e h f g = inr (_, steal i e)
can_step hc i s (dequeuing false) k b e h f g = inr (_, run_out i e)
can_step hc i s (running own) k b e h f g = inr (_, complete i e)
can_step hc i s checking k b e h f g = inr (_, leave i e h)
can_step hc i s waiting zero b e h f g = absurd (ground (arith, f, g))
can_step hc i s waiting (suc k) b e h f g = elim (Bool-cases (s.work_items_ == 0)) [
  | inl idle ↦ inr (_, wake_idle i e (ground (arith, idle)))
  | inr busy ↦ inr (_, wake_busy i e (ground (arith, busy)))
]
can_step hc i s (notifying []) k b e h f g = inr (_, resume i e)
can_step hc i s (notifying (j ∷ js)) k b e h f g = inr (_, propagate i j e)
can_step hc i s returned k b e h f g = inl refl

abbrev pub AllReturned : List Worker → Type 0
AllReturned ws = weigh unreturned ws ≡ 0

-- The workers change neither brexit_ nor whom the owner has notified.
record IsStopping (s : Pool) : Type 0 where
  brexit : s.brexit_ ≡ true
  all_woken : weigh unwoken s.pool_ ≡ 0

stays :
    (s : Pool) (i n k : ℕ) (w w' : Worker)
    → get_elem? s.pool_ i ≡ some w
    → unwoken w' ≡ unwoken w
    → IsStopping s
    → IsStopping (record s { work_items_ = n; queued = k; pool_ = set s.pool_ i w' })
stays s i n k w w' e h c = record {
  brexit = c.brexit;
  all_woken = omega (arith, weigh-set unwoken s.pool_ i w w' e, h, c.all_woken);
}

WorkerStep-IsStopping : (hc : ℕ) {s t : Pool} → WorkerStep hc s t → IsStopping s → IsStopping t
WorkerStep-IsStopping hc {s} (run i e q) c = stays s i _ _ _ _ e refl c
WorkerStep-IsStopping hc {s} (complete i e) c = stays s i _ _ _ _ e refl c
WorkerStep-IsStopping hc {s} (steal i e) c = stays s i _ _ _ _ e refl c
WorkerStep-IsStopping hc {s} (run_out i e) c = stays s i _ _ _ _ e refl c
WorkerStep-IsStopping hc {s} (leave i e x) c = stays s i _ _ _ _ e refl c
WorkerStep-IsStopping hc {s} (sleep i e x) c = stays s i _ _ _ _ e refl c
WorkerStep-IsStopping hc {s} (wake_idle i e x) c = stays s i _ _ _ _ e refl c
WorkerStep-IsStopping hc {s} (wake_busy i e x) c = stays s i _ _ _ _ e refl c
WorkerStep-IsStopping hc {s} (propagate i j e) c =
    let c' = stays s i s.work_items_ s.queued _ _ e refl c in
    record { brexit = c.brexit; all_woken = weigh-notify unwoken j _ (λ w. refl) ∙ c'.all_woken }
WorkerStep-IsStopping hc {s} (resume i e) c = stays s i _ _ _ _ e refl c

back_lem : (w : Worker) → (unreturned w == 0) ≡ true → unreturned w ≡ 0
back_lem w h = ground (arith, h)

not_back : (w : Worker) → (unreturned w == 0) ≡ false → unreturned w ≡ 1
not_back w h = ground (arith, h)

returned_lem : (w : Worker) → w.pc ≡ returned → unreturned w ≡ 0
returned_lem w h = rw h refl

find_unreturned :
    (ws : List Worker)
    → AllReturned ws ⊎ ((i : ℕ) × (w : Worker) × (get_elem? ws i ≡ some w) × (unreturned w ≡ 1))
unfolding weigh
find_unreturned [] = inl refl
find_unreturned (w ∷ ws) = elim (Bool-cases (unreturned w == 0)) [
  | inr there ↦ inr (0, w, refl, not_back w there)
  | inl back ↦ elim (find_unreturned ws) [
    | inl all_back ↦ inl (omega (arith, all_back, back_lem w back))
    | inr (i, v, e, there) ↦ inr (suc i, v, e, there)
  ]
]

progress :
    (hc : ℕ) (s : Pool)
    → Inv s
    → IsStopping s
    → AllReturned s.pool_ ⊎ ((t : Pool) × WorkerStep hc s t)
progress hc s c x = elim (find_unreturned s.pool_) [
  | inl all_back ↦ inl all_back
  | inr (i, w, e, there) ↦
      elim (can_step hc i s w.pc w.tokens w.woken e x.brexit
        (omega (arith, le-weigh unwoken s.pool_ i w e, x.all_woken))
        (omega (arith, le-weigh stranded s.pool_ i w e, c.none_stranded))) [
          | inl back ↦ absurd (omega (arith, there, returned_lem w back))
          | inr more ↦ inr more
        ]
]

record Ending (hc k : ℕ) (s t : Pool) : Type 0 where
  reached : Reach hc t
  stopping : IsStopping t
  bound : k + steps_left t ≤ steps_left s

Run-Ending : (hc k : ℕ) {s t : Pool} → Run hc k s t → Reach hc s → IsStopping s → Ending hc k s t
Run-Ending hc zero none_yet r x = record { reached = r; stopping = x; bound = omega arith }
Run-Ending hc (suc k) (after before step) r x =
    let b = Run-Ending hc k before r x in
    record {
      reached = by_worker b.reached step;
      stopping = WorkerStep-IsStopping hc step b.stopping;
      bound = omega (arith, b.bound, steps_left-WorkerStep hc step b.stopping.brexit);
    }

-- stop_and_destroy_pool ends. Once brexit_ is set and the owner has notified every worker, and while
-- nobody enqueues or notifies any more, the workers make no more steps than `steps_left` allows,
-- and wherever they are then, either some worker can make a step, or all are back from worker_loop
-- and can be joined.
pub stop_and_destroy_pool-ends :
    (hc k : ℕ) (s t : Pool)
    → Reach hc s
    → s.brexit_ ≡ true
    → weigh unwoken s.pool_ ≡ 0
    → Run hc k s t
    → (k ≤ steps_left s) × (AllReturned t.pool_ ⊎ ((u : Pool) × WorkerStep hc t u))
stop_and_destroy_pool-ends hc k s t r x w steps =
    let b = Run-Ending hc k steps r (record { brexit = x; all_woken = w }) in
    (omega (arith, b.bound), progress hc t (Reach-Inv hc b.reached) b.stopping)
