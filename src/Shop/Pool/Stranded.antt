-- ===== src/Shop/Pool/Stranded.antt =====
-- That no worker sleeps once it is to stop and was notified.
use sweater.Prelude.{
  ℕ, zero, suc, ◌+◌, ◌-◌, ◌≤◌, ◌≡◌, refl, Bool, true, false, List, [], ◌∷◌, some, get_elem?, set,
  arith, if◌then◌else◌, ◌∙◌,
}
use sweater.Threads.{weigh, weigh-set, le-weigh, weigh-replicate}
use sweater.Shop.Pool.{
  Pc, dequeuing, running, checking, waiting, notifying, returned, Worker, Pool, notify, WorkerStep,
  run, complete, steal, run_out, leave, sleep, wake_idle, wake_busy, propagate, resume, OwnerStep,
  enqueue, work_added, notify_worker, stop, wake_worker, destroy, create, Reach, new, by_worker,
  by_owner,
}

-- Notified by the owner, and parked without a token.
abbrev pub stranded : Worker → ℕ
stranded w = elim w.pc [ waiting ↦ if w.woken then 1 - w.tokens else 0 | _ ↦ 0 ]

abbrev was_woken : Worker → ℕ
was_woken w = if w.woken then 1 else 0

module _ (v : Worker → ℕ) where
  weigh-notify_le :
      (j : ℕ) (ws : List Worker)
      → ((w : Worker) → v (record w { tokens = w.tokens + 1 }) ≤ v w)
      → weigh v (notify j ws) ≤ weigh v ws
  unfolding weigh notify
  weigh-notify_le j [] h = omega arith
  weigh-notify_le zero (w ∷ ws) h = omega (arith, h w)
  weigh-notify_le (suc j) (w ∷ ws) h = omega (arith, weigh-notify_le j ws h)

  pub weigh-notify :
      (j : ℕ) (ws : List Worker)
      → ((w : Worker) → v (record w { tokens = w.tokens + 1 }) ≡ v w)
      → weigh v (notify j ws) ≡ weigh v ws
  unfolding weigh notify
  weigh-notify j [] h = refl
  weigh-notify zero (w ∷ ws) h = omega (arith, h w)
  weigh-notify (suc j) (w ∷ ws) h = omega (arith, weigh-notify j ws h)

stranded-notify : (w : Worker) → stranded (record w { tokens = w.tokens + 1 }) ≤ stranded w
stranded-notify w = ground arith

stranded-woken : (p : Pc) (k : ℕ) → stranded (record { pc = p; tokens = k + 1; woken = true }) ≡ 0
stranded-woken waiting k = omega arith
stranded-woken (dequeuing own) k = refl
stranded-woken (running own) k = refl
stranded-woken checking k = refl
stranded-woken (notifying js) k = refl
stranded-woken returned k = refl

pub record Inv (s : Pool) : Type 0 where
  pub none_stranded : weigh stranded s.pool_ ≡ 0
  pub none_woken : s.brexit_ ≡ false → weigh was_woken s.pool_ ≡ 0

-- A worker moves: what it was and what it is.
module _ (s : Pool) (i : ℕ) (w w' : Worker) (e : get_elem? s.pool_ i ≡ some w) (c : Inv s) where
  moved :
      stranded w' ≡ 0
      → was_woken w' ≡ was_woken w
      → (b : Bool) (n k : ℕ) → s.brexit_ ≡ b
      → Inv (record { brexit_ = b; work_items_ = n; queued = k; pool_ = set s.pool_ i w' })
  moved safe same b n k same_brexit = record {
    none_stranded = omega (arith, weigh-set stranded s.pool_ i w w' e, c.none_stranded, safe);
    none_woken = λ h.
        omega (arith, weigh-set was_woken s.pool_ i w w' e, same, c.none_woken (same_brexit ∙ h));
  }

notify-Inv : (s : Pool) (j : ℕ) → Inv s → Inv (record s { pool_ = notify j s.pool_ })
notify-Inv s j c = record {
  none_stranded =
      omega (arith, weigh-notify_le stranded j s.pool_ stranded-notify, c.none_stranded);
  none_woken = λ h. omega (arith, weigh-notify was_woken j s.pool_ (λ w. refl), c.none_woken h);
}

WorkerStep-Inv : (hc : ℕ) {s t : Pool} → WorkerStep hc s t → Inv s → Inv t
WorkerStep-Inv hc {s} (run i e q) c = moved s i _ _ e c refl refl _ _ _ refl
WorkerStep-Inv hc {s} (complete i e) c = moved s i _ _ e c refl refl _ _ _ refl
WorkerStep-Inv hc {s} (steal i e) c = moved s i _ _ e c refl refl _ _ _ refl
WorkerStep-Inv hc {s} (run_out i e) c = moved s i _ _ e c refl refl _ _ _ refl
WorkerStep-Inv hc {s} (leave i e x) c = moved s i _ _ e c refl refl _ _ _ refl
WorkerStep-Inv hc {s} (sleep i {b} e x) c =
    moved s i _ _ e c (ground (arith, c.none_woken x, le-weigh was_woken s.pool_ i _ e)) refl _ _ _
      refl
WorkerStep-Inv hc {s} (wake_idle i e x) c = moved s i _ _ e c refl refl _ _ _ refl
WorkerStep-Inv hc {s} (wake_busy i e x) c = moved s i _ _ e c refl refl _ _ _ refl
WorkerStep-Inv hc {s} (propagate i j e) c = notify-Inv _ j (moved s i _ _ e c refl refl _ _ _ refl)
WorkerStep-Inv hc {s} (resume i e) c = moved s i _ _ e c refl refl _ _ _ refl

OwnerStep-Inv : (hc : ℕ) {s t : Pool} → OwnerStep hc s t → Inv s → Inv t
OwnerStep-Inv hc {s} enqueue c = record {
  none_stranded = c.none_stranded;
  none_woken = c.none_woken;
}
OwnerStep-Inv hc {s} (work_added n) c = record {
  none_stranded = c.none_stranded;
  none_woken = c.none_woken;
}
OwnerStep-Inv hc {s} (notify_worker j) c = notify-Inv s j c
OwnerStep-Inv hc {s} stop c = record {
  none_stranded = c.none_stranded;
  none_woken = λ h. absurd (cc);
}
OwnerStep-Inv hc {s} (wake_worker i {p} {k} x e) c = record {
  none_stranded =
      omega (arith, weigh-set stranded s.pool_ i _ _ e, c.none_stranded, stranded-woken p k);
  none_woken = λ h. absurd (cc);
}
OwnerStep-Inv hc {s} (destroy x y z) c = record {
  none_stranded = unfold weigh in refl;
  none_woken = λ h. unfold weigh in refl;
}
OwnerStep-Inv hc {s} (create size e) c = record {
  none_stranded = weigh-replicate stranded size _ refl;
  none_woken = λ h. weigh-replicate was_woken size _ refl;
}

pub Reach-Inv : (hc : ℕ) {s : Pool} → Reach hc s → Inv s
Reach-Inv hc new = record {
  none_stranded = unfold weigh in refl;
  none_woken = λ h. unfold weigh in refl;
}
Reach-Inv hc (by_worker r x) = WorkerStep-Inv hc x (Reach-Inv hc r)
Reach-Inv hc (by_owner r x) = OwnerStep-Inv hc x (Reach-Inv hc r)
