-- ===== src/Libuv/Invariant/Chunks.antt =====
-- Each chunk through the steps: invoked once, and not available behind the steal-back pass.
use sweater.Libuv.Invariant.{referred_at, Ok, AllOk}
use sweater.Prelude.{
  ℕ, suc, ◌≡◌, ◌≢◌, inl, inr, refl, sym, subst, true, false, List, some, get_elem?, set, length,
  ◌==◌, arith, get_elem?-set, get_elem?-length, Bool-cases, ap, ◌∙◌, Option, none,
}
use sweater.Libuv.Spread.{
  no_request, Place, pending, submitted, working, worked, counted, closed, inline, Chunk, Caller,
  at_tail, ran_tail, stealing, running, has_run, waiting, releasing, returned, Queuer, at, referred,
  to_run, did_run, leaving, done, System, is_available, is_pending, holds_lock, Step, run_tail,
  count_tail, steal_pending, cancel, leave_chunk, run_inline, count_inline, end_pass, wait,
  release_caller, skip, add_ref, submit, refuse, run_refused, count_refused, end_queue,
  release_queuer, take_request, work, count_down, after_work, after_cancel,
}

-- A chunk changes, and who runs it.
AllOk-set :
    (cs : List Chunk) (i : ℕ) (c' : Chunk) (a a' : Caller) (q q' : Queuer)
    → AllOk cs a q
    → Ok i c' a' q'
    → ((k : ℕ) (c : Chunk) → i ≢ k → Ok k c a q → Ok k c a' q')
    → AllOk (set cs i c') a' q'
AllOk-set cs i c' a a' q q' all here elsewhere k c e = elim (get_elem?-set cs i k c' c e) [
  | inl (same, f) ↦ subst (λ j. Ok j c a' q') same (subst (λ x. Ok i x a' q') (sym f) here)
  | inr (other, f) ↦ elsewhere k c other (all k c f)
]

-- Who moves alone, by where they were.
module _ (s : System) (all : AllOk s.chunks s.caller s.queuer) where
  caller_moves :
      (a a' : Caller)
      → s.caller ≡ a
      → ((k : ℕ) (c : Chunk)
          → get_elem? s.chunks k ≡ some c
          → Ok k c a s.queuer
          → Ok k c a' s.queuer)
      → AllOk s.chunks a' s.queuer
  caller_moves a a' e h k c f = h k c f (subst (λ x. Ok k c x s.queuer) e (all k c f))

  queuer_moves :
      (q q' : Queuer)
      → s.queuer ≡ q
      → ((k : ℕ) (c : Chunk)
          → get_elem? s.chunks k ≡ some c
          → Ok k c s.caller q
          → Ok k c s.caller q')
      → AllOk s.chunks s.caller q'
  queuer_moves q q' e h k c f = h k c f (subst (λ x. Ok k c s.caller x) e (all k c f))

  chunk_moves :
      (i : ℕ) (c c' : Chunk)
      → get_elem? s.chunks i ≡ some c
      → (Ok i c s.caller s.queuer → Ok i c' s.caller s.queuer)
      → AllOk (set s.chunks i c') s.caller s.queuer
  chunk_moves i c c' f h =
      AllOk-set s.chunks i c' s.caller s.caller s.queuer s.queuer all (h (all i c f)) (λ k d _ o. o)

  caller_takes :
      (a a' : Caller) (i : ℕ) (c c' : Chunk)
      → s.caller ≡ a
      → get_elem? s.chunks i ≡ some c
      → (Ok i c a s.queuer → Ok i c' a' s.queuer)
      → ((k : ℕ) (d : Chunk) → i ≢ k → Ok k d a s.queuer → Ok k d a' s.queuer)
      → AllOk (set s.chunks i c') a' s.queuer
  caller_takes a a' i c c' e f h g =
      AllOk-set s.chunks i c' s.caller a' s.queuer s.queuer all
        (h (subst (λ x. Ok i c x s.queuer) e (all i c f)))
        (λ k d other o. g k d other (subst (λ x. Ok k d x s.queuer) e o))

  queuer_takes :
      (q q' : Queuer) (i : ℕ) (c c' : Chunk)
      → s.queuer ≡ q
      → get_elem? s.chunks i ≡ some c
      → (Ok i c s.caller q → Ok i c' s.caller q')
      → ((k : ℕ) (d : Chunk) → i ≢ k → Ok k d s.caller q → Ok k d s.caller q')
      → AllOk (set s.chunks i c') s.caller q'
  queuer_takes q q' i c c' e f h g =
      AllOk-set s.chunks i c' s.caller s.caller s.queuer q' all
        (h (subst (λ x. Ok i c s.caller x) e (all i c f)))
        (λ k d other o. g k d other (subst (λ x. Ok k d s.caller x) e o))

no_lock : (i : ℕ) (q : Queuer) → holds_lock q ≡ false → referred_at i q ≡ true → ⊥
no_lock i (at j) l x = cc
no_lock i (referred j) l x = cc
no_lock i (to_run j) l x = cc
no_lock i (did_run j) l x = cc
no_lock i leaving l x = cc
no_lock i done l x = cc

same_self : (i : ℕ) → (i == i) ≡ true
same_self i = ground arith

is_pending-eq : (p : Place) → is_pending p ≡ true → p ≡ pending
is_pending-eq pending h = refl
is_pending-eq submitted h = absurd (cc)
is_pending-eq working h = absurd (cc)
is_pending-eq worked h = absurd (cc)
is_pending-eq counted h = absurd (cc)
is_pending-eq closed h = absurd (cc)
is_pending-eq (inline r) h = absurd (cc)

-- What the queuer has the lock for is still pending.
pending_under_lock :
    (i n : ℕ) (p : Place) (a : Caller)
    → Ok i (record { place = p; runs = n }) a (referred i)
    → p ≡ pending
pending_under_lock i n p a o = is_pending-eq p (o.held (same_self i))

pub referred-pending :
    (s : System) (i n : ℕ) (p : Place)
    → AllOk s.chunks s.caller s.queuer
    → s.queuer ≡ referred i
    → get_elem? s.chunks i ≡ some (record { place = p; runs = n })
    → p ≡ pending
referred-pending s i n p a e f =
    pending_under_lock i n p s.caller
      (subst (λ q. Ok i (record { place = p; runs = n }) s.caller q) e (a i _ f))

submit_lem :
    (i n : ℕ) (a : Caller)
    → Ok i (record { place = pending; runs = n }) a (referred i)
    → Ok i (record { place = submitted; runs = n }) a (at (suc i))
submit_lem i n a o = record { once = o.once; taken = o.taken; held = λ x. absurd (cc) }

refuse_lem :
    (i n : ℕ) (a : Caller)
    → Ok i (record { place = pending; runs = n }) a (referred i)
    → Ok i (record { place = inline no_request; runs = n }) a (to_run i)
refuse_lem i n a o = record {
  once = ground (arith, o.once);
  taken = λ x. refl;
  held = λ x. absurd (cc);
}

same_chunk :
    (cs : List Chunk) (i k : ℕ) (c d : Chunk)
    → get_elem? cs i ≡ some c
    → get_elem? cs k ≡ some d
    → (i == k) ≡ true
    → d.place ≡ c.place
same_chunk cs i k c d f g h =
    let e : i ≡ k = ground (arith, h) in
    let same : some d ≡ some c = sym g ∙ ap (λ j. get_elem? cs j) (sym e) ∙ f in
    ap (λ x. place_in x) same
  where
    place_in : Option Chunk → Place
    place_in none = pending
    place_in (some x) = x.place

pub Step-AllOk :
    {s t : System} → Step s t → AllOk s.chunks s.caller s.queuer → AllOk t.chunks t.caller t.queuer
Step-AllOk {s} (run_tail e) a =
    caller_moves s a at_tail ran_tail e
      (λ k c f o. record { once = o.once; taken = o.taken; held = o.held })
Step-AllOk {s} (count_tail e) a =
    caller_moves s a ran_tail (stealing (length s.chunks)) e (λ k c f o. record {
      once = o.once;
      taken = λ x. ground (arith, x, get_elem?-length s.chunks k f);
      held = o.held;
    })
Step-AllOk {s} (steal_pending i e l f) a =
    caller_takes s a (stealing (suc i)) (running i) i _ _ e f
      (λ o. record {
        once = ground (arith, o.once);
        taken = λ x. refl;
        held = λ x. absurd (no_lock i s.queuer l x);
      })
      (λ k d other o. record {
        once = ground (arith, o.once, other);
        taken = λ x. o.taken (ground (arith, x, other));
        held = o.held;
      })
Step-AllOk {s} (cancel i e l f) a =
    caller_takes s a (stealing (suc i)) (running i) i _ _ e f
      (λ o. record {
        once = ground (arith, o.once);
        taken = λ x. refl;
        held = λ x. absurd (no_lock i s.queuer l x);
      })
      (λ k d other o. record {
        once = ground (arith, o.once, other);
        taken = λ x. o.taken (ground (arith, x, other));
        held = o.held;
      })
Step-AllOk {s} (leave_chunk i e l f x) a =
    caller_moves s a (stealing (suc i)) (stealing i) e (λ k c g o. record {
      once = o.once;
      taken = λ y. elim (Bool-cases (i == k)) [
        | inl same ↦ ap (λ z. is_available z) (same_chunk s.chunks i k _ c f g same) ∙ x
        | inr other ↦ o.taken (ground (arith, y, other))
      ];
      held = o.held;
    })
Step-AllOk {s} (run_inline i e f) a =
    caller_takes s a (running i) (has_run i) i _ _ e f
      (λ o. record { once = ground (arith, o.once); taken = o.taken; held = o.held })
      (λ k d other o. record {
        once = ground (arith, o.once, other);
        taken = o.taken;
        held = o.held;
      })
Step-AllOk {s} (count_inline i e) a =
    caller_moves s a (has_run i) (stealing i) e
      (λ k c f o. record { once = o.once; taken = o.taken; held = o.held })
Step-AllOk {s} (end_pass e) a =
    caller_moves s a (stealing 0) waiting e
      (λ k c f o. record { once = o.once; taken = λ x. o.taken (ground arith); held = o.held })
Step-AllOk {s} (wait e z) a =
    caller_moves s a waiting releasing e
      (λ k c f o. record { once = o.once; taken = o.taken; held = o.held })
Step-AllOk {s} (release_caller e) a =
    caller_moves s a releasing returned e
      (λ k c f o. record { once = o.once; taken = o.taken; held = o.held })
Step-AllOk {s} (skip i e f x) a =
    queuer_moves s a (at i) (at (suc i)) e
      (λ k c f o. record { once = o.once; taken = o.taken; held = o.held })
Step-AllOk {s} (add_ref i e f) a = queuer_moves s a (at i) (referred i) e (λ k c g o. record {
  once = o.once;
  taken = o.taken;
  held = λ x. ap (λ z. is_pending z) (same_chunk s.chunks i k _ c f g x);
})
Step-AllOk {s} (submit i {p} {n} e f) a =
    queuer_takes s a (referred i) (at (suc i)) i _ _ e f
      (λ o. submit_lem i n s.caller (
        subst (λ z. Ok i (record { place = z; runs = n }) s.caller (referred i))
          (pending_under_lock i n p s.caller o) o))
      (λ k d other o. record { once = o.once; taken = o.taken; held = λ x. absurd (cc) })
Step-AllOk {s} (refuse i {p} {n} e f) a =
    queuer_takes s a (referred i) (to_run i) i _ _ e f
      (λ o. refuse_lem i n s.caller (
        subst (λ z. Ok i (record { place = z; runs = n }) s.caller (referred i))
          (pending_under_lock i n p s.caller o) o))
      (λ k d other o. record {
        once = ground (arith, o.once, other);
        taken = o.taken;
        held = λ x. absurd (cc);
      })
Step-AllOk {s} (run_refused i e f) a =
    queuer_takes s a (to_run i) (did_run i) i _ _ e f
      (λ o. record { once = ground (arith, o.once); taken = o.taken; held = o.held })
      (λ k d other o. record {
        once = ground (arith, o.once, other);
        taken = o.taken;
        held = o.held;
      })
Step-AllOk {s} (count_refused i e) a =
    queuer_moves s a (did_run i) (at (suc i)) e
      (λ k c f o. record { once = o.once; taken = o.taken; held = o.held })
Step-AllOk {s} (end_queue e) a =
    queuer_moves s a (at (length s.chunks)) leaving e
      (λ k c f o. record { once = o.once; taken = o.taken; held = o.held })
Step-AllOk {s} (release_queuer e) a =
    queuer_moves s a leaving done e
      (λ k c f o. record { once = o.once; taken = o.taken; held = o.held })
Step-AllOk {s} (take_request k f) a =
    chunk_moves s a k _ _ f (λ o. record { once = o.once; taken = λ x. refl; held = o.held })
Step-AllOk {s} (work k f) a =
    chunk_moves s a k _ _ f
      (λ o. record { once = ground (arith, o.once); taken = o.taken; held = o.held })
Step-AllOk {s} (count_down k f) a =
    chunk_moves s a k _ _ f (λ o. record { once = o.once; taken = o.taken; held = o.held })
Step-AllOk {s} (after_work k f) a =
    chunk_moves s a k _ _ f (λ o. record { once = o.once; taken = o.taken; held = o.held })
Step-AllOk {s} (after_cancel k f) a =
    chunk_moves s a k _ _ f (λ o. record { once = o.once; taken = o.taken; held = o.held })
