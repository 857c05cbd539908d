-- ===== src/Shop/Joined/Stages.antt =====
-- Where the calls of a spread and its barrier stand together.
use native.Mathlib.Nat.{mod-eq_of_lt}
use mathlib.Core.List.{append_assoc}
use sweater.Prelude.{
  ℕ, zero, suc, ◌+◌, ◌-◌, ◌%◌, ◌^◌, ◌≤◌, ◌<◌, ◌≡◌, ◌⊎◌, inl, inr, Bool, true, false, refl, ap, sym,
  subst, ◌∙◌, arith, List, [], ◌∷◌, ◌++◌, some, get_elem?, set,
}
use sweater.Barrier.Futex.{
  Barrier, Owner, idle, working, fresh, preparing, Reach, step, hand_out, add_expected_arrival,
  decremented,
}
use sweater.Barrier.Futex.Safety.{has_part, Reach-Inv}
use sweater.Chunks.Tiles.{Range}
use sweater.Shop.Effects.{Effect, executed}
use sweater.Shop.Joined.{Joint, is_inert, chooses}
use sweater.Shop.Joined.Plan.{Plan, same-Plan}
use sweater.Threads.{weigh-set}

-- Before the spread chooses its wait: `spin` is what it chooses, or it never does and cannot spin.
abbrev pub Begins : (limit : ℕ) (spin : Bool) → List Effect → Type 0
Begins limit spin rest =
    ((es : List Effect) × (rest ≡ Effect.use_spin_wait spin ∷ es) × Plan limit spin 0 0 es)
    ⊎ ((spin ≡ false) × Plan limit spin 0 0 rest)

-- The calls that are left, where the owner stands.
abbrev pub At :
    (limit : ℕ) (spin : Bool) → List Effect → (counter : ℕ) (spin_wait_ : Bool) → Owner → Type 0
At limit spin es c v fresh = (v ≡ false) × (c ≤ 0) × Begins limit spin es
At limit spin es c v (preparing k) = (e : ℕ) × (c ≤ e) × (v ≡ spin) × Plan limit spin k e es
At limit spin es c v _ = es ≡ []

pub fewer-At :
    (limit : ℕ) (spin : Bool) (es : List Effect) (c d : ℕ) (v : Bool) (o : Owner)
    → d ≤ c
    → At limit spin es c v o
    → At limit spin es d v o
fewer-At limit spin es c d v fresh l (free, none_yet, begins) =
    (free, omega (arith, l, none_yet), begins)
fewer-At limit spin es c d v (preparing k) l (e, fewer, same, plan) =
    (e, omega (arith, l, fewer), same, plan)
fewer-At limit spin es c d v _ l h = h

pub chosen-Begins :
    (limit : ℕ) (spin v : Bool) (rest es : List Effect)
    → rest ≡ Effect.use_spin_wait v ∷ es
    → Begins limit spin rest
    → (v ≡ spin) × Plan limit spin 0 0 es
chosen-Begins limit spin v rest es p (inl (fs, q, plan)) =
    let same : Effect.use_spin_wait spin ∷ fs ≡ Effect.use_spin_wait v ∷ es = sym q ∙ p in
    let tails : fs ≡ es = cc same in (cc same, subst (Plan limit spin 0 0) tails plan)
chosen-Begins limit spin v rest es p (inr (spins_not, plan)) =
    let never : true ≡ false = subst (Plan limit spin 0 0) p plan in absurd (cc never)

pub kept-Begins :
    (limit : ℕ) (spin : Bool) (rest : List Effect)
    → chooses rest ≡ false
    → Begins limit spin rest
    → (spin ≡ false) × Plan limit spin 0 0 rest
kept-Begins limit spin rest c (inl (fs, q, plan)) =
    let never : true ≡ false = ap chooses (sym q) ∙ c in absurd (cc never)
kept-Begins limit spin rest c (inr kept) = kept

-- The first of the ranges is handed out.
pub one-Plan :
    (limit : ℕ) (spin : Bool) (k e l : ℕ) (es : List Effect)
    → suc l ≤ k
    → Plan limit spin (k - suc l) e es
    → (l ≤ k - 1) × Plan limit spin (k - 1 - l) e es
one-Plan limit spin k e l es room plan = (
  omega (arith, room),
  same-Plan limit spin (k - suc l) (k - 1 - l) e e es (omega arith) refl plan,
)

pub inert-Plan :
    (limit : ℕ) (spin : Bool) (k e : ℕ) (x : Effect) (es : List Effect)
    → is_inert x ≡ true
    → Plan limit spin k e (x ∷ es)
    → Plan limit spin k e es
inert-Plan limit spin k e (Effect.work_added_untracked n) es i h = h
inert-Plan limit spin k e (Effect.enqueue w [] b true) es i h =
    same-Plan limit spin (k - 0) k e e es (omega arith) refl h.1
inert-Plan limit spin k e (Effect.enqueue_bulk [] true) es i h =
    same-Plan limit spin (k - 0) k e e es (omega arith) refl h.1
inert-Plan limit spin k e (Effect.signal_work n) es i h = h
inert-Plan limit spin k e Effect.wake_all_workers es i h = h
inert-Plan limit spin k e Effect.work_completed es i h = h
inert-Plan limit spin k e Effect.steal_work es i h = h
inert-Plan limit spin k e _ es i h = ground arith

pub executed-inert :
    (x : Effect) (es : List Effect) → is_inert x ≡ true → executed (x ∷ es) ≡ executed es
executed-inert (Effect.work_added_untracked n) es i = refl
executed-inert (Effect.enqueue w [] b true) es i = refl
executed-inert (Effect.enqueue_bulk [] true) es i = refl
executed-inert (Effect.signal_work n) es i = refl
executed-inert Effect.wake_all_workers es i = refl
executed-inert Effect.work_completed es i = refl
executed-inert Effect.steal_work es i = refl
executed-inert _ es i = ground arith

module _ (all : List Range) (s : Joint) where
  -- A call that hands out nothing.
  pub still_given :
      (es : List Effect) (x : Effect)
      → s.handed ++ executed s.rest ≡ all
      → s.rest ≡ x ∷ es
      → executed (x ∷ es) ≡ executed es
      → s.handed ++ executed es ≡ all
  still_given es x given p e =
      ap (λ rs. s.handed ++ rs) (sym e) ∙ ap (λ y. s.handed ++ executed y) (sym p) ∙ given

  pub one_given :
      (es fs : List Effect) (r : Range)
      → s.handed ++ executed s.rest ≡ all
      → s.rest ≡ es
      → executed es ≡ r ∷ executed fs
      → (s.handed ++ (r ∷ [])) ++ executed fs ≡ all
  one_given es fs r given p e =
      append_assoc s.handed (r ∷ []) (executed fs)
      ∙ ap (λ rs. s.handed ++ rs) (sym e)
      ∙ ap (λ y. s.handed ++ executed y) (sym p)
      ∙ given

-- One more arrival, which does not wrap.
pub expected-Reach :
    (hc limit n k : ℕ) (s : Barrier)
    → limit < 2 ^ 32
    → Reach hc limit n s
    → s.owner ≡ preparing k
    → s.counter_ + 1 ≤ limit
    → Reach hc limit n
        (record s { counter_ = (s.counter_ + 1) % 2 ^ 32; owner = preparing (suc k) })
expected-Reach hc limit n k s fits r o l =
    let whole : (s.counter_ + 1) % 2 ^ 32 ≡ s.counter_ + 1 =
      mod-eq_of_lt (omega (arith, l, fits)) in
    rw whole (step r (add_expected_arrival o l))

pub handed-Reach :
    (hc limit n k i : ℕ) (s : Barrier)
    → Reach hc limit n s
    → s.owner ≡ preparing k
    → 1 ≤ k
    → get_elem? s.workers i ≡ some idle
    → Reach hc limit n (record s { owner = preparing (k - 1); workers = set s.workers i working })
handed-Reach hc limit n zero i s r o l free = absurd (omega (arith, l))
handed-Reach hc limit n (suc k) i s r o l free =
    let back : suc k - 1 ≡ k = omega arith in rw back (step r (hand_out i o free))

-- A thread that has a part has an arrival to make.
pub decremented-le :
    (hc limit n i : ℕ) (s : Barrier)
    → limit < hc
    → limit < 2 ^ 32
    → Reach hc limit n s
    → get_elem? s.workers i ≡ some working
    → decremented s.counter_ ≤ s.counter_
decremented-le hc limit n i s few fits r has =
    let inv = Reach-Inv few fits r in
    omega (arith, inv.range, inv.counted, fits, weigh-set has_part s.workers i working idle has)
