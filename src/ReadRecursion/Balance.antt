-- ===== src/ReadRecursion/Balance.antt =====
-- The recursive read lock against its specification: a depth for each mutex, and the operating
-- system's lock held just while the depth is not 0.
use sweater.Prelude.{
  ℕ, ◌+◌, ◌-◌, ◌^◌, ◌≤◌, ◌<◌, ◌≡◌, ◌⊎◌, inl, inr, refl, min, Bool, true, false, ◌||◌, not, to_int,
  List, [], ◌∷◌, ◌==◌, ◌&&◌, ◌∙◌, if◌then◌else◌, length, Bool-cases, arith,
}
use sweater.Threads.{weigh}
use sweater.ReadRecursion.{
  ReadHold, Thread, bump_if_held, note_first, acquire_ro, release_ro, try_acquire_ro, Call, acquire,
  release, try_acquire, call, calls, os_acquire_ro, os_release_ro,
}
use sweater.ReadRecursion.Depths.{
  entries, depths, all_depths, empties, depths-entries, Entered, LeftBy, enter_lem, note_first_lem,
  bump_if_held_lem, leave_lem, leave-missing,
}

-- What a call does to the depths: a release of what is not held does nothing, and an attempt
-- succeeds if the mutex is held already or the operating system gives it.
abbrev pub call_depth : Call → (ℕ → ℕ) → ℕ → ℕ
call_depth (acquire m) d k = d k + to_int (m == k)
call_depth (release m) d k = d k - to_int (m == k)
call_depth (try_acquire m os_result) d k = d k + to_int (m == k && (os_result || not (d m == 0)))

abbrev pub calls_depth : List Call → (ℕ → ℕ) → ℕ → ℕ
calls_depth [] d = d
calls_depth (c ∷ cs) d = calls_depth cs (call_depth c d)

record IsBalanced (most : ℕ) (d : ℕ → ℕ) (t : Thread) : Type 0 where
  depth : (k : ℕ) → weigh (depths k) t.held ≡ d k
  os : (k : ℕ) → t.os_holds k ≡ weigh (entries k) t.held
  single : (k : ℕ) → weigh (entries k) t.held ≤ 1
  no_empty : weigh empties t.held ≡ 0
  total : weigh all_depths t.held ≤ most

-- A hold more, from the operating system if it is the first.
Entered-IsBalanced :
    (most m : ℕ) (d : ℕ → ℕ) (t : Thread) (fs : List ReadHold) (first : Bool)
    → IsBalanced most d t
    → Entered m t.held fs first
    → IsBalanced
        (most + 1)
        (λ k. d k + to_int (m == k))
        (record { held = fs; os_holds = if first then os_acquire_ro m t.os_holds else t.os_holds })
Entered-IsBalanced most m d t fs true b e = record {
  depth = λ k. omega (arith, e.depth k, b.depth k);
  os = λ k. ground (arith, e.entry k, b.os k);
  single = λ k. ground (arith, e.entry k, b.single k, e.first_eq);
  no_empty = omega (arith, e.empty, b.no_empty);
  total = omega (arith, e.all, b.total);
}
Entered-IsBalanced most m d t fs false b e = record {
  depth = λ k. omega (arith, e.depth k, b.depth k);
  os = λ k. ground (arith, e.entry k, b.os k);
  single = λ k. ground (arith, e.entry k, b.single k);
  no_empty = omega (arith, e.empty, b.no_empty);
  total = omega (arith, e.all, b.total);
}

acquire_ro-IsBalanced :
    (most m : ℕ) (d : ℕ → ℕ) (t : Thread)
    → most + 1 < 2 ^ 32
    → IsBalanced most d t
    → IsBalanced (most + 1) (call_depth (acquire m) d) (acquire_ro m t)
unfolding acquire_ro
acquire_ro-IsBalanced most m d t f b =
    Entered-IsBalanced most m d t _ _ b
      (enter_lem m t.held (omega (arith, b.total)) (b.single m) b.no_empty)

-- A hold is known by its depth.
held_by_depth :
    (most m : ℕ) (d : ℕ → ℕ) (t : Thread)
    → IsBalanced most d t
    → ((d m ≡ 0) × (weigh (entries m) t.held ≡ 0)) ⊎ ((0 < d m) × (weigh (entries m) t.held ≡ 1))
held_by_depth most m d t b =
    ground (arith, depths-entries m t.held b.no_empty, b.depth m, b.single m)

weaken :
    (most more : ℕ) (d d' : ℕ → ℕ) (t : Thread)
    → most ≤ more
    → ((k : ℕ) → d k ≡ d' k)
    → IsBalanced most d t
    → IsBalanced more d' t
weaken most more d d' t l h b = record {
  depth = λ k. b.depth k ∙ h k;
  os = b.os;
  single = b.single;
  no_empty = b.no_empty;
  total = omega (arith, b.total);
}

LeftBy-IsBalanced :
    (most m : ℕ) (d : ℕ → ℕ) (t : Thread) (fs : List ReadHold) (last : Bool)
    → IsBalanced most d t
    → LeftBy m t.held fs last
    → IsBalanced
        (most + 1)
        (λ k. d k - to_int (m == k))
        (record { held = fs; os_holds = if last then os_release_ro m t.os_holds else t.os_holds })
LeftBy-IsBalanced most m d t fs true b e = record {
  depth = λ k. omega (arith, e.depth k, b.depth k);
  os = λ k. ground (arith, e.entry k, b.os k);
  single = λ k. omega (arith, e.entry k, b.single k);
  no_empty = e.empty;
  total = omega (arith, e.all, b.total);
}
LeftBy-IsBalanced most m d t fs false b e = record {
  depth = λ k. omega (arith, e.depth k, b.depth k);
  os = λ k. ground (arith, e.entry k, b.os k);
  single = λ k. omega (arith, e.entry k, b.single k);
  no_empty = e.empty;
  total = omega (arith, e.all, b.total);
}

release_ro-IsBalanced :
    (most m : ℕ) (d : ℕ → ℕ) (t : Thread)
    → most + 1 < 2 ^ 32
    → IsBalanced most d t
    → IsBalanced (most + 1) (call_depth (release m) d) (release_ro m t)
unfolding release_ro
release_ro-IsBalanced most m d t f b = elim (held_by_depth most m d t b) [
  | inl (none_left, missing) ↦ rw (leave-missing m t.held missing) (
      weaken most (most + 1) d (call_depth (release m) d) t (omega arith)
        (λ k. ground (arith, none_left)) b)
  | inr (some_left, one) ↦
      LeftBy-IsBalanced most m d t _ _ b
        (leave_lem m t.held (omega (arith, b.total)) one b.no_empty)
]

-- An attempt on what is not held.
first_try :
    (most m : ℕ) (os_result : Bool) (d : ℕ → ℕ) (t : Thread)
    → IsBalanced most d t
    → weigh (entries m) t.held ≡ 0
    → ((d m ≡ 0) × (weigh (entries m) t.held ≡ 0)) ⊎ ((0 < d m) × (weigh (entries m) t.held ≡ 1))
    → IsBalanced (most + 1) (call_depth (try_acquire m os_result) d) (
        if os_result
        then record { held = note_first m t.held; os_holds = os_acquire_ro m t.os_holds }
        else t)
first_try most m true d t b missing h =
    weaken (most + 1) (most + 1) _ (call_depth (try_acquire m true) d) _ (omega arith)
      (λ k. ground arith)
      (Entered-IsBalanced most m d t (note_first m t.held) true b (note_first_lem m t.held missing))
first_try most m false d t b missing h =
    weaken most (most + 1) d (call_depth (try_acquire m false) d) t (omega arith)
      (λ k. ground (arith, h, missing)) b

try_acquire_ro-IsBalanced :
    (most m : ℕ) (os_result : Bool) (d : ℕ → ℕ) (t : Thread)
    → most + 1 < 2 ^ 32
    → IsBalanced most d t
    → IsBalanced (most + 1) (call_depth (try_acquire m os_result) d) (try_acquire_ro m os_result t)
unfolding try_acquire_ro
try_acquire_ro-IsBalanced most m os_result d t f b =
    let r = bump_if_held_lem m t.held (omega (arith, b.total)) (b.single m) b.no_empty in
    elim (Bool-cases (bump_if_held m t.held).result) [
      | inl again ↦
          let e = r.found again in
          rw again (
            weaken (most + 1) (most + 1) _ (call_depth (try_acquire m os_result) d) _ (omega arith)
              (λ k. ground (arith, e.first_eq, held_by_depth most m d t b))
              (Entered-IsBalanced most m d t (bump_if_held m t.held).held false b e))
      | inr fresh ↦
          rw fresh (first_try most m os_result d t b (r.missing fresh) (held_by_depth most m d t b))
    ]

call-IsBalanced :
    (most : ℕ) (c : Call) (d : ℕ → ℕ) (t : Thread)
    → most + 1 < 2 ^ 32
    → IsBalanced most d t
    → IsBalanced (most + 1) (call_depth c d) (call c t)
unfolding call
call-IsBalanced most (acquire m) d t f b = acquire_ro-IsBalanced most m d t f b
call-IsBalanced most (release m) d t f b = release_ro-IsBalanced most m d t f b
call-IsBalanced most (try_acquire m os_result) d t f b =
    try_acquire_ro-IsBalanced most m os_result d t f b

calls-IsBalanced :
    (most : ℕ) (cs : List Call) (d : ℕ → ℕ) (t : Thread)
    → most + length cs < 2 ^ 32
    → IsBalanced most d t
    → IsBalanced (most + length cs) (calls_depth cs d) (calls cs t)
unfolding calls
calls-IsBalanced most [] d t f b = weaken most (most + 0) d d t (omega arith) (λ k. refl) b
calls-IsBalanced most (c ∷ cs) d t f b =
    let b' =
      calls-IsBalanced (most + 1) cs (call_depth c d) (call c t) (omega (arith, f))
        (call-IsBalanced most c d t (omega (arith, f)) b) in
    weaken (most + 1 + length cs) (most + length (c ∷ cs)) _ _ _ (omega arith) (λ k. refl) b'

-- A thread that holds nothing.
abbrev pub nothing_held : Thread
nothing_held = record { held = []; os_holds = λ k. 0 }

-- After any sequence of fewer than 2 ^ 32 acquire_ro, release_ro and try_acquire_ro on any mutexes,
-- unmatched releases included, the thread's depth for each mutex is what the specification counts,
-- and it holds the operating system's read lock of a mutex once if that depth is not 0, and not
-- otherwise.
pub calls-depths :
    (cs : List Call) (k : ℕ)
    → length cs < 2 ^ 32
    → let t = calls cs nothing_held in
      (weigh (depths k) t.held ≡ calls_depth cs (λ m. 0) k)
      × (t.os_holds k ≡ min 1 (calls_depth cs (λ m. 0) k))
calls-depths cs k f =
    let b = calls-IsBalanced 0 cs (λ m. 0) nothing_held (omega (arith, f)) start in
    (b.depth k, ground (arith, b.os k, held_by_depth (0 + length cs) k _ _ b))
  where
    start : IsBalanced 0 (λ m. 0) nothing_held
    start = record {
      depth = λ k. unfold weigh in refl;
      os = λ k. unfold weigh in refl;
      single = λ k. unfold weigh in omega arith;
      no_empty = unfold weigh in refl;
      total = unfold weigh in omega arith;
    }
