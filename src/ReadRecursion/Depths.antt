-- ===== src/ReadRecursion/Depths.antt =====
-- What the registry's operations do to each mutex's holds and depth.
use sweater.Prelude.{
  ℕ, ◌+◌, ◌-◌, ◌%◌, ◌^◌, ◌≤◌, ◌<◌, ◌≡◌, ◌⊎◌, inl, inr, refl, Bool, true, false, ◌&&◌, to_int, List,
  [], ◌∷◌, ◌==◌, Bool-cases, if◌then◌else◌, arith,
}
use sweater.Threads.{weigh}
use sweater.ReadRecursion.{
  ReadHold, Registered, enter, bump_if_held, back, pop_back, replaced, leave, note_first,
}

-- An entry's share in the holds of mutex `k`, in its depth, in all depths, and in the entries of depth 0.
abbrev pub entries : ℕ → ReadHold → ℕ
entries k e = to_int (e.mutex == k)

abbrev pub depths : ℕ → ReadHold → ℕ
depths k e = if e.mutex == k then e.depth else 0

abbrev pub all_depths : ReadHold → ℕ
all_depths e = e.depth

abbrev pub empties : ReadHold → ℕ
empties e = to_int (e.depth == 0)

back-weigh :
    (w : ReadHold → ℕ) (x : ReadHold) (xs : List ReadHold)
    → w (back x xs) + weigh w (pop_back x xs) ≡ w x + weigh w xs
unfolding weigh
back-weigh w x [] = refl
back-weigh w x (y ∷ ys) = omega (arith, back-weigh w y ys)

replaced-weigh : (w : ReadHold → ℕ) (es : List ReadHold) → weigh w (replaced es) ≡ weigh w es
unfolding weigh
replaced-weigh w [] = refl
replaced-weigh w (x ∷ xs) = back-weigh w x xs

-- A mutex has a depth just if it has an entry.
pub depths-entries :
    (k : ℕ) (held : List ReadHold)
    → weigh empties held ≡ 0
    → (weigh (entries k) held ≤ weigh (depths k) held)
      × ((0 < weigh (entries k) held) ⊎ (weigh (depths k) held ≡ 0))
unfolding weigh
depths-entries k [] h = ground arith
depths-entries k (e ∷ es) h = ground (arith, depths-entries k es (omega (arith, h)))

-- What the entries of `es` become in `fs`, where `n` of `m` were added or taken off.
pub record Entered (m : ℕ) (es fs : List ReadHold) (first : Bool) : Type 0 where
  pub entry : (k : ℕ) → weigh (entries k) fs ≡ weigh (entries k) es + to_int (first && (m == k))
  pub depth : (k : ℕ) → weigh (depths k) fs ≡ weigh (depths k) es + to_int (m == k)
  pub all : weigh all_depths fs ≡ weigh all_depths es + 1
  pub empty : weigh empties fs ≡ weigh empties es
  pub first_eq : to_int first + weigh (entries m) es ≡ 1

pub enter_lem :
    (m : ℕ) (held : List ReadHold)
    → weigh all_depths held + 1 < 2 ^ 32
    → weigh (entries m) held ≤ 1
    → weigh empties held ≡ 0
    → Entered m held (enter m held).held (enter m held).result
unfolding weigh enter
enter_lem m [] f h z = record {
  entry = λ k. ground arith;
  depth = λ k. ground arith;
  all = ground arith;
  empty = ground arith;
  first_eq = ground arith;
}
enter_lem m (e ∷ es) f h z = elim (Bool-cases (e.mutex == m)) [
  | inl here ↦ rw here (record {
    entry = λ k. ground arith;
    depth = λ k. ground arith;
    all = ground arith;
    empty = ground arith;
    first_eq = ground arith;
  })
  | inr elsewhere ↦
      let ih = enter_lem m es (omega (arith, f)) (omega (arith, h)) (omega (arith, z)) in
      rw elsewhere (record {
        entry = λ k. omega (arith, ih.entry k);
        depth = λ k. omega (arith, ih.depth k);
        all = omega (arith, ih.all);
        empty = omega (arith, ih.empty);
        first_eq = ground (arith, ih.first_eq, elsewhere);
      })
]

pub note_first_lem :
    (m : ℕ) (held : List ReadHold)
    → weigh (entries m) held ≡ 0
    → Entered m held (note_first m held) true
unfolding weigh note_first
note_first_lem m [] h = record {
  entry = λ k. ground arith;
  depth = λ k. ground arith;
  all = ground arith;
  empty = ground arith;
  first_eq = ground arith;
}
note_first_lem m (e ∷ es) h =
    let ih = note_first_lem m es (omega (arith, h)) in
    record {
      entry = λ k. omega (arith, ih.entry k);
      depth = λ k. omega (arith, ih.depth k);
      all = omega (arith, ih.all);
      empty = omega (arith, ih.empty);
      first_eq = omega (arith, h);
    }

-- bump_if_held finds an entry, or there is none.
pub record Bumped (m : ℕ) (es : List ReadHold) (r : Registered) : Type 0 where
  pub found : (r.result ≡ true) → Entered m es r.held false
  pub missing : (r.result ≡ false) → weigh (entries m) es ≡ 0

pub bump_if_held_lem :
    (m : ℕ) (held : List ReadHold)
    → weigh all_depths held + 1 < 2 ^ 32
    → weigh (entries m) held ≤ 1
    → weigh empties held ≡ 0
    → Bumped m held (bump_if_held m held)
unfolding weigh bump_if_held
bump_if_held_lem m [] f h z = record { found = λ e. cc; missing = λ e. refl }
bump_if_held_lem m (e ∷ es) f h z = elim (Bool-cases (e.mutex == m)) [
  | inl here ↦ rw here (record {
    found = λ yes. record {
      entry = λ k. ground arith;
      depth = λ k. ground arith;
      all = ground arith;
      empty = ground arith;
      first_eq = ground arith;
    };
    missing = λ no. cc;
  })
  | inr elsewhere ↦
      let ih = bump_if_held_lem m es (omega (arith, f)) (omega (arith, h)) (omega (arith, z)) in
      rw elsewhere (record {
        found = λ yes.
            let i = ih.found yes in
            record {
              entry = λ k. omega (arith, i.entry k);
              depth = λ k. omega (arith, i.depth k);
              all = omega (arith, i.all);
              empty = omega (arith, i.empty);
              first_eq = ground (arith, i.first_eq, elsewhere);
            };
        missing = λ no. ground (arith, ih.missing no, elsewhere);
      })
]

-- What leave takes off the entries of `es`.
pub record LeftBy (m : ℕ) (es fs : List ReadHold) (last : Bool) : Type 0 where
  pub entry : (k : ℕ) → weigh (entries k) fs + to_int (last && (m == k)) ≡ weigh (entries k) es
  pub depth : (k : ℕ) → weigh (depths k) fs + to_int (m == k) ≡ weigh (depths k) es
  pub all : weigh all_depths fs + 1 ≡ weigh all_depths es
  pub empty : weigh empties fs ≡ 0

pub leave_lem :
    (m : ℕ) (held : List ReadHold)
    → weigh all_depths held + 1 < 2 ^ 32
    → weigh (entries m) held ≡ 1
    → weigh empties held ≡ 0
    → LeftBy m held (leave m held).held (leave m held).result
unfolding weigh leave
leave_lem m [] f h z = absurd (omega (arith, h))
leave_lem m (e ∷ es) f h z = elim (Bool-cases (e.mutex == m)) [
  | inl here ↦ elim (Bool-cases ((e.depth + (2 ^ 32 - 1)) % 2 ^ 32 == 0)) [
    | inl last ↦
        rw (here, last)
          (record {
            entry = λ k. ground (arith, replaced-weigh (entries k) es);
            depth = λ k. ground (arith, replaced-weigh (depths k) es);
            all = ground (arith, replaced-weigh all_depths es);
            empty = ground (arith, replaced-weigh empties es);
          })
    | inr more ↦
        rw (here, more)
          (record {
            entry = λ k. ground arith;
            depth = λ k. ground arith;
            all = ground arith;
            empty = ground arith;
          })
  ]
  | inr elsewhere ↦
      let ih =
        leave_lem m es (omega (arith, f)) (ground (arith, h, elsewhere)) (omega (arith, z)) in
      rw elsewhere (record {
        entry = λ k. omega (arith, ih.entry k);
        depth = λ k. omega (arith, ih.depth k);
        all = omega (arith, ih.all);
        empty = omega (arith, ih.empty, z);
      })
]

pub leave-missing :
    (m : ℕ) (held : List ReadHold)
    → weigh (entries m) held ≡ 0
    → leave m held ≡ record { result = false; held = held }
unfolding weigh leave
leave-missing m [] h = refl
leave-missing m (e ∷ es) h = elim (Bool-cases (e.mutex == m)) [
  | inl here ↦ absurd (ground (arith, h, here))
  | inr elsewhere ↦ rw (elsewhere, leave-missing m es (omega (arith, h))) refl
]
