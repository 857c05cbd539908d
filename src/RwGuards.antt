-- ===== src/RwGuards.antt =====
-- threading/rw_mutex.hpp: basic_ro_lock and rw_lock, the guards that hold a readers-writer mutex, as
-- the calls that their lives make of the mutexes. A guard that was destroyed points to none.
pub mod Balance
use sweater.Prelude.{
  ℕ, ◌+◌, ◌≡◌, ◌==◌, to_int, List, [], ◌∷◌, ◌++◌, Option, none, some, get_elem?, set, if◌then◌else◌,
}

-- A call of acquire_ro or acquire_rw, and of the release, on a mutex.
pub data Call : Type 0 where
  acquire : ℕ → Call
  release : ℕ → Call

-- The guards, by their p_mutex_, and the calls so far.
pub record Guards : Type 0 where
  pub guards : List (Option ℕ)
  pub calls : List Call

-- The destructor's call.
abbrev pub destroyed : Option ℕ → List Call
destroyed none = []
destroyed (some m) = release m ∷ []

-- A step in the life of a guard. The last index is the guard that a move assignment moves to itself.
pub data Step (s : Guards) : Guards → (self_moved : Option ℕ) → Type 0 where
  construct_default : Step s (record s { guards = none ∷ s.guards }) none
  construct :
      (m : ℕ) → Step s (record { guards = some m ∷ s.guards; calls = acquire m ∷ s.calls }) none
  move_construct :
      (j : ℕ) {q : Option ℕ}
      → get_elem? s.guards j ≡ some q
      → Step s (record s { guards = q ∷ set s.guards j none }) none
  -- destroy_at( this ), then construct_at( this, std::move( other ) )
  move_assign :
      (i j : ℕ) {p q : Option ℕ}
      → get_elem? s.guards i ≡ some p
      → get_elem? s.guards j ≡ some q
      → Step s
          (record { guards = set (set s.guards j none) i q; calls = destroyed p ++ s.calls })
          (if i == j then p else none)
  destroy :
      (i : ℕ) {p : Option ℕ}
      → get_elem? s.guards i ≡ some p
      → Step s (record { guards = set s.guards i none; calls = destroyed p ++ s.calls }) none

abbrev pub start : Guards
start = record { guards = []; calls = [] }

-- What is reached, and the guards that were moved to themselves on the way.
pub data Reach : Guards → List (Option ℕ) → Type 0 where
  new : Reach start []
  step :
      {s t : Guards} {self_moved : Option ℕ} {ms : List (Option ℕ)}
      → Reach s ms
      → Step s t self_moved
      → Reach t (self_moved ∷ ms)
