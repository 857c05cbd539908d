-- ===== src/Shop/Effects.antt =====
-- What a spread does, in its order: the calls that change the barrier, the item counter and the
-- queues, and the calls of the work on the caller's thread.
use sweater.Prelude.{
  ℕ, suc, ◌+◌, ◌≡◌, Bool, true, false, List, [], ◌∷◌, ◌++◌, length, length-append, ap, refl, arith,
}
use mathlib.Core.List.{append_assoc}
use sweater.Chunks.Tiles.{Range}

pub data Effect : Type 0 where
  use_spin_wait : Bool → Effect
  add_expected_arrival : Effect
  initialize : ℕ → Effect
  work_added_untracked : ℕ → Effect
  -- pool_[ worker ].enqueue( slices, notify ), and whether the queue took them
  enqueue : (worker : ℕ) → List Range → (notify : Bool) → (taken : Bool) → Effect
  -- queue_.enqueue_bulk( parts ), and whether it took them
  enqueue_bulk : List Range → Bool → Effect
  signal_work : ℕ → Effect
  wake_all_workers : Effect
  -- the work and the arrival at the barrier, on the caller's thread
  run : Range → Effect
  work_completed : Effect
  steal_work : Effect
  spin_wait : Effect
  wait : Effect

-- The ranges on which the work is called, by the caller or by whoever dequeues them.
abbrev pub executed : List Effect → List Range
executed [] = []
executed (enqueue w rs b true ∷ es) = rs ++ executed es
executed (enqueue_bulk rs true ∷ es) = rs ++ executed es
executed (run r ∷ es) = r ∷ executed es
executed (_ ∷ es) = executed es

-- What `work_items_` gains before any worker completes an item, and what the caller takes off.
abbrev pub items_added : List Effect → ℕ
items_added [] = 0
items_added (work_added_untracked n ∷ es) = n + items_added es
items_added (_ ∷ es) = items_added es

-- The ranges that the queue refused, for itself or for a worker.
abbrev pub refused : List Effect → List Range
refused [] = []
refused (enqueue w rs b false ∷ es) = rs ++ refused es
refused (enqueue_bulk rs false ∷ es) = rs ++ refused es
refused (_ ∷ es) = refused es

-- The calls of work_completed: a worker's for each range that it dequeues, and the caller's own.
abbrev pub completed : List Effect → ℕ
completed [] = 0
completed (enqueue w rs b true ∷ es) = length rs + completed es
completed (enqueue_bulk rs true ∷ es) = length rs + completed es
completed (work_completed ∷ es) = suc (completed es)
completed (_ ∷ es) = completed es

pub executed-append : (es fs : List Effect) → executed (es ++ fs) ≡ executed es ++ executed fs
executed-append [] fs = refl
executed-append (enqueue w rs b true ∷ es) fs =
    rw (executed-append es fs, append_assoc rs (executed es) (executed fs))
executed-append (enqueue_bulk rs true ∷ es) fs =
    rw (executed-append es fs, append_assoc rs (executed es) (executed fs))
executed-append (run r ∷ es) fs = ap (◌∷◌ r) (executed-append es fs)
executed-append (enqueue w rs b false ∷ es) fs = executed-append es fs
executed-append (_ ∷ es) fs = executed-append es fs

items_added-append :
    (es fs : List Effect) → items_added (es ++ fs) ≡ items_added es + items_added fs
items_added-append [] fs = omega arith
items_added-append (work_added_untracked n ∷ es) fs = omega (arith, items_added-append es fs)
items_added-append (_ ∷ es) fs = items_added-append es fs

refused-append : (es fs : List Effect) → refused (es ++ fs) ≡ refused es ++ refused fs
refused-append [] fs = refl
refused-append (enqueue_bulk rs false ∷ es) fs =
    rw (refused-append es fs, append_assoc rs (refused es) (refused fs))
refused-append (enqueue_bulk rs true ∷ es) fs = refused-append es fs
refused-append (enqueue w rs b false ∷ es) fs =
    rw (refused-append es fs, append_assoc rs (refused es) (refused fs))
refused-append (enqueue w rs b true ∷ es) fs = refused-append es fs
refused-append (_ ∷ es) fs = refused-append es fs

completed-append : (es fs : List Effect) → completed (es ++ fs) ≡ completed es + completed fs
completed-append [] fs = omega arith
completed-append (enqueue w rs b true ∷ es) fs = omega (arith, completed-append es fs)
completed-append (enqueue w rs b false ∷ es) fs = completed-append es fs
completed-append (enqueue_bulk rs true ∷ es) fs = omega (arith, completed-append es fs)
completed-append (enqueue_bulk rs false ∷ es) fs = completed-append es fs
completed-append (work_completed ∷ es) fs = omega (arith, completed-append es fs)
completed-append (_ ∷ es) fs = completed-append es fs

-- What is counted and not taken off again is what was refused, and each range that is executed is
-- completed.
abbrev pub Counted : List Effect → Type 0
Counted es =
    (items_added es ≡ completed es + length (refused es)) × (length (executed es) ≡ completed es)

pub Counted-append : (es fs : List Effect) → Counted es → Counted fs → Counted (es ++ fs)
Counted-append es fs (h, h') (k, k') = (
  omega (
    arith,
    h,
    k,
    items_added-append es fs,
    completed-append es fs,
    ap length (refused-append es fs),
    length-append (refused es) (refused fs),
  ),
  omega (
    arith,
    h',
    k',
    completed-append es fs,
    ap length (executed-append es fs),
    length-append (executed es) (executed fs),
  ),
)
