-- ===== src/Examples/Shop/Control.antt =====
-- A pool of two workers whose priority is set and which are bound on Linux.
use sweater.Prelude.{◌≡◌, refl, true, false, not, List, [], ◌∷◌, none, some, get_elem?}
use sweater.ThreadPriority.{normal, low}
use sweater.Shop.Control.{
  Thread, Threads, Call, loaded, request, request_all, worker_call, setpriority_call,
  setpriority_calls, tries_again, set_priority, bind_to_cpu, bind_call, bind_calls, bind_worker,
}
use sweater.Shop.Control.Affinity.{bind_worker-returns}

-- The system refuses thread::set_priority, and for the second worker also its own setpriority.
abbrev first_worker : Thread
first_worker = record { priority = normal; grants = false; allowed = true }

abbrev second_worker : Thread
second_worker = record { priority = normal; grants = false; allowed = false }

abbrev two_workers : Threads
two_workers = record {
  pool_ = first_worker ∷ second_worker ∷ [];
  caller = first_worker;
  stores = [];
}

-- Both calls that the workers make are on the first one.
abbrev uneven : List Call
uneven =
    record { runner = none; missed = 0 }
    ∷ record { runner = some 0; missed = 0 }
    ∷ record { runner = some 0; missed = 0 }
    ∷ []

-- set_priority returns true, and the second worker keeps its priority.
passed_over :
    ((set_priority true true low uneven two_workers).1 ≡ true)
    × (get_elem? (set_priority true true low uneven two_workers).0.pool_ 1 ≡ some second_worker)
unfolding set_priority tries_again request_all setpriority_calls setpriority_call worker_call loaded
    request
passed_over = (refl, refl)

-- The first worker's call loads `success` before the second one's stores its refusal.
abbrev racing : List Call
racing = record { runner = some 1; missed = 0 } ∷ record { runner = some 0; missed = 1 } ∷ []

-- The refusal is lost: set_priority returns true.
refusal_lost : (set_priority true true low racing two_workers).1 ≡ true
unfolding set_priority tries_again request_all setpriority_calls setpriority_call worker_call loaded
    request
refusal_lost = refl

-- Without a queue for each worker, bind_worker binds the worker and returns false.
bound_unreported :
    bind_worker false true true (none ∷ some 1 ∷ []) 1
    ≡ (false, record { worker_bound = true; caller_bound = false }, true)
unfolding bind_worker bind_calls bind_call bind_to_cpu
bound_unreported = refl

-- Before the worker has stored its thread_id_, bind_worker binds the caller and returns true.
caller_bound_instead :
    bind_worker true false true [] 1
    ≡ (true, record { worker_bound = false; caller_bound = true }, true)
unfolding bind_worker bind_to_cpu
caller_bound_instead = refl

bind_worker-returns_example :
    let (exact_returned, exact_masks, exact_asserted) =
      bind_worker true true true (none ∷ some 1 ∷ []) 1 in
    let (shared_returned, shared_masks, shared_asserted) =
      bind_worker false true true (none ∷ some 1 ∷ []) 1 in
    (shared_masks ≡ exact_masks)
    × (exact_masks.caller_bound ≡ false)
    × (exact_asserted ≡ true)
    × (shared_asserted ≡ true)
    × (exact_returned ≡ exact_masks.worker_bound)
    × (shared_returned ≡ not shared_masks.worker_bound)
bind_worker-returns_example = bind_worker-returns true (none ∷ some 1 ∷ []) 1 refl
