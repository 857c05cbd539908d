-- ===== src/Libuv/Invariant/References.antt =====
-- The number of references: it never wraps around, and the last release deletes the node.
use native.Mathlib.Nat.{mod-eq_of_lt}
use sweater.Libuv.Invariant.{place_refers, refers, caller_refers, queuer_refers, Counts}
use sweater.Prelude.{ℕ, ◌+◌, ◌-◌, ◌^◌, ◌≤◌, ◌<◌, ◌≡◌, to_int, ◌==◌, arith, mod_pred}
use sweater.Threads.{weigh-le-length}
use sweater.Libuv.Spread.{
  no_request, cancelled, called_back, Place, pending, submitted, working, worked, counted, closed,
  inline, Caller, at_tail, ran_tail, stealing, running, has_run, waiting, releasing, returned,
  Queuer, at, referred, to_run, did_run, leaving, done, System, incremented, decremented,
}

refers-le : (p : Place) → place_refers p ≤ 1
refers-le pending = omega arith
refers-le submitted = omega arith
refers-le working = omega arith
refers-le worked = omega arith
refers-le counted = omega arith
refers-le closed = omega arith
refers-le (inline no_request) = omega arith
refers-le (inline cancelled) = omega arith
refers-le (inline called_back) = omega arith

caller_refers-le : (a : Caller) → caller_refers a ≤ 1
caller_refers-le at_tail = omega arith
caller_refers-le ran_tail = omega arith
caller_refers-le (stealing k) = omega arith
caller_refers-le (running k) = omega arith
caller_refers-le (has_run k) = omega arith
caller_refers-le waiting = omega arith
caller_refers-le releasing = omega arith
caller_refers-le returned = omega arith

queuer_refers-le : (q : Queuer) → queuer_refers q ≤ 2
queuer_refers-le (at i) = omega arith
queuer_refers-le (referred i) = omega arith
queuer_refers-le (to_run i) = omega arith
queuer_refers-le (did_run i) = omega arith
queuer_refers-le leaving = omega arith
queuer_refers-le done = omega arith

-- How many references there are at most.
refs-lt : (n : ℕ) (s : System) → n + 4 < 2 ^ 32 → Counts n s → s.refs < n + 4
refs-lt n s h c = omega (
  arith,
  c.refs,
  c.fits,
  weigh-le-length refers s.chunks (λ d. refers-le d.place),
  caller_refers-le s.caller,
  queuer_refers-le s.queuer,
)

pub refs_inc : (n : ℕ) (s : System) → n + 4 < 2 ^ 32 → Counts n s → incremented s.refs ≡ s.refs + 1
refs_inc n s h c = mod-eq_of_lt (omega (arith, refs-lt n s h c))

pub refs_dec :
    (n : ℕ) (s : System)
    → n + 4 < 2 ^ 32
    → Counts n s
    → 0 < s.refs
    → decremented s.refs ≡ s.refs - 1
refs_dec n s h c some_left = mod_pred s.refs (2 ^ 32) some_left (omega (arith, refs-lt n s h c))

-- Who releases the last reference deletes the node.
pub gone_lem :
    (n : ℕ) (s : System)
    → n + 4 < 2 ^ 32
    → Counts n s
    → 0 < s.refs
    → s.deletions + to_int (s.refs == 1) ≡ to_int (decremented s.refs == 0)
gone_lem n s h c some_left = ground (arith, c.gone, refs_dec n s h c some_left, some_left)
