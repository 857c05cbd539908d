-- ===== src/Libuv/Invariant.antt =====
-- What every reachable state of a spread over libuv has.
pub mod Chunks
pub mod References
pub mod Counting
use sweater.Prelude.{
  ℕ, zero, suc, ◌+◌, ◌-◌, ◌%◌, ◌^◌, ◌≤◌, ◌<◌, ◌≡◌, ◌≢◌, ◌⊎◌, inl, inr, refl, sym, subst, Bool, true,
  false, List, [], ◌∷◌, some, get_elem?, set, replicate, length, to_int, ◌==◌, leb, u32, arith,
  get_elem?-set, get_elem?-length, Bool-cases, ap, ◌∙◌, Option, none,
}
use sweater.Threads.{
  weigh, weigh-set, weigh-le-length, weigh-replicate, length-replicate, length-set,
}
use sweater.Libuv.Spread.{
  After, no_request, cancelled, called_back, Place, pending, submitted, working, worked, counted,
  closed, inline, Chunk, Caller, at_tail, ran_tail, stealing, running, has_run, waiting, releasing,
  returned, Queuer, at, referred, to_run, did_run, leaving, done, System, incremented, decremented,
  release, is_available, is_pending, holds_lock, Step, run_tail, count_tail, steal_pending, cancel,
  leave_chunk, run_inline, count_inline, end_pass, wait, release_caller, skip, add_ref, submit,
  refuse, run_refused, count_refused, end_queue, release_queuer, take_request, work, count_down,
  after_work, after_cancel, start, Reach, new, step,
}

-- Whether the chunk was invoked, or will be by the one who runs it inline.
abbrev pub invoked : Place → ℕ
invoked pending = 0
invoked submitted = 0
invoked working = 0
invoked _ = 1

abbrev pub place_owes : Place → ℕ
place_owes pending = 1
place_owes submitted = 1
place_owes working = 1
place_owes worked = 1
place_owes _ = 0

-- The chunk's count_down is to come, and not from who runs it inline.
abbrev pub owed : Chunk → ℕ
owed c = place_owes c.place

abbrev pub place_refers : Place → ℕ
place_refers submitted = 1
place_refers working = 1
place_refers worked = 1
place_refers counted = 1
place_refers (inline cancelled) = 1
place_refers _ = 0

-- The chunk's after-work callback is to come.
abbrev pub refers : Chunk → ℕ
refers c = place_refers c.place

abbrev pub caller_owes : Caller → ℕ
caller_owes at_tail = 1
caller_owes ran_tail = 1
caller_owes (running k) = 1
caller_owes (has_run k) = 1
caller_owes _ = 0

abbrev pub queuer_owes : Queuer → ℕ
queuer_owes (to_run i) = 1
queuer_owes (did_run i) = 1
queuer_owes _ = 0

abbrev pub caller_refers : Caller → ℕ
caller_refers returned = 0
caller_refers _ = 1

abbrev pub queuer_refers : Queuer → ℕ
queuer_refers (referred i) = 2
queuer_refers done = 0
queuer_refers _ = 1

-- It is about to run chunk `k`.
abbrev pub caller_at : ℕ → Caller → ℕ
caller_at k (running j) = to_int (j == k)
caller_at k _ = 0

abbrev pub queuer_at : ℕ → Queuer → ℕ
queuer_at k (to_run j) = to_int (j == k)
queuer_at k _ = 0

-- The steal-back pass has been at chunk `k`.
abbrev pub passed : ℕ → Caller → Bool
passed k at_tail = false
passed k ran_tail = false
passed k (stealing r) = leb r k
passed k (running r) = leb r k
passed k (has_run r) = leb r k
passed k _ = true

abbrev pub referred_at : ℕ → Queuer → Bool
referred_at k (referred i) = i == k
referred_at k _ = false

abbrev pub is_over : Caller → Bool
is_over releasing = true
is_over returned = true
is_over _ = false

abbrev pub tail_ran : Caller → ℕ
tail_ran at_tail = 0
tail_ran _ = 1

-- Chunk `k` is invoked once, and what the pass has been at is taken or run.
pub record Ok (k : ℕ) (c : Chunk) (caller : Caller) (queuer : Queuer) : Type 0 where
  pub once : c.runs + caller_at k caller + queuer_at k queuer ≡ invoked c.place
  pub taken : passed k caller ≡ true → is_available c.place ≡ false
  pub held : referred_at k queuer ≡ true → is_pending c.place ≡ true

abbrev pub AllOk : List Chunk → Caller → Queuer → Type 0
AllOk cs caller queuer = (k : ℕ) (c : Chunk) → get_elem? cs k ≡ some c → Ok k c caller queuer

pub record Counts (n : ℕ) (s : System) : Type 0 where
  pub fits : length s.chunks ≡ n
  pub latch : s.latch ≡ weigh owed s.chunks + caller_owes s.caller + queuer_owes s.queuer
  pub refs : s.refs ≡ weigh refers s.chunks + caller_refers s.caller + queuer_refers s.queuer
  pub gone : s.deletions ≡ to_int (s.refs == 0)
  pub tail : s.tail_runs ≡ tail_ran s.caller
  pub over : is_over s.caller ≡ true → s.latch ≡ 0
