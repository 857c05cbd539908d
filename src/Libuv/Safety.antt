-- ===== src/Libuv/Safety.antt =====
-- What a spread over libuv promises: every chunk runs once, the caller waits for all of them and
-- not for ever, and the node is deleted once, after the last use.
use sweater.Prelude.{
  ℕ, zero, suc, ◌+◌, ◌^◌, ◌≤◌, ◌<◌, ◌≡◌, refl, subst, true, false, List, [], ◌∷◌, some, get_elem?,
  replicate, length, to_int, ◌==◌, arith, ap, ◌∙◌,
}
use sweater.Threads.{weigh, le-weigh, weigh-replicate, length-replicate}
use sweater.Libuv.Spread.{
  Place, pending, submitted, working, worked, counted, closed, inline, Chunk, Caller, at_tail,
  ran_tail, stealing, running, has_run, waiting, releasing, returned, Queuer, at, referred, to_run,
  did_run, leaving, done, System, is_available, start, Reach, new, step,
}
use sweater.Libuv.Invariant.{
  invoked, place_owes, owed, refers, caller_owes, queuer_owes, caller_refers, queuer_refers,
  caller_at, queuer_at, passed, is_over, Ok, AllOk, Counts, tail_ran,
}
use sweater.Libuv.Invariant.Chunks.{Step-AllOk}
use sweater.Libuv.Invariant.Counting.{Step-Counts}

record Inv (n : ℕ) (s : System) : Type 0 where
  chunks : AllOk s.chunks s.caller s.queuer
  counts : Counts n s

abbrev fresh : Chunk
fresh = record { place = pending; runs = 0 }

replicate-fresh : (n k : ℕ) (c : Chunk) → get_elem? (replicate n fresh) k ≡ some c → fresh ≡ c
replicate-fresh zero k c e = cc
replicate-fresh (suc n) zero c e = cc
replicate-fresh (suc n) (suc k) c e = replicate-fresh n k c e

weigh-fresh : (w : Chunk → ℕ) (n : ℕ) → w fresh ≡ 1 → weigh w (replicate n fresh) ≡ n
unfolding weigh
weigh-fresh w zero h = refl
weigh-fresh w (suc n) h = omega (arith, h, weigh-fresh w n h)

start-Inv : (n : ℕ) → Inv n (start n)
start-Inv n = record {
  chunks = λ k c e.
      subst (λ x. Ok k x at_tail (at 0)) (replicate-fresh n k c e)
        (record { once = refl; taken = λ x. absurd (cc); held = λ x. absurd (cc) });
  counts = record {
    fits = length-replicate n fresh;
    latch = omega (arith, weigh-fresh owed n refl);
    refs = omega (arith, weigh-replicate refers n fresh refl);
    gone = refl;
    tail = refl;
    over = λ x. absurd (cc);
  };
}

Reach-Inv : (n : ℕ) {s : System} → n + 4 < 2 ^ 32 → Reach n s → Inv n s
Reach-Inv n h new = start-Inv n
Reach-Inv n h (step r x) =
    let c = Reach-Inv n h r in
    record { chunks = Step-AllOk x c.chunks; counts = Step-Counts n x c.chunks h c.counts }

-- A chunk with nothing to count down, that nobody is about to run, was invoked.
not_owed : (p : Place) → place_owes p ≡ 0 → invoked p ≡ 1
not_owed pending h = absurd (omega (arith, h))
not_owed submitted h = absurd (omega (arith, h))
not_owed working h = absurd (omega (arith, h))
not_owed worked h = absurd (omega (arith, h))
not_owed counted h = refl
not_owed closed h = refl
not_owed (inline r) h = refl

caller_at-le : (k : ℕ) (a : Caller) → caller_at k a ≤ caller_owes a
caller_at-le k at_tail = omega arith
caller_at-le k ran_tail = omega arith
caller_at-le k (stealing r) = omega arith
caller_at-le k (running r) = ground arith
caller_at-le k (has_run r) = omega arith
caller_at-le k waiting = omega arith
caller_at-le k releasing = omega arith
caller_at-le k returned = omega arith

queuer_at-le : (k : ℕ) (q : Queuer) → queuer_at k q ≤ queuer_owes q
queuer_at-le k (at i) = omega arith
queuer_at-le k (referred i) = omega arith
queuer_at-le k (to_run i) = ground arith
queuer_at-le k (did_run i) = omega arith
queuer_at-le k leaving = omega arith
queuer_at-le k done = omega arith

-- Once the caller is through its wait, every chunk was invoked once.
pub runs_lem :
    (n k : ℕ) (s : System) (c : Chunk)
    → n + 4 < 2 ^ 32
    → Reach n s
    → is_over s.caller ≡ true
    → get_elem? s.chunks k ≡ some c
    → c.runs ≡ 1
runs_lem n k s c h r over e =
    let i = Reach-Inv n h r in
    let idle = i.counts.over over in
    let ok = i.chunks k c e in
    omega (
      arith,
      ok.once,
      i.counts.latch,
      idle,
      caller_at-le k s.caller,
      queuer_at-le k s.queuer,
      le-weigh owed s.chunks k c e,
      not_owed c.place (omega (arith, i.counts.latch, idle, le-weigh owed s.chunks k c e)),
    )

tail_ran_over : (a : Caller) → is_over a ≡ true → tail_ran a ≡ 1
tail_ran_over at_tail o = absurd (cc)
tail_ran_over ran_tail o = refl
tail_ran_over (stealing r) o = refl
tail_ran_over (running r) o = refl
tail_ran_over (has_run r) o = refl
tail_ran_over waiting o = refl
tail_ran_over releasing o = refl
tail_ran_over returned o = refl

pub tail_runs_lem :
    (n : ℕ) (s : System)
    → n + 4 < 2 ^ 32
    → Reach n s
    → is_over s.caller ≡ true
    → (s.tail_runs ≡ 1) × (length s.chunks ≡ n)
tail_runs_lem n s h r over =
    let i = Reach-Inv n h r in (i.counts.tail ∙ tail_ran_over s.caller over, i.counts.fits)

-- The node was deleted once where nobody refers to it any more, neither the caller nor the queuer
-- nor an after-work callback that is to come, and was not deleted otherwise. There are fewer than
-- 2 ^ 32 - 4 chunks.
pub deletions-holders :
    (n : ℕ) (s : System)
    → n + 4 < 2 ^ 32
    → Reach n s
    → s.deletions
      ≡ to_int (weigh refers s.chunks + caller_refers s.caller + queuer_refers s.queuer == 0)
deletions-holders n s h r =
    let c = (Reach-Inv n h r).counts in c.gone ∙ ap (λ x. to_int (x == 0)) c.refs

-- On a worker, and not counted down yet.
abbrev pub place_at_work : Place → ℕ
place_at_work working = 1
place_at_work worked = 1
place_at_work _ = 0

abbrev pub at_work : Chunk → ℕ
at_work c = place_at_work c.place

weigh-zero :
    (w : Chunk → ℕ) (cs : List Chunk)
    → ((k : ℕ) (c : Chunk) → get_elem? cs k ≡ some c → w c ≡ 0)
    → weigh w cs ≡ 0
unfolding weigh
weigh-zero w [] h = refl
weigh-zero w (c ∷ cs) h = omega (arith, h 0 c refl, weigh-zero w cs (λ k. h (suc k)))

settled : (p : Place) → is_available p ≡ false → place_at_work p ≡ 0 → place_owes p ≡ 0
settled pending h g = absurd (cc)
settled submitted h g = absurd (cc)
settled working h g = g
settled worked h g = g
settled counted h g = refl
settled closed h g = refl
settled (inline r) h g = refl

-- The caller never waits for a chunk that is merely queued: when it waits, and neither a worker nor
-- the queuer is at a chunk, the latch is at 0 and the wait ends. There are fewer than 2 ^ 32 - 4
-- chunks.
pub wait-latch :
    (n : ℕ) (s : System)
    → n + 4 < 2 ^ 32
    → Reach n s
    → s.caller ≡ waiting
    → queuer_owes s.queuer ≡ 0
    → weigh at_work s.chunks ≡ 0
    → s.latch ≡ 0
wait-latch n s h r e idle nobody =
    let i = Reach-Inv n h r in
    let none_owed = weigh-zero owed s.chunks (λ k c f.
      settled c.place ((i.chunks k c f).taken (ap (λ a. passed k a) e))
        (omega (arith, le-weigh at_work s.chunks k c f, nobody))) in
    omega (arith, i.counts.latch, none_owed, idle, ap (λ a. caller_owes a) e)
