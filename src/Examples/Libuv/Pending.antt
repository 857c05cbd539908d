-- ===== src/Examples/Libuv/Pending.antt =====
-- Two spreads off the loop's thread, on which the theorem of Libuv.Pending holds.
use sweater.Prelude.{◌≡◌, refl, false, none, some, [], ◌∷◌}
use sweater.Libuv.Pending.{
  sent, Request, polling, System, Reach, new, step, load, link, exchange, exchange_fails, send,
  on_spread_async, take_all, queue_chunks, end,
}
use sweater.Libuv.Pending.Safety.{queued-is_pushed}
use sweater.Libuv.Pending.Invariant.{is_pushed}
use sweater.Threads.{weigh}

abbrev first : Request
first = record { pc = sent; next = none; queued = 1 }

abbrev second : Request
second = record { pc = sent; next = some 0; queued = 1 }

abbrev both_queued : System
both_queued = record {
  pending_ = none;
  async_ = false;
  loop = polling;
  requests = first ∷ second ∷ [];
}

-- The second caller's first exchange fails, and it sends while the callback is under way, whose
-- second call finds nothing.
both_queued-Reach : Reach 2 both_queued
both_queued-Reach =
    let r1 : Reach 2 _ =
      step (step (step new (load 0 refl refl)) (load 1 refl refl)) (link 0 refl refl) in
    let r2 =
      step (step (step r1 (exchange 0 refl refl refl)) (link 1 refl refl))
        (exchange_fails 1 refl refl) in
    let r3 =
      step (step (step r2 (link 1 refl refl)) (exchange 1 refl refl refl)) (send 0 refl refl) in
    let r4 = step (step (step r3 (on_spread_async refl refl)) (send 1 refl refl)) (take_all refl) in
    let r5 =
      step (step (step r4 (queue_chunks 1 refl refl)) (queue_chunks 0 refl refl)) (end refl) in
    step (step (step r5 (on_spread_async refl refl)) (take_all refl)) (end refl)

queued-is_pushed_example : second.queued ≡ is_pushed second.pc
unfolding weigh
queued-is_pushed_example =
    queued-is_pushed {n = 2} {s = both_queued} both_queued-Reach refl refl refl 1 second refl
