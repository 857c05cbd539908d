-- ===== src/Libuv/Pending/Safety.antt =====
-- What becomes of the pending requests.
use sweater.Prelude.{ℕ, ◌≡◌, inl, inr, to_int, false, some, get_elem?, refl, arith, subst}
use sweater.Libuv.Pending.{Request, polling, System, Reach}
use sweater.Libuv.Pending.Chain.{Chain, Chain-none}
use sweater.Libuv.Pending.Invariant.{Reach-Inv, is_pushed, is_unsent, is_called, head, Each}
use sweater.Threads.{weigh}

-- No request of a spread is lost: while the loop's thread is outside on_spread_async, the async handle
-- is not sent and no caller is between its push and uv_async_send, every request that was pushed was
-- given to queue_chunks exactly once, and no other was.
pub queued-is_pushed :
    {n : ℕ} {s : System}
    → Reach n s
    → s.loop ≡ polling
    → s.async_ ≡ false
    → weigh is_unsent s.requests ≡ 0
    → (i : ℕ) (r : Request) → get_elem? s.requests i ≡ some r
    → r.queued ≡ is_pushed r.pc
unfolding Each
queued-is_pushed {s} reached idle unsent nobody i r e =
    let inv = Reach-Inv reached in
    let fits = inv.each i r e in
    let walked =
      Chain-none (subst (λ l. Chain s.requests (head l) inv.walked) idle inv.at_loop) i in
    elim inv.heard [
      | inl empty ↦
          let pending =
            Chain-none (subst (λ h. Chain s.requests h inv.pending) empty inv.at_pending) i in
          omega (arith, fits.once, walked, pending)
      | inr known ↦
          let not_called : is_called s.loop ≡ 0 = rw idle refl in
          let not_sent : to_int s.async_ ≡ 0 = rw unsent refl in
          absurd (omega (arith, known, not_called, not_sent, nobody))
    ]
