-- ===== src/ThreadStart/Safety.antt =====
-- What the start of a thread promises of the functor and of the caller, whatever the interleaving.
use sweater.Prelude.{◌+◌, ◌≤◌, ◌≡◌, true, arith}
use sweater.ThreadStart.{Passing, synchronized, System, Reach}
use sweater.ThreadStart.Invariant.{
  Reach-Inv, is_back, is_thrown, is_ended, is_flagged, is_called, of_heap, of_synchronized,
}

-- At every point the functor was called once if the thread has begun the call and not at all before; a
-- functor on the heap was deleted once if the thread has ended or operator= has thrown, and not at all
-- before; and where operator= has returned and the thread copies the functor, it has copied it.
pub start-functor :
    {p : Passing} {s : System}
    → Reach p s
    → (s.calls ≡ is_called s.starter)
      × (s.deletes ≡ of_heap p (is_ended s.starter + is_thrown s.creator))
      × (s.deletes ≤ 1)
      × (of_synchronized p (is_back s.creator) ≤ is_flagged p s.starter)
start-functor r = let inv = Reach-Inv r in ground arith

-- Where the thread is to copy the functor and the system refuses the thread, the caller never gets
-- out of operator=, neither with the exception nor without.
pub refused-stays :
    {s : System}
    → Reach synchronized s
    → s.was_refused ≡ true
    → is_back s.creator + is_thrown s.creator ≡ 0
refused-stays r e = let inv = Reach-Inv r in ground arith
