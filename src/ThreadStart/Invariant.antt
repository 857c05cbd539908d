-- ===== src/ThreadStart/Invariant.antt =====
-- What holds at every step of a thread's start.
use sweater.Prelude.{ℕ, ◌+◌, ◌≤◌, ◌≡◌, Bool, to_int, arith, inl, inr}
use sweater.ThreadStart.{
  Passing, synchronized, on_heap, Creator, preparing, created, refused, testing, about_to_sleep,
  asleep, back, thrown, Starter, absent, copied, flagged, ready, calling, ended, System, Step,
  create, refuse, return, throw, destroy, see_copied, see_uncopied, sleep, wake_up, copy, flag,
  notify_one, notify_nobody, call, end, Reach, new, step,
}

abbrev pub is_preparing : Creator → ℕ
is_preparing preparing = 1
is_preparing _ = 0

abbrev pub is_created : Creator → ℕ
is_created created = 1
is_created _ = 0

abbrev pub is_refused : Creator → ℕ
is_refused refused = 1
is_refused _ = 0

-- In the destructor of synchronized_invocation.
abbrev pub is_destroying : Creator → ℕ
is_destroying testing = 1
is_destroying about_to_sleep = 1
is_destroying asleep = 1
is_destroying _ = 0

abbrev pub is_back : Creator → ℕ
is_back back = 1
is_back _ = 0

abbrev pub is_thrown : Creator → ℕ
is_thrown thrown = 1
is_thrown _ = 0

abbrev pub is_started : Starter → ℕ
is_started absent = 0
is_started _ = 1

-- The thread has set functor_copied_, where it does.
abbrev pub is_flagged : Passing → Starter → ℕ
is_flagged synchronized flagged = 1
is_flagged synchronized ready = 1
is_flagged synchronized calling = 1
is_flagged synchronized ended = 1
is_flagged _ _ = 0

-- The thread is where only a synchronized one gets.
abbrev pub is_copying : Starter → ℕ
is_copying copied = 1
is_copying flagged = 1
is_copying ready = 1
is_copying _ = 0

abbrev pub is_called : Starter → ℕ
is_called calling = 1
is_called ended = 1
is_called _ = 0

abbrev pub is_ended : Starter → ℕ
is_ended ended = 1
is_ended _ = 0

abbrev pub of_heap : Passing → ℕ → ℕ
of_heap on_heap n = n
of_heap _ n = 0

abbrev pub of_synchronized : Passing → ℕ → ℕ
of_synchronized synchronized n = n
of_synchronized _ n = 0

abbrev pub of_others : Passing → ℕ → ℕ
of_others synchronized n = 0
of_others _ n = n

pub record Inv (p : Passing) (s : System) : Type 0 where
  pub flagging : to_int s.functor_copied_ ≡ is_flagged p s.starter
  pub one_of : is_started s.starter + to_int s.was_refused + is_preparing s.creator ≡ 1
  pub refusal : is_refused s.creator + is_thrown s.creator ≤ to_int s.was_refused
  pub success : is_created s.creator + is_back s.creator ≤ is_started s.starter
  pub destroyed :
      of_synchronized p (is_back s.creator + is_thrown s.creator) ≤ to_int s.functor_copied_
  pub others : of_others p (is_destroying s.creator + is_copying s.starter) ≡ 0
  pub called : s.calls ≡ is_called s.starter
  pub deleted : s.deletes ≡ of_heap p (is_ended s.starter + is_thrown s.creator)

Step-Inv : {p : Passing} {s t : System} {b : Bool} → Step p s b t → Inv p s → Inv p t
Step-Inv (create e) inv = ground arith
Step-Inv (refuse e) inv = ground arith
Step-Inv (return n e) inv = ground arith
Step-Inv (throw n e) inv = ground arith
Step-Inv (destroy e (inl h)) inv = ground arith
Step-Inv (destroy e (inr h)) inv = ground arith
Step-Inv (see_copied e f) inv = ground arith
Step-Inv (see_uncopied e f) inv = ground arith
Step-Inv (sleep e) inv = ground arith
Step-Inv (wake_up e) inv = ground arith
Step-Inv (copy e f) inv = ground arith
Step-Inv (flag e) inv = ground arith
Step-Inv (notify_one e f) inv = ground arith
Step-Inv (notify_nobody e f) inv = ground arith
Step-Inv (call e) inv = ground arith
Step-Inv (end e) inv = ground arith

pub Reach-Inv : {p : Passing} {s : System} → Reach p s → Inv p s
Reach-Inv {p} new = ground arith
Reach-Inv (step r st) = Step-Inv st (Reach-Inv r)
