-- ===== src/Shop/Joined/Invariant.antt =====
-- That a spread and its barrier keep in step, whatever the interleaving.
use sweater.Prelude.{
  ℕ, suc, ◌+◌, ◌-◌, ◌%◌, ◌^◌, ◌<◌, ◌≡◌, Bool, true, false, refl, ap, sym, subst, ◌∙◌, arith, List,
  ◌∷◌, ◌++◌, length, some, get_elem?,
}
use sweater.Barrier.Futex.{
  Barrier, Owner, working, fresh, preparing, wait_loading, wait_loaded, parked, spinning, yielding,
  Step, use_spin_wait, no_choice, initialize, wait, wait_load, wait_done, park, no_park, spurious,
  spin_wait, spin_done, spin_again, spun, yield_done, arrive_spinning, arrive, arrive_last,
  wake_one, wake_nobody, Reach,
}
use sweater.Chunks.Tiles.{Range}
use sweater.Shop.Effects.{Effect, executed}
use sweater.Shop.Joined.{
  Joint, is_other, JointStep, choose, keep_wait, expect, set_up, enqueue, enqueue_bulk, run, skip,
  start_wait, start_spin_wait, see_everyone, other, JointReach,
}
use sweater.Shop.Joined.Plan.{Plan}
use sweater.Shop.Joined.Stages.{
  Begins, At, fewer-At, still_given, one_given, chosen-Begins, kept-Begins, one-Plan, inert-Plan,
  executed-inert, expected-Reach, handed-Reach, decremented-le,
}

module _ (hc limit n : ℕ) (spin : Bool) (all : List Range) (few : limit < hc)
    (fits : limit < 2 ^ 32) where
  pub record Sound (s : Joint) : Type 0 where
    pub reach : Reach hc limit n s.barrier
    pub given : s.handed ++ executed s.rest ≡ all
    pub stage : At limit spin s.rest s.barrier.counter_ s.barrier.spin_wait_ s.barrier.owner

  -- The stage, where the owner is known to stand.
  pub stands :
      (s : Joint) (o : Owner)
      → Sound s
      → s.barrier.owner ≡ o
      → At limit spin s.rest s.barrier.counter_ s.barrier.spin_wait_ o
  stands s o sound e =
      subst (At limit spin s.rest s.barrier.counter_ s.barrier.spin_wait_) e sound.stage

  -- The same where the calls that are left are known.
  next_call :
      (s : Joint) (k : ℕ) (es : List Effect)
      → Sound s
      → s.barrier.owner ≡ preparing k
      → s.rest ≡ es
      → At limit spin es s.barrier.counter_ s.barrier.spin_wait_ (preparing k)
  next_call s k es sound o p =
      subst (λ x. At limit spin x s.barrier.counter_ s.barrier.spin_wait_ (preparing k)) p
        (stands s (preparing k) sound o)

  -- An arrival leaves the owner where it stands.
  arrived-At :
      (s : Joint) (i : ℕ)
      → Sound s
      → get_elem? s.barrier.workers i ≡ some working
      → At limit spin s.rest
          ((s.barrier.counter_ + (2 ^ 32 - 1)) % 2 ^ 32)
          s.barrier.spin_wait_
          s.barrier.owner
  arrived-At s i sound f =
      fewer-At limit spin s.rest s.barrier.counter_ _ s.barrier.spin_wait_ s.barrier.owner
        (decremented-le hc limit n i s.barrier few fits sound.reach f) sound.stage

  moved :
      (s : Joint) {t : Barrier}
      → Sound s
      → Step hc limit s.barrier t
      → At limit spin s.rest t.counter_ t.spin_wait_ t.owner
      → Sound (record s { barrier = t })
  moved s sound st stage = record {
    reach = Reach.step sound.reach st;
    given = sound.given;
    stage = stage;
  }

  other-Sound :
      {l : ℕ} (s : Joint) {t : Barrier} (st : Step hc l s.barrier t)
      → is_other st ≡ true
      → Sound s
      → Sound (record s { barrier = t })
  other-Sound s (wait_load e) o sound = moved s sound (wait_load e) (stands s wait_loading sound e)
  other-Sound s (wait_done e) o sound =
      moved s sound (wait_done e) (stands s (wait_loaded 0) sound e)
  other-Sound s (park {v} e h k) o sound =
      moved s sound (park e h k) (stands s (wait_loaded v) sound e)
  other-Sound s (no_park {v} e h k) o sound =
      moved s sound (no_park e h k) (stands s (wait_loaded v) sound e)
  other-Sound s (spurious e) o sound = moved s sound (spurious e) (stands s parked sound e)
  other-Sound s (spin_done {n} {left} e h) o sound =
      moved s sound (spin_done e h) (stands s (spinning n (suc left)) sound e)
  other-Sound s (spin_again {n} {left} e h) o sound =
      moved s sound (spin_again e h) (stands s (spinning n (suc left)) sound e)
  other-Sound s (spun {n} e) o sound = moved s sound (spun e) (stands s (spinning n 0) sound e)
  other-Sound s (yield_done e h) o sound =
      moved s sound (yield_done e h) (stands s yielding sound e)
  other-Sound s (arrive_spinning i f h) o sound =
      moved s sound (arrive_spinning i f h) (arrived-At s i sound f)
  other-Sound s (arrive i f h k) o sound = moved s sound (arrive i f h k) (arrived-At s i sound f)
  other-Sound s (arrive_last i f h k) o sound =
      moved s sound (arrive_last i f h k) (arrived-At s i sound f)
  other-Sound s (wake_one i f e) o sound = moved s sound (wake_one i f e) (stands s parked sound e)
  other-Sound s (wake_nobody i f e) o sound = moved s sound (wake_nobody i f e) sound.stage
  other-Sound s _ o sound = ground arith

  JointStep-Sound : (s : Joint) {t : Joint} → JointStep hc s t → Sound s → Sound t
  JointStep-Sound s (choose {v} {es} p o) sound =
      let (free, none_yet, begins) = stands s fresh sound o in
      let chosen : (v ≡ spin) × Plan limit spin 0 0 es =
        chosen-Begins limit spin v s.rest es p begins in
      record {
        reach = Reach.step sound.reach (use_spin_wait v o);
        given = still_given all s es _ sound.given p refl;
        stage = (0, none_yet, chosen.0, chosen.1);
      }
  JointStep-Sound s (keep_wait c o) sound =
      let (free, none_yet, begins) = stands s fresh sound o in
      let kept : (spin ≡ false) × Plan limit spin 0 0 s.rest =
        kept-Begins limit spin s.rest c begins in
      record {
        reach = Reach.step sound.reach (no_choice o);
        given = sound.given;
        stage = (0, none_yet, free ∙ sym kept.0, kept.1);
      }
  JointStep-Sound s (expect {k} {es} p o) sound =
      let (e, fewer, same, (room, plan)) = next_call s k _ sound o p in
      record {
        reach =
            expected-Reach hc limit n k s.barrier fits sound.reach o (omega (arith, fewer, room));
        given = still_given all s es _ sound.given p refl;
        stage = (suc e, grind (arith, fewer, room, fits), same, plan);
      }
  JointStep-Sound s (set_up {k} {n = m} {es} p o) sound =
      let (e, fewer, same, (none_left, none_yet, room, plan)) = next_call s k _ sound o p in
      record {
        reach =
            Reach.step sound.reach
              (initialize m room (o ∙ ap preparing none_left) (omega (arith, fewer, none_yet)));
        given = still_given all s es _ sound.given p refl;
        stage = (m, omega arith, same, plan);
      }
  JointStep-Sound s (enqueue {k} {w} {b} {r} {rs} {es} i p o free) sound =
      let (e, fewer, same, (room, plan)) = next_call s k _ sound o p in
      record {
        reach = handed-Reach hc limit n k i s.barrier sound.reach o (omega (arith, room)) free;
        given = one_given all s _ (Effect.enqueue w rs b true ∷ es) r sound.given p refl;
        stage = (e, fewer, same, one-Plan limit spin k e (length rs) es room plan);
      }
  JointStep-Sound s (enqueue_bulk {k} {r} {rs} {es} i p o free) sound =
      let (e, fewer, same, (room, plan)) = next_call s k _ sound o p in
      record {
        reach = handed-Reach hc limit n k i s.barrier sound.reach o (omega (arith, room)) free;
        given = one_given all s _ (Effect.enqueue_bulk rs true ∷ es) r sound.given p refl;
        stage = (e, fewer, same, one-Plan limit spin k e (length rs) es room plan);
      }
  JointStep-Sound s (run {k} {r} {es} i p o free) sound =
      let (e, fewer, same, (room, plan)) = next_call s k _ sound o p in
      record {
        reach = handed-Reach hc limit n k i s.barrier sound.reach o room free;
        given = one_given all s _ es r sound.given p refl;
        stage = (e, fewer, same, plan);
      }
  JointStep-Sound s (skip {k} {e = x} {es} p o i) sound =
      let (e, fewer, same, plan) = next_call s k _ sound o p in
      record {
        reach = sound.reach;
        given = still_given all s es x sound.given p (executed-inert x es i);
        stage =
            subst (At limit spin es s.barrier.counter_ s.barrier.spin_wait_) (sym o)
              (e, fewer, same, inert-Plan limit spin k e x es i plan);
      }
  JointStep-Sound s (start_wait {k} {es} p o) sound =
      let (e, fewer, same, (no_spin, none_left, last)) = next_call s k _ sound o p in
      record {
        reach = Reach.step sound.reach (wait (o ∙ ap preparing none_left) (same ∙ no_spin));
        given = still_given all s es _ sound.given p refl;
        stage = last;
      }
  JointStep-Sound s (start_spin_wait c {k} {es} p o) sound =
      let (e, fewer, same, (spins, none_left, last)) = next_call s k _ sound o p in
      record {
        reach = Reach.step sound.reach (spin_wait c (o ∙ ap preparing none_left) (same ∙ spins));
        given = still_given all s es _ sound.given p refl;
        stage = last;
      }
  JointStep-Sound s (see_everyone {k} p o all_arrived) sound =
      let (e, fewer, same, (none_left, spins)) = next_call s k _ sound o p in
      record {
        reach =
            Reach.step
              (Reach.step sound.reach (spin_wait 1 (o ∙ ap preparing none_left) (same ∙ spins)))
              (spin_done refl all_arrived);
        given = sound.given;
        stage = p;
      }
  JointStep-Sound s (other st o) sound = other-Sound s st o sound

  pub JointReach-Sound :
      (es : List Effect)
      → Begins limit spin es
      → executed es ≡ all
      → {s : Joint} → JointReach hc n es s
      → Sound s
  JointReach-Sound es begins whole JointReach.new = record {
    reach = Reach.new;
    given = whole;
    stage = (refl, omega arith, begins);
  }
  JointReach-Sound es begins whole (JointReach.step {s} r st) =
      JointStep-Sound s st (JointReach-Sound es begins whole r)
