-- ===== src/Barrier/Spin.antt =====
-- threading/{futex,generic}_barrier.cpp: spin_wait(), the same in both.
use sweater.Prelude.{
  ℕ, zero, suc, ◌+◌, ◌-◌, ◌/◌, ◌≤◌, ◌≡◌, refl, Bool, true, false, ◌||◌, List, [], ◌∷◌, ◌++◌, Option,
  none, some, replicate, ltb, leb, arith, ◌∙◌,
}

-- Whether the wait is over within the first eighth of the tries, with `spin_tries` left.
abbrev pub within_an_eighth : (nop_spin_count spin_tries : ℕ) → Bool
within_an_eighth nop_spin_count spin_tries = ltb (nop_spin_count - spin_tries) (nop_spin_count / 8)

-- The loop that yields. `polls` are what everyone_arrived() returns, in turn: none where they run out.
unfoldable pub yielding : List Bool → Option Bool
yielding [] = none
yielding (true ∷ polls) = some true
yielding (false ∷ polls) = yielding polls

-- The loop that spins, with the tries left before its test.
unfoldable pub spinning : (nop_spin_count spin_tries : ℕ) → List Bool → Option Bool
unfolding yielding
spinning n zero polls = yielding polls
spinning n (suc spin_tries) [] = none
spinning n (suc spin_tries) (true ∷ polls) = some (within_an_eighth n spin_tries)
spinning n (suc spin_tries) (false ∷ polls) = spinning n spin_tries polls

unfoldable pub spin_wait : (nop_spin_count : ℕ) → List Bool → Option Bool
unfolding spinning
spin_wait nop_spin_count polls = spinning nop_spin_count nop_spin_count polls

yielding_lem :
    (k : ℕ) (polls : List Bool) → yielding (replicate k false ++ true ∷ polls) ≡ some true
unfolding yielding
yielding_lem zero polls = refl
yielding_lem (suc k) polls = yielding_lem k polls

spinning_lem :
    (n left k : ℕ) (polls : List Bool)
    → left ≤ n
    → spinning n left (replicate k false ++ true ∷ polls)
      ≡ some (leb left k || ltb (n - left + k + 1) (n / 8))
unfolding spinning
spinning_lem n zero k polls h = rw (yielding_lem k polls) (ground arith)
spinning_lem n (suc left) zero polls h = ground arith
spinning_lem n (suc left) (suc k) polls h =
    rw (spinning_lem n left k polls (omega arith)) (ground arith)

-- When the last arrival shows at the poll after `k` polls, spin_wait returns, and it reports a stall
-- exactly if no tries were left, or if fewer than an eighth of them were used.
spin_wait_lem :
    (n k : ℕ) (polls : List Bool)
    → spin_wait n (replicate k false ++ true ∷ polls) ≡ some (leb n k || ltb (k + 1) (n / 8))
unfolding spin_wait
spin_wait_lem n k polls = spinning_lem n n k polls (omega arith) ∙ ground arith
