-- ===== src/Libuv/Pending/Chain.antt =====
-- The nodes that a pointer leads to.
use sweater.Prelude.{
  ℕ, ◌+◌, ◌≡◌, ◌≢◌, ◌⊎◌, inl, inr, ◌==◌, to_int, List, [], ◌∷◌, Option, none, some, get_elem?, set,
  refl, arith, Bool-cases, subst, get_elem?-set_self, get_elem?-set_other,
}
use sweater.Libuv.Pending.{Request}
use sweater.Threads.{weigh}

-- The list from a node on, by the nodes' `next`.
pub data Chain (rs : List Request) : Option ℕ → List ℕ → Type 0 where
  nothing : Chain rs none []
  node :
      {i : ℕ} {r : Request} {is : List ℕ}
      → get_elem? rs i ≡ some r
      → Chain rs r.next is
      → Chain rs (some i) (i ∷ is)

abbrev pub is_at : ℕ → ℕ → ℕ
is_at i j = to_int (j == i)

unfoldable pub occurrences : ℕ → List ℕ → ℕ
occurrences i is = weigh (is_at i) is

-- A request that changes may keep its `next`, or be no part of the chain.
pub Chain-set :
    {rs : List Request} {h : Option ℕ} {is : List ℕ} (i : ℕ) (p q : Request)
    → get_elem? rs i ≡ some p
    → (q.next ≡ p.next) ⊎ (occurrences i is ≡ 0)
    → Chain rs h is
    → Chain (set rs i q) h is
unfolding occurrences weigh
Chain-set i p q e k nothing = nothing
Chain-set {rs} i p q e (inl kept) (node {i = j} {r} {is} here c) = elim (Bool-cases (j == i)) [
  | inl same ↦
      let is_it : j ≡ i = ground (arith, same) in
      let one : some p ≡ some r = cc (e, here, is_it) in
      let on : r.next ≡ q.next = cc (one, kept) in
      let rest = subst (λ h. Chain (set rs i q) h is) on (Chain-set i p q e (inl kept) c) in
      let there : get_elem? (set rs i q) j ≡ some q = rw is_it (get_elem?-set_self rs i q p e) in
      node there rest
  | inr other ↦
      let differ : i ≢ j = λ h. ground (arith, h, other) in
      node (get_elem?-set_other rs i j q r differ here) (Chain-set i p q e (inl kept) c)
]
Chain-set {rs} i p q e (inr out) (node {i = j} {r} {is} here c) = elim (Bool-cases (j == i)) [
  | inl same ↦ absurd (ground (arith, same, out))
  | inr other ↦
      let differ : i ≢ j = λ h. ground (arith, h, other) in
      node (get_elem?-set_other rs i j q r differ here)
        (Chain-set i p q e (inr (ground (arith, other, out))) c)
]

pub Chain-none :
    {rs : List Request} {is : List ℕ} → Chain rs none is → (i : ℕ) → occurrences i is ≡ 0
unfolding occurrences weigh
Chain-none nothing i = refl

-- The first node of a chain, and the chain behind it.
pub Chain-some :
    {rs : List Request} {i : ℕ} {is : List ℕ} {r : Request}
    → Chain rs (some i) is
    → get_elem? rs i ≡ some r
    → (rest : List ℕ) × Chain rs r.next rest
      × ((j : ℕ) → occurrences j is ≡ is_at j i + occurrences j rest)
unfolding occurrences weigh
Chain-some {rs} {r} (node {r = q} {is = rest} here c) e =
    let one : some q ≡ some r = cc (e, here) in
    let on : q.next ≡ r.next = cc one in (rest, subst (λ h. Chain rs h rest) on c, λ j. refl)
