-- ===== src/Libuv/Pending/Invariant.antt =====
-- What holds of the pending requests at every step.
use sweater.Prelude.{
  ℕ, zero, suc, ◌+◌, ◌≤◌, ◌≡◌, ◌≢◌, ◌⊎◌, inl, inr, to_int, Bool, true, false, List, [], ◌∷◌, Option,
  none, some, get_elem?, set, refl, arith, sym, subst, ap, ◌∙◌, replicate, get_elem?-set,
  get_elem?-set_self,
}
use sweater.Libuv.Pending.{
  Pc, expecting, linked, pushed, sent, Request, Loop, polling, called, walking, System, Step, load,
  link, exchange, exchange_fails, send, on_spread_async, take_all, queue_chunks, end, unpushed,
  Reach, new, step,
}
use sweater.Libuv.Pending.Chain.{
  Chain, nothing, node, is_at, occurrences, Chain-set, Chain-none, Chain-some,
}
use sweater.Threads.{weigh, weigh-set}

-- The request is behind its exchange; its caller is to call uv_async_send.
abbrev pub is_pushed : Pc → ℕ
is_pushed pushed = 1
is_pushed sent = 1
is_pushed _ = 0

abbrev pub is_unsent : Request → ℕ
is_unsent r = elim r.pc [ pushed ↦ 1 | _ ↦ 0 ]

abbrev pub is_called : Loop → ℕ
is_called called = 1
is_called _ = 0

-- The node at which the loop's thread is.
abbrev pub head : Loop → Option ℕ
head (walking at) = at
head _ = none

-- A request that stands in lists so many times is there once from its push until it is queued, and
-- its node has the `next` that its exchange expects.
pub record Fits (r : Request) (places : ℕ) : Type 0 where
  pub once : places + r.queued ≡ is_pushed r.pc
  pub linking : (e : Option ℕ) → r.pc ≡ linked e → r.next ≡ e

unfoldable pub Each : List Request → (ℕ → ℕ) → Type 0
Each rs places = (j : ℕ) (r : Request) → get_elem? rs j ≡ some r → Fits r (places j)

Each-set :
    (rs : List Request) {places places' : ℕ → ℕ} (i : ℕ) (q : Request)
    → Each rs places
    → Fits q (places' i)
    → ((j : ℕ) → i ≢ j → places' j ≡ places j)
    → Each (set rs i q) places'
unfolding Each
Each-set rs {places} {places'} i q each own others j r e = elim (get_elem?-set rs i j q r e) [
  | inl (same, is_q) ↦
      subst (λ k. Fits r (places' k)) same (subst (λ x. Fits x (places' i)) (sym is_q) own)
  | inr (differ, there) ↦ subst (λ n. Fits r n) (sym (others j differ)) (each j r there)
]

pub record Inv (s : System) : Type 0 where
  pub pending : List ℕ
  pub walked : List ℕ
  pub at_pending : Chain s.requests s.pending_ pending
  pub at_loop : Chain s.requests (head s.loop) walked
  pub each : Each s.requests (λ i. occurrences i pending + occurrences i walked)
  pub heard :
      (s.pending_ ≡ none) ⊎ (1 ≤ to_int s.async_ + is_called s.loop + weigh is_unsent s.requests)

-- A caller's step that leaves its node where it is and pending_ as it is.
module _ {s : System} (inv : Inv s) (i : ℕ) (p q : Request)
    (e : get_elem? s.requests i ≡ some p) where
  caller-Inv :
      (async_ : Bool)
      → ((q.next ≡ p.next) ⊎ (is_pushed p.pc ≡ 0))
      → Fits q (occurrences i inv.pending + occurrences i inv.walked)
      → (to_int s.async_ + is_unsent p ≤ to_int async_ + is_unsent q) ⊎ (async_ ≡ true)
      → Inv (record s { async_ = async_; requests = set s.requests i q })
  unfolding Each
  caller-Inv async_ kept own still =
      let before = (inv.each i p e).once in
      let stays_pending : (q.next ≡ p.next) ⊎ (occurrences i inv.pending ≡ 0) = elim kept [
        | inl k ↦ inl k
        | inr k ↦ inr (omega (arith, before, k))
      ] in
      let stays_walked : (q.next ≡ p.next) ⊎ (occurrences i inv.walked ≡ 0) = elim kept [
        | inl k ↦ inl k
        | inr k ↦ inr (omega (arith, before, k))
      ] in
      record {
        pending = inv.pending;
        walked = inv.walked;
        at_pending = Chain-set i p q e stays_pending inv.at_pending;
        at_loop = Chain-set i p q e stays_walked inv.at_loop;
        each =
            Each-set s.requests
              {places' = λ j. occurrences j inv.pending + occurrences j inv.walked} i q inv.each own
              (λ j n. refl);
        heard = elim inv.heard [
          | inl empty ↦ inl empty
          | inr known ↦ elim still [
            | inl no_less ↦
                inr (omega (arith, known, no_less, weigh-set is_unsent s.requests i p q e))
            | inr heard ↦ inr (rw heard (omega arith))
          ]
        ];
      }

-- Before its push a request stands in no list, and its `next` may change.
unpushed-Fits :
    (p q : Request) (n : ℕ)
    → Fits p n
    → is_pushed p.pc ≡ 0
    → is_pushed q.pc ≡ 0
    → q.queued ≡ p.queued
    → ((e : Option ℕ) → q.pc ≡ linked e → q.next ≡ e)
    → Fits q n
unpushed-Fits p q n fits before after same linking = record {
  once = omega (arith, fits.once, before, after, same);
  linking = linking;
}

is_at_self : (i : ℕ) → is_at i i ≡ 1
is_at_self i = ground arith

is_at_other : (i j : ℕ) → i ≢ j → is_at j i ≡ 0
is_at_other i j n = ground (arith, n)

exchange-Inv :
    {s : System} (inv : Inv s) (i : ℕ) (r : Request)
    → get_elem? s.requests i ≡ some r
    → r.pc ≡ linked s.pending_
    → Inv (record s { pending_ = some i; requests = set s.requests i (record r { pc = pushed }) })
unfolding Each occurrences weigh
exchange-Inv {s} inv i r e at =
    let q : Request = record r { pc = pushed } in
    let rs = s.requests in
    let fits = inv.each i r e in
    let on = sym (fits.linking s.pending_ at) in
    let tail = Chain-set i r q e (inl refl) inv.at_pending in
    let own : Fits q (is_at i i + occurrences i inv.pending + occurrences i inv.walked) = record {
      once =
          let before : is_pushed r.pc ≡ 0 = rw at refl in
          omega (arith, fits.once, before, is_at_self i);
      linking = λ x h. cc;
    } in
    let was_sent : is_unsent r ≡ 0 = rw at refl in
    record {
      pending = i ∷ inv.pending;
      walked = inv.walked;
      at_pending =
          node (get_elem?-set_self rs i q r e)
            (subst (λ h. Chain (set rs i q) h inv.pending) on tail);
      at_loop = Chain-set i r q e (inl refl) inv.at_loop;
      each =
          Each-set rs
            {places' = λ j. is_at j i + occurrences j inv.pending + occurrences j inv.walked} i q
            inv.each own (λ j n. omega (arith, is_at_other i j n));
      heard = inr (omega (arith, was_sent, weigh-set is_unsent rs i r q e));
    }

take_all-Inv :
    {s : System}
    → Inv s
    → s.loop ≡ called
    → Inv (record s { pending_ = none; loop = walking s.pending_ })
unfolding Each occurrences weigh
take_all-Inv {s} inv at =
    let idle : Chain s.requests none inv.walked =
      subst (λ l. Chain s.requests (head l) inv.walked) at inv.at_loop in
    record {
      pending = [];
      walked = inv.pending;
      at_pending = nothing;
      at_loop = inv.at_pending;
      each = λ j r e. subst (λ n. Fits r n) (omega (arith, Chain-none idle j)) (inv.each j r e);
      heard = inl refl;
    }

queue_chunks-Inv :
    {s : System} (inv : Inv s) (i : ℕ) (r : Request)
    → s.loop ≡ walking (some i)
    → get_elem? s.requests i ≡ some r
    → Inv (record s {
      loop = walking r.next;
      requests = set s.requests i (record r { queued = r.queued + 1 });
    })
unfolding Each
queue_chunks-Inv {s} inv i r at e =
    let q : Request = record r { queued = r.queued + 1 } in
    let rs = s.requests in
    let here : Chain rs (some i) inv.walked =
      subst (λ l. Chain rs (head l) inv.walked) at inv.at_loop in
    let (rest, behind, parts) = Chain-some here e in
    let fits = inv.each i r e in
    let own : Fits q (occurrences i inv.pending + occurrences i rest) = record {
      once = omega (arith, fits.once, parts i, is_at_self i);
      linking = fits.linking;
    } in
    let off : is_called s.loop ≡ 0 = rw at refl in
    record {
      pending = inv.pending;
      walked = rest;
      at_pending = Chain-set i r q e (inl refl) inv.at_pending;
      at_loop = Chain-set i r q e (inl refl) behind;
      each =
          Each-set rs {places' = λ j. occurrences j inv.pending + occurrences j rest} i q inv.each
            own (λ j n. omega (arith, parts j, is_at_other i j n));
      heard = elim inv.heard [
        | inl empty ↦ inl empty
        | inr known ↦ inr (omega (arith, known, off, weigh-set is_unsent rs i r q e))
      ];
    }

-- The loop's thread goes on without a node at hand.
loop-Inv :
    {s : System} (inv : Inv s) (async_ : Bool) (l : Loop)
    → head s.loop ≡ none
    → head l ≡ none
    → to_int s.async_ + is_called s.loop ≤ to_int async_ + is_called l
    → Inv (record s { async_ = async_; loop = l })
loop-Inv {s} inv async_ l from_none to_none still = record {
  pending = inv.pending;
  walked = inv.walked;
  at_pending = inv.at_pending;
  at_loop = subst (λ h. Chain s.requests h inv.walked) (cc (from_none, to_none)) inv.at_loop;
  each = inv.each;
  heard = elim inv.heard [ inl empty ↦ inl empty | inr known ↦ inr (omega (arith, known, still)) ];
}

Step-Inv : {s t : System} → Step s t → Inv s → Inv t
unfolding Each
Step-Inv {s} (load i {r} e at) inv =
    let q : Request = record r { pc = expecting s.pending_ } in
    let fits = unpushed-Fits r q _ (inv.each i r e) (rw at refl) refl refl (λ x h. cc) in
    caller-Inv inv i r q e s.async_ (inl refl) fits (inl (rw at (omega arith)))
Step-Inv {s} (link i {r} {e = x} e at) inv =
    let q : Request = record r { pc = linked x; next = x } in
    let before : is_pushed r.pc ≡ 0 = rw at refl in
    let fits = unpushed-Fits r q _ (inv.each i r e) before refl refl (λ y h. cc h) in
    caller-Inv inv i r q e s.async_ (inr before) fits (inl (rw at (omega arith)))
Step-Inv {s} (exchange i {r} e at same) inv = exchange-Inv inv i r e (at ∙ ap linked (sym same))
Step-Inv {s} (exchange_fails i {r} e at) inv =
    let q : Request = record r { pc = expecting s.pending_ } in
    let fits = unpushed-Fits r q _ (inv.each i r e) (rw at refl) refl refl (λ x h. cc) in
    caller-Inv inv i r q e s.async_ (inl refl) fits (inl (rw at (omega arith)))
Step-Inv {s} (send i {r} e at) inv =
    let q : Request = record r { pc = sent } in
    let before : is_pushed r.pc ≡ 1 = rw at refl in
    let fits : Fits q (occurrences i inv.pending + occurrences i inv.walked) = record {
      once = omega (arith, (inv.each i r e).once, before);
      linking = λ x h. cc;
    } in
    caller-Inv inv i r q e true (inl refl) fits (inr refl)
Step-Inv {s} (on_spread_async idle heard) inv =
    loop-Inv inv false called (rw idle refl) refl (rw (idle, heard) (omega arith))
Step-Inv {s} (take_all at) inv = take_all-Inv inv at
Step-Inv {s} (queue_chunks i {r} at e) inv = queue_chunks-Inv inv i r at e
Step-Inv {s} (end at) inv = loop-Inv inv s.async_ polling (rw at refl) refl (rw at (omega arith))

pub Reach-Inv : {n : ℕ} {s : System} → Reach n s → Inv s
unfolding Each occurrences weigh
Reach-Inv {n} new = record {
  pending = [];
  walked = [];
  at_pending = nothing;
  at_loop = nothing;
  each = λ j r e. new-Fits n j r e;
  heard = inl refl;
}
  where
    new-Fits : (n j : ℕ) (r : Request) → get_elem? (replicate n unpushed) j ≡ some r → Fits r 0
    new-Fits zero j r e = cc
    new-Fits (suc n) zero r e =
        let is_new : unpushed ≡ r = cc e in
        subst (λ x. Fits x 0) is_new (record { once = refl; linking = λ x h. cc })
    new-Fits (suc n) (suc j) r e = new-Fits n j r e
Reach-Inv (step r st) = Step-Inv st (Reach-Inv r)
