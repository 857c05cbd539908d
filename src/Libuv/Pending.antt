-- ===== src/Libuv/Pending.antt =====
-- impls/libuv.cpp: the requests of spreads that are called off the loop's thread, from the push onto
-- pending_ in spread_impl to on_spread_async, an access at a time. A node has an address of its own.
-- Calls of uv_async_send before the callback runs are one call of it, as libuv documents.
pub mod Chain
pub mod Invariant
pub mod Safety
use sweater.Prelude.{
  ℕ, ◌+◌, ◌≡◌, Bool, true, false, List, Option, none, some, get_elem?, set, replicate,
}

-- A caller of spread_impl: before its load of pending_; with the value expected there; with the node
-- linked to it; behind the exchange; behind uv_async_send.
pub data Pc : Type 0 where
  preparing : Pc
  expecting : (expected : Option ℕ) → Pc
  linked : (expected : Option ℕ) → Pc
  pushed : Pc
  sent : Pc

-- A spread's node, with its caller and the number of times that it was given to queue_chunks.
pub record Request : Type 0 where
  pub pc : Pc
  pub next : Option ℕ
  pub queued : ℕ

-- The loop's thread: outside on_spread_async, at its exchange, and at a node of the list.
pub data Loop : Type 0 where
  polling : Loop
  called : Loop
  walking : (node : Option ℕ) → Loop

pub record System : Type 0 where
  pub pending_ : Option ℕ
  -- the async handle was sent, and its callback has not been called since
  pub async_ : Bool
  pub loop : Loop
  pub requests : List Request

pub data Step (s : System) : System → Type 0 where
  load :
      (i : ℕ) {r : Request}
      → get_elem? s.requests i ≡ some r
      → r.pc ≡ preparing
      → Step s (record s { requests = set s.requests i (record r { pc = expecting s.pending_ }) })
  link :
      (i : ℕ) {r : Request} {e : Option ℕ}
      → get_elem? s.requests i ≡ some r
      → r.pc ≡ expecting e
      → Step s (record s { requests = set s.requests i (record r { pc = linked e; next = e }) })
  exchange :
      (i : ℕ) {r : Request} {e : Option ℕ}
      → get_elem? s.requests i ≡ some r
      → r.pc ≡ linked e
      → s.pending_ ≡ e
      → Step s
          (record s { pending_ = some i; requests = set s.requests i (record r { pc = pushed }) })
  -- also where pending_ is as expected, which compare_exchange_weak may do
  exchange_fails :
      (i : ℕ) {r : Request} {e : Option ℕ}
      → get_elem? s.requests i ≡ some r
      → r.pc ≡ linked e
      → Step s (record s { requests = set s.requests i (record r { pc = expecting s.pending_ }) })
  send :
      (i : ℕ) {r : Request}
      → get_elem? s.requests i ≡ some r
      → r.pc ≡ pushed
      → Step s (record s { async_ = true; requests = set s.requests i (record r { pc = sent }) })
  on_spread_async :
      s.loop ≡ polling → s.async_ ≡ true → Step s (record s { async_ = false; loop = called })
  take_all : s.loop ≡ called → Step s (record s { pending_ = none; loop = walking s.pending_ })
  queue_chunks :
      (i : ℕ) {r : Request}
      → s.loop ≡ walking (some i)
      → get_elem? s.requests i ≡ some r
      → Step s (record s {
        loop = walking r.next;
        requests = set s.requests i (record r { queued = r.queued + 1 });
      })
  end : s.loop ≡ walking none → Step s (record s { loop = polling })

abbrev pub unpushed : Request
unpushed = record { pc = preparing; next = none; queued = 0 }

abbrev pub start : ℕ → System
start n = record {
  pending_ = none;
  async_ = false;
  loop = polling;
  requests = replicate n unpushed;
}

pub data Reach (n : ℕ) : System → Type 0 where
  new : Reach n (start n)
  step : {s t : System} → Reach n s → Step s t → Reach n t
