-- ===== src/ReadRecursion.antt =====
-- threading/read_recursion_registry.hpp and threading/rrw_mutex.hpp: the read locks of one thread,
-- each taken from the operating system once however often the thread takes it. A mutex is its
-- address, a number.
pub mod Depths
pub mod Balance
use sweater.Prelude.{
  ℕ, zero, suc, ◌+◌, ◌-◌, ◌%◌, ◌^◌, Bool, true, false, List, [], ◌∷◌, ◌++◌, ◌==◌, u32,
  if◌then◌else◌,
}

pub record ReadHold : Type 0 where
  pub mutex : ℕ
  pub depth : ℕ

-- What an operation of the registry returns, and the holds that it leaves.
pub record Registered : Type 0 where
  pub result : Bool
  pub held : List ReadHold

-- Where the loop of enter and of bump_if_held found its mutex: ++e.depth.
abbrev pub bumped : ReadHold → ReadHold
bumped e = record e { depth = u32 (e.depth + 1) }

unfoldable pub enter : (m : ℕ) → List ReadHold → Registered
enter m [] = record { result = true; held = record { mutex = m; depth = 1 } ∷ [] }
enter m (e ∷ es) =
    let rest = enter m es in
    if e.mutex == m
    then record { result = false; held = bumped e ∷ es }
    else record rest { held = e ∷ rest.held }

unfoldable pub bump_if_held : (m : ℕ) → List ReadHold → Registered
bump_if_held m [] = record { result = false; held = [] }
bump_if_held m (e ∷ es) =
    let rest = bump_if_held m es in
    if e.mutex == m
    then record { result = true; held = bumped e ∷ es }
    else record rest { held = e ∷ rest.held }

-- held_[ i ] = held_.back(); held_.pop_back(), from what follows held_[ i ]
abbrev pub back : ReadHold → List ReadHold → ReadHold
back e [] = e
back e (x ∷ xs) = back x xs

abbrev pub pop_back : ReadHold → List ReadHold → List ReadHold
pop_back e [] = []
pop_back e (x ∷ xs) = e ∷ pop_back x xs

abbrev pub replaced : List ReadHold → List ReadHold
replaced [] = []
replaced (x ∷ xs) = back x xs ∷ pop_back x xs

unfoldable pub leave : (m : ℕ) → List ReadHold → Registered
leave m [] = record { result = false; held = [] }
leave m (e ∷ es) =
    let rest = leave m es in
    let depth = (e.depth + (2 ^ 32 - 1)) % 2 ^ 32 in
    if e.mutex == m
    then (if depth == 0
        then record { result = true; held = replaced es }
        else record { result = false; held = record e { depth = depth } ∷ es })
    else record rest { held = e ∷ rest.held }

unfoldable pub note_first : (m : ℕ) → List ReadHold → List ReadHold
note_first m held = held ++ record { mutex = m; depth = 1 } ∷ []

-- A thread's registry, with how often it holds the read side of each mutex from the operating
-- system.
pub record Thread : Type 0 where
  pub held : List ReadHold
  pub os_holds : ℕ → ℕ

-- os_acquire_ro and os_release_ro
abbrev pub os_acquire_ro : ℕ → (ℕ → ℕ) → ℕ → ℕ
os_acquire_ro m os k = if k == m then os k + 1 else os k

abbrev pub os_release_ro : ℕ → (ℕ → ℕ) → ℕ → ℕ
os_release_ro m os k = if k == m then os k - 1 else os k

unfoldable pub acquire_ro : (m : ℕ) → Thread → Thread
acquire_ro m t =
    let r = enter m t.held in
    record { held = r.held; os_holds = if r.result then os_acquire_ro m t.os_holds else t.os_holds }

unfoldable pub release_ro : (m : ℕ) → Thread → Thread
release_ro m t =
    let r = leave m t.held in
    record { held = r.held; os_holds = if r.result then os_release_ro m t.os_holds else t.os_holds }

-- `os_result` is what os_try_acquire_ro returns.
unfoldable pub try_acquire_ro : (m : ℕ) (os_result : Bool) → Thread → Thread
try_acquire_ro m os_result t =
    let r = bump_if_held m t.held in
    if r.result
    then record t { held = r.held }
    else if os_result
    then record { held = note_first m t.held; os_holds = os_acquire_ro m t.os_holds }
    else t

-- The calls that a thread makes.
pub data Call : Type 0 where
  acquire : ℕ → Call
  release : ℕ → Call
  try_acquire : ℕ → (os_result : Bool) → Call

unfoldable pub call : Call → Thread → Thread
unfolding acquire_ro release_ro try_acquire_ro
call (acquire m) t = acquire_ro m t
call (release m) t = release_ro m t
call (try_acquire m os_result) t = try_acquire_ro m os_result t

unfoldable pub calls : List Call → Thread → Thread
calls [] t = t
calls (c ∷ cs) t = calls cs (call c t)
