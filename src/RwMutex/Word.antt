-- ===== src/RwMutex/Word.antt =====
-- threading/futex_rw_mutex.{hpp,cpp}: the 32-bit state word, and what each access does to its fields.
use sweater.Prelude.{
  ℕ, ◌+◌, ◌-◌, ◌*◌, ◌/◌, ◌%◌, ◌^◌, ◌<◌, ◌≤◌, ◌≡◌, Bool, true, false, ◌&&◌, ◌==◌, arith, ap, sym,
}

-- The fields of the word: `state & reader_mask`, and the three bits above it.
unfoldable pub reader_count : ℕ → ℕ
reader_count state = state % 2 ^ 29

unfoldable pub reader_parked : ℕ → ℕ
reader_parked state = state / 2 ^ 29 % 2

unfoldable pub writer_waiting : ℕ → ℕ
writer_waiting state = state / 2 ^ 30 % 2

unfoldable pub writer_locked : ℕ → ℕ
writer_locked state = state / 2 ^ 31 % 2

-- ( observed & reader_blocking_bits ) == 0: a reader is let in
unfoldable pub admits : (writer_preferring : Bool) → ℕ → Bool
admits true observed = writer_locked observed == 0 && writer_waiting observed == 0
admits false observed = writer_locked observed == 0

-- ( observed & ( reader_mask | writer_locked_bit ) ) == 0: a writer is let in
unfoldable pub is_free : ℕ → Bool
is_free observed = reader_count observed == 0 && writer_locked observed == 0

-- writer_locked_bit | ( observed & parked_bits )
unfoldable pub locked : ℕ → ℕ
locked observed = 2 ^ 31 + 2 ^ 30 * writer_waiting observed + 2 ^ 29 * reader_parked observed

-- What `word` holds, field by field.
pub record Fields (word readers ro ww lock : ℕ) : Type 0 where
  pub range : word < 2 ^ 32
  pub readers_eq : reader_count word ≡ readers
  pub ro_eq : reader_parked word ≡ ro
  pub ww_eq : writer_waiting word ≡ ww
  pub lock_eq : writer_locked word ≡ lock

pub field_bounds :
    (word : ℕ)
    → (reader_count word < 2 ^ 29)
      × (reader_parked word ≤ 1)
      × (writer_waiting word ≤ 1)
      × (writer_locked word ≤ 1)
unfolding reader_count reader_parked writer_waiting writer_locked
field_bounds word = omega arith

-- The word that a compare-exchange finds unchanged.
pub same_word :
    (word observed : ℕ)
    → word < 2 ^ 32
    → word ≡ observed
    → Fields observed
        (reader_count word)
        (reader_parked word)
        (writer_waiting word)
        (writer_locked word)
same_word word observed h e = record {
  range = omega arith;
  readers_eq = ap reader_count (sym e);
  ro_eq = ap reader_parked (sym e);
  ww_eq = ap writer_waiting (sym e);
  lock_eq = ap writer_locked (sym e);
}

pub add_reader :
    (word : ℕ)
    → word < 2 ^ 32
    → reader_count word + 1 < 2 ^ 29
    → Fields
        ((word + 1) % 2 ^ 32)
        (reader_count word + 1)
        (reader_parked word)
        (writer_waiting word)
        (writer_locked word)
unfolding reader_count reader_parked writer_waiting writer_locked
add_reader word h k = ground arith

pub drop_reader :
    (word : ℕ)
    → word < 2 ^ 32
    → 0 < reader_count word
    → Fields
        ((word + (2 ^ 32 - 1)) % 2 ^ 32)
        (reader_count word - 1)
        (reader_parked word)
        (writer_waiting word)
        (writer_locked word)
unfolding reader_count reader_parked writer_waiting writer_locked
drop_reader word h k = ground arith

pub announce_reader :
    (word : ℕ)
    → word < 2 ^ 32
    → reader_parked word ≡ 0
    → Fields (word + 2 ^ 29) (reader_count word) 1 (writer_waiting word) (writer_locked word)
unfolding reader_count reader_parked writer_waiting writer_locked
announce_reader word h k = ground arith

pub announce_writer :
    (word : ℕ)
    → word < 2 ^ 32
    → writer_waiting word ≡ 0
    → Fields (word + 2 ^ 30) (reader_count word) (reader_parked word) 1 (writer_locked word)
unfolding reader_count reader_parked writer_waiting writer_locked
announce_writer word h k = ground arith

pub lock_word : (word : ℕ) → Fields (locked word) 0 (reader_parked word) (writer_waiting word) 1
unfolding locked reader_count reader_parked writer_waiting writer_locked
lock_word word = ground arith

pub free_word : Fields 0 0 0 0 0
unfolding reader_count reader_parked writer_waiting writer_locked
free_word = ground arith

pub admits-true : (wp : Bool) (word : ℕ) → admits wp word ≡ true → writer_locked word ≡ 0
unfolding admits
admits-true true word h = ground arith
admits-true false word h = ground arith

pub admits-false :
    (wp : Bool) (word : ℕ) → admits wp word ≡ false → 0 < writer_locked word + writer_waiting word
unfolding admits
admits-false true word h = ground arith
admits-false false word h = ground arith

pub is_free-true :
    (word : ℕ) → is_free word ≡ true → (reader_count word ≡ 0) × (writer_locked word ≡ 0)
unfolding is_free
is_free-true word h = ground arith

pub is_free-false : (word : ℕ) → is_free word ≡ false → 0 < reader_count word + writer_locked word
unfolding is_free
is_free-false word h = ground arith
