-- ===== src/Lockfree/Counter.antt =====
-- src/transport/lockfree.rs, LockFreeCounter: an AtomicUsize, which wraps at 2^64.
use msgtrans_rust.Base.{ℕ, ◌+◌, ◌-◌, ◌%◌, ◌^◌, ◌<◌, ◌≡◌, arith}

abbrev word : ℕ
word = 2 ^ 64

pub record CounterStats : Type 0 where
  pub increments : ℕ
  pub decrements : ℕ
  pub reads : ℕ

pub record LockFreeCounter : Type 0 where
  pub value : ℕ
  pub stats : CounterStats

unfoldable pub new : ℕ → LockFreeCounter
new initial = record {
  value = initial;
  stats = record { increments = 0; decrements = 0; reads = 0 };
}

unfoldable pub increment : LockFreeCounter → ℕ × LockFreeCounter
increment c = (
  (c.value + 1) % word,
  record {
    value = (c.value + 1) % word;
    stats = record (c.stats) { increments = (c.stats.increments + 1) % word };
  },
)

-- `fetch_sub(1).saturating_sub(1)`: the stored value wraps, the answer stops at 0.
unfoldable pub decrement : LockFreeCounter → ℕ × LockFreeCounter
decrement c = (
  c.value - 1,
  record {
    value = (c.value + word - 1) % word;
    stats = record (c.stats) { decrements = (c.stats.decrements + 1) % word };
  },
)

unfoldable pub get : LockFreeCounter → ℕ × LockFreeCounter
get c = (c.value, record c { stats = record (c.stats) { reads = (c.stats.reads + 1) % word } })

unfoldable pub set : LockFreeCounter → ℕ → LockFreeCounter
set c value = record c { value = value }

unfoldable pub swap : LockFreeCounter → ℕ → ℕ × LockFreeCounter
swap c value = (c.value, record c { value = value })

-- Away from the two ends the answers of `increment` and `decrement` are the value that `get` reads
-- afterwards, and one undoes the other.
pub increment-decrement :
    (c : LockFreeCounter)
    → c.value + 1 < word
    → ((increment c).0 ≡ c.value + 1)
      × ((get (increment c).1).0 ≡ c.value + 1)
      × ((decrement (increment c).1).0 ≡ c.value)
      × ((get (decrement (increment c).1).1).0 ≡ c.value)
unfolding increment decrement get
increment-decrement c h = ground arith

-- At 0, `decrement` answers 0 and leaves 2^64 - 1 behind, which `get` then reads.
pub decrement_zero :
    (c : LockFreeCounter)
    → c.value ≡ 0
    → ((decrement c).0 ≡ 0) × ((get (decrement c).1).0 ≡ word - 1)
unfolding decrement get
decrement_zero c h = ground arith
