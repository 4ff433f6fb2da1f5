-- ===== src/Lockfree/Queue.antt =====
-- src/transport/lockfree.rs, LockFreeQueue. The queue holds both ends of an unbounded channel, so a
-- send does not fail; the counters are 64-bit and wrap. `push` and `pop` touch the channel and then
-- the counters, and other threads may run in between: `Threads` has these steps apart.
pub mod Fifo
pub mod Threads
use msgtrans_rust.Base.{
  ℕ, ◌+◌, ◌-◌, ◌%◌, ◌^◌, Bool, List, [], ◌∷◌, ◌++◌, Option, none, some, ◌==◌, Result, ok,
}
use msgtrans_rust.TransportError.{TransportError}

abbrev pub word : ℕ
word = 2 ^ 64

pub record QueueStats : Type 0 where
  pub enqueued : ℕ
  pub dequeued : ℕ
  pub current_size : ℕ

-- `channel` is what was sent and not yet received, oldest first.
pub record LockFreeQueue {ℓ} (T : Type ℓ) : Type ℓ where
  pub channel : List T
  pub stats : QueueStats

-- What `push` and `pop` do to the counters.
abbrev pub count_push : QueueStats → QueueStats
count_push s = record s {
  enqueued = (s.enqueued + 1) % word;
  current_size = (s.current_size + 1) % word;
}

abbrev pub count_pop : QueueStats → QueueStats
count_pop s = record s {
  dequeued = (s.dequeued + 1) % word;
  current_size = (s.current_size + word - 1) % word;
}

module _ {ℓ} {T : Type ℓ} where
  unfoldable pub new : LockFreeQueue T
  new = record { channel = []; stats = record { enqueued = 0; dequeued = 0; current_size = 0 } }

  unfoldable pub push : LockFreeQueue T → T → LockFreeQueue T × Result (Unit {0}) TransportError
  push q item = (record q { channel = q.channel ++ (item ∷ []); stats = count_push q.stats }, ok tt)

  unfoldable pub pop : LockFreeQueue T → LockFreeQueue T × Option T
  pop q = elim (q.channel) [
    | [] ↦ (q, none)
    | item ∷ rest ↦ (record q { channel = rest; stats = count_pop q.stats }, some item)
  ]

  unfoldable pub len : LockFreeQueue T → ℕ
  len q = q.stats.current_size

  unfoldable pub is_empty : LockFreeQueue T → Bool
  is_empty q = len q == 0
