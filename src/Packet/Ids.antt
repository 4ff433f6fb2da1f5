-- ===== src/Packet/Ids.antt =====
-- src/packet.rs, MessageIdManager: an AtomicU32 counter. `next_id` is a fetch_add, and at u32::MAX a
-- store as a second atomic step; between the two another thread may run.
pub mod Laws
pub mod Threads
use msgtrans_rust.Base.{ℕ, zero, suc, ◌+◌, ◌%◌, List, [], ◌∷◌, ◌==◌, if◌then◌else◌}

abbrev pub u32_max : ℕ
u32_max = 4294967295

pub record MessageIdManager : Type 0 where
  pub counter : ℕ

unfoldable pub new : MessageIdManager
new = record { counter = 1 }

-- `counter.fetch_add(1)`, which wraps.
abbrev pub fetch_add : MessageIdManager → ℕ × MessageIdManager
fetch_add m = (m.counter, record { counter = (m.counter + 1) % 4294967296 })

unfoldable pub reset : MessageIdManager → MessageIdManager
reset m = record { counter = 1 }

unfoldable pub next_id : MessageIdManager → ℕ × MessageIdManager
next_id m =
    let (id, m') = fetch_add m in if id == u32_max then (1, record { counter = 1 }) else (id, m')

unfoldable pub current_id : MessageIdManager → ℕ
current_id m = m.counter

-- The ids of `n` calls in a row.
unfoldable pub next_ids : ℕ → MessageIdManager → List ℕ
next_ids zero m = []
next_ids (suc n) m = let (id, m') = next_id m in id ∷ next_ids n m'

-- The manager after them.
unfoldable pub after : ℕ → MessageIdManager → MessageIdManager
after zero m = m
after (suc n) m = after n (next_id m).1
