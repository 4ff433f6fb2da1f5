-- ===== src/Packet/Ids/Threads.antt =====
-- MessageIdManager (src/packet.rs) under threads: `next_id` as its two atomic steps.
use msgtrans_rust.Base.{ℕ, ◌+◌, ◌-◌, ◌%◌, ◌≤◌, ◌≡◌, ◌≢◌, ◌⊎◌, arith, List, ◌∷◌}
use msgtrans_rust.Packet.Ids.{u32_max}

-- `storing` counts the threads that met u32::MAX and have not yet stored 1; `handed` is what the
-- threads were given, newest first.
pub record Threads : Type 0 where
  pub counter : ℕ
  pub storing : ℕ
  pub handed : List ℕ

-- One atomic step of some thread: a fetch_add below u32::MAX, which returns; a fetch_add at
-- u32::MAX, which wraps the counter to 0; and the store that follows it.
pub data Step (s t : Threads) : Type 0 where
  fetch :
      s.counter ≢ u32_max
      → t ≡ record s { counter = (s.counter + 1) % 4294967296; handed = s.counter ∷ s.handed }
      → Step s t
  fetch_max :
      s.counter ≡ u32_max
      → t ≡ record s { counter = (s.counter + 1) % 4294967296; storing = s.storing + 1 }
      → Step s t
  store :
      1 ≤ s.storing
      → t ≡ record { counter = 1; storing = s.storing - 1; handed = 1 ∷ s.handed }
      → Step s t

pub data Reach (s : Threads) : Threads → Type 0 where
  here : Reach s s
  next : {t u : Threads} → Reach s t → Step t u → Reach s u

-- The counter is 0 only while some thread is about to store.
pub record IsSound (s : Threads) : Type 0 where
  pub counter_u32 : s.counter ≤ u32_max
  pub zero_storing : (s.counter ≢ 0) ⊎ (1 ≤ s.storing)

Step-IsSound : {s t : Threads} → Step s t → IsSound s → IsSound t
Step-IsSound (fetch h e) v = ground arith
Step-IsSound (fetch_max h e) v = ground arith
Step-IsSound (store h e) v = ground arith

-- Whatever the interleaving of the steps of `next_id`, it stays true that the counter is a u32
-- and is 0 only while some thread is between the two steps of the wrap.
pub Reach-IsSound : {s t : Threads} → IsSound s → Reach s t → IsSound t
Reach-IsSound v here = v
Reach-IsSound v (next r st) = Step-IsSound st (Reach-IsSound v r)

-- From every state with the counter at u32::MAX some interleaving hands out the ids 0, 1 and 1
-- and leaves the counter at 1.
pub zero_handed_out :
    (s : Threads)
    → s.counter ≡ u32_max
    → Reach s (record s { counter = 1; handed = 1 ∷ 1 ∷ 0 ∷ s.handed })
zero_handed_out s h =
    let wrapped : Threads = record s { counter = 0; storing = s.storing + 1 } in
    let zero_out : Threads = record wrapped { counter = 1; handed = 0 ∷ s.handed } in
    let one_out : Threads = record wrapped { counter = 2; handed = 1 ∷ 0 ∷ s.handed } in
    let at_wrap : Reach s wrapped = next here (fetch_max h (ground arith)) in
    let at_zero : Reach s zero_out = next at_wrap (fetch (λ e. cc) (ground arith)) in
    let at_one : Reach s one_out = next at_zero (fetch (λ e. cc) (ground arith)) in
    next at_one (store (omega arith) (ground arith))
