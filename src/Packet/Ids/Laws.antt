-- ===== src/Packet/Ids/Laws.antt =====
-- The ids that one thread draws from MessageIdManager (src/packet.rs).
use msgtrans_rust.Base.{
  ℕ, zero, suc, ◌+◌, ◌<◌, ◌≤◌, ◌≡◌, refl, arith, List, [], ◌∷◌, ◌==◌, if◌then◌else◌, ap,
}
use msgtrans_rust.Packet.Ids.{MessageIdManager, u32_max, next_id, next_ids, after, current_id}

-- The counter is a u32 other than 0.
abbrev pub IsValid : MessageIdManager → Type 0
IsValid m = (1 ≤ m.counter) × (m.counter ≤ u32_max)

-- A valid manager stays valid and hands out its counter, or 1 at u32::MAX: never 0 or u32::MAX.
pub next_id-IsValid :
    (m : MessageIdManager)
    → IsValid m
    → IsValid (next_id m).1
      × ((next_id m).0 ≡ (if m.counter == u32_max then 1 else m.counter))
      × (1 ≤ (next_id m).0)
      × ((next_id m).0 < u32_max)
unfolding next_id
next_id-IsValid m v = ground arith

-- `n` successive numbers.
abbrev pub successive : ℕ → ℕ → List ℕ
successive low zero = []
successive low (suc n) = low ∷ successive (suc low) n

next_id_below :
    (m : MessageIdManager)
    → m.counter < u32_max
    → next_id m ≡ (m.counter, record { counter = suc m.counter })
unfolding next_id
next_id_below m h = ground arith

-- Until the counter reaches u32::MAX, successive calls hand out successive ids from the counter up,
-- and leave the counter at the next one.
pub next_ids-successive :
    (n : ℕ) (m : MessageIdManager)
    → m.counter + n ≤ u32_max
    → (next_ids n m ≡ successive m.counter n) × (current_id (after n m) ≡ m.counter + n)
unfolding next_ids after current_id
next_ids-successive zero m h = (refl, omega arith)
next_ids-successive (suc n) m h =
    let next : MessageIdManager = record { counter = suc m.counter } in
    let (ids, last) = next_ids-successive n next (omega arith) in
    rw (next_id_below m (omega arith)) (ap (◌∷◌ m.counter) ids, omega (arith, last))

-- The call that meets u32::MAX hands out 1, and so does the call after it: an id that may still be
-- in use, twice in a row.
pub next_id_repeats :
    (m : MessageIdManager)
    → m.counter ≡ u32_max
    → ((next_id m).0 ≡ 1) × ((next_id (next_id m).1).0 ≡ 1)
unfolding next_id
next_id_repeats m h = ground arith
