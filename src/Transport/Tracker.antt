-- ===== src/Transport/Tracker.antt =====
-- src/transport/transport.rs, RequestTracker. Its DashMap is a dictionary; a oneshot channel is a
-- number, of which `channels` were made, and its sender is used or dropped once, so that what was
-- sent is a list.
use msgtrans_rust.Base.{
  ℕ, ◌+◌, ◌%◌, Bool, true, false, List, [], ◌∷◌, Option, none, some, ◌==◌, if◌then◌else◌,
}
use msgtrans_rust.Packet.Message.{Packet}
use msgtrans_rust.Lockfree.Interface.{Dictionary}

-- The packet in a channel.
abbrev pub received : ℕ → List (ℕ × Packet) → Option Packet
received channel [] = none
received channel ((c, p) ∷ sent) = if c == channel then some p else received channel sent

module _ (D : Dictionary ℕ) where
  open D use {Carrier, empty, get, put_at, drop_at}

  -- `sent` is what went into the channels, newest first.
  pub record RequestTracker : Type 0 where
    pub pending : Carrier
    pub next_id : ℕ
    pub channels : ℕ
    pub sent : List (ℕ × Packet)

  unfoldable pub new_with_start_id : ℕ → RequestTracker
  new_with_start_id start_id = record {
    pending = empty;
    next_id = start_id;
    channels = 0;
    sent = [];
  }

  unfoldable pub new : RequestTracker
  unfolding new_with_start_id
  new = new_with_start_id 1

  -- `next_id.fetch_add(1)` on an AtomicU32.
  unfoldable pub fetch_id : RequestTracker → ℕ × RequestTracker
  fetch_id r = (r.next_id, record r { next_id = (r.next_id + 1) % 4294967296 })

  -- The receiver's channel; a sender that was registered under the id is dropped.
  unfoldable pub register_with_id : ℕ → RequestTracker → ℕ × RequestTracker
  register_with_id id r =
      (r.channels, record r { pending = put_at id r.channels r.pending; channels = r.channels + 1 })

  unfoldable pub register : RequestTracker → (ℕ × ℕ) × RequestTracker
  unfolding fetch_id register_with_id
  register r =
      let (id, r') = fetch_id r in
      let (channel, r'') = register_with_id id r' in ((id, channel), r'')

  unfoldable pub complete : ℕ → Packet → RequestTracker → Bool × RequestTracker
  complete id packet r = elim (get r.pending id) [
    | some tx ↦ (true, record r { pending = drop_at id r.pending; sent = (tx, packet) ∷ r.sent })
    | none ↦ (false, record r { pending = drop_at id r.pending })
  ]

  -- `DashMap::clear` drops every sender.
  unfoldable pub clear : RequestTracker → RequestTracker
  clear r = record r { pending = empty }
