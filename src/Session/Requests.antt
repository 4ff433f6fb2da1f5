-- ===== src/Session/Requests.antt =====
-- src/transport/request_manager.rs. A oneshot channel is a number: `channels` were made so far. A
-- registered sender has not been used, so taking it out of its Mutex always finds it; its packet goes
-- to its channel, whether or not the receiver still waits.
pub mod Laws
use msgtrans_rust.Base.{ℕ, ◌+◌, ◌%◌, Bool, true, false, List, [], ◌∷◌, Option, none, some}
use msgtrans_rust.Packet.Message.{Packet}
use msgtrans_rust.Lockfree.Interface.{Dictionary}

-- A call by some task.
pub data Call : Type 0 where
  registers clears : Call
  completes : ℕ → Packet → Call

module _ (D : Dictionary ℕ) where
  open D use {Carrier, empty, get, put_at, drop_at, all_keys}

  -- `sent` is what went into the channels, newest first.
  pub record RequestManager : Type 0 where
    pub pending : Carrier
    pub message_id_counter : ℕ
    pub channels : ℕ
    pub sent : List (ℕ × Packet)

  unfoldable pub new : RequestManager
  new = record { pending = empty; message_id_counter = 1; channels = 0; sent = [] }

  -- The id and the receiver's channel. The counter is an AtomicU32.
  unfoldable pub register : RequestManager → (ℕ × ℕ) × RequestManager
  register s =
      let message_id = s.message_id_counter in
      (
        (message_id, s.channels),
        record s {
          pending = put_at message_id s.channels s.pending;
          message_id_counter = (message_id + 1) % 4294967296;
          channels = s.channels + 1;
        },
      )

  unfoldable pub complete : RequestManager → ℕ → Packet → Bool × RequestManager
  complete s message_id packet = elim (get s.pending message_id) [
    | some sender ↦ (
      true,
      record s { pending = drop_at message_id s.pending; sent = (sender, packet) ∷ s.sent },
    )
    | none ↦ (false, record s { pending = drop_at message_id s.pending })
  ]

  unfoldable pub drop_all : List ℕ → Carrier → Carrier
  drop_all [] c = c
  drop_all (k ∷ ks) c = drop_all ks (drop_at k c)

  unfoldable pub clear : RequestManager → RequestManager
  unfolding drop_all
  clear s = record s { pending = drop_all (all_keys s.pending) s.pending }

  unfoldable pub step : Call → RequestManager → RequestManager
  step registers s = (register s).1
  step (completes id packet) s = (complete s id packet).1
  step clears s = clear s

  unfoldable pub run : List Call → RequestManager → RequestManager
  run [] s = s
  run (c ∷ cs) s = run cs (step c s)
