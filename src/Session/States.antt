-- ===== src/Session/States.antt =====
-- src/transport/connection_state.rs. Each method looks the session up and reads or writes its state
-- under the state's own lock, as one step; a session that is added again starts afresh.
pub mod Laws
use msgtrans_rust.Base.{ℕ, Bool, true, false, List, [], ◌∷◌, Option, none, some, if◌then◌else◌}
use msgtrans_rust.Lockfree.Interface.{Dictionary}

pub data ConnectionState : Type 0 where
  connected closing closed : ConnectionState

-- A call by some task.
pub data Call : Type 0 where
  adds starts_closing marks_closed removes : ℕ → Call

module _ (D : Dictionary ConnectionState) where
  open D use {Carrier, get, put_at, drop_at}

  unfoldable pub add_connection : Carrier → ℕ → Carrier
  add_connection states id = put_at id connected states

  unfoldable pub try_start_closing : Carrier → ℕ → Bool × Carrier
  try_start_closing states id = elim (get states id) [
    | some state ↦ elim state [
      | connected ↦ (true, put_at id closing states)
      | closing ↦ (false, states)
      | closed ↦ (false, states)
    ]
    | none ↦ (false, states)
  ]

  unfoldable pub mark_closed : Carrier → ℕ → Carrier
  mark_closed states id = elim (get states id) [
    | some state ↦ put_at id closed states
    | none ↦ states
  ]

  unfoldable pub should_ignore_messages : Carrier → ℕ → Bool
  should_ignore_messages states id = elim (get states id) [
    | some state ↦ elim state [ connected ↦ false | closing ↦ true | closed ↦ true ]
    | none ↦ true
  ]

  unfoldable pub get_state : Carrier → ℕ → Option ConnectionState
  get_state states id = get states id

  unfoldable pub remove_connection : Carrier → ℕ → Carrier
  remove_connection states id = drop_at id states

  -- The states behind a call, and the answer of `try_start_closing`.
  unfoldable pub step : Call → Carrier → Bool × Carrier
  step (adds id) states = (false, add_connection states id)
  step (starts_closing id) states = try_start_closing states id
  step (marks_closed id) states = (false, mark_closed states id)
  step (removes id) states = (false, remove_connection states id)
