-- ===== src/Session/States/Laws.antt =====
-- ConnectionStateManager (src/transport/connection_state.rs): a session is closed by one caller.
use msgtrans_rust.Base.{
  ℕ, ◌+◌, ◌≤◌, ◌≡◌, ◌≢◌, ◌⊎◌, arith, true, false, List, [], ◌∷◌, Option, none, some, ◌==◌,
  if◌then◌else◌,
}
use msgtrans_rust.Lockfree.Interface.{Dictionary}
use msgtrans_rust.Session.States.{
  ConnectionState, connected, closing, closed, Call, adds, starts_closing, marks_closed, removes,
  add_connection, try_start_closing, mark_closed, should_ignore_messages, get_state,
  remove_connection, step,
}

module _ (D : Dictionary ConnectionState) where
  open D use {Carrier, get, put_at, drop_at, get-put_at, get-drop_at}

  -- What a call makes of the state of the session `id`: the state machine of one session.
  abbrev pub next_state : Call → ℕ → Option ConnectionState → Option ConnectionState
  next_state (adds j) id old = if j == id then some connected else old
  next_state (starts_closing j) id old =
      if j == id
      then elim old [ none ↦ none | some s ↦ some (elim s [ closed ↦ closed | _ ↦ closing ]) ]
      else old
  next_state (marks_closed j) id old =
      if j == id then elim old [ none ↦ none | some s ↦ some closed ] else old
  next_state (removes j) id old = if j == id then none else old

  -- Each call takes the session that it is about through the state machine `next_state` and
  -- leaves the state of every other session as it was.
  pub get_state-step :
      (c : Call) (states : Carrier) (id : ℕ)
      → get_state D (step D c states).1 id ≡ next_state c id (get_state D states id)
  unfolding get_state step add_connection try_start_closing mark_closed remove_connection
  get_state-step (adds j) states id = get-put_at j id connected states
  get_state-step (starts_closing j) states id = ground (arith, get-put_at j id closing states)
  get_state-step (marks_closed j) states id = ground (arith, get-put_at j id closed states)
  get_state-step (removes j) states id = get-drop_at j id states

  -- `try_start_closing` answers true for exactly a connected session, and messages are let through for
  -- exactly a connected session.
  pub connected_iff :
      (states : Carrier) (id : ℕ)
      → ((get_state D states id ≡ some connected)
          × ((try_start_closing D states id).0 ≡ true)
          × (should_ignore_messages D states id ≡ false))
        ⊎ ((get_state D states id ≢ some connected)
            × ((try_start_closing D states id).0 ≡ false)
            × (should_ignore_messages D states id ≡ true))
  unfolding get_state try_start_closing should_ignore_messages
  connected_iff states id = ground arith

  -- Whether a call lets its caller close the session `id`.
  abbrev pub won : ℕ → Call → Carrier → ℕ
  won id (starts_closing j) states =
      if j == id then (if (step D (starts_closing j) states).0 then 1 else 0) else 0
  won id _ states = 0

  -- How often a history lets a caller close the session `id`.
  abbrev pub wins : ℕ → List Call → Carrier → ℕ
  wins id [] states = 0
  wins id (c ∷ cs) states = won id c states + wins id cs (step D c states).1

  -- No call of the history adds the session `id`.
  abbrev pub NotAdded : ℕ → List Call → Type 0
  NotAdded id [] = Unit
  NotAdded id (adds j ∷ cs) = (j ≢ id) × NotAdded id cs
  NotAdded id (_ ∷ cs) = NotAdded id cs

  -- 1 for a connected session.
  abbrev pub open_once : Option ConnectionState → ℕ
  open_once (some connected) = 1
  open_once _ = 0

  won-open_once :
      (c : Call) (id : ℕ) (states : Carrier)
      → NotAdded id (c ∷ [])
      → won id c states + open_once (get_state D (step D c states).1 id)
        ≤ open_once (get_state D states id)
  unfolding step try_start_closing get_state
  won-open_once (adds j) id states h = ground (arith, get_state-step (adds j) states id, h.0)
  won-open_once (starts_closing j) id states h =
      ground (arith, get_state-step (starts_closing j) states id)
  won-open_once (marks_closed j) id states h =
      ground (arith, get_state-step (marks_closed j) states id)
  won-open_once (removes j) id states h = ground (arith, get_state-step (removes j) states id)

  NotAdded-split :
      (id : ℕ) (c : Call) (cs : List Call)
      → NotAdded id (c ∷ cs)
      → NotAdded id (c ∷ []) × NotAdded id cs
  NotAdded-split id (adds j) cs h = ((h.0, tt), h.1)
  NotAdded-split id (starts_closing j) cs h = (tt, h)
  NotAdded-split id (marks_closed j) cs h = (tt, h)
  NotAdded-split id (removes j) cs h = (tt, h)

  -- In a history that does not add the session again, `try_start_closing` answers true for the
  -- session at most once if it is connected at the start, and never if it is not.
  pub wins-le-one :
      (id : ℕ) (cs : List Call) (states : Carrier)
      → NotAdded id cs
      → wins id cs states ≤ open_once (get_state D states id)
  wins-le-one id [] states h = omega arith
  wins-le-one id (c ∷ cs) states h =
      let (first, rest) = NotAdded-split id c cs h in
      omega (arith, won-open_once c id states first, wins-le-one id cs (step D c states).1 rest)
