-- ===== src/Session/Tests.antt =====
-- The bookkeeping of a connection at concrete histories, over the sharded map.
use msgtrans_rust.Base.{ℕ, ◌≤◌, ◌≡◌, refl, arith, [], ◌∷◌, none, some, ◌==◌, if◌then◌else◌}
use msgtrans_rust.Packet.Message
use msgtrans_rust.Packet.Message.{Packet}
use msgtrans_rust.Lockfree.Interface.{Dictionary, sharded}
use msgtrans_rust.Session.Requests
use msgtrans_rust.Session.Requests.{
  RequestManager, register, complete, clear, registers, completes, clears, run,
}
use msgtrans_rust.Session.Requests.Laws.{IsValid, new-IsValid, run-IsValid}
use msgtrans_rust.Session.States.{
  ConnectionState, starts_closing, marks_closed, removes, add_connection, get_state,
}
use msgtrans_rust.Session.States.Laws.{wins, open_once, wins-le-one}

abbrev answer : Packet
answer = Message.response 1 (5 ∷ [])

abbrev channels_by_id : Dictionary ℕ
channels_by_id = sharded ℕ (λ k. k) 16 (omega arith)

abbrev manager : RequestManager channels_by_id
manager = Requests.new channels_by_id

run-IsValid_example :
    IsValid channels_by_id
      (run channels_by_id (registers ∷ registers ∷ completes 2 answer ∷ clears ∷ []) manager)
run-IsValid_example =
    run-IsValid channels_by_id (registers ∷ registers ∷ completes 2 answer ∷ clears ∷ []) manager
      (new-IsValid channels_by_id)

-- The counter is back at 1 while the request with id 1 is pending.
abbrev wrapped : RequestManager channels_by_id
wrapped = record manager {
  pending = channels_by_id.put_at 1 0 channels_by_id.empty;
  message_id_counter = 1;
  channels = 1;
}

wrapped_pending : (k : ℕ) → channels_by_id.get wrapped.pending k ≡ (if 1 == k then some 0 else none)
wrapped_pending k =
    ground (arith, channels_by_id.get-put_at 1 k 0 channels_by_id.empty, channels_by_id.get-empty k)

wrapped-IsValid : IsValid channels_by_id wrapped
unfolding Requests.new
wrapped-IsValid = record {
  pending_made = λ k c e. ground (arith, wrapped_pending k);
  pending_open = λ k c e. refl;
  pending_once = λ k j c e f. ground (arith, wrapped_pending k, wrapped_pending j);
  sent_made = tt;
  sent_once = tt;
}

abbrev states_by_id : Dictionary ConnectionState
states_by_id = sharded ConnectionState (λ k. k) 16 (omega arith)

abbrev five_open : states_by_id.Carrier
five_open = add_connection states_by_id states_by_id.empty 5

wins-le-one_example :
    wins states_by_id 5
      (starts_closing 5 ∷ starts_closing 5 ∷ marks_closed 5 ∷ removes 5 ∷ [])
      five_open
    ≤ open_once states_by_id (get_state states_by_id five_open 5)
wins-le-one_example =
    wins-le-one states_by_id 5
      (starts_closing 5 ∷ starts_closing 5 ∷ marks_closed 5 ∷ removes 5 ∷ []) five_open tt
