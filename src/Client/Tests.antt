-- ===== src/Client/Tests.antt =====
-- A client at concrete histories, over the sharded map.
use msgtrans_rust.Base.{ℕ, ◌≡◌, ◌≢◌, refl, true, [], ◌∷◌, some, ltb, if◌then◌else◌, ok}
use msgtrans_rust.Packet.Tests.{keeping}
use msgtrans_rust.TransportError
use msgtrans_rust.Event.Contexts.{no_responses}
use msgtrans_rust.Packet.Message.{Packet}
use msgtrans_rust.Transport.{set_connection, sends}
use msgtrans_rust.Transport
use msgtrans_rust.Transport.Tracker
use msgtrans_rust.Transport.Options.{default_options, start_request_with_options}
use msgtrans_rust.Transport.Requests.{waiting}
use msgtrans_rust.Transport.Tests.{states_by_id, channels_by_id, fresh, on_five}
use msgtrans_rust.Client.{
  Attempt, connects, fails, tcp, TransportClient, connect_with_stored_config, request,
}
use msgtrans_rust.Client
use msgtrans_rust.Client.Connecting.{Tried, connect_with_stored_config-Tried, request_takes_over}

-- Two failures, then session 5 over adapter 1.
abbrev third_time : ℕ → Attempt
third_time attempt =
    if ltb attempt 2 then fails (TransportError.connection "refused" true) else connects 1 5

connect_with_stored_config-Tried_example :
    Tried states_by_id channels_by_id 4 0 third_time fresh
      (connect_with_stored_config states_by_id channels_by_id (tcp true) 3 third_time fresh)
connect_with_stored_config-Tried_example =
    connect_with_stored_config-Tried states_by_id channels_by_id (tcp true) 3 third_time fresh refl

abbrev client : TransportClient states_by_id channels_by_id
client = Client.new states_by_id channels_by_id on_five 3 (some (tcp true)) no_responses

request_takes_over_example :
    let (first, after) = request states_by_id channels_by_id (7 ∷ []) (ok tt) client in
    let (second, u) =
      start_request_with_options states_by_id channels_by_id keeping
        (8 ∷ [])
        default_options
        (ok tt)
        after.inner in
    (first ≡ ok (1, 0))
    × (second ≡ ok 1)
    × ((p : Packet) × (q : Packet) × (u.calls ≡ sends 1 q ∷ sends 1 p ∷ on_five.calls)
        × (p.header.message_id ≡ 1)
        × (q.header.message_id ≡ 1))
    × (waiting states_by_id channels_by_id keeping u 1 ≡ some 1)
    × ((j : ℕ) → waiting states_by_id channels_by_id keeping u j ≢ some 0)
unfolding Client.new Transport.new set_connection Tracker.new Tracker.new_with_start_id
    default_options
request_takes_over_example =
    request_takes_over states_by_id channels_by_id keeping (7 ∷ []) (8 ∷ []) default_options client
      5 1 refl refl refl refl (λ j channel e. cc (channels_by_id.get-empty j))
