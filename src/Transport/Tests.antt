-- ===== src/Transport/Tests.antt =====
-- A transport at concrete histories, over the sharded map.
use msgtrans_rust.Base.{ℕ, ◌≡◌, ◌∙◌, refl, arith, true, List, [], ◌∷◌, ◌++◌, none, some, ok}
use msgtrans_rust.Packet.Header
use msgtrans_rust.Packet.Message
use msgtrans_rust.Packet.Message.{Packet}
use msgtrans_rust.Packet.Tests.{keeping, keeping-Documented}
use msgtrans_rust.Event
use msgtrans_rust.Lockfree.Interface.{Dictionary, sharded}
use msgtrans_rust.Session.States.{ConnectionState, connected, add_connection}
use msgtrans_rust.Transport
use msgtrans_rust.Transport.{
  Transport, CloseResult, done, late, set_connection, close_session, force_close_session,
  is_connected, send, sends, closes,
}
use msgtrans_rust.Transport.Tracker.{register_with_id}
use msgtrans_rust.Transport.Tracker
use msgtrans_rust.Packet.Compress.{compress_data}
use msgtrans_rust.Transport.Messages.{elapsed, awaited, register_and_send, start_request, on_event}
use msgtrans_rust.Transport.Options.{
  TransportOptions, default_options, with_compression, with_biz_type, send_with_options,
  start_request_with_options,
}
use msgtrans_rust.Transport.Closing.{Closed, close_calls, close_current, close_older}
use msgtrans_rust.Transport.Coherence.{
  Call, connects, sends_packet, requests, closes_session, forces_session, disconnects, sees,
  IsCoherent, new-IsCoherent, run, run-IsCoherent,
}
use msgtrans_rust.Transport.Requests.{waiting, request_answered}
use msgtrans_rust.Transport.Delivery.{Arrives, options_delivered}

abbrev pub states_by_id : Dictionary ConnectionState
states_by_id = sharded ConnectionState (λ k. k) 16 (omega arith)

abbrev pub channels_by_id : Dictionary ℕ
channels_by_id = sharded ℕ (λ k. k) 16 (omega arith)

abbrev pub fresh : Transport states_by_id channels_by_id
fresh = Transport.new states_by_id channels_by_id

-- On session 5 over adapter 1.
abbrev pub on_five : Transport states_by_id channels_by_id
on_five = set_connection states_by_id channels_by_id 1 5 fresh

on_five_live : states_by_id.get on_five.state_manager 5 ≡ some connected
unfolding set_connection add_connection
on_five_live = states_by_id.get-put_at 5 5 connected fresh.state_manager

-- On session 6 over adapter 2, with session 5 never closed.
abbrev on_six : Transport states_by_id channels_by_id
on_six = set_connection states_by_id channels_by_id 2 6 on_five

on_six_older : states_by_id.get on_six.state_manager 5 ≡ some connected
unfolding set_connection add_connection
on_six_older = states_by_id.get-put_at 6 5 connected on_five.state_manager ∙ on_five_live

abbrev pub ping : Packet
ping = Message.one_way 1 (7 ∷ [])

close_current_example :
    Closed states_by_id channels_by_id 5
      (close_calls 1 late)
      done
      ping
      (ok tt)
      on_five
      (close_session states_by_id channels_by_id 5 late on_five)
    × Closed states_by_id channels_by_id 5
        (closes 1 ∷ [])
        done
        ping
        (ok tt)
        on_five
        (force_close_session states_by_id channels_by_id 5 on_five)
unfolding set_connection
close_current_example =
    close_current states_by_id channels_by_id 5 1 late done on_five ping (ok tt) refl refl
      on_five_live

close_older_example :
    let (res, u) = close_session states_by_id channels_by_id 5 done on_six in
    (res ≡ ok tt)
    × (u.calls ≡ close_calls 2 done ++ on_six.calls)
    × (is_connected states_by_id channels_by_id u ≡ true)
    × (u.session_id ≡ some 6)
    × (u.connection_adapter ≡ some 2)
    × (states_by_id.get u.state_manager 6 ≡ states_by_id.get on_six.state_manager 6)
unfolding set_connection
close_older_example =
    close_older states_by_id channels_by_id 5 6 2 done on_six (λ e. omega arith) refl refl
      on_six_older

-- A history with a reconnection, a request, an event and a close of each kind.
abbrev history : List Call
history =
    connects 1 5
    ∷ requests (Message.request 9 (1 ∷ [])) (ok tt)
    ∷ sees (Event.connection_closed Event.normal)
    ∷ connects 2 6
    ∷ closes_session 5 late
    ∷ forces_session 7
    ∷ disconnects done
    ∷ []

run-IsCoherent_example :
    IsCoherent states_by_id channels_by_id keeping
      (run states_by_id channels_by_id keeping history fresh)
run-IsCoherent_example =
    run-IsCoherent states_by_id channels_by_id keeping history fresh
      (new-IsCoherent states_by_id channels_by_id keeping)

abbrev pub question : Packet
question = Message.request 9 (1 ∷ [])

abbrev answer : Packet
answer = Message.response 9 (2 ∷ [])

-- Between the request and its response, a send, another request and an event.
abbrev between : List Call
between =
    sends_packet ping (ok tt)
    ∷ requests (Message.request 8 []) (ok tt)
    ∷ sees (Event.message_received ping)
    ∷ []

request_answered_example :
    let u =
      run states_by_id channels_by_id keeping between
        (start_request states_by_id channels_by_id question (ok tt) on_five).1 in
    let v = on_event states_by_id channels_by_id keeping (Event.message_received answer) u in
    (awaited 0 elapsed v.request_tracker.sent ≡ ok answer)
    × (waiting states_by_id channels_by_id keeping v 9 ≡ none)
    × (v.events ≡ u.events)
unfolding start_request register_and_send send register_with_id Transport.new set_connection
    Tracker.new Tracker.new_with_start_id Message.request Message.new Header.new Message.set_payload
    Message.response Message.one_way
request_answered_example =
    request_answered states_by_id channels_by_id keeping question (ok tt) on_five 0 between answer
      elapsed refl (λ e. cc, λ e. cc, (λ e. ground arith, λ e. cc, (λ e. cc, λ e. cc, tt))) refl
      refl

-- Three bytes to be compressed with zlib.
abbrev packed_options : TransportOptions
packed_options = with_compression Header.zlib (with_biz_type 3 default_options)

options_delivered_example :
    let (sent, u) =
      send_with_options states_by_id channels_by_id keeping
        (1 ∷ 2 ∷ 3 ∷ [])
        packed_options
        (ok tt)
        on_five in
    let (started, v) =
      start_request_with_options states_by_id channels_by_id keeping
        (1 ∷ 2 ∷ 3 ∷ [])
        packed_options
        (ok tt)
        on_five in
    ((q : Packet) × (u.calls ≡ sends 1 q ∷ on_five.calls)
      × (sent ≡ ok tt)
      × Arrives keeping Header.one_way packed_options (1 ∷ 2 ∷ 3 ∷ []) (1 ∷ 2 ∷ 3 ∷ []) (4 ∷ []) q)
    × ((q : Packet) × (v.calls ≡ sends 1 q ∷ on_five.calls)
        × (started ≡ ok 0)
        × Arrives keeping Header.request packed_options
            (1 ∷ 2 ∷ 3 ∷ [])
            (1 ∷ 2 ∷ 3 ∷ [])
            (4 ∷ [])
            q)
unfolding set_connection Transport.new Tracker.new Tracker.new_with_start_id with_compression
    with_biz_type default_options compress_data
options_delivered_example =
    options_delivered keeping states_by_id channels_by_id keeping-Documented (1 ∷ 2 ∷ 3 ∷ [])
      packed_options (1 ∷ 2 ∷ 3 ∷ []) (4 ∷ []) 5 1 (ok tt) on_five refl refl (omega arith)
      (record { biz_small = omega arith; ext_small = omega arith; id_small = omega arith })
      (omega arith) refl (omega arith)
