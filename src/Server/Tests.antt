-- ===== src/Server/Tests.antt =====
-- A server at concrete histories, over the sharded map.
use msgtrans_rust.Base.{ℕ, ◌≡◌, refl, arith, Bool, false, List, [], ◌∷◌, some, ok}
use msgtrans_rust.Packet.Header
use msgtrans_rust.Packet.Message
use msgtrans_rust.Packet.Message.{Packet}
use msgtrans_rust.Packet.Tests.{keeping}
use msgtrans_rust.TransportError.{TransportError}
use msgtrans_rust.Command.{TransportStats, default_info}
use msgtrans_rust.Event
use msgtrans_rust.Event.Contexts.{no_responses}
use msgtrans_rust.Lockfree.Interface.{sharded}
use msgtrans_rust.Session.States.{connected, add_connection}
use msgtrans_rust.Transport.{set_connection, send, done, late}
use msgtrans_rust.Transport
use msgtrans_rust.Transport.Tracker
use msgtrans_rust.Transport.Tracker.{register_with_id}
use msgtrans_rust.Transport.Messages.{elapsed, start_request, register_and_send}
use msgtrans_rust.Transport.Coherence.{sends_packet}
use msgtrans_rust.Transport.Tests.{states_by_id, channels_by_id, on_five, ping, question}
use msgtrans_rust.Server.{
  Tables, TransportServer, object, add_session, remove_session, emit, generate_session_id,
}
use msgtrans_rust.Server.Events.{handle_transport_event}
use msgtrans_rust.Server
use msgtrans_rust.Server.Sessions.{
  returned, cut_off, at_close, at_second_close, overdue, accept, close_session, force_close_session,
  close_all_sessions,
}
use msgtrans_rust.Server.Registry.{IsRegistered, new-IsRegistered, accept-IsRegistered}
use msgtrans_rust.Server.Registry.Run.{
  Call, accepts, closes, sees, Room, step, run, run-IsRegistered,
}
use msgtrans_rust.Server.Closing.{
  Gone, ClosedWith, AllConnected, close_once, close_all_sessions-Gone,
}
use msgtrans_rust.Server.Answering.{Answered, request_response}

abbrev tables : Tables
tables = record {
  by_state = states_by_id;
  by_channel = channels_by_id;
  by_object = channels_by_id;
  by_stats = sharded TransportStats (λ k. k) 16 (omega arith);
}

abbrev never : TransportError → Bool
never e = false

abbrev started : TransportServer tables
started = Server.new tables

-- Session 1 over adapter 7.
abbrev with_one : TransportServer tables
with_one = (accept tables 7 (default_info 0) 0 started).1

with_one-IsRegistered : IsRegistered tables with_one
unfolding Server.new
with_one-IsRegistered =
    accept-IsRegistered tables 7 (default_info 0) 0 started (omega arith) (new-IsRegistered tables)

abbrev visits : List Call
visits =
    accepts 7 (default_info 0) 0
    ∷ accepts 8 (default_info 0) 1
    ∷ sees 1 (Event.connection_closed Event.normal)
    ∷ closes 2 (cut_off at_second_close)
    ∷ []

visits-Room : Room tables never visits started
unfolding step accept generate_session_id add_session emit remove_session handle_transport_event
    Server.new
visits-Room = (omega arith, (omega arith, (omega arith, (omega arith, tt))))

run-IsRegistered_example : IsRegistered tables (run tables never visits started)
run-IsRegistered_example =
    run-IsRegistered tables never visits started visits-Room (new-IsRegistered tables)

with_one_live : states_by_id.get with_one.state_manager 1 ≡ some connected
unfolding accept generate_session_id add_session emit add_connection Server.new
with_one_live = states_by_id.get-put_at 1 1 connected states_by_id.empty

with_one_found : channels_by_id.get with_one.transports 1 ≡ some 0
unfolding accept generate_session_id add_session emit Server.new
with_one_found = channels_by_id.get-put_at 1 1 0 channels_by_id.empty

close_once_example :
    (o : ℕ) × (channels_by_id.get with_one.transports 1 ≡ some o)
    × ClosedWith tables Event.normal 1 o
        (cut_off at_close)
        with_one
        (close_session tables 1 (cut_off at_close) with_one)
    × ClosedWith tables Event.forced 1 o
        (returned late)
        with_one
        (force_close_session tables 1 late with_one)
close_once_example =
    close_once tables 1 (cut_off at_close) late with_one with_one-IsRegistered with_one_live

with_one-AllConnected : AllConnected tables with_one
unfolding accept generate_session_id add_session emit add_connection Server.new
with_one-AllConnected id o e = ground (
  arith,
  channels_by_id.get-put_at 1 id 0 channels_by_id.empty,
  channels_by_id.get-empty id,
  states_by_id.get-put_at 1 id connected states_by_id.empty,
)

close_all_sessions-Gone_example :
    Gone tables 1 (close_all_sessions tables (λ id. overdue done) with_one)
close_all_sessions-Gone_example =
    close_all_sessions-Gone tables (λ id. overdue done) 1 with_one with_one-IsRegistered
      with_one-AllConnected

request_response_example :
    Answered tables never keeping states_by_id channels_by_id
      (start_request states_by_id channels_by_id question (ok tt) on_five).1
      0
      (sends_packet ping (ok tt) ∷ [])
      elapsed
      1
      0
      7
      question
      (9 ∷ [])
      (4 ∷ [])
      with_one
unfolding start_request register_and_send send register_with_id Transport.new set_connection
    Tracker.new Tracker.new_with_start_id Message.request Message.new Header.new Message.set_payload
    accept generate_session_id add_session emit Server.new no_responses
request_response_example =
    request_response tables never keeping states_by_id channels_by_id on_five (ok tt) 0
      (sends_packet ping (ok tt) ∷ []) elapsed 1 0 1 7 question (9 ∷ []) (4 ∷ []) with_one refl
      (λ e. cc, λ e. cc, tt) refl (omega arith) (omega arith) with_one_found (omega arith) refl refl
      refl
