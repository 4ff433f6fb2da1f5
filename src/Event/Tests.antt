-- ===== src/Event/Tests.antt =====
-- Contexts and statistics at concrete histories.
use msgtrans_rust.Base.{◌≡◌, refl, arith, false, [], ◌∷◌, none, some}
use msgtrans_rust.Event.{RequestContext, to_session, request_received}
use msgtrans_rust.Event.Contexts.{TransportContext, request, Responses, respond, respond_bytes}
use msgtrans_rust.Event.Conversion.{ServerEvent, from_transport_event_with_session}
use msgtrans_rust.Event.Respond.{
  answers, attempt_all, runs_of, attempt_all-runs_of, converted_answers_twice,
}

-- The context of request 9 of session 5, with the first flag.
abbrev context : TransportContext
context = record {
  peer = some 5;
  message_id = 9;
  biz_type = 0;
  ext_header = none;
  bytes = 1 ∷ [];
  kind = request (to_session 5 9) 0 false;
}

abbrev one_flag : Responses
one_flag = record { flags = 1; raised = []; calls = [] }

attempt_all-runs_of_example :
    runs_of 0
      (attempt_all (answers context (1 ∷ []) ∷ answers context (2 ∷ []) ∷ []) one_flag).calls
    ≡ 1
attempt_all-runs_of_example =
    attempt_all-runs_of 0 (answers context (1 ∷ []) ∷ answers context (2 ∷ []) ∷ []) one_flag

abbrev asked : RequestContext
asked = record {
  peer = some 5;
  bytes = 1 ∷ [];
  request_id = 9;
  biz_type = 0;
  responder = to_session 5 9;
  responded = 0;
  is_primary = false;
}

converted_answers_twice_example :
    let (event, s) = from_transport_event_with_session (request_received asked) 5 one_flag in
    (c : TransportContext) × (event ≡ some (ServerEvent.message_received 5 c))
    × ((respond c (3 ∷ []) (respond_bytes asked (2 ∷ []) s)).calls
        ≡ (1, to_session 5 9, 3 ∷ []) ∷ (0, to_session 5 9, 2 ∷ []) ∷ [])
converted_answers_twice_example =
    converted_answers_twice asked 5 (2 ∷ []) (3 ∷ []) one_flag (omega arith) refl refl
