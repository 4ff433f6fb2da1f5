-- ===== src/Event/Results.antt =====
-- src/event.rs, TransportResult and TransportStatus: what a send or a request gives its caller.
use msgtrans_rust.Base.{ℕ, Bool, true, false, List, Option, none, some}

pub data TransportStatus : Type 0 where
  sent timeout connection_error completed : TransportStatus

pub record TransportResult : Type 0 where
  pub peer : Option ℕ
  pub message_id : ℕ
  pub bytes : Option (List ℕ)
  pub status : TransportStatus

unfoldable pub new_sent : Option ℕ → ℕ → TransportResult
new_sent peer message_id = record {
  peer = peer;
  message_id = message_id;
  bytes = none;
  status = sent;
}

unfoldable pub new_completed : Option ℕ → ℕ → List ℕ → TransportResult
new_completed peer message_id bytes = record {
  peer = peer;
  message_id = message_id;
  bytes = some bytes;
  status = completed;
}

unfoldable pub new_timeout : Option ℕ → ℕ → TransportResult
new_timeout peer message_id = record {
  peer = peer;
  message_id = message_id;
  bytes = none;
  status = timeout;
}

unfoldable pub new_connection_error : Option ℕ → ℕ → TransportResult
new_connection_error peer message_id = record {
  peer = peer;
  message_id = message_id;
  bytes = none;
  status = connection_error;
}

unfoldable pub is_sent : TransportResult → Bool
is_sent r = elim r.status [
  | sent ↦ true
  | completed ↦ true
  | timeout ↦ false
  | connection_error ↦ false
]

unfoldable pub has_response : TransportResult → Bool
has_response r = elim r.bytes [ none ↦ false | some bytes ↦ true ]
