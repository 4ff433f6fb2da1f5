-- ===== src/Event/Contexts.antt =====
-- src/event.rs, TransportContext and RequestContext: a request is answered through a closure that the
-- flag it shares with its clones lets run once. The store `Responses` has the flags and the calls of
-- the closures; `compare_exchange` on a flag is one step.
use msgtrans_rust.Base.{
  ℕ, ◌+◌, ◌-◌, length, take, Bool, true, false, List, [], ◌∷◌, Option, if◌then◌else◌, member,
}
use msgtrans_rust.Event.{Responder, RequestContext}

pub data TransportContextKind : Type 0 where
  oneway : TransportContextKind
  request : Responder → ℕ → Bool → TransportContextKind

pub record TransportContext : Type 0 where
  pub peer : Option ℕ
  pub message_id : ℕ
  pub biz_type : ℕ
  pub ext_header : Option (List ℕ)
  pub bytes : List ℕ
  pub kind : TransportContextKind

-- `flags` AtomicBools were made; `raised` are the true ones; `calls` are the calls of closures, each
-- with the flag that let it run, newest first.
pub record Responses : Type 0 where
  pub flags : ℕ
  pub raised : List ℕ
  pub calls : List (ℕ × Responder × List ℕ)

unfoldable pub no_responses : Responses
no_responses = record { flags = 0; raised = []; calls = [] }

-- `if responded.compare_exchange(false, true).is_ok() { responder(response) }`.
unfoldable pub respond_once : ℕ → Responder → List ℕ → Responses → Responses
respond_once flag responder response r =
    if member flag r.raised
    then r
    else record r { raised = flag ∷ r.raised; calls = (flag, responder, response) ∷ r.calls }

unfoldable pub new_oneway : Option ℕ → ℕ → ℕ → Option (List ℕ) → List ℕ → TransportContext
new_oneway peer message_id biz_type ext_header bytes = record {
  peer = peer;
  message_id = message_id;
  biz_type = biz_type;
  ext_header = ext_header;
  bytes = bytes;
  kind = oneway;
}

unfoldable pub new_request :
    Option ℕ
    → ℕ
    → ℕ
    → Option (List ℕ)
    → List ℕ
    → Responder
    → Responses
    → TransportContext × Responses
new_request peer message_id biz_type ext_header bytes responder r = (
  record {
    peer = peer;
    message_id = message_id;
    biz_type = biz_type;
    ext_header = ext_header;
    bytes = bytes;
    kind = request responder r.flags false;
  },
  record r { flags = r.flags + 1 },
)

unfoldable pub set_primary : TransportContext → TransportContext
set_primary c = elim c.kind [
  | oneway ↦ c
  | request responder responded is_primary ↦ record c { kind = request responder responded true }
]

unfoldable pub is_request : TransportContext → Bool
is_request c = elim c.kind [ oneway ↦ false | request responder responded is_primary ↦ true ]

unfoldable pub respond : TransportContext → List ℕ → Responses → Responses
respond c response r = elim c.kind [
  | oneway ↦ r
  | request responder responded is_primary ↦ respond_once responded responder response r
]

-- RequestContext.
unfoldable pub new_request_context :
    Option ℕ → List ℕ → ℕ → ℕ → Responder → Responses → RequestContext × Responses
new_request_context peer bytes request_id biz_type responder r = (
  record {
    peer = peer;
    bytes = bytes;
    request_id = request_id;
    biz_type = biz_type;
    responder = responder;
    responded = r.flags;
    is_primary = false;
  },
  record r { flags = r.flags + 1 },
)

unfoldable pub clone_request_context : RequestContext → RequestContext
clone_request_context c = record c { is_primary = false }

unfoldable pub set_primary_context : RequestContext → RequestContext
set_primary_context c = record c { is_primary = true }

unfoldable pub respond_bytes : RequestContext → List ℕ → Responses → Responses
respond_bytes c response r = respond_once c.responded c.responder response r

-- The calls of closures that a method added to the store, newest first.
unfoldable pub new_calls : Responses → Responses → List (ℕ × Responder × List ℕ)
new_calls before after = take (length after.calls - length before.calls) after.calls
