-- ===== src/Event/Respond.antt =====
-- src/event.rs: how often the closure of a request runs.
use msgtrans_rust.Base.{
  ℕ, ◌+◌, ◌<◌, ◌≡◌, refl, arith, Bool, false, ◌||◌, List, [], ◌∷◌, some, ◌==◌, if◌then◌else◌,
  member, Bool-cases, ==_iff, inl, inr, sym,
}
use msgtrans_rust.Event.{Responder, RequestContext, request_received}
use msgtrans_rust.Event.Contexts.{
  TransportContext, oneway, request, Responses, respond_once, respond, respond_bytes, new_request,
}
use msgtrans_rust.Event.Conversion.{ServerEvent, from_transport_event_with_session}

-- A call of `respond` or `respond_bytes` by some task, on a context or a clone of it.
pub data Attempt : Type 0 where
  answers : TransportContext → List ℕ → Attempt
  answers_request : RequestContext → List ℕ → Attempt

unfoldable pub attempt : Attempt → Responses → Responses
attempt (answers c response) r = respond c response r
attempt (answers_request c response) r = respond_bytes c response r

unfoldable pub attempt_all : List Attempt → Responses → Responses
attempt_all [] r = r
attempt_all (a ∷ attempts) r = attempt_all attempts (attempt a r)

-- Whether a call is on a context with the flag.
abbrev pub concerns : ℕ → Attempt → Bool
concerns flag (answers c response) = elim c.kind [
  | oneway ↦ false
  | request responder responded is_primary ↦ responded == flag
]
concerns flag (answers_request c response) = c.responded == flag

abbrev pub some_concerns : ℕ → List Attempt → Bool
some_concerns flag [] = false
some_concerns flag (a ∷ attempts) = concerns flag a || some_concerns flag attempts

-- How often the closure behind a flag has run.
abbrev pub runs_of : ℕ → List (ℕ × Responder × List ℕ) → ℕ
runs_of flag [] = 0
runs_of flag (c ∷ calls) = (if c.0 == flag then 1 else 0) + runs_of flag calls

respond_once-runs_of :
    (flag f : ℕ) (responder : Responder) (response : List ℕ) (r : Responses)
    → (runs_of flag (respond_once f responder response r).calls
        ≡ runs_of flag r.calls + (if member flag r.raised then 0 else if f == flag then 1 else 0))
      × (member flag (respond_once f responder response r).raised
          ≡ (member flag r.raised || (f == flag)))
unfolding respond_once
respond_once-runs_of flag f responder response r = elim (Bool-cases (f == flag)) [
  | inl e ↦ rw (sym ((==_iff f flag).0 e)) (ground (arith, Bool-cases (member f r.raised)))
  | inr e ↦ ground arith
]

-- What one call adds to the runs and to the raised flags.
attempt-runs_of :
    (flag : ℕ) (a : Attempt) (r : Responses)
    → (runs_of flag (attempt a r).calls
        ≡ runs_of flag r.calls
          + (if member flag r.raised then 0 else if concerns flag a then 1 else 0))
      × (member flag (attempt a r).raised ≡ (member flag r.raised || concerns flag a))
unfolding attempt respond respond_bytes respond_once
attempt-runs_of flag (answers c response) r = ground (arith, respond_once-runs_of flag)
attempt-runs_of flag (answers_request c response) r =
    respond_once-runs_of flag c.responded c.responder response r

-- In any order of calls on any contexts and clones, the closure behind a flag that is not raised
-- runs exactly once if some call is on a context with that flag, and never otherwise; a closure
-- whose flag is raised does not run again.
pub attempt_all-runs_of :
    (flag : ℕ) (attempts : List Attempt) (r : Responses)
    → runs_of flag (attempt_all attempts r).calls
      ≡ runs_of flag r.calls
        + (if member flag r.raised then 0 else if some_concerns flag attempts then 1 else 0)
unfolding attempt_all
attempt_all-runs_of flag [] r = ground arith
attempt_all-runs_of flag (a ∷ attempts) r =
    ground (arith, attempt_all-runs_of flag attempts (attempt a r), attempt-runs_of flag a r)

-- A RequestContext whose flag is not raised, converted for a session, gives a context with the same
-- closure and another flag: when both are answered, the request is answered twice.
pub converted_answers_twice :
    (c : RequestContext) (id : ℕ) (first second : List ℕ) (r : Responses)
    → c.responded < r.flags
    → member c.responded r.raised ≡ false
    → member r.flags r.raised ≡ false
    → let (event, s) = from_transport_event_with_session (request_received c) id r in
      (context : TransportContext) × (event ≡ some (ServerEvent.message_received id context))
      × ((respond context second (respond_bytes c first s)).calls
          ≡ (r.flags, c.responder, second) ∷ (c.responded, c.responder, first) ∷ r.calls)
unfolding from_transport_event_with_session new_request respond respond_bytes respond_once
converted_answers_twice c id first second r made one two = (_, refl, ground arith)
