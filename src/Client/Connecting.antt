-- ===== src/Client/Connecting.antt =====
-- src/transport/client.rs: the attempts to connect, connecting and disconnecting, and the ids of
-- requests.
use msgtrans_rust.Base.{
  ℕ, zero, suc, ◌+◌, ◌<◌, ◌≤◌, ◌≡◌, ◌≢◌, ◌⊎◌, inl, inr, refl, arith, true, List, ◌∷◌, Option, none,
  some, Result, ok, err, sym, ap, ◌∙◌,
}
use msgtrans_rust.Packet.Header
use msgtrans_rust.Packet.Header.{PacketType}
use msgtrans_rust.Packet.Message
use msgtrans_rust.Packet.Message.{Packet}
use msgtrans_rust.Packet.Compress.{Codecs, compress_payload}
use msgtrans_rust.TransportError.{TransportError}
use msgtrans_rust.Lockfree.Interface.{Dictionary}
use msgtrans_rust.Session.States.{ConnectionState}
use msgtrans_rust.Transport.{Transport, sends, set_connection, is_connected, send}
use msgtrans_rust.Transport.Messages.{register_and_send, start_request}
use msgtrans_rust.Transport.Options.{
  TransportOptions, plain_packet, options_packet, choose_id, start_request_with_options,
}
use msgtrans_rust.Transport.Tracker.{fetch_id, register_with_id}
use msgtrans_rust.Transport.Requests.{waiting}
use native.Mathlib.Decide.{dec_lt}
use msgtrans_rust.Client.{
  Attempt, connects, fails, ProtocolConfig, tcp, websocket, quic, unknown, TransportClient,
  try_connect, connect_with_stored_config, fetch_message_id, request,
}

abbrev pub Failed : Attempt → Type 0
Failed a = (e : TransportError) × (a ≡ fails e)

-- A configuration of the type of its protocol.
abbrev pub Typed : ProtocolConfig → Type 0
Typed (tcp typed) = typed ≡ true
Typed (websocket typed) = typed ≡ true
Typed (quic typed) = typed ≡ true
Typed (unknown reason) = ⊥

Attempt-cases : (a : Attempt) → ((adapter : ℕ) × (id : ℕ) × (a ≡ connects adapter id)) ⊎ Failed a
Attempt-cases (connects adapter id) = inl (adapter, id, refl)
Attempt-cases (fails e) = inr (e, refl)

module _ (S : Dictionary ConnectionState) (R : Dictionary ℕ) where
  -- All attempts from a number on and below another one have failed.
  abbrev pub AllFailed : ℕ → ℕ → (ℕ → Attempt) → Type 0
  AllFailed from to attempts = (j : ℕ) → from ≤ j → j < to → Failed (attempts j)

  -- Of `left` attempts from a number on, the first that succeeds, or that all fail.
  abbrev pub Tried :
      ℕ → ℕ → (ℕ → Attempt) → Transport S R → Result ℕ TransportError × Transport S R → Type 0
  Tried left from attempts t out =
      ((i : ℕ) × (adapter : ℕ) × (id : ℕ) × (i < from + left)
        × (attempts i ≡ connects adapter id)
        × AllFailed from i attempts
        × (out ≡ (ok id, set_connection S R adapter id t)))
      ⊎ ((e : TransportError) × AllFailed from (from + left) attempts
          × ((l : ℕ) → left ≡ suc l → attempts (from + l) ≡ fails e)
          × (out ≡ (err e, t)))

  extend :
      (from to : ℕ) (attempts : ℕ → Attempt)
      → Failed (attempts from)
      → AllFailed (from + 1) to attempts
      → AllFailed from to attempts
  extend from to attempts h rest j low high = elim (dec_lt from j) [
    | yes later ↦ rest j (omega arith) high
    | no first ↦ let same : from ≡ j = omega arith in rw⁻¹ same h
  ]

  widen :
      (from to to' : ℕ) (attempts : ℕ → Attempt)
      → to ≡ to'
      → AllFailed from to attempts
      → AllFailed from to' attempts
  widen from to to' attempts e h j low high = h j low (omega arith)

  last_failed :
      (left from : ℕ) (attempts : ℕ → Attempt) (x y : TransportError) (t : Transport S R)
      → attempts from ≡ fails x
      → ((l : ℕ) → left ≡ suc l → attempts (from + 1 + l) ≡ fails y)
      → try_connect S R left (from + 1) attempts (some x) t ≡ (err y, t)
      → (l : ℕ) → suc left ≡ suc l
      → attempts (from + l) ≡ fails y
  unfolding try_connect
  last_failed zero from attempts x y t e last out l h =
      let here : from + l ≡ from = omega arith in
      let same : x ≡ y = cc out in ap attempts here ∙ e ∙ ap fails same
  last_failed (suc left) from attempts x y t e last out l h =
      let here : from + l ≡ from + 1 + left = omega arith in ap attempts here ∙ last left refl

  try_connect-Tried :
      (left from : ℕ) (attempts : ℕ → Attempt) (last_error : Option TransportError)
      (t : Transport S R)
      → Tried left from attempts t (try_connect S R left from attempts last_error t)
  unfolding try_connect
  try_connect-Tried zero from attempts none t =
      inr (_, λ j low h. absurd (omega arith), λ l h. absurd (omega arith), refl)
  try_connect-Tried zero from attempts (some e) t =
      inr (e, λ j low h. absurd (omega arith), λ l h. absurd (omega arith), refl)
  try_connect-Tried (suc left) from attempts last_error t = elim (Attempt-cases (attempts from)) [
    | inl (adapter, id, e) ↦ inl (
      from,
      adapter,
      id,
      omega arith,
      e,
      λ j low h. absurd (omega arith),
      rw (try_connect, e) refl,
    )
    | inr (x, e) ↦ elim (try_connect-Tried left (from + 1) attempts (some x) t) [
      | inl (i, adapter, id, below, found, failed, out) ↦ inl (
        i,
        adapter,
        id,
        omega arith,
        found,
        extend from i attempts (x, e) failed,
        rw (try_connect, e) out,
      )
      | inr (y, failed, last, out) ↦ inr (
        y,
        widen from (from + 1 + left) (from + suc left) attempts (omega arith)
            (extend from (from + 1 + left) attempts (x, e) failed),
        last_failed left from attempts x y t e last out,
        rw (try_connect, e) out,
      )
    ]
  ]

  -- With a configuration of its protocol's type, connecting makes at most `max_retries + 1`
  -- attempts, in order: it ends with the first that succeeds, whose adapter and session the
  -- transport is then on, or, when all of them fail, with the error of the last one and the
  -- transport as it was.
  pub connect_with_stored_config-Tried :
      (config : ProtocolConfig) (max_retries : ℕ) (attempts : ℕ → Attempt) (t : Transport S R)
      → Typed config
      → Tried
          (suc max_retries)
          0
          attempts
          t
          (connect_with_stored_config S R config max_retries attempts t)
  unfolding connect_with_stored_config
  connect_with_stored_config-Tried (tcp typed) max_retries attempts t h =
      rw (h, connect_with_stored_config) (try_connect-Tried (suc max_retries) 0 attempts none t)
  connect_with_stored_config-Tried (websocket typed) max_retries attempts t h =
      rw (h, connect_with_stored_config) (try_connect-Tried (suc max_retries) 0 attempts none t)
  connect_with_stored_config-Tried (quic typed) max_retries attempts t h =
      rw (h, connect_with_stored_config) (try_connect-Tried (suc max_retries) 0 attempts none t)
  connect_with_stored_config-Tried (unknown reason) max_retries attempts t h = absurd h

  -- A packet that is made from options has the id that it was given.
  options_packet_id :
      (c : Codecs) (t : PacketType) (bytes : List ℕ) (o : TransportOptions) (j : ℕ)
      → (options_packet c t bytes o j).header.message_id ≡ j
  unfolding options_packet plain_packet compress_payload
  options_packet_id c t bytes o j = ground arith

  -- What a request that is sent under an id leaves: a packet with that id on the adapter, and the
  -- next channel under the id, in the table that there was.
  abbrev pub Sent : ℕ → ℕ → Transport S R → Transport S R → Type 0
  Sent j adapter t u =
      ((q : Packet) × (u.calls ≡ sends adapter q ∷ t.calls) × (q.header.message_id ≡ j))
      × (u.request_tracker.pending
          ≡ R.put_at j t.request_tracker.channels t.request_tracker.pending)

  register-Sent :
      (j id adapter : ℕ) (p : Packet) (t : Transport S R)
      → t.session_id ≡ some id
      → t.connection_adapter ≡ some adapter
      → p.header.message_id ≡ j
      → Sent j adapter t (register_and_send S R j p (ok tt) t).1
  unfolding register_and_send register_with_id send
  register-Sent j id adapter p t on held e = ((p, ground arith, e), ground arith)

  fetch_registered :
      (o : TransportOptions) (bytes : List ℕ) (c : Codecs) (t : Transport S R) (id adapter : ℕ)
      → o.message_id ≡ none
      → t.session_id ≡ some id
      → t.connection_adapter ≡ some adapter
      → let (answer, u) = start_request_with_options S R c bytes o (ok tt) t in
        (answer ≡ ok t.request_tracker.channels) × Sent t.request_tracker.next_id adapter t u
  unfolding start_request_with_options register_and_send register_with_id choose_id fetch_id send
  fetch_registered o bytes c t id adapter unset on held =
      let j = t.request_tracker.next_id in
      let q = options_packet c Header.request bytes o j in
      (
        ground arith,
        ((q, ground arith, options_packet_id c Header.request bytes o j), ground arith),
      )

  request_registered :
      (bytes : List ℕ) (client : TransportClient S R) (id adapter : ℕ)
      → client.inner.session_id ≡ some id
      → client.inner.connection_adapter ≡ some adapter
      → let t = client.inner in
        let (answer, after) = request S R bytes (ok tt) client in
        (answer ≡ ok (client.message_id_counter, t.request_tracker.channels))
        × (after.inner.session_id ≡ some id)
        × (after.inner.connection_adapter ≡ some adapter)
        × (after.inner.request_tracker.next_id ≡ t.request_tracker.next_id)
        × (after.inner.request_tracker.channels ≡ t.request_tracker.channels + 1)
        × Sent client.message_id_counter adapter t after.inner
  unfolding request is_connected fetch_message_id start_request register_and_send register_with_id
      send Message.request Message.new Header.new Message.set_payload
  request_registered bytes client id adapter on held = (
    ground arith,
    ground arith,
    ground arith,
    ground arith,
    ground arith,
    ((Message.request client.message_id_counter bytes, ground arith, refl), ground arith),
  )

  replaced :
      (m n j : ℕ) (pending : R.Carrier)
      → (R.get pending j ≡ some n → n < n)
      → R.get (R.put_at m (n + 1) (R.put_at m n pending)) j ≢ some n
  replaced m n j pending made found = ground (
    arith,
    R.get-put_at m j (n + 1) (R.put_at m n pending),
    R.get-put_at m j n pending,
    made,
    found,
  )

  -- A client is connected, its two counters agree, as they do in a new one, and its table has only
  -- channels that its transport has made. It makes a request and, before its response, one with
  -- options that give no id. Then the adapter is given two packets under the same message id; the id
  -- leads to the channel of the second request; and no id leads to the channel of the first.
  pub request_takes_over :
      (c : Codecs) (bytes more : List ℕ) (o : TransportOptions) (client : TransportClient S R)
      (id adapter : ℕ)
      → client.inner.session_id ≡ some id
      → client.inner.connection_adapter ≡ some adapter
      → client.message_id_counter ≡ client.inner.request_tracker.next_id
      → o.message_id ≡ none
      → ((j channel : ℕ)
          → waiting S R c client.inner j ≡ some channel
          → channel < client.inner.request_tracker.channels)
      → let m = client.message_id_counter in
        let n = client.inner.request_tracker.channels in
        let (first, after) = request S R bytes (ok tt) client in
        let (second, u) = start_request_with_options S R c more o (ok tt) after.inner in
        (first ≡ ok (m, n))
        × (second ≡ ok (n + 1))
        × ((p : Packet) × (q : Packet) × (u.calls
              ≡ sends adapter q ∷ sends adapter p ∷ client.inner.calls)
            × (p.header.message_id ≡ m)
            × (q.header.message_id ≡ m))
        × (waiting S R c u m ≡ some (n + 1))
        × ((j : ℕ) → waiting S R c u j ≢ some n)
  request_takes_over c bytes more o client id adapter on held same unset made =
      let m = client.message_id_counter in
      let n = client.inner.request_tracker.channels in
      let (first, on', held', next, more_channels, ((p, called, numbered), table)) =
        request_registered bytes client id adapter on held in
      let after = (request S R bytes (ok tt) client).1 in
      let u = (start_request_with_options S R c more o (ok tt) after.inner).1 in
      let (second, ((q, called', numbered'), table')) =
        fetch_registered o more c after.inner id adapter unset on' held' in
      let full : u.request_tracker.pending
          ≡ R.put_at m (n + 1) (R.put_at m n client.inner.request_tracker.pending) =
        cc in
      (
        first,
        second ∙ ap ok more_channels,
        (
          p,
          q,
          called' ∙ ap (λ calls. sends adapter q ∷ calls) called,
          numbered,
          numbered' ∙ next ∙ sym same,
        ),
        ap (λ table. R.get table m) full
            ∙ R.get-put_at m m (n + 1) (R.put_at m n client.inner.request_tracker.pending)
            ∙ ground arith,
        λ j found.
            replaced m n j client.inner.request_tracker.pending (made j n)
              (ap (λ table. R.get table j) (sym full) ∙ found),
      )
