-- ===== src/Session/Requests/Laws.antt =====
-- RequestManager (src/transport/request_manager.rs): each response reaches one request at most.
use msgtrans_rust.Base.{
  ℕ, ◌+◌, ◌<◌, ◌≡◌, ◌≢◌, ◌⊎◌, inl, inr, refl, arith, true, false, List, [], ◌∷◌, map, none, some,
  if◌then◌else◌, member, member-below, Unique, All, Option-cases,
}
use msgtrans_rust.Packet.Message.{Packet}
use msgtrans_rust.Lockfree.Interface.{Dictionary}
use msgtrans_rust.Session.Requests.{
  RequestManager, new, register, complete, drop_all, clear, Call, registers, completes, clears,
  step, run,
}

abbrev pub channels_of : List (ℕ × Packet) → List ℕ
channels_of = map (λ e. e.0)

All-lt_suc : (n : ℕ) (xs : List ℕ) → All (λ c. c < n) xs → All (λ c. c < n + 1) xs
All-lt_suc n [] h = tt
All-lt_suc n (x ∷ xs) h = (omega arith, All-lt_suc n xs h.1)

module _ (D : Dictionary ℕ) where
  open D use {
    Carrier, get, put_at, drop_at, all_keys, get-put_at, get-drop_at, get-empty, keys_complete,
  }

  complete_found :
      (s : RequestManager D) (id c : ℕ) (p : Packet)
      → get s.pending id ≡ some c
      → complete D s id p
        ≡ (true, record s { pending = drop_at id s.pending; sent = (c, p) ∷ s.sent })
  unfolding complete
  complete_found s id c p e = rw (e, complete)

  complete_missing :
      (s : RequestManager D) (id : ℕ) (p : Packet)
      → get s.pending id ≡ none
      → complete D s id p ≡ (false, record s { pending = drop_at id s.pending })
  unfolding complete
  complete_missing s id p e = rw (e, complete)

  -- The id that `register` returned leads to the channel that it returned: the first `complete`
  -- under it answers true and sends its packet there and nowhere else, and a second one answers
  -- false and sends nothing.
  pub complete-register :
      (s : RequestManager D) (p q : Packet)
      → let ((id, channel), t) = register D s in
        let (found, u) = complete D t id p in
        let (again, v) = complete D u id q in
        (found ≡ true) × (u.sent ≡ (channel, p) ∷ s.sent) × (again ≡ false) × (v.sent ≡ u.sent)
  unfolding register
  complete-register s p q =
      let id = s.message_id_counter in
      let c = s.channels in
      let t = (register D s).1 in
      let u : RequestManager D = record t {
        pending = drop_at id t.pending;
        sent = (c, p) ∷ t.sent;
      } in
      ground (
        arith,
        get-put_at id id c s.pending,
        get-drop_at id id t.pending,
        complete_found t id c p,
        complete_missing u id q,
      )

  -- The channels that a manager knows: pending ones have been made, have been sent nothing, and stand
  -- under one id each; no channel has been sent two packets.
  pub record IsValid (s : RequestManager D) : Type 0 where
    pub pending_made : (k c : ℕ) → get s.pending k ≡ some c → c < s.channels
    pub pending_open : (k c : ℕ) → get s.pending k ≡ some c → member c (channels_of s.sent) ≡ false
    pub pending_once : (k j c : ℕ) → get s.pending k ≡ some c → get s.pending j ≡ some c → k ≡ j
    pub sent_made : All (λ c. c < s.channels) (channels_of s.sent)
    pub sent_once : Unique (channels_of s.sent)

  pub new-IsValid : IsValid (new D)
  unfolding new
  new-IsValid = record {
    pending_made = λ k c e. cc (get-empty k);
    pending_open = λ k c e. refl;
    pending_once = λ k j c e f. cc (get-empty k);
    sent_made = tt;
    sent_once = tt;
  }

  drop_all-none :
      (ks : List ℕ) (c : Carrier) (k : ℕ)
      → get (drop_all D ks c) k ≡ (if member k ks then none else get c k)
  unfolding drop_all
  drop_all-none [] c k = refl
  drop_all-none (j ∷ ks) c k = ground (arith, drop_all-none ks (drop_at j c) k, get-drop_at j k c)

  -- `clear` leaves no request pending and sends nothing.
  pub clear-none :
      (s : RequestManager D) (k : ℕ)
      → (get (clear D s).pending k ≡ none) × ((clear D s).sent ≡ s.sent)
  unfolding clear
  clear-none s k = (
    ground (arith, drop_all-none (all_keys s.pending) s.pending k, keys_complete s.pending k),
    refl,
  )

  register-IsValid : (s : RequestManager D) → IsValid s → IsValid (register D s).1
  unfolding register
  register-IsValid s v =
      let put = λ (k : ℕ). get-put_at s.message_id_counter k s.channels s.pending in
      let fresh = member-below s.channels (channels_of s.sent) v.sent_made in
      record {
        pending_made = λ k c e. ground (arith, put k, v.pending_made k c);
        pending_open = λ k c e. ground (arith, put k, v.pending_open k c, fresh);
        pending_once = λ k j c e f.
            ground
              (arith, put k, put j, v.pending_once k j c, v.pending_made k c, v.pending_made j c);
        sent_made = All-lt_suc s.channels (channels_of s.sent) v.sent_made;
        sent_once = v.sent_once;
      }

  answer-IsValid :
      (s : RequestManager D) (id c : ℕ) (p : Packet)
      → IsValid s
      → get s.pending id ≡ some c
      → IsValid (record s { pending = drop_at id s.pending; sent = (c, p) ∷ s.sent })
  answer-IsValid s id c p v found =
      let drop = λ (k : ℕ). get-drop_at id k s.pending in
      record {
        pending_made = λ k d e. ground (arith, drop k, v.pending_made k d);
        pending_open = λ k d e. ground (arith, drop k, v.pending_open k d, v.pending_once k id c);
        pending_once = λ k j d e f. ground (arith, drop k, drop j, v.pending_once k j d);
        sent_made = (v.pending_made id c found, v.sent_made);
        sent_once = (v.pending_open id c found, v.sent_once);
      }

  -- Fewer pending requests are no harm.
  shrink-IsValid :
      (s : RequestManager D) (c' : Carrier)
      → ((k : ℕ) → (get c' k ≡ none) ⊎ (get c' k ≡ get s.pending k))
      → IsValid s
      → IsValid (record s { pending = c' })
  shrink-IsValid s c' sub v = record {
    pending_made = λ k c e. ground (arith, sub k, v.pending_made k c);
    pending_open = λ k c e. ground (arith, sub k, v.pending_open k c);
    pending_once = λ k j c e f. ground (arith, sub k, sub j, v.pending_once k j c);
    sent_made = v.sent_made;
    sent_once = v.sent_once;
  }

  clear-IsValid : (s : RequestManager D) → IsValid s → IsValid (clear D s)
  unfolding clear
  clear-IsValid s v = shrink-IsValid s _ (λ k. inl (clear-none s k).0) v

  step-IsValid : (c : Call) (s : RequestManager D) → IsValid s → IsValid (step D c s)
  unfolding step
  step-IsValid registers s v = register-IsValid s v
  step-IsValid clears s v = clear-IsValid s v
  step-IsValid (completes id p) s v = elim (Option-cases (get s.pending id)) [
    | inl e ↦
        rw (complete_missing s id p e, step)
          (shrink-IsValid s _ (λ k. ground (arith, get-drop_at id k s.pending)) v)
    | inr (c, e) ↦ rw (complete_found s id c p e, step) (answer-IsValid s id c p v e)
  ]

  -- From a valid manager every history of registrations, completions and clearings leads to a
  -- valid one: no channel has been sent two packets, a pending request has a channel of its own
  -- that exists and has been sent nothing, and only channels that exist have been sent anything.
  pub run-IsValid : (cs : List Call) (s : RequestManager D) → IsValid s → IsValid (run D cs s)
  unfolding run
  run-IsValid [] s v = v
  run-IsValid (c ∷ cs) s v = run-IsValid cs (step D c s) (step-IsValid c s v)

  -- In a valid manager whose next id is still pending, a registration takes the place of the
  -- older request: afterwards no id leads to its channel.
  pub register_overwrites :
      (s : RequestManager D) (old k : ℕ)
      → IsValid s
      → get s.pending s.message_id_counter ≡ some old
      → get (register D s).1.pending k ≢ some old
  unfolding register
  register_overwrites s old k v pending e = ground (
    arith,
    get-put_at s.message_id_counter k s.channels s.pending,
    v.pending_once k s.message_id_counter old,
    v.pending_made s.message_id_counter old pending,
  )
