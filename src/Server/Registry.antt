-- ===== src/Server/Registry.antt =====
-- src/transport/transport_server.rs: the three tables of sessions and the transports behind them.
pub mod Steps
pub mod Run
use msgtrans_rust.Base.{
  ℕ, ◌+◌, ◌%◌, ◌<◌, ◌≡◌, ◌⊎◌, inl, inr, refl, arith, Bool, true, false, List, [], ◌∷◌, ◌++◌, Option,
  none, some, ◌==◌, if◌then◌else◌, length, get_or, set, length-set, get_or-set, length-append,
  get_or-append,
}
use msgtrans_rust.Session.States.{
  ConnectionState, connected, closed, closing, add_connection, try_start_closing, mark_closed,
  remove_connection,
}
use msgtrans_rust.Command.{ConnectionInfo, new_stats}
use msgtrans_rust.Lockfree.Interface.{Dictionary}
use msgtrans_rust.Transport.{set_connection}
use msgtrans_rust.Server.{
  Tables, TransportServer, Object, blank, new, emit, object, put_object, generate_session_id,
  add_session, remove_session,
}
use msgtrans_rust.Server.Sessions.{accept}

abbrev pub present {ℓ} : {A : Type ℓ} → Option A → Bool
present none = false
present (some a) = true

module _ (D : Tables) where
  open D use {by_state, by_object, by_stats}

  -- Every session stands in all three tables or in none, has a transport of its own, which is on
  -- that session or on none, and an id that has been handed out.
  pub record IsRegistered (s : TransportServer D) : Type 0 where
    pub with_stats :
        (id : ℕ) → present (by_object.get s.transports id) ≡ present (by_stats.get s.stats id)
    pub with_state :
        (id : ℕ)
        → present (by_object.get s.transports id) ≡ present (by_state.get s.state_manager id)
    pub made : (id o : ℕ) → by_object.get s.transports id ≡ some o → o < length s.objects
    pub own :
        (id j o : ℕ)
        → by_object.get s.transports id ≡ some o
        → by_object.get s.transports j ≡ some o
        → id ≡ j
    pub matched :
        (id o : ℕ)
        → by_object.get s.transports id ≡ some o
        → ((object D o s).session_id ≡ none) ⊎ ((object D o s).session_id ≡ some id)
    pub handed_out :
        (id o : ℕ) → by_object.get s.transports id ≡ some o → id < s.session_id_generator

  pub new-IsRegistered : IsRegistered (new D)
  unfolding new
  new-IsRegistered =
      let nothing = by_object.get-empty in
      record {
        with_stats = λ id. ground (arith, nothing id, by_stats.get-empty id);
        with_state = λ id. ground (arith, nothing id, by_state.get-empty id);
        made = λ id o e. cc (nothing id);
        own = λ id j o e f. cc (nothing id);
        matched = λ id o e. cc (nothing id);
        handed_out = λ id o e. cc (nothing id);
      }

  -- A change of transports, each of which stays on its session or leaves it, and of states that
  -- are there before and after.
  pub record Keeps (s u : TransportServer D) : Type 0 where
    pub same_transports : u.transports ≡ s.transports
    pub same_stats : u.stats ≡ s.stats
    pub same_generator : u.session_id_generator ≡ s.session_id_generator
    pub same_states :
        (id : ℕ)
        → present (by_state.get u.state_manager id) ≡ present (by_state.get s.state_manager id)
    pub same_length : length u.objects ≡ length s.objects
    pub same_session :
        (o : ℕ)
        → ((object D o u).session_id ≡ none)
          ⊎ ((object D o u).session_id ≡ (object D o s).session_id)

  pub Keeps-IsRegistered : (s u : TransportServer D) → Keeps s u → IsRegistered s → IsRegistered u
  Keeps-IsRegistered s u k v = record {
    with_stats = λ id. rw (k.same_transports, k.same_stats) (v.with_stats id);
    with_state = λ id. rw (k.same_transports, k.same_states id) (v.with_state id);
    made = λ id o e. rw k.same_length (v.made id o (rw⁻¹ k.same_transports e));
    own = λ id j o e f. v.own id j o (rw⁻¹ k.same_transports e) (rw⁻¹ k.same_transports f);
    matched = λ id o e. ground (arith, k.same_session o, v.matched id o (rw⁻¹ k.same_transports e));
    handed_out = λ id o e. rw k.same_generator (v.handed_out id o (rw⁻¹ k.same_transports e));
  }

  pub remove_session-IsRegistered :
      (id : ℕ) (s : TransportServer D) → IsRegistered s → IsRegistered (remove_session D id s)
  unfolding remove_session remove_connection
  remove_session-IsRegistered id s v =
      let gone = λ (j : ℕ). by_object.get-drop_at id j s.transports in
      record {
        with_stats = λ j. ground (arith, gone j, by_stats.get-drop_at id j s.stats, v.with_stats j);
        with_state =
            λ j. ground (arith, gone j, by_state.get-drop_at id j s.state_manager, v.with_state j);
        made = λ j o e. ground (arith, gone j, v.made j o);
        own = λ j i o e f. ground (arith, gone j, gone i, v.own j i o);
        matched = λ j o e. ground (arith, gone j, v.matched j o);
        handed_out = λ j o e. ground (arith, gone j, v.handed_out j o);
      }

  -- An accepted session gets an id that is not in use.
  pub accept-IsRegistered :
      (adapter : ℕ) (info : ConnectionInfo) (now : ℕ) (s : TransportServer D)
      → s.session_id_generator + 1 < 18446744073709551616
      → IsRegistered s
      → IsRegistered (accept D adapter info now s).1
  unfolding accept generate_session_id add_session emit set_connection add_connection
  accept-IsRegistered adapter info now s small v =
      let id = s.session_id_generator in
      let n = length s.objects in
      let put = λ (j : ℕ). by_object.get-put_at id j n s.transports in
      let t = set_connection D.by_state D.by_channel adapter id (blank D) in
      record {
        with_stats = λ j.
            ground (arith, put j, by_stats.get-put_at id j (new_stats now) s.stats, v.with_stats j);
        with_state = λ j.
            ground
              (arith, put j, by_state.get-put_at id j connected s.state_manager, v.with_state j);
        made = λ j o e. ground (arith, put j, v.made j o, length-append s.objects (t ∷ []));
        own = λ j i o e f. ground (arith, put j, put i, v.own j i o, v.made j o, v.made i o);
        matched = λ j o e.
            ground (arith, put j, v.made j o, v.matched j o, get_or-append s.objects t (blank D) o);
        handed_out = λ j o e. ground (arith, put j, v.handed_out j o);
      }
