-- ===== src/Pool/Ownership.antt =====
-- Who holds a connection of ConnectionPool (src/transport/pool.rs): a connection is queued exactly
-- while it is available, and the one that `get_connection` hands out is neither.
use msgtrans_rust.Base.{
  ℕ, zero, suc, ◌+◌, ◌<◌, ◌≤◌, ◌≡◌, ◌≢◌, ◌⊎◌, inl, inr, refl, arith, Bool, true, false, List, [],
  ◌∷◌, ◌++◌, Option, none, some, member, member-append, Unique, ok, err, Option-cases, List-cases,
}
use msgtrans_rust.TransportError.{resource}
use msgtrans_rust.Lockfree.Interface.{Dictionary}
use msgtrans_rust.Lockfree.Queue
use msgtrans_rust.Lockfree.Queue.{LockFreeQueue, word, push, pop}
use msgtrans_rust.Pool.{
  available, in_use, PoolConnection, ConnectionPool, new, create_one, create_many, get_connection,
  return_connection, plus, fresh_connection, initialize_pool, initialize_pool,
}

abbrev pub is_available : Option PoolConnection → Bool
is_available none = false
is_available (some c) = elim (c.state) [ available ↦ true | _ ↦ false ]

abbrev pub is_in_use : Option PoolConnection → Bool
is_in_use none = false
is_in_use (some c) = elim (c.state) [ in_use ↦ true | _ ↦ false ]

Unique-append : (xs : List ℕ) (k : ℕ) → Unique xs → member k xs ≡ false → Unique (xs ++ (k ∷ []))
Unique-append [] k u h = ground arith
Unique-append (x ∷ xs) k u h = ground (arith, member-append x xs (k ∷ []), Unique-append xs k u.1)

module _ (D : Dictionary PoolConnection) where
  open D use {Carrier, get, put_at, get-put_at, get-empty}

  -- The queue holds the available connections, each once, and ids from the counter on are unused.
  pub record IsOwned (p : ConnectionPool D) : Type 0 where
    pub queued :
        (k : ℕ)
        → member k p.available_connections.channel ≡ is_available (get p.active_connections k)
    pub once : Unique p.available_connections.channel
    pub unused : (k : ℕ) → p.connection_id_counter ≤ k → get p.active_connections k ≡ none

  pub new-IsOwned : (initial_size max_size : ℕ) → IsOwned (new D initial_size max_size)
  unfolding new Queue.new
  new-IsOwned initial_size max_size = record {
    queued = λ k. cc (get-empty k);
    once = tt;
    unused = λ k h. get-empty k;
  }

  -- What a hand-out and a return leave of a pool, as far as ownership goes.
  taken_once :
      (p q : ConnectionPool D) (k : ℕ) (rest : List ℕ) (c : PoolConnection)
      → IsOwned p
      → p.available_connections.channel ≡ k ∷ rest
      → c.state ≡ in_use
      → get p.active_connections k ≢ none
      → q.available_connections.channel ≡ rest
      → q.active_connections ≡ put_at k c p.active_connections
      → q.connection_id_counter ≡ p.connection_id_counter
      → IsOwned q
  taken_once p q k rest c v e s known e' m n =
      let put = λ (j : ℕ). get-put_at k j c p.active_connections in
      record {
        queued = λ j. ground (arith, put j, v.queued j, v.once);
        once = ground (arith, v.once);
        unused = λ j h. ground (arith, put j, v.unused j, v.unused k);
      }

  given_back :
      (p q : ConnectionPool D) (k : ℕ) (c : PoolConnection)
      → IsOwned p
      → is_available (get p.active_connections k) ≡ false
      → get p.active_connections k ≢ none
      → c.state ≡ available
      → q.available_connections.channel ≡ p.available_connections.channel ++ (k ∷ [])
      → q.active_connections ≡ put_at k c p.active_connections
      → q.connection_id_counter ≡ p.connection_id_counter
      → IsOwned q
  given_back p q k c v busy known s e m n =
      let put = λ (j : ℕ). get-put_at k j c p.active_connections in
      let before = p.available_connections.channel in
      record {
        queued = λ j. ground (arith, put j, v.queued j, member-append j before (k ∷ []));
        once = rw e (Unique-append before k v.once (ground (arith, v.queued k)));
        unused = λ j h. ground (arith, put j, v.unused j, v.unused k);
      }

  handed_out :
      (p : ConnectionPool D) (now wait k : ℕ) (rest : List ℕ)
      → p.available_connections.channel ≡ k ∷ rest
      → IsOwned p
      → ((get_connection D p now wait).0 ≡ ok k)
        × (is_available (get p.active_connections k) ≡ true)
        × (is_in_use (get (get_connection D p now wait).1.active_connections k) ≡ true)
        × IsOwned (get_connection D p now wait).1
  unfolding get_connection pop
  handed_out p now wait k rest e v = elim (Option-cases (get p.active_connections k)) [
    | inl missing ↦ absurd (ground (arith, v.queued k))
    | inr (c, found) ↦
        let c' : PoolConnection = record c {
          state = in_use;
          last_used = now;
          use_count = plus c.use_count 1;
        } in
        (
          ground (arith, found),
          ground (arith, v.queued k),
          ground (arith, found, get-put_at k k c' p.active_connections),
          taken_once p _ k rest c' v e refl (λ h. cc) (ground (arith, found))
              (ground (arith, found)) (ground (arith, found)),
        )
  ]

  -- In an owned pool `get_connection` either finds the queue empty, fails and changes nothing; or
  -- it hands out a connection that was available and is then in use, and the pool stays owned.
  pub get_connection-IsOwned :
      (p : ConnectionPool D) (now wait : ℕ)
      → IsOwned p
      → ((p.available_connections.channel ≡ [])
          × (get_connection D p now wait ≡ (err (resource "connection_pool" 0 p.max_size), p)))
        ⊎ ((k : ℕ) × ((get_connection D p now wait).0 ≡ ok k)
            × (is_available (get p.active_connections k) ≡ true)
            × (is_in_use (get (get_connection D p now wait).1.active_connections k) ≡ true)
            × IsOwned (get_connection D p now wait).1)
  unfolding get_connection pop
  get_connection-IsOwned p now wait v = elim (List-cases p.available_connections.channel) [
    | inl e ↦ inl (e, ground arith)
    | inr (k, rest, e) ↦
        let (answer, was, is, owned) = handed_out p now wait k rest e v in
        inr (k, answer, was, is, owned)
  ]

  -- In an owned pool, returning a connection that is in use succeeds and makes it available, and
  -- the pool stays owned.
  pub return_connection-IsOwned :
      (p : ConnectionPool D) (k now : ℕ)
      → IsOwned p
      → is_in_use (get p.active_connections k) ≡ true
      → ((return_connection D p k now).0 ≡ ok tt)
        × (is_available (get (return_connection D p k now).1.active_connections k) ≡ true)
        × IsOwned (return_connection D p k now).1
  unfolding return_connection push
  return_connection-IsOwned p k now v busy = elim (Option-cases (get p.active_connections k)) [
    | inl missing ↦ absurd (ground arith)
    | inr (c, found) ↦
        let c' : PoolConnection = record c { state = available; last_used = now } in
        (
          ground (arith, found),
          ground (arith, found, get-put_at k k c' p.active_connections),
          given_back p _ k c' v (ground arith) (λ h. cc) refl (ground (arith, found))
              (ground (arith, found)) (ground (arith, found)),
        )
  ]

  -- When a connection that is in use is returned twice and the queue was empty, two calls of
  -- `get_connection` in a row both hand it out.
  pub returned_twice :
      (p : ConnectionPool D) (k now wait : ℕ)
      → is_in_use (get p.active_connections k) ≡ true
      → p.available_connections.channel ≡ []
      → let twice = (return_connection D (return_connection D p k now).1 k now).1 in
        let (first, q) = get_connection D twice now wait in
        (first ≡ ok k) × ((get_connection D q now wait).0 ≡ ok k)
  unfolding return_connection get_connection push pop
  returned_twice p k now wait busy e = elim (Option-cases (get p.active_connections k)) [
    | inl missing ↦ absurd (ground arith)
    | inr (c, found) ↦
        let free : PoolConnection = record c { state = available; last_used = now } in
        let held : PoolConnection = record free {
          state = in_use;
          last_used = now;
          use_count = plus c.use_count 1;
        } in
        let once = put_at k free p.active_connections in
        let twice = put_at k free once in
        ground (
          arith,
          found,
          get-put_at k k free p.active_connections,
          get-put_at k k free once,
          get-put_at k k held twice,
        )
  ]

  create_one-IsOwned :
      (p : ConnectionPool D) (now : ℕ)
      → p.connection_id_counter + 1 < word
      → IsOwned p
      → IsOwned (create_one D now p)
  unfolding create_one push
  create_one-IsOwned p now h v =
      let id = p.connection_id_counter in
      let before = p.available_connections.channel in
      let put = λ (j : ℕ). get-put_at id j (fresh_connection id now) p.active_connections in
      let new_one = v.unused id (omega arith) in
      record {
        queued = λ j. ground (arith, put j, v.queued j, member-append j before (id ∷ []), new_one);
        once = Unique-append before id v.once (ground (arith, v.queued id, new_one));
        unused = λ j above. ground (arith, put j, v.unused j);
      }

  pub create_many-IsOwned :
      (n now : ℕ) (p : ConnectionPool D)
      → p.connection_id_counter + n < word
      → IsOwned p
      → IsOwned (create_many D n now p)
        × ((create_many D n now p).connection_id_counter ≡ p.connection_id_counter + n)
  unfolding create_many
  create_many-IsOwned zero now p h v = (v, omega arith)
  create_many-IsOwned (suc n) now p h v =
      let created = create_one D now p in
      let counter : created.connection_id_counter ≡ p.connection_id_counter + 1 =
        unfold create_one in omega arith in
      let (owned, count) =
        create_many-IsOwned n now created (omega (arith, counter))
          (create_one-IsOwned p now (omega arith) v) in
      (owned, omega (arith, count, counter))

  -- A pool that has just been made and initialized is owned, and its ids are those below its initial
  -- size, if that is below 2^64.
  pub initialize_pool-IsOwned :
      (initial_size max_size now : ℕ)
      → initial_size < word
      → IsOwned (initialize_pool D (new D initial_size max_size) now)
        × ((initialize_pool D (new D initial_size max_size) now).connection_id_counter
            ≡ initial_size)
  unfolding initialize_pool new
  initialize_pool-IsOwned initial_size max_size now h =
      let (owned, count) =
        create_many-IsOwned initial_size now (new D initial_size max_size) (omega (arith, h))
          (new-IsOwned initial_size max_size) in
      (owned, omega (arith, count))
