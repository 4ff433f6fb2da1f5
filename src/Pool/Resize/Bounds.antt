-- ===== src/Pool/Resize/Bounds.antt =====
-- Expansion and shrinking of ConnectionPool (src/transport/pool.rs) keep its size within its bounds.
use Prim.Native.Nat.{min}
use msgtrans_rust.Base.{
  ℕ, zero, suc, ◌+◌, ◌-◌, ◌<◌, ◌≤◌, ◌≡◌, ◌⊎◌, inl, inr, refl, arith, Bool, true, false, ◌∷◌, Option,
  some, ltb, Result, ok, err, List-cases, Bool-cases,
}
use msgtrans_rust.TransportError.{TransportError, resource}
use msgtrans_rust.Lockfree.Interface.{Dictionary}
use msgtrans_rust.Lockfree.Queue.{LockFreeQueue, word, pop}
use msgtrans_rust.Pool.{PoolConnection, ConnectionPool, create_one, create_many, minus, plus}
use msgtrans_rust.Pool.Ownership.{IsOwned, create_many-IsOwned}
use msgtrans_rust.Pool.Resize.{
  F64, advance_expansion_factor, new_size, expand_above, expand, remove_many, shrunk_size,
  try_shrink,
}

module _ (D : Dictionary PoolConnection) where
  create_many-total :
      (n now : ℕ) (p : ConnectionPool D)
      → p.stats.total_connections + n < word
      → ((create_many D n now p).stats.total_connections ≡ p.stats.total_connections + n)
        × ((create_many D n now p).max_size ≡ p.max_size)
  unfolding create_many create_one
  create_many-total zero now p h = (omega arith, refl)
  create_many-total (suc n) now p h =
      let (total, same) = create_many-total n now (create_one D now p) (omega arith) in
      (omega (arith, total), same)

module _ (F : F64) (D : Dictionary PoolConnection) where
  open D use {Carrier, get, drop_at, get-drop_at}

  advance-IsOwned :
      (p : ConnectionPool D) → IsOwned D p → IsOwned D (advance_expansion_factor F D p)
  unfolding advance_expansion_factor
  advance-IsOwned p v = ground arith

  -- The outcomes of an expansion: it answers false or an error and leaves the pool alone, or answers
  -- true and reaches the new size, within the maximum, and the pool is owned.
  abbrev pub Expanded :
      ConnectionPool D → Option (Result Bool TransportError × ConnectionPool D) → Type 0
  Expanded p answer =
      (answer ≡ some (ok false, p))
      ⊎ ((answer ≡ some (err (resource "connection_pool_expansion" (new_size F D p) p.max_size), p))
          × (p.max_size < new_size F D p))
      ⊎ ((q : ConnectionPool D) × (answer ≡ some (ok true, q))
          × (q.stats.total_connections ≡ new_size F D p)
          × (new_size F D p ≤ p.max_size)
          × IsOwned D q)

  expand_above-Expanded :
      (utilization threshold : F.Float) (now : ℕ) (p : ConnectionPool D)
      → IsOwned D p
      → p.connection_id_counter + p.max_size < word
      → p.stats.total_connections ≤ new_size F D p
      → Expanded p (expand_above F D utilization threshold now p)
  unfolding expand_above advance_expansion_factor
  expand_above-Expanded utilization threshold now p v ids grows =
      elim (Bool-cases (F.less utilization threshold)) [
        | inl low ↦ inl (ground arith)
        | inr high ↦ elim (Bool-cases (ltb p.max_size (new_size F D p))) [
          | inl over ↦ inr (inl (ground arith, ground arith))
          | inr fits ↦
              let n = new_size F D p - p.stats.total_connections in
              let (owned, count) = create_many-IsOwned D n now p (ground arith) v in
              let (total, same) = create_many-total D n now p (ground arith) in
              inr (
                inr (
                  advance_expansion_factor F D (create_many D n now p),
                  ground arith,
                  ground (arith, total),
                  ground arith,
                  advance-IsOwned (create_many D n now p) owned,
                ))
        ]
      ]

  expand-above :
      (threshold : F.Float) (now : ℕ) (p : ConnectionPool D)
      → p.stats.available_connections ≤ p.stats.total_connections
      → (u : F.Float) × (expand F D threshold now p ≡ expand_above F D u threshold now p)
  unfolding expand
  expand-above threshold now p h = elim (Bool-cases (ltb 0 p.stats.total_connections)) [
    | inl used ↦
        let held = p.stats.total_connections - p.stats.available_connections in
        (F.divided (F.of_usize held) (F.of_usize p.stats.total_connections), ground arith)
    | inr unused ↦ (F.tenths 0, ground arith)
  ]

  -- When the pool is owned, counts no more connections as available than in total, has enough ids
  -- left below 2^64 for its maximum, and the expansion factor does not give a smaller size,
  -- `expand` leaves the pool alone and answers false, or an error because the new size is above
  -- the maximum; or it answers true and reaches the new size, which is at most the maximum, with
  -- an owned pool.
  pub expand_lem :
      (threshold : F.Float) (now : ℕ) (p : ConnectionPool D)
      → IsOwned D p
      → p.stats.available_connections ≤ p.stats.total_connections
      → p.connection_id_counter + p.max_size < word
      → p.stats.total_connections ≤ new_size F D p
      → Expanded p (expand F D threshold now p)
  expand_lem threshold now p v some_left ids grows =
      let (u, e) = expand-above threshold now p some_left in
      rw e (expand_above-Expanded u threshold now p v ids grows)

  -- One removal.
  abbrev without : ConnectionPool D → ℕ → LockFreeQueue ℕ → ConnectionPool D
  without p k queue = record p {
    available_connections = queue;
    active_connections = drop_at k p.active_connections;
    stats = record (p.stats) {
      total_connections = minus p.stats.total_connections 1;
      available_connections = minus p.stats.available_connections 1;
      remove_operations = plus p.stats.remove_operations 1;
    };
  }

  without-IsOwned :
      (p : ConnectionPool D) (k : ℕ) (queue : LockFreeQueue ℕ)
      → IsOwned D p
      → p.available_connections.channel ≡ k ∷ queue.channel
      → IsOwned D (without p k queue)
  without-IsOwned p k queue v e =
      let drop = λ (j : ℕ). get-drop_at k j p.active_connections in
      record {
        queued = λ j. ground (arith, drop j, v.queued j, v.once);
        once = ground (arith, v.once);
        unused = λ j h. ground (arith, drop j, v.unused j);
      }

  -- Every pool that the loop of removals leaves is owned and has as many connections fewer as it
  -- counted.
  Removed : ℕ → ConnectionPool D → ℕ × ConnectionPool D → Type 0
  Removed n p (removed, q) =
      IsOwned D q
      × (q.stats.total_connections + removed ≡ p.stats.total_connections)
      × (removed ≤ n)

  remove_many-Removed :
      (n : ℕ) (p : ConnectionPool D)
      → IsOwned D p
      → n ≤ p.stats.total_connections
      → p.stats.total_connections < word
      → Removed n p (remove_many F D n p)
  unfolding remove_many pop Removed
  remove_many-Removed zero p v h w = (v, omega arith, omega arith)
  remove_many-Removed (suc n) p v h w = elim (List-cases p.available_connections.channel) [
    | inl e ↦
        let (owned, total, few) = remove_many-Removed n p v (omega arith) w in
        (ground (arith, owned), ground (arith, total), ground (arith, few))
    | inr (k, rest, e) ↦
        let queue = (pop p.available_connections).0 in
        let e' : queue.channel ≡ rest = ground (arith, e) in
        let q = without p k queue in
        let (owned, total, few) =
          remove_many-Removed n q (without-IsOwned p k queue v (ground (arith, e, e')))
            (omega arith) (omega arith) in
        (ground (arith, e, owned), ground (arith, e, total), ground (arith, e, few))
  ]

  -- In an owned pool of fewer than 2^64 connections `try_shrink` answers true for exactly a pool
  -- that it makes smaller; it leaves the pool as it was, or with at least its initial size and no
  -- more connections than before; and the pool stays owned.
  pub try_shrink_lem :
      (p : ConnectionPool D)
      → IsOwned D p
      → p.stats.total_connections < word
      → let (answer, q) = try_shrink F D p in
        (answer ≡ ltb q.stats.total_connections p.stats.total_connections)
        × ((q ≡ p)
            ⊎ ((p.initial_size ≤ q.stats.total_connections)
                × (q.stats.total_connections ≤ p.stats.total_connections)))
        × IsOwned D q
  unfolding try_shrink Removed
  try_shrink_lem p v w =
      let n = min (p.stats.total_connections - shrunk_size F D p) p.stats.available_connections in
      let (owned, total, few) = remove_many-Removed n p v (omega arith) w in
      ground (arith, owned, total, few, v)
