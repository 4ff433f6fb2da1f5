-- ===== src/Lockfree/Map/Shards/Laws.antt =====
-- LockFreeHashMap (src/transport/lockfree.rs) as one dictionary over all its shards.
use native.Mathlib.Nat.{pow-suc}
use msgtrans_rust.Base.{
  ℕ, zero, suc, ◌+◌, ◌-◌, ◌*◌, ◌%◌, ◌^◌, ◌<◌, ◌≤◌, ◌≡◌, refl, ◌∙◌, arith, false, List, [], ◌∷◌,
  Option, none, some, ◌==◌, if◌then◌else◌, length, length-append, length-map, map, length-set,
  get_or-set, set, lookup, lookup-insert, lookup-remove, ok, length-replicate, get_or-replicate,
  leb, Bool-cases, inl, inr,
}
use msgtrans_rust.Base.Bits.{bit_and-le}
use msgtrans_rust.Base.{insert as insert_entry, remove as remove_entry}
use msgtrans_rust.Lockfree.Map.{
  LockFreeShard, ShardWrite, put, delete, Interference, u64_mod, write_loop, exchange, write_all,
  new_map, old_value,
}
use msgtrans_rust.Lockfree.Map.Shards.{
  LockFreeHashMap, doubled, next_power_of_two, empty_shard, with_capacity, shard_at, shard_index,
  write, insert, remove, snapshot_of, count_of, keys_of,
}

doubled_lem :
    (fuel k n : ℕ)
    → n ≤ 2 ^ k * 2 ^ fuel
    → (j : ℕ) × (doubled fuel (2 ^ k) n ≡ 2 ^ j) × (n ≤ doubled fuel (2 ^ k) n)
unfolding doubled
doubled_lem zero k n h = (k, refl, omega arith)
doubled_lem (suc fuel) k n h = elim (Bool-cases (leb n (2 ^ k))) [
  | inl done ↦ rw done (k, refl, ground arith)
  | inr more ↦
      rw (more, ← pow-suc 2 k)
        (doubled_lem fuel (suc k) n (rw (pow-suc 2 k) (omega (arith, rw (pow-suc 2 fuel) at h))))
]

-- Up to 2^64, `next_power_of_two` is a power of two and is not below its argument.
next_power_of_two_lem :
    (n : ℕ) → n ≤ 2 ^ 64 → (j : ℕ) × (next_power_of_two n ≡ 2 ^ j) × (n ≤ next_power_of_two n)
unfolding next_power_of_two
next_power_of_two_lem n h = doubled_lem 64 0 n (omega arith)

-- A round in which nobody else writes and the exchange does not fail.
abbrev pub quiet {ℓ} : {V : Type ℓ} → Interference V
quiet = record { others = []; spurious = false }

pow-ne-zero : (k : ℕ) → 1 ≤ 2 ^ k
pow-ne-zero zero = omega arith
pow-ne-zero (suc k) = omega (arith, pow-suc 2 k, pow-ne-zero k)

module _ {ℓ} {V : Type ℓ} (hash : ℕ → ℕ) where
  -- There is a shard for every index that the mask lets through.
  abbrev pub IsSharded : LockFreeHashMap V → Type 0
  IsSharded m = (1 ≤ m.shard_count) × (length m.shards ≡ m.shard_count)

  pub shard_index-lt :
      (m : LockFreeHashMap V) (key : ℕ) → IsSharded m → shard_index hash m key < length m.shards
  unfolding shard_index
  shard_index-lt m key v = omega (arith, bit_and-le (hash key) (m.shard_count - 1))

  -- The dictionary that `get` reads.
  abbrev pub view : LockFreeHashMap V → ℕ → Option V
  view m key = lookup key (shard_at m (shard_index hash m key)).map

  -- What a write leaves of the value under a key.
  abbrev pub rewritten : ShardWrite V → ℕ → Option V → Option V
  rewritten (put k v) j old = if k == j then some v else old
  rewritten (delete k) j old = if k == j then none else old

  abbrev pub key_of : ShardWrite V → ℕ
  key_of (put k v) = k
  key_of (delete k) = k

  lookup-new_map :
      (w : ShardWrite V) (j : ℕ) (d : List (ℕ × V))
      → lookup j (new_map w d) ≡ rewritten w j (lookup j d)
  lookup-new_map (put k v) j d = lookup-insert k j v d
  lookup-new_map (delete k) j d = lookup-remove k j d

  old_value-lookup : (w : ShardWrite V) (d : List (ℕ × V)) → old_value w d ≡ lookup (key_of w) d
  old_value-lookup (put k v) d = refl
  old_value-lookup (delete k) d = refl

  quiet_round :
      (w : ShardWrite V) (rest : List (Interference V)) (s : LockFreeShard V)
      → write_loop w (quiet ∷ rest) 0 s
        ≡ some (record {
          shard = exchange (new_map w s.map) s;
          answer = ok (old_value w s.map);
          rounds = 1;
          cas_retries = 0;
        })
  unfolding write_loop write_all
  quiet_round w rest s = ground arith

  -- The map behind a write that nobody interfered with, and `get` through it.
  abbrev pub written : ShardWrite V → LockFreeHashMap V → LockFreeHashMap V
  written w m =
      let i = shard_index hash m (key_of w) in
      record m {
        shards = set m.shards i (exchange (new_map w (shard_at m i).map) (shard_at m i));
        stats = record (m.stats) {
          writes = (m.stats.writes + 1) % u64_mod;
          cas_retries = (m.stats.cas_retries + 0) % u64_mod;
        };
      }

  write-quiet :
      (w : ShardWrite V) (rest : List (Interference V)) (m : LockFreeHashMap V)
      → write hash w (key_of w) (quiet ∷ rest) m ≡ some (written w m, ok (view m (key_of w)))
  unfolding write
  write-quiet w rest m =
      let s = shard_at m (shard_index hash m (key_of w)) in
      ground (arith, quiet_round w rest s, old_value-lookup w s.map)

  pub view-written :
      (w : ShardWrite V) (m : LockFreeHashMap V) (j : ℕ)
      → IsSharded m
      → view (written w m) j ≡ rewritten w j (view m j)
  unfolding shard_index exchange
  view-written (put k x) m j v =
      let i = shard_index hash m k in
      let s = shard_at m i in
      ground (
        arith,
        get_or-set m.shards i (shard_index hash m j) (exchange (insert_entry k x s.map) s)
            empty_shard (shard_index-lt m k v),
        lookup-insert k j x s.map,
      )
  view-written (delete k) m j v =
      let i = shard_index hash m k in
      let s = shard_at m i in
      ground (
        arith,
        get_or-set m.shards i (shard_index hash m j) (exchange (remove_entry k s.map) s) empty_shard
            (shard_index-lt m k v),
        lookup-remove k j s.map,
      )

  pub written-IsSharded :
      (w : ShardWrite V) (m : LockFreeHashMap V) → IsSharded m → IsSharded (written w m)
  written-IsSharded w m v = (v.0, length-set m.shards _ _ ∙ v.1)

  -- On a map with a shard for every index, `insert` and `remove` whose first round is not
  -- disturbed end in it, answer the value that `get` would have read under the key, and leave a
  -- map with a shard for every index whose reads give the new value or nothing under that key and
  -- what they gave before under every other.
  pub insert-remove-view :
      (k j : ℕ) (x : V) (rest : List (Interference V)) (m : LockFreeHashMap V)
      → IsSharded m
      → (insert hash k x (quiet ∷ rest) m ≡ some (written (put k x) m, ok (view m k)))
        × (remove hash k (quiet ∷ rest) m ≡ some (written (delete k) m, ok (view m k)))
        × (view (written (put k x) m) j ≡ (if k == j then some x else view m j))
        × (view (written (delete k) m) j ≡ (if k == j then none else view m j))
        × IsSharded (written (put k x) m)
        × IsSharded (written (delete k) m)
  unfolding insert remove
  insert-remove-view k j x rest m v = (
    write-quiet (put k x) rest m,
    write-quiet (delete k) rest m,
    view-written (put k x) m j v,
    view-written (delete k) m j v,
    written-IsSharded (put k x) m v,
    written-IsSharded (delete k) m v,
  )

  -- A new map for at most 2^64 shards has a number of shards that is a power of two and not below
  -- the one asked for, a shard for every index, and nothing under any key.
  pub with_capacity_lem :
      (n key : ℕ)
      → n ≤ 2 ^ 64
      → IsSharded (with_capacity n)
        × ((j : ℕ) × ((with_capacity {V = V} n).shard_count ≡ 2 ^ j))
        × (n ≤ (with_capacity {V = V} n).shard_count)
        × (view (with_capacity n) key ≡ none)
  unfolding with_capacity
  with_capacity_lem n key h =
      let (j, e, le) = next_power_of_two_lem n h in
      (
        (omega (arith, e, pow-ne-zero j), length-replicate (next_power_of_two n) empty_shard),
        (j, e),
        le,
        rw get_or-replicate (unfold lookup in refl),
      )

-- `snapshot` and `keys` list as many entries as `len` counts.
pub len-snapshot {ℓ} :
    {V : Type ℓ} (ss : List (LockFreeShard V))
    → (count_of ss ≡ length (snapshot_of ss)) × (count_of ss ≡ length (keys_of ss))
unfolding count_of snapshot_of keys_of
len-snapshot [] = (refl, refl)
len-snapshot (s ∷ ss) =
    let (n, m) = len-snapshot ss in
    (
      omega (arith, n, length-append s.map (snapshot_of ss)),
      omega (
        arith,
        m,
        length-append (map (λ e. e.0) s.map) (keys_of ss),
        length-map s.map (λ e. e.0),
      ),
    )
