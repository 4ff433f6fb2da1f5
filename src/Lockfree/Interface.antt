-- ===== src/Lockfree/Interface.antt =====
-- What the session components use of LockFreeHashMap (src/transport/lockfree.rs): a dictionary with
-- integer keys. The writes are those that end, which they do in the first quiet round.
use msgtrans_rust.Base.{
  ℕ, zero, suc, ◌^◌, ◌≤◌, ◌≡◌, refl, arith, false, List, [], ◌∷◌, map, Option, none, some, ◌==◌,
  if◌then◌else◌, lookup, get_or, member, member-append,
}
use msgtrans_rust.Lockfree.Map.{LockFreeShard, put, delete}
use msgtrans_rust.Lockfree.Map.Shards.{
  LockFreeHashMap, with_capacity, keys_of, keys, shard_index, empty_shard,
}
use msgtrans_rust.Lockfree.Map.Shards.Laws.{
  IsSharded, view, written, view-written, written-IsSharded, with_capacity_lem,
}

pub record Dictionary (V : Type 0) : Type 1 where
  pub Carrier : Type 0
  pub empty : Carrier
  pub get : Carrier → ℕ → Option V
  pub put_at : ℕ → V → Carrier → Carrier
  pub drop_at : ℕ → Carrier → Carrier
  pub all_keys : Carrier → List ℕ
  pub get-empty : (k : ℕ) → get empty k ≡ none
  pub get-put_at :
      (k j : ℕ) (v : V) (c : Carrier) → get (put_at k v c) j ≡ (if k == j then some v else get c j)
  pub get-drop_at :
      (k j : ℕ) (c : Carrier) → get (drop_at k c) j ≡ (if k == j then none else get c j)
  pub keys_complete : (c : Carrier) (k : ℕ) → member k (all_keys c) ≡ false → get c k ≡ none

keys_complete_list :
    {V : Type 0} (d : List (ℕ × V)) (k : ℕ)
    → member k (map (λ e. e.0) d) ≡ false
    → lookup k d ≡ none
unfolding lookup
keys_complete_list [] k h = refl
keys_complete_list ((j, v) ∷ d) k h = ground (arith, keys_complete_list d k)

pub keys_complete_shards :
    {V : Type 0} (ss : List (LockFreeShard V)) (k i : ℕ)
    → member k (keys_of ss) ≡ false
    → lookup k (get_or ss i empty_shard).map ≡ none
unfolding keys_of
keys_complete_shards [] k i h = unfold lookup in refl
keys_complete_shards (s ∷ ss) k zero h =
    ground (arith, keys_complete_list s.map k, member-append k (map (λ e. e.0) s.map) (keys_of ss))
keys_complete_shards (s ∷ ss) k (suc i) h =
    ground (arith, keys_complete_shards ss k i, member-append k (map (λ e. e.0) s.map) (keys_of ss))

-- A sharded map of a given capacity, used without interference, with any hash.
module _ (V : Type 0) (hash : ℕ → ℕ) (capacity : ℕ) (small : capacity ≤ 2 ^ 64) where
  abbrev pub Sharded : Type 0
  Sharded = (m : LockFreeHashMap V) × IsSharded hash m

  unfoldable pub sharded : Dictionary V
  unfolding keys
  sharded = record {
    Carrier = Sharded;
    empty = (with_capacity capacity, (with_capacity_lem hash capacity 0 small).0);
    get = λ c. view hash c.0;
    put_at = λ k v c. (written hash (put k v) c.0, written-IsSharded hash (put k v) c.0 c.1);
    drop_at = λ k c. (written hash (delete k) c.0, written-IsSharded hash (delete k) c.0 c.1);
    all_keys = λ c. keys c.0;
    get-empty = λ k. (with_capacity_lem hash capacity k small).3;
    get-put_at = λ k j v c. view-written hash (put k v) c.0 j c.1;
    get-drop_at = λ k j c. view-written hash (delete k) c.0 j c.1;
    keys_complete = λ c k h. keys_complete_shards c.0.shards k (shard_index hash c.0 k) h;
  }
