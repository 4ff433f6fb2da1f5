-- ===== src/Lockfree/Map/Shards.antt =====
-- src/transport/lockfree.rs, LockFreeHashMap as a whole: shards, their choice by the key's hash, and
-- the statistics. Latencies are arguments.
pub mod Laws
use Prim.Native.Nat.{bit_and}
use msgtrans_rust.Base.{
  ℕ, zero, suc, ◌+◌, ◌-◌, ◌*◌, ◌%◌, ◌<◌, Bool, List, [], ◌∷◌, ◌++◌, Option, none, some, leb, ◌==◌,
  if◌then◌else◌, length, replicate, set, get_or, map, lookup, Result,
}
use msgtrans_rust.TransportError.{TransportError}
use msgtrans_rust.Lockfree.Map.{
  LockFreeShard, ShardWrite, put, delete, Interference, Outcome, u64_mod, write_loop,
}

pub record LockFreeStats : Type 0 where
  pub reads : ℕ
  pub writes : ℕ
  pub cas_retries : ℕ
  pub avg_read_latency_ns : ℕ

pub record LockFreeHashMap {ℓ} (V : Type ℓ) : Type ℓ where
  pub shards : List (LockFreeShard V)
  pub shard_count : ℕ
  pub stats : LockFreeStats

-- `usize::next_power_of_two`: doubling from 1, at most 64 times.
unfoldable pub doubled : ℕ → ℕ → ℕ → ℕ
doubled zero p n = p
doubled (suc fuel) p n = let more = doubled fuel (p * 2) n in if leb n p then p else more

unfoldable pub next_power_of_two : ℕ → ℕ
unfolding doubled
next_power_of_two n = doubled 64 1 n

module _ {ℓ} {V : Type ℓ} where
  abbrev pub empty_shard : LockFreeShard V
  empty_shard = record { map = []; pointer = 0; version = 0 }

  unfoldable pub with_capacity : ℕ → LockFreeHashMap V
  with_capacity shard_count = record {
    shards = replicate (next_power_of_two shard_count) empty_shard;
    shard_count = next_power_of_two shard_count;
    stats = record { reads = 0; writes = 0; cas_retries = 0; avg_read_latency_ns = 0 };
  }

  -- `LockFreeHashMap::new`.
  unfoldable pub new : LockFreeHashMap V
  unfolding with_capacity
  new = with_capacity 16

  -- `&self.shards[idx]`; the index is in range.
  abbrev pub shard_at : LockFreeHashMap V → ℕ → LockFreeShard V
  shard_at m i = get_or m.shards i empty_shard

  module _ (hash : ℕ → ℕ) where
    unfoldable pub shard_index : LockFreeHashMap V → ℕ → ℕ
    shard_index m key = bit_and (hash key) (m.shard_count - 1)

    unfoldable pub get : LockFreeHashMap V → ℕ → ℕ → LockFreeHashMap V × Option V
    get m key latency =
        let result = lookup key (shard_at m (shard_index m key)).map in
        (
          record m {
            stats = record (m.stats) {
              reads = (m.stats.reads + 1) % u64_mod;
              avg_read_latency_ns = latency;
            };
          },
          result,
        )

    -- `insert` and `remove`: the loop on the key's shard. `none` is a loop that has not ended with the
    -- rounds given.
    unfoldable pub write :
        ShardWrite V
        → ℕ
        → List (Interference V)
        → LockFreeHashMap V
        → Option (LockFreeHashMap V × Result (Option V) TransportError)
    write w key rounds m =
        let i = shard_index m key in
        elim (write_loop w rounds 0 (shard_at m i)) [
          | none ↦ none
          | some o ↦ some (
            record m {
              shards = set m.shards i o.shard;
              stats = record (m.stats) {
                writes = (m.stats.writes + 1) % u64_mod;
                cas_retries = (m.stats.cas_retries + o.cas_retries) % u64_mod;
              };
            },
            o.answer,
          )
        ]

    unfoldable pub insert :
        ℕ
        → V
        → List (Interference V)
        → LockFreeHashMap V
        → Option (LockFreeHashMap V × Result (Option V) TransportError)
    insert key value rounds m = write (put key value) key rounds m

    unfoldable pub remove :
        ℕ
        → List (Interference V)
        → LockFreeHashMap V
        → Option (LockFreeHashMap V × Result (Option V) TransportError)
    remove key rounds m = write (delete key) key rounds m

  -- Shard by shard, which is what `for_each` walks too.
  unfoldable pub snapshot_of : List (LockFreeShard V) → List (ℕ × V)
  snapshot_of [] = []
  snapshot_of (s ∷ ss) = s.map ++ snapshot_of ss

  unfoldable pub snapshot : LockFreeHashMap V → List (ℕ × V)
  unfolding snapshot_of
  snapshot m = snapshot_of m.shards

  unfoldable pub count_of : List (LockFreeShard V) → ℕ
  count_of [] = 0
  count_of (s ∷ ss) = length s.map + count_of ss

  unfoldable pub len : LockFreeHashMap V → ℕ
  unfolding count_of
  len m = count_of m.shards

  unfoldable pub is_empty : LockFreeHashMap V → Bool
  is_empty m = len m == 0

  unfoldable pub keys_of : List (LockFreeShard V) → List ℕ
  keys_of [] = []
  keys_of (s ∷ ss) = map (λ e. e.0) s.map ++ keys_of ss

  unfoldable pub keys : LockFreeHashMap V → List ℕ
  unfolding keys_of
  keys m = keys_of m.shards
