-- ===== src/Lockfree/Map.antt =====
-- src/transport/lockfree.rs, LockFreeHashMap. A shard's pointer is the identity of the HashMap that
-- is installed: each successful exchange installs a new one, and an address is not used again while a
-- reader is pinned. The hash of a key is a parameter. A write is given, round by round, what the other
-- threads wrote to the shard between its load and its exchange, and whether the exchange failed
-- spuriously, as `compare_exchange_weak` may.
pub mod Cas
pub mod Shards
use Prim.Native.Nat.{bit_and, ◌^◌}
use msgtrans_rust.Base.{
  ℕ, zero, suc, ◌+◌, ◌-◌, ◌*◌, ◌%◌, ◌<◌, String, Bool, not, ◌&&◌, List, [], ◌∷◌, ◌++◌, Option, none,
  some, leb, ◌==◌, if◌then◌else◌, length, get_or, lookup, insert, remove, Result, ok, err,
}
use msgtrans_rust.TransportError.{TransportError, resource}

pub record LockFreeShard {ℓ} (V : Type ℓ) : Type ℓ where
  pub map : List (ℕ × V)
  pub pointer : ℕ
  pub version : ℕ

abbrev pub u64_mod : ℕ
u64_mod = 2 ^ 64

-- The writes that a shard takes; each ends in one successful exchange.
pub data ShardWrite {ℓ} (V : Type ℓ) : Type ℓ where
  put : ℕ → V → ShardWrite V
  delete : ℕ → ShardWrite V

-- What happens in one round of the loop, between the load and the exchange.
pub record Interference {ℓ} (V : Type ℓ) : Type ℓ where
  pub others : List (ShardWrite V)
  pub spurious : Bool

pub record Outcome {ℓ} (V : Type ℓ) : Type ℓ where
  pub shard : LockFreeShard V
  pub answer : Result (Option V) TransportError
  pub rounds : ℕ
  pub cas_retries : ℕ

abbrev pub max_retries : ℕ
max_retries = 100

module _ {ℓ} {V : Type ℓ} where
  -- The HashMap that the write installs, and the value that it answers.
  abbrev pub new_map : ShardWrite V → List (ℕ × V) → List (ℕ × V)
  new_map (put k v) m = insert k v m
  new_map (delete k) m = remove k m

  abbrev pub old_value : ShardWrite V → List (ℕ × V) → Option V
  old_value (put k v) m = lookup k m
  old_value (delete k) m = lookup k m

  abbrev pub operation : ShardWrite V → String
  operation (put k v) = "lockfree_insert"
  operation (delete k) = "lockfree_remove"

  -- A successful exchange.
  unfoldable pub exchange : List (ℕ × V) → LockFreeShard V → LockFreeShard V
  exchange m s = record { map = m; pointer = s.pointer + 1; version = (s.version + 1) % u64_mod }

  unfoldable pub write_all : List (ShardWrite V) → LockFreeShard V → LockFreeShard V
  write_all [] s = s
  write_all (w ∷ ws) s = write_all ws (exchange (new_map w s.map) s)

  -- One more round, which counted a retry.
  abbrev next_round : Option (Outcome V) → Option (Outcome V)
  next_round none = none
  next_round (some o) = some (record o { rounds = suc o.rounds; cas_retries = o.cas_retries + 1 })

  -- The loop of `insert` and `remove` on the shard, from a retry count on. `none` says that the
  -- rounds given have all been used and the loop goes on.
  unfoldable pub write_loop :
      ShardWrite V → List (Interference V) → ℕ → LockFreeShard V → Option (Outcome V)
  write_loop w [] retry_count s = none
  write_loop w (i ∷ is) retry_count s =
      let s' = write_all i.others s in
      let again = write_loop w is (retry_count + 1) s' in
      if not i.spurious && (s'.pointer == s.pointer)
      then some (record {
        shard = exchange (new_map w s.map) s';
        answer = ok (old_value w s.map);
        rounds = 1;
        cas_retries = 0;
      })
      else if leb max_retries (retry_count + 1)
      then some (record {
        shard = s';
        answer = err (resource (operation w) (retry_count + 1) max_retries);
        rounds = 1;
        cas_retries = 0;
      })
      else next_round again
