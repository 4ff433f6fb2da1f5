-- ===== src/Lockfree/Tests.antt =====
-- The lock-free containers at concrete contents.
use msgtrans_rust.Base.{
  ℕ, ◌≡◌, refl, arith, false, List, [], ◌∷◌, none, some, ◌==◌, if◌then◌else◌, replicate, lookup, ok,
}
use msgtrans_rust.Base.{insert as dict_insert, remove as dict_remove}
use msgtrans_rust.Lockfree.Map.{
  LockFreeShard, put, delete, Interference, Outcome, write_loop, write_all, exchange,
}
use msgtrans_rust.Lockfree.Map.Cas.{Linearized, write-Linearized, write_returns}
use msgtrans_rust.Lockfree.Map.Shards.{LockFreeHashMap, insert, remove}
use msgtrans_rust.Lockfree.Map.Shards.Laws.{IsSharded, view, written, quiet, insert-remove-view}
use msgtrans_rust.Lockfree.Queue.{LockFreeQueue}
use msgtrans_rust.Lockfree.Queue.Fifo.{IsCounted}
use msgtrans_rust.Lockfree.Queue.Threads
use msgtrans_rust.Lockfree.Queue.Threads.{Threads, Reach, send, Reach-IsCounted, len_wraps}

abbrev shard : LockFreeShard ℕ
shard = record { map = (1, 10) ∷ (2, 20) ∷ []; pointer = 5; version = 5 }

-- One round in which another thread removes key 2, and one that nobody disturbs.
abbrev disturbed : List (Interference ℕ)
disturbed = record { others = delete 2 ∷ []; spurious = false } ∷ quiet ∷ []

abbrev disturbed_outcome : Outcome ℕ
disturbed_outcome = record {
  shard = record { map = (1, 11) ∷ []; pointer = 7; version = 7 };
  answer = ok (some 10);
  rounds = 2;
  cas_retries = 1;
}

disturbed_runs : write_loop (put 1 11) disturbed 0 shard ≡ some disturbed_outcome
unfolding write_loop write_all exchange dict_insert dict_remove lookup
disturbed_runs = refl

write-Linearized_example : Linearized (put 1 11) disturbed 0 shard disturbed_outcome
write-Linearized_example =
    write-Linearized (put 1 11) disturbed shard disturbed_outcome disturbed_runs

-- Another thread writes in every round.
abbrev contended : List (Interference ℕ)
contended = replicate 100 (record { others = put 3 30 ∷ []; spurious = false })

write_returns_example : (o : Outcome ℕ) × (write_loop (put 1 11) contended 0 shard ≡ some o)
write_returns_example = write_returns (put 1 11) contended shard (omega arith)

abbrev two_shards : LockFreeHashMap ℕ
two_shards = record {
  shards = record { map = (4, 40) ∷ []; pointer = 1; version = 1 } ∷ shard ∷ [];
  shard_count = 2;
  stats = record { reads = 0; writes = 3; cas_retries = 0; avg_read_latency_ns = 0 };
}

abbrev identity : ℕ → ℕ
identity k = k

insert-remove-view_example :
    (insert identity 4 41 (quiet ∷ []) two_shards
      ≡ some (written identity (put 4 41) two_shards, ok (view identity two_shards 4)))
    × (remove identity 4 (quiet ∷ []) two_shards
        ≡ some (written identity (delete 4) two_shards, ok (view identity two_shards 4)))
    × (view identity (written identity (put 4 41) two_shards) 1
        ≡ (if 4 == 1 then some 41 else view identity two_shards 1))
    × (view identity (written identity (delete 4) two_shards) 1
        ≡ (if 4 == 1 then none else view identity two_shards 1))
    × IsSharded identity (written identity (put 4 41) two_shards)
    × IsSharded identity (written identity (delete 4) two_shards)
insert-remove-view_example = insert-remove-view identity 4 1 41 [] two_shards (omega arith, refl)

abbrev one_item : LockFreeQueue ℕ
one_item = record {
  channel = 8 ∷ [];
  stats = record { enqueued = 3; dequeued = 2; current_size = 1 };
}

one_item-IsCounted : IsCounted one_item
one_item-IsCounted = ground arith

abbrev idle : Threads ℕ
idle = record {
  queue = record { channel = []; stats = record { enqueued = 0; dequeued = 0; current_size = 0 } };
  sending = 0;
  receiving = 0;
}

abbrev sent : Threads ℕ
sent = record idle { queue = record (idle.queue) { channel = 6 ∷ [] }; sending = 1 }

sent_reached : Reach idle sent
sent_reached = Threads.next Threads.here (send 6 refl)

Reach-IsCounted_example : Threads.IsCounted sent
Reach-IsCounted_example = Reach-IsCounted {s = idle} refl sent_reached
