-- ===== src/MemoryPool/Invariant.antt =====
-- The counters of OptimizedMemoryPool (src/transport/memory_pool.rs) against its queues.
use msgtrans_rust.Base.{
  List-cases, ℕ, zero, suc, ◌+◌, ◌*◌, ◌%◌, ◌<◌, ◌≤◌, ◌≡◌, ◌⊎◌, inl, inr, arith, List, [], ◌∷◌,
  length, length-append,
}
use msgtrans_rust.Lockfree.Queue
use msgtrans_rust.Lockfree.Queue.{LockFreeQueue, word, push, pop}
use msgtrans_rust.MemoryPool.{
  BufferSize, small, medium, large, capacity_of, BytesMut, SizeClass, OptimizedMemoryPool, class_of,
  minus, new, return_buffer, drain, clear_cache, fresh_buffer, get_buffer, Call, gets, returns,
  clears, step, run,
}

-- The number of cached buffers is counted and is within the limit of the size, which is below 2^32.
pub record IsCounted (c : SizeClass) : Type 0 where
  pub counted : c.cached ≡ length c.buffers.channel
  pub within : c.cached ≤ c.max_cached
  pub limited : c.max_cached < 4294967296

-- Every size is counted, the bytes in the caches are those of the buffers at their nominal sizes, and
-- every buffer that was asked for is a hit or a miss.
pub record IsConsistent (p : OptimizedMemoryPool) : Type 0 where
  pub smalls_counted : IsCounted p.smalls
  pub mediums_counted : IsCounted p.mediums
  pub larges_counted : IsCounted p.larges
  pub memory :
      p.total_memory_cached
      ≡ 1024 * p.smalls.cached + 8192 * p.mediums.cached + 65536 * p.larges.cached
  pub hits : (p.cache_hit_count + p.cache_miss_count) % word ≡ p.total_get_operations

pub new-IsConsistent : IsConsistent new
unfolding new Queue.new
new-IsConsistent = ground arith

drain_lem :
    (fuel : ℕ) (c : SizeClass)
    → length c.buffers.channel ≤ fuel
    → IsCounted c
    → ((drain fuel c).0 ≡ length c.buffers.channel)
      × ((drain fuel c).1.buffers.channel ≡ [])
      × IsCounted (drain fuel c).1
unfolding drain pop
drain_lem zero c h v = ground arith
drain_lem (suc fuel) c h v =
    let popped : SizeClass = record c { buffers = (pop c.buffers).0; cached = minus c.cached 1 } in
    ground (arith, drain_lem fuel popped)

return_buffer-IsConsistent :
    (p : OptimizedMemoryPool) (buffer : BytesMut) (size : BufferSize)
    → IsConsistent p
    → IsConsistent (return_buffer p buffer size)
unfolding return_buffer capacity_of push
return_buffer-IsConsistent p buffer small v =
    ground (arith, length-append p.smalls.buffers.channel (buffer ∷ []))
return_buffer-IsConsistent p buffer medium v =
    ground (arith, length-append p.mediums.buffers.channel (buffer ∷ []))
return_buffer-IsConsistent p buffer large v =
    ground (arith, length-append p.larges.buffers.channel (buffer ∷ []))

-- `clear_cache` empties the three caches and answers how many buffers it dropped.
pub clear_cache-IsConsistent :
    (p : OptimizedMemoryPool)
    → IsConsistent p
    → ((clear_cache p).0 ≡ p.smalls.cached + p.mediums.cached + p.larges.cached)
      × ((clear_cache p).1.smalls.buffers.channel ≡ [])
      × ((clear_cache p).1.mediums.buffers.channel ≡ [])
      × ((clear_cache p).1.larges.buffers.channel ≡ [])
      × IsConsistent (clear_cache p).1
unfolding clear_cache
clear_cache-IsConsistent p v =
    let drained = λ (c : SizeClass). drain_lem (length c.buffers.channel) c (omega arith) in
    ground (arith, drained p.smalls, drained p.mediums, drained p.larges)

module _ (with_capacity : ℕ → ℕ) where
  get_buffer-IsConsistent :
      (p : OptimizedMemoryPool) (size : BufferSize)
      → IsConsistent p
      → IsConsistent (get_buffer with_capacity p size).1
  unfolding get_buffer capacity_of pop
  get_buffer-IsConsistent p small v = ground arith
  get_buffer-IsConsistent p medium v = ground arith
  get_buffer-IsConsistent p large v = ground arith

  step-IsConsistent :
      (c : Call) (p : OptimizedMemoryPool) → IsConsistent p → IsConsistent (step with_capacity c p)
  unfolding step
  step-IsConsistent (gets size) p v = get_buffer-IsConsistent p size v
  step-IsConsistent (returns buffer size) p v = return_buffer-IsConsistent p buffer size v
  step-IsConsistent clears p v = (clear_cache-IsConsistent p v).4

  -- Over any sequence of gets, returns and clears a consistent pool stays consistent: for each
  -- size the counter of cached buffers is the length of the queue and within the limit, the bytes
  -- counted as cached are those of these buffers at their nominal sizes, and hits and misses add
  -- up to the gets modulo 2^64.
  pub run-IsConsistent :
      (cs : List Call) (p : OptimizedMemoryPool)
      → IsConsistent p
      → IsConsistent (run with_capacity cs p)
  unfolding run
  run-IsConsistent [] p v = v
  run-IsConsistent (c ∷ cs) p v =
      run-IsConsistent cs (step with_capacity c p) (step-IsConsistent c p v)

  hit :
      (p : OptimizedMemoryPool) (size : BufferSize) (b : BytesMut) (rest : List BytesMut)
      → (class_of size p).buffers.channel ≡ b ∷ rest
      → IsConsistent p
      → ((class_of size p).buffers.channel
          ≡ b ∷ (class_of size (get_buffer with_capacity p size).1).buffers.channel)
        × ((get_buffer with_capacity p size).0 ≡ record b { contents = [] })
        × ((class_of size (get_buffer with_capacity p size).1).cached + 1
            ≡ (class_of size p).cached)
  unfolding get_buffer pop
  hit p small b rest e v = ground arith
  hit p medium b rest e v = ground arith
  hit p large b rest e v = ground arith

  miss :
      (p : OptimizedMemoryPool) (size : BufferSize)
      → (class_of size p).buffers.channel ≡ []
      → IsConsistent p
      → ((get_buffer with_capacity p size).0 ≡ fresh_buffer with_capacity size)
        × ((class_of size (get_buffer with_capacity p size).1).cached ≡ 0)
  unfolding get_buffer pop
  miss p small e v = ground arith
  miss p medium e v = ground arith
  miss p large e v = ground arith

  -- From a consistent pool `get_buffer` gives the oldest cached buffer of the size, emptied and
  -- with the capacity that it was returned with, and one buffer of the size fewer is then cached;
  -- or, when none is cached, a fresh buffer, and none is cached after it.
  pub get_buffer_lem :
      (p : OptimizedMemoryPool) (size : BufferSize)
      → IsConsistent p
      → ((b : BytesMut) × ((class_of size p).buffers.channel
            ≡ b ∷ (class_of size (get_buffer with_capacity p size).1).buffers.channel)
          × ((get_buffer with_capacity p size).0 ≡ record b { contents = [] })
          × ((class_of size (get_buffer with_capacity p size).1).cached + 1
              ≡ (class_of size p).cached))
        ⊎ (((class_of size p).buffers.channel ≡ [])
            × ((get_buffer with_capacity p size).0 ≡ fresh_buffer with_capacity size)
            × ((class_of size (get_buffer with_capacity p size).1).cached ≡ 0))
  get_buffer_lem p size v = elim (List-cases (class_of size p).buffers.channel) [
    | inl e ↦ let (fresh, count) = miss p size e v in inr (e, fresh, count)
    | inr (b, rest, e) ↦
        let (first, cleared, count) = hit p size b rest e v in inl (b, first, cleared, count)
  ]

  -- A buffer of any capacity from 1 byte to 10 MiB that is returned as one of a size whose queue
  -- is empty and whose counter is below its limit is, emptied, what the next request for that
  -- size is given.
  pub get_buffer-return_buffer :
      (p : OptimizedMemoryPool) (b : BytesMut) (size : BufferSize)
      → 1 ≤ b.capacity
      → b.capacity ≤ 10485760
      → (class_of size p).buffers.channel ≡ []
      → (class_of size p).cached < (class_of size p).max_cached
      → (get_buffer with_capacity (return_buffer p b size) size).0 ≡ record b { contents = [] }
  unfolding get_buffer return_buffer pop push
  get_buffer-return_buffer p b small low high none_cached room = ground arith
  get_buffer-return_buffer p b medium low high none_cached room = ground arith
  get_buffer-return_buffer p b large low high none_cached room = ground arith
