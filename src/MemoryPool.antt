-- ===== src/MemoryPool.antt =====
-- src/transport/memory_pool.rs, OptimizedMemoryPool: buffers of three sizes, cached in lock-free
-- queues. The fields of one size stand together as a `SizeClass`. The capacity that
-- `BytesMut::with_capacity` really allocates is a parameter, and so are the f64 operations of
-- `adjust_cache_limits`. Events are kept oldest first, without the megabytes of `memory_pressure`.
pub mod Invariant
mod Tests
use msgtrans_rust.Base.{
  ℕ, zero, suc, ◌+◌, ◌-◌, ◌*◌, ◌%◌, Bool, ◌||◌, List, [], ◌∷◌, ◌++◌, length, Option, none, some,
  ltb, leb, ◌==◌, if◌then◌else◌,
}
use msgtrans_rust.Lockfree.Queue
use msgtrans_rust.Lockfree.Queue.{LockFreeQueue, word, push, pop}

pub data BufferSize : Type 0 where
  small medium large : BufferSize

unfoldable pub capacity_of : BufferSize → ℕ
capacity_of small = 1024
capacity_of medium = 8192
capacity_of large = 65536

-- A `bytes::BytesMut`.
pub record BytesMut : Type 0 where
  pub contents : List ℕ
  pub capacity : ℕ

pub data MemoryPoolEvent : Type 0 where
  buffer_allocated buffer_returned : BufferSize → ℕ → MemoryPoolEvent
  cache_hit cache_miss : BufferSize → MemoryPoolEvent
  memory_pressure : MemoryPoolEvent

pub record SizeClass : Type 0 where
  pub buffers : LockFreeQueue BytesMut
  pub get_operations : ℕ
  pub return_operations : ℕ
  pub allocated : ℕ
  pub cached : ℕ
  pub max_cached : ℕ

pub record OptimizedMemoryPool : Type 0 where
  pub smalls : SizeClass
  pub mediums : SizeClass
  pub larges : SizeClass
  pub total_get_operations : ℕ
  pub total_return_operations : ℕ
  pub cache_hit_count : ℕ
  pub cache_miss_count : ℕ
  pub total_memory_allocated : ℕ
  pub total_memory_cached : ℕ
  pub events : List MemoryPoolEvent

-- `match size`, which selects the queue and the counters.
abbrev pub class_of : BufferSize → OptimizedMemoryPool → SizeClass
class_of small p = p.smalls
class_of medium p = p.mediums
class_of large p = p.larges

abbrev pub with_class : BufferSize → SizeClass → OptimizedMemoryPool → OptimizedMemoryPool
with_class small c p = record p { smalls = c }
with_class medium c p = record p { mediums = c }
with_class large c p = record p { larges = c }

-- `fetch_add` and `fetch_sub` of an AtomicU64.
abbrev pub plus : ℕ → ℕ → ℕ
plus a n = (a + n) % word

abbrev pub minus : ℕ → ℕ → ℕ
minus a n = (a + word - n) % word

abbrev fresh_class : ℕ → SizeClass
fresh_class limit = record {
  buffers = Queue.new;
  get_operations = 0;
  return_operations = 0;
  allocated = 0;
  cached = 0;
  max_cached = limit;
}

unfoldable pub new : OptimizedMemoryPool
unfolding Queue.new
new = record {
  smalls = fresh_class 500;
  mediums = fresh_class 200;
  larges = fresh_class 50;
  total_get_operations = 0;
  total_return_operations = 0;
  cache_hit_count = 0;
  cache_miss_count = 0;
  total_memory_allocated = 0;
  total_memory_cached = 0;
  events = [];
}

-- `return_buffer`, behind its test of the buffer's capacity.
abbrev store : BytesMut → BufferSize → SizeClass → OptimizedMemoryPool → OptimizedMemoryPool
store buffer size c p =
    if leb c.max_cached c.cached
    then with_class size c p
    else with_class size
        (record c { buffers = (push c.buffers buffer).0; cached = plus c.cached 1 })
        (record p {
          total_memory_cached = plus p.total_memory_cached (capacity_of size);
          events = p.events ++ (buffer_returned size (capacity_of size) ∷ []);
        })

unfoldable pub return_buffer : OptimizedMemoryPool → BytesMut → BufferSize → OptimizedMemoryPool
return_buffer p buffer size =
    if (buffer.capacity == 0) || ltb (10 * 1024 * 1024) buffer.capacity
    then p
    else (let c = class_of size p in
        store buffer size (record c { return_operations = plus c.return_operations 1 })
          (record p { total_return_operations = plus p.total_return_operations 1 }))

-- `while let Some(_) = queue.pop()`: the pops that find a buffer, at most as many as there is fuel.
unfoldable pub drain : ℕ → SizeClass → ℕ × SizeClass
drain zero c = (0, c)
drain (suc fuel) c =
    let (queue, popped) = pop c.buffers in
    let (n, c') = drain fuel (record c { buffers = queue; cached = minus c.cached 1 }) in
    elim popped [ none ↦ (0, c) | some buffer ↦ (suc n, c') ]

-- A queue is empty after as many pops as it has buffers.
abbrev pub drain_all : SizeClass → ℕ × SizeClass
drain_all c = drain (length c.buffers.channel) c

unfoldable pub clear_cache : OptimizedMemoryPool → ℕ × OptimizedMemoryPool
clear_cache p =
    let (n, smalls) = drain_all p.smalls in
    let (m, mediums) = drain_all p.mediums in
    let (k, larges) = drain_all p.larges in
    (
      n + m + k,
      record p { smalls = smalls; mediums = mediums; larges = larges; total_memory_cached = 0 },
    )

-- `too_much` is the comparison of the cached megabytes with the threshold, `reduced` the truncated
-- product with 0.8.
unfoldable pub adjust_cache_limits :
    (ℕ → Bool) → (ℕ → ℕ) → OptimizedMemoryPool → OptimizedMemoryPool
adjust_cache_limits too_much reduced p =
    if too_much p.total_memory_cached
    then record p {
      smalls = record (p.smalls) { max_cached = reduced p.smalls.max_cached };
      mediums = record (p.mediums) { max_cached = reduced p.mediums.max_cached };
      larges = record (p.larges) { max_cached = reduced p.larges.max_cached };
      events = p.events ++ (memory_pressure ∷ []);
    }
    else p

-- A call by some user of the pool, one after the other.
pub data Call : Type 0 where
  gets : BufferSize → Call
  returns : BytesMut → BufferSize → Call
  clears : Call

module _ (with_capacity : ℕ → ℕ) where
  abbrev pub fresh_buffer : BufferSize → BytesMut
  fresh_buffer size = record { contents = []; capacity = with_capacity (capacity_of size) }

  unfoldable pub get_buffer : OptimizedMemoryPool → BufferSize → BytesMut × OptimizedMemoryPool
  get_buffer p size =
      let c = class_of size p in
      let (queue, popped) = pop c.buffers in
      let c' = record c { buffers = queue; get_operations = plus c.get_operations 1 } in
      let p' = record p { total_get_operations = plus p.total_get_operations 1 } in
      elim popped [
        | some buffer ↦ (
          record buffer { contents = [] },
          with_class size (record c' { cached = minus c.cached 1 })
              (record p' {
                cache_hit_count = plus p.cache_hit_count 1;
                total_memory_cached = minus p.total_memory_cached (capacity_of size);
                events = p.events ++ (cache_hit size ∷ []);
              }),
        )
        | none ↦ (
          fresh_buffer size,
          with_class size (record c' { allocated = plus c.allocated 1 })
              (record p' {
                cache_miss_count = plus p.cache_miss_count 1;
                total_memory_allocated = plus p.total_memory_allocated (capacity_of size);
                events =
                    p.events ++ (cache_miss size ∷ buffer_allocated size (capacity_of size) ∷ []);
              }),
        )
      ]

  -- One turn of a loop of `with_preallocation`, which sends no event.
  abbrev pub preallocate_one : BufferSize → OptimizedMemoryPool → OptimizedMemoryPool
  preallocate_one size p =
      let c = class_of size p in
      with_class size
        (record c { buffers = (push c.buffers (fresh_buffer size)).0; cached = plus c.cached 1 })
        (record p { total_memory_cached = plus p.total_memory_cached (capacity_of size) })

  unfoldable pub preallocate : ℕ → BufferSize → OptimizedMemoryPool → OptimizedMemoryPool
  preallocate zero size p = p
  preallocate (suc n) size p = preallocate n size (preallocate_one size p)

  unfoldable pub with_preallocation : OptimizedMemoryPool → ℕ → ℕ → ℕ → OptimizedMemoryPool
  unfolding preallocate
  with_preallocation p small_count medium_count large_count =
      preallocate large_count large
        (preallocate medium_count medium (preallocate small_count small p))

  unfoldable pub step : Call → OptimizedMemoryPool → OptimizedMemoryPool
  step (gets size) p = (get_buffer p size).1
  step (returns buffer size) p = return_buffer p buffer size
  step clears p = (clear_cache p).1

  unfoldable pub run : List Call → OptimizedMemoryPool → OptimizedMemoryPool
  run [] p = p
  run (c ∷ cs) p = run cs (step c p)
