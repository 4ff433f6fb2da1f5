-- ===== src/Lockfree/Queue/Fifo.antt =====
-- LockFreeQueue (src/transport/lockfree.rs), one call after the other: a first-in first-out queue
-- whose `len` counts.
use msgtrans_rust.Base.{
  ◌+◌, ◌%◌, ◌<◌, ◌≡◌, ◌⊎◌, arith, [], ◌∷◌, ◌++◌, none, some, ok, length, length-append,
}
use msgtrans_rust.Lockfree.Queue.{LockFreeQueue, word, push, pop, len}

module _ {ℓ} {T : Type ℓ} where
  -- The size counter is the number of items, and the two totals differ by it.
  pub record IsCounted (q : LockFreeQueue T) : Type 0 where
    pub counted : q.stats.current_size ≡ length q.channel
    pub totals : (q.stats.dequeued + length q.channel) % word ≡ q.stats.enqueued % word

  -- On a queue whose counters are those of its items, with fewer than 2^64 - 1 of them, `push`
  -- succeeds, appends its item, adds one to `len`, and the counters are again those of the items.
  pub push-IsCounted :
      (q : LockFreeQueue T) (item : T)
      → length q.channel + 1 < word
      → IsCounted q
      → IsCounted (push q item).0
        × ((push q item).0.channel ≡ q.channel ++ (item ∷ []))
        × ((push q item).1 ≡ ok tt)
        × (len (push q item).0 ≡ len q + 1)
  unfolding push len
  push-IsCounted q item h v = ground (arith, length-append q.channel (item ∷ []))

  -- On a queue of fewer than 2^64 items whose counters are those of its items, `pop` answers none
  -- and changes nothing if it is empty, and otherwise takes the oldest item and one off `len`;
  -- the counters are again those of the items.
  pub pop-IsCounted :
      (q : LockFreeQueue T)
      → length q.channel < word
      → IsCounted q
      → IsCounted (pop q).0
        × (((q.channel ≡ []) × (pop q ≡ (q, none)))
            ⊎ ((x : T) × (q.channel ≡ x ∷ (pop q).0.channel)
                × ((pop q).1 ≡ some x)
                × (len (pop q).0 + 1 ≡ len q)))
  unfolding pop len
  pop-IsCounted q h v = ground arith
