-- ===== src/Lockfree/Queue/Threads.antt =====
-- LockFreeQueue (src/transport/lockfree.rs) under threads: the channel operations and the counter
-- updates as separate steps.
use msgtrans_rust.Base.{
  ℕ, ◌+◌, ◌-◌, ◌%◌, ◌≤◌, ◌≡◌, refl, arith, List, [], ◌∷◌, ◌++◌, length, length-append,
}
use msgtrans_rust.Lockfree.Queue.{LockFreeQueue, word, count_push, count_pop}

-- `sending` and `receiving` count the threads between the two steps of `push` and of `pop`.
pub record Threads {ℓ} (T : Type ℓ) : Type ℓ where
  pub queue : LockFreeQueue T
  pub sending : ℕ
  pub receiving : ℕ

module _ {ℓ} {T : Type ℓ} where
  pub data Step (s t : Threads T) : Type ℓ where
    send :
        (item : T)
        → t ≡ record s {
          queue = record (s.queue) { channel = s.queue.channel ++ (item ∷ []) };
          sending = s.sending + 1;
        }
        → Step s t
    counted_send :
        1 ≤ s.sending
        → t ≡ record s {
          queue = record (s.queue) { stats = count_push s.queue.stats };
          sending = s.sending - 1;
        }
        → Step s t
    receive :
        (item : T) (rest : List T)
        → s.queue.channel ≡ item ∷ rest
        → t ≡ record s { queue = record (s.queue) { channel = rest }; receiving = s.receiving + 1 }
        → Step s t
    counted_receive :
        1 ≤ s.receiving
        → t ≡ record s {
          queue = record (s.queue) { stats = count_pop s.queue.stats };
          receiving = s.receiving - 1;
        }
        → Step s t

  pub data Reach (s : Threads T) : Threads T → Type ℓ where
    here : Reach s s
    next : {t u : Threads T} → Reach s t → Step t u → Reach s u

  -- The counter differs from the number of items by the threads that have still to count.
  abbrev pub IsCounted : Threads T → Type 0
  IsCounted s =
      (s.queue.stats.current_size + s.sending) % word
      ≡ (length s.queue.channel + s.receiving) % word

  Step-IsCounted : {s t : Threads T} → Step s t → IsCounted s → IsCounted t
  Step-IsCounted {s} (send item e) v = ground (arith, length-append s.queue.channel (item ∷ []))
  Step-IsCounted (counted_send h e) v = ground arith
  Step-IsCounted {s} (receive item rest c e) v = ground arith
  Step-IsCounted (counted_receive h e) v = ground arith

  -- Whatever the interleaving of the steps of `push` and `pop`, it stays true that the size
  -- counter plus the threads in `push` that have still to count is, modulo 2^64, the number of
  -- items in the channel plus the threads in `pop` that have still to count.
  pub Reach-IsCounted : {s t : Threads T} → IsCounted s → Reach s t → IsCounted t
  Reach-IsCounted v here = v
  Reach-IsCounted v (next r st) = Step-IsCounted st (Reach-IsCounted v r)

  -- From an empty queue with the counter at 0 and no thread in `pop`, some interleaving leads to
  -- an empty queue whose size counter is 2^64 - 1.
  pub len_wraps :
      (s : Threads T) (item : T)
      → s.queue.channel ≡ []
      → s.queue.stats.current_size ≡ 0
      → s.receiving ≡ 0
      → (t : Threads T) × Reach s t
        × (t.queue.channel ≡ [])
        × (t.queue.stats.current_size ≡ word - 1)
  len_wraps s item empty zero none_yet =
      let sent : Threads T = record s {
        queue = record (s.queue) { channel = s.queue.channel ++ (item ∷ []) };
        sending = s.sending + 1;
      } in
      let received : Threads T = record sent {
        queue = record (sent.queue) { channel = [] };
        receiving = s.receiving + 1;
      } in
      let counted : Threads T = record received {
        queue = record (received.queue) { stats = count_pop s.queue.stats };
        receiving = s.receiving + 1 - 1;
      } in
      let to_sent : Reach s sent = next here (send item refl) in
      let to_received : Reach s received = next to_sent (receive item [] (rw (empty)) refl) in
      let to_counted : Reach s counted = next to_received (counted_receive (omega arith) refl) in
      (counted, to_counted, refl, ground arith)
