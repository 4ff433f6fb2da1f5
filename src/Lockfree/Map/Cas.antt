-- ===== src/Lockfree/Map/Cas.antt =====
-- The exchange loop of LockFreeHashMap's `insert` and `remove` (src/transport/lockfree.rs), under
-- interference by other threads.
use msgtrans_rust.Base.{
  ℕ, suc, ◌+◌, ◌<◌, ◌≤◌, ◌≡◌, ◌⊎◌, inl, inr, refl, ap, arith, true, List, [], ◌∷◌, ◌++◌, some,
  length, take, ok, err, leb, ◌==◌, ◌&&◌, not, Bool-cases, Option-cases, some-some, append-nil,
}
use mathlib.Core.Path.{subst}
use msgtrans_rust.TransportError.{resource}
use msgtrans_rust.Lockfree.Map.{
  LockFreeShard, ShardWrite, Interference, Outcome, max_retries, new_map, old_value, operation,
  exchange, write_all, write_loop,
}

module _ {ℓ} {V : Type ℓ} where
  -- All that the other threads wrote in some rounds, in order.
  abbrev pub others_of : List (Interference V) → List (ShardWrite V)
  others_of [] = []
  others_of (i ∷ is) = i.others ++ others_of is

  write_all-append :
      (ws vs : List (ShardWrite V)) (s : LockFreeShard V)
      → write_all (ws ++ vs) s ≡ write_all vs (write_all ws s)
  unfolding write_all
  write_all-append [] vs s = refl
  write_all-append (w ∷ ws) vs s = write_all-append ws vs (exchange (new_map w s.map) s)

  -- Each write installs a new pointer.
  write_all-pointer :
      (ws : List (ShardWrite V)) (s : LockFreeShard V)
      → (write_all ws s).pointer ≡ s.pointer + length ws
  unfolding write_all exchange
  write_all-pointer [] s = omega arith
  write_all-pointer (w ∷ ws) s = omega (arith, write_all-pointer ws (exchange (new_map w s.map) s))

  -- So an unchanged pointer shows that nobody wrote.
  unchanged :
      (ws : List (ShardWrite V)) (s : LockFreeShard V)
      → ((write_all ws s).pointer == s.pointer) ≡ true
      → write_all ws s ≡ s
  unchanged [] s h = unfold write_all in refl
  unchanged (w ∷ ws) s h = absurd (ground (arith, write_all-pointer (w ∷ ws) s))

  -- The shard at which a write that used `n` of the rounds takes effect: behind all that the others
  -- wrote in them.
  abbrev pub moment : List (Interference V) → ℕ → LockFreeShard V → LockFreeShard V
  moment is n s = write_all (others_of (take n is)) s

  -- Either the whole write takes effect at that moment, with the value that it replaced there as the
  -- answer, or nothing but the others' writes, with the error after 100 rounds.
  abbrev pub Linearized :
      ShardWrite V → List (Interference V) → ℕ → LockFreeShard V → Outcome V → Type ℓ
  Linearized w is retry_count s o =
      ((o.answer ≡ ok (old_value w (moment is o.rounds s).map))
        × (o.shard ≡ exchange (new_map w (moment is o.rounds s).map) (moment is o.rounds s)))
      ⊎ ((o.answer ≡ err (resource (operation w) max_retries max_retries))
          × (o.shard ≡ moment is o.rounds s)
          × (retry_count + o.rounds ≡ max_retries))

  moment_first :
      (i : Interference V) (is : List (Interference V)) (s : LockFreeShard V)
      → moment (i ∷ is) 1 s ≡ write_all i.others s
  moment_first i is s = rw append-nil

  moment_later :
      (i : Interference V) (is : List (Interference V)) (n : ℕ) (s : LockFreeShard V)
      → moment (i ∷ is) (suc n) s ≡ moment is n (write_all i.others s)
  moment_later i is n s = write_all-append i.others (others_of (take n is)) s

  next_round-Linearized :
      (w : ShardWrite V) (i : Interference V) (is : List (Interference V)) (r : ℕ)
      (s : LockFreeShard V) (o : Outcome V)
      → Linearized w is (r + 1) (write_all i.others s) o
      → Linearized w
          (i ∷ is)
          r
          s
          (record o { rounds = suc o.rounds; cas_retries = o.cas_retries + 1 })
  next_round-Linearized w i is r s o l = rw (moment_later i is o.rounds s) (ground (arith, l))

  hit_test :
      (i : Interference V) (s : LockFreeShard V)
      → (not i.spurious && ((write_all i.others s).pointer == s.pointer)) ≡ true
      → write_all i.others s ≡ s
  hit_test i s h = unchanged i.others s (ground arith)

  hit-Linearized :
      (w : ShardWrite V) (i : Interference V) (is : List (Interference V)) (r : ℕ)
      (s : LockFreeShard V)
      → write_all i.others s ≡ s
      → Linearized w (i ∷ is) r s (record {
        shard = exchange (new_map w s.map) (write_all i.others s);
        answer = ok (old_value w s.map);
        rounds = 1;
        cas_retries = 0;
      })
  hit-Linearized w i is r s e = rw (moment_first i is s, e) (inl (refl, refl))

  last-Linearized :
      (w : ShardWrite V) (i : Interference V) (is : List (Interference V)) (r : ℕ)
      (s : LockFreeShard V)
      → r + 1 ≡ max_retries
      → Linearized w (i ∷ is) r s (record {
        shard = write_all i.others s;
        answer = err (resource (operation w) (r + 1) max_retries);
        rounds = 1;
        cas_retries = 0;
      })
  last-Linearized w i is r s e =
      rw (moment_first i is s)
        (inr (ap (λ (n : ℕ). err (resource (operation w) n max_retries)) e, refl, e))

  write_loop-Linearized :
      (w : ShardWrite V) (is : List (Interference V)) (r : ℕ) (s : LockFreeShard V) (o : Outcome V)
      → r < max_retries
      → write_loop w is r s ≡ some o
      → Linearized w is r s o
  unfolding write_loop
  write_loop-Linearized w [] r s o h e = cc
  write_loop-Linearized w (i ∷ is) r s o h e =
      let s' : LockFreeShard V = write_all i.others s in
      let Claim = λ (x : Outcome V). Linearized w (i ∷ is) r s x in
      elim (Bool-cases (not i.spurious && (s'.pointer == s.pointer))) [
        | inl hit ↦
            subst Claim (some-some (rw hit at e)) (hit-Linearized w i is r s (hit_test i s hit))
        | inr miss ↦ elim (Bool-cases (leb max_retries (r + 1))) [
          | inl last ↦
              subst Claim (some-some (rw (miss, last) at e))
                (last-Linearized w i is r s (ground arith))
          | inr more ↦ elim (Option-cases (write_loop w is (r + 1) s')) [
            | inl stuck ↦ cc (rw (miss, more, stuck) at e)
            | inr (o', e') ↦ subst Claim (some-some (rw (miss, more, e') at e)) (
                next_round-Linearized w i is r s o'
                  (write_loop-Linearized w is (r + 1) s' o' (ground arith) e'))
          ]
        ]
      ]

  -- Under any interference, a write that returns has either taken effect as a whole at one
  -- moment, behind all that the others wrote until then and with nothing of theirs lost, and
  -- answers the value that it replaced; or it has given up after 100 rounds, with an error and no
  -- effect of its own.
  pub write-Linearized :
      (w : ShardWrite V) (is : List (Interference V)) (s : LockFreeShard V) (o : Outcome V)
      → write_loop w is 0 s ≡ some o
      → Linearized w is 0 s o
  write-Linearized w is s o e = write_loop-Linearized w is 0 s o (omega arith) e

  write_loop_returns :
      (w : ShardWrite V) (is : List (Interference V)) (r : ℕ) (s : LockFreeShard V)
      → r < max_retries
      → max_retries ≤ length is + r
      → (o : Outcome V) × (write_loop w is r s ≡ some o)
  unfolding write_loop
  write_loop_returns w [] r s h n = absurd (omega arith)
  write_loop_returns w (i ∷ is) r s h n =
      let s' : LockFreeShard V = write_all i.others s in
      elim (Bool-cases (not i.spurious && (s'.pointer == s.pointer))) [
        | inl hit ↦ rw hit (_, refl)
        | inr miss ↦ elim (Bool-cases (leb max_retries (r + 1))) [
          | inl last ↦ rw (miss, last) (_, refl)
          | inr more ↦
              let (o, e) = write_loop_returns w is (r + 1) s' (ground arith) (omega arith) in
              rw (miss, more, e) (_, refl)
        ]
      ]

  -- Given 100 rounds, a write returns, whatever the others do in them.
  pub write_returns :
      (w : ShardWrite V) (is : List (Interference V)) (s : LockFreeShard V)
      → max_retries ≤ length is
      → (o : Outcome V) × (write_loop w is 0 s ≡ some o)
  write_returns w is s n = write_loop_returns w is 0 s (omega arith) (omega arith)
