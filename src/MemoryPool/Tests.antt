-- ===== src/MemoryPool/Tests.antt =====
-- The memory pool at concrete histories.
use msgtrans_rust.Base.{ℕ, [], ◌∷◌}
use msgtrans_rust.MemoryPool.{small, BytesMut, new, gets, returns, clears, run}
use msgtrans_rust.MemoryPool.Invariant.{IsConsistent, new-IsConsistent, run-IsConsistent}

-- An allocator that gives what was asked for.
abbrev exactly : ℕ → ℕ
exactly n = n

-- Ten bytes, which are no large buffer.
abbrev ten : BytesMut
ten = record { contents = 1 ∷ 2 ∷ []; capacity = 10 }

run-IsConsistent_example :
    IsConsistent (run exactly (gets small ∷ returns ten small ∷ gets small ∷ clears ∷ []) new)
run-IsConsistent_example =
    run-IsConsistent exactly (gets small ∷ returns ten small ∷ gets small ∷ clears ∷ []) new
      new-IsConsistent
