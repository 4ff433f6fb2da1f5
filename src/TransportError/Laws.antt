-- ===== src/TransportError/Laws.antt =====
-- The classification and the statistics of src/error.rs.
use msgtrans_rust.Base.{
  ℕ, ◌+◌, ◌≤◌, ◌≡◌, ◌⊎◌, inl, inr, refl, arith, true, false, List, [], ◌∷◌, none, some, length,
}
use msgtrans_rust.TransportError.{
  TransportError, connection, protocol, configuration, resource, timeout, is_retryable, retry_delay,
  ErrorStats, record_error,
}

-- A delay is suggested for exactly the retryable errors, and it is between 100 ms and a second.
pub retry_delay_total :
    (e : TransportError)
    → ((is_retryable e ≡ true) × ((ms : ℕ) × (retry_delay e ≡ some ms) × (100 ≤ ms) × (ms ≤ 1000)))
      ⊎ ((is_retryable e ≡ false) × (retry_delay e ≡ none))
unfolding retry_delay is_retryable
retry_delay_total (connection reason true) = inl (refl, (1000, refl, omega arith, omega arith))
retry_delay_total (connection reason false) = inr (refl, refl)
retry_delay_total (protocol name reason) = inl (refl, (100, refl, omega arith, omega arith))
retry_delay_total (configuration field reason) = inr (refl, refl)
retry_delay_total (resource name current limit) = inl (refl, (500, refl, omega arith, omega arith))
retry_delay_total (timeout operation duration) = inl (refl, (200, refl, omega arith, omega arith))

-- All errors of a list, recorded in order.
abbrev pub record_all : ErrorStats → List TransportError → ErrorStats
record_all s [] = s
record_all s (e ∷ es) = record_all (record_error s e) es

-- The five kinds add up to the total.
abbrev pub IsBalanced : ErrorStats → Type 0
IsBalanced s =
    s.total_errors
    ≡ s.connection_errors + s.protocol_errors + s.config_errors + s.resource_errors
      + s.timeout_errors

-- Recording a list of errors counts each of them once in the total and once under its kind, and
-- leaves the retries alone.
pub record_all-IsBalanced :
    (s : ErrorStats) (es : List TransportError)
    → IsBalanced s
    → IsBalanced (record_all s es)
      × ((record_all s es).total_errors ≡ s.total_errors + length es)
      × ((record_all s es).retries ≡ s.retries)
unfolding record_error
record_all-IsBalanced s [] b = (b, omega arith, refl)
record_all-IsBalanced s (connection r t ∷ es) b =
    ground (arith, record_all-IsBalanced (record_error s (connection r t)) es)
record_all-IsBalanced s (protocol n r ∷ es) b =
    ground (arith, record_all-IsBalanced (record_error s (protocol n r)) es)
record_all-IsBalanced s (configuration f r ∷ es) b =
    ground (arith, record_all-IsBalanced (record_error s (configuration f r)) es)
record_all-IsBalanced s (resource n c l ∷ es) b =
    ground (arith, record_all-IsBalanced (record_error s (resource n c l)) es)
record_all-IsBalanced s (timeout o d ∷ es) b =
    ground (arith, record_all-IsBalanced (record_error s (timeout o d)) es)
