-- ===== src/Pool/Resize.antt =====
-- src/transport/pool.rs: expansion and shrinking. The f64 operations are a parameter, with `tenths n`
-- for the literal n/10. The thresholds are those of `ExpansionStrategy::default`, which only
-- `force_expand` changes, for the time of its call. The history of the monitor is left out. `none`
-- stands for a subtraction of usize that would go below 0, which panics.
pub mod Bounds
use Prim.Native.Nat.{min, max}
use msgtrans_rust.Base.{
  ℕ, zero, suc, ◌+◌, ◌-◌, ◌%◌, Bool, true, false, ◌&&◌, List, [], ◌∷◌, Option, none, some, get_or,
  ltb, leb, ◌==◌, if◌then◌else◌, Result, ok, err,
}
use msgtrans_rust.TransportError.{TransportError, resource}
use msgtrans_rust.Lockfree.Interface.{Dictionary}
use msgtrans_rust.Lockfree.Queue.{pop}
use msgtrans_rust.Pool.{PoolConnection, ConnectionPool, create_many, plus, minus}

pub record F64 : Type 1 where
  pub Float : Type 0
  pub tenths : ℕ → Float
  pub of_usize : ℕ → Float
  pub to_usize : Float → ℕ
  pub less : Float → Float → Bool
  pub sub_f64 : Float → Float → Float
  pub times : Float → Float → Float
  pub divided : Float → Float → Float

module _ (F : F64) (D : Dictionary PoolConnection) where
  open F use {Float, tenths, of_usize, to_usize, less, sub_f64, times, divided}
  open D use {drop_at}

  unfoldable pub get_current_expansion_factor : ConnectionPool D → Float
  get_current_expansion_factor p =
      get_or (tenths 20 ∷ tenths 15 ∷ tenths 12 ∷ tenths 11 ∷ []) (min p.current_factor_index 3)
        (tenths 11)

  unfoldable pub advance_expansion_factor : ConnectionPool D → ConnectionPool D
  advance_expansion_factor p =
      if ltb p.current_factor_index 3
      then record p { current_factor_index = p.current_factor_index + 1 }
      else p

  -- The size that `smart_expand` aims at.
  abbrev pub new_size : ConnectionPool D → ℕ
  new_size p =
      to_usize (times (of_usize p.stats.total_connections) (get_current_expansion_factor p))

  -- `smart_expand`, from the comparison with the threshold on.
  unfoldable pub expand_above :
      Float → Float → ℕ → ConnectionPool D → Option (Result Bool TransportError × ConnectionPool D)
  unfolding advance_expansion_factor
  expand_above utilization threshold now p =
      if less utilization threshold
      then some (ok false, p)
      else if ltb p.max_size (new_size p)
      then some (err (resource "connection_pool_expansion" (new_size p) p.max_size), p)
      else if ltb (new_size p) p.stats.total_connections
      then none
      else some (
        ok true,
        advance_expansion_factor (create_many D (new_size p - p.stats.total_connections) now p),
      )

  unfoldable pub expand :
      Float → ℕ → ConnectionPool D → Option (Result Bool TransportError × ConnectionPool D)
  unfolding expand_above
  expand threshold now p =
      let total = p.stats.total_connections in
      let available_count = p.stats.available_connections in
      if ltb 0 total
      then (if ltb total available_count
          then none
          else expand_above (divided (of_usize (total - available_count)) (of_usize total))
              threshold now p)
      else expand_above (tenths 0) threshold now p

  unfoldable pub smart_expand :
      ℕ → ConnectionPool D → Option (Result Bool TransportError × ConnectionPool D)
  unfolding expand
  smart_expand now p = expand (tenths 8) now p

  unfoldable pub force_expand :
      ℕ → ConnectionPool D → Option (Result Bool TransportError × ConnectionPool D)
  unfolding expand
  force_expand now p = expand (tenths 0) now p

  unfoldable pub utilization : ConnectionPool D → Float
  utilization p =
      let total = p.stats.total_connections in
      if total == 0
      then tenths 0
      else divided (sub_f64 (of_usize total) (of_usize p.stats.available_connections))
          (of_usize total)

  -- The loop of `try_shrink`, and how many connections it removed.
  unfoldable pub remove_many : ℕ → ConnectionPool D → ℕ × ConnectionPool D
  remove_many zero p = (0, p)
  remove_many (suc n) p =
      let (queue, popped) = pop p.available_connections in
      elim popped [
        | none ↦ remove_many n p
        | some connection_id ↦
            let (removed_count, p') = remove_many n (record p {
              available_connections = queue;
              active_connections = drop_at connection_id p.active_connections;
              stats = record (p.stats) {
                total_connections = minus p.stats.total_connections 1;
                available_connections = minus p.stats.available_connections 1;
                remove_operations = plus p.stats.remove_operations 1;
              };
            }) in
            (suc removed_count, p')
      ]

  abbrev pub shrunk_size : ConnectionPool D → ℕ
  shrunk_size p =
      max (to_usize (times (of_usize p.stats.total_connections) (tenths 8))) p.initial_size

  unfoldable pub try_shrink : ConnectionPool D → Bool × ConnectionPool D
  unfolding utilization remove_many
  try_shrink p =
      let total = p.stats.total_connections in
      let (removed_count, p') =
        remove_many (min (total - shrunk_size p) p.stats.available_connections) p in
      if less (tenths 3) (utilization p)
      then (false, p)
      else if leb total p.initial_size
      then (false, p)
      else if leb total (shrunk_size p)
      then (false, p)
      else (ltb 0 removed_count, p')
