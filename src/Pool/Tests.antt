-- ===== src/Pool/Tests.antt =====
-- The connection pool at concrete pools, with fixed-point numbers of two decimals for f64.
use msgtrans_rust.Base.{
  ℕ, ◌-◌, ◌*◌, ◌/◌, ◌≤◌, ◌≡◌, ◌⊎◌, arith, true, [], none, some, ok, err, ltb, ◌==◌, if◌then◌else◌,
}
use msgtrans_rust.TransportError.{resource}
use msgtrans_rust.Lockfree.Interface.{Dictionary, sharded}
use msgtrans_rust.Pool.{
  in_use, PoolConnection, ConnectionPool, no_stats, new, initialize_pool, get_connection,
  return_connection,
}
use msgtrans_rust.Pool.Ownership.{
  is_available, is_in_use, IsOwned, get_connection-IsOwned, return_connection-IsOwned,
  initialize_pool-IsOwned,
}
use msgtrans_rust.Pool.Resize.{F64, get_current_expansion_factor, new_size, expand, try_shrink}
use msgtrans_rust.Pool.Resize.Bounds.{Expanded, expand_lem, try_shrink_lem}

abbrev by_id : Dictionary PoolConnection
by_id = sharded PoolConnection (λ k. k) 16 (omega arith)

abbrev two_decimals : F64
two_decimals = record {
  Float = ℕ;
  tenths = λ n. n * 10;
  of_usize = λ n. n * 100;
  to_usize = λ x. x / 100;
  less = ltb;
  sub_f64 = λ x y. x - y;
  times = λ x y. x * y / 100;
  divided = λ x y. x * 100 / y;
}

abbrev filled : ConnectionPool by_id
filled = initialize_pool by_id (new by_id 2 8) 0

filled-IsOwned : IsOwned by_id filled
filled-IsOwned = (initialize_pool-IsOwned by_id 2 8 0 (omega arith)).0

get_connection-IsOwned_example :
    ((filled.available_connections.channel ≡ [])
      × (get_connection by_id filled 1 5
          ≡ (err (resource "connection_pool" 0 filled.max_size), filled)))
    ⊎ ((k : ℕ) × ((get_connection by_id filled 1 5).0 ≡ ok k)
        × (is_available (by_id.get filled.active_connections k) ≡ true)
        × (is_in_use (by_id.get (get_connection by_id filled 1 5).1.active_connections k) ≡ true)
        × IsOwned by_id (get_connection by_id filled 1 5).1)
get_connection-IsOwned_example = get_connection-IsOwned by_id filled 1 5 filled-IsOwned

-- A pool whose one connection, 0, is in use.
abbrev held : PoolConnection
held = record {
  id = 0;
  session_id = none;
  created_at = 0;
  last_used = 0;
  use_count = 1;
  state = in_use;
}

abbrev busy : ConnectionPool by_id
busy = record {
  connection_id_counter = 1;
  active_connections = by_id.put_at 0 held by_id.empty;
  available_connections = record {
    channel = [];
    stats = record { enqueued = 1; dequeued = 1; current_size = 0 };
  };
  max_size = 8;
  initial_size = 1;
  current_factor_index = 0;
  stats = record no_stats { total_connections = 1; active_connections = 1; get_operations = 1 };
}

busy_entries : (k : ℕ) → by_id.get busy.active_connections k ≡ (if 0 == k then some held else none)
busy_entries k = ground (arith, by_id.get-put_at 0 k held by_id.empty, by_id.get-empty k)

busy-IsOwned : IsOwned by_id busy
busy-IsOwned = record {
  queued = λ k. ground (arith, busy_entries k);
  once = tt;
  unused = λ k h. ground (arith, busy_entries k);
}

zero_in_use : is_in_use (by_id.get busy.active_connections 0) ≡ true
zero_in_use = ground (arith, busy_entries 0)

return_connection-IsOwned_example :
    ((return_connection by_id busy 0 3).0 ≡ ok tt)
    × (is_available (by_id.get (return_connection by_id busy 0 3).1.active_connections 0) ≡ true)
    × IsOwned by_id (return_connection by_id busy 0 3).1
return_connection-IsOwned_example =
    return_connection-IsOwned by_id busy 0 3 busy-IsOwned zero_in_use

busy_grows : busy.stats.total_connections ≤ new_size two_decimals by_id busy
unfolding get_current_expansion_factor
busy_grows = omega arith

expand_lem_example : Expanded two_decimals by_id busy (expand two_decimals by_id 80 7 busy)
expand_lem_example =
    expand_lem two_decimals by_id 80 7 busy busy-IsOwned (omega arith) (omega arith) busy_grows

try_shrink_lem_example :
    let (answer, q) = try_shrink two_decimals by_id busy in
    (answer ≡ ltb q.stats.total_connections busy.stats.total_connections)
    × ((q ≡ busy)
        ⊎ ((busy.initial_size ≤ q.stats.total_connections)
            × (q.stats.total_connections ≤ busy.stats.total_connections)))
    × IsOwned by_id q
try_shrink_lem_example = try_shrink_lem two_decimals by_id busy busy-IsOwned (omega arith)
