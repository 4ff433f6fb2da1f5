-- ===== src/Pool.antt =====
-- src/transport/pool.rs, ConnectionPool: connections in the lock-free map, the ids of the free ones in
-- the lock-free queue. `Instant::now()` and the waiting time are arguments; the event channel is left
-- out, as its results are ignored, and so is the id in the text of an error. Pool/Resize has expansion and shrinking.
pub mod Resize
pub mod Ownership
mod Tests
use msgtrans_rust.Base.{
  ℕ, zero, suc, ◌+◌, ◌-◌, ◌%◌, String, Bool, true, false, List, Option, none, some, Result, ok, err,
}
use msgtrans_rust.TransportError.{TransportError, resource, configuration}
use msgtrans_rust.Lockfree.Interface.{Dictionary}
use msgtrans_rust.Lockfree.Queue
use msgtrans_rust.Lockfree.Queue.{LockFreeQueue, word, push, pop}

pub data ConnectionState : Type 0 where
  available in_use maintenance failed : ConnectionState

pub record PoolConnection : Type 0 where
  pub id : ℕ
  pub session_id : Option ℕ
  pub created_at : ℕ
  pub last_used : ℕ
  pub use_count : ℕ
  pub state : ConnectionState

pub record OptimizedPoolStats : Type 0 where
  pub total_connections : ℕ
  pub active_connections : ℕ
  pub available_connections : ℕ
  pub get_operations : ℕ
  pub return_operations : ℕ
  pub create_operations : ℕ
  pub remove_operations : ℕ
  pub total_wait_time_ns : ℕ
  pub total_operations : ℕ

-- `fetch_add` and `fetch_sub` of an AtomicU64.
abbrev pub plus : ℕ → ℕ → ℕ
plus a n = (a + n) % word

abbrev pub minus : ℕ → ℕ → ℕ
minus a n = (a + word - n) % word

abbrev pub no_stats : OptimizedPoolStats
no_stats = record {
  total_connections = 0;
  active_connections = 0;
  available_connections = 0;
  get_operations = 0;
  return_operations = 0;
  create_operations = 0;
  remove_operations = 0;
  total_wait_time_ns = 0;
  total_operations = 0;
}

abbrev pub fresh_connection : ℕ → ℕ → PoolConnection
fresh_connection connection_id now = record {
  id = connection_id;
  session_id = none;
  created_at = now;
  last_used = now;
  use_count = 0;
  state = available;
}

module _ (D : Dictionary PoolConnection) where
  open D use {Carrier, empty, get, put_at, drop_at}

  pub record ConnectionPool : Type 0 where
    pub connection_id_counter : ℕ
    pub active_connections : Carrier
    pub available_connections : LockFreeQueue ℕ
    pub max_size : ℕ
    pub initial_size : ℕ
    pub current_factor_index : ℕ
    pub stats : OptimizedPoolStats

  unfoldable pub new : ℕ → ℕ → ConnectionPool
  new initial_size max_size = record {
    connection_id_counter = 0;
    active_connections = empty;
    available_connections = Queue.new;
    max_size = max_size;
    initial_size = initial_size;
    current_factor_index = 0;
    stats = no_stats;
  }

  -- The body of the loops of `initialize_pool` and `smart_expand`; neither the map nor the queue fails.
  unfoldable pub create_one : ℕ → ConnectionPool → ConnectionPool
  create_one now p =
      let connection_id = p.connection_id_counter in
      record p {
        connection_id_counter = plus p.connection_id_counter 1;
        active_connections =
            put_at connection_id (fresh_connection connection_id now) p.active_connections;
        available_connections = (push p.available_connections connection_id).0;
        stats = record (p.stats) {
          total_connections = plus p.stats.total_connections 1;
          available_connections = plus p.stats.available_connections 1;
          create_operations = plus p.stats.create_operations 1;
        };
      }

  unfoldable pub create_many : ℕ → ℕ → ConnectionPool → ConnectionPool
  create_many zero now p = p
  create_many (suc n) now p = create_many n now (create_one now p)

  unfoldable pub initialize_pool : ConnectionPool → ℕ → ConnectionPool
  unfolding create_many
  initialize_pool p now = create_many p.initial_size now p

  unfoldable pub get_connection : ConnectionPool → ℕ → ℕ → Result ℕ TransportError × ConnectionPool
  get_connection p now wait_time =
      let (queue, popped) = pop p.available_connections in
      let p' = record p { available_connections = queue } in
      let failure = err (resource "connection_pool" 0 p.max_size) in
      elim popped [
        | none ↦ (failure, p')
        | some connection_id ↦ elim (get p.active_connections connection_id) [
          | none ↦ (failure, p')
          | some connection ↦ (
            ok connection_id,
            record p' {
              active_connections =
                  put_at connection_id
                    (record connection {
                      state = in_use;
                      last_used = now;
                      use_count = plus connection.use_count 1;
                    })
                    p.active_connections;
              stats = record (p.stats) {
                get_operations = plus p.stats.get_operations 1;
                available_connections = minus p.stats.available_connections 1;
                active_connections = plus p.stats.active_connections 1;
                total_wait_time_ns = plus p.stats.total_wait_time_ns wait_time;
                total_operations = plus p.stats.total_operations 1;
              };
            },
          )
        ]
      ]

  unfoldable pub return_connection :
      ConnectionPool → ℕ → ℕ → Result (Unit {0}) TransportError × ConnectionPool
  return_connection p connection_id now = elim (get p.active_connections connection_id) [
    | none ↦ (err (configuration "return_connection" "Connection not found"), p)
    | some connection ↦ (
      ok tt,
      record p {
        active_connections =
            put_at connection_id (record connection { state = available; last_used = now })
              p.active_connections;
        available_connections = (push p.available_connections connection_id).0;
        stats = record (p.stats) {
          return_operations = plus p.stats.return_operations 1;
          available_connections = plus p.stats.available_connections 1;
          active_connections = minus p.stats.active_connections 1;
        };
      },
    )
  ]
