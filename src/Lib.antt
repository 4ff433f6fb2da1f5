-- ===== src/Lib.antt =====
-- A model of msgtrans, a message transport over TCP, WebSocket and QUIC, in Rust: its wire format, its
-- lock-free containers, its pools, its TCP adapter, the transport around one connection with its
-- requests and its close protocol, the actor, and the server and the client above them.
--
-- The program. A `Packet` (src/packet.rs) is what users send: a fixed header of 16 bytes, an extended
-- header and a payload, possibly compressed. An adapter (src/adapters/tcp.rs) writes packets to a
-- socket and parses what it reads; its event loop turns reads, queued packets and the shutdown signal
-- into transport events (src/event.rs). A `Transport` (src/transport/transport.rs) has one connection:
-- it sends, matches responses to requests with its `RequestTracker`, passes other events on, and lets
-- one caller close a session with `ConnectionStateManager` (src/transport/connection_state.rs). The
-- server (src/transport/transport_server.rs) keeps a transport for each session, turns its events into
-- server events and answers requests through it; the client (src/transport/client.rs) has one transport,
-- connects it with retries and forwards its events. The user answers a request through a context
-- (src/event.rs) whose flag lets one response pass. An actor (src/transport/actor.rs) runs a connection
-- as tasks over queues, with the commands of src/command.rs. The sharded map of
-- src/transport/lockfree.rs, whose writes are compare-and-exchange loops, is the table of
-- `RequestManager` (src/transport/request_manager.rs), of the state manager and of the sessions. The
-- memory pool (src/transport/memory_pool.rs) and the connection pool (src/transport/pool.rs) reuse
-- buffers and connections through its queues. The configurations (src/protocol/client_config.rs,
-- src/protocol/server_config.rs) are validated and merged. All report the errors of src/error.rs.
--
-- The files.
--   Base            shared tests, lists, dictionaries, results and bit lemmas. Base/Dict is what
--                   std::collections::HashMap documents, as an association list.
--   Packet/Flags    ReservedFlags. Packet/Header: FixedHeader, PacketType, CompressionType,
--                   PacketError; `fields` is the part of FixedHeader::from_bytes behind its tests.
--   Packet/Message  Packet: constructors, setters, to_bytes, from_bytes (read_ext_header, read_payload
--                   and read_parts are the parts of it). WellFormed, RoundTrip, Decode and Truncation
--                   below it are about what is built, sent, read and cut short.
--   Packet/Compress compress_payload and decompress_payload; the crates flate2 and zstd are the record
--                   `Codecs`, and what is relied on of them is the record `Documented`.
--   Packet/Shared   SharedPacket and the zero-copy codecs. Sharing of bytes is not visible in values.
--   Packet/Ids      MessageIdManager; Ids/Threads has next_id as the atomic steps of many threads.
--   Lockfree/Map    a shard and the loop of insert and remove; Map/Cas its behaviour under interference;
--                   Map/Shards LockFreeHashMap as a whole, and Map/Shards/Laws its dictionary.
--   Lockfree/Queue  LockFreeQueue; Queue/Threads has push and pop as their separate steps.
--   Lockfree/Counter LockFreeCounter.
--   Lockfree/Interface the dictionary that the map offers to its clients, as a record of operations and
--                   laws, and the sharded map as an instance of it.
--   MemoryPool      OptimizedMemoryPool (src/transport/memory_pool.rs) over three of the queues, one
--                   call after the other; MemoryPool/Invariant is about its counters.
--   Pool            ConnectionPool (src/transport/pool.rs) over the dictionary and the queue; Pool/Resize
--                   its expansion and shrinking. Pool/Ownership and Pool/Resize/Bounds are about them.
--   Session/Requests RequestManager and Session/States ConnectionStateManager, over such a dictionary.
--   TransportError  the error type, its classification and its statistics.
--   Tcp/Buffer      OptimizedReadBuffer; Tcp/Loop the event loop, one round for each input.
--   Command         TransportStats and ConnectionInfo (src/command.rs); Command/Laws is about histories.
--   Event           TransportEvent and its classification; Event/Protocols TcpEvent, WebSocketEvent and
--                   QuicEvent; Event/Contexts TransportContext and RequestContext with the store of their
--                   flags; Event/Conversion ClientEvent and ServerEvent; Event/Results TransportResult;
--                   Event/Respond is about answering once.
--   Transport       send, set_connection and the close protocol; Transport/Tracker RequestTracker;
--                   Transport/Messages requests and on_event; Transport/Options TransportOptions and the
--                   calls with options. Closing, Coherence, Requests and Delivery are about them.
--   Server          the sessions' tables, sending and requests; Server/Sessions accepting, closing and
--                   broadcasting; Server/Events handle_transport_event, in parts, and `answer`, which runs the
--                   closure of a request. Registry, Closing and
--                   Answering are about them; Server/Registry/Steps has one lemma for each operation.
--   Client          TransportClient; Client/Connecting is about its retries and its request ids.
--   Actor           the four tasks of OptimizedActor::run_dual_pipeline, their join and the ends of their
--                   channels as steps: `adapt` is a round of the command adapter, `take_command` one of
--                   the command pipeline, and `process_data` a step of the data pipeline, which begins
--                   a batch, sends one packet of it or ends it. `data_queue_open` and `commands_open` say
--                   who has senders. Conservation, Counting and Waiting are about their schedules.
--   Config          RetryConfig and ConfigError; Config/TcpClient, Config/WebSocketClient and
--                   Config/QuicClient are the configurations of src/protocol/client_config.rs,
--                   Config/TcpServer, Config/WebSocketServer and Config/QuicServer those of
--                   src/protocol/server_config.rs, and Config/Laws is about merging and presets.
--
-- Conventions. A byte, a u16 and a u32 are numbers; casts and wrapping atomics are `%` written out,
-- and theorems that need a range say so. A buffer is a list of bytes. Statistics that are plain u64
-- fields of the read buffer, of ErrorStats and of TransportStats do not wrap in the model. The version
-- of a shard and the counters of the queue wrap at 2^64. A `Mutex`, an `RwLock` and an atomic operation
-- are single steps. A DashMap is used through the same dictionary as the sharded map. An adapter is a
-- number and its calls are recorded; an Arc<Transport> is an index into a list of transports; a oneshot
-- channel is a number with what was sent into it; a closure that answers a request is a value of
-- `Responder`, which `run_responder` of Server/Events and of Client runs. A method that awaits is one
-- step, or is cut at its wait into what comes before and after.
-- Logging is left out, and what is sent to a broadcast channel is recorded, newest first, since the code
-- ignores the result of sending.
--
-- Bounds. next_power_of_two doubles at most 64 times, which reaches every usize that has a next power
-- of two in a usize, and 2^64 itself. The loops of insert and remove take a list of rounds, each with
-- what other threads wrote in it; the code's own limit is 100 rounds. The event loop is a
-- function of its finite list of inputs, and a schedule of an actor, of a transport or of a server is a
-- finite list of steps. The attempts to connect are counted down from max_retries + 1.
--
-- Parameters. The hash of a key; the results of reads and writes of the socket, of calls of an adapter
-- and of attempts to connect; how a wait or a timeout ends; the times; whether the text of an error
-- speaks of a lost connection or of a timeout; the capacity that bytes::BytesMut has after `reserve`,
-- `split_to` and `with_capacity`; the codecs; addresses and their texts
-- (the record Config.Values); the f64 operations of the connection pool and of the
-- retry delay, and the comparison and the product in f64 of adjust_cache_limits.
--
-- Not modelled: the WebSocket and QUIC adapters (I/O over other crates), serve and the listeners of the
-- server, the builders, which store values, the worker of lockfree_connection.rs, the plugin registry,
-- src/transport/config.rs and src/transport/expert_config.rs, and the event streams.
pub mod Base
pub mod Packet
pub mod Lockfree
pub mod MemoryPool
pub mod Pool
pub mod Session
pub mod TransportError
pub mod Tcp
pub mod Command
pub mod Event
pub mod Transport
pub mod Server
pub mod Client
pub mod Actor
pub mod Config
