-- ===== src/Lib.antt =====
-- statsrelay: a relay that takes lines of statistics over TCP and UDP and sends each line to the
-- backend that a hash of its key selects.
--
-- The parts of the program, and the files that model them:
-- - src/buffer.c, a block of memory with a window of queued bytes: Buffer (the operations of the same
--   names without `buffer_`), Buffer/Invariant, Buffer/Queue (the queued bytes, `contents`),
--   Buffer/Growth.
-- - src/protocol.c, the parsers that find a line's key: Protocol, Protocol/Key.
-- - src/hashlib.c, MurmurHash3: Hash, with published values as tests in Hash/Tests.
-- - src/list.c, a growing array of pointers: PointerList, PointerList/Holds.
-- - src/hashring.c, the shards of the key space: Ring, Ring/Shards (which shard a key has), Ring/Load
--   (from the configuration), Ring/Dealloc.
-- - src/validate.c, the two line validators: Validate, Validate/Carbon, Validate/Statsd,
--   Validate/Lines.
-- - src/yaml_config.c, the configuration: Config (the records), Config/Events (the events of libyaml
--   and the variables of parse_config), Config/Scalars (what it does with a scalar), Config/Parser
--   (parse_config). Config/Document has documents of known settings, what they mean and the events
--   that libyaml makes of them; Config/Shards, Config/Settings and Config/Reading run parse_config on
--   them, Config/RoundTrip writes a configuration as a document, and Config/Flags is about a flag that
--   stays.
-- - src/tcpserver.c and src/udpserver.c: Listener (what both have of sockets that listen, with the
--   calls that differ as an argument), Listener/Bind; TcpServer (the sessions:
--   tcplistener_accept_callback, tcpsession_recv_callback, tcpsession_destroy, and `Callbacks`, the
--   interface that a listener's user fills), TcpServer/Sessions (the invariant), TcpServer/Isolation
--   (a step relation of libev's events, and what one event changes), TcpServer/Stats (stats_connection
--   and stats_recv as callbacks), TcpServer/Safety (no sequence of events makes these callbacks
--   undefined).
-- - src/server.c, the servers of both protocols: ServerCollection, ServerCollection/Ownership (the
--   objects that it holds and frees), ServerCollection/Owning (those of one server),
--   ServerCollection/Lifecycle.
-- - src/main.c: Main (main from the results of getopt_long to the exit code), Main/Ending, Main/Runs,
--   Main/Lifecycle.
-- - src/stathasher.c, the tool that prints the shards of keys: StatHasher, StatHasher/Addresses.
-- - src/stresstest.c, the tool that sends the keys of a file as counters: StressTest,
--   StressTest/Blocks (the block of getline), StressTest/Lines (one line), StressTest/Keys (all of
--   main), StressTest/Counters (what a server reads of it).
-- - src/log.c: Log, Log/Fill (its loops), Log/Messages, Log/Whole.
-- - src/tcpclient.c, the connection to one backend: Client (state), Client/Connect (tcpclient_connect
--   and the events that end an attempt), Client/Transfer (the events of a connected socket,
--   tcpclient_sendall), Client/Setup (tcpclient_init, tcpclient_destroy). Client/Action makes one step
--   relation of the events that libev can deliver and the calls of tcpclient_sendall; Client/Send,
--   Client/Stream, Client/Drain, Client/Watchers and Client/Backoff stand on it.
-- - src/stats.c, a server and its sessions: Stats (state), Stats/Backends (make_backend, find_backend,
--   kill_backend, stats_server_create, stats_server_reload), Stats/Backends/Naming,
--   Stats/Backends/Growing, Stats/Backends/Once, Stats/Backends/Ready, Stats/Backends/Sound,
--   Stats/Backends/Reload, Stats/Relay (stats_relay_line), Stats/Report (stats_send_statistics),
--   Stats/Session (stats_connection, stats_process_lines, stats_recv), Stats/Udp (stats_udp_recv).
--   Stats/Lines describes what a stream of bytes means, Stats/Reads what a read does to it,
--   Stats/Udp/Lines the lines of a datagram, and Stats/Routing where a line goes, Stats/Delivery what
--   becomes of the lines in a sequence of relays and of events at the backends' clients
--   (Stats/Delivery/Advance, Stats/Delivery/Steps, Stats/Delivery/Whole), Stats/Safety what a stream
--   of short lines cannot break (Stats/Safety/Session). Stats/Report/Printing, Stats/Report/Text and
--   Stats/Report/Sending are about the answer to `status`.
-- - Prelude and Bytes have the shared lemmas and the functions of string.h, Decimal the digits that
--   printf writes, Outcome the results of code that may leave the memory it owns, Examples concrete
--   states at which the theorems are applied.
--
-- How they interact: connect_server makes a server of stats.c out of a configuration and binds its
-- address for TCP and UDP; an event of a listener or a session of TcpServer calls stats_connection or
-- stats_recv. A session's bytes go through a Buffer to stats_process_lines; stats_relay_line asks the
-- Parser for the key, the Ring for the backend, and the backend's Client to queue the line; libev's
-- events empty the queue of the Client.
--
-- State is passed explicitly. A pointer to a backend is its place in `heap`, so that two shards can
-- share one. Bytes, offsets and counts are natural numbers; the wrap-around of size_t, uint64_t and
-- uint32_t is written out. Code that writes past the end of a static array gives `undefined`. malloc,
-- the resolver, the sockets and the clock are arguments: each call is given what they answer.
-- `IsMalloc` and `IsAllocator` state malloc's contract: a block has the size asked for, and no request
-- of 2^63 bytes or more succeeds. The validator of a server is an argument too, and strtod is one of
-- validate_statsd. The header of a ring's list is taken to be allocated, and the messages that the
-- other files log are left out. libyaml is a list of events, which ends where yaml_parser_parse fails;
-- strtol is an argument of parse_config. map_nesting, whose changes libyaml keeps balanced, wraps at
-- 2^32; shard_count is an int, and an increment of INT_MAX gives `undefined`. The sockets that are
-- open and those that libev watches are two lists of descriptors, and the objects that the process has
-- are a list of addresses: what stats_server_create and parse_config allocate, and the sockets of the
-- backends, are arguments of ServerCollection and Main. The block of a backend that kill_backend frees
-- stays in the heap. An accepted connection has a descriptor that is not open. In log.c each call of
-- vsnprintf has a text of its own, since the first one leaves the va_list indeterminate.
--
-- Fuel: stats_process_lines and stats_udp_recv consume a byte in each round and get as many rounds as
-- there are bytes; the loop of tcpclient_sendall that doubles the queue gains a byte at least in each
-- round and gets as many rounds as the bytes to be queued; the digits of a 64-bit number need 20
-- rounds; the loop of stresstest that doubles `len` gets as many rounds as the block must have bytes,
-- and its loop of send(2) one for each byte; stats_vlog doubles a buffer of 256 bytes or more at most
-- 22 times, and its writes get as many rounds as the text has bytes.
--
-- Not modelled: the event loop of libev and reload_config in src/main.c, which uses a variable that
-- the file does not declare; the usage texts, and the report that stresstest prints of the time it
-- took. What tcplistener_destroy frees and the fields of `hints` for getaddrinfo have no part in the
-- model.
pub mod Prelude
pub mod Bytes
pub mod Buffer
pub mod Protocol
pub mod Hash
pub mod PointerList
pub mod Ring
pub mod Config
pub mod Decimal
pub mod Client
pub mod Outcome
pub mod Validate
pub mod Listener
pub mod TcpServer
pub mod Stats
pub mod ServerCollection
pub mod Log
pub mod Main
pub mod StatHasher
pub mod StressTest
pub mod Examples
