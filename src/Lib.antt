-- ===== src/Lib.antt =====
-- A verification library for LabStreamGate.
--
-- LabStreamGate takes connections to machines of a lab through WebSockets. The platform's gateway
-- (crates/wsrx/src/cli/serve.rs) keeps a registry of tunnels that a management interface fills; a
-- client that connects with a tunnel's key is proxied to the tunnel's target, its traffic is counted
-- and, where the tunnel asks for it, captured (crates/wsrx/src/cli/capture.rs), and an audit record
-- is appended to a log. The proxy itself (crates/wsrx/src/proxy.rs) also serves local tunnels, which a
-- local daemon or the desktop application opens for web pages that are allowed to control them.
--
-- The files, and the code that each models:
--   Common: tests into Bool, lists, results with do blocks, texts (lists of Unicode scalar values),
--     dictionaries (association lists), and the readers that the validation uses.
--   Http, Net: status codes with error texts, and socket addresses. Reading and printing of addresses
--     by `std::net` is the parameter `AddrText`.
--   Proxy: messages, `MessageCodec`, the conversions of the WebSocket stream. Proxy/Session: the two
--     loops `forward_observed` and the `select!` of `proxy_stream_observed`, as a state that events
--     change; an event says which loop polls its stream, whose sink finishes, or a cancellation.
--   Capture/Packet and Capture/Pcap: `build_udp_packet`, `ipv4_checksum`, `write_packet` and the
--     writer task `write_capture`; Capture/Replay reads such files back. Capture/Observer:
--     `CaptureObserver::observe`; Capture/Observer/Interleaving runs its atomic steps in any order.
--     Capture/Segment: `safe_segment`. Capture/AuditLog: `append_audit` over the files of a directory.
--   Gateway: the records and `GlobalState`, with the disk as a part of it. Gateway/Validate: keys,
--     targets and allowed hosts. Gateway/Auth: the bearer check. Gateway/Persist: `persist_registry`
--     and `load_registry`, with `serde_json` as the parameter `RegistryJson`. Gateway/Registry: the
--     handlers `launch_tunnel`, `get_tunnels`, `close_tunnel`, `ping`, with `active_record` and
--     `remove_expired`. Gateway/Traffic: `process_traffic` up to the upgrade, the permits, `health`.
--     Gateway/Session: what a connection does after the upgrade, up to its audit record;
--     Gateway/Session/Captured: what the record says of the capture.
--     Gateway/Launch: the checks of `launch` and the state it starts with. Gateway/Router: the
--     management routes of `build_router`. Gateway/Lifetime: histories of requests, and the table of
--     records that they mean; Gateway/Lifetime/Restart is about a launch after such a history.
--   Capture/Retention: `cleanup_capture_files` and `collect_pcaps`, over a tree of listings, with
--     times in nanoseconds; Capture/Retention/Trimming: what is left.
--   Daemon: the local daemon (crates/wsrx/src/cli/daemon.rs), its origins, pool, secret and heartbeat.
--   Desktop: the service of the desktop application (crates/desktop/src/daemon.rs), its instances and
--     scopes; Desktop/Api: the handlers of crates/desktop/src/daemon/api.rs, and the updates of the
--     state by crates/desktop/src/daemon/workers.rs; Desktop/Latency: a round of its `latency_loop`.
--     Desktop/Models: the texts of feature flags and of languages (crates/desktop/src/models.rs and
--     i18n.rs). Desktop/NetworkLogs: the log page (crates/desktop/src/ui/network_logs.rs), whose texts are lists of UTF-8 bytes, with `find_level`
--     and `spans_for_line`; its Highlight has `highlight_range`, its Editor `format_logs` and
--     `LogBackend`. Desktop/Root: the state of the window (crates/desktop/src/ui/root.rs).
--     Desktop/Pump: the event pump of crates/desktop/src/main.rs with the window's life, and
--     Desktop/Pump/Highlighted: what its log page shows.
--     Desktop/Launcher: the lock file and the log directory (crates/desktop/src/launcher.rs).
--   Samples and Tests under a component hold concrete inputs.
--
-- A handler is a function from the state to the state after it and its result; the clock, and what
-- the file system or the network answers, are arguments. Byte counters wrap at 2^64 as in the source,
-- and the fields of packets at 2^16 and 2^32. Fuel is in `fold_carries`, for which three rounds
-- suffice; in `find_word`, one more than the bytes of the line, since each round moves on by the word;
-- in the digits of a number, five for a port and 20 for a time; and in the reader of capture files,
-- which takes the number of records.
--
-- Not modelled: the matching of paths and the extractors of axum, the timers of tokio, the accept loop
-- of a local tunnel, the command line, and the rendering of the desktop application's window. Handlers
-- and rounds of the latency loop run one after the other, a measured latency is a natural number, and
-- the updates of the log editor, which the window spawns, and the measurement that a launch spawns
-- count as done. Atomics are taken as sequentially consistent, and a file time lies after the epoch.
pub mod Common
pub mod Http
pub mod Net
pub mod Proxy
pub mod Capture
pub mod Gateway
pub mod Daemon
pub mod Desktop
