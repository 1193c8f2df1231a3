-- ===== src/Lib.antt =====
-- A verification library of adbproxy-rs: a hub that shows the adb devices of several machines as those of one
-- local adb server, the proxies on those machines, and a daemon that serves all users of one machine.
--
-- How the parts interact. A client of adb sends a service in a smart-socket frame (src/protocol.rs). The
-- hub (src/session.rs) answers it from a merge of the device lists of its backends (src/registry.rs), from
-- which its policy (src/config.rs, src/policy.rs) has taken what is disabled, or sends it on to the backend
-- of the device, after a handshake with a pair code (src/auth.rs) and, for the forwards of scrcpy, by a local
-- tunnel (src/tunnel.rs). Where several users share a machine, the daemon (src/daemon.rs) answers each of
-- them from the shared devices and those of the user's own agent (src/tenant.rs), which speaks to the daemon
-- in messages of its own (src/ipc.rs). A hub asks a proxy for its version first (src/compat.rs), and then watches
-- its devices (src/backend.rs); the proxy (src/lib.rs) answers for the adb server behind it, less the devices that its
-- own policy (src/proxy_config.rs) disables.
--
-- Which file models which part:
--   Base, Map           what the files share: lists, tests into Bool, and maps as association lists; a map
--                       is read by its lookup alone, so the order of its entries does not matter
--   Text, Addr, Io      what the code uses of Rust's strings, addresses and results: a text is the list of
--                       its code points, bytes are numbers; UTF-8, white space, decimal and hexadecimal
--                       numbers are written out
--   Types               the records that several files use
--   Protocol            src/protocol.rs: read_packet, write_packet, read_okay_payload, parse_hex4 and the rest
--   Registry            src/registry.rs: parse_device_line, merge_device_lists, find, format_devices
--   Policy              src/policy.rs: DevicePolicyTable, filter_devices_body, transport_serial
--   Auth                src/auth.rs: pair codes, authenticate_stream, accept_auth
--   Config              src/config.rs: from_toml_file, upsert_backend, HubPolicySnapshot, refresh
--   Preferred           src/session.rs: pick_preferred, pick_one_on_backend
--   Rewrite             src/session.rs: rewrite_upstream_service; its layers are the successive tests
--   Session             src/session.rs: route_service, handle_client, forward_session; src/tunnel.rs: connect_backend
--                       (connect_tunnel)
--   Follow              src/session.rs and src/daemon.rs: track_devices, track_devices_multi; Follow.Current sets
--                       the loop beside update_from_backend_lists, whose write and whose notice are two steps
--   Compat              src/compat.rs: SemVer::parse, evaluate_proxy_version
--   Tenant              src/tenant.rs: TenantRegistry
--   Tunnel              src/tunnel.rs: TunnelManager (add, remove, remove_owner) and transport
--   Ipc                 src/ipc.rs: the messages, write_message, read_message, sanitized_to_snapshot
--   Daemon              src/daemon.rs: handle_adb_client and route_multi
--   Daemon.Agents       src/daemon.rs: handle_agent, agent_read_loop, poll_shared_once, forward_private
--   Agent               src/agent.rs: refresh_and_publish, open_private_stream, handle_daemon_message
--   Agent.Gate          src/agent.rs: the cache of compatible backends in refresh_and_publish
--   Config.File         src/config.rs: to_toml_string, from_legacy_adbproxy, local_only, from_config
--   ProxyPolicy         src/proxy_config.rs: ProxyFileConfig and ReloadableProxyPolicy
--   Proxy               src/lib.rs: proxy_connection, whose branches are functions of their own
--   Backend             src/backend.rs: connect_backend, the questions to a backend, filter_compatible_backends,
--                       poll_backends_once (once_lists)
--   Poller              src/backend.rs: run_backend_poller (seed), run_backend_watcher, watch_track_devices,
--                       publish_shared; src/registry.rs: update_from_backend_lists. In Poller.Overtaking each watcher
--                       hears, collects and publishes in this order, and the watchers interleave
--   Local               src/local.rs: LocalAdb
--   Hub                 src/hub.rs: what run_hub_with_shutdown does before it accepts clients
--   Daemon.Start        src/daemon.rs: run_daemon_with_shutdown up to its loop
--   Service             src/service.rs: run_service_with_shutdown, run_shared_service
--   Cli                 src/bin/adb-hub.rs: run_pair, run_unpair, run_device, run_node, build_config
--   Peercred            src/peercred.rs: is_loopback, fill_addrs, parse_inet_diag_uid
--   Runs                the theorems at concrete inputs, and runs of the code
--
-- How the code is modelled. A function that reads from a stream takes the bytes that the stream holds and
-- returns the rest; a function that writes is the bytes that it sends. A write to a client is taken to
-- succeed, but for the lists of a proxy, where the client can refuse each. A timeout is a flag of the attempt that
-- it ends. A handler of a connection ends in a value that says how it goes on: with an answer, by forwarding, by a
-- tunnel, by following the devices. State under a lock is passed on, and an operation under one lock is one
-- step; the daemon's agents and the hub's watchers are step relations, in which the operating system chooses the
-- order. Attempts that are made one after the other are numbered.
-- `&str` is a list of code points, without the bound of memory. `u16`, `u32` and `usize` have their bounds
-- where a number is read; the length of a frame between agent and daemon is cut to 32 bits, as in the code.
--
-- Loops and fuel. Most loops run over a list or over a text. Three take what a stream or the kernel sent packet by
-- packet: track_loop (Proxy), watch_loop (Poller) and scan (Peercred). Their fuel is one more than the number of bytes,
-- which is enough, since every packet takes a header at least. The digits of a number in Text.Number have the number
-- itself as their fuel: it has no more digits than that.
--
-- Parameters, for code that is not in the repository: the reading of socket addresses (Config, Cli), JSON (Ipc, the
-- record Json), TOML (ProxyPolicy), what the operating system answers to a bind (Tunnel), first to a request for the owner of a
-- socket (Peercred: what of that does not fit into the buffer is lost), of the user of a connection (Daemon) and to a command (Local), and the joining of two streams
-- (Proxy). The hypotheses on them are IsBind, IsReadable and ReadsBack: a bind gives the port asked for or one on
-- which nothing listens, a text that JSON has written is read back, and so is an address that was printed.
--
-- What is not modelled: tasks, timers, signals and logging; the copying of bytes between two joined streams;
-- the TOML text and the places of files, of which the values stand in the model; the channel of the notices, which is the
-- number of those that wait, and its bound, which is a lag; the failure of a write to an agent, which drops the stream
-- that was to be opened; the reading of arguments and the printing of lists in src/bin and src/main.rs; the unsafe calls
-- of src/peercred.rs and the names of users.
mod Base
mod Text
mod Io
mod Addr
mod Map
mod Types
pub mod Protocol
pub mod Registry
pub mod Policy
pub mod Auth
pub mod Config
pub mod Preferred
pub mod Rewrite
pub mod Service
pub mod Session
pub mod Compat
pub mod Tenant
pub mod Daemon
pub mod Tunnel
pub mod Ipc
pub mod Agent
pub mod ProxyPolicy
pub mod Proxy
pub mod Backend
pub mod Poller
pub mod Cli
pub mod Local
pub mod Hub
pub mod Follow
pub mod Peercred
mod Runs
