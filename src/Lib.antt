-- ===== src/Lib.antt =====
-- Verification of sshe: nodes that probe their surroundings and each other over iroh connections
-- and run commands for each other (crates/sshe-protocol, sshe-core, sshe-node, sshe-cli), and
-- ssher, which picks the address that OpenSSH connects to (crates/ssher).
--
-- The program. A client (crates/sshe-node/src/client.rs) routes a request to this process, to the
-- local daemon over its socket, or to a temporary endpoint. The daemon serves local requests and
-- peers (server.rs), carries a request out (dispatch.rs) and forwards others over cached
-- connections (transport.rs). Messages travel as length-prefixed JSON (sshe-protocol/src/codec.rs).
-- Probes run in rounds that callers share (sampling.rs), and their results are kept in bounded
-- series (history.rs), at the deadlines that the scheduler keeps (scheduler.rs). The daemon
-- (daemon.rs) holds the identity's lock, the socket and the slots for connections. The settings
-- come from config.rs and the key from identity.rs; the command line is crates/sshe-cli.
--
-- The files, and what they model:
-- - Protocol/Message, Limits, Codec: crates/sshe-protocol/src/message.rs, limits.rs, codec.rs and
--   error.rs. A byte is a number below 256, and a reader is the bytes that are left with the error
--   that ends them.
-- - Io, Core/Error, Core/Config: the errors of I/O as far as they are told apart, and
--   crates/sshe-core/src/error.rs and config.rs.
-- - Node/Error: crates/sshe-node/src/error.rs, the classification of failures.
-- - Node/History: history.rs. `History` is a map of series in the order of their keys; `insert`
--   returns the new history, the record as the call leaves it, and the transition.
-- - Node/Transport: transport.rs; its endpoint is Node/Transport/Setup. A call is a function of the
--   clock, the slots of the dialer and the outside; a future that is awaited gets a cut-off, and
--   `none` is one that was dropped there.
-- - Core/Exec: crates/sshe-core/src/exec.rs. A future is the time it is ready at, if ever, with its
--   result; a command is a function of the operating system. Core/Exec/Framed puts its result on
--   the wire of Protocol/Codec.
-- - Core/Probe: crates/sshe-core/src/probe/measurement.rs, network.rs, services.rs, and
--   Core/Probe/Host: host.rs. The checks of a group start at once, in the outside as it is then.
-- - Node/Probe: probe.rs, the checks of each kind over Core/Probe and Node/Transport; its child
--   Answered joins them to the interface of Node/Dispatch.
-- - Node/Config: config.rs (validation, read, save and the default path).
-- - Node/Disk: the file system as a parameter, and actions on it that may fail, in do notation.
-- - Node/Layout, Node/Identity: layout.rs, identity.rs, `init` of config.rs, and
--   `endpoint_id` of crates/sshe-node/src/lib.rs.
-- - Node/Dispatch: dispatch.rs, and the choice of checks in probe.rs.
-- - Node/Client: client.rs and ipc.rs, every path of `invoke`.
-- - Node/Sampling: sampling.rs: the rounds of one probe kind as a step relation over its slot, with
--   the calls, the leaders and the waiters in any interleaving. Node/Sampling/Sampler has the slots
--   of all kinds, as the steps of tasks on the slot of their kind, and what the calls return.
-- - Node/Scheduler: scheduler.rs, the loop of one kind as a step relation over the slot of
--   Node/Sampling. Node/Sampling/Lines: sampling/log.rs.
-- - Node/Daemon: daemon.rs: the socket and the guards as actions on a session, the loop over what
--   its `select!` sees, with the slots for connections and for local requests.
-- - Cli/Args, App, Output, Main: crates/sshe-cli/src/args.rs, app.rs, output.rs and main.rs.
-- - Node/Server: server.rs: the handlers of a stream as functions, and one connection as a step
--   relation, so that every interleaving is a sequence of steps. Node/Server/Wire puts a handler on
--   streams of frames (Protocol/Codec) with the limits of its read and its write, and
--   Node/Server/Called joins it with the caller of Node/Transport.
-- - Ssher/Config, Cache, Selector, App: crates/ssher/src/ssher/config.rs, cache.rs, selector.rs,
--   args.rs, and crates/ssher/src/app.rs and error.rs. Ssher/Proxy: crates/ssher/src/proxy.rs, where
--   a future is the time it is over at, if ever, with its result. Ssher/Main: its main.rs.
-- - Prelude: what the other files share (lists, results, maps, texts and Boolean tests). A
--   `BTreeMap` is a list of entries in the order of the keys (Prelude/Maps).
--
-- Parameters. iroh, tokio, TOML, JSON, the file system, clocks and the network are records of
-- operations (Iroh, Json, Toml, Files, Outside and others), which the definitions take. Where a
-- theorem relies on what they do, a hypothesis says so: a written file is read back (IsDisk,
-- IsFaithful), a writer appends, the outputs of concurrent futures come in any order, each once.
-- A created file has mode 600 and its content, and no file is replaced without clobbering
-- (IsPlatform, KeepsFiles); iroh's builder sets what is asked of it (IsBuilders). Node/Dispatch takes
-- the sampler, the checks and the dialer as an interface, `Parts`.
--
-- Bounds. Numbers are unbounded, with the source's saturation and limits written out (u64 in
-- Ssher/Cache and Core/Probe/Host, u32 in Protocol/Codec). Loops are recursions on lists. The
-- digits of a number have fuel 20, which the largest u64 needs.
--
-- Not modelled: clap's parser, what is printed and logged (but which filter the logs have, and the
-- line of a record), `io::copy` and the other calls of tokio and iroh, which are parameters, and
-- the clock of crates/sshe-core/src/time.rs. Peer addresses (`Peer::addr`) are handed to iroh as
-- they are.
pub mod Cli
pub mod Core
pub mod Io
pub mod Node
pub mod Prelude
pub mod Protocol
pub mod Ssher
