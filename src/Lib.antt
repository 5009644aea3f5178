-- ===== src/Lib.antt =====
-- banc, a host framework for tests on hardware: the parts of it that decide who may use a rig, who
-- is let in, what was seen, and when a test passes.
--
-- A test process finds the configuration of the rig (Config), takes the rig for itself by a lease or
-- a lock file (Rig), reaches the nodes of the bench (Node) over framed and authenticated streams
-- (Net), runs its trials one after the other (Runner), asserts on streams of events (Expect), pairs
-- with tests on the device (Device), captures the output of the target (Probe), and keeps evidence
-- (Evidence) and records (Results). The rig daemon arbitrates the rig between processes on several
-- machines by a lease that it lets expire (Lease). A node speaks the interface of Icd, as the reference
-- firmware does (Assistant). The command line tool says what of a rig is in order (Cli).
--
-- - Common: Boolean tests and lists over the native numbers, `Result` with `?` as a do block, texts as
--   lists of code points with their UTF-8 length, time in nanoseconds.
-- - Net: banc-host/src/net/mod.rs. write_frame, read_frame and their blocking forms, token_eq, and
--   the two halves of the handshake are functions on the bytes to be read and those written. postcard
--   is a `Codec`, a parameter of which only the round trip is relied on. Net.Wire is connect_node and
--   the two ends of its wire.
-- - Lease: banc-host/src/net/lease.rs. LeaseServer::handle is `handle`, its expiry `expire` and its
--   match `dispatch`; a run of the server is the list of its calls, each with the instant and the
--   random bytes it meets. Lease.Refinement sets beside it a slot that counts down. Lease.Serve is
--   serve_conn over Net, Lease.Client the client's loops over the answers they get;
--   Lease.Client.Wire is its connect and roundtrip over Net, and Lease.Client.Dialogue and Asking its
--   acquisition over that. Lease.Client.Life is LeaseClient from its acquisition to its drop.
--   Lease.Client.Sessions is any number of clients at one server, as a step relation whose steps are
--   the roundtrips of the clients, each of which may be lost.
-- - Config: banc-host/src/config.rs. locate, load, validate, and the lookup of entries.
-- - Rig: banc-host/src/rig.rs. Rig::acquire composed of Config's functions, the two ways to hold a
--   rig, and the lock file with its note. Rig.Token is what read_token makes of a file, Rig.Fixtures
--   target_token, artifacts_dir and Rig::assistant; Rig.Leased joins Rig::acquire with the client of
--   the lease.
-- - Node: banc-host/src/node.rs. Node.Firmware and Node.Routing join it with
--   Assistant, Node.Network with Net.
-- - Icd: banc-icd/src/lib.rs. The messages, and the tables of endpoints! and topics! as functions of
--   an endpoint or a topic: `RequestTy`, `ResponseTy`, `MessageTy`, `path`, `topic_path`.
-- - Assistant: banc-assistant/src/main.rs. The statics PIN_SLOTS and MONITOR_STOP and the tasks that
--   run are the record `Device`; the table of define_dispatch! is `dispatch`, one function per
--   handler. The executor is cooperative, so that pin_monitor_handler is cut where it awaits:
--   `pin_monitor_handler` up to its reply, `wake_at` from one await to the next. `Step`, in
--   Assistant.Running, interleaves requests, wakes and the reset of the chip. The drivers and signals
--   of embassy are the record `Board`. Assistant.Start is main, from the chip id to the loop of its server,
--   and reset_handler.
-- - Cli: banc/src/bin/banc.rs. load_config, rig status, tcp_reach and which_probe_rs in Cli, doctor in
--   Cli.Doctor, probe in Cli.Probe, main in Cli.Main. What the machine and the network answer is the
--   record `World`, beside the `Env` of Rig.
-- - Evidence: banc-host/src/evidence.rs. Expect: banc-host/src/expect.rs. Results:
--   banc-host/src/results.rs. Device: banc-host/src/device.rs, with the macro paired_suite!,
--   whose tests Device.Paired puts into the runner.
-- - Runner: banc-host/src/runner.rs, over Evidence and Results; the failure type of libtest_mimic is a
--   parameter (Common.Failed). Runner.Acquired joins it with Rig; Runner.Exit is the exit
--   code of the test binary.
-- - Probe: banc-probe/src/local.rs and the capture health of banc-probe/src/lib.rs. Probe.Target is
--   Target::open, open_session, the handle of the worker, and banc-probe/src/remote.rs over a machine
--   whose state is of any type; Probe.Handle is RttCapture, which stops the worker's polling.
-- - Instrument: banc-instrument/src/lib.rs.
-- The modules called Tests hold examples.
--
-- Bounds and fuel. Instants and durations are numbers without a bound; the casts to 32 bits of the
-- lease protocol and of the frame header are written out as remainders. Loops over time (the server's
-- connection, the client's waiting, renewal and join, the worker of the probe, the wait for the lock
-- file) are recursion on the list of what they meet, and end where it ends in a value of its own
-- (`running`, `waiting`, `sleeping`). The loop that takes lines off the pending bytes has those
-- bytes' number as fuel, and each line has one byte at least. The counters of doctor wrap around at
-- 2 ^ 32 and the sequence numbers of the firmware at 2 ^ 16.
--
-- Not modelled: how the firmware sets up clocks, buffers and the executor, which are calls of embassy,
-- and its build script; an empty pool of monitor tasks, which the bound on their number rules out for
-- the monitors alone, and a second reset while one is under way; sockets' time-outs, which show as
-- errors of a roundtrip; the selection of trials by the command line, which is libtest_mimic's; the
-- client of postcard-rpc, and TokioSpawn, which only calls tokio; the lock that the operating system
-- keeps on a file, of which only the answer to each try is known; whatever only prints.
pub mod Common
pub mod Config
pub mod Cli
pub mod Net
pub mod Lease
pub mod Evidence
pub mod Expect
pub mod Device
pub mod Results
pub mod Icd
pub mod Node
pub mod Assistant
pub mod Instrument
pub mod Rig
pub mod Runner
pub mod Probe
