-- ===== src/Lib.antt =====
-- SMP3 multipath transport: models of the protocol core and proofs about them.
--
-- The core carries one application stream, or the datagrams of one association, over several
-- carriers (legs). A client opens each leg with a HELLO, authenticated under the shared password
-- (core/hello.go), and both sides then exchange frames with a 13-byte header
-- (core/stream_frame.go) or datagram frames (core/datagram_engine.go). The sender keeps every frame
-- in a ledger until a cumulative ACK retires it, and moves, repeats or rescues frames between legs
-- (core/stream_tx.go); the receiver puts the frames of all legs in order (core/stream_rx.go) and
-- writes them to the application (rxLoop of core/stream_engine.go).
--
-- Files and what they model:
--   Base            lists, maps, signed and fixed-width integers that the other files share
--   Wire.Bytes      big-endian fields, io.ReadFull and rows of fields; Wire.Result, Go's errors
--   Wire.Frame      core/stream_frame.go: validateStreamFrameHeader, EncodeStreamFrameHeader,
--                   ReadStreamFrameHeader
--   Wire.Hello      core/hello.go: EncodeHelloParts and ReadHelloAt; `mac` stands for HMAC-SHA256
--   Wire.Datagram   core/datagram_engine.go: WriteDatagramFrame and ReadDatagramFrame
--   Datagram        core/datagram_engine.go: acceptDatagramID
--   Rx              core/stream_rx.go: StreamRXWindow; Rx.Window has its invariants
--   Rx.Loop         core/stream_engine.go: rxLoop, one `receive` for each frame that arrives
--   Tx              core/stream_tx.go: the record and the ledger; Tx.Attempts the claims, commits
--                   and failures of attempts; Tx.Legs the ownership counters of the legs; Tx.Ack
--                   ApplyACK; Tx.Run any sequence of these calls
--   Tx.Repair       core/stream_repair.go: PlanRetries and RestrictedFrontierBatch
--   Tx.Frontier     core/stream_repair.go: FrontierCandidate and DecideStreamTXFrontierRepair; and
--                   core/stream_tx.go: frontierSnapshot, probeReference, probeReferenceSnapshot's
--                   reference and sentTailStalled
--   Startup         core/stream_startup.go: the gate and await, on a list of select's events
--   Path            core/stream_path_protocol.go: the capabilities that READY negotiates and the keys
--                   it derives; Path.Ready, Path.Rtt and Path.Drain the three messages, Path.Writer
--                   writeProtocolFull, Path.Agree the server's and the client's ends of READY
--   Path.Probe      core/stream_rtt_probe_cache.go: the cache of round-trip samples; Path.Probe.Cache
--                   the legs and what waits, Path.Probe.Exchange probes, answers and echoes,
--                   Path.Probe.Sample the windows of samples, Path.Probe.Feedback what the scheduler
--                   reads
--   Rescue          core/stream_bounded_rescue.go: the state of the rescue budget; Rescue.Classify
--                   ClassifyStreamRescue, Rescue.Window the rolling window, Rescue.Reserve and
--                   Rescue.Write the operations, Rescue.Run any sequence of them
--   Drain           core/stream_coordinated_drain.go: one coordinated drain at an endpoint;
--                   Drain.System both endpoints and the control messages between them, with whatever
--                   of other operations is still under way
--
-- Conventions. A byte, a length and an instant are natural numbers, an instant counting from a
-- point where 0 stands for Go's zero time; unsigned arithmetic is written with its modulus. A Go map
-- is an association list. A record pointer is the record's sequence, with `none` for nil. A mutex
-- makes each method one step. A slice that a Go index could leave is guarded as the source guards
-- it.
--
-- Fuel. The inner loop of rxLoop is the only recursion on fuel: it is given one round for each
-- retained frame and one for the frame in hand. ApplyACK's loop is recursion on the number of
-- sequences left. writeProtocolFull has one round for each byte.
--
-- Parameters. HMAC-SHA256 (`mac`, whose codes are assumed to have 32 bytes in the round trips of
-- messages and of probes), the application pipe (`pipe_accepts`, which may fail at any write) and the io.Writer of a carrier
-- (`write`, which takes a front part of the bytes it is given, and may fail).
--
-- A write to the application that fails ends the loop; what the pipe may have taken of that one frame
-- is not counted as written.
--
-- Not modelled: goroutines and channels, timers, telemetry and traces, floating-point capacity
-- estimates, buffer pools, dialling and listening, and the adapters, which bind the core to other
-- programs.
pub mod Base
pub mod Wire
pub mod Rx
pub mod Tx
pub mod Datagram
pub mod Startup
pub mod Path
pub mod Rescue
pub mod Drain
