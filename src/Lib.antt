-- ===== src/Lib.antt =====
-- Verification of masseuse-camlink, the connector between a camera or a stimulation device at home and
-- the service.
--
-- The program's parts here, and the files that model them:
--
--   internal/frame/frame.go      Frame: the wire format of the tunnel. `Decode`, `Encode`, `Reader.Read`
--                                and `Writer.Write` are `decode`, `encode`, `read` and `write`.
--   internal/mux/mux.go          Mux: streams over one tunnel. Mux.Stream is what a stream's own lock
--                                guards, Mux.Session the table of streams and what is sent,
--                                Mux.ReadLoop the loop over the frames that arrive, Mux.Calls the calls
--                                of the owner (Open, Accept, Read, Write, CloseWrite, Close).
--   internal/serve/gate.go       Serve.Gate: `track`, the gate that drops whole video frames while the
--                                tunnel is behind (`admit`), and the continuity of what goes out
--                                (`stamp`); Serve.Gate.Kind is `h264Kind` and `h265Kind`.
--   internal/serve/timed.go      Serve.Timed: `TimedWriter`, which holds packets until their source has
--                                told the time.
--   internal/estim/estim.go      Estim.Caps: settings, and the caps on a command (`CheckCaps`);
--                                Estim.Finders: the search for a device (`Find`, `List`).
--   internal/estim/runtime.go    Estim.Runtime: `Runtime`, which holds one device fail-closed. State is
--                                its fields, Release the operations that take a device or let it go,
--                                Actuation those that arm it and run commands, Telemetry the ring and
--                                `Sample`, Select `SelectUnit`, Events any sequence of them.
--   internal/estim/session.go    Estim.Session: `Session`, which speaks to the service. Outbox is
--                                `trimLocked`, State the fields and what is queued, Handle the messages
--                                of the service and the ticks, Tasks the goroutines that they start,
--                                Flush the sending, Steps any sequence of all that.
--   internal/estim/mastago       Estim.Mastago: the driver of the reference unit. Codec, Countdown and
--                                Reply are codec.go; Framing `onNotify`, Device the state and what a line
--                                does to it, Exchange `exchange`, Commands the queries and settings, Ramp
--                                `Ramp`, `zero` and `Release`, Readings `Status` and `Telemetry`, of
--                                device.go; Driver is driver.go.
--   internal/rendezvous/rendezvous.go
--                                Rendezvous: the client of the service. Backoff is the schedule of `Run`,
--                                Events the lines of `Stream`, Client `dispatch` and the requests.
--   internal/attest/attest.go    Attest: whether an origin is an enclave. Policy is `Policy` and its
--                                `Validate`, Release the tags, Json the claims' readers, Claims
--                                `checkClaims`, Token `VerifyToken` and `Verify` on a document fetched.
--   internal/tunnel/tunnel.go    Tunnel: which targets a tunnel may reach (`targetPolicy`,
--                                `ResolvePrivate`), and `handle` of an OPEN.
--   internal/gateway/gateway.go  Gateway: the other end in the enclave, which connector it expects, which
--                                is attached, and the target that it relays to.
--                                Handshake is the exchange that opens a tunnel, `prove` of tunnel.go
--                                and `handshake` of gateway.go, over `TunnelProof` of
--                                internal/identity/identity.go.
--   internal/attest/floors.go    Attest.Floors: `Floors.Apply`; Attest.Hosts: the DNS suffixes.
--
-- How they interact: the tunnel carries frames (Frame) between two sessions (Mux); the server's tracks
-- (Serve) go through a stream of one; the runtime (Estim) holds the device that the service commands
-- through a session; and a camera is relayed only to an origin that has been verified (Attest) under
-- the service's policy, tightened by the floors of the build.
--
-- Numbers are naturals, with the wrap-around of the source's widths written out; levels and deltas are
-- integers; bytes are numbers below 256 and strings their bytes. A Go error is a value. State is passed
-- explicitly: each method of a session and of a runtime is taken as one step,
-- and a run is a list of steps. Goroutines that a session has started wait in a list, from which any may
-- run next, each as a whole. A stream that has left its session's table lives on in a heap.
--
-- A unit's Device carries a script: for each exchange what arrives before and after the command, so that
-- a theorem over all devices is one over all that a unit and its link may do. Lines that arrive while no
-- operation runs belong to the next exchange; other callers of the same device wait for their turn, and
-- are not modelled. The pause between two writes is modelled by whether the context ends in it.
--
-- Parameters: what the connection under a session does with a frame (`accepts`), the clock ticks of a
-- gap, which go through floating point in the source (`ticks`), what a device answers (`Io`), and the
-- comparison and splitting of strings in `isUnit`. For attestation, a `Library` has base64, SHA-256,
-- JSON, the key source, RSA signatures, lower case and the test for IP addresses; a tunnel's `Net` has
-- Go's net package, the gateway's `Codecs` base64, hex, SHA-256 and string functions. The unit's voltage
-- is read by `parse_volts`, as the bits of a float, and made a percentage by
-- `battery_percent`; the data of events by `Decoders`.
--
-- Fuel: the read loop takes more rounds than the input has bytes, since every frame uses up nine bytes
-- at least; a write takes a round for each byte at most; the loop over an aggregation packet takes two
-- bytes a round; trimming drops a message a round; the lines of a notification take a byte or more each.
-- The fuel given is those lengths.
--
-- Not modelled: the discovery of units; HTTP and the signing of the client's posts, and the limit on the
-- length of a line of its stream; Relay (copying between a stream and a TCP connection), the runtime's
-- listing of units and the ticker loop of `Run`; the notification channels, which only wake a reader; the
-- fetching and caching of keys and documents; and the parts that are I/O, signatures, bindings to the
-- system or user interface.
pub mod Prelude
pub mod Frame
pub mod Mux
pub mod Serve
pub mod Estim
pub mod Attest
pub mod Tunnel
pub mod Rendezvous
pub mod Gateway
pub mod Handshake
pub mod Tests
