-- ===== src/Lib.antt =====
-- go-ipsec: a verification library beside the userspace IKEv2/IPsec client.
--
-- The client sends and receives datagrams on UDP port 4500. internal/natt tells IKE messages, ESP packets
-- and keepalives apart. IKE messages go through the codec internal/ikemsg, which is the first code to see
-- bytes from the network before any authentication. ESP packets go through internal/esp: Decrypt checks the
-- SPI and the integrity of a packet, asks the anti-replay window, decrypts and takes the trailer off;
-- Encrypt takes the next sequence number, lays out the trailer and seals. internal/session drives the
-- exchanges with both, and dataplane.go moves packets between the tunnel and internal/esp.
--
-- Files, and what they model:
--   Common         what the modules share: the outcome of a Go call (a value, a returned error, a panic),
--                  byte slices with their range checks, big-endian words, postconditions, and the loop that
--                  cuts one piece off a slice in each round (Common/Drain).
--   Ikemsg         internal/ikemsg. Const is const.go; Sa, Simple, Notify, Ts and Config are the
--                  payloads_*.go of those names; Message is payload.go and message.go. A type that
--                  implements the interface Payload is a constructor of Message.Payload, and the methods
--                  marshalBody and unmarshalBody are functions by cases on it. unmarshalBody takes the
--                  receiver as it was and returns it as it is left.
--   Crypto         the cryptography of other packages as a record of operations, and the laws that their
--                  documentation gives.
--   Esp            internal/esp. Replay is replay.go: Accept returns its answer and the window it leaves.
--                  Trailer and Packet are esp.go: Encrypt and Decrypt return their outcome and the SA they
--                  leave. Replay/History is the specification of the window:
--                  the list of accepted sequence numbers.
--   Natt           internal/natt/natt.go; SHA-1 and netip.Addr are arguments of the hash.
--   Ikesa          internal/ikesa: prf+ of crypto.go, and child.go. The loop of prf+ runs on fuel 257; its
--                  guard ends it within 256 rounds. Dh is dh.go, over math/big and crypto/ecdh as operations
--                  with laws. Keys is the derivation of keys.go, and Sk its SK payload:
--                  EncryptToSK returns the SA with the counter that it leaves, FinalizeSK the message that it
--                  changes in place.
--   Eap            internal/eap/eap.go, the framing of EAP packets. Mschap is mschapv2.go and msk.go: a handler
--                  returns its outcome and the conversation that it leaves; what rand.Read gives is an
--                  argument, and the hashes of layeh.com/radius are a record of operations.
--   Session        internal/session. Protected is protected.go; time.Now is an argument. Suites is suite.go;
--                  the type parameter for the layer is the type Layer. Window is the part of
--                  informational.go that keeps the one outstanding request: its retransmissions, dead peer
--                  detection, the superseded SA's grace period and the cached responses. The session's fields
--                  are a record, with the datagrams sent as a list; a function that changes them returns the
--                  session it leaves. Tick is housekeeping up to where it starts new exchanges. A clock
--                  reading is an argument; times are numbers of nanoseconds, and the doubling of a delay
--                  stays far below 2^63 for any delay that a program can wait for. Act is the type of the
--                  driver's functions, over the session and an error; what one of them draws from outside
--                  (the clock, crypto/rand, whether Send fails, the jitter, a float in the code) is the
--                  record Fresh. Rekey is rekey.go, and Driver the rest of informational.go: Driver/Loop has
--                  housekeeping and the loop, whose events are datagrams and ticks. The data plane is
--                  the list of what was installed in it, and a datagram counts as sent where Send fails too.
--                  Child has the types that these share.
--   Identity       identity.go: the constructors of identities, their check and their wire form; net/netip
--                  is an argument.
--   Config         config.go: validate returns the configuration that it leaves.
--   Tests          concrete runs.
--
-- Numbers of Go's unsigned types are natural numbers, with the wrap-around written out where the code
-- converts or shifts. An index or slice out of range is `panic`, never a default. The texts of errors are
-- left out: an error is a constructor for the place that returns it. A loop over the rest of a slice runs on
-- fuel, the length of the slice: each round takes at least one byte, so the outcome `stuck` is excluded
-- wherever a theorem says that a call returns. Calls that the code makes atomic, by a mutex or a
-- compare-and-swap, are single steps on the state; interleavings are lists of such steps.
--
-- Not modelled: the rest of internal/session (IKE_SA_INIT and IKE_AUTH), authentication (internal/auth), the
-- data-plane loops, the client's API, the netstack and the SOCKS5 command; sockets, timers, logging and the
-- erasure of memory. The order of allocations and the capacity of slices beyond their length are left out.
pub mod Common
pub mod Ikemsg
pub mod Ikesa
pub mod Crypto
pub mod Eap
pub mod Esp
pub mod Natt
pub mod Identity
pub mod Session
pub mod Config
pub mod Tests
