-- ===== src/Lib.antt =====
-- The mix formats of this repository, modelled and verified.
--
-- The program. `scylla/src/lib.rs` is the Scylla mix format: a sender cuts a message into fragments,
-- ties them together by an all-or-nothing transform, and wraps each one in an onion for its own path
-- of mix nodes; every node takes off a layer and learns only the next hop; the paths end at one exit
-- node, which puts the message together. A reply block is an onion without payload, that someone
-- else fills. `sphinx-benchmarks/src` is the Sphinx format that Scylla is compared with.
-- `latency-sim/src/main.rs` simulates the delivery of fragmented messages over such a network: users
-- cut messages into fragments, nodes hold packets back, and acknowledgements stop retransmissions.
--
-- The files.
-- - Common: results that may be an error or a panic, Boolean tests, lists, `xor`, big-endian integers.
-- - Scylla.Primitives: the external cryptography (curve25519-dalek, sha2, sha3, hkdf, ChaCha20,
--   Lioness) as a record of operations, and the laws that the code relies on. Every function that
--   uses it takes the record as an instance argument. Scylla.Toy is an instance that computes.
-- - Scylla.Crypto: the constants, the error type and the functions `h_b` to `pi_inv` of
--   scylla/src/lib.rs.
-- - Scylla.Aont: `aont` and `aont_inv`.
-- - Scylla.Onion: `Scylla::wrap`, cut at its loops, and `Scylla::process`. Below it: the streams that
--   mask a header (Masks), the filler string (Filler), the layers of a header (Header) and of a
--   payload (Payload), one hop (Process), a whole path (Journey), `wrap` (Wrap), sizes (Size).
-- - Scylla.Api: `create_onions`, `defrag`, `create_surb`, `unwrap_reply`, with Send and Reply for their
--   behaviour end to end, and Checks for what `create_onions` refuses.
-- - Scylla.Tests: examples of the theorems.
-- - Sphinx.Constants, Sphinx.Externals: sphinx-benchmarks/src/constants.rs, error.rs, utils/bytes.rs, and
--   the external cryptography with its laws, instantiated by Sphinx.Toy; Sphinx.Tests: examples.
-- - Sphinx.Payload: payload/mod.rs, with the padding in Recovery and the encryption in Layers.
-- - Sphinx.Delays, Sphinx.Keys, Sphinx.Filler: header/delays.rs, header/keys.rs with crypto/keys.rs,
--   header/filler.rs. Keys.Agreement compares the sender's keys with those of the nodes.
-- - Sphinx.Routing: header/routing and header/mac.rs, with one hop in Hop, the sender's side in Build
--   and Encapsulate, and a whole route in Layers, Reading, Final and Journey.
-- - Sphinx.Header: header/mod.rs, with its checks in Checks, its bytes in Codec,
--   its construction in Build, and what a route makes of it in Journey.
-- - Sphinx.Packet: packet/mod.rs and packet/builder.rs, with the bytes of a packet in Codec, the
--   processing with derived keys in Derived, and a packet on its whole route in Journey.
-- - Sphinx.Route: the addresses of route.rs, over a base58 coding that is a parameter.
-- - Sphinx.Surb: surb/mod.rs, with the bytes of a reply block in Codec, its use in Use,
--   and the packet that is made of it in Journey.
-- - Latency.Sources: the random numbers and floats of latency-sim/src/main.rs, a record of operations
--   that the functions take as an instance argument; Latency.Toy is an instance that computes.
-- - Latency.Message, Queue, Table, Node, User: `Message` to `Content`, the sorted vectors, the hash
--   maps, `Node` and `User`. Below Queue: its order, and its refinement of a list of arrivals.
-- - Latency.Simulation: `Simulation` with its set-up and `next`; below it the packets that are built
--   (Build), what an event does to the state (Actions, Deliver, Egress), `step` (Step) and `run` (Run).
-- - Latency.Invariant: sorted queues and a clock that does not go back, through every arm of `step`.
--   Latency.Service: what `next` and `pop` return, by the refinement below Queue.
-- - Latency.Route, Journey, Drain, Fragments: the packets that are built, one packet on its way, the
--   end of the loop, and when a set of fragments is complete. Latency.Tests: examples of the theorems.
--
-- Conventions. A byte is a number of ℕ and a byte string is a list; `u32` and `usize` sums that can
-- overflow wrap as in a release build (`header_length`), and a difference of `usize` that would go
-- below 0 ends in a slice or an allocation that panics, so it is written as an assertion. A panic is
-- a value of the result type. What the code draws at random is an argument. Loops are structural
-- recursion on the list they run over; the loops that run backwards recurse before they act.
--
-- In latency-sim sums and differences of `u64` and `u32` wrap too (`add`, `sub`, `add32`), as in the
-- release build that the repository runs; an `unwrap` of nothing panics. So does drawing from an empty
-- range, written as an assertion. A hash map is an association list, in any order of its
-- iteration. `partition_point` counts the entries before the first that fails the test, which is what
-- it returns on a sorted vector. The loop of `run` takes a number of rounds. Once no user sends or
-- waits, one for every hop and message that is still to be done, and one more, are enough; before, no
-- number is enough for all random numbers, since every retransmission may be dropped.
--
-- Not modelled: random generation of nodes, benchmarks, examples and tests, the measurement of CPU
-- time, the statistics and the table of runs of the simulation, and of Sphinx the sampling of delays
-- and the texts of errors. `MAX_PATH_LENGTH`, which a build sets, is an argument.
pub mod Common
pub mod Scylla
pub mod Sphinx
pub mod Latency
