-- ===== src/Lib.antt =====
-- DTP is a QUIC implementation in Rust whose streams carry blocks of data with a deadline and a
-- priority. A connection reads packets into frames, hands stream data to per-stream buffers,
-- keeps the received and the acknowledged numbers as sets of ranges, lets a scheduler choose the
-- next stream to send, and protects packets by forward error correction.
--
-- Base: errors and results (src/lib.rs, `Error`), Boolean tests, lists, big-endian bytes, words.
-- Octets: src/octets.rs, a buffer with an offset. An operation takes the buffer and returns a
--   result with the buffer after it; `?` is the bind of a do block. Reads and Writes say what an
--   operation reads or writes, in rules that follow a do block; Safe says that it never panics.
-- Ranges: src/ranges.rs, `RangeSet`. The `BTreeMap` is the list of its entries by ascending key.
-- Packet: src/packet.rs, packet types, epochs, headers (`Header`), packet numbers on the wire and the
--   window of received packet numbers (`PktNumWindow`), whose 128-bit word is a function from bits to
--   Booleans. The length of the tag of AES-128-GCM is a parameter of the parser of headers.
-- Minmax: src/minmax.rs, the least or greatest measurement of a window of time. The fractions of the
--   window, computed by floating point numbers, are parameters.
-- Fec: src/fec.rs, the groups of packets that redundant shards protect (`FecGroup`), and their
--   packet numbers (`FecPacketNumbers`). The Reed-Solomon code is a parameter; what its
--   documentation says of encoding and restoring is the hypothesis `IsErasureCode`.
-- Cc: src/cc, the window of Reno (`Reno`). Half of the window, computed by floating point numbers,
--   is a parameter that halves below 2 ^ 53. Trigger: the trigger of a function in C on a pool of
--   threads (`CCTrigger`); the function is a parameter, the pool and the channel are lists.
--   Hystart: when slow start ends (`Hystart`), by numbers of nanoseconds.
-- Recovery: src/recovery.rs, the packets that are out, acknowledgements, losses and the timer
--   (`Recovery`), over a congestion control, which is a record of the operations of the trait
--   `CongestionControl`. Timer, Losses, Acks and Calls hold the operations; Reno fills the record,
--   and states what a congestion control promises (`KeepsFlight`); Flight follows the packets that
--   are out through every operation, Steady and History the greatest number sent. The three epochs are a data type, an array over them is a
--   record, and a `BTreeMap` of packets is their list by ascending number. Instants and durations
--   are numbers of nanoseconds; the products with floating point constants are parameters.
-- Params: src/lib.rs, the transport parameters of a connection (`TransportParams`) with `encode` and
--   `decode`. The loop of `decode` has one more fuel than there are bytes, since each round reads
--   four bytes at least.
-- Stream: src/stream.rs, chunks of a stream (`RangeBuf`), the buffer of what was received
--   (`RecvBuf`) and of what is to be sent (`SendBuf`). The `BinaryHeap` is the list of its chunks
--   by offset. The order in which a heap is iterated is a parameter of `push`, and so is the clock.
--   Streams: a stream with both buffers. Map: the table of streams (`StreamMap`), where a hash map
--   or set is a list of its entries; Map/Flush: the choice of the next stream (`peek_flushable`).
-- Scheduler: src/scheduler, the trait `Scheduler` as a record of operations over a state, which the
--   table of streams calls, and its implementations: Basic, Dtp, Foreign (the functions in C are
--   parameters) and Dynamic, which picks one. Base/Floats: the operations on `f64` that the weights
--   are computed by are a parameter, with the laws of IEEE 754 for comparison as a hypothesis.
-- Frame: src/frame.rs, frames with their parser `from_bytes`, their printer `to_bytes` and their
--   length `wire_len`. Wire gives the wire form of each frame by its layout.
--
-- Numbers are natural numbers. A field of w bits stays below 2 ^ w by the hypotheses of a theorem
-- that needs it, and a difference or a cast that can wrap in the source is written with
-- `% 2 ^ w`. A Rust panic is the result `panic`. Overflow checks are off, as in a release build.
--
-- Loops run on fuel where they are not structural. The parser of PADDING has the bytes that are
-- left, since each round reads one. `RangeSet::insert` has one more than the number of entries,
-- since each round but the last removes one. `RecvBuf::push` has one more than the bytes of the
-- chunk, since a round goes on with a shorter one. The two `pop`s have two more than the number of
-- chunks, since a round takes one, and where it puts a rest back the next round is the last.
-- The versions of a negotiation packet have one more than the bytes that are left, since a round
-- reads four. The loop over the acknowledged numbers has one more than the numbers of the set.
-- `SendBuf::push_slice` has the number of bytes, since a round takes one at least. Out of fuel the
-- stream loops panic, so a theorem that rules a panic out says that the fuel is enough.
--
-- Not modelled: connections, CUBIC and BBR, TLS and packet protection,
-- HTTP/3 and QPACK, the C interface, the command line tools and the logs. They come after the parts
-- they call, or only call other libraries.
pub mod Base
pub mod Cc
pub mod Fec
pub mod Frame
pub mod Minmax
pub mod Octets
pub mod Packet
pub mod Params
pub mod Ranges
pub mod Recovery
pub mod Scheduler
pub mod Stream
