-- ===== src/Lib.antt =====
-- deeplog (C++), a logging library: the parts that move messages from the threads that log them to
-- the files that keep them, from libs/deeplog/src/dplx/dlog.
--
-- Parts
--   * SharedMemory: the bytes of a mapped file, as `atomic_ref`, `memset` and the spans of
--     bus/mpsc_bus.hpp use them.
--   * MpscBus (bus/mpsc_bus.hpp): a region of the bus is a `Region`, its three control words and
--     its block area. `allocate` takes a block behind the messages, `commit` releases it,
--     `read_region` hands messages to the consumer. MpscBus/Queue says what a region means: a queue
--     of messages, each granted, pending or ready, between its two hands; Produce, Commit, Batch and Consume
--     relate the operations to that queue, Search the choice of a region, Regions the reading of all
--     regions, Overflow regions near 4 GiB. MpscBus/Race is about producers and the consumer that
--     interleave in one region, as a step relation.
--   * MpscFile (bus/mpsc_bus.cpp): `mpsc_bus` makes the file of a bus (Create), `recover_mpsc_bus`
--     reads one that is left over (Recover, Loss), `create_span_context` draws a span id, and
--     `db_mpsc_bus` makes a bus that a file database lists (Database).
--   * SpanId (source/log_record_port.cpp): the derivation of span ids, with 64-bit words.
--   * FileDatabase (core/file_database.cpp): the root file with its two slots of contents (Storage,
--     Stale), the operations on its entries (Operate, Remove), the rotation of new files (Rotation),
--     pruning (Prune, Buses), and the opening of a database (Open).
--   * Interleaving (detail/interleaving_stream.hpp): where the blocks of the two streams stand, and the
--     streams, which read and write them (Streams); a `span::first` beyond its span is `none`.
--   * BufferBus (bus/buffer_bus.hpp): the bus of one process, which is filled from its start and
--     emptied as a whole. Queue says what it holds, Refine relates it to a queue, Spans to span ids.
--   * LogRecord (source/log.cpp): `vlog`; Emission is about its statements, Size, Parts and Vlog about the
--     size that it computes for a record.
--   * Codec (core/strong_types.cpp, source/log.cpp): the items of the dp library, and the codecs of
--     identifiers and severities (Ids) and of status codes (Status).
--   * Transmorpher (argument_transmorpher_fmt.hpp, attribute_transmorpher.cpp): the reading of the
--     arguments and attributes of a record (Reading, Entries).
--   * AttributeArgs (attributes.cpp): the attributes that a call is given, and the map of a file sink that
--     holds them (Insert), as they are read back (RoundTrip).
--   * RecordContainer (record_container.hpp): the reading of records (Layout, Records) and of whole
--     files (Files).
--   * SpanScope (source/span_scope.cpp, source/log_context.hpp): the scopes of spans, and their
--     nesting (Nested).
--   * SerializedMessages (core/serialized_messages.cpp): messages as a bus delivers them, classified
--     for the sinks (Sizes).
--   * SinkFrontend (sinks/sink_frontend.cpp): a sink over any backend; Concate is about what it
--     writes, Lifetime about failed and finalized sinks, Multicast about the delivery of batches to
--     all sinks of a fabric.
--   * FileSink (sinks/file_sink.cpp): the backend that writes a file; Outcome says what a call may do
--     to the bytes handed to it, Stream is about the buffer, Kept about what writes leave alone, Rotate
--     about its syncs and its end.
--   * LogFabric (log_fabric.cpp): the sinks and thresholds of a fabric, and the way of the records
--     from a buffer bus to its sinks (Retire).
--   * Hex (detail/hex.hpp): bytes as hexadecimal text.
--   * StrongTypes, Errc (core/strong_types.hpp, disappointment.hpp): identifiers and error codes.
--   * Base: lists, words, results and bitwise operations that the parts share.
--
-- Correspondence. A record stands for a struct, a function of the same name for each function, and
-- a C++ integer is a natural number with its wrap-around written out. The bodies of loops are
-- functions of their own (`reserve`, `collect`, `examine`, `attempt`). Results of calls that are
-- not code of this repository (llfio, the dp codecs, `cncr::round_up_p2`, random numbers) are
-- arguments, with what the code relies on as named hypotheses (`RoundsUp`).
--
-- Fuel. `read_region` runs on fuel and ends if it exceeds the number of messages; the search over
-- the regions has the number of regions as its fuel, and the open retry loop 6 rounds. The theorems
-- on them state that this is enough.
--
-- The calls of `sync_output` inside a rotation of a file sink run on fuel for one such call, since the
-- inner rotation returns at once.
--
-- How messages flow. A producer asks a bus for a block (MpscBus, BufferBus), emits a record to it
-- (LogRecord) or the start and the end of a span (SpanScope), and the bus hands batches to a consumer,
-- which classifies them (SerializedMessages) and gives them to the sinks (SinkFrontend), which write
-- them to files (FileSink) that a database lists (FileDatabase). A reader gets the records back from
-- such a file (RecordContainer).
--
-- Interleaving. A step of a producer of MpscBus/Race is one access to the shared words of a region; a
-- step of the consumer is a whole batch, collected, delivered and cleared, or the store of its read
-- hand. Steps are in a sequentially consistent order; a run is timely if each exchange uses a read
-- hand that the allocation hand has not passed since it was loaded.
--
-- Bounds. Where a theorem assumes a region below about 3.5 GiB, it assumes `IsArea`: the block area is
-- not empty and ends at a multiple of 4, and its end plus 2^29 + 7 is below 2^32, so that the 32-bit
-- sums of `reserve` do not wrap. Overflow is about the regions beyond.
--
-- Short writes. llfio may end a write early and report fewer bytes than it was given. The sources do
-- not look at this number; the models of the file sink and of the streams take it from the call, and
-- the theorems name the case.
--
-- Not modelled. Weak memory orders; the encoder of attribute containers that were read; the
-- messages of spans as items, and the sizes of status codes; the sizes that a file sink tells its
-- database; the loop that initialises the regions of a bus, which is written as what it leaves; the
-- construction, the moves and the end of the interleaving streams; formatting, type erasure and
-- platform glue; the terminal user interface.
pub mod Base
pub mod SharedMemory
pub mod Errc
pub mod MpscBus
pub mod StrongTypes
pub mod SpanId
pub mod MpscFile
pub mod FileDatabase
pub mod Hex
pub mod Interleaving
pub mod LogFabric
pub mod LogRecord
pub mod SpanScope
pub mod FileSink
pub mod BufferBus
pub mod Codec
pub mod Transmorpher
pub mod RecordContainer
pub mod AttributeArgs
pub mod SinkFrontend
pub mod SerializedMessages
