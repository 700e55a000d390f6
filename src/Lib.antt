-- ===== src/Lib.antt =====
-- A model of the bit-level and packet-level core of goh264, a decoder for H.264.
--
-- Access units come in as Annex B byte streams or as length-prefixed packets. internal/h264/nal.go
-- cuts them into NAL units and takes the emulation prevention bytes out of their payloads;
-- internal/h264/bitreader.go and golomb.go read syntax elements from a payload.
-- internal/h264/bitwriter.go is the way back: bits and Exp-Golomb codes into a payload, the payload
-- into a NAL unit, the unit into a stream. internal/h264/sps.go and pps.go decode the parameter
-- sets, which the decoder keeps by their identifiers, and internal/h264/slice.go parses the header of
-- a slice against the set that it names. Behind the decoding of a picture,
-- internal/h264/simple_dpb.go keeps the pictures that later ones refer to and hands the decoded ones
-- out in display order.
--
-- Files:
--   Base           numbers, bit operations, lists and words; `signed`, `wrap` and `u32` are the
--                  casts of Go's fixed-width integers
--   Result         internal/h264/errors.go and the outcome of a Go call, run-time panics included
--   IntCheck       internal/h264/intcheck.go (checkedAddInt is `checked_add_int`, and so on)
--   BitReader      internal/h264/bitreader.go: the record `BitReader` is bitReader, each method a
--                  function from the reader to its result and the reader after the call
--   Golomb         internal/h264/golomb.go
--   BitWriter      internal/h264/bitwriter.go, BitWriter and its methods
--   Nal            internal/h264/nal.go and bitwriter.go, one NAL unit: AppendEBSP, AppendRBSP,
--                  AppendNAL, AppendAVCNAL, parseNALInto
--   AnnexB         internal/h264/nal.go, findStartCode and SplitAnnexBInto
--   Avcc           internal/h264/nal.go, SplitAVCCInto
--   AutoPacket     internal/h264/nal.go, SplitAutoPacket
--   AvcConfig      internal/h264/bitwriter.go and nal.go, the avcC record:
--                  AppendAVCDecoderConfigurationRecord, IsAVCDecoderConfigurationRecord and the
--                  readers of its units
--   Params         internal/h264/sps.go and pps.go: the records `Sps` and `Pps` are SPS and PPS, and
--                  Params/Valid says which are valid. Params/Sequence has decodeSPS to the
--                  usability information, with Params/Order and Params/Size; Params/Scaling has
--                  the scaling lists, Params/Tables the chroma QPs, Params/Dequant
--                  initDequantTables, Params/Decode DecodePPS, and Params/Store the sets that
--                  DecodeNALUnits keeps
--   Slice          internal/h264/slice.go: parseRefCount, decodeRefPicListReordering and
--                  decodeRefPicMarking, Slice/Weights predWeightTable, Slice/Header the whole header
--                  in stages, each of which returns the fields it sets. Slice/Control takes the
--                  marking operations on to applyMMCO
--   Dpb            internal/h264/simple_dpb.go: the record `Dpb` is simpleFrameDPB. Dpb/Refs has
--                  the reference lists and masks, Dpb/Marking markDecodedFrame, applyMMCO and
--                  markFrameNumGapFrame, Dpb/Output the waiting pictures from updateReorderDelay to
--                  drainOutputFramesInto, Dpb/Poc the order counts of initPOC, Dpb/RefLists
--                  addSortedShortRefsInto, Dpb/RefMods applyRefModificationsEntriesInto
--   Tests          runs, and the results at concrete inputs
--
-- Function names are the source's in snake case. Byte slices are lists of numbers; a slice that Go
-- shares is a value here, since the code never writes into bytes that another slice still shows.
-- Pointer receivers are not nil. A slice expression is kept within the length of its operand,
-- where Go would allow the capacity.
--
-- Loops: the search for leading zeros has its own bound of 32. SplitAnnexBInto is given one round
-- more than the stream has bytes, and every start code takes three; SplitAVCCInto is given one round
-- more than the packet has bytes, and every unit takes two. The output loop is given one round more
-- than pictures wait, and each round takes one out; the search for gaps has one round for each
-- short-term reference, and a round keeps or drops one; the loop that orders short-term references
-- has one round more than there are, which suffices but for the state in Dpb/RefLists/Endless. The
-- loops to a byte boundary are given nine rounds, where eight reach the boundary from every position
-- below 2 ^ 32 - 7; those from there on get stuck at the last, 2 ^ 32 - 1, which BitWriter/Stuck is
-- about.
-- Loops over syntax elements are given the bounds of the source: 32 modifications, 67 marking
-- operations, the counts of references, of factors and of offsets.
--
-- A read of a syntax element is a function from the reader to its result and the reader after it, and
-- what is read in turn is bound in that order. Where a parse fails, what it left in a header or a
-- set is not modelled: the callers drop both. An array of parameter sets is a function from
-- the identifiers; the reads of it that a parse makes and the writes to it panic outside its length.
--
-- Pictures are shared by pointer. A pointer to a DecodedFrame is a number, and the buffer holds the
-- map from these numbers to what they point to, so that a write through one pointer is seen through
-- every other. A function on the buffer returns its result with the buffer after the call, which
-- keeps what was written before an error. From the parameter sets and the slice header the buffer
-- reads the fields of `SliceHeader`, `ListHeader` and `PocSps`; the counts there are not negative.
--
-- Not modelled of simple_dpb.go: frames made for gaps, the default reference lists, implicit weights,
-- recovery points, snapshots, and the probing of the reorder delay. Not modelled of sps.go: the
-- usability information and what is derived from it, and the retries of DecodeSPSFromNAL. Not
-- modelled at all: SEI, entropy decoding, prediction, transforms, filtering and the public facade in
-- decoder.go; the assembly kernels, tests and the benchmark command. The decoding of the avcC record
-- waits for DecodeSPSFromNAL.
mod Base
pub mod Result
pub mod BitReader
pub mod Golomb
pub mod IntCheck
pub mod BitWriter
pub mod Nal
pub mod AnnexB
pub mod Avcc
pub mod AutoPacket
pub mod Dpb
pub mod AvcConfig
pub mod Params
pub mod Slice
mod Tests
