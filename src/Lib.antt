-- ===== src/Lib.antt =====
-- logsquirl-tcpdump: the parts that put captured bytes back in order and decode them.
--
-- logsquirl-tcpdump reads packet captures, numbers their streams, describes each packet in a line,
-- and shows the content of a stream. Modelled are the ordering of the bytes of TCP streams, with the
-- part of Follow stream that hands them out and the rendering of the bytes as text, the HPACK decoder
-- of HTTP/2 header blocks, the classification of TCP segments, the numbering of streams, the TCP
-- Reassembly that puts the messages of the describers together, the reading of pcapng captures, and the
-- language of display filters.
--
-- Files:
-- - Common, and the modules below it: Boolean tests, lists by native numbers, options, integers.
-- - PacketRecord: the fields of PacketRecord in src/pcap_parser.h that the modelled code reads.
-- - ByteStreamOrderer: src/byte_stream_orderer.h and .cpp, one function per method; `pop_loop` and
--   `take_ready` are the loop of popNext. Positions gives sequence numbers a meaning: a position of
--   an unbounded stream modulo 2 ^ 32. First, Pop, Left and Shrinks are about the
--   operations.
-- - StreamContent: the class StreamContentReader of src/stream_content.h and .cpp. A direction's
--   elements of the reader's arrays are a `Direction`, and `Flow` is what the methods with a
--   direction read and change: that direction, the count of bytes handed out and the chunks given
--   to the sink. `pop_held` is popNext, `skip_missing` skipTo, `skip_gap` its statement on gaps.
--   StreamContent.TakeTcp is takeTcp, cut at its statements: `restart` a SYN, `saw_end` sentEnd_,
--   `take_ack` the acknowledgement with `plausible_ack`, `take_data` the payload, `saw_fin` the FIN.
--   StreamContent.Faithful says when chunks show a stream; Shows which of its bytes
--   they show; Flows, Kept, Reach, Segments, Losses and Rounds are about one direction, Session, Connection and Remembers about
--   both. StreamContent.Read has directionOf, take and
--   the rounds of read: `read_packet` is one, `read_end` what follows the last.
-- - StreamRendering: streamText, utf8Sequence and appendEscaped of src/stream_content.cpp. `text_from` is
--   the loop of streamText and `with_room` makeRoom with the text behind it; what Qt says of code points
--   is the record `Unicode`. Columns and Lines are about the lines, Utf8 about the sequences.
-- - Hpack: src/hpack.h and .cpp. HuffmanCodes and StaticTable are the tables, Huffman the class
--   HuffmanTree, Block the class BlockReader, Decoder the class HpackDecoder. A round of the loop of
--   decode is `representation`, which gives nothing where the source abandons the decoder.
-- - PcapngReader: the class PcapngReader of src/pcapng_reader.h and .cpp, with read and skip of
--   CaptureReader in src/pcap_parser.cpp and the readers of src/wire_bytes.h. The root has block headers
--   and sections, PcapngReader.Blocks the interfaces, the packets, open and next, cut at their
--   statements; what a packet's bytes are dissected to is left out. Reads, Interfaces, Times, Bodies and
--   Packets are about where the reader is, what it declares, the times and the packets, Opening about
--   open.
-- - TcpAnalysis: src/tcp_analysis.h and .cpp, and TcpDirection of src/stream_tracker.h with the bits of
--   its flags as fields. `check_ack` is checkAck, cut at its early returns; TcpAnalysis.Classify has
--   classify, followHandshake, startsNewConnection, learnBases and analyseTcp, which takes and gives
--   the two directions of the stream's state. Markers and Bases are about them.
-- - StreamTracker: StreamTracker::track of src/stream_tracker.h and .cpp. `track_ends` picks the table
--   of the transport, `track_key` looks a key up or adds it; an association list stands for the map.
-- - TcpReassembly: the class TcpReassembly of src/tcp_reassembly.h and .cpp. The root has the table of
--   entries, the order of use and the memory counted, up to appendEarly; TcpReassembly.Messages
--   walkMessages and what a packet is described as, with tcpMessageExtent and redescribe of
--   src/payload_describer.cpp; Begin has skip and startMessage, Segments skipSegment, continueMessage and
--   segment, Apply apply. `Describer` is the table of framers and describeTcpMessages, a parameter.
--   Table, Sound, Memory, Holding, Takes, Early, Walks, Insert, Start, Continue and Packets lead up to Whole.
-- - DisplayFilter: src/display_filter.h and .cpp. Syntax has the expressions, fields and errors, Tokens
--   the tokenizer, Addresses parseIpv4 and parseIpv6 with formatIpv4 and formatIpv6 of
--   src/wire_bytes.h, Tests parseTest and what it calls, Parser the other methods of the class Parser
--   and parseDisplayFilter, Ranges numberRangePattern with its patterns as data, Patterns valuesPattern,
--   testPattern, assertion and filterPattern, where fieldPattern is `field_has`. A thrown FilterError
--   is `failed`; `past_end` stands for a read past the tokens or a text, `out_of_fuel` for a call
--   without fuel. What the code asks Qt of characters, cases and numbers is the record `Qt`, a
--   parameter. Outcomes, Tokens.Positions, Tests.Values, Tests.Sound and Parser.Sound lead up to
--   Parser.Correct; Ranges.SameLength and Ranges.Numbers to Ranges.Equivalence;
--   Patterns.Selection and Patterns.Values are about the patterns. What matches a line, the regular
--   expressions at work, is a parameter of Patterns.Selection.
-- - Examples: the theorems at concrete inputs.
--
-- Numbers: sequence numbers are natural numbers below 2 ^ 32 with their wrap-around written out, and
-- seqAfter is the signed difference of 32 bits. Sizes and byte counts do not wrap: they are bounded
-- by the memory that holds the bytes. A byte vector is a list of numbers.
--
-- Loops take fuel. popNext's loop takes one round more than segments are held, since each round that
-- goes on has erased one; the loops of skipTo, flush and the reader's popNext likewise. The loop of
-- takeTcp over `placed` takes two rounds, since nothing is held after the flush of the first one, and
-- a payload within kMaxEarlyBytes is then held or handed out; a captured packet is smaller. The loop
-- of makeRoom takes one round more than the order of use has keys, that of appendEarly one more than
-- segments came early, and that of walkMessages one more than there are bytes; a call of `at` that
-- throws is `not_in_table`. A vector's capacity is what it was reserved for, as the C++ libraries give it.
-- The loop over a pcapng interface's options takes as many rounds as its block has bytes, that over
-- the blocks one more than the source has bytes: each round reads some.
-- The loop of decode takes as many rounds as the block has bytes, and the eviction as many as the table has
-- entries. The display filter's parser takes four calls for each token and four more: no chain of
-- calls has more than four between two tokens. `tokens_from` and the loops of formatIpv6 go over the
-- text or the groups one by one, with the count of those that the last round took.
--
-- Not modelled: opening the capture, reading packets with a budget, the hex dump and the export in
-- src/stream_content.cpp, the texts that the TCP Analysis writes into Info, the framers and describers
-- of protocols, and every other file of src, among them the other capture readers, the TLS decryption,
-- the live sources and the user interface. Of src/display_filter.cpp the texts of the columns are left out, of
-- src/pcapng_reader.cpp checkpoints, resuming, the moving of headers, and streams that are still written.
pub mod Common
pub mod PacketRecord
pub mod ByteStreamOrderer
pub mod StreamContent
pub mod StreamRendering
pub mod Hpack
pub mod TcpAnalysis
pub mod TcpReassembly
pub mod PcapngReader
pub mod StreamTracker
pub mod DisplayFilter
pub mod Examples
