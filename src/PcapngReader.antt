-- ===== src/PcapngReader.antt =====
-- src/pcapng_reader.h and src/pcapng_reader.cpp: the blocks of a pcapng capture, of a source whose bytes
-- are all there: the list of those that are not read yet. The host's byte order is little-endian; a
-- table of interfaces is the list of those declared; lengths do not wrap.
pub mod Blocks
pub mod Bodies
pub mod Opening
pub mod Times
pub mod Interfaces
pub mod Reads
pub mod Packets
use log_squirl_tcpdump.Common.{
  ℕ, zero, suc, ◌+◌, ◌-◌, ◌*◌, ◌/◌, ◌^◌, ◌%◌, List, [], ◌∷◌, ◌++◌, Option, none, some, Bool, true,
  false, not, ◌&&◌, ◌||◌, ltb, leb, ◌==◌, if◌then◌else◌, length, drop, take,
}
use log_squirl_tcpdump.PacketRecord.{TimePrecision, microseconds, nanoseconds}

-- The texts of `fail`, and the version of another format.
pub data Problem : Type 0 where
  in_block_header in_section_header unknown_magic bad_length header_too_long in_block : Problem
  lengths_differ too_many_interfaces in_interface option_beyond unit_too_fine in_packet : Problem
  undeclared_interface packet_too_long : Problem
  unsupported_version : ℕ → ℕ → Problem

pub record RecordSpan : Type 0 where
  pub offset : ℕ
  pub span : ℕ

pub record TimeUnit : Type 0 where
  pub binary : Bool
  pub exponent : ℕ

pub record Interface : Type 0 where
  pub link_type : ℕ
  pub snaplen : ℕ
  pub unit : TimeUnit
  pub precision : TimePrecision
  pub block : RecordSpan

pub record BlockHeader : Type 0 where
  pub block_type : ℕ
  pub block_length : ℕ
  pub consumed : ℕ
  pub start : ℕ

-- `pending` is the pendingBlock_ of a reader with havePacketBlock_.
pub record PcapngReader : Type 0 where
  pub source : List ℕ
  pub bytes_read : ℕ
  pub swap : Bool
  pub section_header : RecordSpan
  pub interfaces : List Interface
  pub link_types : List ℕ
  pub precision : TimePrecision
  pub precision_announced : Bool
  pub pending : Option BlockHeader
  pub problem : Option Problem
  pub is_open : Bool
  pub truncated : Bool
  pub packet_count : ℕ
  pub last_record : RecordSpan

-- What a method gives: true with what it read, or false; each with the reader after it.
pub data BlockRead {ℓ} (A : Type ℓ) : Type ℓ where
  has_read : A → PcapngReader → BlockRead A
  has_stopped : PcapngReader → BlockRead A
  endless : BlockRead A

infix 10 ◌>>=◌
abbrev pub ◌>>=◌ {ℓ κ} :
    {A : Type ℓ} {B : Type κ} → BlockRead A → (A → PcapngReader → BlockRead B) → BlockRead B
has_read a r >>= f = f a r
has_stopped r >>= f = has_stopped r
endless >>= f = endless

abbrev pub fail {ℓ} : {A : Type ℓ} → Problem → PcapngReader → BlockRead A
fail problem r = has_stopped (record r { problem = some problem })

-- CaptureReader::read, with as many bytes as the source has.
unfoldable pub read_bytes : ℕ → PcapngReader → List ℕ × PcapngReader
read_bytes n r =
    let bytes = take n r.source in
    (bytes, record r { source = drop n r.source; bytes_read = r.bytes_read + length bytes })

-- CaptureReader::skip.
unfoldable pub skip_bytes : ℕ → PcapngReader → Bool × PcapngReader
skip_bytes n r =
    (leb n (length r.source), record r { source = drop n r.source; bytes_read = r.bytes_read + n })

-- `if ( read( bytes, n ) < n ) return fail( problem );`
unfoldable pub exactly : ℕ → Problem → PcapngReader → BlockRead (List ℕ)
exactly n problem r =
    let (bytes, r') = read_bytes n r in
    if ltb (length bytes) n then fail problem r' else has_read bytes r'

abbrev pub byte_at : ℕ → List ℕ → ℕ
byte_at i [] = 0
byte_at zero (b ∷ bytes) = b
byte_at (suc i) (b ∷ bytes) = byte_at i bytes

-- read16 and read32 at a place.
unfoldable pub read16 : Bool → ℕ → List ℕ → ℕ
read16 false i bytes = byte_at i bytes + 256 * byte_at (i + 1) bytes
read16 true i bytes = byte_at (i + 1) bytes + 256 * byte_at i bytes

unfoldable pub read32 : Bool → ℕ → List ℕ → ℕ
read32 false i bytes =
    byte_at i bytes
    + 256 * byte_at (i + 1) bytes
    + 65536 * byte_at (i + 2) bytes
    + 16777216 * byte_at (i + 3) bytes
read32 true i bytes =
    byte_at (i + 3) bytes
    + 256 * byte_at (i + 2) bytes
    + 65536 * byte_at (i + 1) bytes
    + 16777216 * byte_at i bytes

abbrev pub section_header_block : ℕ
section_header_block = 0x0A0D0D0A

abbrev pub interface_block : ℕ
interface_block = 1

abbrev pub simple_packet_block : ℕ
simple_packet_block = 3

abbrev pub enhanced_packet_block : ℕ
enhanced_packet_block = 6

unfoldable pub minimum_length : ℕ → ℕ
minimum_length t =
    if t == section_header_block
    then 28
    else if t == interface_block
    then 20
    else if t == simple_packet_block
    then 16
    else if t == enhanced_packet_block
    then 32
    else 12

abbrev pub is_packet_block : ℕ → Bool
is_packet_block t = (t == enhanced_packet_block) || (t == simple_packet_block)

abbrev pub max_interfaces : ℕ
max_interfaces = 65536

abbrev pub max_header_block : ℕ
max_header_block = 256 * 1024

-- The length, of a type and a first part of a header whose byte order is known, `consumed` bytes in.
unfoldable pub check_length : ℕ → List ℕ → ℕ → ℕ → PcapngReader → BlockRead BlockHeader
check_length start header t consumed r =
    let n = read32 r.swap 4 header in
    let is_header = (t == section_header_block) || (t == interface_block) in
    if not (n % 4 == 0) || ltb n (minimum_length t)
    then fail bad_length r
    else if is_header && ltb max_header_block n
    then fail header_too_long r
    else has_read (record { block_type = t; block_length = n; consumed = consumed; start = start })
        r

-- The byte-order magic of a section header.
unfoldable pub check_magic : ℕ → List ℕ → List ℕ → PcapngReader → BlockRead BlockHeader
check_magic start header bytes r =
    let magic = read32 false 0 bytes in
    let swapped = magic == 0x4D3C2B1A in
    if not (magic == 0x1A2B3C4D) && not swapped
    then fail unknown_magic r
    else check_length start header section_header_block 12 (record r { swap = swapped })

unfoldable pub read_block_header : PcapngReader → BlockRead BlockHeader
read_block_header r =
    let (header, r') = read_bytes 8 (record r { problem = none }) in
    let t = read32 r.swap 0 header in
    if length header == 0
    then has_stopped r'
    else if ltb (length header) 8
    then fail in_block_header r'
    else if t == section_header_block
    then exactly 4 in_section_header r' >>= check_magic r.bytes_read header
    else check_length r.bytes_read header t 8 r'

-- Of a header that consumed at most the block without its last four bytes.
unfoldable pub finish_block : BlockHeader → PcapngReader → BlockRead BlockHeader
finish_block block r =
    let (ok, r') = skip_bytes (block.block_length - 4 - block.consumed) r in
    if not ok
    then fail in_block r'
    else exactly 4 in_block r' >>= λ trailer r''.
        if read32 r''.swap 0 trailer == block.block_length
        then has_read block r''
        else fail lengths_differ r''

abbrev pub more_consumed : BlockHeader → ℕ → BlockHeader
more_consumed block n = record block { consumed = block.consumed + n }

unfoldable pub read_section_header : BlockHeader → PcapngReader → BlockRead BlockHeader
read_section_header block r = exactly 12 in_section_header r >>= λ fields r'.
    let major = read16 r'.swap 0 fields in
    let here : RecordSpan = record { offset = block.start; span = block.block_length } in
    if major == 1
    then finish_block (more_consumed block 12)
        (record r' { interfaces = []; section_header = here })
    else fail (unsupported_version major (read16 r'.swap 2 fields)) r'
