-- ===== src/PcapngReader/Blocks.antt =====
-- src/pcapng_reader.cpp: the interfaces, the packets and the blocks up to the next one (readInterface,
-- readPacket, readBlocksUpToPacket, open, next). What dissectPacket makes of a packet is not modelled.
use log_squirl_tcpdump.Common.{
  ℕ, zero, suc, ◌+◌, ◌-◌, ◌*◌, ◌/◌, ◌^◌, ◌%◌, min, List, [], ◌∷◌, ◌++◌, Option, none, some, Bool,
  true, false, not, ◌&&◌, ◌||◌, ltb, leb, ◌==◌, if◌then◌else◌, length, get_elem?,
}
use log_squirl_tcpdump.PacketRecord.{TimePrecision, microseconds, nanoseconds}
use log_squirl_tcpdump.PcapngReader.{
  Problem, in_interface, in_packet, option_beyond, unit_too_fine, too_many_interfaces,
  undeclared_interface, packet_too_long, TimeUnit, Interface, BlockHeader, PcapngReader, BlockRead,
  has_read, has_stopped, endless, ◌>>=◌, fail, skip_bytes, exactly, byte_at, read16, read32,
  section_header_block, interface_block, enhanced_packet_block, is_packet_block, max_interfaces,
  read_block_header, finish_block, more_consumed, read_section_header,
}

abbrev pub default_unit : TimeUnit
default_unit = record { binary = false; exponent = 6 }

-- An option's value after its code and length; `value_length` is padded to 32 bits. if_tsresol is 9.
unfoldable pub read_option :
    ℕ → ℕ → TimeUnit → BlockHeader → PcapngReader → BlockRead (TimeUnit × BlockHeader)
read_option code value_length unit block r =
    let (skipped, r') = skip_bytes value_length r in
    let other =
      if skipped
      then has_read (unit, more_consumed block value_length) r'
      else fail in_interface r' in
    let resolution = exactly 1 in_interface r >>= λ value r1.
    let b = byte_at 0 value in
    let told : TimeUnit = record { binary = leb 128 b; exponent = b % 128 } in
    let (skipped', r2) = skip_bytes (value_length - 1) r1 in
    if skipped'
    then has_read (told, more_consumed block value_length) r2
    else fail in_interface r2 in
    if (code == 9) && ltb 0 value_length then resolution else other

-- The loop over the options: each round but the last reads four bytes of the block at least.
unfoldable pub option_loop :
    ℕ → TimeUnit → BlockHeader → PcapngReader → BlockRead (TimeUnit × BlockHeader)
option_loop zero unit block r = endless
option_loop (suc fuel) unit block r = elim (leb (block.consumed + 4) (block.block_length - 4)) [
  | false ↦ has_read (unit, block) r
  | true ↦ exactly 4 in_interface r >>= λ option r'.
      let at_value = more_consumed block 4 in
      let code = read16 r'.swap 0 option in
      let value_length = (read16 r'.swap 2 option + 3) / 4 * 4 in
      elim (code == 0) [
        | true ↦ has_read (unit, at_value) r'
        | false ↦ elim (ltb (block.block_length - 4 - at_value.consumed) value_length) [
          | true ↦ fail option_beyond r'
          | false ↦ read_option code value_length unit at_value r' >>= λ p r''.
              option_loop fuel p.0 p.1 r''
        ]
      ]
]

abbrev pub finer_than_microseconds : TimeUnit → Bool
finer_than_microseconds unit = if unit.binary then leb 20 unit.exponent else ltb 6 unit.exponent

abbrev pub finest : TimeUnit → ℕ
finest unit = if unit.binary then 63 else 19

abbrev pub precision_of : Bool → TimePrecision
precision_of true = nanoseconds
precision_of false = microseconds

-- `std::max` and `std::min` of precisions.
abbrev pub finer_of : TimePrecision → TimePrecision → TimePrecision
finer_of microseconds p = p
finer_of nanoseconds p = nanoseconds

abbrev pub coarser_of : TimePrecision → TimePrecision → TimePrecision
coarser_of microseconds p = microseconds
coarser_of nanoseconds p = p

unfoldable pub lists : ℕ → List ℕ → Bool
lists t [] = false
lists t (u ∷ types) = (u == t) || lists t types

-- The interface is declared, its precision announced before the first packet, its type listed.
unfoldable pub add_interface : Interface → PcapngReader → PcapngReader
add_interface iface r = record r {
  interfaces = r.interfaces ++ (iface ∷ []);
  precision = if r.precision_announced then r.precision else finer_of r.precision iface.precision;
  link_types =
      if lists iface.link_type r.link_types
      then r.link_types
      else r.link_types ++ (iface.link_type ∷ []);
}

unfoldable pub declare_interface :
    List ℕ → TimeUnit → BlockHeader → PcapngReader → BlockRead BlockHeader
declare_interface fields unit block r =
    let iface : Interface = record {
      link_type = read16 r.swap 0 fields;
      snaplen = read32 r.swap 4 fields;
      unit = unit;
      precision = precision_of (finer_than_microseconds unit);
      block = record { offset = block.start; span = block.block_length };
    } in
    if ltb (finest unit) unit.exponent
    then fail unit_too_fine r
    else finish_block block r >>= λ b r'. has_read b (add_interface iface r')

unfoldable pub read_interface : BlockHeader → PcapngReader → BlockRead BlockHeader
read_interface block r =
    if leb max_interfaces (length r.interfaces)
    then fail too_many_interfaces r
    else exactly 8 in_interface r >>= λ fields r'.
        option_loop block.block_length default_unit (more_consumed block 8) r' >>= λ p r''.
        declare_interface fields p.0 p.1 r''

-- What readPacket gives to dissectPacket, of a packet's fields.
pub record CapturedPacket : Type 0 where
  pub number : ℕ
  pub timestamp_sec : ℕ
  pub timestamp_nsec : ℕ
  pub captured_len : ℕ
  pub original_len : ℕ
  pub link_type : ℕ
  pub precision : TimePrecision
  pub bytes : List ℕ

abbrev pub per_second : TimeUnit → ℕ
per_second unit = if unit.binary then 2 ^ unit.exponent else 10 ^ unit.exponent

-- The products are of 64 bits.
unfoldable pub fraction_ns : TimeUnit → ℕ → ℕ
fraction_ns unit timestamp =
    let fraction = timestamp % per_second unit in
    if not unit.binary
    then if leb unit.exponent 9
      then fraction * 10 ^ (9 - unit.exponent) % 2 ^ 64
      else fraction / 10 ^ (unit.exponent - 9)
    else if leb unit.exponent 34
    then fraction * 10 ^ 9 % 2 ^ 64 / 2 ^ unit.exponent
    else fraction / 2 ^ (unit.exponent - 34) * 10 ^ 9 % 2 ^ 64 / 2 ^ 34

abbrev pub max_dissected_bytes : ℕ
max_dissected_bytes = 262144

-- The packet's bytes, of which the first are kept, and what its block says of it.
unfoldable pub read_body :
    Interface → ℕ → ℕ → ℕ → BlockHeader → PcapngReader → BlockRead CapturedPacket
read_body iface timestamp captured original block r =
    let kept = min captured max_dissected_bytes in
    exactly kept in_packet r >>= λ bytes r1.
    let (skipped, r2) = skip_bytes (captured - kept) r1 in
    if not skipped
    then fail in_packet r2
    else finish_block (more_consumed block captured) r2 >>= λ b r3.
        let count = (r3.packet_count + 1) % 2 ^ 32 in
        has_read
          (record {
            number = count;
            timestamp_sec = min (timestamp / per_second iface.unit) (2 ^ 63 - 1);
            timestamp_nsec = fraction_ns iface.unit timestamp;
            captured_len = captured;
            original_len = original;
            link_type = iface.link_type;
            precision = coarser_of iface.precision r3.precision;
            bytes = bytes;
          })
          (record r3 {
            packet_count = count;
            last_record = record { offset = block.start; span = block.block_length };
          })

unfoldable pub read_enhanced : BlockHeader → PcapngReader → BlockRead CapturedPacket
read_enhanced block r = exactly 20 in_packet r >>= λ fields r'.
    let captured = read32 r'.swap 12 fields in
    let timestamp = read32 r'.swap 4 fields * 2 ^ 32 + read32 r'.swap 8 fields in
    let original = read32 r'.swap 16 fields in
    elim (get_elem? r'.interfaces (read32 r'.swap 0 fields)) [
      | none ↦ fail undeclared_interface r'
      | some iface ↦
          if ltb (block.block_length - 32) captured
          then fail packet_too_long r'
          else read_body iface timestamp captured original (more_consumed block 20) r'
    ]

-- The length of a simple packet block's packet: as much as the block, the packet and the snaplen have.
abbrev pub simple_length : ℕ → ℕ → ℕ → ℕ
simple_length original room snaplen =
    if snaplen == 0 then min original room else min (min original room) snaplen

unfoldable pub read_simple : BlockHeader → PcapngReader → BlockRead CapturedPacket
read_simple block r = elim r.interfaces [
  | [] ↦ fail undeclared_interface r
  | iface ∷ others ↦ exactly 4 in_packet r >>= λ fields r'.
      let original = read32 r'.swap 0 fields in
      read_body iface 0 (simple_length original (block.block_length - 16) iface.snaplen) original
        (more_consumed block 4) r'
]

unfoldable pub read_packet_block : BlockHeader → PcapngReader → BlockRead CapturedPacket
read_packet_block block r =
    let simple = read_simple block r in
    if block.block_type == enhanced_packet_block then read_enhanced block r else simple

-- A block that holds no packet.
unfoldable pub read_other : BlockHeader → PcapngReader → BlockRead BlockHeader
read_other block r =
    let interface = read_interface block r in
    let skipped = finish_block block r in
    if block.block_type == section_header_block
    then read_section_header block r
    else if block.block_type == interface_block
    then interface
    else skipped

-- The loop of readBlocksUpToPacket, the source's bytes being all there: each round reads some.
unfoldable pub blocks_loop : ℕ → PcapngReader → BlockRead BlockHeader
blocks_loop zero r = endless
blocks_loop (suc fuel) r = read_block_header r >>= λ block r'.
    elim (is_packet_block block.block_type) [
      | true ↦ has_read block (record r' { pending = some block })
      | false ↦ read_other block r' >>= λ b r''. blocks_loop fuel r''
    ]

unfoldable pub read_blocks_up_to_packet : PcapngReader → BlockRead BlockHeader
read_blocks_up_to_packet r = blocks_loop (suc (length r.source)) r

-- endBroken after a problem, and the end of the capture without one.
abbrev pub end_by : Option Problem → PcapngReader → PcapngReader
end_by none r = record r { is_open = false }
end_by (some p) r = record r { is_open = false; truncated = true }

abbrev pub end_broken : PcapngReader → PcapngReader
end_broken r = record r { is_open = false; truncated = true }

-- The packet after the header that is pending; none with the reader at its end.
abbrev pub finish_next : BlockRead CapturedPacket → Option (Option CapturedPacket × PcapngReader)
finish_next (has_read p r) = some (some p, r)
finish_next (has_stopped r) = some (none, end_broken r)
finish_next endless = none

abbrev pub next_after : BlockRead BlockHeader → Option (Option CapturedPacket × PcapngReader)
next_after (has_read block r) = finish_next (read_packet_block block (record r { pending = none }))
next_after (has_stopped r) = some (none, end_by r.problem r)
next_after endless = none

-- No result stands for a loop that does not end.
unfoldable pub next_packet : PcapngReader → Option (Option CapturedPacket × PcapngReader)
next_packet r =
    let stopped = some (none, r) in
    let unread : BlockRead BlockHeader = elim r.pending [
      | none ↦ read_blocks_up_to_packet r
      | some block ↦ has_read block r
    ] in
    let result = next_after unread in if not r.is_open then stopped else result

abbrev pub broken_by : Option Problem → PcapngReader → PcapngReader
broken_by none r = r
broken_by (some p) r = end_broken r

abbrev pub opened : BlockRead BlockHeader → Option (Bool × PcapngReader)
opened (has_read block r) = some (true, record r { precision_announced = true })
opened (has_stopped r) = some (true, record (broken_by r.problem r) { precision_announced = true })
opened endless = none

abbrev pub open_after : BlockRead BlockHeader → Option (Bool × PcapngReader)
open_after (has_read block r) = opened (read_blocks_up_to_packet (record r { is_open = true }))
open_after (has_stopped r) = some (false, r)
open_after endless = none

-- The reader's source is read from `start` on.
unfoldable pub open_capture : ℕ → PcapngReader → Option (Bool × PcapngReader)
open_capture start r = open_after (read_block_header (skip_bytes start r).1 >>= read_section_header)
