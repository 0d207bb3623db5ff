-- ===== src/Examples/Captures.antt =====
-- A section header of 28 bytes, an interface's block of 20 and a simple packet block of 20.
use mathlib.Core.Option
use log_squirl_tcpdump.Common.{
  Option, Bool, ℕ, ◌^◌, ◌-◌, ◌≡◌, refl, List, [], ◌∷◌, ◌++◌, some, none, true, false, arith,
}
use log_squirl_tcpdump.PacketRecord.{microseconds}
use log_squirl_tcpdump.PcapngReader.{
  TimeUnit, Interface, BlockHeader, PcapngReader, read32, minimum_length, skip_bytes,
  read_block_header, read_bytes, check_magic, check_length, exactly, read16, read_section_header,
  finish_block,
}
use log_squirl_tcpdump.PcapngReader.Blocks.{
  CapturedPacket, read_blocks_up_to_packet, blocks_loop, read_interface, option_loop,
  declare_interface, add_interface, lists, read_packet_block, read_simple, read_body, default_unit,
  fraction_ns, read_other, next_packet, open_capture,
}
use log_squirl_tcpdump.PcapngReader.Reads.{Reads, IsHeader}
use log_squirl_tcpdump.PcapngReader.Times.{IsRounded, fraction_ns-IsRounded}
use log_squirl_tcpdump.PcapngReader.Interfaces.{IsRead, read_other-IsRead}

abbrev section_bytes : List ℕ
section_bytes =
    10 ∷ 13 ∷ 13 ∷ 10 ∷ 28 ∷ 0 ∷ 0 ∷ 0 ∷ 0x4D ∷ 0x3C ∷ 0x2B ∷ 0x1A ∷ 1 ∷ 0 ∷ 0 ∷ 0 ∷ 255 ∷ 255 ∷ 255
    ∷ 255 ∷ 255 ∷ 255 ∷ 255 ∷ 255 ∷ 28 ∷ 0 ∷ 0 ∷ 0 ∷ []

abbrev interface_bytes : List ℕ
interface_bytes =
    1 ∷ 0 ∷ 0 ∷ 0 ∷ 20 ∷ 0 ∷ 0 ∷ 0 ∷ 1 ∷ 0 ∷ 0 ∷ 0 ∷ 0 ∷ 0 ∷ 0 ∷ 0 ∷ 20 ∷ 0 ∷ 0 ∷ 0 ∷ []

-- The packet's block from its length on.
abbrev packet_bytes : List ℕ
packet_bytes = 4 ∷ 0 ∷ 0 ∷ 0 ∷ 9 ∷ 8 ∷ 7 ∷ 6 ∷ 20 ∷ 0 ∷ 0 ∷ 0 ∷ []

abbrev reader : List ℕ → List Interface → PcapngReader
reader bytes declared = record {
  source = bytes;
  bytes_read = 0;
  swap = false;
  section_header = record { offset = 0; span = 28 };
  interfaces = declared;
  link_types = [];
  precision = microseconds;
  precision_announced = false;
  pending = none;
  problem = none;
  is_open = true;
  truncated = false;
  packet_count = 0;
  last_record = record { offset = 0; span = 0 };
}

abbrev ethernet : Interface
ethernet = record {
  link_type = 1;
  snaplen = 0;
  unit = default_unit;
  precision = microseconds;
  block = record { offset = 28; span = 20 };
}

abbrev packet_header : BlockHeader
packet_header = record { block_type = 3; block_length = 20; consumed = 8; start = 48 }

abbrev waiting_reader : PcapngReader
waiting_reader = record (reader packet_bytes (ethernet ∷ [])) {
  bytes_read = 56;
  pending = some packet_header;
}

fraction_ns-IsRounded_example : IsRounded default_unit 1234567
fraction_ns-IsRounded_example = fraction_ns-IsRounded default_unit 1234567 (omega arith)

-- A second in 2 ^ 40 units, whose product wraps were it not shortened first.
abbrev fine_unit : TimeUnit
fine_unit = record { binary = true; exponent = 40 }

last_unit : fraction_ns fine_unit (2 ^ 40 - 1) ≡ 999999999
unfolding fraction_ns
last_unit = refl

abbrev interface_header : BlockHeader
interface_header = record { block_type = 1; block_length = 20; consumed = 8; start = 0 }

abbrev in_interface_block : PcapngReader
in_interface_block = record (reader interface_bytes []) {
  source = 1 ∷ 0 ∷ 0 ∷ 0 ∷ 0 ∷ 0 ∷ 0 ∷ 0 ∷ 20 ∷ 0 ∷ 0 ∷ 0 ∷ [];
  bytes_read = 8;
}

interface_header-IsHeader : IsHeader (reader interface_bytes []) interface_header in_interface_block
unfolding read32 minimum_length
interface_header-IsHeader = record {
  typed = refl;
  begins = refl;
  moved = record { place = refl; total = refl; declared = refl; waiting = refl };
  long_enough = omega arith;
  by_type = refl;
}

read_other-IsRead_example :
    Reads
      (λ b r'. IsRead interface_header in_interface_block r')
      (read_other interface_header in_interface_block)
read_other-IsRead_example =
    read_other-IsRead interface_header (reader interface_bytes []) in_interface_block
      interface_header-IsHeader (record { few = omega arith; units = tt })

-- A capture of the three blocks, opened, and its packet.
abbrev packet_of : Option (Bool × PcapngReader) → Option (List ℕ × ℕ)
packet_of none = none
packet_of (some (ok, r)) = elim (next_packet r) [
  | none ↦ none
  | some (p, r') ↦ Option.map (λ (q : CapturedPacket). (q.bytes, r'.bytes_read)) p
]

whole_capture_read :
    packet_of (
      open_capture 0 (
        reader
          (section_bytes ++ interface_bytes ++ (3 ∷ 0 ∷ 0 ∷ 0 ∷ 20 ∷ 0 ∷ 0 ∷ 0 ∷ packet_bytes))
          []))
    ≡ some (9 ∷ 8 ∷ 7 ∷ 6 ∷ [], 68)
unfolding open_capture skip_bytes read_block_header read_bytes check_magic check_length exactly
    read16 read32 minimum_length read_section_header finish_block read_blocks_up_to_packet
    blocks_loop read_other read_interface option_loop declare_interface add_interface lists
    next_packet read_packet_block read_simple read_body fraction_ns
whole_capture_read = refl
