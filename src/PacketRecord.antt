-- ===== src/PacketRecord.antt =====
-- src/pcap_parser.h: the fields of a parsed packet that the modelled code reads, and the bits of the
-- TCP flags. A text is the list of its bytes.
use log_squirl_tcpdump.Common.{ℕ, List, Option, Bool, not, ◌==◌, bit_and}
use log_squirl_tcpdump.Common.Int.{ℤ}

pub data Transport : Type 0 where
  tcp udp : Transport

pub data TimePrecision : Type 0 where
  microseconds nanoseconds : TimePrecision

pub record PacketRecord : Type 0 where
  pub number : ℕ
  pub timestamp_sec : ℤ
  pub timestamp_nsec : ℕ
  pub precision : TimePrecision
  pub src_ip : List ℕ
  pub dst_ip : List ℕ
  pub transport : Option Transport
  pub src_port : ℕ
  pub dst_port : ℕ
  pub tcp_seq : ℕ
  pub tcp_ack : ℕ
  pub tcp_flags : ℕ
  pub tcp_window : ℕ
  pub tcp_header_len : ℕ
  pub tcp_window_shift : Option ℕ
  pub payload_len : ℕ
  pub payload_offset : ℕ
  pub payload_captured : ℕ
  pub info : List ℕ

abbrev pub tcp_fin : ℕ
tcp_fin = 0x01

abbrev pub tcp_syn : ℕ
tcp_syn = 0x02

abbrev pub tcp_rst : ℕ
tcp_rst = 0x04

abbrev pub tcp_ack_flag : ℕ
tcp_ack_flag = 0x10

-- `( flags & bits ) != 0`
abbrev pub has : ℕ → ℕ → Bool
has flags bits = not (bit_and flags bits == 0)
