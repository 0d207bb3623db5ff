-- ===== src/TcpAnalysis.antt =====
-- src/tcp_analysis.h and src/tcp_analysis.cpp, with TcpDirection of src/stream_tracker.h: what the
-- TCP Analysis keeps of each direction and how it classifies a segment. The bits of
-- TcpDirection::flags are fields; a set of markers is the list of those set. The texts that go into
-- Info are left out.
pub mod Classify
pub mod Markers
pub mod Bases
use log_squirl_tcpdump.Common.{
  ℕ, zero, suc, ◌+◌, ◌-◌, ◌*◌, ◌%◌, ◌^◌, min, List, [], ◌∷◌, Option, none, some, Bool, true, false,
  not, ◌&&◌, ◌||◌, ltb, leb, ◌==◌, if◌then◌else◌,
}
use log_squirl_tcpdump.Common.Int.{ℤ, pos, negsuc, pos_part, to_signed, is_pos, is_neg}
use log_squirl_tcpdump.PacketRecord.{PacketRecord, tcp_fin, tcp_syn, tcp_rst, tcp_ack_flag, has}

pub record TcpDirection : Type 0 where
  pub base_seq : ℕ
  pub next_seq : ℕ
  pub last_ack : ℕ
  pub last_non_dup_ack : ℕ
  pub last_time : ℕ
  pub dup_acks : ℕ
  pub window : ℕ
  pub window_scale : ℕ
  pub base_seq_set : Bool
  pub window_known : Bool
  pub window_scaled : Bool
  pub keep_alive : Bool
  pub zero_window_probe : Bool
  pub advanced_with_data : Bool
  pub syn_seen : Bool
  pub syn_pending : Bool

abbrev pub new_direction : TcpDirection
new_direction = record {
  base_seq = 0;
  next_seq = 0;
  last_ack = 0;
  last_non_dup_ack = 0;
  last_time = 0;
  dup_acks = 0;
  window = 0;
  window_scale = 0;
  base_seq_set = false;
  window_known = false;
  window_scaled = false;
  keep_alive = false;
  zero_window_probe = false;
  advanced_with_data = false;
  syn_seen = false;
  syn_pending = false;
}

pub data TcpMarker : Type 0 where
  retransmission fast_retransmission spurious_retransmission out_of_order : TcpMarker
  previous_segment_not_captured window_update window_full keep_alive_marker : TcpMarker
  keep_alive_ack dup_ack zero_window_probe_marker zero_window zero_window_probe_ack : TcpMarker

-- The number of the marker's bit.
abbrev pub marker_bit : TcpMarker → ℕ
marker_bit retransmission = 0
marker_bit fast_retransmission = 1
marker_bit spurious_retransmission = 2
marker_bit out_of_order = 3
marker_bit previous_segment_not_captured = 4
marker_bit window_update = 5
marker_bit window_full = 6
marker_bit keep_alive_marker = 7
marker_bit keep_alive_ack = 8
marker_bit dup_ack = 9
marker_bit zero_window_probe_marker = 10
marker_bit zero_window = 11
marker_bit zero_window_probe_ack = 12

abbrev pub test : TcpMarker → List TcpMarker → Bool
test m [] = false
test m (x ∷ xs) = (marker_bit x == marker_bit m) || test m xs

-- `if ( c ) markers.set( m );`
abbrev pub mark : Bool → TcpMarker → List TcpMarker → List TcpMarker
mark c m ms = if c then m ∷ ms else ms

-- `static_cast<int32_t>( a - b ) < 0` and `> 0`.
abbrev pub seq_is_before : ℕ → ℕ → Bool
seq_is_before a b = is_neg (to_signed 32 ((a + 2 ^ 32 - b) % 2 ^ 32))

abbrev pub seq_is_after : ℕ → ℕ → Bool
seq_is_after a b = is_pos (to_signed 32 ((a + 2 ^ 32 - b) % 2 ^ 32))

-- `static_cast<uint64_t>` of an int64_t.
abbrev pub unsigned64 : ℤ → ℕ
unsigned64 (pos n) = n % 2 ^ 64
unsigned64 (negsuc n) = 2 ^ 64 - 1 - n % 2 ^ 64

abbrev pub time_ns : PacketRecord → ℕ
time_ns pkt = (unsigned64 pkt.timestamp_sec * 1000000000 + pkt.timestamp_nsec) % 2 ^ 64

abbrev pub elapsed_ns : ℕ → ℕ → ℕ
elapsed_ns since now = pos_part (to_signed 64 ((now + 2 ^ 64 - since) % 2 ^ 64))

abbrev pub fast_retransmission_ns : ℕ
fast_retransmission_ns = 20000000

abbrev pub out_of_order_ns : ℕ
out_of_order_ns = 3000000

-- The source's shift is undefined for a scale of 0, which stands for no option.
unfoldable pub window_of : TcpDirection → ℕ → Bool → ℕ
window_of dir raw scaled =
    if scaled then raw % 2 ^ 32 * 2 ^ (dir.window_scale - 1) % 2 ^ 32 else raw

unfoldable pub last_window : TcpDirection → ℕ
unfolding window_of
last_window dir = window_of dir dir.window dir.window_scaled

pub record Segment : Type 0 where
  pub number : ℕ
  pub time : ℕ
  pub seq : ℕ
  pub ack : ℕ
  pub len : ℕ
  pub flags : ℕ
  pub raw_window : ℕ
  pub window_scaled : Bool
  pub window : ℕ

abbrev pub syn_fin : Segment → Bool
syn_fin seg = has seg.flags tcp_syn || has seg.flags tcp_fin

abbrev pub syn_fin_rst : Segment → Bool
syn_fin_rst seg = syn_fin seg || has seg.flags tcp_rst

-- What checkAck changes.
pub record Checked : Type 0 where
  pub fwd : TcpDirection
  pub rev : TcpDirection
  pub markers : List TcpMarker
  pub dup_ack_frame : ℕ

-- `seg.len == 1 && seg.seq == fwd.nextSeq && revWindowKnown && rev.window == 0`
abbrev pub is_probe : TcpDirection → TcpDirection → Segment → Bool
is_probe fwd rev seg =
    (seg.len == 1) && (seg.seq == fwd.next_seq) && rev.window_known && (rev.window == 0)

-- `fwd.nextSeq - 1` of 32 bits.
abbrev pub before_next : TcpDirection → ℕ
before_next fwd = (fwd.next_seq + 2 ^ 32 - 1) % 2 ^ 32

-- One `mark` after the other.
unfoldable pub mark_all : List (Bool × TcpMarker) → List TcpMarker → List TcpMarker
mark_all [] ms = ms
mark_all ((c, m) ∷ rest) ms = mark_all rest (mark c m ms)

-- The markers from ZeroWindow to WindowFull.
unfoldable pub check_windows : TcpDirection → TcpDirection → Segment → List TcpMarker
unfolding last_window
check_windows fwd rev seg =
    let rev_scale_known = rev.syn_seen || (fwd.syn_seen && (fwd.window_scale == 0)) in
    mark_all
      (((seg.window == 0) && not (syn_fin_rst seg), zero_window)
        ∷ (
          not (fwd.next_seq == 0)
              && seq_is_after seg.seq fwd.next_seq
              && not (has seg.flags tcp_rst),
          previous_segment_not_captured,
        )
        ∷ (
          leb seg.len 1
              && not (fwd.next_seq == 0)
              && (seg.seq == before_next fwd)
              && not (syn_fin_rst seg),
          keep_alive_marker,
        )
        ∷ (
          (seg.len == 0)
              && not (seg.window == 0)
              && (not fwd.window_known || not (seg.window == last_window fwd))
              && (seg.seq == fwd.next_seq)
              && (seg.ack == fwd.last_ack)
              && not (syn_fin_rst seg),
          window_update,
        )
        ∷ (
          ltb 0 seg.len
              && rev_scale_known
              && rev.window_known
              && ((seg.seq + seg.len) % 2 ^ 32 == (rev.last_ack + last_window rev) % 2 ^ 32)
              && not (syn_fin_rst seg),
          window_full,
        )
        ∷ [])
      []

-- A segment that repeats the last one's position and window, without data.
unfoldable pub repeats : TcpDirection → Segment → Bool
unfolding last_window
repeats fwd seg =
    (seg.len == 0)
    && fwd.window_known
    && (seg.window == last_window fwd)
    && (seg.seq == fwd.next_seq)
    && not (syn_fin_rst seg)

-- The conditions of KeepAliveAck, ZeroWindowProbeAck and DupAck.
abbrev pub answers_keep_alive : TcpDirection → TcpDirection → Segment → Bool
answers_keep_alive fwd rev seg =
    not (seg.window == 0) && (seg.ack == fwd.last_ack) && rev.keep_alive

abbrev pub answers_probe : TcpDirection → TcpDirection → Segment → Bool
answers_probe fwd rev seg =
    (seg.window == 0)
    && ((seg.ack == fwd.last_ack) || (seg.ack == (fwd.last_ack + 1) % 2 ^ 32))
    && rev.zero_window_probe

abbrev pub repeats_ack : TcpDirection → Segment → Bool
repeats_ack fwd seg = not (seg.window == 0) && (seg.ack == fwd.last_ack)

unfoldable pub check_repeat : TcpDirection → TcpDirection → Segment → List TcpMarker → Checked
check_repeat fwd rev seg markers =
    if answers_keep_alive fwd rev seg
    then record { fwd = fwd; rev = rev; markers = keep_alive_ack ∷ markers; dup_ack_frame = 0 }
    else if answers_probe fwd rev seg
    then record {
      fwd = fwd;
      rev = record rev {
        next_seq = if seg.ack == (fwd.last_ack + 1) % 2 ^ 32 then seg.ack else rev.next_seq;
      };
      markers = zero_window_probe_ack ∷ markers;
      dup_ack_frame = 0;
    }
    else if repeats_ack fwd seg
    then record {
      fwd = record fwd { dup_acks = (fwd.dup_acks + 1) % 2 ^ 32 };
      rev = rev;
      markers = dup_ack ∷ markers;
      dup_ack_frame = fwd.last_non_dup_ack;
    }
    else record { fwd = fwd; rev = rev; markers = markers; dup_ack_frame = 0 }

unfoldable pub check_ack : TcpDirection → TcpDirection → Segment → Checked
unfolding check_repeat check_windows repeats
check_ack fwd rev seg =
    let windows = check_windows fwd rev seg in
    if is_probe fwd rev seg
    then record { fwd = fwd; rev = rev; markers = zero_window_probe_marker ∷ []; dup_ack_frame = 0 }
    else if repeats fwd seg
    then check_repeat fwd rev seg windows
    else record { fwd = fwd; rev = rev; markers = windows; dup_ack_frame = 0 }
