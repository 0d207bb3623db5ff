-- ===== src/TcpAnalysis/Classify.antt =====
-- src/tcp_analysis.cpp: classify, the handshake, the bases, and analyseTcp without its texts.
use log_squirl_tcpdump.Common.{
  ℕ, ◌+◌, ◌-◌, ◌%◌, ◌^◌, min, List, [], ◌∷◌, Option, none, some, Bool, true, false, not, ◌&&◌, ◌||◌,
  ltb, leb, ◌==◌, if◌then◌else◌,
}
use log_squirl_tcpdump.PacketRecord.{PacketRecord, tcp_syn, tcp_ack_flag, has}
use log_squirl_tcpdump.TcpAnalysis.{
  TcpDirection, new_direction, TcpMarker, retransmission, fast_retransmission,
  spurious_retransmission, out_of_order, keep_alive_marker, zero_window_probe_marker, test,
  seq_is_before, seq_is_after, time_ns, elapsed_ns, fast_retransmission_ns, out_of_order_ns,
  window_of, Segment, syn_fin, Checked, before_next, check_ack,
}

-- `fwd.lastNonDupAck = seg.number; fwd.dupAcks = 0;` if the acknowledgement is another.
unfoldable pub count_acks : TcpDirection → Segment → TcpDirection
count_acks fwd seg =
    if seg.ack == fwd.last_ack
    then fwd
    else record fwd { last_non_dup_ack = seg.number; dup_acks = 0 }

abbrev pub not_advanced : TcpDirection → Segment → Bool
not_advanced fwd seg =
    not (fwd.next_seq == 0)
    && seq_is_before seg.seq fwd.next_seq
    && not (ltb 1 seg.len && (before_next fwd == seg.seq))

-- The kind of a segment that is sent again or late.
unfoldable pub late_kind : TcpDirection → TcpDirection → Segment → TcpMarker
late_kind fwd rev seg =
    let t = elapsed_ns rev.last_time seg.time in
    let end = (seg.seq + seg.len) % 2 ^ 32 in
    if ltb t fast_retransmission_ns && leb 2 rev.dup_acks && (rev.last_ack == seg.seq)
    then fast_retransmission
    else if ltb t out_of_order_ns
        && (not (fwd.next_seq == (end + (if syn_fin seg then 1 else 0)) % 2 ^ 32)
            || not fwd.advanced_with_data)
    then out_of_order
    else retransmission

unfoldable pub sent_again : TcpDirection → TcpDirection → Segment → List TcpMarker → List TcpMarker
unfolding late_kind
sent_again fwd rev seg markers =
    let end = (seg.seq + seg.len) % 2 ^ 32 in
    let late = late_kind fwd rev seg ∷ markers in
    if not ((ltb 0 seg.len || syn_fin seg) && not (test keep_alive_marker markers))
    then markers
    else if ltb 0 seg.len && not (rev.last_ack == 0) && not (seq_is_after end rev.last_ack)
    then spurious_retransmission ∷ markers
    else if not_advanced fwd seg
    then late
    else markers

abbrev pub end_of_segment : Segment → ℕ
end_of_segment seg = (seg.seq + seg.len + (if syn_fin seg then 1 else 0)) % 2 ^ 32

-- What the segment tells: the last part of classify.
unfoldable pub remember : TcpDirection → Segment → List TcpMarker → TcpDirection
remember fwd seg markers =
    let end = end_of_segment seg in
    let probe = test zero_window_probe_marker markers in
    record fwd {
      next_seq =
          if ((fwd.next_seq == 0) || seq_is_after end fwd.next_seq) && not probe
          then end
          else fwd.next_seq;
      window_known = true;
      window_scaled = seg.window_scaled;
      keep_alive = test keep_alive_marker markers;
      zero_window_probe = probe;
      advanced_with_data =
          if (fwd.next_seq == 0)
            || seq_is_after end ((fwd.next_seq + (if syn_fin seg then 1 else 0)) % 2 ^ 32)
          then ltb 0 seg.len
          else fwd.advanced_with_data;
      window = seg.raw_window;
      last_ack = seg.ack;
      last_time = seg.time;
    }

unfoldable pub classify : TcpDirection → TcpDirection → Segment → Checked
unfolding count_acks sent_again remember
classify fwd rev seg =
    let c = check_ack fwd rev seg in
    let counted = count_acks c.fwd seg in
    let markers = sent_again counted c.rev seg c.markers in
    record {
      fwd = remember counted seg markers;
      rev = c.rev;
      markers = markers;
      dup_ack_frame = c.dup_ack_frame;
    }

-- The direction, and the initial round-trip time.
unfoldable pub follow_handshake : TcpDirection → TcpDirection → ℕ → ℕ → TcpDirection × Option ℕ
follow_handshake fwd rev flags time =
    if has flags tcp_syn
    then (
      record fwd {
        syn_pending =
            fwd.syn_pending
            || (not (has flags tcp_ack_flag) && (not fwd.syn_seen || fwd.syn_pending));
        syn_seen = true;
      },
      none,
    )
    else (
      record fwd { syn_pending = false },
      if fwd.syn_pending && has flags tcp_ack_flag && rev.syn_seen
          then some (elapsed_ns fwd.last_time time)
          else none,
    )

unfoldable pub starts_new_connection : TcpDirection → ℕ → ℕ → Bool
starts_new_connection fwd flags seq =
    has flags tcp_syn
    && not (has flags tcp_ack_flag)
    && fwd.base_seq_set
    && not (fwd.base_seq == seq)

unfoldable pub learn_bases : TcpDirection → TcpDirection → ℕ → ℕ → ℕ → TcpDirection × TcpDirection
learn_bases fwd rev flags seq ack = (
  if fwd.base_seq_set then fwd else record fwd {
    base_seq = if has flags tcp_syn then seq else (seq + 2 ^ 32 - 1) % 2 ^ 32;
    base_seq_set = true;
  },
  if not rev.base_seq_set && has flags tcp_ack_flag
      then record rev { base_seq = (ack + 2 ^ 32 - 1) % 2 ^ 32; base_seq_set = true }
      else rev,
)

abbrev pub scale_of : Option ℕ → ℕ
scale_of none = 0
scale_of (some shift) = min shift 14 + 1

-- The handshake and the window scale, of a header that is not bogus.
unfoldable pub follow : TcpDirection → TcpDirection → PacketRecord → TcpDirection × Option ℕ
unfolding follow_handshake
follow fwd rev pkt =
    let (fwd', rtt) = follow_handshake fwd rev pkt.tcp_flags (time_ns pkt) in
    let scaled = record fwd' { window_scale = scale_of pkt.tcp_window_shift } in
    (if has pkt.tcp_flags tcp_syn then scaled else fwd', rtt)

-- The segment in relative numbers.
unfoldable pub segment_of : TcpDirection → TcpDirection → PacketRecord → Segment
segment_of fwd rev pkt =
    let scaled =
      not (has pkt.tcp_flags tcp_syn)
      && not (fwd.window_scale == 0)
      && not (rev.window_scale == 0) in
    record {
      number = pkt.number;
      time = time_ns pkt;
      seq = (pkt.tcp_seq + 2 ^ 32 - fwd.base_seq) % 2 ^ 32;
      ack =
          if has pkt.tcp_flags tcp_ack_flag
          then (pkt.tcp_ack + 2 ^ 32 - rev.base_seq) % 2 ^ 32
          else 0;
      len = pkt.payload_len;
      flags = pkt.tcp_flags;
      raw_window = pkt.tcp_window;
      window_scaled = scaled;
      window = window_of fwd pkt.tcp_window scaled;
    }

-- Both directions, what was found of the segment, and the initial round-trip time.
unfoldable pub analyse_tcp : TcpDirection → TcpDirection → PacketRecord → Checked × Option ℕ
unfolding starts_new_connection learn_bases follow segment_of classify
analyse_tcp fwd rev pkt =
    let new = starts_new_connection fwd pkt.tcp_flags pkt.tcp_seq in
    let (fwd', rev') =
      learn_bases (if new then new_direction else fwd) (if new then new_direction else rev)
        pkt.tcp_flags pkt.tcp_seq pkt.tcp_ack in
    let (shaken, rtt) = follow fwd' rev' pkt in
    if ltb pkt.tcp_header_len 20
    then (record { fwd = fwd'; rev = rev'; markers = []; dup_ack_frame = 0 }, none)
    else (classify shaken rev' (segment_of shaken rev' pkt), rtt)
