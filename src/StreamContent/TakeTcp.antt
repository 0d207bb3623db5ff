-- ===== src/StreamContent/TakeTcp.antt =====
-- src/stream_content.cpp: takeTcp and plausibleAck.
use log_squirl_tcpdump.Common.{
  ℕ, zero, suc, ◌+◌, ◌-◌, ◌*◌, ◌^◌, ◌%◌, min, List, [], ◌∷◌, Option, none, some, Bool, true, false,
  not, ◌&&◌, ◌||◌, ltb, leb, if◌then◌else◌, length, drop,
}
use log_squirl_tcpdump.Common.Int.{pos_part, is_pos}
use log_squirl_tcpdump.PacketRecord.{PacketRecord, tcp_fin, tcp_syn, tcp_ack_flag, has}
use log_squirl_tcpdump.ByteStreamOrderer.{
  next, early, taken, seq_after, reset, place, advance, holds, hold_early, early_bytes,
}
use log_squirl_tcpdump.StreamContent.{
  Flow, Reader, side_of, with_side, flow_of, with_flow, with_order, hand_out, pop_held,
  skip_missing, flush, max_early_bytes, max_early_segments, max_window_shift,
}

-- The loop over `placed`, of a payload that is not empty.
unfoldable pub place_rounds : ℕ → ℕ → ℕ → ℕ → List ℕ → Flow → Flow
place_rounds zero direction packet seq payload f = f
place_rounds (suc fuel) direction packet seq payload f =
    let o = f.side.order in
    let at = place o seq (length payload) in
    let again = place_rounds fuel direction packet seq payload (flush direction packet f) in
    elim at.fit [
      | next ↦ pop_held direction packet (
          hand_out direction packet (drop at.overlap payload)
            (with_order f (advance o (length payload - at.overlap))))
      | early ↦
          if holds o seq (length payload)
          then f
          else if leb max_early_segments (length o.early_segments)
              || ltb max_early_bytes (early_bytes o + length payload)
          then again
          else with_order f (hold_early o seq payload)
      | taken ↦ f
    ]

-- After a flush nothing is held, so that a second round always places a payload within
-- `max_early_bytes`.
unfoldable pub place_segment : ℕ → ℕ → ℕ → List ℕ → Flow → Flow
place_segment direction packet seq [] f = f
place_segment direction packet seq (b ∷ bs) f = place_rounds 2 direction packet seq (b ∷ bs) f

-- Both SYNs offered a scale: the acknowledging side's counts.
offered_shift : Option ℕ → Option ℕ → Option ℕ → ℕ
offered_shift (some c) (some s) (some shift) = min shift max_window_shift
offered_shift _ _ _ = 0

-- The shift that scales the window of the side that acknowledges direction `other`.
ack_shift : Reader → ℕ → ℕ
unfolding side_of offered_shift
ack_shift r other =
    let c = side_of r 0 in
    let s = side_of r 1 in
    if not c.syn_seen || not s.syn_seen
    then max_window_shift
    else offered_shift c.window_shift s.window_shift (side_of r (1 - other)).window_shift

-- How far `ack` lies behind the bytes seen sent.
past_end : Option ℕ → ℕ → Option ℕ
past_end none ack = none
past_end (some end) ack = some (pos_part (seq_after ack end))

pub plausible_ack : Reader → ℕ → ℕ → PacketRecord → Bool
unfolding side_of ack_shift past_end
plausible_ack r other ack pkt = elim (past_end (side_of r other).sent_end ack) [
  | none ↦ false
  | some past ↦ leb past (pkt.tcp_window * 2 ^ ack_shift r other)
]

-- A SYN: a new connection, perhaps, whose bytes begin behind it.
unfoldable pub restart : ℕ → ℕ → PacketRecord → ℕ → Reader → Reader
unfolding flow_of with_side
restart direction packet pkt seq r =
    let f = flush direction packet (flow_of r direction) in
    with_flow r direction (record f {
      side = record (f.side) {
        order = reset f.side.order seq;
        started = true;
        fin_seq = none;
        sent_end = some seq;
        window_shift = pkt.tcp_window_shift;
        syn_seen = true;
      };
    })

pub later_end : Option ℕ → ℕ → Option ℕ
later_end none end = some end
later_end (some sent) end = if is_pos (seq_after end sent) then some end else some sent

unfoldable pub take_payload : ℕ → ℕ → ℕ → List ℕ → Flow → Flow
take_payload direction packet seq payload f = place_segment direction packet seq payload (
    if f.side.started
    then f
    else record f { side = record (f.side) { order = reset f.side.order seq; started = true } })

-- `if ( !sentEnd || seqAfter( end, *sentEnd ) > 0 ) sentEnd = end;`
unfoldable pub saw_end : ℕ → ℕ → Reader → Reader
unfolding side_of with_side later_end
saw_end direction end r =
    let s = side_of r direction in
    with_side r direction (record s { sent_end = later_end s.sent_end end })

-- What the acknowledgement of a segment of direction `direction` says of the other one's bytes.
unfoldable pub take_ack : ℕ → ℕ → PacketRecord → Reader → Reader
unfolding side_of flow_of with_flow
take_ack direction packet pkt r =
    let other = 1 - direction in
    if has pkt.tcp_flags tcp_ack_flag
      && (side_of r other).started
      && plausible_ack r other pkt.tcp_ack pkt
    then with_flow r other (skip_missing other packet pkt.tcp_ack (flow_of r other))
    else r

unfoldable pub take_data : ℕ → ℕ → PacketRecord → ℕ → List ℕ → Reader → Reader
unfolding flow_of with_flow
take_data direction packet pkt seq payload r =
    if ltb 0 pkt.payload_len
    then with_flow r direction (take_payload direction packet seq payload (flow_of r direction))
    else r

unfoldable pub saw_fin : ℕ → ℕ → ℕ → Reader → Reader
unfolding side_of with_side
saw_fin direction flags end r =
    if has flags tcp_fin
    then with_side r direction (record (side_of r direction) { fin_seq = some end })
    else r

unfoldable pub take_tcp : ℕ → ℕ → PacketRecord → List ℕ → Reader → Reader
take_tcp direction packet pkt payload r =
    let syn = has pkt.tcp_flags tcp_syn in
    let seq = (pkt.tcp_seq + (if syn then 1 else 0)) % 2 ^ 32 in
    let end = (seq + pkt.payload_len) % 2 ^ 32 in
    let begun = if syn then restart direction packet pkt seq r else r in
    let acked = take_ack direction packet pkt (saw_end direction end begun) in
    let taken_all =
      saw_fin direction pkt.tcp_flags end (take_data direction packet pkt seq payload acked) in
    if ltb pkt.tcp_header_len 20 then r else taken_all
