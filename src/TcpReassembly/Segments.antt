-- ===== src/TcpReassembly/Segments.antt =====
-- src/tcp_reassembly.cpp: a segment of a direction that holds bytes, or skips a message (skipSegment,
-- continueMessage, segment).
use log_squirl_tcpdump.Common.{
  ℕ, ◌+◌, ◌-◌, ◌^◌, ◌%◌, min, max, List, [], Option, none, some, Bool, true, false, not, ◌==◌,
  if◌then◌else◌, length, drop, take,
}
use log_squirl_tcpdump.Common.Int.{is_pos}
use log_squirl_tcpdump.PacketRecord.{PacketRecord}
use log_squirl_tcpdump.ByteStreamOrderer.{seq_after, next, early, taken, place, early_bytes}
use log_squirl_tcpdump.TcpReassembly.{
  Run, gives, ◌>>=◌, Entry, TcpReassembly, find_entry, store, release, recharge, make_room, append,
  hold_early_segment, append_early,
}
use log_squirl_tcpdump.TcpReassembly.Begin.{
  no_messages, Applied, entry_key, use_entry, skip, left, payload_end, start_message, begin_message,
}
use log_squirl_tcpdump.TcpReassembly.Messages.{
  DescribedPacket, Describer, Walk, walk_messages, segment_of_message, reassembly_limit,
  continuation_of_message, mark_packet, describe_messages, describe_segment, announced_past,
}

-- What a segment that comes while a message is skipped is: taken, or one as any.
pub data SkipResult : Type 0 where
  taken_in : Applied → SkipResult
  past_message : TcpReassembly → SkipResult

-- The payload, if it was captured whole.
abbrev pub whole_payload : PacketRecord → Option (List ℕ) → Option (List ℕ)
whole_payload pkt none = none
whole_payload pkt (some bytes) = if length bytes == pkt.payload_len then some bytes else none

module _ (d : Describer) (id state direction : ℕ) where
  unfoldable pub skip_segment :
      DescribedPacket → Option (List ℕ) → Entry → TcpReassembly → Run SkipResult
  skip_segment pkt payload e r =
      let key = entry_key id direction in
      let used = use_entry key r in
      let last = payload_end pkt.packet in
      let shown = describe_segment pkt e.label continuation_of_message in
      let offset = (e.skip_end + 2 ^ 32 - pkt.packet.tcp_seq) % 2 ^ 32 in
      if is_pos (seq_after e.skip_from pkt.packet.tcp_seq)
      then gives (taken_in (left pkt used))
      else if not (is_pos (seq_after last e.skip_end))
      then gives (taken_in (left shown (if last == e.skip_end then release key used else used)))
      else if not (is_pos (seq_after e.skip_end pkt.packet.tcp_seq))
      then gives (past_message (release key used))
      else elim (whole_payload pkt.packet payload) [
        | none ↦ gives (taken_in (left shown (release key used)))
        | some bytes ↦
            start_message d id state direction (some e.label) pkt (drop offset bytes)
              (release key used)
            >>= λ a. gives (taken_in a)
      ]

  -- The message that is held is past the limit: its rest is skipped, and what is there described.
  unfoldable pub continue_past : DescribedPacket → Entry → Walk → TcpReassembly → Run Applied
  continue_past pkt e walk r =
      let none_whole = walk.walk_end == 0 in
      let segments = if none_whole then 1 else e.segments in
      let completed = if none_whole then e.held else take walk.walk_end e.held in
      let rest = length e.held - walk.walk_end in
      let emptied = store (entry_key id direction) (record e { held = []; capacity = 0 }) r in
      skip id state direction walk.incomplete.label e.order.next_seq
        (walk.incomplete.extent_length - rest) emptied
      >>= λ r'. gives (record {
        pkt =
            mark_packet (describe_messages d pkt completed e.framer e.label segments)
              reassembly_limit;
        messages =
            if none_whole then no_messages else (record { bytes = completed; segments = segments });
        after = r';
      })

  -- The start of the next message is held; the Boolean tells that there is no room for it.
  unfoldable pub keep_next : Entry → Walk → TcpReassembly → Run (Bool × TcpReassembly)
  keep_next e walk r =
      let key = entry_key id direction in
      let rest = length e.held - walk.walk_end in
      let (r1, emptied) = recharge key (record e { held = []; capacity = 0 }) r in
      let wanted = walk.incomplete.extent_length in
      let room = max rest (min wanted (r.stream_limit - early_bytes e.order)) in
      make_room room key r1 >>= λ p.
      let room' = if p.0 then room else rest in
      let again = make_room room' key p.1 in
      (if room' == rest then again else gives (true, p.1)) >>= λ q.
      let next_message : Entry = record emptied {
        held = drop walk.walk_end e.held;
        capacity = room';
        segments = 1;
        framer = walk.incomplete.framer;
        label = walk.incomplete.label;
      } in
      if q.0
      then gives (false, (recharge key next_message q.1).0)
      else gives (true, release key q.1)

  unfoldable pub continue_whole : DescribedPacket → Entry → Walk → TcpReassembly → Run Applied
  continue_whole pkt e walk r =
      let whole = take walk.walk_end e.held in
      let shown = describe_messages d pkt whole e.framer e.label e.segments in
      let kept = keep_next e walk r in
      let released = release (entry_key id direction) r in
      (if walk.incomplete.framer == 0 then gives (false, released) else kept) >>= λ p.
      gives (record {
        pkt = if p.0 then mark_packet shown reassembly_limit else shown;
        messages = record { bytes = whole; segments = e.segments };
        after = p.1;
      })

  unfoldable pub continue_walked : DescribedPacket → Entry → Walk → TcpReassembly → Run Applied
  continue_walked pkt e walk r =
      let rest = length e.held - walk.walk_end in
      if announced_past walk.incomplete rest r.stream_limit
      then continue_past pkt e walk r
      else if walk.walk_end == 0
      then gives (left (describe_segment pkt e.label segment_of_message) r)
      else continue_whole pkt e walk r

  unfoldable pub continue_message : DescribedPacket → Entry → TcpReassembly → Run Applied
  continue_message pkt e r =
      walk_messages d e.held pkt.packet (some (r.states state)) e.framer e.look >>= λ w.
      let looked : Entry = record e { look = w.1 } in
      continue_walked pkt looked w.0 (store (entry_key id direction) looked r)

  -- A segment whose bytes come next, from a place in it on.
  unfoldable pub next_segment : DescribedPacket → Entry → List ℕ → TcpReassembly → Run Applied
  next_segment pkt e bytes r =
      let key = entry_key id direction in
      let limited = mark_packet pkt reassembly_limit in
      append key e bytes r >>= λ p.
      let early = append_early key p.2 p.1 in
      (if p.0 then early else gives p) >>= λ q.
      if q.0 then continue_message pkt q.2 q.1 else gives (left limited (release key q.1))

  unfoldable pub place_segment_in_order :
      DescribedPacket → Entry → List ℕ → TcpReassembly → Run Applied
  place_segment_in_order pkt e bytes r =
      let key = entry_key id direction in
      let used = use_entry key r in
      let placed = place e.order pkt.packet.tcp_seq (length bytes) in
      elim placed.fit [
        | early ↦ hold_early_segment key e pkt.packet.tcp_seq bytes used >>= λ p.
            if p.0
            then gives (left (describe_segment pkt e.label segment_of_message) p.1)
            else begin_message d id state direction pkt bytes (release key p.1)
        | taken ↦ gives (left pkt used)
        | next ↦ next_segment pkt e (drop placed.overlap bytes) used
      ]

  -- A segment of a direction that holds nothing.
  unfoldable pub fresh_segment : DescribedPacket → Option (List ℕ) → TcpReassembly → Run Applied
  fresh_segment pkt payload r = elim (whole_payload pkt.packet payload) [
    | none ↦ gives (left pkt r)
    | some bytes ↦ begin_message d id state direction pkt bytes r
  ]

  unfoldable pub skipping_segment :
      DescribedPacket → Option (List ℕ) → Entry → TcpReassembly → Run Applied
  skipping_segment pkt payload e r = skip_segment pkt payload e r >>= λ s. elim s [
    | taken_in a ↦ gives a
    | past_message r' ↦ fresh_segment pkt payload r'
  ]

  unfoldable pub holding_segment :
      DescribedPacket → Option (List ℕ) → Entry → TcpReassembly → Run Applied
  holding_segment pkt payload e r = elim (whole_payload pkt.packet payload) [
    | none ↦ gives (left pkt (release (entry_key id direction) r))
    | some bytes ↦ place_segment_in_order pkt e bytes r
  ]

  unfoldable pub segment : DescribedPacket → Option (List ℕ) → TcpReassembly → Run Applied
  segment pkt payload r =
      let bit = (r.states state).held_bit direction in
      let found = if bit then find_entry (entry_key id direction) r.entries else none in
      elim found [
        | none ↦ fresh_segment pkt payload r
        | some e ↦
            let skipping = skipping_segment pkt payload e r in
            if e.skipping then skipping else holding_segment pkt payload e r
      ]
