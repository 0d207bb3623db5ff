-- ===== src/TcpReassembly/Begin.antt =====
-- src/tcp_reassembly.cpp: the message that a segment begins, and the rest of one that is skipped (skip,
-- startMessage, and the end of segment). A payload that was not captured is none; `completed_` is the
-- bytes of the result.
use log_squirl_tcpdump.Common.{
  ℕ, ◌+◌, ◌-◌, ◌*◌, ◌^◌, ◌%◌, min, max, List, [], ◌∷◌, ◌++◌, Option, none, some, Bool, true, false,
  ◌&&◌, ◌||◌, ltb, ◌==◌, if◌then◌else◌, length, drop, take,
}
use log_squirl_tcpdump.Common.Int.{is_pos}
use log_squirl_tcpdump.PacketRecord.{PacketRecord, has, tcp_fin, tcp_syn}
use log_squirl_tcpdump.ByteStreamOrderer.{seq_after, reset}
use log_squirl_tcpdump.TcpReassembly.{
  Run, gives, ◌>>=◌, FramerLook, no_look, Entry, new_entry, TcpReassembly, entry_overhead,
  erase_key, set_held, release, recharge, make_room,
}
use log_squirl_tcpdump.TcpReassembly.Messages.{
  DescribedPacket, Describer, MessageExtent, tcp_message_extent, Walk, walk_messages,
  segment_of_message, reassembly_limit, mark_packet, describe_messages, describe_segment,
  announced_past,
}

pub record ReassembledMessages : Type 0 where
  pub bytes : List ℕ
  pub segments : ℕ

abbrev pub no_messages : ReassembledMessages
no_messages = record { bytes = []; segments = 0 }

-- A packet as it is described by now, the messages it completed, and the state.
pub record Applied : Type 0 where
  pub pkt : DescribedPacket
  pub messages : ReassembledMessages
  pub after : TcpReassembly

-- `kMaxSkip`.
abbrev pub max_skip : ℕ
max_skip = 2 ^ 30

-- keyOf: `( id << 1 ) | direction` of a direction 0 or 1.
abbrev pub entry_key : ℕ → ℕ → ℕ
entry_key id direction = 2 * id + direction

-- `lru_.splice( lru_.end(), lru_, entry.lru )`
abbrev pub use_entry : ℕ → TcpReassembly → TcpReassembly
use_entry key r = record r { lru = erase_key key r.lru ++ (key ∷ []) }

-- A new entry under a key that has none, charged, with the direction's bit.
abbrev pub insert_entry : ℕ → Entry → TcpReassembly → TcpReassembly
insert_entry key e r =
    let with_entry : TcpReassembly = record r {
      entries = (key, e) ∷ r.entries;
      lru = r.lru ++ (key ∷ []);
    } in
    let charged = (recharge key e with_entry).0 in
    record charged { states = set_held e.state e.direction true charged.states }

abbrev pub insert_skipping : ℕ → ℕ → ℕ → List ℕ → ℕ → ℕ → Bool × TcpReassembly → Run TcpReassembly
insert_skipping id state direction label from bytes (false, r) = gives r
insert_skipping id state direction label from bytes (true, r) = gives (
    insert_entry (entry_key id direction)
      (record new_entry {
        state = state;
        direction = direction;
        label = label;
        skipping = true;
        skip_from = from;
        skip_end = (from + bytes % 2 ^ 32) % 2 ^ 32;
      })
      r)

-- The stream's number, the pointer to its state and the packet's direction are given apart.
unfoldable pub skip : ℕ → ℕ → ℕ → List ℕ → ℕ → ℕ → TcpReassembly → Run TcpReassembly
skip id state direction label from bytes r =
    let key = entry_key id direction in
    let released = release key r in
    if ltb max_skip bytes
    then gives released
    else make_room entry_overhead key released
      >>= insert_skipping id state direction label from bytes

abbrev pub left : DescribedPacket → TcpReassembly → Applied
left pkt r = record { pkt = pkt; messages = no_messages; after = r }

-- The sequence number after the payload.
abbrev pub payload_end : PacketRecord → ℕ
payload_end pkt = (pkt.tcp_seq + pkt.payload_len) % 2 ^ 32

module _ (d : Describer) (id state direction : ℕ) where
  abbrev describe_after : Option (List ℕ) → DescribedPacket → List ℕ → ℕ → List ℕ → DescribedPacket
  describe_after none pkt bytes framer label = pkt
  describe_after (some after) pkt bytes framer label = describe_messages d pkt bytes framer label 1

  -- The message that begins in the segment does not fit: the rest of it is skipped, if it is told.
  unfoldable pub start_past :
      Option (List ℕ)
      → DescribedPacket
      → List ℕ
      → MessageExtent
      → Walk
      → TcpReassembly
      → Run Applied
  start_past after pkt bytes first walk r =
      let rest = length bytes - walk.walk_end in
      let shown =
        mark_packet (describe_after after pkt bytes first.framer first.label) reassembly_limit in
      let skipped =
        skip id state direction walk.incomplete.label (payload_end pkt.packet)
          (walk.incomplete.extent_length - rest) r in
      (if announced_past walk.incomplete rest r.stream_limit then skipped else gives r) >>= λ r'.
      gives (left shown r')

  -- The message that begins in the segment is held, in a buffer of a size.
  unfoldable pub start_held :
      DescribedPacket → List ℕ → MessageExtent → Walk → FramerLook → ℕ → TcpReassembly → Run Applied
  start_held pkt bytes first walk look room r =
      let e : Entry = record new_entry {
        state = state;
        direction = direction;
        framer = walk.incomplete.framer;
        label = walk.incomplete.label;
        order = reset new_entry.order (payload_end pkt.packet);
        segments = 1;
        held = drop walk.walk_end bytes;
        capacity = room;
        look = look;
      } in
      let r' = insert_entry (entry_key id direction) e r in
      let whole = take walk.walk_end bytes in
      if walk.walk_end == 0
      then gives (left (describe_segment pkt first.label segment_of_message) r')
      else gives (record {
        pkt = describe_messages d pkt whole first.framer first.label 1;
        messages = record { bytes = whole; segments = 1 };
        after = r';
      })

  unfoldable pub start_walked :
      Option (List ℕ)
      → DescribedPacket
      → List ℕ
      → MessageExtent
      → Walk
      → FramerLook
      → TcpReassembly
      → Run Applied
  start_walked after pkt bytes first walk look r =
      let whole = take walk.walk_end bytes in
      let is_after : Bool = elim after [ none ↦ false | some l ↦ true ] in
      let shown =
        if (first.described_in_stream || walk.upgraded || is_after) && ltb 0 walk.walk_end
        then describe_messages d pkt whole first.framer first.label 1
        else pkt in
      let key = entry_key id direction in
      let released = release key r in
      let rest = length bytes - walk.walk_end in
      let room = max rest (min walk.incomplete.extent_length r.stream_limit) in
      if walk.incomplete.framer == 0
      then gives
          (record { pkt = shown; messages = record { bytes = whole; segments = 1 }; after = r })
      else if ltb r.stream_limit walk.incomplete.extent_length
      then start_past after pkt bytes first walk released
      else make_room (entry_overhead + room) key released >>= λ p.
          if p.0
          then start_held pkt bytes first walk look room p.1
          else start_past after pkt bytes first walk p.1

  -- `after` is the label of a message that was skipped before the bytes.
  unfoldable pub start_message :
      Option (List ℕ) → DescribedPacket → List ℕ → TcpReassembly → Run Applied
  start_message after pkt bytes r =
      let states = some (r.states state) in
      let first = (tcp_message_extent d bytes pkt.packet 0 states no_look).0 in
      let shown : DescribedPacket = elim after [
        | none ↦ pkt
        | some label ↦ describe_messages d pkt bytes 0 label 1
      ] in
      if first.framer == 0
      then gives (left shown r)
      else walk_messages d bytes pkt.packet states first.framer no_look >>= λ w.
          start_walked after pkt bytes first w.0 w.1 r

  -- A segment that begins no message sent before.
  unfoldable pub begin_message : DescribedPacket → List ℕ → TcpReassembly → Run Applied
  begin_message pkt bytes r =
      let tcp = (r.states state).tcp direction in
      let sent =
        pkt.packet.tcp_seq
        + 2 ^ 32
        - tcp.base_seq
        + (if has pkt.packet.tcp_flags tcp_syn then 1 else 0)
        + pkt.packet.payload_len
        + (if has pkt.packet.tcp_flags tcp_fin then 1 else 0) in
      if tcp.base_seq_set && is_pos (seq_after tcp.next_seq (sent % 2 ^ 32))
      then gives (left pkt r)
      else start_message none pkt bytes r
