-- ===== src/Examples/Reassembly.antt =====
-- A message of a length byte and three bytes, in two segments of one direction of stream 0.
use log_squirl_tcpdump.Common.{
  ℕ, ◌+◌, ◌<◌, ◌≡◌, refl, List, [], ◌∷◌, Option, some, none, false, length, All, arith,
}
use log_squirl_tcpdump.Common.Int.{pos}
use log_squirl_tcpdump.PacketRecord.{tcp, nanoseconds}
use log_squirl_tcpdump.TcpAnalysis.{new_direction}
use log_squirl_tcpdump.ByteStreamOrderer.{
  early_bytes, bytes_of, place, advance, seq_after, reset, pop_next, pop_loop, take_ready,
}
use log_squirl_tcpdump.StreamTracker.{numbered}
use log_squirl_tcpdump.TcpReassembly.{
  Run, gives, ◌>>=◌, put_entry, erase_entry, erase_key, room_loop, reserve, append, append_early,
  append_early_loop, FramerLook, no_look, Entry, new_entry, TcpReassembly, find_entry, release,
  recharge, make_room, early_cost,
}
use log_squirl_tcpdump.TcpReassembly.Table.{Once, Distinct, costs, among}
use log_squirl_tcpdump.TcpReassembly.Messages.{
  TrackedStream, no_cue, DescribedPacket, Payload, Framer, Describer, walk_messages,
  tcp_message_extent, extent_from, walk_loop, announced_past,
}
use log_squirl_tcpdump.TcpReassembly.Walks.{Frames, IsWalked, walk_messages-IsWalked}
use log_squirl_tcpdump.TcpReassembly.Sound.{IsSound, Gives, is_found}
use log_squirl_tcpdump.ByteStreamOrderer.Positions.{Follows}
use log_squirl_tcpdump.TcpReassembly.Memory.{
  IsWithout, release-IsWithout, HasRoom, make_room-HasRoom,
}
use log_squirl_tcpdump.TcpReassembly.Insert.{Keeps, charged_entry, Inserted, insert_entry-Inserted}
use log_squirl_tcpdump.TcpReassembly.Start.{Divides, start_message-Divides}
use log_squirl_tcpdump.TcpReassembly.Whole.{apply-Keeps, apply-forget}
use log_squirl_tcpdump.TcpReassembly.Packets.{DividesNext, next_segment-DividesNext}
use log_squirl_tcpdump.TcpReassembly.Begin.{
  insert_entry, start_message, begin_message, start_walked, start_held,
}
use log_squirl_tcpdump.TcpReassembly.Apply.{
  forget, apply, apply_numbered, apply_payload, release_both, release_acked, release_ended,
}
use log_squirl_tcpdump.TcpReassembly.Begin.{Applied}
use log_squirl_tcpdump.TcpReassembly.Segments.{
  next_segment, segment, fresh_segment, holding_segment, place_segment_in_order, continue_message,
  continue_walked, continue_whole, keep_next, continue_past,
}

abbrev frame_by_length : Payload → Option ℕ × FramerLook
frame_by_length p = (elim p.bytes [ [] ↦ none | n ∷ rest ↦ some (n + 1) ], no_look)

abbrev by_length : Framer
by_length = record { label = 76 ∷ []; frame = frame_by_length; in_stream = none; upgrades = none }

abbrev describer : Describer
describer = record {
  framers = by_length ∷ [];
  web_socket_framer = 0;
  describe_tcp_messages = λ bytes src dst framer. record {
    label = [];
    description = bytes;
    guessed = false;
    preview = false;
    stream_cue = no_cue;
    sip_calls = [];
  };
}

framed :
    (bytes : List ℕ) (n : ℕ)
    → (elim bytes as (λ x. Option ℕ) [ [] ↦ none | m ∷ rest ↦ some (m + 1) ]) ≡ some n
    → 0 < n
framed [] n e = absurd cc
framed (m ∷ rest) n e = ground arith

abbrev framing : All Frames describer.framers
framing = ((λ p n e. framed p.bytes n e), tt)

abbrev empty : TcpReassembly
empty = record {
  memory_limit = 400;
  stream_limit = 64;
  used = 0;
  entries = [];
  lru = [];
  states = λ s. record {
    tcp = λ d. new_direction;
    protocols = 0;
    held_bit = λ d. false;
    let_go_bit = λ d. false;
  };
}

empty-IsSound : IsSound empty
unfolding costs Once Distinct among is_found find_entry
empty-IsSound = record {
  total = refl;
  bounded = omega arith;
  once = tt;
  distinct = tt;
  listed = λ key. refl;
  entry = λ key e there. absurd cc;
  bits = λ s side l. refl;
}

abbrev first_part : List ℕ
first_part = 3 ∷ 7 ∷ []

abbrev second_part : List ℕ
second_part = 8 ∷ 9 ∷ 1 ∷ []

abbrev stream : TrackedStream
stream = record { id = numbered 0; state = some 0; direction = 1 }

abbrev packet : ℕ → ℕ → DescribedPacket
packet seq len = record {
  packet = record {
    number = 1;
    timestamp_sec = pos 0;
    timestamp_nsec = 0;
    precision = nanoseconds;
    src_ip = [];
    dst_ip = [];
    transport = some tcp;
    src_port = 1024;
    dst_port = 80;
    tcp_seq = seq;
    tcp_ack = 0;
    tcp_flags = 0x10;
    tcp_window = 512;
    tcp_header_len = 20;
    tcp_window_shift = none;
    payload_len = len;
    payload_offset = 54;
    payload_captured = len;
    info = [];
  };
  protocol = [];
  protocol_recognised = false;
  preview_bytes = 0;
  stream_cue = no_cue;
  sip_calls = [];
}

abbrev first_entry : Entry
first_entry = record new_entry {
  direction = 1;
  held = first_part;
  capacity = 4;
  order = record { next_seq = 102; early_segments = [] };
  segments = 1;
  framer = 1;
}

held_first : Inserted 1 first_entry empty (insert_entry 1 first_entry empty)
unfolding find_entry early_bytes bytes_of early_cost
held_first = insert_entry-Inserted 1 first_entry empty empty-IsSound (record {
  absent = refl;
  keyed = refl;
  side = omega arith;
  fits = omega arith;
  within = omega arith;
  few = omega arith;
  uncounted = refl;
  room = omega arith;
})

apply-Keeps_example :
    Gives (λ a. Keeps empty a.after) (apply describer (packet 100 2) stream (some first_part) empty)
apply-Keeps_example =
    apply-Keeps describer framing stream (packet 100 2) (some first_part) empty (λ id state e f. cc)
      (omega arith) empty-IsSound

abbrev syn_packet : DescribedPacket
syn_packet = record (packet 200 0) { packet = record ((packet 200 0).packet) { tcp_flags = 0x02 } }

apply-forget_example :
    Gives
      (λ a. Keeps (insert_entry 1 first_entry empty) a.after)
      (apply describer syn_packet stream none (forget 0 (insert_entry 1 first_entry empty)))
apply-forget_example =
    apply-forget describer framing 0 0 1 syn_packet none (insert_entry 1 first_entry empty) refl
      (omega arith) refl (omega arith) refl held_first.keeps.sound

-- A segment came early: it begins behind the one that comes next now.
abbrev waiting_entry : Entry
waiting_entry = record first_entry {
  order = record { next_seq = 102; early_segments = record { seq = 105; bytes = 5 ∷ [] } ∷ [] };
}

held_waiting : Inserted 1 waiting_entry empty (insert_entry 1 waiting_entry empty)
unfolding find_entry early_bytes bytes_of early_cost
held_waiting = insert_entry-Inserted 1 waiting_entry empty empty-IsSound (record {
  absent = refl;
  keyed = refl;
  side = omega arith;
  fits = omega arith;
  within = omega arith;
  few = omega arith;
  uncounted = refl;
  room = omega arith;
})

abbrev fives : ℕ → ℕ
fives n = 5

waiting-Follows : Follows fives 105 (advance waiting_entry.order (length second_part))
unfolding advance bytes_of
waiting-Follows = record {
  at_p = refl;
  held = ((105, refl, (refl, tt), omega arith, omega arith), tt);
}

next_segment-DividesNext_example :
    Gives
      (DividesNext fives 105 1
        (charged_entry waiting_entry)
        second_part
        (insert_entry 1 waiting_entry empty))
      (next_segment describer 0 0 1
        (packet 102 3)
        (charged_entry waiting_entry)
        second_part
        (insert_entry 1 waiting_entry empty))
unfolding early_bytes bytes_of
next_segment-DividesNext_example =
    next_segment-DividesNext describer framing 0 0 1 refl (omega arith) fives 105 (packet 102 3)
      (charged_entry waiting_entry) second_part (insert_entry 1 waiting_entry empty)
      held_waiting.keeps.sound held_waiting.there waiting-Follows (omega arith)

make_room-HasRoom_example :
    Gives
      (HasRoom 300 0 (insert_entry 1 first_entry empty))
      (make_room 300 0 (insert_entry 1 first_entry empty))
make_room-HasRoom_example =
    make_room-HasRoom 300 0 (insert_entry 1 first_entry empty) held_first.keeps.sound

release-IsWithout_example :
    IsWithout 1 (insert_entry 1 first_entry empty) (release 1 (insert_entry 1 first_entry empty))
release-IsWithout_example =
    release-IsWithout 1 (insert_entry 1 first_entry empty) held_first.keeps.sound

start_message-Divides_example :
    Gives
      (Divides 1 (1 ∷ 5 ∷ 3 ∷ 7 ∷ []) empty)
      (start_message describer 0 0 1 none (packet 98 4) (1 ∷ 5 ∷ 3 ∷ 7 ∷ []) empty)
unfolding find_entry
start_message-Divides_example =
    start_message-Divides describer framing 0 0 1 refl (omega arith) none (packet 98 4)
      (1 ∷ 5 ∷ 3 ∷ 7 ∷ []) empty empty-IsSound refl

walk_messages-IsWalked_example :
    Gives
      (IsWalked (1 ∷ 5 ∷ 3 ∷ 7 ∷ []))
      (walk_messages describer (1 ∷ 5 ∷ 3 ∷ 7 ∷ []) (packet 98 4).packet none 1 no_look)
walk_messages-IsWalked_example =
    walk_messages-IsWalked describer framing (packet 98 4).packet (1 ∷ 5 ∷ 3 ∷ 7 ∷ []) none 1
      no_look

-- The first segment is held, and the second one completes the message; its last byte begins another.
abbrev completed : Run Applied → Option (List ℕ)
completed (gives a) = some a.messages.bytes
completed _ = none

abbrev two_segments : Run Applied
two_segments = apply describer (packet 100 2) stream (some first_part) empty >>= λ a.
    apply describer (packet 102 3) stream (some second_part) a.after

message_put_together : completed two_segments ≡ some (3 ∷ 7 ∷ 8 ∷ 9 ∷ [])
unfolding apply apply_numbered apply_payload release_both release_acked release_ended segment
    fresh_segment holding_segment place_segment_in_order next_segment continue_message
    continue_walked continue_whole keep_next continue_past begin_message start_message start_walked
    start_held release recharge make_room room_loop reserve append append_early append_early_loop
    find_entry put_entry erase_entry erase_key early_cost tcp_message_extent extent_from
    walk_messages walk_loop announced_past place early_bytes bytes_of advance seq_after reset
    pop_next pop_loop take_ready
message_put_together = refl
