-- ===== src/Examples/Content.antt =====
-- A connection whose client's bytes begin at position 0 and whose server's begin at 100.
use log_squirl_tcpdump.Common.{
  ℕ, ◌+◌, ◌%◌, ◌^◌, ◌≤◌, ◌≡◌, refl, inl, inr, [], ◌∷◌, none, some, true, false, arith,
}
use log_squirl_tcpdump.Common.Int.{pos}
use log_squirl_tcpdump.PacketRecord.{PacketRecord, tcp, nanoseconds}
use log_squirl_tcpdump.ByteStreamOrderer.{EarlySegment, bytes_of}
use log_squirl_tcpdump.StreamContent.{
  chunk_of, Direction, Flow, Reader, max_early_bytes, side_of, flow_of, skip_missing, flush,
  before_fin,
}
use log_squirl_tcpdump.StreamContent.TakeTcp.{place_rounds, place_segment, take_tcp}
use log_squirl_tcpdump.StreamContent.Faithful.{end_of, Faithful, Reads}
use log_squirl_tcpdump.StreamContent.Shows.{ShowsByte, Known, LosesNothing}
use log_squirl_tcpdump.StreamContent.Kept.{flush-ShowsAll}
use log_squirl_tcpdump.StreamContent.Losses.{skip_missing-Skips}
use log_squirl_tcpdump.StreamContent.Reach.{flush-reach}
use log_squirl_tcpdump.StreamContent.Segments.{place_segment-Reads}
use log_squirl_tcpdump.StreamContent.Rounds.{place_rounds-enough}
use log_squirl_tcpdump.StreamContent.Session.{Session}
use log_squirl_tcpdump.StreamContent.Connection.{take_tcp-Session}
use log_squirl_tcpdump.StreamContent.Remembers.{Remembers}

abbrev counting : ℕ → ℕ
counting n = n % 256

abbrev held_five : EarlySegment
held_five = record { seq = 5; bytes = 5 ∷ 6 ∷ [] }

abbrev client_side : Direction
client_side = record {
  order = record { next_seq = 3; early_segments = held_five ∷ [] };
  started = true;
  fin_seq = none;
  sent_end = some 7;
  window_shift = none;
  syn_seen = false;
  sent = 3;
}

abbrev server_side : Direction
server_side = record {
  order = record { next_seq = 100; early_segments = [] };
  started = true;
  fin_seq = none;
  sent_end = some 100;
  window_shift = none;
  syn_seen = false;
  sent = 0;
}

abbrev connection : Reader
connection = record {
  client = client_side;
  server = server_side;
  handed_out = 3;
  chunks = chunk_of 0 1 0 (0 ∷ 1 ∷ 2 ∷ []) ∷ [];
}

abbrev client_flow : Flow
client_flow = record { side = client_side; handed_out = 3; chunks = connection.chunks }

-- The bytes that the held segment waits for.
abbrev filling : PacketRecord
filling = record {
  number = 3;
  timestamp_sec = pos 0;
  timestamp_nsec = 0;
  precision = nanoseconds;
  src_ip = [];
  dst_ip = [];
  transport = some tcp;
  src_port = 1024;
  dst_port = 80;
  tcp_seq = 3;
  tcp_ack = 100;
  tcp_flags = 0x18;
  tcp_window = 512;
  tcp_header_len = 20;
  tcp_window_shift = none;
  payload_len = 2;
  payload_offset = 54;
  payload_captured = 2;
  info = [];
}

client_flow-Reads : Reads counting 0 0 counting 1 100 100 client_flow
unfolding end_of Faithful bytes_of
client_flow-Reads = record {
  at_end = record {
    at_p = refl;
    held = ((5, refl, (refl, (refl, tt)), omega arith, omega arith), tt);
  };
  few = omega arith;
  shown = record {
    faithful = ((refl, (refl, (refl, tt))), tt);
    bystander = (tt, tt);
    bystander_end = refl;
  };
}

connection-Session : Session counting 0 counting 100 0 connection
unfolding end_of Faithful bytes_of flow_of side_of
connection-Session = record {
  own = client_flow-Reads;
  other = record {
    at_end = record { at_p = refl; held = tt };
    few = omega arith;
    shown = record {
      faithful = (tt, tt);
      bystander = ((refl, (refl, (refl, tt))), tt);
      bystander_end = refl;
    };
  };
}

take_tcp-Session_example :
    Session counting 0 counting 100 0 (take_tcp 0 3 filling (3 ∷ 4 ∷ []) connection)
unfolding end_of side_of before_fin
take_tcp-Session_example =
    take_tcp-Session counting 0 counting 100 0 3 3 100 filling (3 ∷ 4 ∷ []) connection (omega arith)
      refl refl refl (omega arith) (refl, (refl, tt)) (omega arith, omega arith) refl
      (omega arith, omega arith) connection-Session

flush-ShowsAll_example :
    Reads counting 0 0 counting 1 100 100 (flush 0 4 client_flow)
    × ((flush 0 4 client_flow).side.order.early_segments ≡ [])
    × (end_of 0 0 client_flow.chunks ≤ end_of 0 0 (flush 0 4 client_flow).chunks)
    × ((n : ℕ) → Known 0 0 n client_flow → ShowsByte 0 0 n (flush 0 4 client_flow).chunks)
flush-ShowsAll_example =
    flush-ShowsAll counting 0 0 counting 1 100 100 (omega arith) 4 client_flow client_flow-Reads

-- The held segment's first byte, and so not what the flush skipped.
held_five-Known : Known 0 0 5 client_flow
unfolding end_of
held_five-Known =
    inr (omega arith, inl (5, refl, omega arith, omega arith, omega arith, omega arith))

flush-reach_example : end_of 0 0 (flush 0 4 client_flow).chunks ≤ 3 + 2 ^ 30 + max_early_bytes
unfolding end_of
flush-reach_example =
    flush-reach counting 0 0 counting 1 100 100 (omega arith) 4 3 client_flow client_flow-Reads
      ((5, refl, omega arith, omega arith), tt) refl

abbrev finished_flow : Flow
finished_flow = record client_flow { side = record client_side { fin_seq = some 7 } }

skip_missing-Skips_example :
    let f' = skip_missing 0 4 (8 % 2 ^ 32) finished_flow in
    Reads counting 0 0 counting 1 100 100 f'
    × (3 ≤ end_of 0 0 f'.chunks)
    × (7 ≤ end_of 0 0 f'.chunks)
    × LosesNothing 0 0 finished_flow f'
unfolding end_of
skip_missing-Skips_example =
    skip_missing-Skips counting 0 0 counting 1 100 100 (omega arith) 4 8 (some 7) finished_flow refl
      (omega arith, omega arith) (omega arith) (omega arith)
      (record {
        at_end = client_flow-Reads.at_end;
        few = client_flow-Reads.few;
        shown = client_flow-Reads.shown;
      })

place_segment-Reads_example :
    Reads counting 0 0 counting 1 100 100 (place_segment 0 4 (3 % 2 ^ 32) (3 ∷ 4 ∷ []) client_flow)
unfolding end_of
place_segment-Reads_example =
    place_segment-Reads counting 0 0 counting 1 100 100 (omega arith) 4 3 (3 ∷ 4 ∷ []) client_flow
      (omega arith) (omega arith) (omega arith) (refl, (refl, tt)) client_flow-Reads

place_rounds-enough_example :
    place_rounds 9 0 4 3 (3 ∷ 4 ∷ []) client_flow ≡ place_rounds 2 0 4 3 (3 ∷ 4 ∷ []) client_flow
place_rounds-enough_example =
    place_rounds-enough counting 0 0 counting 1 100 100 7 4 3 (3 ∷ 4 ∷ []) client_flow (omega arith)
      (omega arith) client_flow-Reads
