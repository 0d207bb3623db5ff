-- ===== src/StreamContent/Read.antt =====
-- The class StreamContentReader: a packet that read takes, with its direction, and the end of the
-- capture. Reading packets, the budget, progress and cancelling are not modelled.
use log_squirl_tcpdump.Common.{
  ℕ, zero, suc, ◌-◌, min, List, [], Option, none, some, Bool, true, false, not, ◌&&◌, ◌||◌, ltb,
  ◌==◌, if◌then◌else◌, length, take, drop, bit_and, bit_or,
}
use log_squirl_tcpdump.PacketRecord.{PacketRecord, Transport, tcp, udp, tcp_syn, tcp_ack_flag}
use log_squirl_tcpdump.StreamTracker.{same_text}
use log_squirl_tcpdump.StreamContent.{
  Reader, Flow, flow_of, with_flow, hand_out, hand_out_gap, flush,
}
use log_squirl_tcpdump.StreamContent.TakeTcp.{take_tcp}

-- The client is end 0, the server end 1.
pub record StreamEnds : Type 0 where
  pub transport : Transport
  pub client_ip : List ℕ
  pub server_ip : List ℕ
  pub client_port : ℕ
  pub server_port : ℕ

abbrev pub is_tcp : Transport → Bool
is_tcp tcp = true
is_tcp udp = false

abbrev of_transport : Option Transport → Transport → Bool
of_transport (some tcp) tcp = true
of_transport (some udp) udp = true
of_transport _ _ = false

-- std::swap of both ends.
unfoldable pub swapped : StreamEnds → StreamEnds
swapped e = record {
  transport = e.transport;
  client_ip = e.server_ip;
  server_ip = e.client_ip;
  client_port = e.server_port;
  server_port = e.client_port;
}

-- Whether a packet goes from the client to the server.
unfoldable pub from_client : StreamEnds → PacketRecord → Bool
unfolding same_text
from_client e pkt =
    same_text pkt.src_ip e.client_ip
    && (pkt.src_port == e.client_port)
    && same_text pkt.dst_ip e.server_ip
    && (pkt.dst_port == e.server_port)

-- directionOf: `none` is -1.
unfoldable pub direction_in : StreamEnds → PacketRecord → Option ℕ
unfolding from_client swapped
direction_in e pkt =
    if not (of_transport pkt.transport e.transport)
    then none
    else if from_client e pkt
    then some 0
    else if from_client (swapped e) pkt
    then some 1
    else none

-- The bytes of the payload that were captured.
unfoldable pub captured_payload : PacketRecord → List ℕ → List ℕ
captured_payload pkt bytes =
    if ltb pkt.payload_offset (length bytes)
    then take (min pkt.payload_captured (length bytes - pkt.payload_offset))
        (drop pkt.payload_offset bytes)
    else []

-- A datagram: its bytes, and the part that was cut missing.
unfoldable pub take_datagram : ℕ → ℕ → PacketRecord → List ℕ → Flow → Flow
unfolding hand_out hand_out_gap
take_datagram direction packet pkt payload f =
    let shown = hand_out direction packet payload f in
    if ltb (length payload) pkt.payload_len
    then hand_out_gap direction packet (pkt.payload_len - length payload) shown
    else shown

unfoldable pub take_packet : Transport → ℕ → ℕ → PacketRecord → List ℕ → Reader → Reader
unfolding captured_payload take_datagram take_tcp flow_of with_flow
take_packet transport direction packet pkt bytes r =
    let payload = captured_payload pkt bytes in
    if is_tcp transport
    then take_tcp direction packet pkt payload r
    else with_flow r direction (take_datagram direction packet pkt payload (flow_of r direction))

-- A reader with the ends that it knows of.
pub record Reading : Type 0 where
  pub ends : StreamEnds
  pub ends_known : Bool
  pub reader : Reader

abbrev pub other_end : ℕ → ℕ
other_end zero = 1
other_end (suc d) = 0

-- The SYN-ACK of a handshake.
unfoldable pub is_syn_ack : Transport → ℕ → Bool
is_syn_ack transport flags =
    let both = bit_or tcp_syn tcp_ack_flag in is_tcp transport && (bit_and flags both == both)

-- The client sent the first packet, unless it is a SYN-ACK.
unfoldable pub first_packet : StreamEnds → PacketRecord → ℕ → StreamEnds × ℕ
unfolding is_syn_ack swapped
first_packet e pkt direction =
    let from_server = direction == 1 in
    let syn_ack = is_syn_ack e.transport pkt.tcp_flags in
    if (from_server && not syn_ack) || (syn_ack && not from_server)
    then (swapped e, other_end direction)
    else (e, direction)

-- One round of read's loop, with the packet it read.
unfoldable pub read_packet : ℕ → PacketRecord → List ℕ → Reading → Reading
unfolding direction_in first_packet take_packet
read_packet packet pkt bytes s = elim (direction_in s.ends pkt) [
  | none ↦ s
  | some direction ↦
      let (ends, d) =
        if s.ends_known then (s.ends, direction) else first_packet s.ends pkt direction in
      record {
        ends = ends;
        ends_known = true;
        reader = take_packet ends.transport d packet pkt bytes s.reader;
      }
]

-- Behind the last packet, both directions are flushed.
unfoldable pub read_end : ℕ → Reader → Reader
unfolding flush flow_of with_flow
read_end last r =
    let client_done = with_flow r 0 (flush 0 last (flow_of r 0)) in
    with_flow client_done 1 (flush 1 last (flow_of client_done 1))
