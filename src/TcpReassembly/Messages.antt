-- ===== src/TcpReassembly/Messages.antt =====
-- The framers' table of src/payload_describer.cpp (tcpMessageExtent, redescribe), and the first half of
-- src/tcp_reassembly.cpp: where a run of bytes stops being whole messages, and what a packet is
-- described as. What frames and describes the messages of a protocol is a parameter.
use log_squirl_tcpdump.Common.{
  ℕ, zero, suc, ◌+◌, List, [], ◌∷◌, ◌++◌, Option, none, some, Bool, true, false, not, ◌&&◌, ◌||◌,
  ltb, ◌==◌, if◌then◌else◌, length, drop,
}
use log_squirl_tcpdump.PacketRecord.{PacketRecord}
use log_squirl_tcpdump.DisplayFilter.Syntax.{units}
use log_squirl_tcpdump.StreamTracker.{StreamId, digits}
use log_squirl_tcpdump.TcpReassembly.{Run, gives, out_of_fuel, StreamState, FramerLook, no_look}

-- A packet's stream, with the pointer to its state.
pub record TrackedStream : Type 0 where
  pub id : StreamId
  pub state : Option ℕ
  pub direction : ℕ

pub data StreamCue : Type 0 where
  no_cue quic_long_header http2_preface mqtt_connect ssh_banner ssh_new_keys : StreamCue
  web_socket_upgrade : StreamCue

pub record MediaEndpoint : Type 0 where
  pub ip : List ℕ
  pub rtp_port : ℕ
  pub rtcp_port : ℕ

pub record SipCall : Type 0 where
  pub call_id : List ℕ
  pub media : List MediaEndpoint
  pub origin : List ℕ
  pub ends : Bool

-- A packet with the fields that describe its payload.
pub record DescribedPacket : Type 0 where
  pub packet : PacketRecord
  pub protocol : List ℕ
  pub protocol_recognised : Bool
  pub preview_bytes : ℕ
  pub stream_cue : StreamCue
  pub sip_calls : List SipCall

pub record PayloadDescription : Type 0 where
  pub label : List ℕ
  pub description : List ℕ
  pub guessed : Bool
  pub preview : Bool
  pub stream_cue : StreamCue
  pub sip_calls : List SipCall

-- What a framer is given; `state` is what the stream's pointer points to.
pub record Payload : Type 0 where
  pub bytes : List ℕ
  pub src_port : ℕ
  pub dst_port : ℕ
  pub state : Option StreamState
  pub continuing : Bool
  pub look : Option FramerLook

-- The look is the one that the framer leaves behind its pointer.
pub record Framer : Type 0 where
  pub label : List ℕ
  pub frame : Payload → Option ℕ × FramerLook
  pub in_stream : Option (Payload → Bool)
  pub upgrades : Option (List ℕ → ℕ → Bool)

-- kTcpFramers, the number of the WebSocket framer in it, and describeTcpMessages.
pub record Describer : Type 0 where
  pub framers : List Framer
  pub web_socket_framer : ℕ
  pub describe_tcp_messages : List ℕ → ℕ → ℕ → ℕ → PayloadDescription

pub record MessageExtent : Type 0 where
  pub framer : ℕ
  pub label : List ℕ
  pub extent_length : ℕ
  pub needs_more : Bool
  pub described_in_stream : Bool
  pub upgrades_to : ℕ

abbrev pub no_extent : MessageExtent
no_extent = record {
  framer = 0;
  label = [];
  extent_length = 0;
  needs_more = false;
  described_in_stream = false;
  upgrades_to = 0;
}

abbrev told_by_stream : Option (Payload → Bool) → Payload → Bool
told_by_stream none p = false
told_by_stream (some test) p = test p

abbrev upgrade_told : Option (List ℕ → ℕ → Bool) → List ℕ → ℕ → Bool
upgrade_told none bytes n = false
upgrade_told (some test) bytes n = test bytes n

-- The message of a length that a framer of a number told.
abbrev extent_of : ℕ → ℕ → Framer → Payload → ℕ → MessageExtent
extent_of web_socket number f p n =
    let needs_more = ltb (length p.bytes) n in
    record {
      framer = number;
      label = f.label;
      extent_length = n;
      needs_more = needs_more;
      described_in_stream = told_by_stream f.in_stream p;
      upgrades_to = if not needs_more && upgrade_told f.upgrades p.bytes n then web_socket else 0;
    }

-- The loop of tcpMessageExtent from the framer of a number on.
unfoldable pub extent_from :
    ℕ → ℕ → ℕ → Payload → FramerLook → List Framer → MessageExtent × FramerLook
extent_from web_socket framer number p look [] = (no_extent, look)
extent_from web_socket framer number p look (f ∷ fs) =
    let p' : Payload = record p { continuing = framer == number } in
    let (told, look') = f.frame p' in
    let other = not (framer == 0) && not (framer == number) in
    let left_look = if (framer == 0) || other then look else look' in
    let p'' : Payload = record p' { look = if framer == 0 then none else some left_look } in
    let rest = extent_from web_socket framer (suc number) p left_look fs in
    if other
    then rest
    else elim told [ none ↦ rest | some n ↦ (extent_of web_socket number f p'' n, left_look) ]

-- The message at the start of the bytes, and the look; `framer` 0 is any, which is given no look.
unfoldable pub tcp_message_extent :
    Describer
    → List ℕ
    → PacketRecord
    → ℕ
    → Option StreamState
    → FramerLook
    → MessageExtent × FramerLook
tcp_message_extent d bytes pkt framer state look =
    extent_from d.web_socket_framer framer 1
      (record {
        bytes = bytes;
        src_port = pkt.src_port;
        dst_port = pkt.dst_port;
        state = state;
        continuing = false;
        look = if framer == 0 then none else some look;
      })
      look d.framers

pub record Walk : Type 0 where
  pub walk_end : ℕ
  pub incomplete : MessageExtent
  pub upgraded : Bool

-- The loop of walkMessages: a round that goes on has passed a whole message.
unfoldable pub walk_loop :
    ℕ
    → Describer
    → List ℕ
    → PacketRecord
    → Option StreamState
    → ℕ
    → FramerLook
    → Walk
    → Run (Walk × FramerLook)
walk_loop zero d bytes pkt state framer look walk = out_of_fuel
walk_loop (suc fuel) d bytes pkt state framer look walk = elim (ltb walk.walk_end (length bytes)) [
  | false ↦ gives (walk, look)
  | true ↦
      let (extent, look') = tcp_message_extent d (drop walk.walk_end bytes) pkt framer state look in
      elim (extent.framer == 0) [
        | true ↦ gives (record walk { walk_end = length bytes }, look')
        | false ↦ elim extent.needs_more [
          | true ↦ gives (record walk { incomplete = extent }, look')
          | false ↦
              walk_loop fuel d bytes pkt state
                (if extent.upgrades_to == 0 then framer else extent.upgrades_to) no_look
                (record walk {
                  walk_end = walk.walk_end + extent.extent_length;
                  upgraded = not (extent.upgrades_to == 0) || walk.upgraded;
                })
        ]
      ]
]

unfoldable pub walk_messages :
    Describer
    → List ℕ
    → PacketRecord
    → Option StreamState
    → ℕ
    → FramerLook
    → Run (Walk × FramerLook)
walk_messages d bytes pkt state framer look =
    walk_loop (suc (length bytes)) d bytes pkt state framer look
      (record { walk_end = 0; incomplete = no_extent; upgraded = false })

abbrev pub segment_of_message : List ℕ
segment_of_message = units "[TCP segment of a reassembled PDU]"

abbrev pub reassembly_limit : List ℕ
reassembly_limit = units "[reassembly limit]"

abbrev pub continuation_of_message : List ℕ
continuation_of_message = units "[continuation of a message past the reassembly limit]"

-- `info.substr( 0, info.find( kDescriptionSeparator ) )`, the separator being " | ".
unfoldable pub before_separator : List ℕ → List ℕ
before_separator [] = []
before_separator (c ∷ s) =
    let rest = c ∷ before_separator s in
    elim s [ d ∷ e ∷ _ ↦ if (c == 32) && (d == 124) && (e == 32) then [] else rest | _ ↦ rest ]

unfoldable pub redescribe : DescribedPacket → List ℕ → List ℕ → DescribedPacket
redescribe pkt label description =
    let old = pkt.packet in
    record pkt {
      preview_bytes = 0;
      protocol = label;
      protocol_recognised = true;
      packet = record old { info = before_separator old.info ++ units " | " ++ description };
    }

unfoldable pub mark_packet : DescribedPacket → List ℕ → DescribedPacket
mark_packet pkt marker =
    let old = pkt.packet in
    record pkt { packet = record old { info = old.info ++ (32 ∷ marker) }; preview_bytes = 0 }

unfoldable pub describe_messages :
    Describer → DescribedPacket → List ℕ → ℕ → List ℕ → ℕ → DescribedPacket
describe_messages d pkt bytes framer label segments =
    let described = d.describe_tcp_messages bytes pkt.packet.src_port pkt.packet.dst_port framer in
    let space : List ℕ = elim described.description [ [] ↦ [] | _ ↦ 32 ∷ [] ] in
    let counted = space ++ units "[reassembled from " ++ digits 10 segments ++ units " segments]" in
    let description =
      if ltb 1 segments then described.description ++ counted else described.description in
    let shown_label : List ℕ = elim described.label [ [] ↦ label | c ∷ s ↦ c ∷ s ] in
    let shown = redescribe pkt shown_label description in
    record shown { sip_calls = described.sip_calls; stream_cue = described.stream_cue }

unfoldable pub describe_segment : DescribedPacket → List ℕ → List ℕ → DescribedPacket
describe_segment pkt label what = record (redescribe pkt label what) {
  sip_calls = [];
  stream_cue = no_cue;
}

unfoldable pub announced_past : MessageExtent → ℕ → ℕ → Bool
announced_past extent rest limit =
    not (extent.framer == 0)
    && ltb limit extent.extent_length
    && ltb (rest + 1) extent.extent_length
