-- ===== src/TcpReassembly/Apply.antt =====
-- src/tcp_reassembly.cpp: a packet of a stream (apply).
use log_squirl_tcpdump.Common.{
  ℕ, ◌-◌, List, Option, none, some, Bool, true, false, not, ◌&&◌, ltb, ◌==◌, if◌then◌else◌,
}
use log_squirl_tcpdump.Common.Int.{is_pos}
use log_squirl_tcpdump.PacketRecord.{
  PacketRecord, tcp, has, tcp_fin, tcp_syn, tcp_rst, tcp_ack_flag,
}
use log_squirl_tcpdump.ByteStreamOrderer.{seq_after}
use log_squirl_tcpdump.TcpAnalysis.{new_direction}
use log_squirl_tcpdump.StreamTracker.{numbered}
use log_squirl_tcpdump.TcpReassembly.{
  Run, gives, ◌>>=◌, StreamState, TcpReassembly, find_entry, set_let_go, release,
}
use log_squirl_tcpdump.TcpReassembly.Begin.{Applied, entry_key, left}
use log_squirl_tcpdump.TcpReassembly.Segments.{segment}
use log_squirl_tcpdump.TcpReassembly.Messages.{
  TrackedStream, DescribedPacket, Describer, reassembly_limit, mark_packet,
}

module _ (id state direction : ℕ) where
  -- A SYN lets both directions go.
  unfoldable pub release_both : Bool → TcpReassembly → TcpReassembly
  release_both false r = r
  release_both true r = release (entry_key id 1) (release (entry_key id 0) r)

  -- The other side acknowledges bytes that the capture lacks.
  unfoldable pub release_acked : PacketRecord → TcpReassembly → TcpReassembly
  release_acked pkt r =
      let other = entry_key id (1 - direction) in
      if has pkt.tcp_flags tcp_ack_flag && (r.states state).held_bit (1 - direction)
      then elim (find_entry other r.entries) [
        | none ↦ r
        | some e ↦
            if not e.skipping && is_pos (seq_after pkt.tcp_ack e.order.next_seq)
            then release other r
            else r
      ]
      else r

  -- An RST lets both directions go, a FIN its own.
  unfoldable pub release_ended : PacketRecord → TcpReassembly → TcpReassembly
  release_ended pkt r =
      if has pkt.tcp_flags tcp_rst
      then release_both true r
      else if has pkt.tcp_flags tcp_fin
      then release (entry_key id direction) r
      else r

module _ (d : Describer) (id state direction : ℕ) where
  unfoldable pub apply_payload : DescribedPacket → Option (List ℕ) → TcpReassembly → Run Applied
  apply_payload pkt payload r =
      let let_go = (r.states state).let_go_bit direction in
      let cleared : TcpReassembly = record r {
        states = set_let_go state direction false r.states;
      } in
      let taken = segment d id state direction pkt payload cleared >>= λ a.
      gives (if let_go then (record a { pkt = mark_packet a.pkt reassembly_limit }) else a) in
      if ltb 0 pkt.packet.payload_len && not (has (r.states state).protocols 0x01)
      then taken
      else gives (left pkt r)

  unfoldable pub apply_numbered : DescribedPacket → Option (List ℕ) → TcpReassembly → Run Applied
  apply_numbered pkt payload r =
      let opened = release_both id state direction (has pkt.packet.tcp_flags tcp_syn) r in
      apply_payload pkt payload (release_acked id state direction pkt.packet opened) >>= λ a.
      gives (record a { after = release_ended id state direction pkt.packet a.after })

abbrev pub new_state : StreamState
new_state = record {
  tcp = λ d. new_direction;
  protocols = 0;
  held_bit = λ d. false;
  let_go_bit = λ d. false;
}

-- analyseTcp, before apply, forgets the state of a stream in which a new connection starts.
unfoldable pub forget : ℕ → TcpReassembly → TcpReassembly
forget state r = record r { states = λ s. if s == state then new_state else r.states s }

-- Packets of other transports, of no stream or a stream past the cap are left as they are.
unfoldable pub apply :
    Describer → DescribedPacket → TrackedStream → Option (List ℕ) → TcpReassembly → Run Applied
apply d pkt stream payload r = elim pkt.packet.transport [
  | some tcp ↦ elim stream.id [
    | numbered id ↦ elim stream.state [
      | none ↦ gives (left pkt r)
      | some state ↦
          let applied = apply_numbered d id state stream.direction pkt payload r in
          if ltb pkt.packet.tcp_header_len 20 then gives (left pkt r) else applied
    ]
    | _ ↦ gives (left pkt r)
  ]
  | _ ↦ gives (left pkt r)
]
