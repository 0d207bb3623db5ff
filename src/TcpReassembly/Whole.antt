-- ===== src/TcpReassembly/Whole.antt =====
-- src/tcp_reassembly.cpp: a packet leaves the state well formed and within the limits (apply).
use log_squirl_tcpdump.Common.{
  ℕ, ◌-◌, ◌≤◌, ◌<◌, sym, subst, arith, List, Option, none, some, Bool, true, false, not, ◌&&◌, ltb,
  ◌≡◌, refl, if_both, All,
}
use log_squirl_tcpdump.PacketRecord.{
  PacketRecord, Transport, tcp, udp, has, tcp_fin, tcp_syn, tcp_rst,
}
use log_squirl_tcpdump.StreamTracker.{StreamId, no_stream, unnumbered, numbered}
use log_squirl_tcpdump.TcpReassembly.{Run, Entry, TcpReassembly, find_entry}
use log_squirl_tcpdump.TcpReassembly.Messages.{DescribedPacket, Describer, TrackedStream}
use log_squirl_tcpdump.TcpReassembly.Walks.{Frames}
use log_squirl_tcpdump.TcpReassembly.Sound.{IsSound, Gives, given, Gives-bind, Gives-test}
use log_squirl_tcpdump.TcpReassembly.Memory.{set_let_go-IsSound}
use log_squirl_tcpdump.TcpReassembly.Insert.{Keeps, Keeps-refl, Keeps-trans, release-Keeps}
use log_squirl_tcpdump.TcpReassembly.Begin.{Applied, entry_key}
use log_squirl_tcpdump.TcpReassembly.Apply.{
  release_both, release_acked, apply_payload, release_ended, apply_numbered, forget, apply,
}
use log_squirl_tcpdump.TcpReassembly.Restart.{release_both-forget}
use log_squirl_tcpdump.TcpReassembly.Packets.{segment-Keeps}

Gives-numbered {ℓ} :
    {A : Type ℓ} (P : A → Type 0) (transport : Option Transport) (id : StreamId) (state : Option ℕ)
    (x : Run A) (f : ℕ → ℕ → Run A)
    → Gives P x
    → ((n s : ℕ) → id ≡ numbered n → state ≡ some s → Gives P (f n s))
    → Gives P (elim transport [
      | some tcp ↦ elim id [ numbered n ↦ elim state [ none ↦ x | some s ↦ f n s ] | _ ↦ x ]
      | _ ↦ x
    ])
Gives-numbered P none id state x f h k = h
Gives-numbered P (some udp) id state x f h k = h
Gives-numbered P (some tcp) no_stream state x f h k = h
Gives-numbered P (some tcp) unnumbered state x f h k = h
Gives-numbered P (some tcp) (numbered n) none x f h k = h
Gives-numbered P (some tcp) (numbered n) (some s) x f h k = k n s refl refl

Gives-tcp {ℓ} :
    {A : Type ℓ} (P : A → Type 0) (transport : Option Transport) (x y : Run A)
    → transport ≡ some tcp
    → Gives P y
    → Gives P (elim transport [ some tcp ↦ y | _ ↦ x ])
Gives-tcp P none x y e h = absurd cc
Gives-tcp P (some udp) x y e h = absurd cc
Gives-tcp P (some tcp) x y e h = h

kept_option :
    (r : TcpReassembly) (o : Option Entry) (f : Entry → TcpReassembly)
    → ((e : Entry) → Keeps r (f e))
    → Keeps r r
    → Keeps r (elim o [ none ↦ r | some e ↦ f e ])
kept_option r none f h k = k
kept_option r (some e) f h k = h e

module _ (d : Describer) (framing : All Frames d.framers) where
  module _ (id state direction : ℕ) (same : id ≡ state) (side : direction < 2) where
    release_both-Keeps :
        (c : Bool) (r : TcpReassembly) → IsSound r → Keeps r (release_both id state direction c r)
    unfolding release_both
    release_both-Keeps false r s = Keeps-refl r s
    release_both-Keeps true r s =
        let first = release-Keeps (entry_key id 0) r s in
        Keeps-trans r _ _ first (release-Keeps (entry_key id 1) _ first.sound)

    release_acked-Keeps :
        (pkt : PacketRecord) (r : TcpReassembly)
        → IsSound r
        → Keeps r (release_acked id state direction pkt r)
    unfolding release_acked
    release_acked-Keeps pkt r s =
        let other = entry_key id (1 - direction) in
        if_both (λ x. Keeps r x) _
          (kept_option r (find_entry other r.entries) _
            (λ e. if_both (λ x. Keeps r x) _ (release-Keeps other r s) (Keeps-refl r s))
            (Keeps-refl r s))
          (Keeps-refl r s)

    apply_payload-Keeps :
        (pkt : DescribedPacket) (payload : Option (List ℕ)) (r : TcpReassembly)
        → IsSound r
        → Gives (λ a. Keeps r a.after) (apply_payload d id state direction pkt payload r)
    unfolding apply_payload
    apply_payload-Keeps pkt payload r s =
        let cleared = set_let_go-IsSound state direction false r s in
        let let_go = (r.states state).let_go_bit direction in
        Gives-test _ (ltb 0 pkt.packet.payload_len && not (has (r.states state).protocols 0x01)) _ _
          (λ some_bytes.
            Gives-bind (λ a. Keeps _ a.after) _ _ _
              (segment-Keeps d framing id state direction same side pkt payload _ cleared)
              (λ a keeps.
                let now : Keeps r a.after = record { sound = keeps.sound; limits = keeps.limits } in
                given (if_both (λ (x : Applied). Keeps r x.after) let_go now now)))
          (λ none_read. given (Keeps-refl r s))

    release_ended-Keeps :
        (pkt : PacketRecord) (r : TcpReassembly)
        → IsSound r
        → Keeps r (release_ended id state direction pkt r)
    unfolding release_ended
    release_ended-Keeps pkt r s =
        if_both (λ x. Keeps r x) (has pkt.tcp_flags tcp_rst) (release_both-Keeps true r s)
          (if_both (λ x. Keeps r x) (has pkt.tcp_flags tcp_fin)
            (release-Keeps (entry_key id direction) r s) (Keeps-refl r s))

    -- From a state that a SYN, or none, leaves well formed.
    apply_opened-Keeps :
        (pkt : DescribedPacket) (payload : Option (List ℕ)) (r r0 : TcpReassembly)
        → Keeps r (release_both id state direction (has pkt.packet.tcp_flags tcp_syn) r0)
        → Gives (λ a. Keeps r a.after) (apply_numbered d id state direction pkt payload r0)
    unfolding apply_numbered
    apply_opened-Keeps pkt payload r r0 opened =
        let acked = Keeps-trans r _ _ opened (release_acked-Keeps pkt.packet _ opened.sound) in
        Gives-bind (λ a. Keeps _ a.after) _ _ _ (apply_payload-Keeps pkt payload _ acked.sound)
          (λ a keeps.
            let now = Keeps-trans r _ a.after acked keeps in
            given (Keeps-trans r a.after _ now (release_ended-Keeps pkt.packet a.after now.sound)))

  -- Each framer's message takes some bytes, a stream's pointer is to the state that has its
  -- number, and its direction is 0 or 1. From a well-formed state, apply of any packet gives a
  -- result: it ends and looks up no missing entry. The state it leaves is well formed, with the
  -- same limits: the memory counted is the sum of the entries' and within the memory limit, each
  -- entry stands in the order of use exactly once, is within the direction's limit and charged
  -- for all that it holds, and a direction's bit in the stream's state tells whether it has an
  -- entry.
  pub apply-Keeps :
      (stream : TrackedStream) (pkt : DescribedPacket) (payload : Option (List ℕ))
      (r : TcpReassembly)
      → ((id state : ℕ) → stream.id ≡ numbered id → stream.state ≡ some state → id ≡ state)
      → stream.direction < 2
      → IsSound r
      → Gives (λ a. Keeps r a.after) (apply d pkt stream payload r)
  unfolding apply
  apply-Keeps stream pkt payload r same side s =
      Gives-numbered (λ a. Keeps r a.after) pkt.packet.transport stream.id stream.state _ _
        (given (Keeps-refl r s))
        (λ id state numbered_id to_state.
          Gives-test _ (ltb pkt.packet.tcp_header_len 20) _ _ (λ short. given (Keeps-refl r s))
            (λ whole.
              let is = same id state numbered_id to_state in
              apply_opened-Keeps id state stream.direction is side pkt payload r r (
                release_both-Keeps id state stream.direction is side
                  (has pkt.packet.tcp_flags tcp_syn) r s)))

  -- Each framer's message takes some bytes, a stream's pointer is to the state that has its
  -- number, and its direction is 0 or 1. From a well-formed state of which analyseTcp has
  -- forgotten what it kept of a stream, the bits of its directions' entries too, apply of a SYN
  -- of that stream, a TCP packet with a whole header, gives a result: it ends and looks up no
  -- missing entry. The state it leaves is well formed again, with the same limits.
  pub apply-forget :
      (id state direction : ℕ) (pkt : DescribedPacket) (payload : Option (List ℕ))
      (r : TcpReassembly)
      → id ≡ state
      → direction < 2
      → pkt.packet.transport ≡ some tcp
      → 20 ≤ pkt.packet.tcp_header_len
      → has pkt.packet.tcp_flags tcp_syn ≡ true
      → IsSound r
      → Gives
          (λ a. Keeps r a.after)
          (apply d pkt
            (record { id = numbered id; state = some state; direction = direction })
            payload
            (forget state r))
  unfolding apply
  apply-forget id state direction pkt payload r same side is_tcp whole syn s =
      let long : ltb pkt.packet.tcp_header_len 20 ≡ false = ground (arith, whole) in
      Gives-tcp _ pkt.packet.transport _ _ is_tcp (
        rw long (
          apply_opened-Keeps id state direction same side pkt payload r (forget state r) (
            subst (λ c. Keeps r (release_both id state direction c (forget state r))) (sym syn)
              (release_both-forget id state direction r same s))))
