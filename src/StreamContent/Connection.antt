-- ===== src/StreamContent/Connection.antt =====
-- takeTcp as a whole, for the segments of one connection.
use log_squirl_tcpdump.Common.{
  ℕ, zero, suc, ◌+◌, ◌-◌, ◌^◌, ◌%◌, ◌≤◌, ◌≡◌, refl, List, arith, true, false, length, if_both,
  subst,
}
use log_squirl_tcpdump.PacketRecord.{PacketRecord, has, tcp_syn}
use log_squirl_tcpdump.ByteStreamOrderer.Positions.{Agrees}
use log_squirl_tcpdump.StreamContent.{
  Reader, Flow, Direction, max_early_bytes, side_of, with_side, flow_of, with_flow, before_fin,
  skip_missing,
}
use log_squirl_tcpdump.StreamContent.TakeTcp.{
  take_tcp, take_ack, take_data, saw_end, saw_fin, later_end,
}
use log_squirl_tcpdump.StreamContent.Session.{
  Session, reached, InWindow, with_side-Session, take_ack-Session, take_data-Session,
}

pub side_of-with_side : (d : ℕ) (r : Reader) (x : Direction) → side_of (with_side r d x) d ≡ x
unfolding side_of with_side
side_of-with_side zero r x = refl
side_of-with_side (suc d) r x = refl

pub other-with_side :
    (d : ℕ) (r : Reader) (x : Direction)
    → d ≤ 1
    → side_of (with_side r d x) (1 - d) ≡ side_of r (1 - d)
unfolding side_of with_side
other-with_side (suc (suc d)) r x h = absurd (omega arith)
other-with_side (suc zero) r x h = refl
other-with_side zero r x h = refl

pub chunks-with_side : (d : ℕ) (r : Reader) (x : Direction) → (with_side r d x).chunks ≡ r.chunks
unfolding with_side
chunks-with_side zero r x = refl
chunks-with_side (suc d) r x = refl

own-with_flow :
    (d : ℕ) (r : Reader) (f : Flow) → d ≤ 1 → side_of (with_flow r (1 - d) f) d ≡ side_of r d
unfolding side_of with_flow
own-with_flow (suc (suc d)) r f h = absurd (omega arith)
own-with_flow (suc zero) r f h = refl
own-with_flow zero r f h = refl

pub own-take_ack :
    (d packet : ℕ) (pkt : PacketRecord) (r : Reader)
    → d ≤ 1
    → side_of (take_ack d packet pkt r) d ≡ side_of r d
unfolding take_ack
own-take_ack d packet pkt r h =
    if_both (λ x. side_of x d ≡ side_of r d) _
      (own-with_flow d r (skip_missing (1 - d) packet pkt.tcp_ack (flow_of r (1 - d))) h) refl

saw_fin-Session :
    (S : ℕ → ℕ) (s : ℕ) (T : ℕ → ℕ) (t d flags end : ℕ) (r : Reader)
    → d ≤ 1
    → Session S s T t d r
    → Session S s T t d (saw_fin d flags end r)
unfolding saw_fin
saw_fin-Session S s T t d flags end r h v =
    if_both (Session S s T t d) _ (with_side-Session S s T t d r _ h refl v) v

-- Let what a reader has handed out of both directions be the directions' streams, and let what it
-- holds be pieces of them (`Session`). takeTcp of a segment that is no SYN, of a direction whose
-- start is known, keeps that so, wherever the segment lies: lost, repeated, overlapping or out of
-- order. The payload, of at most max_early_bytes bytes, is the stream's at position `a`; `a` lies
-- at most 2 ^ 31 behind and less than 2 ^ 30 ahead of what the direction has reached, and
-- likewise the acknowledged position `b` in the other direction.
pub take_tcp-Session :
    (S : ℕ → ℕ) (s : ℕ) (T : ℕ → ℕ) (t d packet a b : ℕ) (pkt : PacketRecord) (payload : List ℕ)
    (r : Reader)
    → d ≤ 1
    → has pkt.tcp_flags tcp_syn ≡ false
    → pkt.tcp_seq ≡ a % 2 ^ 32
    → (side_of r d).started ≡ true
    → length payload ≤ max_early_bytes
    → Agrees S a payload
    → InWindow a (reached d s r)
    → before_fin (side_of r (1 - d)).fin_seq pkt.tcp_ack ≡ b % 2 ^ 32
    → InWindow b (reached (1 - d) t r)
    → Session S s T t d r
    → Session S s T t d (take_tcp d packet pkt payload r)
unfolding take_tcp saw_end
take_tcp-Session S s T t d packet a b pkt payload r h no_syn at_a started small agrees near at_b
      near_b v =
    let end = ((pkt.tcp_seq + 0) % 2 ^ 32 + pkt.payload_len) % 2 ^ 32 in
    let x = record (side_of r d) { sent_end = later_end (side_of r d).sent_end end } in
    let r1 = with_side r d x in
    let same_seq : a % 2 ^ 32 ≡ (pkt.tcp_seq + 0) % 2 ^ 32 = omega (arith, at_a) in
    let same_chunks = chunks-with_side d r x in
    let v1 = with_side-Session S s T t d r x h refl v in
    let (v2, own_same) =
      take_ack-Session S s T t d packet b pkt r1 h (rw (other-with_side d r x h) at_b)
        (rw same_chunks near_b) v1 in
    let v3 =
      take_data-Session S s T t d packet a pkt payload (take_ack d packet pkt r1) h
        (rw (own-take_ack d packet pkt r1 h, side_of-with_side d r x) started) small agrees
        (rw (own_same, same_chunks) near) v2 in
    rw no_syn (
      if_both (Session S s T t d) _ v (
        saw_fin-Session S s T t d pkt.tcp_flags end _ h (
          subst
            (λ (n : ℕ).
              Session S s T t d (take_data d packet pkt n payload (take_ack d packet pkt r1)))
            same_seq v3)))
