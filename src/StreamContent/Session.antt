-- ===== src/StreamContent/Session.antt =====
-- takeTcp on both directions of a connection: what is shown of each is its stream.
use log_squirl_tcpdump.Common.{
  ℕ, zero, suc, ◌+◌, ◌-◌, ◌^◌, ◌%◌, ◌≤◌, ◌<◌, ◌≡◌, refl, ◌≢◌, List, arith, true, if_both, subst,
  length,
}
use log_squirl_tcpdump.PacketRecord.{PacketRecord}
use log_squirl_tcpdump.ByteStreamOrderer.Positions.{Agrees}
use log_squirl_tcpdump.StreamContent.{
  Reader, Flow, Direction, max_early_bytes, side_of, with_side, flow_of, with_flow, before_fin,
  skip_missing,
}
use log_squirl_tcpdump.StreamContent.TakeTcp.{take_ack, take_data, take_payload}
use log_squirl_tcpdump.StreamContent.Faithful.{end_of, Reads}
use log_squirl_tcpdump.StreamContent.Segments.{skip_missing-Reads, place_segment-Reads}

-- Direction `d` shows stream `S` from position `s` on, and the other one stream `T` from `t` on.
pub record Session (S : ℕ → ℕ) (s : ℕ) (T : ℕ → ℕ) (t d : ℕ) (r : Reader) : Type 0 where
  pub own : Reads S d s T (1 - d) t (end_of (1 - d) t r.chunks) (flow_of r d)
  pub other : Reads T (1 - d) t S d s (end_of d s r.chunks) (flow_of r (1 - d))

-- The position that direction `d` of a reader has reached.
abbrev pub reached : ℕ → ℕ → Reader → ℕ
reached d s r = end_of d s r.chunks

pub ends_apart : (d : ℕ) → d ≤ 1 → d ≢ 1 - d
ends_apart zero h e = omega arith
ends_apart (suc d) h e = omega arith

module _ (S : ℕ → ℕ) (s : ℕ) (T : ℕ → ℕ) (t : ℕ) where
  -- A flow of direction `d` put back, while the other direction was left alone.
  with_flow-Session :
      (d : ℕ) (r : Reader) (f : Flow)
      → d ≤ 1
      → Session S s T t d r
      → Reads S d s T (1 - d) t (end_of (1 - d) t r.chunks) f
      → Session S s T t d (with_flow r d f)
  unfolding with_flow flow_of
  with_flow-Session (suc (suc d)) r f h v g = absurd (omega arith)
  with_flow-Session (suc zero) r f h v g = record {
    own = record {
      at_end = g.at_end;
      few = g.few;
      shown = record {
        faithful = g.shown.faithful;
        bystander = g.shown.bystander;
        bystander_end = refl;
      };
    };
    other = record {
      at_end = rw g.shown.bystander_end v.other.at_end;
      few = v.other.few;
      shown = record {
        faithful = g.shown.bystander;
        bystander = g.shown.faithful;
        bystander_end = refl;
      };
    };
  }
  with_flow-Session zero r f h v g = record {
    own = record {
      at_end = g.at_end;
      few = g.few;
      shown = record {
        faithful = g.shown.faithful;
        bystander = g.shown.bystander;
        bystander_end = refl;
      };
    };
    other = record {
      at_end = rw g.shown.bystander_end v.other.at_end;
      few = v.other.few;
      shown = record {
        faithful = g.shown.bystander;
        bystander = g.shown.faithful;
        bystander_end = refl;
      };
    };
  }

  -- What is kept of a direction besides its order does not matter.
  pub with_side-Session :
      (d : ℕ) (r : Reader) (x : Direction)
      → d ≤ 1
      → x.order ≡ (side_of r d).order
      → Session S s T t d r
      → Session S s T t d (with_side r d x)
  unfolding with_flow flow_of
  with_side-Session (suc (suc d)) r x h same v = absurd (omega arith)
  with_side-Session (suc zero) r x h same v =
      with_flow-Session 1 r (record (flow_of r 1) { side = x }) h v
        (record { at_end = rw same v.own.at_end; few = rw same v.own.few; shown = v.own.shown })
  with_side-Session zero r x h same v =
      with_flow-Session 0 r (record (flow_of r 0) { side = x }) h v
        (record { at_end = rw same v.own.at_end; few = rw same v.own.few; shown = v.own.shown })

pub Session-swap :
    (S : ℕ → ℕ) (s : ℕ) (T : ℕ → ℕ) (t d : ℕ) (r : Reader)
    → d ≤ 1
    → Session S s T t d r
    → Session T t S s (1 - d) r
Session-swap S s T t (suc (suc d)) r h v = absurd (omega arith)
Session-swap S s T t (suc zero) r h v = record { own = v.other; other = v.own }
Session-swap S s T t zero r h v = record { own = v.other; other = v.own }

-- Position `a`, as seen from position `p`: not half of the sequence space before it, nor a window
-- behind it.
abbrev pub InWindow : ℕ → ℕ → Type 0
InWindow a p = (p ≤ a + 2 ^ 31) × (a < p + 2 ^ 30)

-- An acknowledgement of direction `d`'s bytes up to position `b`, which lies at most 2 ^ 31
-- behind and less than 2 ^ 30 ahead of what `d` has reached: both directions go on showing their
-- streams, the other direction is left where it was, and direction `d` has reached `b`.
pub skip-Session :
    (S : ℕ → ℕ) (s : ℕ) (T : ℕ → ℕ) (t d packet ack b : ℕ) (r : Reader)
    → d ≤ 1
    → before_fin (side_of r d).fin_seq ack ≡ b % 2 ^ 32
    → InWindow b (reached d s r)
    → Session S s T t d r
    → let r' = with_flow r d (skip_missing d packet ack (flow_of r d)) in
      Session S s T t d r' × (reached (1 - d) t r' ≡ reached (1 - d) t r) × (b ≤ reached d s r')
unfolding flow_of with_flow
skip-Session S s T t d packet ack b r h at_b near v =
    let (reads, onward, reach) =
      skip_missing-Reads S d s T (1 - d) t _ (ends_apart d h) packet b ack (flow_of r d) at_b near.0
        near.1 v.own in
    (with_flow-Session S s T t d r _ h v reads, reads.shown.bystander_end, reach)

module _ (S : ℕ → ℕ) (s : ℕ) (T : ℕ → ℕ) (t : ℕ) where
  pub take_ack-Session :
      (d packet b : ℕ) (pkt : PacketRecord) (r : Reader)
      → d ≤ 1
      → before_fin (side_of r (1 - d)).fin_seq pkt.tcp_ack ≡ b % 2 ^ 32
      → InWindow b (reached (1 - d) t r)
      → Session S s T t d r
      → Session S s T t d (take_ack d packet pkt r)
        × (reached d s (take_ack d packet pkt r) ≡ reached d s r)
  unfolding take_ack
  take_ack-Session d packet b pkt r h at_b near v =
      let other = 1 - d in
      let back : 1 - (1 - d) ≡ d = omega arith in
      let (skipped, same, reach) =
        skip-Session T t S s other packet pkt.tcp_ack b r (omega arith) at_b near
          (Session-swap S s T t d r h v) in
      let r' = with_flow r other (skip_missing other packet pkt.tcp_ack (flow_of r other)) in
      if_both (λ x. Session S s T t d x × (reached d s x ≡ reached d s r)) _
        (
          subst (λ (n : ℕ). Session S s T t n r') back
              (Session-swap T t S s other r' (omega arith) skipped),
          rw back at same,
        )
        (v, refl)

  pub take_data-Session :
      (d packet a : ℕ) (pkt : PacketRecord) (payload : List ℕ) (r : Reader)
      → d ≤ 1
      → (side_of r d).started ≡ true
      → length payload ≤ max_early_bytes
      → Agrees S a payload
      → InWindow a (reached d s r)
      → Session S s T t d r
      → Session S s T t d (take_data d packet pkt (a % 2 ^ 32) payload r)
  unfolding take_data take_payload flow_of
  take_data-Session d packet a pkt payload r h started small agrees near v = rw started (
      if_both (Session S s T t d) _
        (with_flow-Session S s T t d r _ h v (
          place_segment-Reads S d s T (1 - d) t _ (ends_apart d h) packet a payload (flow_of r d)
            small near.0 near.1 agrees v.own))
        v)
