-- ===== src/StreamContent/Losses.antt =====
-- takeTcp's two ways to move a direction lose no byte: skipTo at an acknowledgement, which cannot go
-- past the FIN, and a segment that begins at or before the end of what was handed out.
use mathlib.Core.Option
use log_squirl_tcpdump.Common.{
  ℕ, zero, suc, ◌+◌, ◌-◌, ◌^◌, ◌%◌, ◌≤◌, ◌<◌, min, ◌≡◌, refl, ◌≢◌, List, Option, none, some, All,
  arith, inl, inr, length, length-drop, drop, ltb, Bool-cases, ltb→lt, ltb→le, ap, ◌∙◌, subst,
}
use log_squirl_tcpdump.Common.Int.{is_neg, is_pos}
use log_squirl_tcpdump.ByteStreamOrderer.{seq_after, advance}
use log_squirl_tcpdump.ByteStreamOrderer.Positions.{Agrees, IsNear, seq_after_parts}
use log_squirl_tcpdump.ByteStreamOrderer.First.{From, first_early_seq-FirstAt}
use log_squirl_tcpdump.StreamContent.{
  Flow, skip_gap, skip_rounds, skip_missing, before_fin, max_early_bytes, hand_out, emit,
  with_order, pop_held,
}
use log_squirl_tcpdump.StreamContent.Faithful.{end_of, Reads}
use log_squirl_tcpdump.StreamContent.Flows.{round-Reads, skip_rounds-Reads, skip_gap-Following}
use log_squirl_tcpdump.StreamContent.Segments.{
  Following-Reads, skip_gap-reached, skip_missing-Reads, hand_out-emit, next-Following,
}
use log_squirl_tcpdump.StreamContent.Shows.{ShowsByte-last, Known, LosesNothing}
use log_squirl_tcpdump.StreamContent.Kept.{
  LosesNothing-refl, LosesNothing-trans, skip_gap-LosesNothing, pop_held-LosesNothing,
  round-LosesNothing, emit-LosesNothing,
}

-- The position up to which an acknowledgement of position `b` shows that bytes were sent, where the
-- FIN stands at a position or was not seen.
abbrev pub before_fin_at : Option ℕ → ℕ → ℕ
before_fin_at none b = b
before_fin_at (some z) b = min b z

abbrev pub IsNearFin : Option ℕ → ℕ → Type 0
IsNearFin none b = Unit {0}
IsNearFin (some z) b = IsNear b z

before_fin_lem :
    (fin : Option ℕ) (b : ℕ)
    → IsNearFin fin b
    → before_fin (Option.map (λ (z : ℕ). z % 2 ^ 32) fin) (b % 2 ^ 32)
      ≡ before_fin_at fin b % 2 ^ 32
unfolding before_fin
before_fin_lem none b h = refl
before_fin_lem (some z) b h = ground (arith, seq_after_parts b z h)

module _ (S : ℕ → ℕ) (d start : ℕ) (T : ℕ → ℕ) (e other_start other_end : ℕ) (apart : d ≢ e) where
  skip_rounds-LosesNothing :
      (fuel packet seq : ℕ) (f : Flow)
      → Reads S d start T e other_start other_end f
      → LosesNothing d start f (skip_rounds fuel d packet seq f)
  unfolding skip_rounds
  skip_rounds-LosesNothing zero packet seq f g = LosesNothing-refl d start f
  skip_rounds-LosesNothing (suc fuel) packet seq f g =
      elim (first_early_seq-FirstAt S _ f.side.order g.at_end) [
        | inl (empty, none_held) ↦ rw (none_held, skip_rounds) (LosesNothing-refl d start f)
        | inr (first, m, found, first_at, has) ↦
            let f' = pop_held d packet (skip_gap d packet first f) in
            let reads =
              round-Reads S d start T e other_start other_end apart packet first m f first_at has
                g in
            elim (Bool-cases (is_neg (seq_after first seq))) [
              | inl before ↦
                  rw (found, skip_rounds, before)
                    (LosesNothing-trans d start f f' _
                      (round-LosesNothing S d start T e other_start other_end apart packet first m f
                        first_at g)
                      (skip_rounds-LosesNothing fuel packet seq f' reads.0))
              | inr not_before ↦ rw (found, skip_rounds, not_before) (LosesNothing-refl d start f)
            ]
      ]

  to_target-LosesNothing :
      (packet a : ℕ) (f : Flow)
      → let p = end_of d start f.chunks in
        a < p + 2 ^ 30
        → p ≤ a + max_early_bytes
        → All (From S p a) f.side.order.early_segments
        → Reads S d start T e other_start other_end f
        → LosesNothing d start f (pop_held d packet (skip_gap d packet (a % 2 ^ 32) f))
  to_target-LosesNothing packet a f near bound from g =
      elim (Bool-cases (ltb (end_of d start f.chunks) a)) [
        | inl ahead ↦
            let (following, same, at_next, end_a) =
              skip_gap-Following S d start T e other_start other_end apart packet a f
                (ltb→lt _ _ ahead) near from g in
            LosesNothing-trans d start f (skip_gap d packet (a % 2 ^ 32) f) _
              (skip_gap-LosesNothing S d start T e other_start other_end apart packet a f
                (ltb→lt _ _ ahead) near from g)
              (pop_held-LosesNothing S d start T e other_start other_end apart packet _ following)
        | inr reached ↦
            rw
              (skip_gap-reached S d start T e other_start other_end apart packet a f
                (ltb→le _ _ reached) (omega arith) g.at_end.at_p)
              (pop_held-LosesNothing S d start T e other_start other_end apart packet f
                (Following-Reads S d start T e other_start other_end apart f g))
      ]

  pub skip_missing-LosesNothing :
      (packet a ack : ℕ) (f : Flow)
      → before_fin f.side.fin_seq ack ≡ a % 2 ^ 32
      → let p = end_of d start f.chunks in
        p ≤ a + 2 ^ 31
        → a < p + 2 ^ 30
        → Reads S d start T e other_start other_end f
        → LosesNothing d start f (skip_missing d packet ack f)
  unfolding skip_missing
  skip_missing-LosesNothing packet a ack f at_a behind near g =
      let p = end_of d start f.chunks in
      let parts = rw (← g.at_end.at_p) at (seq_after_parts a p (omega arith)) in
      let n = suc (length f.side.order.early_segments) in
      rw at_a (elim (Bool-cases (is_pos (seq_after (a % 2 ^ 32) f.side.order.next_seq))) [
        | inl ahead ↦
            let (reads, from, onward, bound) =
              skip_rounds-Reads S d start T e other_start other_end apart n packet a f (omega arith)
                near (omega (arith, parts.0, ltb→lt 0 _ ahead, g.few)) g in
            let f' = skip_rounds n d packet (a % 2 ^ 32) f in
            rw ahead (
              LosesNothing-trans d start f f' _ (skip_rounds-LosesNothing n packet (a % 2 ^ 32) f g)
                (to_target-LosesNothing packet a f' (omega (arith, onward)) bound from reads))
        | inr not_ahead ↦ rw not_ahead (LosesNothing-refl d start f)
      ])

  -- An acknowledgement of the bytes up to position `b`, where the FIN, if it was seen, stands at
  -- a position less than half of the sequence space from it. The lesser of both positions lies at
  -- most 2 ^ 31 behind and less than 2 ^ 30 ahead of the end of what was handed out: what is
  -- handed out stays the stream, gaps counted, never goes back and reaches that lesser position;
  -- and each byte that was shown, or that a held segment had from that end on, is shown or held
  -- still, and not passed.
  pub skip_missing-Skips :
      (packet b : ℕ) (fin : Option ℕ) (f : Flow)
      → f.side.fin_seq ≡ Option.map (λ (z : ℕ). z % 2 ^ 32) fin
      → IsNearFin fin b
      → let p = end_of d start f.chunks in
        p ≤ before_fin_at fin b + 2 ^ 31
        → before_fin_at fin b < p + 2 ^ 30
        → Reads S d start T e other_start other_end f
        → let f' = skip_missing d packet (b % 2 ^ 32) f in
          Reads S d start T e other_start other_end f'
          × (p ≤ end_of d start f'.chunks)
          × (before_fin_at fin b ≤ end_of d start f'.chunks)
          × LosesNothing d start f f'
  skip_missing-Skips packet b fin f at_fin near_fin behind near g =
      let at_a : before_fin f.side.fin_seq (b % 2 ^ 32) ≡ before_fin_at fin b % 2 ^ 32 =
        ap (λ x. before_fin x (b % 2 ^ 32)) at_fin ∙ before_fin_lem fin b near_fin in
      let (reads, onward, reach) =
        skip_missing-Reads S d start T e other_start other_end apart packet _ (b % 2 ^ 32) f at_a
          behind near g in
      (reads, onward, reach, skip_missing-LosesNothing packet _ (b % 2 ^ 32) f at_a behind near g)

  pub next-HandsOut :
      (packet a overlap : ℕ) (payload : List ℕ) (f : Flow)
      → let p = end_of d start f.chunks in
        a + overlap ≡ p
        → p < a + length payload
        → length payload ≤ max_early_bytes
        → Agrees S a payload
        → Reads S d start T e other_start other_end f
        → let o = advance f.side.order (length payload - overlap) in
          let f' = pop_held d packet (hand_out d packet (drop overlap payload) (with_order f o)) in
          LosesNothing d start f f'
          × ((n : ℕ) → p ≤ n → n < a + length payload → Known d start n f')
  next-HandsOut packet a overlap payload f at_p more small agrees g =
      let p = end_of d start f.chunks in
      let new = drop overlap payload in
      let o = advance f.side.order (length payload - overlap) in
      let after = emit d packet new (with_order f o) in
      let size = length-drop {0} overlap payload in
      let handed : LosesNothing d start f after =
        subst
          (λ k. LosesNothing d start f (emit d packet new (with_order f (advance f.side.order k))))
          size
          (emit-LosesNothing S d start T e other_start other_end apart packet new f f.side.order
            g.few (λ n l b. inr b)) in
      let popped = pop_held-LosesNothing S d start T e other_start other_end apart packet after (
        next-Following S d start T e other_start other_end apart packet a overlap payload f at_p
          more small agrees g) in
      rw (hand_out-emit d packet new (with_order f o) (omega (arith, size))) (
        LosesNothing-trans d start f after _ handed popped,
        λ n l u. popped.known n (
            inl (
              unfold emit in
              ShowsByte-last d packet start n new f.chunks l (omega (arith, u, size, at_p)))),
      )
