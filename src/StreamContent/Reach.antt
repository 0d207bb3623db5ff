-- ===== src/StreamContent/Reach.antt =====
-- How far flush can move a direction: not past what it held.
use log_squirl_tcpdump.Common.{
  ℕ, zero, suc, ◌+◌, ◌^◌, ◌%◌, ◌≤◌, ◌<◌, ◌≡◌, ◌≢◌, List, [], ◌∷◌, arith, All, inl, inr,
  Option-cases, sym, ◌∙◌,
}
use log_squirl_tcpdump.ByteStreamOrderer.{EarlySegment, pop_next, advance, skip_to}
use log_squirl_tcpdump.ByteStreamOrderer.Positions.{HasSeq}
use log_squirl_tcpdump.ByteStreamOrderer.Pop.{pop_next-All}
use log_squirl_tcpdump.ByteStreamOrderer.First.{first_early_seq-FirstAt}
use log_squirl_tcpdump.StreamContent.{
  Flow, max_early_bytes, pop_rounds, pop_held, skip_gap, hand_out_gap, emit, flush_rounds, flush,
}
use log_squirl_tcpdump.StreamContent.Faithful.{end_of, Reads}
use log_squirl_tcpdump.StreamContent.Flows.{round-Reads}

pop_rounds-All {κ} :
    (P : EarlySegment → Type κ) (fuel d packet : ℕ) (f : Flow)
    → All P f.side.order.early_segments
    → All P (pop_rounds fuel d packet f).side.order.early_segments
unfolding pop_rounds emit advance
pop_rounds-All P zero d packet f h = h
pop_rounds-All P (suc fuel) d packet f h = elim (Option-cases ((pop_next f.side.order).0)) [
  | inl nothing ↦ rw (nothing, pop_rounds) (pop_next-All P f.side.order h)
  | inr (bs, found) ↦
      rw (found, pop_rounds) (pop_rounds-All P fuel d packet _ (pop_next-All P f.side.order h))
]

pop_held-All {κ} :
    (P : EarlySegment → Type κ) (d packet : ℕ) (f : Flow)
    → All P f.side.order.early_segments
    → All P (pop_held d packet f).side.order.early_segments
unfolding pop_held
pop_held-All P d packet f h = pop_rounds-All P _ d packet f h

skip_gap-early :
    (d packet seq : ℕ) (f : Flow)
    → (skip_gap d packet seq f).side.order.early_segments ≡ f.side.order.early_segments
unfolding skip_gap skip_to hand_out_gap
skip_gap-early d packet seq f = ground arith

-- The segments held lie within a window behind position `l`.
abbrev pub Within : ℕ → EarlySegment → Type 0
Within l s = (a : ℕ) × (s.seq ≡ a % 2 ^ 32) × (l < a) × (a < l + 2 ^ 30)

HasSeq-Within :
    (f l : ℕ) (xs : List EarlySegment)
    → HasSeq f xs
    → All (Within l) xs
    → (a : ℕ) × (f ≡ a % 2 ^ 32) × (l < a) × (a < l + 2 ^ 30)
HasSeq-Within f l [] h all = absurd h
HasSeq-Within f l (x ∷ xs) (inl e) ((a, at_a, lo, hi), all) = (a, sym e ∙ at_a, lo, hi)
HasSeq-Within f l (x ∷ xs) (inr h) (_, all) = HasSeq-Within f l xs h all

module _ (S : ℕ → ℕ) (d start : ℕ) (T : ℕ → ℕ) (e other_start other_end : ℕ) (apart : d ≢ e) where
  flush_rounds-reach :
      (fuel packet l : ℕ) (f : Flow)
      → Reads S d start T e other_start other_end f
      → All (Within l) f.side.order.early_segments
      → l ≤ end_of d start f.chunks
      → end_of d start f.chunks ≤ l + 2 ^ 30 + max_early_bytes
      → end_of d start (flush_rounds fuel d packet f).chunks ≤ l + 2 ^ 30 + max_early_bytes
  unfolding flush_rounds
  flush_rounds-reach zero packet l f g within lo hi = hi
  flush_rounds-reach (suc fuel) packet l f g within lo hi =
      elim (first_early_seq-FirstAt S _ f.side.order g.at_end) [
        | inl (empty, none_held) ↦ rw (none_held, flush_rounds) hi
        | inr (first, m, found, first_at, has) ↦
            let (at_m, above, below, from) = first_at in
            let (a, at_a, above_l, near_l) = HasSeq-Within first l _ has within in
            let same : m ≡ a = omega (arith, at_m, at_a, above, below, above_l, near_l) in
            let (reads, fewer, forward, bound) =
              round-Reads S d start T e other_start other_end apart packet first m f first_at has
                g in
            let f' = pop_held d packet (skip_gap d packet first f) in
            rw (found, flush_rounds)
              (flush_rounds-reach fuel packet l f' reads
                (pop_held-All (Within l) d packet _ (rw (skip_gap-early d packet first f) within))
                (omega (arith, forward)) (omega (arith, bound, same, near_l, g.few)))
      ]

  -- A flush of a direction that shows its stream, whose held segments all begin less than 2 ^ 30
  -- behind the end of what was handed out, moves that end by at most 2 ^ 30 and max_early_bytes.
  pub flush-reach :
      (packet l : ℕ) (f : Flow)
      → Reads S d start T e other_start other_end f
      → All (Within l) f.side.order.early_segments
      → l ≡ end_of d start f.chunks
      → end_of d start (flush d packet f).chunks ≤ l + 2 ^ 30 + max_early_bytes
  unfolding flush
  flush-reach packet l f g within at_l =
      flush_rounds-reach _ packet l f g within (omega arith) (omega arith)
