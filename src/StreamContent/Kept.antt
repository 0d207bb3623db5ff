-- ===== src/StreamContent/Kept.antt =====
-- popNext, skipTo and flush of one direction: no byte that was shown or held is lost.
use log_squirl_tcpdump.Common.{
  ℕ, zero, suc, ◌+◌, ◌^◌, ◌%◌, ◌≤◌, ◌<◌, ◌≡◌, ◌≢◌, List, [], some, All, arith, inl, inr, length,
  ltb, Bool-cases, Option-cases, ltb→lt, ltb→le, sym, subst, ◌==◌, false,
}
use log_squirl_tcpdump.ByteStreamOrderer.{ByteStreamOrderer, skip_to, bytes_of, advance, pop_next}
use log_squirl_tcpdump.ByteStreamOrderer.Pop.{Popped-some, pop_next-Popped}
use log_squirl_tcpdump.ByteStreamOrderer.Left.{
  SomeHasByte, SomeHasByte-later, GivenOrHeld, pop_next-GivenOrHeld,
}
use log_squirl_tcpdump.ByteStreamOrderer.First.{
  From, FirstAt, first_early_seq-FirstAt, skip_to-IsNear,
}
use log_squirl_tcpdump.StreamContent.{
  Flow, skip_gap, hand_out_gap, flush_rounds, flush, max_early_bytes, emit, with_order, pop_rounds,
  pop_held,
}
use log_squirl_tcpdump.StreamContent.Faithful.{end_of, Following, Reads, chunk-end}
use log_squirl_tcpdump.StreamContent.Flows.{
  emit-Following, skip_gap-Following, round-Reads, flush-Reads,
}
use log_squirl_tcpdump.StreamContent.Shows.{
  ShowsByte, ShowsByte-before, ShowsByte-last, Known, LosesNothing, SomeHasByte-From,
}

pub LosesNothing-refl : (d start : ℕ) (f : Flow) → LosesNothing d start f f
LosesNothing-refl d start f = record { known = λ n h. h; shown = λ e p n h. h }

pub LosesNothing-trans :
    (d start : ℕ) (f f' f'' : Flow)
    → LosesNothing d start f f'
    → LosesNothing d start f' f''
    → LosesNothing d start f f''
LosesNothing-trans d start f f' f'' h k = record {
  known = λ n b. k.known n (h.known n b);
  shown = λ e p n b. k.shown e p n (h.shown e p n b);
}

-- A byte that is known and passed is shown.
pub Known-passed :
    (d start n : ℕ) (f : Flow)
    → n < end_of d start f.chunks
    → Known d start n f
    → ShowsByte d start n f.chunks
Known-passed d start n f h (inl shown) = shown
Known-passed d start n f h (inr (l, held)) = absurd (omega arith)

module _ (S : ℕ → ℕ) (d start : ℕ) (T : ℕ → ℕ) (e other_start other_end : ℕ) (apart : d ≢ e) where
  -- What comes next is handed out, and of what is held what is behind it stays.
  pub emit-LosesNothing :
      (packet : ℕ) (bs : List ℕ) (f : Flow) (o : ByteStreamOrderer)
      → bytes_of o.early_segments ≤ max_early_bytes
      → ((n : ℕ)
          → let p = end_of d start f.chunks in
            p ≤ n → SomeHasByte p n f.side.order.early_segments → GivenOrHeld p n (some bs, o))
      → LosesNothing d start f (emit d packet bs (with_order f (advance o (length bs))))
  unfolding emit advance
  emit-LosesNothing packet bs f o few stays = record {
    shown = (λ x q n b. ShowsByte-before x q n f.chunks _ b);
    known = λ n known.
        let p = end_of d start f.chunks in
        let moved = chunk-end S d start T e other_start other_end packet 0 bs f.chunks in
        elim known [
          | inl shown ↦ inl (ShowsByte-before d start n f.chunks _ shown)
          | inr (l, held) ↦ elim (Bool-cases (ltb n (p + length bs))) [
            | inl within ↦ inl (ShowsByte-last d packet start n bs f.chunks l (ltb→lt _ _ within))
            | inr behind ↦ elim (stays n l held) [
              | inl given ↦ absurd (omega (arith, ltb→le _ _ behind))
              | inr left ↦ inr (
                omega (arith, moved, ltb→le _ _ behind),
                SomeHasByte-later p _ n o.early_segments (omega (arith, moved))
                    (omega (arith, moved, ltb→le _ _ behind)) (omega (arith, few)) left,
              )
            ]
          ]
        ];
  }

  pop_rounds-LosesNothing :
      (fuel packet : ℕ) (f : Flow)
      → Following S d start T e other_start other_end f
      → LosesNothing d start f (pop_rounds fuel d packet f)
  unfolding pop_rounds
  pop_rounds-LosesNothing zero packet f g = LosesNothing-refl d start f
  pop_rounds-LosesNothing (suc fuel) packet f g =
      let o = f.side.order in
      let p = end_of d start f.chunks in
      let popped = pop_next-Popped S _ o g.at_end in
      let stays : (n : ℕ)
          → p ≤ n
          → SomeHasByte p n o.early_segments
          → GivenOrHeld p n (pop_next o) =
        λ n l b. pop_next-GivenOrHeld p n o g.at_end.at_p l b in
      elim (Option-cases ((pop_next o).0)) [
        | inl nothing ↦
            rw (nothing, pop_rounds)
              (record {
                shown = (λ x q n b. b);
                known = λ n known. elim known [
                  | inl shown ↦ inl shown
                  | inr (l, held) ↦ elim (rw nothing at (stays n l held)) [
                    | inl given ↦ absurd (omega arith)
                    | inr left ↦ inr (l, left)
                  ]
                ];
              })
        | inr (bs, found) ↦
            let (some_bytes, agrees, follows, count, size) =
              Popped-some S _ o (pop_next o) bs found popped in
            let after = emit d packet bs (with_order f (advance (pop_next o).1 (length bs))) in
            rw (found, pop_rounds)
              (LosesNothing-trans d start f after _
                (emit-LosesNothing packet bs f (pop_next o).1 (omega (arith, g.few))
                  (λ n l b. rw found at (stays n l b)))
                (pop_rounds-LosesNothing fuel packet after (
                  emit-Following S d start T e other_start other_end apart packet bs f
                    (advance (pop_next o).1 (length bs)) g.shown agrees follows
                    (unfold advance in omega (arith, g.few)))))
      ]

  pub pop_held-LosesNothing :
      (packet : ℕ) (f : Flow)
      → Following S d start T e other_start other_end f
      → LosesNothing d start f (pop_held d packet f)
  unfolding pop_held
  pop_held-LosesNothing packet f g = pop_rounds-LosesNothing _ packet f g

  -- A skip to position `m`, ahead of which nothing is held.
  pub skip_gap-LosesNothing :
      (packet m : ℕ) (f : Flow)
      → let p = end_of d start f.chunks in
        p < m
        → m < p + 2 ^ 30
        → All (From S p m) f.side.order.early_segments
        → Reads S d start T e other_start other_end f
        → LosesNothing d start f (skip_gap d packet (m % 2 ^ 32) f)
  unfolding skip_gap hand_out_gap
  skip_gap-LosesNothing packet m f lo hi from g =
      let p = end_of d start f.chunks in
      let o = f.side.order in
      let (at_m, ahead, same) = skip_to-IsNear m p o (omega arith) g.at_end.at_p in
      let missing = (skip_to o (m % 2 ^ 32)).1 in
      let moved = chunk-end S d start T e other_start other_end packet missing [] f.chunks in
      let not_zero : (missing == 0) ≡ false = ground (arith, ahead) in
      rw not_zero (record {
        shown = (λ x q n b. ShowsByte-before x q n f.chunks _ b);
        known = λ n known. elim known [
          | inl shown ↦ inl (ShowsByte-before d start n f.chunks _ shown)
          | inr (l, held) ↦
              let reached = SomeHasByte-From S p m n o.early_segments from held (omega arith) hi in
              inr (
                omega (arith, moved, ahead, reached),
                subst (SomeHasByte _ n) (sym same) (
                    SomeHasByte-later p _ n o.early_segments (omega (arith, moved, ahead))
                      (omega (arith, moved, ahead, reached)) (omega (arith, g.few)) held),
              )
        ];
      })

  -- A round of the loops of flush and skipTo.
  pub round-LosesNothing :
      (packet first m : ℕ) (f : Flow)
      → FirstAt S (end_of d start f.chunks) first f.side.order.early_segments m
      → Reads S d start T e other_start other_end f
      → LosesNothing d start f (pop_held d packet (skip_gap d packet first f))
  round-LosesNothing packet first m f (at_m, lo, hi, from) g =
      let (following, same, at_next, end_m) =
        skip_gap-Following S d start T e other_start other_end apart packet m f lo hi from g in
      rw at_m (
        LosesNothing-trans d start f (skip_gap d packet (m % 2 ^ 32) f) _
          (skip_gap-LosesNothing packet m f lo hi from g)
          (pop_held-LosesNothing packet _ following))

  flush_rounds-LosesNothing :
      (fuel packet : ℕ) (f : Flow)
      → Reads S d start T e other_start other_end f
      → LosesNothing d start f (flush_rounds fuel d packet f)
  unfolding flush_rounds
  flush_rounds-LosesNothing zero packet f g = LosesNothing-refl d start f
  flush_rounds-LosesNothing (suc fuel) packet f g =
      elim (first_early_seq-FirstAt S _ f.side.order g.at_end) [
        | inl (empty, none_held) ↦ rw (none_held, flush_rounds) (LosesNothing-refl d start f)
        | inr (first, m, found, first_at, has) ↦
            let f' = pop_held d packet (skip_gap d packet first f) in
            let reads =
              round-Reads S d start T e other_start other_end apart packet first m f first_at has
                g in
            rw (found, flush_rounds)
              (LosesNothing-trans d start f f' _ (round-LosesNothing packet first m f first_at g)
                (flush_rounds-LosesNothing fuel packet f' reads.0))
      ]

  pub flush-LosesNothing :
      (packet : ℕ) (f : Flow)
      → Reads S d start T e other_start other_end f
      → LosesNothing d start f (flush d packet f)
  unfolding flush
  flush-LosesNothing packet f g = flush_rounds-LosesNothing _ packet f g

  -- A flush of a direction that shows its stream keeps to the stream, gaps counted, never goes
  -- back, and leaves no segment held: each byte that was shown, or that a held segment had from
  -- the end of what was shown on, is shown.
  pub flush-ShowsAll :
      (packet : ℕ) (f : Flow)
      → Reads S d start T e other_start other_end f
      → Reads S d start T e other_start other_end (flush d packet f)
        × ((flush d packet f).side.order.early_segments ≡ [])
        × (end_of d start f.chunks ≤ end_of d start (flush d packet f).chunks)
        × ((n : ℕ) → Known d start n f → ShowsByte d start n (flush d packet f).chunks)
  flush-ShowsAll packet f g =
      let (reads, empty, onward) =
        flush-Reads S d start T e other_start other_end apart packet f g in
      let keeps = flush-LosesNothing packet f g in
      (
        reads,
        empty,
        onward,
        λ n known. elim (keeps.known n known) [
          | inl shown ↦ shown
          | inr (l, held) ↦ absurd (subst (SomeHasByte _ n) empty held)
        ],
      )
