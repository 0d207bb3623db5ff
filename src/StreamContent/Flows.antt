-- ===== src/StreamContent/Flows.antt =====
-- popNext, skipTo and flush of one direction: what they hand out is the stream.
use log_squirl_tcpdump.Common.{
  ℕ, zero, suc, ◌+◌, ◌^◌, ◌%◌, ◌≤◌, ◌<◌, ◌≡◌, ◌≢◌, List, [], ◌∷◌, ◌++◌, false, arith, length, ◌==◌,
  Bool-cases, Option-cases, inl, inr, ap, ◌∙◌, All, All-map, ltb→lt, ltb→le,
}
use log_squirl_tcpdump.ByteStreamOrderer.{
  ByteStreamOrderer, EarlySegment, seq_after, skip_to, bytes_of, advance, pop_next,
}
use log_squirl_tcpdump.ByteStreamOrderer.Positions.{
  Agrees, Held, HasSeq, seq_after_self, seq_after_parts, Follows,
}
use log_squirl_tcpdump.ByteStreamOrderer.Pop.{
  Popped-none, Popped-some, pop_next-Popped, pop_next-length-le, pop_next-length-lt,
}
use log_squirl_tcpdump.ByteStreamOrderer.First.{
  From, From-weaken, FirstAt, first_early_seq-FirstAt, skip_to-IsNear,
}
use log_squirl_tcpdump.Common.Int.{is_neg}
use log_squirl_tcpdump.StreamContent.{
  Flow, chunk_of, skip_gap, hand_out_gap, flush_rounds, flush, skip_rounds, max_early_bytes, emit,
  with_order, pop_rounds, pop_held,
}
use log_squirl_tcpdump.StreamContent.Faithful.{
  end_of, Shown, Following, Reads, chunk-end, chunk-Shown,
}
use native.Mathlib.Nat.{add-zero}

module _ (S : ℕ → ℕ) (d start : ℕ) (T : ℕ → ℕ) (e other_start other_end : ℕ) (apart : d ≢ e) where
  -- The position moves forward only, and no further than over what was held.
  abbrev pub Forward : Flow → Flow → Type 0
  Forward f f' =
      (end_of d start f.chunks ≤ end_of d start f'.chunks)
      × (end_of d start f'.chunks + bytes_of f'.side.order.early_segments
          ≤ end_of d start f.chunks + bytes_of f.side.order.early_segments)

  pub emit-Following :
      (packet : ℕ) (bs : List ℕ) (f : Flow) (o : ByteStreamOrderer)
      → Shown S d start T e other_start other_end f.chunks
      → Agrees S (end_of d start f.chunks) bs
      → Follows S (end_of d start f.chunks + length bs) o
      → bytes_of o.early_segments ≤ max_early_bytes
      → Following S d start T e other_start other_end (emit d packet bs (with_order f o))
  unfolding emit
  emit-Following packet bs f o shown agrees follows few = record {
    at_end =
        rw (chunk-end S d start T e other_start other_end packet 0 bs f.chunks, add-zero) follows;
    few = few;
    shown =
        chunk-Shown S d start T e other_start other_end packet 0 bs f.chunks apart shown
          (rw add-zero agrees);
  }

  pop_rounds-Reads :
      (fuel packet : ℕ) (f : Flow)
      → length f.side.order.early_segments < fuel
      → Following S d start T e other_start other_end f
      → Reads S d start T e other_start other_end (pop_rounds fuel d packet f)
        × (length (pop_rounds fuel d packet f).side.order.early_segments
            ≤ length (pop_next f.side.order).1.early_segments)
        × Forward f (pop_rounds fuel d packet f)
  unfolding pop_rounds emit advance
  pop_rounds-Reads zero packet f h g = absurd (omega arith)
  pop_rounds-Reads (suc fuel) packet f h g =
      let o = f.side.order in
      let popped = pop_next-Popped S _ o g.at_end in
      elim (Option-cases ((pop_next o).0)) [
        | inl nothing ↦
            let (waits, count, size) = Popped-none S _ o (pop_next o) nothing popped in
            rw (nothing, pop_rounds)
              (
                record { at_end = waits; few = omega (arith, g.few); shown = g.shown },
                omega arith,
                (omega arith, omega arith),
              )
        | inr (bs, found) ↦
            let (some_bytes, agrees, follows, count, size) =
              Popped-some S _ o (pop_next o) bs found popped in
            let after = emit d packet bs (with_order f (advance (pop_next o).1 (length bs))) in
            let (reads, fewer, forward) = pop_rounds-Reads fuel packet after (omega arith) (
              emit-Following packet bs f (advance (pop_next o).1 (length bs)) g.shown agrees follows
                (omega (arith, g.few))) in
            let moved = chunk-end S d start T e other_start other_end packet 0 bs f.chunks in
            rw (found, pop_rounds)
              (
                reads,
                omega (arith, fewer, pop_next-length-le after.side.order),
                (omega (arith, forward.0, moved), omega (arith, forward.1, moved)),
              )
      ]

  pub pop_held-Reads :
      (packet : ℕ) (f : Flow)
      → Following S d start T e other_start other_end f
      → Reads S d start T e other_start other_end (pop_held d packet f)
        × (length (pop_held d packet f).side.order.early_segments
            ≤ length (pop_next f.side.order).1.early_segments)
        × Forward f (pop_held d packet f)
  unfolding pop_held
  pop_held-Reads packet f g = pop_rounds-Reads _ packet f (omega arith) g

  From-Held :
      (p m : ℕ) (hi : ℕ) (xs : List EarlySegment)
      → p ≤ m
      → hi ≤ m + 2 ^ 31
      → All (From S p m) xs
      → All (Held S m hi) xs
  From-Held p m hi xs h k =
      All-map (From S p m) (Held S m hi) xs
        (λ s (a, at_a, agrees, l, u). (a, at_a, agrees, omega arith, omega arith))

  -- Skipping to position `m`, ahead of which nothing is held.
  pub skip_gap-Following :
      (packet m : ℕ) (f : Flow)
      → let p = end_of d start f.chunks in
        p < m
        → m < p + 2 ^ 30
        → All (From S p m) f.side.order.early_segments
        → Reads S d start T e other_start other_end f
        → Following S d start T e other_start other_end (skip_gap d packet (m % 2 ^ 32) f)
          × ((skip_gap d packet (m % 2 ^ 32) f).side.order.early_segments
              ≡ f.side.order.early_segments)
          × ((skip_gap d packet (m % 2 ^ 32) f).side.order.next_seq ≡ m % 2 ^ 32)
          × (end_of d start (skip_gap d packet (m % 2 ^ 32) f).chunks ≡ m)
  unfolding skip_gap hand_out_gap
  skip_gap-Following packet m f lo hi from g =
      let p = end_of d start f.chunks in
      let o = f.side.order in
      let (at_m, ahead, same) = skip_to-IsNear m p o (omega arith) g.at_end.at_p in
      let missing = (skip_to o (m % 2 ^ 32)).1 in
      let at_next : (skip_to o (m % 2 ^ 32)).0.next_seq ≡ m % 2 ^ 32 =
        at_m ∙ ap (λ (n : ℕ). n % 2 ^ 32) (omega (arith, ahead)) in
      let end_m : end_of d start (f.chunks ++ (chunk_of d packet missing [] ∷ [])) ≡ m =
        chunk-end S d start T e other_start other_end packet missing [] f.chunks
        ∙ omega (arith, ahead) in
      let not_zero : (missing == 0) ≡ false = ground (arith, ahead) in
      rw not_zero (
        record {
          at_end = rw end_m (record {
            at_p = at_next;
            held = rw same (From-Held p m _ _ (omega arith) (omega (arith, g.few)) from);
          });
          few = rw same g.few;
          shown =
              chunk-Shown S d start T e other_start other_end packet missing [] f.chunks apart
                g.shown tt;
        },
        same,
        at_next,
        end_m,
      )

  -- A round of the loops of flush and skipTo: to the first segment held, and past it.
  pub round-Reads :
      (packet first m : ℕ) (f : Flow)
      → FirstAt S (end_of d start f.chunks) first f.side.order.early_segments m
      → HasSeq first f.side.order.early_segments
      → Reads S d start T e other_start other_end f
      → let f' = pop_held d packet (skip_gap d packet first f) in
        Reads S d start T e other_start other_end f'
        × (length f'.side.order.early_segments < length f.side.order.early_segments)
        × (end_of d start f.chunks ≤ end_of d start f'.chunks)
        × (end_of d start f'.chunks + bytes_of f'.side.order.early_segments
            ≤ m + bytes_of f.side.order.early_segments)
  round-Reads packet first m f (at_m, lo, hi, from) has g =
      let (following, same, at_next, end_m) = skip_gap-Following packet m f lo hi from g in
      let skipped = skip_gap d packet (m % 2 ^ 32) f in
      let (reads, count, forward) = pop_held-Reads packet skipped following in
      let fewer =
        pop_next-length-lt skipped.side.order (m % 2 ^ 32) (rw (same, ← at_m) has)
          (rw at_next (ground (arith, seq_after_self (m % 2 ^ 32)))) in
      rw at_m (
        reads,
        omega (arith, count, fewer, ap length same),
        omega (arith, forward.0, end_m),
        omega (arith, forward.1, end_m, ap bytes_of same),
      )

  flush_rounds-Reads :
      (fuel packet : ℕ) (f : Flow)
      → length f.side.order.early_segments < fuel
      → Reads S d start T e other_start other_end f
      → Reads S d start T e other_start other_end (flush_rounds fuel d packet f)
        × ((flush_rounds fuel d packet f).side.order.early_segments ≡ [])
        × (end_of d start f.chunks ≤ end_of d start (flush_rounds fuel d packet f).chunks)
  unfolding flush_rounds
  flush_rounds-Reads zero packet f h g = absurd (omega arith)
  flush_rounds-Reads (suc fuel) packet f h g =
      elim (first_early_seq-FirstAt S _ f.side.order g.at_end) [
        | inl (empty, none_held) ↦ rw (none_held, flush_rounds) (g, empty, omega arith)
        | inr (first, m, found, first_at, has) ↦
            let (reads, fewer, forward, within) = round-Reads packet first m f first_at has g in
            let f' = pop_held d packet (skip_gap d packet first f) in
            let (flushed, empty, onward) = flush_rounds-Reads fuel packet f' (omega arith) reads in
            rw (found, flush_rounds) (flushed, empty, omega (arith, forward, onward))
      ]

  -- A flush of a direction that shows its stream keeps to the stream, gaps counted, never goes
  -- back, and leaves no segment held.
  pub flush-Reads :
      (packet : ℕ) (f : Flow)
      → Reads S d start T e other_start other_end f
      → Reads S d start T e other_start other_end (flush d packet f)
        × ((flush d packet f).side.order.early_segments ≡ [])
        × (end_of d start f.chunks ≤ end_of d start (flush d packet f).chunks)
  unfolding flush
  flush-Reads packet f g = flush_rounds-Reads _ packet f (omega arith) g

  -- What the loop of skipTo leaves before the last skip, to position `a`: nothing ahead of `a`.
  pub skip_rounds-Reads :
      (fuel packet a : ℕ) (f : Flow)
      → let p = end_of d start f.chunks in
        length f.side.order.early_segments < fuel
        → a < p + 2 ^ 30
        → p + bytes_of f.side.order.early_segments ≤ a + max_early_bytes
        → Reads S d start T e other_start other_end f
        → let f' = skip_rounds fuel d packet (a % 2 ^ 32) f in
          Reads S d start T e other_start other_end f'
          × All (From S (end_of d start f'.chunks) a) f'.side.order.early_segments
          × (p ≤ end_of d start f'.chunks)
          × (end_of d start f'.chunks ≤ a + max_early_bytes)
  unfolding skip_rounds
  skip_rounds-Reads zero packet a f h near bound g = absurd (omega arith)
  skip_rounds-Reads (suc fuel) packet a f h near bound g =
      elim (first_early_seq-FirstAt S _ f.side.order g.at_end) [
        | inl (empty, none_held) ↦
            rw (none_held, skip_rounds) (g, rw empty tt, omega arith, omega arith)
        | inr (first, m, found, (at_m, lo, hi, from), has) ↦
            let parts = rw (← at_m) at (seq_after_parts m a (omega (arith, lo, hi))) in
            elim (Bool-cases (is_neg (seq_after first (a % 2 ^ 32)))) [
              | inl before ↦
                  let (reads, fewer, forward, within) =
                    round-Reads packet first m f (at_m, lo, hi, from) has g in
                  let f' = pop_held d packet (skip_gap d packet first f) in
                  let (r, fr, fw, bd) =
                    skip_rounds-Reads fuel packet a f' (omega (arith, fewer))
                      (omega (arith, forward))
                      (omega (arith, within, g.few, parts.1, ltb→lt 0 _ before)) reads in
                  rw (found, skip_rounds, before) (r, fr, omega (arith, forward, fw), bd)
              | inr not_before ↦
                  rw (found, skip_rounds, not_before)
                    (
                      g,
                      From-weaken S _ m a _ (omega (arith, parts.1, ltb→le 0 _ not_before)) from,
                      omega arith,
                      omega arith,
                    )
            ]
      ]
