-- ===== src/StreamContent/Segments.antt =====
-- takeTcp's two ways to move a direction: an acknowledgement of its bytes, and a segment's payload.
use log_squirl_tcpdump.Common.{
  ℕ, zero, suc, ◌+◌, ◌-◌, ◌*◌, ◌^◌, ◌%◌, ◌≤◌, ◌<◌, ◌≡◌, refl, ◌≢◌, List, [], ◌∷◌, arith, All,
  All-map, All-append, inl, inr, false, Bool-cases, length, length-drop, drop, subst, ltb→lt,
  ltb→le, ltb,
}
use log_squirl_tcpdump.Common.Int.{is_pos}
use log_squirl_tcpdump.ByteStreamOrderer.{
  ByteStreamOrderer, EarlySegment, bytes_of-snoc, early_bytes, early_bytes_lem, advance, skip_to,
  seq_after, hold_early,
}
use log_squirl_tcpdump.ByteStreamOrderer.Positions.{
  Agrees, Agrees-drop, Held, Waiting, Follows, seq_after_parts, advance_next,
}
use log_squirl_tcpdump.ByteStreamOrderer.First.{From, place-IsNear}
use log_squirl_tcpdump.StreamContent.{
  Flow, max_early_bytes, pop_held, skip_gap, flush, skip_rounds, skip_missing, before_fin,
  with_order, hand_out, emit,
}
use log_squirl_tcpdump.StreamContent.TakeTcp.{place_rounds, place_segment}
use log_squirl_tcpdump.StreamContent.Faithful.{end_of, chunk-end, Following, Reads}
use log_squirl_tcpdump.StreamContent.Flows.{
  pop_held-Reads, skip_rounds-Reads, skip_gap-Following, emit-Following, flush-Reads,
}
use log_squirl_tcpdump.StreamContent.Reach.{Within, flush-reach}

-- Taking up to 2 ^ 20 bytes ahead keeps what waits within reach.
Held-Waiting :
    (S : ℕ → ℕ) (p q hi : ℕ) (xs : List EarlySegment)
    → p ≤ q
    → hi ≤ p + 2 * max_early_bytes
    → All (Waiting S p) xs
    → All (Held S q hi) xs
Held-Waiting S p q hi xs h k =
    All-map (Waiting S p) (Held S q hi) xs
      (λ s (a, at_a, agrees, l, u). (a, at_a, agrees, omega arith, omega arith))

pub hand_out-emit :
    (d packet : ℕ) (bs : List ℕ) (f : Flow)
    → 0 < length bs
    → hand_out d packet bs f ≡ emit d packet bs f
unfolding hand_out
hand_out-emit d packet [] f h = absurd (omega arith)
hand_out-emit d packet (b ∷ bs) f h = refl

pub early-advance :
    (o : ByteStreamOrderer) (n : ℕ) → (advance o n).early_segments ≡ o.early_segments
unfolding advance
early-advance o n = refl

next_seq-advance :
    (p n m : ℕ) (o : ByteStreamOrderer)
    → m ≡ n
    → o.next_seq ≡ p % 2 ^ 32
    → (advance o n).next_seq ≡ (p + m) % 2 ^ 32
unfolding advance
next_seq-advance p n m o same at_p = rw (at_p, same) (advance_next p n)

module _ (S : ℕ → ℕ) (d start : ℕ) (T : ℕ → ℕ) (e other_start other_end : ℕ) (apart : d ≢ e) where
  pub Following-Reads :
      (f : Flow)
      → Reads S d start T e other_start other_end f
      → Following S d start T e other_start other_end f
  Following-Reads f g = record {
    at_end = record {
      at_p = g.at_end.at_p;
      held = Held-Waiting S _ _ _ _ (omega arith) (omega (arith, g.few)) g.at_end.held;
    };
    few = g.few;
    shown = g.shown;
  }

  -- A skip to a position that was reached leaves all as it is.
  pub skip_gap-reached :
      (packet a : ℕ) (f : Flow)
      → let p = end_of d start f.chunks in
        a ≤ p
        → p ≤ a + 2 ^ 31
        → f.side.order.next_seq ≡ p % 2 ^ 32
        → skip_gap d packet (a % 2 ^ 32) f ≡ f
  unfolding skip_gap skip_to
  skip_gap-reached packet a f le near at_p =
      let parts = rw (← at_p) at (seq_after_parts a (end_of d start f.chunks) (omega arith)) in
      let zero_ahead : is_pos (seq_after (a % 2 ^ 32) f.side.order.next_seq) ≡ false =
        ground (arith, parts) in
      rw zero_ahead

  skip_to_target :
      (packet a : ℕ) (f : Flow)
      → let p = end_of d start f.chunks in
        a < p + 2 ^ 30
        → p ≤ a + max_early_bytes
        → All (From S p a) f.side.order.early_segments
        → Reads S d start T e other_start other_end f
        → let f' = pop_held d packet (skip_gap d packet (a % 2 ^ 32) f) in
          Reads S d start T e other_start other_end f'
          × (p ≤ end_of d start f'.chunks)
          × (a ≤ end_of d start f'.chunks)
  skip_to_target packet a f near bound from g =
      elim (Bool-cases (ltb (end_of d start f.chunks) a)) [
        | inl ahead ↦
            let (following, same, at_next, end_a) =
              skip_gap-Following S d start T e other_start other_end apart packet a f
                (ltb→lt _ _ ahead) near from g in
            let (reads, count, forward) =
              pop_held-Reads S d start T e other_start other_end apart packet _ following in
            (
              reads,
              omega (arith, forward.0, end_a, ltb→lt _ _ ahead),
              omega (arith, forward.0, end_a),
            )
        | inr reached ↦
            let (reads, count, forward) =
              pop_held-Reads S d start T e other_start other_end apart packet f
                (Following-Reads f g) in
            rw (skip_gap-reached packet a f (ltb→le _ _ reached) (omega arith) g.at_end.at_p)
              (reads, omega (arith, forward.0), omega (arith, forward.0, ltb→le _ _ reached))
      ]

  -- An acknowledgement of the bytes up to position `a`, cut at the FIN, at most 2 ^ 31 behind and
  -- less than 2 ^ 30 ahead of the end of what was handed out: what is handed out stays the
  -- stream, gaps counted, never goes back and reaches `a`.
  pub skip_missing-Reads :
      (packet a ack : ℕ) (f : Flow)
      → before_fin f.side.fin_seq ack ≡ a % 2 ^ 32
      → let p = end_of d start f.chunks in
        p ≤ a + 2 ^ 31
        → a < p + 2 ^ 30
        → Reads S d start T e other_start other_end f
        → let f' = skip_missing d packet ack f in
          Reads S d start T e other_start other_end f'
          × (p ≤ end_of d start f'.chunks)
          × (a ≤ end_of d start f'.chunks)
  unfolding skip_missing
  skip_missing-Reads packet a ack f at_a behind near g =
      let p = end_of d start f.chunks in
      let parts = rw (← g.at_end.at_p) at (seq_after_parts a p (omega arith)) in
      let n = suc (length f.side.order.early_segments) in
      rw at_a (elim (Bool-cases (is_pos (seq_after (a % 2 ^ 32) f.side.order.next_seq))) [
        | inl ahead ↦
            let (reads, from, onward, bound) =
              skip_rounds-Reads S d start T e other_start other_end apart n packet a f (omega arith)
                near (omega (arith, parts.0, ltb→lt 0 _ ahead, g.few)) g in
            let (r, fw, reach) =
              skip_to_target packet a (skip_rounds n d packet (a % 2 ^ 32) f)
                (omega (arith, onward)) bound from reads in
            rw ahead (r, omega (arith, onward, fw), reach)
        | inr not_ahead ↦
            rw not_ahead (g, omega arith, omega (arith, parts.0, ltb→le 0 _ not_ahead))
      ])

  emit-end :
      (packet : ℕ) (bs : List ℕ) (f : Flow) (o : ByteStreamOrderer)
      → end_of d start (emit d packet bs (with_order f o)).chunks
        ≡ end_of d start f.chunks + 0 + length bs
  unfolding emit
  emit-end packet bs f o = chunk-end S d start T e other_start other_end packet 0 bs f.chunks

  -- Payload at position `a`, of which the bytes from `p` on are new and handed out.
  pub next-Following :
      (packet a overlap : ℕ) (payload : List ℕ) (f : Flow)
      → let p = end_of d start f.chunks in
        a + overlap ≡ p
        → p < a + length payload
        → length payload ≤ max_early_bytes
        → Agrees S a payload
        → Reads S d start T e other_start other_end f
        → let o = advance f.side.order (length payload - overlap) in
          Following S d start T e other_start other_end
            (emit d packet (drop overlap payload) (with_order f o))
  next-Following packet a overlap payload f at_p more small agrees g =
      let p = end_of d start f.chunks in
      let new = drop overlap payload in
      let o = advance f.side.order (length payload - overlap) in
      let size = length-drop {0} overlap payload in
      let follows : Follows S (p + length new) o = record {
        at_p =
            next_seq-advance p (length payload - overlap) (length new) f.side.order size
              g.at_end.at_p;
        held =
            rw early-advance
              (Held-Waiting S p _ _ _ (omega arith) (omega (arith, size, g.few)) g.at_end.held);
      } in
      emit-Following S d start T e other_start other_end apart packet new f o g.shown
        (subst (λ (n : ℕ). Agrees S n new) at_p (Agrees-drop S overlap a payload agrees)) follows
        (rw early-advance g.few)

  next-Reads :
      (packet a overlap : ℕ) (payload : List ℕ) (f : Flow)
      → let p = end_of d start f.chunks in
        a + overlap ≡ p
        → p < a + length payload
        → length payload ≤ max_early_bytes
        → Agrees S a payload
        → Reads S d start T e other_start other_end f
        → let o = advance f.side.order (length payload - overlap) in
          let f' = pop_held d packet (hand_out d packet (drop overlap payload) (with_order f o)) in
          Reads S d start T e other_start other_end f'
          × (p ≤ end_of d start f'.chunks)
          × (a + length payload ≤ end_of d start f'.chunks)
  next-Reads packet a overlap payload f at_p more small agrees g =
      let new = drop overlap payload in
      let o = advance f.side.order (length payload - overlap) in
      let size = length-drop {0} overlap payload in
      let (reads, count, forward) =
        pop_held-Reads S d start T e other_start other_end apart packet _
          (next-Following packet a overlap payload f at_p more small agrees g) in
      rw (hand_out-emit d packet new (with_order f o) (omega (arith, size))) (
        reads,
        omega (arith, forward.0, emit-end packet new f o),
        omega (arith, forward.0, emit-end packet new f o, size),
      )

  pub Waiting-Within : (p : ℕ) (xs : List EarlySegment) → All (Waiting S p) xs → All (Within p) xs
  Waiting-Within p xs =
      All-map (Waiting S p) (Within p) xs (λ s (a, at_a, agrees, l, u). (a, at_a, l, u))

  -- A segment that came early is held where the limit allows it.
  hold_early-Reads :
      (packet a : ℕ) (payload : List ℕ) (f : Flow)
      → let p = end_of d start f.chunks in
        p < a
        → a < p + 2 ^ 30
        → Agrees S a payload
        → Reads S d start T e other_start other_end f
        → ltb max_early_bytes (early_bytes f.side.order + length payload) ≡ false
        → Reads S d start T e other_start other_end
            (with_order f (hold_early f.side.order (a % 2 ^ 32) payload))
  unfolding hold_early
  hold_early-Reads packet a payload f ahead near agrees g fits = record {
    at_end = record {
      at_p = g.at_end.at_p;
      held =
          All-append (Waiting S _) f.side.order.early_segments _ g.at_end.held
            ((a, refl, agrees, ahead, near), tt);
    };
    few = rw bytes_of-snoc (omega (arith, ltb→le _ _ fits, early_bytes_lem f.side.order));
    shown = g.shown;
  }

  pub place_rounds-Reads :
      (fuel packet a : ℕ) (payload : List ℕ) (f : Flow)
      → let p = end_of d start f.chunks in
        length payload ≤ max_early_bytes
        → p ≤ a + 2 ^ 31
        → a < p + 2 ^ 30
        → Agrees S a payload
        → Reads S d start T e other_start other_end f
        → Reads S d start T e other_start other_end
            (place_rounds fuel d packet (a % 2 ^ 32) payload f)
  unfolding place_rounds
  place_rounds-Reads zero packet a payload f small behind near agrees g = g
  place_rounds-Reads (suc fuel) packet a payload f small behind near agrees g =
      let p = end_of d start f.chunks in
      let o = f.side.order in
      elim (place-IsNear a p (length payload) o (omega arith) g.at_end.at_p) [
        | inl (ahead, is_early) ↦
            let (flushed, empty, onward) =
              flush-Reads S d start T e other_start other_end apart packet f g in
            let reach =
              flush-reach S d start T e other_start other_end apart packet p f g
                (Waiting-Within p _ g.at_end.held) refl in
            let again =
              place_rounds-Reads fuel packet a payload (flush d packet f) small
                (omega (arith, reach)) (omega (arith, onward)) agrees flushed in
            rw (is_early, place_rounds)
              (ground (arith, again, g, hold_early-Reads packet a payload f ahead near agrees g))
        | inr (inl (behind_all, is_taken)) ↦ rw (is_taken, place_rounds) g
        | inr (inr (not_ahead, more, is_next, overlap)) ↦
            rw (is_next, place_rounds)
              (next-Reads packet a _ payload f overlap more small agrees g).0
      ]

  -- A payload of at most max_early_bytes bytes, the stream's at position `a`, is placed: what the
  -- direction hands out stays its stream, gaps counted, and what it holds stays pieces of the
  -- stream with nothing of them next. Position `a` lies at most 2 ^ 31 behind and less than 2 ^
  -- 30 ahead of the end of what was handed out.
  pub place_segment-Reads :
      (packet a : ℕ) (payload : List ℕ) (f : Flow)
      → let p = end_of d start f.chunks in
        length payload ≤ max_early_bytes
        → p ≤ a + 2 ^ 31
        → a < p + 2 ^ 30
        → Agrees S a payload
        → Reads S d start T e other_start other_end f
        → Reads S d start T e other_start other_end (place_segment d packet (a % 2 ^ 32) payload f)
  unfolding place_segment
  place_segment-Reads packet a [] f small behind near agrees g = g
  place_segment-Reads packet a (b ∷ bs) f small behind near agrees g =
      place_rounds-Reads 2 packet a (b ∷ bs) f small behind near agrees g

  -- A payload that begins at or before the end of what was handed out is passed at once.
  pub place_segment-reach :
      (packet a : ℕ) (payload : List ℕ) (f : Flow)
      → let p = end_of d start f.chunks in
        length payload ≤ max_early_bytes
        → p ≤ a + 2 ^ 31
        → a ≤ p
        → Agrees S a payload
        → Reads S d start T e other_start other_end f
        → a + length payload ≤ end_of d start (place_segment d packet (a % 2 ^ 32) payload f).chunks
  unfolding place_segment place_rounds
  place_segment-reach packet a [] f small behind near agrees g = omega arith
  place_segment-reach packet a (b ∷ bs) f small behind near agrees g =
      let payload : List ℕ = b ∷ bs in
      elim (place-IsNear a _ (length payload) f.side.order (omega arith) g.at_end.at_p) [
        | inl (ahead, is_early) ↦ absurd (omega arith)
        | inr (inl (behind_all, is_taken)) ↦ rw (is_taken, place_rounds) behind_all
        | inr (inr (not_ahead, more, is_next, overlap)) ↦
            rw (is_next, place_rounds)
              (omega (arith, (next-Reads packet a _ payload f overlap more small agrees g).2))
      ]
