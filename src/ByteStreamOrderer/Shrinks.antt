-- ===== src/ByteStreamOrderer/Shrinks.antt =====
-- popNext: the segments that it leaves, and their bytes, are no more than before.
use log_squirl_tcpdump.Common.{
  ℕ, zero, suc, ◌+◌, ◌≤◌, ◌<◌, ◌≡◌, List, Option, none, some, inl, inr, arith, length, length-drop,
  drop, ltb, Bool-cases, Option-cases, ap, some_injective,
}
use log_squirl_tcpdump.Common.Int.{neg_part}
use log_squirl_tcpdump.ByteStreamOrderer.{
  ByteStreamOrderer, seq_after, take_ready, pop_loop, pop_next, bytes_of,
}
use log_squirl_tcpdump.ByteStreamOrderer.Pop.{take_ready_parts}

pub record Shrinks (o : ByteStreamOrderer) (r : Option (List ℕ) × ByteStreamOrderer) : Type 0 where
  pub fewer : length r.1.early_segments ≤ length o.early_segments
  pub less : bytes_of r.1.early_segments ≤ bytes_of o.early_segments
  pub popped :
      (bs : List ℕ)
      → r.0 ≡ some bs
      → (length r.1.early_segments < length o.early_segments)
        × (length bs + bytes_of r.1.early_segments ≤ bytes_of o.early_segments)

Shrinks-none : (o : ByteStreamOrderer) → Shrinks o (none, o)
Shrinks-none o = record { fewer = omega arith; less = omega arith; popped = λ bs e. absurd cc }

pop_loop-Shrinks : (fuel : ℕ) (o : ByteStreamOrderer) → Shrinks o (pop_loop fuel o)
unfolding pop_loop
pop_loop-Shrinks zero o = Shrinks-none o
pop_loop-Shrinks (suc fuel) o = elim (Option-cases (take_ready o.next_seq o.early_segments)) [
  | inl e ↦ rw (e, pop_loop) (Shrinks-none o)
  | inr ((s, rest), e) ↦
      let (ready, size, count) = take_ready_parts o.next_seq o.early_segments s rest e in
      let o' : ByteStreamOrderer = record o { early_segments = rest } in
      let overlap = neg_part (seq_after s.seq o.next_seq) in
      elim (Bool-cases (ltb overlap (length s.bytes))) [
        | inl fresh ↦
            rw (pop_loop, e, fresh)
              (record {
                fewer = omega (arith, count);
                less = omega (arith, size);
                popped = λ bs same. (
                  omega (arith, count),
                  let kept : length (drop overlap s.bytes) ≤ length s.bytes =
                        omega (arith, length-drop overlap s.bytes) in
                      let is : length (drop overlap s.bytes) ≡ length bs =
                        ap length (some_injective same) in
                      omega (arith, size, kept, is),
                );
              })
        | inr stale ↦
            let later = pop_loop-Shrinks fuel o' in
            let fewer = later.fewer in
            let less = later.less in
            rw (pop_loop, e, stale)
              (record {
                fewer = omega (arith, count, fewer);
                less = omega (arith, size, less);
                popped = λ bs same.
                    let (l, m) = later.popped bs same in
                    (omega (arith, count, l), omega (arith, size, m));
              })
      ]
]

pub pop_next-Shrinks : (o : ByteStreamOrderer) → Shrinks o (pop_next o)
unfolding pop_next
pop_next-Shrinks o = pop_loop-Shrinks _ o
