-- ===== src/ByteStreamOrderer/Pop.antt =====
-- popNext: what it hands over is the stream, and what it leaves waits.
use log_squirl_tcpdump.Common.{
  ℕ, zero, suc, ◌+◌, ◌^◌, ◌%◌, ◌≤◌, ◌<◌, ◌≡◌, ◌⊎◌, inl, inr, List, [], ◌∷◌, All, All-map, Option,
  none, some, true, false, arith, length, length-drop, drop, ltb, Bool-cases, Option-cases, ltb→lt,
  ltb→le, subst,
}
use log_squirl_tcpdump.Common.Int.{neg_part, is_pos}
use log_squirl_tcpdump.ByteStreamOrderer.{
  EarlySegment, ByteStreamOrderer, seq_after, take_ready, pop_loop, pop_next, bytes_of, advance,
}
use log_squirl_tcpdump.ByteStreamOrderer.Positions.{
  Agrees, Agrees-drop, seq_after_parts, Held, Waiting, Follows, Waits, advance_next, HasSeq,
}

-- What `take_ready` takes out is next or behind, and nothing else changes.
pub take_ready_parts :
    (now : ℕ) (xs : List EarlySegment) (s : EarlySegment) (rest : List EarlySegment)
    → take_ready now xs ≡ some (s, rest)
    → (is_pos (seq_after s.seq now) ≡ false)
      × (bytes_of xs ≡ length s.bytes + bytes_of rest)
      × (length xs ≡ suc (length rest))
unfolding take_ready bytes_of
take_ready_parts now [] s rest e = cc
take_ready_parts now (x ∷ xs) s rest e = elim (Option-cases (take_ready now xs)) [
  | inl none_later ↦ ground arith
  | inr ((t, later), found) ↦ ground (arith, take_ready_parts now xs t later found)
]

pub take_ready_cases :
    (now : ℕ) (x : EarlySegment) (xs : List EarlySegment) (s : EarlySegment)
    (rest : List EarlySegment)
    → take_ready now (x ∷ xs) ≡ some (s, rest)
    → ((x ≡ s) × (xs ≡ rest))
      ⊎ ((later : List EarlySegment) × (take_ready now xs ≡ some (s, later)) × (x ∷ later ≡ rest))
unfolding take_ready
take_ready_cases now x xs s rest e = elim (Option-cases (take_ready now xs)) [
  | inl none_later ↦ ground arith
  | inr ((t, later), found) ↦ elim (Bool-cases (is_pos (seq_after x.seq now))) [
    | inl after ↦ inr (later, ground arith, ground arith)
    | inr ready ↦ inl (ground arith)
  ]
]

take_ready-All {κ} :
    (P : EarlySegment → Type κ) (now : ℕ) (xs : List EarlySegment) (s : EarlySegment)
    (rest : List EarlySegment)
    → take_ready now xs ≡ some (s, rest)
    → All P xs
    → P s × All P rest
take_ready-All P now [] s rest e h = unfold take_ready in cc
take_ready-All P now (x ∷ xs) s rest e h = elim (take_ready_cases now x xs s rest e) [
  | inl (p, q) ↦ (subst P p h.0, subst (All P) q h.1)
  | inr (later, found, q) ↦
      let r = take_ready-All P now xs s later found h.1 in (r.0, subst (All P) q (h.0, r.1))
]

take_ready-none :
    (now : ℕ) (xs : List EarlySegment)
    → take_ready now xs ≡ none
    → All (λ s. is_pos (seq_after s.seq now) ≡ true) xs
unfolding take_ready
take_ready-none now [] e = tt
take_ready-none now (x ∷ xs) e = ground (arith, take_ready-none now xs)

-- What a pop may answer: nothing, and then all that is held waits; or the bytes of the stream at
-- `p`, and following it goes on behind them.
abbrev pub Popped : (ℕ → ℕ) → ℕ → ByteStreamOrderer → Option (List ℕ) × ByteStreamOrderer → Type 0
Popped S p o (none, o') =
    Waits S p o'
    × (length o'.early_segments ≤ length o.early_segments)
    × (bytes_of o'.early_segments ≤ bytes_of o.early_segments)
Popped S p o (some bs, o') =
    (0 < length bs)
    × Agrees S p bs
    × Follows S (p + length bs) (advance o' (length bs))
    × (length o'.early_segments < length o.early_segments)
    × (length bs + bytes_of o'.early_segments ≤ bytes_of o.early_segments)

Held-weaken :
    (S : ℕ → ℕ) (p q hi lo : ℕ) (xs : List EarlySegment)
    → p ≤ q
    → lo ≤ hi
    → All (Held S p hi) xs
    → All (Held S q lo) xs
Held-weaken S p q hi lo xs hp hl =
    All-map (Held S p hi) (Held S q lo) xs
      (λ s (a, e, agrees, behind, ahead). (a, e, agrees, omega arith, omega arith))

-- Where nothing is ready, every held segment begins after `p`.
Waiting-none :
    (S : ℕ → ℕ) (p hi : ℕ) (xs : List EarlySegment)
    → p ≤ hi
    → All (λ s. is_pos (seq_after s.seq (p % 2 ^ 32)) ≡ true) xs
    → All (Held S p hi) xs
    → All (Waiting S p) xs
Waiting-none S p hi [] h ready held = tt
Waiting-none S p hi (x ∷ xs) h ready ((a, e, agrees, behind, ahead), held) = (
  (a, e, agrees, ground (arith, rw e at ready.0, seq_after_parts a p), ahead),
  Waiting-none S p hi xs h ready.1 held,
)

Popped-weaken :
    (S : ℕ → ℕ) (p : ℕ) (o o' : ByteStreamOrderer) (r : Option (List ℕ) × ByteStreamOrderer)
    → length o'.early_segments ≤ length o.early_segments
    → bytes_of o'.early_segments ≤ bytes_of o.early_segments
    → Popped S p o' r
    → Popped S p o r
Popped-weaken S p o o' (none, q) hl hb (w, l, b) = (w, omega arith, omega arith)
Popped-weaken S p o o' (some bs, q) hl hb (m, a, f, l, b) = (m, a, f, omega arith, omega arith)

-- Held segment `s`, with `overlap` bytes before `p`, popped where it has more.
Popped-drop :
    (S : ℕ → ℕ) (p : ℕ) (o : ByteStreamOrderer) (s : EarlySegment) (rest : List EarlySegment)
    (overlap : ℕ)
    → Follows S p o
    → overlap < length s.bytes
    → (a : ℕ) × (Agrees S a s.bytes) × (a + overlap ≡ p)
    → bytes_of o.early_segments ≡ length s.bytes + bytes_of rest
    → length o.early_segments ≡ suc (length rest)
    → All (Held S p (p + bytes_of o.early_segments)) rest
    → Popped S p o (some (drop overlap s.bytes), record o { early_segments = rest })
unfolding advance
Popped-drop S p o s rest overlap f lt (a, agrees, at_a) size count held = (
  omega (arith, length-drop {0} overlap s.bytes),
  subst (λ (n : ℕ). Agrees S n (drop overlap s.bytes)) at_a
      (Agrees-drop S overlap a s.bytes agrees),
  record {
    at_p = rw f.at_p (advance_next p _);
    held =
        Held-weaken S p _ _ _ rest (omega arith) (omega (arith, length-drop {0} overlap s.bytes))
          held;
  },
  omega arith,
  omega (arith, length-drop {0} overlap s.bytes),
)

pop_loop-Popped :
    (S : ℕ → ℕ) (p fuel : ℕ) (o : ByteStreamOrderer)
    → length o.early_segments < fuel
    → Follows S p o
    → Popped S p o (pop_loop fuel o)
unfolding pop_loop
pop_loop-Popped S p zero o h f = absurd (omega arith)
pop_loop-Popped S p (suc fuel) o h f =
    elim (Option-cases (take_ready o.next_seq o.early_segments)) [
      | inl e ↦
          rw (e, pop_loop)
            (
              record {
                at_p = f.at_p;
                held =
                    Waiting-none S p _ _ (omega arith)
                      (rw f.at_p at (take_ready-none o.next_seq o.early_segments e)) f.held;
              },
              omega arith,
              omega arith,
            )
      | inr ((s, rest), e) ↦
          let (ready, size, count) = take_ready_parts o.next_seq o.early_segments s rest e in
          let ((a, at_a, agrees, behind, ahead), held) =
            take_ready-All (Held S p _) o.next_seq o.early_segments s rest e f.held in
          let parts = rw (← at_a, ← f.at_p) at (seq_after_parts a p (omega arith)) in
          elim (Bool-cases (ltb (neg_part (seq_after s.seq o.next_seq)) (length s.bytes))) [
            | inl fresh ↦
                rw (e, pop_loop, fresh)
                  (Popped-drop S p o s rest _ f (ltb→lt _ _ fresh)
                    (a, agrees, omega (arith, ltb→le 0 _ ready, parts.0, parts.1)) size count held)
            | inr stale ↦
                rw (e, pop_loop, stale)
                  (Popped-weaken S p o (record o { early_segments = rest }) _ (omega arith)
                    (omega arith)
                    (pop_loop-Popped S p fuel (record o { early_segments = rest }) (omega arith)
                      (record {
                        at_p = f.at_p;
                        held = Held-weaken S p p _ _ rest (omega arith) (omega arith) held;
                      })))
          ]
    ]

-- popNext of an orderer that has taken a stream up to position `p` and holds pieces of it: it
-- gives bytes of the stream that begin at `p`, one at least, and still follows the stream once
-- they are taken; or it gives nothing, and then no held segment begins at or before `p`. It never
-- holds more segments or bytes than before.
pub pop_next-Popped :
    (S : ℕ → ℕ) (p : ℕ) (o : ByteStreamOrderer) → Follows S p o → Popped S p o (pop_next o)
unfolding pop_next
pop_next-Popped S p o f = pop_loop-Popped S p _ o (omega arith) f

pub Popped-none :
    (S : ℕ → ℕ) (p : ℕ) (o : ByteStreamOrderer) (r : Option (List ℕ) × ByteStreamOrderer)
    → r.0 ≡ none
    → Popped S p o r
    → Waits S p r.1
      × (length r.1.early_segments ≤ length o.early_segments)
      × (bytes_of r.1.early_segments ≤ bytes_of o.early_segments)
Popped-none S p o (none, o') e h = h
Popped-none S p o (some bs, o') e h = cc

pub Popped-some :
    (S : ℕ → ℕ) (p : ℕ) (o : ByteStreamOrderer) (r : Option (List ℕ) × ByteStreamOrderer)
    (bs : List ℕ)
    → r.0 ≡ some bs
    → Popped S p o r
    → (0 < length bs)
      × Agrees S p bs
      × Follows S (p + length bs) (advance r.1 (length bs))
      × (length r.1.early_segments < length o.early_segments)
      × (length bs + bytes_of r.1.early_segments ≤ bytes_of o.early_segments)
Popped-some S p o (none, o') bs e h = cc
Popped-some S p o (some cs, o') bs e (m, a, f, l, b) =
    let same : cs ≡ bs = cc in
    subst
      (λ (xs : List ℕ).
        (0 < length xs)
        × Agrees S p xs
        × Follows S (p + length xs) (advance o' (length xs))
        × (length o'.early_segments < length o.early_segments)
        × (length xs + bytes_of o'.early_segments ≤ bytes_of o.early_segments))
      same (m, a, f, l, b)

pop_loop-length-le :
    (fuel : ℕ) (o : ByteStreamOrderer)
    → length (pop_loop fuel o).1.early_segments ≤ length o.early_segments
unfolding pop_loop
pop_loop-length-le zero o = omega arith
pop_loop-length-le (suc fuel) o = elim (Option-cases (take_ready o.next_seq o.early_segments)) [
  | inl e ↦ rw (e, pop_loop) (omega arith)
  | inr ((s, rest), e) ↦
      let (ready, size, count) = take_ready_parts o.next_seq o.early_segments s rest e in
      rw (e, pop_loop)
        (ground (arith, pop_loop-length-le fuel (record o { early_segments = rest })))
]

pub pop_next-length-le :
    (o : ByteStreamOrderer) → length (pop_next o).1.early_segments ≤ length o.early_segments
unfolding pop_next
pop_next-length-le o = pop_loop-length-le _ o

shrinks_if_ready :
    (o : ByteStreamOrderer) (x : EarlySegment × List EarlySegment)
    → take_ready o.next_seq o.early_segments ≡ some x
    → length (pop_next o).1.early_segments < length o.early_segments
unfolding pop_next pop_loop
shrinks_if_ready o (s, rest) e =
    let (ready, size, count) = take_ready_parts o.next_seq o.early_segments s rest e in
    rw (e, pop_loop)
      (ground
        (arith, pop_loop-length-le (length o.early_segments) (record o { early_segments = rest })))

HasSeq-not_ahead :
    (f now : ℕ) (xs : List EarlySegment)
    → HasSeq f xs
    → is_pos (seq_after f now) ≡ false
    → All (λ s. is_pos (seq_after s.seq now) ≡ true) xs
    → ⊥
HasSeq-not_ahead f now [] h r all = h
HasSeq-not_ahead f now (x ∷ xs) (inl e) r all = cc (all.0)
HasSeq-not_ahead f now (x ∷ xs) (inr h) r all = HasSeq-not_ahead f now xs h r all.1

-- A segment that is next or behind leaves with a pop.
pub pop_next-length-lt :
    (o : ByteStreamOrderer) (f : ℕ)
    → HasSeq f o.early_segments
    → is_pos (seq_after f o.next_seq) ≡ false
    → length (pop_next o).1.early_segments < length o.early_segments
pop_next-length-lt o f h r = elim (Option-cases (take_ready o.next_seq o.early_segments)) [
  | inl e ↦ absurd (HasSeq-not_ahead f o.next_seq o.early_segments h r (take_ready-none _ _ e))
  | inr (x, e) ↦ shrinks_if_ready o x e
]

pop_loop-All {κ} :
    (P : EarlySegment → Type κ) (fuel : ℕ) (o : ByteStreamOrderer)
    → All P o.early_segments
    → All P (pop_loop fuel o).1.early_segments
unfolding pop_loop
pop_loop-All P zero o h = h
pop_loop-All P (suc fuel) o h = elim (Option-cases (take_ready o.next_seq o.early_segments)) [
  | inl e ↦ rw (e, pop_loop) h
  | inr ((s, rest), e) ↦
      let (at_s, others) = take_ready-All P o.next_seq o.early_segments s rest e h in
      elim (Bool-cases (ltb (neg_part (seq_after s.seq o.next_seq)) (length s.bytes))) [
        | inl fresh ↦ rw (e, pop_loop, fresh) others
        | inr stale ↦
            rw (e, pop_loop, stale)
              (pop_loop-All P fuel (record o { early_segments = rest }) others)
      ]
]

-- A pop adds nothing to what is held.
pub pop_next-All {κ} :
    (P : EarlySegment → Type κ) (o : ByteStreamOrderer)
    → All P o.early_segments
    → All P (pop_next o).1.early_segments
unfolding pop_next
pop_next-All P o h = pop_loop-All P _ o h
