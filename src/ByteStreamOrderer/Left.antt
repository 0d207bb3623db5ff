-- ===== src/ByteStreamOrderer/Left.antt =====
-- popNext: what was held and not handed over is held still.
use log_squirl_tcpdump.Common.{
  ℕ, zero, suc, ◌+◌, ◌^◌, ◌%◌, ◌≤◌, ◌<◌, ◌≡◌, refl, ◌⊎◌, inl, inr, List, [], ◌∷◌, All, All-map,
  Option, none, some, arith, length, length-drop, ltb, Bool-cases, Option-cases, ltb→le, subst,
}
use log_squirl_tcpdump.Common.Int.{neg_part}
use log_squirl_tcpdump.ByteStreamOrderer.{
  EarlySegment, ByteStreamOrderer, seq_after, take_ready, pop_loop, pop_next, bytes_of,
}
use log_squirl_tcpdump.ByteStreamOrderer.Positions.{seq_after_parts, Follows}
use log_squirl_tcpdump.ByteStreamOrderer.Pop.{
  take_ready_parts, take_ready_cases, pop_next-All, Popped, pop_next-Popped,
}

-- A held segment has the byte at position `n`, as seen from position `p`.
abbrev pub HasByte : ℕ → ℕ → EarlySegment → Type 0
HasByte p n s =
    (a : ℕ) × (s.seq ≡ a % 2 ^ 32)
    × (p ≤ a + 2 ^ 31)
    × (a < p + 2 ^ 30)
    × (a ≤ n)
    × (n < a + length s.bytes)

abbrev pub SomeHasByte : ℕ → ℕ → List EarlySegment → Type 0
SomeHasByte p n [] = ⊥
SomeHasByte p n (s ∷ rest) = HasByte p n s ⊎ SomeHasByte p n rest

-- Seen from further on, as long as the byte is not behind.
pub SomeHasByte-later :
    (p q n : ℕ) (xs : List EarlySegment)
    → p ≤ q
    → q ≤ n
    → bytes_of xs ≤ 2 ^ 31
    → SomeHasByte p n xs
    → SomeHasByte q n xs
unfolding bytes_of
SomeHasByte-later p q n [] h k l b = b
SomeHasByte-later p q n (s ∷ xs) h k l (inl (a, at_a, behind, ahead, from, to)) =
    inl (a, at_a, omega arith, omega arith, from, to)
SomeHasByte-later p q n (s ∷ xs) h k l (inr b) =
    inr (SomeHasByte-later p q n xs h k (omega arith) b)

take_ready-HasByte :
    (p n now : ℕ) (xs : List EarlySegment) (s : EarlySegment) (rest : List EarlySegment)
    → take_ready now xs ≡ some (s, rest)
    → SomeHasByte p n xs
    → HasByte p n s ⊎ SomeHasByte p n rest
take_ready-HasByte p n now [] s rest e b = absurd b
take_ready-HasByte p n now (x ∷ xs) s rest e b = elim (take_ready_cases now x xs s rest e) [
  | inl (first, others) ↦ elim b [
    | inl here ↦ inl (subst (HasByte p n) first here)
    | inr there ↦ inr (subst (SomeHasByte p n) others there)
  ]
  | inr (later, found, others) ↦ elim b [
    | inl here ↦ inr (subst (SomeHasByte p n) others (inl here))
    | inr there ↦ elim (take_ready-HasByte p n now xs s later found there) [
      | inl taken ↦ inl taken
      | inr left ↦ inr (subst (SomeHasByte p n) others (inr left))
    ]
  ]
]

-- The bytes that a pop gives.
abbrev pub given_bytes : Option (List ℕ) → List ℕ
given_bytes none = []
given_bytes (some bs) = bs

-- The byte at `n` is one of those given at `p`, or held still.
abbrev pub GivenOrHeld : ℕ → ℕ → Option (List ℕ) × ByteStreamOrderer → Type 0
GivenOrHeld p n r = (n < p + length (given_bytes r.0)) ⊎ SomeHasByte p n r.1.early_segments

pop_loop-GivenOrHeld :
    (p n fuel : ℕ) (o : ByteStreamOrderer)
    → o.next_seq ≡ p % 2 ^ 32
    → p ≤ n
    → SomeHasByte p n o.early_segments
    → GivenOrHeld p n (pop_loop fuel o)
unfolding pop_loop
pop_loop-GivenOrHeld p n zero o at_p l b = inr b
pop_loop-GivenOrHeld p n (suc fuel) o at_p l b =
    elim (Option-cases (take_ready o.next_seq o.early_segments)) [
      | inl e ↦ rw (e, pop_loop) (inr b)
      | inr ((s, rest), e) ↦
          let (ready, size, count) = take_ready_parts o.next_seq o.early_segments s rest e in
          let overlap = neg_part (seq_after s.seq o.next_seq) in
          let again = pop_loop-GivenOrHeld p n fuel (record o { early_segments = rest }) at_p l in
          let of_s : HasByte p n s → n + overlap < p + length s.bytes =
            λ (a, at_a, behind, ahead, from, to).
              let parts = rw (← at_a, ← at_p) at (seq_after_parts a p (omega arith)) in
              omega (arith, ltb→le 0 _ ready, parts.0, parts.1) in
          elim (Bool-cases (ltb overlap (length s.bytes))) [
            | inl fresh ↦
                rw (e, pop_loop, fresh)
                  (elim (take_ready-HasByte p n o.next_seq o.early_segments s rest e b) [
                    | inl here ↦ inl (omega (arith, of_s here, length-drop {0} overlap s.bytes))
                    | inr there ↦ inr there
                  ])
            | inr stale ↦
                rw (e, pop_loop, stale)
                  (elim (take_ready-HasByte p n o.next_seq o.early_segments s rest e b) [
                    | inl here ↦ absurd (omega (arith, of_s here, ltb→le _ _ stale))
                    | inr there ↦ again there
                  ])
          ]
    ]

pub pop_next-GivenOrHeld :
    (p n : ℕ) (o : ByteStreamOrderer)
    → o.next_seq ≡ p % 2 ^ 32
    → p ≤ n
    → SomeHasByte p n o.early_segments
    → GivenOrHeld p n (pop_next o)
unfolding pop_next
pop_next-GivenOrHeld p n o at_p l b = pop_loop-GivenOrHeld p n _ o at_p l b

abbrev IsOneOf : List EarlySegment → EarlySegment → Type 0
IsOneOf [] s = ⊥
IsOneOf (x ∷ xs) s = (x ≡ s) ⊎ IsOneOf xs s

All-IsOneOf : (xs : List EarlySegment) → All (IsOneOf xs) xs
All-IsOneOf [] = tt
All-IsOneOf (x ∷ xs) =
    (inl refl, All-map (IsOneOf xs) (IsOneOf (x ∷ xs)) xs (λ s h. inr h) (All-IsOneOf xs))

-- A pop, of an orderer that has taken a stream up to `p`.
pub record Pops (S : ℕ → ℕ) (p : ℕ) (o : ByteStreamOrderer)
    (r : Option (List ℕ) × ByteStreamOrderer) : Type 0 where
  pub popped : Popped S p o r
  pub kept : (n : ℕ) → p ≤ n → SomeHasByte p n o.early_segments → GivenOrHeld p n r
  pub no_others : All (IsOneOf o.early_segments) r.1.early_segments

-- popNext of an orderer that has taken a stream up to position `p` and holds pieces of it: it
-- gives bytes of the stream that begin at `p`, one at least, and still follows the stream once
-- they are taken; or it gives nothing, and then no held segment begins at or before `p`. Each
-- byte from `p` on that a held segment had is one of those given or in a segment held still, each
-- segment that it leaves was held before, and it never holds more segments or bytes than before.
pub pop_next-Pops :
    (S : ℕ → ℕ) (p : ℕ) (o : ByteStreamOrderer) → Follows S p o → Pops S p o (pop_next o)
pop_next-Pops S p o f = record {
  popped = pop_next-Popped S p o f;
  kept = λ n l b. pop_next-GivenOrHeld p n o f.at_p l b;
  no_others = pop_next-All (IsOneOf o.early_segments) o (All-IsOneOf o.early_segments);
}
