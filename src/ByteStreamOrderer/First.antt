-- ===== src/ByteStreamOrderer/First.antt =====
-- place, firstEarlySeq and skipTo against the positions of the stream.
use log_squirl_tcpdump.Common.{
  ℕ, ◌+◌, ◌-◌, ◌^◌, ◌%◌, ◌≤◌, ◌<◌, ◌≡◌, refl, sym, ◌⊎◌, inl, inr, List, [], ◌∷◌, All, All-map, none,
  some, arith, Bool-cases, ltb→lt, ltb→le,
}
use log_squirl_tcpdump.Common.Int.{is_neg}
use log_squirl_tcpdump.ByteStreamOrderer.{
  EarlySegment, ByteStreamOrderer, seq_after, place, next, early, taken, first_of_list,
  first_early_seq, skip_to,
}
use log_squirl_tcpdump.ByteStreamOrderer.Positions.{
  Agrees, IsNear, seq_after_parts, Waiting, Waits, HasSeq,
}

-- A segment of `len` bytes at position `a`, against an orderer that has taken the bytes up to
-- `p`, `a` at most 2 ^ 31 behind and less than 2 ^ 31 ahead of `p`: it is early and begins behind
-- `p`, or taken and ends at or before `p`, or next, begins at or before `p`, goes on past it, and
-- overlaps the `p - a` bytes taken.
pub place-IsNear :
    (a p len : ℕ) (o : ByteStreamOrderer)
    → IsNear a p
    → o.next_seq ≡ p % 2 ^ 32
    → let r = place o (a % 2 ^ 32) len in
      ((p < a) × (r.fit ≡ early))
      ⊎ ((a + len ≤ p) × (r.fit ≡ taken))
      ⊎ ((a ≤ p) × (p < a + len) × (r.fit ≡ next) × (a + r.overlap ≡ p))
unfolding place
place-IsNear a p len o near at_p = rw at_p (ground (arith, seq_after_parts a p))

-- A held segment at or behind position `m`.
abbrev pub From : (ℕ → ℕ) → ℕ → ℕ → EarlySegment → Type 0
From S p m s = (a : ℕ) × (s.seq ≡ a % 2 ^ 32) × Agrees S a s.bytes × (m ≤ a) × (a < p + 2 ^ 30)

pub From-weaken :
    (S : ℕ → ℕ) (p m m' : ℕ) (xs : List EarlySegment)
    → m' ≤ m
    → All (From S p m) xs
    → All (From S p m') xs
From-weaken S p m m' xs h =
    All-map (From S p m) (From S p m') xs (λ s (a, e, g, l, u). (a, e, g, omega arith, u))

-- The answer of firstEarlySeq, at position `m`.
abbrev pub FirstAt : (ℕ → ℕ) → ℕ → ℕ → List EarlySegment → ℕ → Type 0
FirstAt S p f xs m = (f ≡ m % 2 ^ 32) × (p < m) × (m < p + 2 ^ 30) × All (From S p m) xs

first_of_list-some :
    (S : ℕ → ℕ) (p m : ℕ) (f : ℕ) (xs : List EarlySegment)
    → f ≡ m % 2 ^ 32
    → p < m
    → m < p + 2 ^ 30
    → All (Waiting S p) xs
    → (g : ℕ) × (k : ℕ) × (first_of_list (some f) xs ≡ some g)
      × FirstAt S p g xs k
      × (k ≤ m)
      × ((g ≡ f) ⊎ HasSeq g xs)
unfolding first_of_list
first_of_list-some S p m f [] e lo hi h = (f, m, refl, (e, lo, hi, tt), omega arith, inl refl)
first_of_list-some S p m f (s ∷ xs) e lo hi ((a, at_a, agrees, after, near), h) =
    let parts = rw (← at_a, ← e) at (seq_after_parts a m (omega arith)) in
    elim (Bool-cases (is_neg (seq_after s.seq f))) [
      | inl before ↦
          let (g, k, r, (at_k, low, high, from), k_le, has) =
            first_of_list-some S p a s.seq xs at_a after near h in
          rw before (
            g,
            k,
            r,
            (at_k, low, high, ((a, at_a, agrees, k_le, near), from)),
            omega (arith, ltb→lt 0 _ before, parts.1),
            inr (elim has [ inl same ↦ inl (sym same) | inr later ↦ inr later ]),
          )
      | inr not_before ↦
          let (g, k, r, (at_k, low, high, from), k_le, has) =
            first_of_list-some S p m f xs e lo hi h in
          rw not_before (
            g,
            k,
            r,
            (
              at_k,
              low,
              high,
              ((a, at_a, agrees, omega (arith, ltb→le 0 _ not_before, parts.1), near), from),
            ),
            k_le,
            elim has [ inl same ↦ inl same | inr later ↦ inr (inr later) ],
          )
    ]

-- firstEarlySeq of an orderer whose held segments all wait behind position `p`, less than 2 ^ 30
-- ahead: it gives nothing exactly if nothing is held, and otherwise the sequence number of a held
-- segment that lies at the least position held.
pub first_early_seq-FirstAt :
    (S : ℕ → ℕ) (p : ℕ) (o : ByteStreamOrderer)
    → Waits S p o
    → ((o.early_segments ≡ []) × (first_early_seq o ≡ none))
      ⊎ ((f : ℕ) × (m : ℕ) × (first_early_seq o ≡ some f)
          × FirstAt S p f o.early_segments m
          × HasSeq f o.early_segments)
unfolding first_early_seq first_of_list
first_early_seq-FirstAt S p o w = go o.early_segments w.held
  where
    go :
        (xs : List EarlySegment)
        → All (Waiting S p) xs
        → ((xs ≡ []) × (first_of_list none xs ≡ none))
          ⊎ ((f : ℕ) × (m : ℕ) × (first_of_list none xs ≡ some f)
              × FirstAt S p f xs m
              × HasSeq f xs)
    go [] h = inl (refl, refl)
    go (s ∷ xs) ((a, at_a, agrees, after, near), h) =
        let (g, k, r, (at_k, low, high, from), k_le, has) =
          first_of_list-some S p a s.seq xs at_a after near h in
        inr (
          g,
          k,
          r,
          (at_k, low, high, ((a, at_a, agrees, k_le, near), from)),
          elim has [ inl same ↦ inl (sym same) | inr later ↦ inr later ],
        )

-- skipTo of position `a`, against an orderer that has taken the bytes up to `p`, `a` at most 2 ^
-- 31 behind and less than 2 ^ 31 ahead of `p`: the orderer moves by `a - p` bytes, none if `a` is
-- not ahead, answers their number, and holds what it held.
pub skip_to-IsNear :
    (a p : ℕ) (o : ByteStreamOrderer)
    → IsNear a p
    → o.next_seq ≡ p % 2 ^ 32
    → let r = skip_to o (a % 2 ^ 32) in
      (r.0.next_seq ≡ (p + r.1) % 2 ^ 32) × (r.1 ≡ a - p) × (r.0.early_segments ≡ o.early_segments)
unfolding skip_to
skip_to-IsNear a p o near at_p = rw at_p (ground (arith, seq_after_parts a p, at_p))
