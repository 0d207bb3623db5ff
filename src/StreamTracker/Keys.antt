-- ===== src/StreamTracker/Keys.antt =====
-- Both directions of a conversation have one key.
use log_squirl_tcpdump.Common.{
  ℕ, ◌+◌, ◌≡◌, ◌≢◌, refl, inl, inr, List, [], ◌∷◌, true, false, arith, Bool-cases, ==_iff, ◌==◌,
}
use log_squirl_tcpdump.StreamTracker.{less, direction_of, key_of}

less_both : (a b : List ℕ) → less a b ≡ true → less b a ≡ false
unfolding less
less_both a [] h = cc
less_both [] (y ∷ ys) h = refl
less_both (x ∷ xs) (y ∷ ys) h = elim (Bool-cases (x == y)) [
  | inl e ↦ let e' : (y == x) ≡ true = ground arith in rw e' (less_both xs ys (rw e at h))
  | inr n ↦ let n' : (y == x) ≡ false = ground arith in let h' = rw n at h in rw n' (ground arith)
]

less_neither : (a b : List ℕ) → less a b ≡ false → less b a ≡ false → a ≡ b
unfolding less
less_neither [] [] h k = refl
less_neither (x ∷ xs) [] h k = cc
less_neither [] (y ∷ ys) h k = cc
less_neither (x ∷ xs) (y ∷ ys) h k = elim (Bool-cases (x == y)) [
  | inl e ↦
      let same : x ≡ y = (==_iff x y).0 e in
      let e' : (y == x) ≡ true = ground arith in
      let rest = less_neither xs ys (rw e at h) (rw e' at k) in cc
  | inr n ↦
      let n' : (y == x) ≡ false = ground arith in
      let h' = rw n at h in let k' = rw n' at k in absurd (ground arith)
]

-- Two endpoints that differ have the same key in either order, and one of the two orders is
-- direction 0, the other one direction 1.
pub key_of-swap :
    (a b : List ℕ) → a ≢ b → (key_of a b ≡ key_of b a) × (direction_of a b + direction_of b a ≡ 1)
unfolding key_of direction_of
key_of-swap a b apart = elim (Bool-cases (less a b)) [
  | inl ab ↦ let ba = less_both a b ab in (rw (ab, ba), rw (ab, ba))
  | inr nab ↦ elim (Bool-cases (less b a)) [
    | inl ba ↦ (rw (nab, ba), rw (nab, ba))
    | inr nba ↦ absurd (apart (less_neither a b nab nba))
  ]
]
