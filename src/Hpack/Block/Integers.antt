-- ===== src/Hpack/Block/Integers.antt =====
-- Integers of RFC 7541 (5.1): what the encoder writes is read back, and what is read is bounded.
use log_squirl_tcpdump.Common.{
  ℕ, zero, suc, ◌+◌, ◌-◌, ◌*◌, ◌/◌, ◌%◌, ◌^◌, ◌≤◌, ◌<◌, ◌≡◌, List, [], ◌∷◌, ◌++◌, Option, some,
  false, ltb, ◌==◌, if◌then◌else◌, arith, ap, ◌∙◌, inl, inr, length, Bool-cases, ltb→lt, ltb→le,
}
use native.Mathlib.Nat.{div-add-mod, mul_assoc, pow-succ'}
use native.Mathlib.Numerals.{towards_suc}
use log_squirl_tcpdump.Hpack.Block.{integer, integer_rest}

-- The groups of seven bits of `v`, the lowest first, with the top bit set on all but the last.
abbrev pub groups : ℕ → ℕ → List ℕ
groups zero v = []
groups (suc n) v = if ltb v 128 then v ∷ [] else (v % 128 + 128) ∷ groups n (v / 128)

-- The encoding of `v` with a prefix of `n` bits, below the flags in the first byte's other bits.
abbrev pub encode_integer : ℕ → ℕ → ℕ → List ℕ
encode_integer n flags v =
    if ltb v (2 ^ n - 1)
    then (flags * 2 ^ n + v) ∷ []
    else (flags * 2 ^ n + (2 ^ n - 1)) ∷ groups 4 (v - (2 ^ n - 1))

shift_seven : (s : ℕ) → 2 ^ (s + 7) ≡ 128 * 2 ^ s
shift_seven s = simp towards_suc (omega arith)

-- The lowest group of `v` and the rest of it, both shifted by `s`.
split_group : (v s : ℕ) → v * 2 ^ s ≡ v % 128 * 2 ^ s + v / 128 * 2 ^ (s + 7)
split_group v s = omega (
  arith,
  ap (λ (t : ℕ). t * 2 ^ s) (div-add-mod v 128),
  ap (λ (t : ℕ). v / 128 * t) (shift_seven s),
)

mul_le : (a b c : ℕ) → a ≤ b → a * c ≤ b * c
mul_le a b c h = grind arith

power_pos : (r : ℕ) → 1 ≤ 128 ^ r
power_pos zero = omega arith
power_pos (suc r) = omega (arith, power_pos r)

two_pow_pos : (n : ℕ) → 1 ≤ 2 ^ n
two_pow_pos zero = omega arith
two_pow_pos (suc n) = omega (arith, two_pow_pos n)

integer_rest-groups :
    (rounds shift value v : ℕ) (rest : List ℕ)
    → v < 128 ^ rounds
    → 0 < rounds
    → integer_rest rounds shift value (groups rounds v ++ rest) ≡ some (value + v * 2 ^ shift, rest)
unfolding integer_rest
integer_rest-groups zero shift value v rest h pos = absurd (omega arith)
integer_rest-groups (suc zero) shift value v rest h pos = ground arith
integer_rest-groups (suc (suc rounds)) shift value v rest h pos = ground (
  arith,
  split_group v shift,
  integer_rest-groups (suc rounds) (shift + 7) (value + v % 128 * 2 ^ shift) (v / 128) rest
      (omega arith) (omega arith),
)

restored : (v m : ℕ) → m ≤ v → m + (v - m) * 2 ^ 0 ≡ v
restored v m h = omega arith

mod_flags : (f m v : ℕ) → v < m → (f * m + v) % m ≡ v
mod_flags f m v h = grind arith

prefix_value : (byte n : ℕ) → byte % 2 ^ n ≤ 2 ^ n - 1
prefix_value byte n = grind (arith, two_pow_pos n)

power_product : (s r : ℕ) → 2 ^ s * 128 ^ suc r ≡ 128 * (2 ^ s * 128 ^ r)
power_product s r = rw pow-succ' (omega arith)

-- What is read adds less than `2 ^ shift * 128 ^ rounds` to the value, and takes a byte a round.
integer_rest_bounds :
    (rounds shift value : ℕ) (bytes : List ℕ) (v : ℕ) (rest : List ℕ)
    → integer_rest rounds shift value bytes ≡ some (v, rest)
    → (value ≤ v)
      × (v + 2 ^ shift ≤ value + 2 ^ shift * 128 ^ rounds)
      × (length rest < length bytes)
      × (length bytes ≤ length rest + rounds)
unfolding integer_rest
integer_rest_bounds zero shift value bytes v rest h = cc
integer_rest_bounds (suc rounds) shift value [] v rest h = cc
integer_rest_bounds (suc rounds) shift value (byte ∷ bytes) v rest h =
    let value' = value + byte % 128 * 2 ^ shift in
    let small : byte % 128 * 2 ^ shift ≤ 127 * 2 ^ shift =
      mul_le (byte % 128) 127 (2 ^ shift) (omega arith) in
    let product : 2 ^ shift * 128 ^ suc rounds ≡ 128 * (2 ^ shift * 128 ^ rounds) =
      power_product shift rounds in
    elim (Bool-cases (byte / 2 ^ 7 % 2 == 1)) [
      | inl more ↦
          let ih = integer_rest_bounds rounds (shift + 7) value' bytes v rest (rw more at h) in
          let wider : 2 ^ (shift + 7) * 128 ^ rounds ≡ 128 * (2 ^ shift * 128 ^ rounds) =
            ap (λ (n : ℕ). n * 128 ^ rounds) (shift_seven shift)
            ∙ mul_assoc 128 (2 ^ shift) (128 ^ rounds) in
          (
            omega (arith, ih.0),
            omega (arith, ih.1, small, wider, product, shift_seven shift),
            omega (arith, ih.2),
            omega (arith, ih.3),
          )
      | inr done ↦
          let e : ◌≡◌ {A = Option (ℕ × List ℕ)} (some (value', bytes)) (some (v, rest)) =
            rw done at h in
          let same_value : value' ≡ v = cc in
          let same_rest : bytes ≡ rest = cc in
          let room = mul_le 1 (128 ^ rounds) (2 ^ shift) (power_pos rounds) in
          (
            omega (arith, same_value),
            omega (arith, same_value, small, room, product),
            omega (arith, ap length same_rest),
            omega (arith, ap length same_rest),
          )
    ]

-- An integer read with a prefix of `n` bits, eight at most, is less than 2 ^ n - 1 + 2 ^ 28, and
-- takes one to five bytes.
pub integer_bounds :
    (n : ℕ) (bytes : List ℕ) (v : ℕ) (rest : List ℕ)
    → n ≤ 8
    → integer n bytes ≡ some (v, rest)
    → (v < 2 ^ n - 1 + 2 ^ 28) × (length rest < length bytes) × (length bytes ≤ length rest + 5)
unfolding integer
integer_bounds n [] v rest hn h = cc
integer_bounds n (byte ∷ bytes) v rest hn h = elim (Bool-cases (ltb (byte % 2 ^ n) (2 ^ n - 1))) [
  | inl short ↦
      let e : ◌≡◌ {A = Option (ℕ × List ℕ)} (some (byte % 2 ^ n, bytes)) (some (v, rest)) =
        rw short at h in
      let same_value : byte % 2 ^ n ≡ v = cc in
      let same_rest : bytes ≡ rest = cc in
      (
        omega (arith, same_value, ltb→lt _ _ short),
        omega (arith, ap length same_rest),
        omega (arith, ap length same_rest),
      )
  | inr long ↦
      let (lo, hi, fewer, most) =
        integer_rest_bounds 4 0 (byte % 2 ^ n) bytes v rest (rw long at h) in
      (omega (arith, hi, prefix_value byte n), omega (arith, fewer), omega (arith, most))
]

-- An integer below 2 ^ n - 1 + 2 ^ 28, encoded with a prefix of `n` bits as RFC 7541 says, for
-- `n` from one to eight, is read back with the bytes behind it, whatever flags share its first
-- byte.
pub integer-encode_integer :
    (n flags v : ℕ) (rest : List ℕ)
    → n ≤ 8
    → 0 < n
    → v < 2 ^ n - 1 + 2 ^ 28
    → integer n (encode_integer n flags v ++ rest) ≡ some (v, rest)
unfolding integer
integer-encode_integer n flags v rest hn pos small = elim (Bool-cases (ltb v (2 ^ n - 1))) [
  | inl short ↦
      let low : (flags * 2 ^ n + v) % 2 ^ n ≡ v =
        mod_flags flags (2 ^ n) v (omega (arith, ltb→lt _ _ short)) in
      rw short (rw low (rw short))
  | inr long ↦
      let low : (flags * 2 ^ n + (2 ^ n - 1)) % 2 ^ n ≡ 2 ^ n - 1 =
        mod_flags flags (2 ^ n) (2 ^ n - 1) (omega (arith, two_pow_pos n)) in
      let full : ltb (2 ^ n - 1) (2 ^ n - 1) ≡ false = ground arith in
      rw long (
        rw (low, full)
          (integer_rest-groups 4 0 (2 ^ n - 1) (v - (2 ^ n - 1)) rest (omega arith) (omega arith)
            ∙ ap (λ (w : ℕ). some (w, rest)) (restored v (2 ^ n - 1) (ltb→le _ _ long))))
]
