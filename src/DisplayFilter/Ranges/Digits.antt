-- ===== src/DisplayFilter/Ranges/Digits.antt =====
-- The number that a text of digits stands for, and the text of a number.
use log_squirl_tcpdump.Common.{
  ℕ, zero, suc, ◌+◌, ◌*◌, ◌/◌, ◌%◌, ◌^◌, ◌≤◌, ◌<◌, ◌≡◌, refl, ap, ◌∙◌, List, [], ◌∷◌, ◌++◌, Bool,
  true, false, ltb, leb, ◌==◌, if◌then◌else◌, length, arith, Bool-cases, inl, inr, ltb→lt, ltb→le,
  length-append, All-append,
}
use native.Mathlib.Nat.{add-zero}
use log_squirl_tcpdump.DisplayFilter.Ranges.{decimal}
use log_squirl_tcpdump.DisplayFilter.Ranges.Order.{text_le, AreDigits}

unfoldable pub value : List ℕ → ℕ
value [] = 0
value (d ∷ ds) = d * 10 ^ length ds + value ds

-- A text that begins with no zero too many.
unfoldable pub is_numeral : List ℕ → Bool
is_numeral [] = false
is_numeral (d ∷ []) = true
is_numeral (d ∷ e ∷ es) = ltb 0 d

mul_mono : (a b c : ℕ) → a ≤ b → a * c ≤ b * c
mul_mono a b c h = grind arith

power_ten : (n : ℕ) → 10 ^ suc n ≡ 10 * 10 ^ n
power_ten n = omega arith

power_ten_pos : (n : ℕ) → 1 ≤ 10 ^ n
power_ten_pos zero = omega arith
power_ten_pos (suc n) = omega (arith, power_ten n, power_ten_pos n)

pub power_ten_mono : (k n : ℕ) → 10 ^ n ≤ 10 ^ (n + k)
power_ten_mono zero n = rw add-zero (omega arith)
power_ten_mono (suc k) n =
    let e : n + suc k ≡ suc (n + k) = omega arith in
    omega (arith, power_ten_mono k n, power_ten (n + k), ap (λ (t : ℕ). 10 ^ t) e)

pub value-lt : (ds : List ℕ) → AreDigits ds → value ds < 10 ^ length ds
unfolding value
value-lt [] a = omega arith
value-lt (d ∷ ds) (a, as_) =
    omega (arith, value-lt ds as_, mul_mono d 9 (10 ^ length ds) a, power_ten (length ds))

leading :
    (x y b u v : ℕ)
    → u < b
    → v < b
    → (if x == y then leb u v else ltb x y) ≡ leb (x * b + u) (y * b + v)
leading x y b u v hu hv = ground (arith, mul_mono (suc x) y b, mul_mono (suc y) x b)

pub text_le-value :
    (xs ys : List ℕ)
    → AreDigits xs
    → AreDigits ys
    → length xs ≡ length ys
    → text_le xs ys ≡ leb (value xs) (value ys)
unfolding text_le value
text_le-value [] [] a b h = refl
text_le-value [] (y ∷ ys) a b h = absurd (omega arith)
text_le-value (x ∷ xs) [] a b h = absurd (omega arith)
text_le-value (x ∷ xs) (y ∷ ys) (_, as_) (_, bs) h =
    let len : length ys ≡ length xs = omega arith in
    let same : 10 ^ length ys ≡ 10 ^ length xs = ap (λ (t : ℕ). 10 ^ t) len in
    rw (same, text_le-value xs ys as_ bs (omega arith))
      (leading x y (10 ^ length xs) (value xs) (value ys) (value-lt xs as_)
        (let v = value-lt ys bs in omega arith))

pub numeral-le :
    (d e : ℕ) (ds : List ℕ)
    → is_numeral (d ∷ e ∷ ds) ≡ true
    → 10 ^ length (e ∷ ds) ≤ value (d ∷ e ∷ ds)
unfolding value is_numeral
numeral-le d e ds h = omega (arith, mul_mono 1 d (10 ^ length (e ∷ ds)) (ltb→lt 0 d h))

value-append : (xs : List ℕ) (d : ℕ) → value (xs ++ (d ∷ [])) ≡ value xs * 10 + d
unfolding value
value-append [] d = omega arith
value-append (x ∷ xs) d =
    let more_digits : length (xs ++ (d ∷ [])) ≡ suc (length xs) =
      omega (arith, length-append xs (d ∷ [])) in
    let e : 10 ^ length (xs ++ (d ∷ [])) ≡ 10 * 10 ^ length xs =
      ap (λ (t : ℕ). 10 ^ t) more_digits ∙ power_ten (length xs) in
    omega (arith, ap (λ (t : ℕ). x * t) e, value-append xs d)

pub decimal-AreDigits : (fuel n : ℕ) → AreDigits (decimal fuel n)
unfolding decimal
decimal-AreDigits zero n = tt
decimal-AreDigits (suc fuel) n = elim (Bool-cases (ltb n 10)) [
  | inl one ↦ rw one (omega (arith, ltb→lt n 10 one), tt)
  | inr more ↦
      rw more
        (All-append _ (decimal fuel (n / 10)) _ (decimal-AreDigits fuel (n / 10)) (omega arith, tt))
]

pub value-decimal : (fuel n : ℕ) → n < 10 ^ fuel → value (decimal fuel n) ≡ n
unfolding decimal
value-decimal zero n h = unfold value in omega arith
value-decimal (suc fuel) n h = elim (Bool-cases (ltb n 10)) [
  | inl one ↦ rw one (unfold value in omega arith)
  | inr more ↦ rw more (
      omega (
        arith,
        value-append (decimal fuel (n / 10)) (n % 10),
        value-decimal fuel (n / 10) (omega (arith, power_ten fuel)),
      ))
]

fuel_pos : (fuel n : ℕ) → n < 10 ^ fuel → 0 < n → 0 < fuel
fuel_pos zero n h pos = absurd (omega arith)
fuel_pos (suc fuel) n h pos = omega arith

is_numeral-snoc :
    (xs : List ℕ) (d : ℕ) → is_numeral xs ≡ true → 0 < value xs → is_numeral (xs ++ (d ∷ [])) ≡ true
unfolding is_numeral value
is_numeral-snoc [] d h pos = cc
is_numeral-snoc (x ∷ []) d h pos = ground arith
is_numeral-snoc (x ∷ y ∷ ys) d h pos = h

pub is_numeral-decimal :
    (fuel n : ℕ) → n < 10 ^ fuel → 0 < fuel → is_numeral (decimal fuel n) ≡ true
unfolding decimal
is_numeral-decimal zero n h pos = absurd (omega arith)
is_numeral-decimal (suc fuel) n h pos = elim (Bool-cases (ltb n 10)) [
  | inl one ↦ rw one (unfold is_numeral in refl)
  | inr more ↦
      let big = ltb→le n 10 more in
      let small : n / 10 < 10 ^ fuel = omega (arith, power_ten fuel) in
      rw more (
        is_numeral-snoc (decimal fuel (n / 10)) (n % 10)
          (is_numeral-decimal fuel (n / 10) small (fuel_pos fuel (n / 10) small (omega arith)))
          (rw (value-decimal fuel (n / 10) small) (omega arith)))
]
