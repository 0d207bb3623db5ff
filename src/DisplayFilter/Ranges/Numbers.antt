-- ===== src/DisplayFilter/Ranges/Numbers.antt =====
-- The numerals of one length in a range: what the least and the greatest text of that length say.
use log_squirl_tcpdump.Common.{
  ℕ, zero, suc, ◌+◌, ◌-◌, ◌^◌, ◌≤◌, ◌<◌, ◌≡◌, refl, ap, sym, ◌∙◌, List, [], ◌∷◌, Bool, true, false,
  ◌&&◌, ◌||◌, ltb, leb, ◌==◌, length, arith, Bool-cases, inl, inr, ltb→le, ==_iff, ◌⊎◌,
}
use log_squirl_tcpdump.DisplayFilter.Ranges.{replicate, from_text, to_text}
use log_squirl_tcpdump.DisplayFilter.Ranges.Order.{text_le, AreDigits, zeros_le, le_nines}
use log_squirl_tcpdump.DisplayFilter.Ranges.Digits.{
  value, is_numeral, power_ten_mono, value-lt, text_le-value, numeral-le,
}

power_mono : (m n : ℕ) → m ≤ n → 10 ^ m ≤ 10 ^ n
power_mono m n h =
    let e : m + (n - m) ≡ n = omega arith in
    omega (arith, power_ten_mono (n - m) m, ap (λ (t : ℕ). 10 ^ t) e)

-- A numeral of more digits is a larger number.
pub shorter-lt :
    (xs ys : List ℕ)
    → AreDigits xs
    → is_numeral ys ≡ true
    → 0 < length xs
    → length xs < length ys
    → value xs < value ys
shorter-lt xs [] a n pos h = absurd (omega arith)
shorter-lt xs (y ∷ []) a n pos h = absurd (omega arith)
shorter-lt xs (y ∷ z ∷ zs) a n pos h = omega (
  arith,
  value-lt xs a,
  numeral-le y z zs n,
  power_mono (length xs) (length (z ∷ zs)) (omega arith),
)

pub numeral-length : (xs : List ℕ) → is_numeral xs ≡ true → 0 < length xs
unfolding is_numeral
numeral-length [] h = cc
numeral-length (x ∷ xs) h = omega arith

value-zero : (d : ℕ) (ds : List ℕ) → d ≡ 0 → value (d ∷ ds) ≡ value ds
unfolding value
value-zero d ds h = rw h (omega arith)

above_all : (a b : ℕ) → b < a → leb a b ≡ false
above_all a b h = ground arith

pub below_all : (a b : ℕ) → a ≤ b → leb a b ≡ true
below_all a b h = ground arith

one_and_zeros :
    (n d : ℕ) (ds : List ℕ) → length ds ≡ n → text_le (1 ∷ replicate n 0) (d ∷ ds) ≡ ltb 0 d
unfolding text_le
one_and_zeros n d ds h = ground (arith, zeros_le n ds h)

leading_zero :
    (lo : List ℕ) (d e : ℕ) (es : List ℕ)
    → AreDigits (e ∷ es)
    → is_numeral lo ≡ true
    → length lo ≡ length (d ∷ e ∷ es)
    → ltb 0 d ≡ false
    → leb (value lo) (value (d ∷ e ∷ es)) ≡ false
leading_zero [] d e es a n len z = absurd (omega arith)
leading_zero (l ∷ []) d e es a n len z = absurd (omega arith)
leading_zero (l ∷ m ∷ ls) d e es a n len z =
    let small = value-lt (e ∷ es) a in
    let large = numeral-le l m ls n in
    let same : length ls ≡ length es = omega arith in
    let powers : 10 ^ length (m ∷ ls) ≡ 10 ^ length (e ∷ es) = ap (λ (t : ℕ). 10 ^ suc t) same in
    let none_first : d ≡ 0 = omega (arith, ltb→le 0 d z) in
    above_all _ _ (omega (arith, value-zero d (e ∷ es) none_first, small, large, powers))

and_true_right : (b : Bool) {c : Bool} → c ≡ true → b ≡ (b && c)
and_true_right true h = sym h
and_true_right false h = refl

and_false : (b : Bool) → (b && false) ≡ false
and_false true = refl
and_false false = refl

-- At or above the least text of its length, a text is a numeral of at least `lo`.
pub from_text_lem :
    (lo ds : List ℕ)
    → AreDigits lo
    → AreDigits ds
    → is_numeral lo ≡ true
    → length lo ≤ length ds
    → text_le (from_text (length ds) lo) ds ≡ (is_numeral ds && leb (value lo) (value ds))
unfolding from_text
from_text_lem lo [] al ad n le = absurd (omega (arith, numeral-length lo n))
from_text_lem lo (d ∷ []) al ad n le =
    let one : length lo ≡ 1 = omega (arith, numeral-length lo n) in
    let same : (length (d ∷ []) == length lo) ≡ true = ground arith in
    unfold is_numeral in rw same (text_le-value lo (d ∷ []) al ad one)
from_text_lem lo (d ∷ e ∷ es) al (hd, as_) n le =
    elim (Bool-cases (length (d ∷ e ∷ es) == length lo)) [
      | inl same ↦
          let len : length lo ≡ length (d ∷ e ∷ es) = ground arith in
          rw (same, text_le-value lo (d ∷ e ∷ es) al (hd, as_) len)
            (elim (Bool-cases (ltb 0 d)) [
              | inl pos ↦ unfold is_numeral in rw pos
              | inr z ↦ unfold is_numeral in rw z (leading_zero lo d e es as_ n len z)
            ])
      | inr more_digits ↦
          let lt : length lo < length (d ∷ e ∷ es) = ground arith in
          let rest : suc (suc (length es)) - 1 ≡ length (e ∷ es) = omega arith in
          rw (more_digits, rest, one_and_zeros (length (e ∷ es)) d (e ∷ es) refl)
            (unfold is_numeral in
              elim (Bool-cases (ltb 0 d)) [
                | inl pos ↦ rw pos (
                    sym (
                      below_all _ _ (
                        let above =
                          shorter-lt lo (d ∷ e ∷ es) al (unfold is_numeral in pos)
                            (numeral-length lo n) lt in
                        omega arith)))
                | inr z ↦ rw z
              ])
    ]

-- Below the greatest text of its length, a text is at most `hi`, or anything where there is no bound.
pub to_text_lem :
    (hi ds : List ℕ) (unbounded : Bool)
    → AreDigits hi
    → AreDigits ds
    → is_numeral hi ≡ true
    → 0 < length ds
    → ((unbounded ≡ true) ⊎ (length ds ≤ length hi))
    → text_le ds (to_text (length ds) hi unbounded) ≡ (unbounded || leb (value ds) (value hi))
unfolding to_text
to_text_lem hi ds true ah ad n pos le =
    rw (and_false (length ds == length hi)) (le_nines (length ds) ds ad refl)
to_text_lem hi ds false ah ad n pos (inl b) = cc
to_text_lem hi ds false ah ad n pos (inr le) = elim (Bool-cases (length ds == length hi)) [
  | inl same ↦ rw same (text_le-value ds hi ad ah ((==_iff _ _).0 same))
  | inr shorter ↦ rw shorter (
      le_nines (length ds) ds ad refl
      ∙ sym (below_all _ _ (let lt = shorter-lt ds hi ad n pos (ground arith) in omega arith)))
]

nines-numeral : (n : ℕ) → is_numeral (replicate (suc n) 9) ≡ true
unfolding is_numeral
nines-numeral zero = refl
nines-numeral (suc n) = refl
