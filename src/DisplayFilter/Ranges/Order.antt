-- ===== src/DisplayFilter/Ranges/Order.antt =====
-- Texts of digits in order: as texts of one length compare, so do their numbers.
use log_squirl_tcpdump.Common.{
  ℕ, zero, suc, ◌≤◌, ◌≡◌, refl, ap, List, [], ◌∷◌, Bool, true, false, ◌&&◌, ltb, ◌==◌,
  if◌then◌else◌, length, arith, All,
}
use log_squirl_tcpdump.DisplayFilter.Ranges.{replicate, all_are, same_digits}

unfoldable pub text_le : List ℕ → List ℕ → Bool
text_le [] ys = true
text_le (x ∷ xs) [] = false
text_le (x ∷ xs) (y ∷ ys) = if x == y then text_le xs ys else ltb x y

abbrev pub AreDigits : List ℕ → Type 0
AreDigits = All (λ d. d ≤ 9)

pub length-replicate : (n d : ℕ) → length (replicate n d) ≡ n
length-replicate zero d = refl
length-replicate (suc n) d = ap suc (length-replicate n d)

pub zeros_le : (n : ℕ) (ds : List ℕ) → length ds ≡ n → text_le (replicate n 0) ds ≡ true
unfolding text_le
zeros_le zero ds h = refl
zeros_le (suc n) [] h = absurd (omega arith)
zeros_le (suc n) (d ∷ ds) h = ground (arith, zeros_le n ds)

pub le_nines :
    (n : ℕ) (ds : List ℕ) → AreDigits ds → length ds ≡ n → text_le ds (replicate n 9) ≡ true
unfolding text_le
le_nines n [] a h = refl
le_nines zero (d ∷ ds) a h = absurd (omega arith)
le_nines (suc n) (d ∷ ds) (a, as_) h = ground (arith, le_nines n ds as_)

pub all_zeros_le :
    (xs ds : List ℕ) → all_are 0 xs ≡ true → length ds ≡ length xs → text_le xs ds ≡ true
unfolding text_le all_are
all_zeros_le [] ds z h = refl
all_zeros_le (x ∷ xs) [] z h = absurd (omega arith)
all_zeros_le (x ∷ xs) (d ∷ ds) z h = ground (arith, all_zeros_le xs ds)

pub le_all_nines :
    (xs ds : List ℕ)
    → AreDigits ds
    → all_are 9 xs ≡ true
    → length ds ≡ length xs
    → text_le ds xs ≡ true
unfolding text_le all_are
le_all_nines xs [] a z h = refl
le_all_nines [] (d ∷ ds) a z h = absurd (omega arith)
le_all_nines (x ∷ xs) (d ∷ ds) (a, as_) z h = ground (arith, le_all_nines xs ds as_)

pub same_digits-length : (xs ys : List ℕ) → same_digits xs ys ≡ true → length xs ≡ length ys
unfolding same_digits
same_digits-length [] [] h = refl
same_digits-length [] (y ∷ ys) h = cc
same_digits-length (x ∷ xs) [] h = cc
same_digits-length (x ∷ xs) (y ∷ ys) h = ground (arith, same_digits-length xs ys)

pub same_digits-eq : (xs ys : List ℕ) → same_digits xs ys ≡ true → xs ≡ ys
unfolding same_digits
same_digits-eq [] [] h = refl
same_digits-eq [] (y ∷ ys) h = cc
same_digits-eq (x ∷ xs) [] h = cc
same_digits-eq (x ∷ xs) (y ∷ ys) h = ground (arith, same_digits-eq xs ys)

-- Between a text and itself there is only that text.
pub same_digits-between :
    (xs ds : List ℕ)
    → same_digits xs ds ≡ ((length ds == length xs) && text_le xs ds && text_le ds xs)
unfolding same_digits text_le
same_digits-between [] [] = refl
same_digits-between [] (d ∷ ds) = ground arith
same_digits-between (x ∷ xs) [] = ground arith
same_digits-between (x ∷ xs) (d ∷ ds) = ground (arith, same_digits-between xs ds)
