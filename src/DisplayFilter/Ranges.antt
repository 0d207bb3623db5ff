-- ===== src/DisplayFilter/Ranges.antt =====
-- src/display_filter.cpp: numberRangePattern and digitsRange, with the patterns that they write as
-- data. A digit is its value; a pattern stands for the texts of digits that it matches whole.
pub mod Digits
pub mod Order
pub mod SameLength
pub mod Numbers
pub mod Equivalence
use log_squirl_tcpdump.Common.{
  ℕ, zero, suc, ◌+◌, ◌-◌, ◌*◌, ◌/◌, ◌%◌, ◌^◌, ◌≤◌, List, [], ◌∷◌, ◌++◌, Bool, true, false, not,
  ◌&&◌, ◌||◌, ltb, leb, ◌==◌, Option, some, none, if◌then◌else◌, length,
}

mutual
  -- `one_from low high p` is a digit and then `p`; `any_digits n` is `\d{n}` and `or_more n` is
  -- `\d{n,}`.
  pub data Pattern : Type 0 where
    nothing : Pattern
    one_from : ℕ → ℕ → Pattern → Pattern
    any_digits : ℕ → Pattern
    or_more : ℕ → Pattern
    any_of : Patterns → Pattern

  pub data Patterns : Type 0 where
    nil : Patterns
    cons : Pattern → Patterns → Patterns

unfoldable mutual
  pub accepts : Pattern → List ℕ → Bool
  accepts nothing [] = true
  accepts nothing (d ∷ ds) = false
  accepts (one_from low high p) [] = false
  accepts (one_from low high p) (d ∷ ds) = leb low d && leb d high && accepts p ds
  accepts (any_digits n) ds = length ds == n
  accepts (or_more n) ds = leb n (length ds)
  accepts (any_of ps) ds = accepts_any ps ds

  pub accepts_any : Patterns → List ℕ → Bool
  accepts_any nil ds = false
  accepts_any (cons p ps) ds = accepts p ds || accepts_any ps ds

-- `parts.size() == 1 ? parts.front() : "(?:" + parts.join( '|' ) + ")"`
unfoldable pub joined : Patterns → Pattern
joined (cons p nil) = p
joined ps = any_of ps

abbrev pub part_if : Bool → Pattern → Patterns → Patterns
part_if c p ps = if c then cons p ps else ps

unfoldable pub literal_digits : List ℕ → Pattern
literal_digits [] = nothing
literal_digits (d ∷ ds) = one_from d d (literal_digits ds)

abbrev pub replicate : ℕ → ℕ → List ℕ
replicate zero d = []
replicate (suc n) d = d ∷ replicate n d

unfoldable pub all_are : ℕ → List ℕ → Bool
all_are d [] = true
all_are d (x ∷ xs) = (x == d) && all_are d xs

unfoldable pub same_digits : List ℕ → List ℕ → Bool
same_digits [] [] = true
same_digits (x ∷ xs) (y ∷ ys) = (x == y) && same_digits xs ys
same_digits _ _ = false

-- The parts of digitsRange for first digits that differ: the first digit `l` with the rest above
-- `ls`, the digits between, and the first digit `h` with the rest below `hs`.
unfoldable pub parts_of : ℕ → ℕ → List ℕ → Pattern → ℕ → List ℕ → Pattern → Patterns
unfolding all_are
parts_of n l ls lower h hs upper =
    let low_from_0 = all_are 0 ls in
    let high_to_9 = all_are 9 hs in
    let middle_low = if low_from_0 then l else l + 1 in
    let middle_high = if high_to_9 then h else h - 1 in
    part_if (not low_from_0) (one_from l l lower) (
      part_if (leb middle_low middle_high) (one_from middle_low middle_high (any_digits n))
        (part_if (not high_to_9) (one_from h h upper) nil))

-- digitsRange, of two texts of `n` digits; each call takes one off.
unfoldable pub digits_range : ℕ → List ℕ → List ℕ → Pattern
unfolding literal_digits joined same_digits parts_of
digits_range (suc n) (l ∷ ls) (h ∷ hs) =
    let same = digits_range n ls hs in
    let lower = digits_range n ls (replicate n 9) in
    let upper = digits_range n (replicate n 0) hs in
    if same_digits (l ∷ ls) (h ∷ hs)
    then literal_digits (l ∷ ls)
    else if l == h
    then one_from l l same
    else joined (parts_of n l ls lower h hs upper)
digits_range _ low _ = literal_digits low

-- `std::to_string` of a number below 10 ^ fuel.
unfoldable pub decimal : ℕ → ℕ → List ℕ
decimal zero n = []
decimal (suc fuel) n = if ltb n 10 then n ∷ [] else decimal fuel (n / 10) ++ ((n % 10) ∷ [])

abbrev pub uint64_max : ℕ
uint64_max = 2 ^ 64 - 1

-- The least and the greatest text of `digits` digits in the range.
unfoldable pub from_text : ℕ → List ℕ → List ℕ
from_text digits low_text =
    if digits == length low_text then low_text else 1 ∷ replicate (digits - 1) 0

unfoldable pub to_text : ℕ → List ℕ → Bool → List ℕ
to_text digits high_text unbounded =
    if (digits == length high_text) && not unbounded then high_text else replicate digits 9

-- The loop over the numbers of digits from `digits` on, `rounds` of them, and the part behind it.
unfoldable pub range_parts : ℕ → ℕ → List ℕ → List ℕ → Bool → Patterns → Patterns
unfolding digits_range from_text to_text
range_parts zero digits low_text high_text unbounded last = last
range_parts (suc rounds) digits low_text high_text unbounded last =
    cons (digits_range digits (from_text digits low_text) (to_text digits high_text unbounded))
      (range_parts rounds (suc digits) low_text high_text unbounded last)

-- `[1-9]\d{n,}`, of the numbers of more digits.
abbrev pub more_digits : ℕ → Patterns
more_digits digits = cons (one_from 1 9 (or_more digits)) nil

unfoldable pub range_pattern : List ℕ → List ℕ → Bool → Pattern
unfolding range_parts joined
range_pattern low_text high_text unbounded =
    let low_digits = length low_text in
    let high_digits = if unbounded then low_digits else length high_text in
    let last = if unbounded then more_digits low_digits else nil in
    joined (range_parts (high_digits + 1 - low_digits) low_digits low_text high_text unbounded last)

-- No pattern, the empty text, for a range of no number.
unfoldable pub number_range_pattern : ℕ → ℕ → Option Pattern
unfolding range_pattern decimal
number_range_pattern low high =
    if ltb high low
    then none
    else some (range_pattern (decimal 20 low) (decimal 20 high) (high == uint64_max))
