-- ===== src/DisplayFilter/Ranges/Equivalence.antt =====
-- numberRangePattern: the numerals of the range, and no other text of digits.
use log_squirl_tcpdump.Common.{
  ℕ, zero, suc, ◌+◌, ◌-◌, ◌≤◌, ◌<◌, ◌≡◌, refl, sym, ◌∙◌, List, [], ◌∷◌, Bool, true, false, not,
  ◌&&◌, ◌||◌, ltb, leb, ◌==◌, length, arith, Bool-cases, inl, inr, leb→le, ==_iff, ◌⊎◌, some,
  if_both,
}
use log_squirl_tcpdump.DisplayFilter.Ranges.{
  Pattern, Patterns, nil, accepts, accepts_any, digits_range, from_text, to_text, range_parts,
  decimal, uint64_max, more_digits, number_range_pattern, range_pattern,
}
use log_squirl_tcpdump.DisplayFilter.Ranges.Order.{text_le, AreDigits, length-replicate, le_nines}
use log_squirl_tcpdump.DisplayFilter.Ranges.SameLength.{
  accepts-digits_range, accepts-joined, replicate-AreDigits,
}
use log_squirl_tcpdump.DisplayFilter.Ranges.Digits.{
  value, is_numeral, decimal-AreDigits, value-decimal, is_numeral-decimal,
}
use log_squirl_tcpdump.DisplayFilter.Ranges.Numbers.{
  from_text_lem, to_text_lem, shorter-lt, numeral-length, below_all,
}

-- The numerals of the range.
unfoldable pub in_range : ℕ → ℕ → Bool → List ℕ → Bool
unfolding is_numeral value
in_range low high unbounded ds =
    is_numeral ds && leb low (value ds) && (unbounded || leb (value ds) high)

-- The ends of a range: numerals in order, or no bound above.
pub record Ends (lo hi : List ℕ) (unbounded : Bool) : Type 0 where
  low_digits : AreDigits lo
  high_digits : AreDigits hi
  low_numeral : is_numeral lo ≡ true
  high_numeral : is_numeral hi ≡ true
  in_order : value lo ≤ value hi

and_left : (a b : Bool) → (a && b) ≡ true → a ≡ true
and_left true b h = refl
and_left false b h = absurd cc

and_false_lem : (b : Bool) → false ≡ (b && false)
and_false_lem true = refl
and_false_lem false = refl

and_assoc : (a b c : Bool) → ((a && b) && c) ≡ (a && b && c)
and_assoc true b c = refl
and_assoc false b c = refl

between_none : (k n : ℕ) → (leb k n && ltb n (k + 0)) ≡ false
between_none k n = ground arith

-- One more number of digits at the front of the loop.
one_more :
    (k rounds n : ℕ) (a b : Bool)
    → (((n == k) && a) || ((leb (suc k) n && ltb n (suc k + rounds) && a) || b))
      ≡ ((leb k n && ltb n (k + suc rounds) && a) || b)
one_more k rounds n a b = ground arith

module _ (lo hi : List ℕ) (unbounded : Bool) (ends : Ends lo hi unbounded) where
  -- A number of digits that the loop comes to.
  abbrev InLoop : ℕ → Type 0
  InLoop j = (length lo ≤ j) × ((unbounded ≡ true) ⊎ (j ≤ length hi))

  from_text-AreDigits : (j : ℕ) → AreDigits (from_text j lo)
  unfolding from_text
  from_text-AreDigits j =
      if_both AreDigits (j == length lo) ends.low_digits
        (omega arith, replicate-AreDigits (j - 1) 0 (omega arith))

  length-from_text : (j : ℕ) → InLoop j → length (from_text j lo) ≡ j
  unfolding from_text
  length-from_text j h = elim (Bool-cases (j == length lo)) [
    | inl same ↦ rw same (let e = (==_iff j (length lo)).0 same in omega arith)
    | inr other ↦ rw other (
        let pos = numeral-length lo ends.low_numeral in
        let le = h.0 in omega (arith, length-replicate (j - 1) 0))
  ]

  length-to_text : (j : ℕ) → length (to_text j hi unbounded) ≡ j
  unfolding to_text
  length-to_text j = elim (Bool-cases ((j == length hi) && not unbounded)) [
    | inl same ↦ rw same (let e = (==_iff j (length hi)).0 (and_left _ _ same) in omega arith)
    | inr other ↦ rw other (length-replicate j 9)
  ]

  -- The least text is at most the greatest one.
  from-le-to : (j : ℕ) → InLoop j → text_le (from_text j lo) (to_text j hi unbounded) ≡ true
  unfolding to_text
  from-le-to j h = elim (Bool-cases ((j == length hi) && not unbounded)) [
    | inl same ↦
        let e : j ≡ length hi = (==_iff j (length hi)).0 (and_left _ _ same) in
        rw (same, e)
          (from_text_lem lo hi ends.low_digits ends.high_digits ends.low_numeral
              (omega (arith, h.0))
            ∙ rw ends.high_numeral (below_all _ _ ends.in_order))
    | inr other ↦
        rw other (le_nines j (from_text j lo) (from_text-AreDigits j) (length-from_text j h))
  ]

  accepts-part :
      (j : ℕ) (ds : List ℕ)
      → InLoop j
      → AreDigits ds
      → accepts (digits_range j (from_text j lo) (to_text j hi unbounded)) ds
        ≡ ((length ds == j) && in_range (value lo) (value hi) unbounded ds)
  unfolding in_range
  accepts-part j ds h a =
      accepts-digits_range j (from_text j lo) (to_text j hi unbounded) ds (from_text-AreDigits j) a
        (length-from_text j h) (length-to_text j) (from-le-to j h)
      ∙ elim (Bool-cases (length ds == j)) [
        | inl same ↦
            let e : length ds ≡ j = (==_iff _ _).0 same in
            rw (same, sym e)
              (rw
                (
                  from_text_lem lo ds ends.low_digits a ends.low_numeral (omega (arith, h.0)),
                  to_text_lem hi ds unbounded ends.high_digits a ends.high_numeral
                      (omega (arith, h.0, numeral-length lo ends.low_numeral)) (rw e h.1),
                )
                (and_assoc (is_numeral ds) _ _))
        | inr other ↦ rw other
      ]

  accepts_any-range_parts :
      (rounds k : ℕ) (last : Patterns) (ds : List ℕ)
      → ((j : ℕ) → k ≤ j → j < k + rounds → InLoop j)
      → AreDigits ds
      → accepts_any (range_parts rounds k lo hi unbounded last) ds ≡ (
          (leb k (length ds)
            && ltb (length ds) (k + rounds)
            && in_range (value lo) (value hi) unbounded ds)
          || accepts_any last ds)
  unfolding range_parts accepts_any
  accepts_any-range_parts zero k last ds loop a = rw (between_none k (length ds))
  accepts_any-range_parts (suc rounds) k last ds loop a =
      rw
        (
          accepts-part k ds (loop k (omega arith) (omega arith)) a,
          accepts_any-range_parts rounds (suc k) last ds
              (λ j above below. loop j (omega arith) (omega arith)) a,
        )
        (one_more k rounds (length ds) (in_range (value lo) (value hi) unbounded ds)
          (accepts_any last ds))

longer-numeral :
    (n : ℕ) (lo ds : List ℕ)
    → AreDigits lo
    → AreDigits ds
    → length lo ≡ n
    → is_numeral lo ≡ true
    → accepts_any (more_digits n) ds
      ≡ (ltb n (length ds) && is_numeral ds && leb (value lo) (value ds))
unfolding accepts_any is_numeral accepts value
longer-numeral n lo [] al a len num = ground arith
longer-numeral n lo (d ∷ []) al a len num = ground (arith, numeral-length lo num)
longer-numeral n lo (d ∷ e ∷ es) al a len num = ground (arith, a.0, shorter-lt lo (d ∷ e ∷ es) al)

no_shorter :
    (lo ds : List ℕ)
    → AreDigits ds
    → is_numeral lo ≡ true
    → is_numeral ds ≡ true
    → value lo ≤ value ds
    → length lo ≤ length ds
no_shorter lo ds a n n' le = ground (arith, shorter-lt ds lo a n (numeral-length ds n'))

unbounded_lem :
    (n len : ℕ) (a b : Bool)
    → (a ≡ true → b ≡ true → n ≤ len)
    → ((leb n len && ltb len (n + (n + 1 - n)) && (a && b && true)) || (ltb n len && a && b))
      ≡ (a && b && true)
unbounded_lem n len a b h = ground arith

unbounded_pattern :
    (lo hi : List ℕ)
    → Ends lo hi true
    → (ds : List ℕ) → AreDigits ds
    → accepts_any
        (range_parts (length lo + 1 - length lo) (length lo) lo hi true (more_digits (length lo)))
        ds
      ≡ in_range (value lo) (value hi) true ds
unfolding in_range
unbounded_pattern lo hi ends ds a =
    accepts_any-range_parts lo hi true ends (length lo + 1 - length lo) (length lo)
      (more_digits (length lo)) ds (λ j above below. (above, inl refl)) a
    ∙ rw (longer-numeral (length lo) lo ds ends.low_digits a refl ends.low_numeral) (
        unbounded_lem (length lo) (length ds) (is_numeral ds) (leb (value lo) (value ds))
          (λ n le. no_shorter lo ds a ends.low_numeral n (leb→le _ _ le)))

bounded_lem :
    (n len m : ℕ) (a b c : Bool)
    → (a ≡ true → b ≡ true → n ≤ len)
    → (a ≡ true → c ≡ true → len ≤ m)
    → ((leb n len && ltb len (n + (m + 1 - n)) && (a && b && (false || c))) || false)
      ≡ (a && b && (false || c))
bounded_lem n len m a b c h k = ground arith

bounded_pattern :
    (lo hi : List ℕ)
    → Ends lo hi false
    → (ds : List ℕ) → AreDigits ds
    → accepts_any (range_parts (length hi + 1 - length lo) (length lo) lo hi false nil) ds
      ≡ in_range (value lo) (value hi) false ds
unfolding in_range accepts_any
bounded_pattern lo hi ends ds a =
    accepts_any-range_parts lo hi false ends (length hi + 1 - length lo) (length lo) nil ds
      (λ j above below. (above, inr (omega arith))) a
    ∙ bounded_lem (length lo) (length ds) (length hi) (is_numeral ds) (leb (value lo) (value ds))
        (leb (value ds) (value hi)) (λ n le. no_shorter lo ds a ends.low_numeral n (leb→le _ _ le))
        (λ n le. no_shorter ds hi ends.high_digits n ends.high_numeral (leb→le _ _ le))

pub range_pattern_lem :
    (lo hi : List ℕ) (unbounded : Bool)
    → Ends lo hi unbounded
    → (ds : List ℕ) → AreDigits ds
    → accepts (range_pattern lo hi unbounded) ds ≡ in_range (value lo) (value hi) unbounded ds
unfolding range_pattern
range_pattern_lem lo hi true ends ds a = accepts-joined _ ds ∙ unbounded_pattern lo hi ends ds a
range_pattern_lem lo hi false ends ds a = accepts-joined _ ds ∙ bounded_pattern lo hi ends ds a

pub decimal-Ends :
    (low high : ℕ) (unbounded : Bool)
    → low ≤ high
    → high ≤ uint64_max
    → Ends (decimal 20 low) (decimal 20 high) unbounded
decimal-Ends low high unbounded order word = record {
  low_digits = decimal-AreDigits 20 low;
  high_digits = decimal-AreDigits 20 high;
  low_numeral = is_numeral-decimal 20 low (omega arith) (omega arith);
  high_numeral = is_numeral-decimal 20 high (omega arith) (omega arith);
  in_order = omega (arith, value-decimal 20 low (omega arith), value-decimal 20 high (omega arith));
}

-- For low at most high at most UINT64_MAX, numberRangePattern gives a pattern, and a text of
-- digits matches it whole exactly when it is a numeral, one without a zero too many in front, of
-- a number that is at least low and, unless high is UINT64_MAX, at most high.
pub number_range_pattern-in_range :
    (low high : ℕ)
    → low ≤ high
    → high ≤ uint64_max
    → (p : Pattern) × (number_range_pattern low high ≡ some p)
      × ((ds : List ℕ) → AreDigits ds → accepts p ds ≡ in_range low high (high == uint64_max) ds)
unfolding number_range_pattern
number_range_pattern-in_range low high order word =
    let in_order : ltb high low ≡ false = ground arith in
    let unbounded = high == uint64_max in
    (
      range_pattern (decimal 20 low) (decimal 20 high) unbounded,
      rw in_order,
      λ ds a.
          range_pattern_lem _ _ unbounded (decimal-Ends low high unbounded order word) ds a
          ∙ rw (value-decimal 20 low (omega arith), value-decimal 20 high (omega arith)),
    )
