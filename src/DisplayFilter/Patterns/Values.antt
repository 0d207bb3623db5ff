-- ===== src/DisplayFilter/Patterns/Values.antt =====
-- valuesPattern: the numbers that the pattern of a comparison matches are those that it compares with.
use log_squirl_tcpdump.Common.{
  ℕ, zero, suc, ◌+◌, ◌-◌, ◌≤◌, ◌≡◌, refl, ap, sym, ◌∙◌, List, [], ◌∷◌, Bool, true, false, ltb, leb,
  ◌==◌, ==_iff, length, arith, ◌&&◌, ◌||◌, Bool-cases, inl, inr,
}
use log_squirl_tcpdump.DisplayFilter.Syntax.{
  ValueKind, ipv4_value, ipv6_value, port_value, stream_value, length_value, Comparison, info_of,
  maximum_of, FilterOperator, present, equal, not_equal, less_than, greater_than, less_equal,
  greater_equal,
}
use log_squirl_tcpdump.DisplayFilter.Tokens.{Qt}
use log_squirl_tcpdump.DisplayFilter.Tests.{is_address}
use log_squirl_tcpdump.DisplayFilter.Ranges.{
  Pattern, accepts, literal_digits, same_digits, digits_range, decimal, uint64_max, from_text,
  to_text, range_parts, range_pattern, number_range_pattern, joined,
}
use log_squirl_tcpdump.DisplayFilter.Ranges.Order.{AreDigits}
use log_squirl_tcpdump.DisplayFilter.Ranges.Digits.{value, is_numeral, value-decimal}
use log_squirl_tcpdump.DisplayFilter.Ranges.Numbers.{numeral-length}
use log_squirl_tcpdump.DisplayFilter.Ranges.Equivalence.{
  in_range, range_pattern_lem, decimal-Ends, number_range_pattern-in_range,
}
use log_squirl_tcpdump.DisplayFilter.Patterns.{
  ValuesPattern, any_number, number_in, in_pattern, number_values, values_pattern,
}

-- Whether the pattern of a number's values matches a text of digits.
abbrev pub admits : ValuesPattern → List ℕ → Bool
admits any_number ds = ltb 0 (length ds)
admits (number_in p) ds = accepts p ds
admits _ ds = false

-- What a comparison with `n` asks of a value; a field that differs is there first of all.
abbrev pub compares : FilterOperator → ℕ → ℕ → Bool
compares equal v n = v == n
compares less_than v n = ltb v n
compares less_equal v n = leb v n
compares greater_than v n = ltb n v
compares greater_equal v n = leb n v
compares _ v n = true

same_digits_refl : (ds : List ℕ) → same_digits ds ds ≡ true
unfolding same_digits
same_digits_refl [] = refl
same_digits_refl (d ∷ ds) = rw ((==_iff d d).1 refl, same_digits_refl ds)

digits_range-same : (n : ℕ) (ds : List ℕ) → digits_range n ds ds ≡ literal_digits ds
unfolding digits_range
digits_range-same zero ds = refl
digits_range-same (suc n) [] = refl
digits_range-same (suc n) (d ∷ ds) = rw (same_digits_refl (d ∷ ds))

range_pattern-same : (ds : List ℕ) → range_pattern ds ds false ≡ literal_digits ds
unfolding range_pattern range_parts from_text to_text joined
range_pattern-same ds =
    let once : length ds + 1 - length ds ≡ 1 = omega arith in
    let same : (length ds == length ds) ≡ true = (==_iff _ _).1 refl in
    rw (once, same) (digits_range-same (length ds) ds)

within_bound :
    (v high maximum top : ℕ) (a : Bool)
    → high ≤ maximum
    → maximum ≤ top
    → v ≤ maximum
    → (a && ((high == top) || leb v high)) ≡ (a && leb v high)
within_bound v high maximum top a h k b = ground arith

both_ways : (v n : ℕ) → (leb n v && (false || leb v n)) ≡ (v == n)
both_ways v n = ground arith

below : (v n : ℕ) → (n == 0) ≡ false → (leb 0 v && leb v (n - 1)) ≡ ltb v n
below v n h = ground arith

above : (v n maximum : ℕ) → v ≤ maximum → (leb (n + 1) v && leb v maximum) ≡ ltb n v
above v n maximum h = ground arith

module _ (maximum : ℕ) (ds : List ℕ) (word : maximum ≤ uint64_max) (digits : AreDigits ds)
    (numeral : is_numeral ds ≡ true) (bound : value ds ≤ maximum) where
  -- A range that ends within the bound.
  admits-range :
      (low high : ℕ)
      → low ≤ high
      → high ≤ maximum
      → admits (in_pattern (number_range_pattern low high)) ds
        ≡ (leb low (value ds) && leb (value ds) high)
  unfolding in_range
  admits-range low high order top =
      let (p, e, matched) = number_range_pattern-in_range low high order (omega arith) in
      rw (e, matched ds digits, numeral)
        (within_bound (value ds) high maximum uint64_max (leb low (value ds)) top word bound)

  admits-literal :
      (n : ℕ) → n ≤ maximum → admits (number_values equal n maximum) ds ≡ (value ds == n)
  unfolding number_values in_range
  admits-literal n top =
      let ends = decimal-Ends n n false (omega arith) (omega arith) in
      ap (λ (p : Pattern). accepts p ds) (sym (range_pattern-same (decimal 20 n)))
      ∙ range_pattern_lem (decimal 20 n) (decimal 20 n) false ends ds digits
      ∙ rw (value-decimal 20 n (omega arith), numeral) (both_ways (value ds) n)

  admits-less_than :
      (n : ℕ) → n ≤ maximum → admits (number_values less_than n maximum) ds ≡ ltb (value ds) n
  unfolding number_values
  admits-less_than n top = elim (Bool-cases (n == 0)) [
    | inl none_below ↦ rw none_below (ground arith)
    | inr some_below ↦
        rw some_below
          (admits-range 0 (n - 1) (omega arith) (omega arith) ∙ below (value ds) n some_below)
  ]

  admits-greater_than :
      (n : ℕ) → n ≤ maximum → admits (number_values greater_than n maximum) ds ≡ ltb n (value ds)
  unfolding number_values
  admits-greater_than n top = elim (Bool-cases (leb maximum n)) [
    | inl none_above ↦ rw none_above (ground arith)
    | inr some_above ↦ rw some_above (
        admits-range (n + 1) maximum (ground arith) (omega arith)
        ∙ above (value ds) n maximum bound)
  ]

  pub number_values-compares :
      (op : FilterOperator) (n : ℕ)
      → n ≤ maximum
      → admits (number_values op n maximum) ds ≡ compares op (value ds) n
  unfolding number_values
  number_values-compares equal n top = admits-literal n top
  number_values-compares less_than n top = admits-less_than n top
  number_values-compares greater_than n top = admits-greater_than n top
  number_values-compares less_equal n top = admits-range 0 n (omega arith) top ∙ ground arith
  number_values-compares greater_equal n top =
      admits-range n maximum top (omega arith) ∙ ground arith
  number_values-compares present n top = ground (arith, numeral-length ds numeral)
  number_values-compares not_equal n top = ground (arith, numeral-length ds numeral)

maximum_of-le : (kind : ValueKind) → maximum_of kind ≤ uint64_max
unfolding maximum_of
maximum_of-le port_value = omega arith
maximum_of-le ipv4_value = omega arith
maximum_of-le ipv6_value = omega arith
maximum_of-le stream_value = omega arith
maximum_of-le length_value = omega arith

abbrev pub kind_of : Comparison → ValueKind
kind_of c = (info_of c.field).kind

-- Of a comparison of a field that is no address with a number within the field's bound, and a
-- numeral of a value within it: the pattern of valuesPattern matches the numeral exactly when the
-- comparison holds of its value; a field alone and != match any number.
pub values_pattern-compares :
    (qt : Qt) (c : Comparison) (ds : List ℕ)
    → is_address (kind_of c) ≡ false
    → c.number ≤ maximum_of (kind_of c)
    → AreDigits ds
    → is_numeral ds ≡ true
    → value ds ≤ maximum_of (kind_of c)
    → admits (values_pattern qt c) ds ≡ compares c.op (value ds) c.number
unfolding values_pattern
values_pattern-compares qt c ds number top digits numeral bound = rw number (
    number_values-compares (maximum_of (kind_of c)) ds (maximum_of-le (kind_of c)) digits numeral
      bound c.op c.number top)
