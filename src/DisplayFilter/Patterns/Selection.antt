-- ===== src/DisplayFilter/Patterns/Selection.antt =====
-- filterPattern: the lines that the pattern selects are the packet lines that the expression chooses.
use log_squirl_tcpdump.Common.{
  ◌≡◌, refl, ap, sym, ◌∙◌, Bool, true, false, not, ◌&&◌, ◌||◌, Bool-cases, inl, inr, if◌then◌else◌,
}
use log_squirl_tcpdump.DisplayFilter.Syntax.{
  present, equal, Comparison, kind_and, kind_or, FilterExpression, combined, negation, comparison,
  protocol, FilterExpressions, none_left, operand,
}
use log_squirl_tcpdump.DisplayFilter.Tokens.{Qt}
use log_squirl_tcpdump.DisplayFilter.Patterns.{
  TestPattern, test_pattern, is_not_equal_op, is_test, Assertion, Assertions, packet_ahead, ahead,
  reads, not_ahead, concatenated, alternatives, no_more, and_then, with_op, test_assertion,
  assertion, assertions, selects_packet_lines_only, any_selects, all_select, filter_pattern,
}

if_not : (b x y : Bool) → not b ≡ true → (if b then x else y) ≡ y
if_not true x y h = absurd cc
if_not false x y h = refl

left_of : (a b : Bool) → (a && b) ≡ true → a ≡ true
left_of true b h = refl
left_of false b h = absurd cc

right_of : (a b : Bool) → (a && b) ≡ true → b ≡ true
right_of true b h = h
right_of false b h = absurd cc

right_or : (a b : Bool) → a ≡ false → (a || b) ≡ true → b ≡ true
right_or true b e h = absurd cc
right_or false b e h = h

and_true_of : (a : Bool) → (a && true) ≡ a
and_true_of true = refl
and_true_of false = refl

implies_and : (a b : Bool) → (b ≡ true → a ≡ true) → b ≡ (a && b)
implies_and true b h = refl
implies_and false true h = sym (h refl)
implies_and false false h = refl

-- The regular expressions at work: which lines a test's pattern matches from their start, and which
-- are packet lines.
module _ {ℓ} {Line : Type ℓ} (matches : TestPattern → Line → Bool) (packet_line : Line → Bool) where
  unfoldable mutual
    pub selects : Assertion → Line → Bool
    selects packet_ahead line = packet_line line
    selects (ahead p) line = matches p line
    selects (reads p) line = matches p line
    selects (not_ahead a) line = not (selects a line)
    selects (concatenated as_) line = selects_all as_ line
    selects (alternatives as_) line = selects_any as_ line

    pub selects_all : Assertions → Line → Bool
    selects_all no_more line = true
    selects_all (and_then a as_) line = selects a line && selects_all as_ line

    pub selects_any : Assertions → Line → Bool
    selects_any no_more line = false
    selects_any (and_then a as_) line = selects a line || selects_any as_ line

  select_test :
      (b : Bool) (p q t : TestPattern) (line : Line)
      → selects
          (if b
            then concatenated (and_then (ahead p) (and_then (not_ahead (reads q)) no_more))
            else ahead t)
          line
        ≡ (if b then matches p line && not (matches q line) else matches t line)
  unfolding selects
  select_test true p q t line = ap (◌&&◌ (matches p line)) (and_true_of _)
  select_test false p q t line = refl

  module _ (qt : Qt) where
    -- A test: a field that differs is there, and does not have the value.
    unfoldable pub meets : Comparison → Line → Bool
    meets c line =
        if is_not_equal_op c.op
        then matches (test_pattern qt (comparison (with_op c present))) line
          && not (matches (test_pattern qt (comparison (with_op c equal))) line)
        else matches (test_pattern qt (comparison c)) line

    -- What an expression chooses: all, any or not of what its operands choose.
    unfoldable mutual
      unfolding meets

      pub chooses : FilterExpression → Line → Bool
      chooses (combined kind_and es) line = chooses_all es line
      chooses (combined kind_or es) line = chooses_any es line
      chooses (negation e) line = not (chooses e line)
      chooses (comparison c) line = meets c line
      chooses (protocol text) line = matches (test_pattern qt (protocol text)) line

      pub chooses_all : FilterExpressions → Line → Bool
      chooses_all none_left line = true
      chooses_all (operand e es) line = chooses e line && chooses_all es line

      pub chooses_any : FilterExpressions → Line → Bool
      chooses_any none_left line = false
      chooses_any (operand e es) line = chooses e line || chooses_any es line

    test-chooses :
        (e : FilterExpression) (line : Line)
        → is_test e ≡ true
        → matches (test_pattern qt e) line ≡ chooses e line
    unfolding is_test chooses
    test-chooses (comparison c) line h = sym (if_not _ _ _ h)
    test-chooses (protocol text) line h = refl
    test-chooses (combined k es) line h = absurd cc
    test-chooses (negation e) line h = absurd cc

    test_assertion-meets :
        (c : Comparison) (line : Line) → selects (test_assertion qt c) line ≡ meets c line
    unfolding test_assertion meets selects
    test_assertion-meets c line = select_test (is_not_equal_op c.op) _ _ _ line

    negated-chooses :
        (e : FilterExpression) (line : Line)
        → selects (assertion qt e) line ≡ chooses e line
        → selects (if is_test e then reads (test_pattern qt e) else assertion qt e) line
          ≡ chooses e line
    unfolding selects
    negated-chooses e line h = elim (Bool-cases (is_test e)) [
      | inl a_test ↦ rw a_test (test-chooses e line a_test)
      | inr other ↦ rw other h
    ]

    mutual
      unfolding assertion selects chooses

      assertion-chooses :
          (e : FilterExpression) (line : Line) → selects (assertion qt e) line ≡ chooses e line
      assertion-chooses (combined kind_and es) line = assertions-chooses_all es line
      assertion-chooses (combined kind_or es) line = assertions-chooses_any es line
      assertion-chooses (negation e) line =
          ap not (negated-chooses e line (assertion-chooses e line))
      assertion-chooses (comparison c) line = test_assertion-meets c line
      assertion-chooses (protocol text) line = refl

      assertions-chooses_all :
          (es : FilterExpressions) (line : Line)
          → selects_all (assertions qt es) line ≡ chooses_all es line
      assertions-chooses_all none_left line = refl
      assertions-chooses_all (operand e es) line =
          rw (assertion-chooses e line, assertions-chooses_all es line)

      assertions-chooses_any :
          (es : FilterExpressions) (line : Line)
          → selects_any (assertions qt es) line ≡ chooses_any es line
      assertions-chooses_any none_left line = refl
      assertions-chooses_any (operand e es) line =
          rw (assertion-chooses e line, assertions-chooses_any es line)

    module _
        (on_packets : (p : TestPattern) (line : Line)
          → matches p line ≡ true
          → packet_line line ≡ true) where
      meets-packet_line :
          (c : Comparison) (line : Line) → meets c line ≡ true → packet_line line ≡ true
      unfolding meets
      meets-packet_line c line h = elim (Bool-cases (is_not_equal_op c.op)) [
        | inl differs ↦ on_packets _ line (left_of _ _ (rw differs at h))
        | inr other ↦ on_packets _ line (rw other at h)
      ]

      mutual
        unfolding selects_packet_lines_only chooses

        chooses-packet_line :
            (e : FilterExpression) (line : Line)
            → selects_packet_lines_only e ≡ true
            → chooses e line ≡ true
            → packet_line line ≡ true
        chooses-packet_line (combined kind_and es) line only h =
            any_selects-packet_line es line only h
        chooses-packet_line (combined kind_or es) line only h =
            all_select-packet_line es line only h
        chooses-packet_line (negation e) line only h = absurd cc
        chooses-packet_line (comparison c) line only h = meets-packet_line c line h
        chooses-packet_line (protocol text) line only h = on_packets _ line h

        any_selects-packet_line :
            (es : FilterExpressions) (line : Line)
            → any_selects es ≡ true
            → chooses_all es line ≡ true
            → packet_line line ≡ true
        any_selects-packet_line none_left line only h = absurd cc
        any_selects-packet_line (operand e es) line only h =
            elim (Bool-cases (selects_packet_lines_only e)) [
              | inl this ↦ chooses-packet_line e line this (left_of _ _ h)
              | inr other ↦
                  any_selects-packet_line es line (right_or _ _ other only) (right_of _ _ h)
            ]

        all_select-packet_line :
            (es : FilterExpressions) (line : Line)
            → all_select es ≡ true
            → chooses_any es line ≡ true
            → packet_line line ≡ true
        all_select-packet_line none_left line only h = absurd cc
        all_select-packet_line (operand e es) line only h = elim (Bool-cases (chooses e line)) [
          | inl this ↦ chooses-packet_line e line (left_of _ _ only) this
          | inr other ↦ all_select-packet_line es line (right_of _ _ only) (right_or _ _ other h)
        ]

      chooses_only :
          (e : FilterExpression) (line : Line)
          → selects_packet_lines_only e ≡ true
          → chooses e line ≡ (packet_line line && chooses e line)
      chooses_only e line only = implies_and _ _ (chooses-packet_line e line only)

      test_only : (e : FilterExpression) → is_test e ≡ true → selects_packet_lines_only e ≡ true
      unfolding is_test selects_packet_lines_only
      test_only (combined k es) h = absurd cc
      test_only (negation e) h = absurd cc
      test_only (comparison c) h = refl
      test_only (protocol text) h = refl

      -- Where each test's pattern matches packet lines only, filterPattern's pattern selects
      -- exactly the packet lines that the expression chooses: And all, Or any and Not not what
      -- the operands choose, and a comparison with != the lines that the field's presence matches
      -- and the comparison with == does not.
      pub filter_pattern-chooses :
          (e : FilterExpression) (line : Line)
          → selects (filter_pattern qt e) line ≡ (packet_line line && chooses e line)
      unfolding filter_pattern selects
      filter_pattern-chooses e line = elim (Bool-cases (is_test e)) [
        | inl a_test ↦
            rw a_test (test-chooses e line a_test ∙ chooses_only e line (test_only e a_test))
        | inr other ↦ elim (Bool-cases (selects_packet_lines_only e)) [
          | inl only ↦
              rw (other, only, assertion-chooses e line) (and_true_of _ ∙ chooses_only e line only)
          | inr any ↦
              rw (other, any, assertion-chooses e line)
                (ap (◌&&◌ (packet_line line)) (and_true_of _))
        ]
      ]
