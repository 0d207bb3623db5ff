-- ===== src/DisplayFilter/Tests/Sound.antt =====
-- parseTest: a test that fits its field, and of the tokens those behind it.
use log_squirl_tcpdump.Common.{
  ℕ, ◌+◌, ◌≤◌, ◌<◌, ◌≡◌, refl, subst, Bool-cases, some_injective, List, [], ◌∷◌, length, All, Bool,
  true, false, inl, inr, arith, Option, none, some, not, ◌&&◌,
}
use log_squirl_tcpdump.DisplayFilter.Syntax.{
  Text, FieldInfo, FilterField, FilterOperator, FilterExpression, comparison, protocol, field_named,
  named_in, filter_fields, info_of, has_unit, text_equals,
}
use log_squirl_tcpdump.DisplayFilter.Tokens.{
  Qt, Token, TokenType, word_type, open_type, close_type, not_type, and_type, or_type, compare_type,
  end_type,
}
use log_squirl_tcpdump.DisplayFilter.Tests.{
  Tokens, shorthand, front, parse_value, parse_comparison, field_test, name_test, parse_test,
  is_address, is_equality, has_value, field_alone, same_type,
}
use log_squirl_tcpdump.DisplayFilter.Tests.Values.{
  IsTest, Known, EmptyNumber, tested, parse_address-IsTest, parse_number-IsTest,
}
use log_squirl_tcpdump.DisplayFilter.Outcomes.{
  Within, done, refused, Within-if, Within-test, Within-option, Within-bind, InFilter, EndsWell,
  EndsWell-tail,
}

word_not_end :
    (type : TokenType) → not (same_type type word_type) ≡ false → same_type type end_type ≡ false
unfolding same_type
word_not_end word_type h = refl
word_not_end open_type h = absurd cc
word_not_end close_type h = absurd cc
word_not_end not_type h = absurd cc
word_not_end and_type h = absurd cc
word_not_end or_type h = absurd cc
word_not_end compare_type h = absurd cc
word_not_end end_type h = absurd cc

pub not-false : (b : Bool) → not b ≡ false → b ≡ true
not-false true h = refl
not-false false h = absurd cc

equality_of : (a e : Bool) → a ≡ true → (a && not e) ≡ false → e ≡ true
equality_of true e h k = not-false e k
equality_of false e h k = absurd cc

parse_value-IsTest :
    (qt : Qt) (size : ℕ) (info : FieldInfo) (value : Token)
    → (op : FilterOperator) → EmptyNumber qt
    → Known info
    → (is_address info.kind && not (is_equality op)) ≡ false
    → value.position + length value.text ≤ size
    → Within size IsTest (parse_value qt (tested info op) info value)
unfolding parse_value
parse_value-IsTest qt size info value op law known fits le =
    Within-test size IsTest (is_address info.kind) _ _
      (λ addr.
        parse_address-IsTest qt size info op value law known addr (equality_of _ _ addr fits) le)
      (λ addr. parse_number-IsTest qt size info op value known addr (omega arith))

-- The tokens that are left: of the filter, the end among them.
abbrev pub Left : ℕ → List Token → Type 0
Left size tokens = EndsWell tokens × All (InFilter size) tokens

pub Left-tail :
    {size : ℕ} (token : Token) (tokens : List Token)
    → same_type token.type end_type ≡ false
    → Left size (token ∷ tokens)
    → Left size tokens
Left-tail token tokens h (ends, all) = (EndsWell-tail token tokens h ends, all.1)

-- A result with a property, and what it leaves of `tokens`.
abbrev pub Leaves {ℓ} : {A : Type ℓ} → ℕ → ℕ → (A → Type 0) → A × List Token → Type 0
Leaves size most P (a, rest) = P a × (Left size rest × (length rest ≤ most))

parse_comparison-Leaves :
    (qt : Qt) (size : ℕ) (info : FieldInfo) (op : Token) (tokens : Tokens)
    → EmptyNumber qt
    → Known info
    → same_type op.type compare_type ≡ true
    → Left size (op ∷ tokens)
    → Within size
        (Leaves size (length tokens) IsTest)
        (parse_comparison qt (field_alone info.field) info (op ∷ tokens))
unfolding parse_comparison EndsWell same_type
parse_comparison-Leaves qt size info op [] law known compare (ends, all) = absurd cc
parse_comparison-Leaves qt size info op (value ∷ rest) law known compare
      (ends, (op_in, (value_in, all))) =
    let L = Leaves size (length (value ∷ rest)) IsTest in
    Within-test size L (not (same_type value.type word_type)) _ _ (λ _. refused value_in.within)
      (λ a_word.
        let left : Left size rest =
          Left-tail value rest (word_not_end value.type a_word) (ends, (value_in, all)) in
        Within-if size L (has_value (field_named (qt.to_lower value.text))) _ _
          (refused value_in.within)
          (Within-test size L (is_address info.kind && not (is_equality op.op)) _ _
            (λ _. refused op_in.within)
            (λ fits.
              Within-bind size IsTest L (parse_value qt (tested info op.op) info value) _
                (parse_value-IsTest qt size info value op.op law known fits
                  (value_in.word_in (not-false _ a_word)).1)
                (λ test is_test. done (is_test, (left, omega arith))))))

-- A test's expression: a comparison that fits its field, or a protocol.
abbrev pub IsTestExpression : FilterExpression → Type 0
IsTestExpression (comparison test) = IsTest test
IsTestExpression (protocol text) = Unit {0}
IsTestExpression _ = ⊥

field_alone-IsTest : (field : FilterField) → IsTest (field_alone field)
field_alone-IsTest field = record {
  in_bounds = omega arith;
  operator_fits = λ _. inl refl;
  prefix_short = λ n e. absurd cc;
}

field_test-Leaves :
    (qt : Qt) (size : ℕ) (info : FieldInfo) (tokens : Tokens)
    → EmptyNumber qt
    → Known info
    → Left size tokens
    → Within size (Leaves size (length tokens) IsTestExpression) (field_test qt info tokens)
unfolding field_test EndsWell
field_test-Leaves qt size info [] law known (ends, all) = absurd ends
field_test-Leaves qt size info (next ∷ tokens) law known left =
    let L = Leaves size (length (next ∷ tokens)) IsTestExpression in
    Within-test size L (same_type next.type compare_type) _ _
      (λ compared.
        Within-bind size (Leaves size (length tokens) IsTest) L
          (parse_comparison qt (field_alone info.field) info (next ∷ tokens)) _
          (parse_comparison-Leaves qt size info next tokens law known compared left)
          (λ (test, rest) (is_test, (left', fewer)). done (is_test, (left', omega arith))))
      (λ _. done (field_alone-IsTest info.field, (left, omega arith)))

name_expression :
    (o : Option FilterField) (text : Text)
    → IsTestExpression (elim o as (λ _. FilterExpression) [
      | some field ↦ comparison (field_alone field)
      | none ↦ protocol text
    ])
name_expression none text = tt
name_expression (some field) text = field_alone-IsTest field

name_test-Leaves :
    (qt : Qt) (size : ℕ) (text lower : Text) (tokens : Tokens)
    → Left size tokens
    → Within size (Leaves size (length tokens) IsTestExpression) (name_test qt text lower tokens)
unfolding name_test EndsWell
name_test-Leaves qt size text lower [] (ends, all) = absurd ends
name_test-Leaves qt size text lower (next ∷ tokens) left =
    let L = Leaves size (length (next ∷ tokens)) IsTestExpression in
    Within-if size L (same_type next.type compare_type) _ _ (refused left.1.0.within)
      (done (name_expression (shorthand lower) text, (left, omega arith)))

named_in-all :
    (P : FieldInfo → Type 0) (infos : List FieldInfo) (name : Text) (info : FieldInfo)
    → All P infos
    → named_in infos name ≡ some info
    → P info
unfolding named_in
named_in-all P [] name info all e = cc
named_in-all P (i ∷ infos) name info (p, ps) e = elim (Bool-cases (text_equals name i.name)) [
  | inl same ↦ subst P (some_injective (rw same at e)) p
  | inr other ↦ named_in-all P infos name info ps (rw other at e)
]

field_named-Known : (name : Text) (info : FieldInfo) → field_named name ≡ some info → Known info
unfolding field_named info_of
field_named-Known name info e =
    named_in-all Known filter_fields name info
      (
        refl,
        (
          refl,
          (
            refl,
            (
              refl,
              (
                refl,
                (refl, (refl, (refl, (refl, (refl, (refl, (refl, (refl, (refl, (refl, tt)))))))))),
              ),
            ),
          ),
        ),
      )
      e

front-ok : (size : ℕ) (text : Text) → 0 < length text → Within size (λ _. Unit {0}) (front text)
front-ok size [] h = absurd (omega arith)
front-ok size (c ∷ text) h = done tt

pub parse_test-Leaves :
    (qt : Qt) (size : ℕ) (token : Token) (tokens : Tokens)
    → EmptyNumber qt
    → InFilter size token
    → same_type token.type word_type ≡ true
    → Left size tokens
    → Within size (Leaves size (length tokens) IsTestExpression) (parse_test qt token tokens)
unfolding parse_test
parse_test-Leaves qt size token tokens law here a_word left =
    let L = Leaves size (length tokens) IsTestExpression in
    Within-bind size (λ _. Unit {0}) L (front token.text) _
      (front-ok size token.text (here.word_in a_word).0)
      (λ first _. Within-if size L (not (qt.is_letter first)) _ _ (refused here.within) (
        Within-if size L (has_unit b'.' (qt.to_lower token.text)) _ _
          (Within-option size L (field_named (qt.to_lower token.text)) _ _ (refused here.within)
            (λ info e.
              field_test-Leaves qt size info tokens law
                (field_named-Known (qt.to_lower token.text) info e) left))
          (name_test-Leaves qt size token.text (qt.to_lower token.text) tokens left)))
