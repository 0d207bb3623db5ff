-- ===== src/DisplayFilter/Parser.antt =====
-- src/display_filter.cpp: the class Parser and parseDisplayFilter. The state is what `next_` leaves of
-- the tokens, and `depth` the parentheses and negations that are open.
pub mod Expressions
pub mod Pieces
pub mod Sound
pub mod Correct
use log_squirl_tcpdump.Common.{
  ℕ, zero, suc, ◌+◌, ◌*◌, ltb, [], ◌∷◌, length, Bool, true, false, not, if◌then◌else◌,
}
use log_squirl_tcpdump.DisplayFilter.Syntax.{
  Text, Combination, kind_and, kind_or, FilterExpression, combined, negation, FilterExpressions,
  none_left, operand, FilterOutcome, ok, past_end, out_of_fuel, ◌>>=◌, throw, type_a_filter,
  closes_nothing, expected_combination, nested_too_deep, expected_close, ends_early, expected_test,
}
use log_squirl_tcpdump.DisplayFilter.Tokens.{
  Qt, word_type, open_type, close_type, not_type, and_type, or_type, end_type, Token, tokenize,
}
use log_squirl_tcpdump.DisplayFilter.Tests.{Tokens, peek, same_type, parse_test}

unfoldable pub followed_by : FilterExpressions → FilterExpressions → FilterExpressions
followed_by none_left es = es
followed_by (operand e ds) es = operand e (followed_by ds es)

unfoldable pub same_kind : Combination → Combination → Bool
same_kind kind_and kind_and = true
same_kind kind_or kind_or = true
same_kind _ _ = false

-- The operands that one operand adds in combine.
unfoldable pub merged : Combination → FilterExpression → FilterExpressions
unfolding same_kind
merged kind (combined k inner) =
    if same_kind k kind then inner else operand (combined k inner) none_left
merged kind e = operand e none_left

unfoldable pub merge_all : Combination → FilterExpressions → FilterExpressions
unfolding merged followed_by
merge_all kind none_left = none_left
merge_all kind (operand e es) = followed_by (merged kind e) (merge_all kind es)

unfoldable pub combine : Combination → FilterExpressions → FilterExpression
unfolding merge_all
combine kind (operand e none_left) = e
combine kind operands = combined kind (merge_all kind operands)

abbrev pub max_depth : ℕ
max_depth = 64

-- Deeper: the depth within the ( or ! at `token`.
unfoldable pub deeper : ℕ → Token → FilterOutcome ℕ
deeper depth token =
    if ltb max_depth (depth + 1) then throw nested_too_deep token.position else ok (depth + 1)

-- The ) that closes the ( at `token`.
unfoldable pub closed_by :
    Token → FilterExpression → Tokens → FilterOutcome (FilterExpression × Tokens)
unfolding same_type
closed_by token e [] = past_end
closed_by token e (next ∷ tokens) =
    if not (same_type next.type close_type)
    then throw (expected_close (token.position + 1)) next.position
    else ok (e, tokens)

-- What parse allows behind the expression.
unfoldable pub all_read : FilterExpression → Tokens → FilterOutcome FilterExpression
unfolding same_type
all_read e [] = past_end
all_read e (next ∷ tokens) =
    if same_type next.type close_type
    then throw closes_nothing next.position
    else if not (same_type next.type end_type)
    then throw expected_combination next.position
    else ok e

module _ (qt : Qt) where
  -- Each call spends one unit of fuel.
  unfoldable mutual
    unfolding same_type combine deeper parse_test closed_by

    pub parse_or : ℕ → ℕ → Tokens → FilterOutcome (FilterExpression × Tokens)
    parse_or zero depth tokens = out_of_fuel
    parse_or (suc fuel) depth tokens = do
      (first, tokens1) ← parse_and fuel depth tokens
      (rest, tokens2) ← more_or fuel depth tokens1
      ok (combine kind_or (operand first rest), tokens2)

    -- The loop of parseOr: the operands behind each || or or.
    pub more_or : ℕ → ℕ → Tokens → FilterOutcome (FilterExpressions × Tokens)
    more_or zero depth tokens = out_of_fuel
    more_or (suc fuel) depth [] = past_end
    more_or (suc fuel) depth (token ∷ tokens) =
        let more = parse_and fuel depth tokens >>= λ (e, tokens1).
        more_or fuel depth tokens1 >>= λ (es, tokens2). ok (operand e es, tokens2) in
        if same_type token.type or_type then more else ok (none_left, token ∷ tokens)

    pub parse_and : ℕ → ℕ → Tokens → FilterOutcome (FilterExpression × Tokens)
    parse_and zero depth tokens = out_of_fuel
    parse_and (suc fuel) depth tokens = do
      (first, tokens1) ← parse_unary fuel depth tokens
      (rest, tokens2) ← more_and fuel depth tokens1
      ok (combine kind_and (operand first rest), tokens2)

    pub more_and : ℕ → ℕ → Tokens → FilterOutcome (FilterExpressions × Tokens)
    more_and zero depth tokens = out_of_fuel
    more_and (suc fuel) depth [] = past_end
    more_and (suc fuel) depth (token ∷ tokens) =
        let more = parse_unary fuel depth tokens >>= λ (e, tokens1).
        more_and fuel depth tokens1 >>= λ (es, tokens2). ok (operand e es, tokens2) in
        if same_type token.type and_type then more else ok (none_left, token ∷ tokens)

    pub parse_unary : ℕ → ℕ → Tokens → FilterOutcome (FilterExpression × Tokens)
    parse_unary zero depth tokens = out_of_fuel
    parse_unary (suc fuel) depth [] = past_end
    parse_unary (suc fuel) depth (token ∷ tokens) =
        let negated = deeper depth token >>= λ depth1.
        parse_unary fuel depth1 tokens >>= λ (e, rest). ok (negation e, rest) in
        let primary = parse_primary fuel depth (token ∷ tokens) in
        if same_type token.type not_type then negated else primary

    pub parse_primary : ℕ → ℕ → Tokens → FilterOutcome (FilterExpression × Tokens)
    parse_primary zero depth tokens = out_of_fuel
    parse_primary (suc fuel) depth [] = past_end
    parse_primary (suc fuel) depth (token ∷ tokens) =
        let inner = deeper depth token >>= λ depth1.
        parse_or fuel depth1 tokens >>= λ (e, rest). closed_by token e rest in
        elim token.type [
          | open_type ↦ inner
          | word_type ↦ parse_test qt token tokens
          | end_type ↦ throw ends_early token.position
          | _ ↦ throw expected_test token.position
        ]

  -- Parser::parse.
  unfoldable pub parse : ℕ → Tokens → FilterOutcome FilterExpression
  unfolding parse_or same_type all_read
  parse fuel tokens = do
    first ← peek tokens
    let parsed = parse_or fuel 0 tokens
    if same_type first.type end_type
        then throw type_a_filter 0
        else (parsed >>= λ (e, rest). all_read e rest)

  -- The result of parseDisplayFilter, which catches a FilterError.
  unfoldable pub parse_display_filter : Text → FilterOutcome FilterExpression
  unfolding tokenize parse
  parse_display_filter filter = do tokens ← tokenize qt filter; parse (4 * length tokens + 4) tokens
