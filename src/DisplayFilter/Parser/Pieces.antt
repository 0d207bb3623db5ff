-- ===== src/DisplayFilter/Parser/Pieces.antt =====
-- The parts of the recursive descent: depth, the ) that closes, and the room for expressions.
use log_squirl_tcpdump.Common.{
  ℕ, suc, ◌+◌, ◌-◌, ◌*◌, ◌≤◌, ◌<◌, ◌≡◌, refl, [], ◌∷◌, length, true, false, arith, not, ltb, ltb→le,
}
use log_squirl_tcpdump.DisplayFilter.Syntax.{
  FilterExpression, combined, negation, comparison, protocol,
}
use log_squirl_tcpdump.DisplayFilter.Tokens.{
  Token, TokenType, word_type, open_type, close_type, not_type, and_type, or_type, compare_type,
  end_type,
}
use log_squirl_tcpdump.DisplayFilter.Tests.{Tokens, same_type}
use log_squirl_tcpdump.DisplayFilter.Tests.Sound.{
  Left, Left-tail, Leaves, IsTestExpression, not-false,
}
use log_squirl_tcpdump.DisplayFilter.Parser.{deeper, closed_by, max_depth}
use log_squirl_tcpdump.DisplayFilter.Parser.Expressions.{Fits, IsWellFormed, height}
use log_squirl_tcpdump.DisplayFilter.Outcomes.{Within, done, refused, Within-test, EndsWell}

-- The levels that the parentheses and negations left allow for.
abbrev pub room : ℕ → ℕ
room depth = 2 * (max_depth - depth)

pub Left-pos : (size : ℕ) (tokens : Tokens) → Left size tokens → 0 < length tokens
unfolding EndsWell
Left-pos size [] (ends, all) = absurd ends
Left-pos size (token ∷ tokens) left = omega arith

pub not_end :
    (type one : TokenType)
    → same_type one end_type ≡ false
    → same_type type one ≡ true
    → same_type type end_type ≡ false
unfolding same_type
not_end word_type one h k = refl
not_end open_type one h k = refl
not_end close_type one h k = refl
not_end not_type one h k = refl
not_end and_type one h k = refl
not_end or_type one h k = refl
not_end compare_type one h k = refl
not_end end_type end_type h k = absurd cc
not_end end_type word_type h k = absurd cc
not_end end_type open_type h k = absurd cc
not_end end_type close_type h k = absurd cc
not_end end_type not_type h k = absurd cc
not_end end_type and_type h k = absurd cc
not_end end_type or_type h k = absurd cc
not_end end_type compare_type h k = absurd cc

pub Fits-le : (a b : ℕ) (e : FilterExpression) → a ≤ b → Fits a e → Fits b e
Fits-le a b e le (wf, low) = (wf, omega arith)

-- The depth within one more parenthesis or negation.
abbrev pub Deeper : ℕ → ℕ → Type 0
Deeper depth depth1 = (depth1 ≡ depth + 1) × (depth1 ≤ max_depth)

pub deeper-Deeper :
    (size depth : ℕ) (token : Token)
    → token.position ≤ size
    → Within size (Deeper depth) (deeper depth token)
unfolding deeper
deeper-Deeper size depth token le =
    Within-test size (Deeper depth) (ltb max_depth (depth + 1)) _ _ (λ _. refused le)
      (λ within. done (refl, ltb→le _ _ within))

pub closed_by-Leaves :
    (size limit : ℕ) (token : Token) (e : FilterExpression) (tokens : Tokens)
    → Fits limit e
    → Left size tokens
    → Within size (Leaves size (length tokens) (Fits limit)) (closed_by token e tokens)
unfolding closed_by EndsWell
closed_by-Leaves size limit token e [] fits (ends, all) = absurd ends
closed_by-Leaves size limit token e (next ∷ tokens) fits left =
    Within-test size (Leaves size (length (next ∷ tokens)) (Fits limit))
      (not (same_type next.type close_type)) _ _ (λ _. refused left.1.0.within)
      (λ closes. done (
        fits,
        (
          Left-tail next tokens
              (not_end _ close_type (unfold same_type in refl) (not-false _ closes)) left,
          omega arith,
        ),
      ))

pub negation-Fits : (a b : ℕ) (e : FilterExpression) → suc a ≤ b → Fits a e → Fits b (negation e)
unfolding IsWellFormed height
negation-Fits a b e le (wf, low) = (wf, omega arith)

pub IsTestExpression-Fits : (limit : ℕ) (e : FilterExpression) → IsTestExpression e → Fits limit e
unfolding IsWellFormed height
IsTestExpression-Fits limit (comparison test) h = (h, omega arith)
IsTestExpression-Fits limit (protocol text) h = (tt, omega arith)
IsTestExpression-Fits limit (combined kind es) h = absurd h
IsTestExpression-Fits limit (negation e) h = absurd h
