-- ===== src/DisplayFilter/Parser/Sound.antt =====
-- The recursive descent: enough fuel, no read past the tokens, well-formed expressions that are not
-- too deep, and errors at a place in the filter.
use log_squirl_tcpdump.Common.{ℕ, suc, ◌+◌, ◌-◌, ◌*◌, ◌≤◌, ◌≡◌, refl, [], ◌∷◌, length, true, arith}
use log_squirl_tcpdump.DisplayFilter.Syntax.{kind_and, kind_or}
use log_squirl_tcpdump.DisplayFilter.Tokens.{
  Qt, Token, TokenType, word_type, open_type, close_type, not_type, and_type, or_type, compare_type,
  end_type,
}
use log_squirl_tcpdump.DisplayFilter.Tests.{Tokens, same_type, parse_test}
use log_squirl_tcpdump.DisplayFilter.Tests.Values.{EmptyNumber}
use log_squirl_tcpdump.DisplayFilter.Tests.Sound.{
  Left, Left-tail, Leaves, IsTestExpression, parse_test-Leaves,
}
use log_squirl_tcpdump.DisplayFilter.Parser.{
  deeper, closed_by, max_depth, parse_or, more_or, parse_and, more_and, parse_unary, parse_primary,
}
use log_squirl_tcpdump.DisplayFilter.Parser.Expressions.{Fits, AllFit, combine-Fits}
use log_squirl_tcpdump.DisplayFilter.Outcomes.{
  Within, done, refused, Within-test, Within-bind, Within-map, EndsWell,
}
use log_squirl_tcpdump.DisplayFilter.Parser.Pieces.{
  room, Left-pos, not_end, Fits-le, Deeper, deeper-Deeper, closed_by-Leaves, negation-Fits,
  IsTestExpression-Fits,
}

-- The results with fuel: what each function needs, leaves and makes.
pub record Sound (qt : Qt) (size fuel : ℕ) : Type 0 where
  pub or_sound :
      (depth : ℕ) (tokens : Tokens)
      → depth ≤ max_depth
      → Left size tokens
      → 4 * length tokens + 4 ≤ fuel
      → Within size
          (Leaves size (length tokens - 1) (Fits (room depth + 2)))
          (parse_or qt fuel depth tokens)
  pub more_or_sound :
      (depth : ℕ) (tokens : Tokens)
      → depth ≤ max_depth
      → Left size tokens
      → 4 * length tokens ≤ fuel
      → Within size
          (Leaves size (length tokens) (AllFit (room depth + 1)))
          (more_or qt fuel depth tokens)
  pub and_sound :
      (depth : ℕ) (tokens : Tokens)
      → depth ≤ max_depth
      → Left size tokens
      → 4 * length tokens + 3 ≤ fuel
      → Within size
          (Leaves size (length tokens - 1) (Fits (room depth + 1)))
          (parse_and qt fuel depth tokens)
  pub more_and_sound :
      (depth : ℕ) (tokens : Tokens)
      → depth ≤ max_depth
      → Left size tokens
      → 4 * length tokens ≤ fuel
      → Within size
          (Leaves size (length tokens) (AllFit (room depth)))
          (more_and qt fuel depth tokens)
  pub unary_sound :
      (depth : ℕ) (tokens : Tokens)
      → depth ≤ max_depth
      → Left size tokens
      → 4 * length tokens + 2 ≤ fuel
      → Within size
          (Leaves size (length tokens - 1) (Fits (room depth)))
          (parse_unary qt fuel depth tokens)
  pub primary_sound :
      (depth : ℕ) (tokens : Tokens)
      → depth ≤ max_depth
      → Left size tokens
      → 4 * length tokens + 1 ≤ fuel
      → Within size
          (Leaves size (length tokens - 1) (Fits (room depth)))
          (parse_primary qt fuel depth tokens)

pub Sound-zero : (qt : Qt) (size : ℕ) → Sound qt size 0
Sound-zero qt size = record {
  or_sound = λ depth tokens d left fuel. absurd (omega arith);
  more_or_sound = λ depth tokens d left fuel. absurd (omega (arith, Left-pos size tokens left));
  and_sound = λ depth tokens d left fuel. absurd (omega arith);
  more_and_sound = λ depth tokens d left fuel. absurd (omega (arith, Left-pos size tokens left));
  unary_sound = λ depth tokens d left fuel. absurd (omega arith);
  primary_sound = λ depth tokens d left fuel. absurd (omega arith);
}

module _ (qt : Qt) (size fuel : ℕ) (sound : Sound qt size fuel) where
  pub or_step :
      (depth : ℕ) (tokens : Tokens)
      → depth ≤ max_depth
      → Left size tokens
      → 4 * length tokens + 4 ≤ suc fuel
      → Within size
          (Leaves size (length tokens - 1) (Fits (room depth + 2)))
          (parse_or qt (suc fuel) depth tokens)
  unfolding parse_or
  or_step depth tokens d left enough =
      let L = Leaves size (length tokens - 1) (Fits (room depth + 2)) in
      Within-bind size (Leaves size (length tokens - 1) (Fits (room depth + 1))) L
        (parse_and qt fuel depth tokens) _ (sound.and_sound depth tokens d left (omega arith))
        (λ (first, tokens1) (fits, (left1, fewer)).
          Within-bind size (Leaves size (length tokens1) (AllFit (room depth + 1))) L
            (more_or qt fuel depth tokens1) _
            (sound.more_or_sound depth tokens1 d left1 (omega (arith, Left-pos size tokens left)))
            (λ (rest, tokens2) (all, (left2, fewer2)). done (
              Fits-le _ _ _ (omega arith)
                  (combine-Fits kind_or (room depth + 1) first rest fits all),
              (left2, omega arith),
            )))

  pub and_step :
      (depth : ℕ) (tokens : Tokens)
      → depth ≤ max_depth
      → Left size tokens
      → 4 * length tokens + 3 ≤ suc fuel
      → Within size
          (Leaves size (length tokens - 1) (Fits (room depth + 1)))
          (parse_and qt (suc fuel) depth tokens)
  unfolding parse_and
  and_step depth tokens d left enough =
      let L = Leaves size (length tokens - 1) (Fits (room depth + 1)) in
      Within-bind size (Leaves size (length tokens - 1) (Fits (room depth))) L
        (parse_unary qt fuel depth tokens) _ (sound.unary_sound depth tokens d left (omega arith))
        (λ (first, tokens1) (fits, (left1, fewer)).
          Within-bind size (Leaves size (length tokens1) (AllFit (room depth))) L
            (more_and qt fuel depth tokens1) _
            (sound.more_and_sound depth tokens1 d left1 (omega (arith, Left-pos size tokens left)))
            (λ (rest, tokens2) (all, (left2, fewer2)).
              done (combine-Fits kind_and (room depth) first rest fits all, (left2, omega arith))))

  pub more_or_step :
      (depth : ℕ) (tokens : Tokens)
      → depth ≤ max_depth
      → Left size tokens
      → 4 * length tokens ≤ suc fuel
      → Within size
          (Leaves size (length tokens) (AllFit (room depth + 1)))
          (more_or qt (suc fuel) depth tokens)
  unfolding more_or EndsWell
  more_or_step depth [] d (ends, all) enough = absurd ends
  more_or_step depth (token ∷ tokens) d left enough =
      let L = Leaves size (length (token ∷ tokens)) (AllFit (room depth + 1)) in
      Within-test size L (same_type token.type or_type) _ _
        (λ an_or.
          let left' : Left size tokens =
            Left-tail token tokens (not_end _ or_type (unfold same_type in refl) an_or) left in
          Within-bind size (Leaves size (length tokens - 1) (Fits (room depth + 1))) L
            (parse_and qt fuel depth tokens) _ (sound.and_sound depth tokens d left' (omega arith))
            (λ (e, tokens1) (fits, (left1, fewer)).
              Within-bind size (Leaves size (length tokens1) (AllFit (room depth + 1))) L
                (more_or qt fuel depth tokens1) _
                (sound.more_or_sound depth tokens1 d left1 (omega arith))
                (λ (es, tokens2) (all, (left2, fewer2)). done ((fits, all), (left2, omega arith)))))
        (λ _. done (tt, (left, omega arith)))

  pub more_and_step :
      (depth : ℕ) (tokens : Tokens)
      → depth ≤ max_depth
      → Left size tokens
      → 4 * length tokens ≤ suc fuel
      → Within size
          (Leaves size (length tokens) (AllFit (room depth)))
          (more_and qt (suc fuel) depth tokens)
  unfolding more_and EndsWell
  more_and_step depth [] d (ends, all) enough = absurd ends
  more_and_step depth (token ∷ tokens) d left enough =
      let L = Leaves size (length (token ∷ tokens)) (AllFit (room depth)) in
      Within-test size L (same_type token.type and_type) _ _
        (λ an_and.
          let left' : Left size tokens =
            Left-tail token tokens (not_end _ and_type (unfold same_type in refl) an_and) left in
          Within-bind size (Leaves size (length tokens - 1) (Fits (room depth))) L
            (parse_unary qt fuel depth tokens) _
            (sound.unary_sound depth tokens d left' (omega arith))
            (λ (e, tokens1) (fits, (left1, fewer)).
              Within-bind size (Leaves size (length tokens1) (AllFit (room depth))) L
                (more_and qt fuel depth tokens1) _
                (sound.more_and_sound depth tokens1 d left1 (omega arith))
                (λ (es, tokens2) (all, (left2, fewer2)). done ((fits, all), (left2, omega arith)))))
        (λ _. done (tt, (left, omega arith)))

  pub unary_step :
      (depth : ℕ) (tokens : Tokens)
      → depth ≤ max_depth
      → Left size tokens
      → 4 * length tokens + 2 ≤ suc fuel
      → Within size
          (Leaves size (length tokens - 1) (Fits (room depth)))
          (parse_unary qt (suc fuel) depth tokens)
  unfolding parse_unary EndsWell
  unary_step depth [] d (ends, all) enough = absurd ends
  unary_step depth (token ∷ tokens) d left enough =
      let L = Leaves size (length (token ∷ tokens) - 1) (Fits (room depth)) in
      Within-test size L (same_type token.type not_type) _ _
        (λ a_not.
          let left' : Left size tokens =
            Left-tail token tokens (not_end _ not_type (unfold same_type in refl) a_not) left in
          Within-bind size (Deeper depth) L (deeper depth token) _
            (deeper-Deeper size depth token left.1.0.within)
            (λ depth1 (one, within).
              Within-bind size (Leaves size (length tokens - 1) (Fits (room depth1))) L
                (parse_unary qt fuel depth1 tokens) _
                (sound.unary_sound depth1 tokens within left' (omega arith))
                (λ (e, rest) (fits, (left1, fewer)).
                  done (negation-Fits _ _ e (omega arith) fits, (left1, omega arith)))))
        (λ _. sound.primary_sound depth (token ∷ tokens) d left (omega arith))

  pub primary_step :
      (depth : ℕ) (token : Token) (tokens : Tokens) (type : TokenType)
      → token.type ≡ type
      → EmptyNumber qt
      → depth ≤ max_depth
      → Left size (token ∷ tokens)
      → 4 * length (token ∷ tokens) + 1 ≤ suc fuel
      → Within size
          (Leaves size (length (token ∷ tokens) - 1) (Fits (room depth)))
          (parse_primary qt (suc fuel) depth (token ∷ tokens))
  unfolding parse_primary
  primary_step depth token tokens open_type e law d left enough =
      let L = Leaves size (length (token ∷ tokens) - 1) (Fits (room depth)) in
      let left' : Left size tokens =
        Left-tail token tokens
          (not_end _ open_type (unfold same_type in refl) (unfold same_type in rw e)) left in
      rw e (
        Within-bind size (Deeper depth) L (deeper depth token) _
          (deeper-Deeper size depth token left.1.0.within)
          (λ depth1 (one, within).
            Within-bind size (Leaves size (length tokens - 1) (Fits (room depth1 + 2))) L
              (parse_or qt fuel depth1 tokens) _
              (sound.or_sound depth1 tokens within left' (omega arith))
              (λ (e, rest) (fits, (left1, fewer)).
                Within-map size (Leaves size (length rest) (Fits (room depth1 + 2))) L
                  (closed_by token e rest) (closed_by-Leaves size _ token e rest fits left1)
                  (λ (e', rest') (fits', (left2, fewer2)).
                    (Fits-le _ _ e' (omega arith) fits', (left2, omega arith))))))
  primary_step depth token tokens word_type e law d left enough =
      let L = Leaves size (length (token ∷ tokens) - 1) (Fits (room depth)) in
      let a_word : same_type token.type word_type ≡ true = unfold same_type in rw e in
      let left' : Left size tokens =
        Left-tail token tokens (not_end _ word_type (unfold same_type in refl) a_word) left in
      rw e (
        Within-map size (Leaves size (length tokens) IsTestExpression) L
          (parse_test qt token tokens)
          (parse_test-Leaves qt size token tokens law left.1.0 a_word left')
          (λ (e', rest) (is_test, (left1, fewer)).
            (IsTestExpression-Fits _ e' is_test, (left1, omega arith))))
  primary_step depth token tokens end_type e law d left enough = rw e (refused left.1.0.within)
  primary_step depth token tokens close_type e law d left enough = rw e (refused left.1.0.within)
  primary_step depth token tokens not_type e law d left enough = rw e (refused left.1.0.within)
  primary_step depth token tokens and_type e law d left enough = rw e (refused left.1.0.within)
  primary_step depth token tokens or_type e law d left enough = rw e (refused left.1.0.within)
  primary_step depth token tokens compare_type e law d left enough = rw e (refused left.1.0.within)
