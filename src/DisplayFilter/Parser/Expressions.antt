-- ===== src/DisplayFilter/Parser/Expressions.antt =====
-- combine: the expressions that the parser builds, and how deep they are.
use log_squirl_tcpdump.Common.{
  ℕ, suc, ◌+◌, ◌≤◌, ◌≡◌, refl, subst, Bool, true, false, arith, max, Bool-cases, inl, inr,
}
use log_squirl_tcpdump.DisplayFilter.Syntax.{
  Combination, kind_and, kind_or, FilterExpression, combined, negation, comparison, protocol,
  FilterExpressions, none_left, operand,
}
use log_squirl_tcpdump.DisplayFilter.Tests.Values.{IsTest}
use log_squirl_tcpdump.DisplayFilter.Parser.{followed_by, same_kind, merged, merge_all, combine}

unfoldable pub count : FilterExpressions → ℕ
count none_left = 0
count (operand e es) = suc (count es)

unfoldable pub has_kind : Combination → FilterExpression → Bool
unfolding same_kind
has_kind kind (combined k es) = same_kind k kind
has_kind kind _ = false

unfoldable mutual
  -- And and Or have two operands or more, none of the same kind; a test fits its field.
  pub IsWellFormed : FilterExpression → Type 0
  IsWellFormed (combined kind es) = (2 ≤ count es) × AreOperands kind es
  IsWellFormed (negation e) = IsWellFormed e
  IsWellFormed (comparison test) = IsTest test
  IsWellFormed (protocol text) = Unit {0}

  pub AreOperands : Combination → FilterExpressions → Type 0
  AreOperands kind none_left = Unit {0}
  AreOperands kind (operand e es) =
      IsWellFormed e × ((has_kind kind e ≡ false) × AreOperands kind es)

unfoldable mutual
  pub height : FilterExpression → ℕ
  height (combined kind es) = suc (highest es)
  height (negation e) = suc (height e)
  height _ = 0

  pub highest : FilterExpressions → ℕ
  highest none_left = 0
  highest (operand e es) = max (height e) (highest es)

-- A well-formed expression of at most `limit` levels.
abbrev pub Fits : ℕ → FilterExpression → Type 0
Fits limit e = IsWellFormed e × (height e ≤ limit)

abbrev pub AllFit : ℕ → FilterExpressions → Type 0
AllFit limit none_left = Unit {0}
AllFit limit (operand e es) = Fits limit e × AllFit limit es

same_kind-eq : (k l : Combination) → same_kind k l ≡ true → k ≡ l
unfolding same_kind
same_kind-eq kind_and kind_and h = refl
same_kind-eq kind_or kind_or h = refl
same_kind-eq kind_and kind_or h = absurd cc
same_kind-eq kind_or kind_and h = absurd cc

followed_by-AreOperands :
    (kind : Combination) (ds es : FilterExpressions)
    → AreOperands kind ds
    → AreOperands kind es
    → AreOperands kind (followed_by ds es)
unfolding followed_by AreOperands
followed_by-AreOperands kind none_left es h k = k
followed_by-AreOperands kind (operand d ds) es (wf, (other, h)) k =
    (wf, (other, followed_by-AreOperands kind ds es h k))

count-followed_by : (ds es : FilterExpressions) → count (followed_by ds es) ≡ count ds + count es
unfolding followed_by count
count-followed_by none_left es = omega arith
count-followed_by (operand d ds) es = omega (arith, count-followed_by ds es)

highest-followed_by :
    (ds es : FilterExpressions) → highest (followed_by ds es) ≡ max (highest ds) (highest es)
unfolding followed_by highest
highest-followed_by none_left es = omega arith
highest-followed_by (operand d ds) es = omega (arith, highest-followed_by ds es)

-- What one operand adds.
abbrev Adds : Combination → FilterExpression → FilterExpressions → Type 0
Adds kind e es = AreOperands kind es × ((1 ≤ count es) × (highest es ≤ height e))

merged-Adds :
    (kind : Combination) (e : FilterExpression) → IsWellFormed e → Adds kind e (merged kind e)
unfolding merged IsWellFormed AreOperands count highest height has_kind
merged-Adds kind (negation e) wf = ((wf, (refl, tt)), (omega arith, omega arith))
merged-Adds kind (comparison t) wf = ((wf, (refl, tt)), (omega arith, omega arith))
merged-Adds kind (protocol s) wf = ((wf, (refl, tt)), (omega arith, omega arith))
merged-Adds kind (combined k inner) (two, ops) = elim (Bool-cases (same_kind k kind)) [
  | inl same ↦ rw same (
    subst (λ (l : Combination). AreOperands l inner) (same_kind-eq k kind same) ops,
    (omega arith, omega arith),
  )
  | inr other ↦ rw other ((((two, ops), (other, tt)), (omega arith, omega arith)))
]

merge_all-lem :
    (kind : Combination) (limit : ℕ) (es : FilterExpressions)
    → AllFit limit es
    → AreOperands kind (merge_all kind es)
      × ((count es ≤ count (merge_all kind es)) × (highest (merge_all kind es) ≤ limit))
unfolding merge_all AreOperands count highest
merge_all-lem kind limit none_left h = (tt, (omega arith, omega arith))
merge_all-lem kind limit (operand e es) ((wf, low), h) =
    let (ops, (one, high)) = merged-Adds kind e wf in
    let (ops', (more, high')) = merge_all-lem kind limit es h in
    (
      followed_by-AreOperands kind (merged kind e) (merge_all kind es) ops ops',
      (
        omega (arith, count-followed_by (merged kind e) (merge_all kind es)),
        omega (arith, highest-followed_by (merged kind e) (merge_all kind es)),
      ),
    )

-- Operands that fit `limit` combine to an expression of one level more.
pub combine-Fits :
    (kind : Combination) (limit : ℕ) (e : FilterExpression) (es : FilterExpressions)
    → Fits limit e
    → AllFit limit es
    → Fits (limit + 1) (combine kind (operand e es))
unfolding combine IsWellFormed height
combine-Fits kind limit e none_left (wf, low) h = (wf, omega arith)
combine-Fits kind limit e (operand f es) h k =
    let (ops, (more, high)) = merge_all-lem kind limit (operand e (operand f es)) (h, k) in
    unfold count in ((omega arith, ops), omega arith)
