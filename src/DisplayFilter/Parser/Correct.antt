-- ===== src/DisplayFilter/Parser/Correct.antt =====
-- parseDisplayFilter: what a filter gives.
use log_squirl_tcpdump.Common.{
  ℕ, zero, suc, ◌+◌, ◌-◌, ◌*◌, ◌≤◌, ◌≡◌, ◌≢◌, refl, [], ◌∷◌, length, arith, not,
}
use log_squirl_tcpdump.DisplayFilter.Syntax.{
  Text, ok, failed, past_end, out_of_fuel, FilterError, FilterExpression,
}
use log_squirl_tcpdump.DisplayFilter.Tokens.{Qt, close_type, end_type, tokenize}
use log_squirl_tcpdump.DisplayFilter.Tokens.Positions.{tokenize-Scans}
use log_squirl_tcpdump.DisplayFilter.Tests.{Tokens, same_type}
use log_squirl_tcpdump.DisplayFilter.Tests.Values.{EmptyNumber}
use log_squirl_tcpdump.DisplayFilter.Tests.Sound.{Left, Leaves}
use log_squirl_tcpdump.DisplayFilter.Parser.{
  all_read, max_depth, parse_or, parse_primary, parse, parse_display_filter,
}
use log_squirl_tcpdump.DisplayFilter.Parser.Expressions.{Fits, IsWellFormed, height}
use log_squirl_tcpdump.DisplayFilter.Outcomes.{
  Within, Holds-at, done, refused, Within-if, Within-bind, EndsWell,
}
use log_squirl_tcpdump.DisplayFilter.Parser.Sound.{
  Sound, Sound-zero, or_step, more_or_step, and_step, more_and_step, unary_step, primary_step,
}
use log_squirl_tcpdump.DisplayFilter.Parser.Pieces.{room, Fits-le}

unary_or_none :
    (qt : Qt) (size fuel : ℕ) (depth : ℕ) (tokens : Tokens)
    → Sound qt size fuel
    → EmptyNumber qt
    → depth ≤ max_depth
    → Left size tokens
    → 4 * length tokens + 1 ≤ suc fuel
    → Within size
        (Leaves size (length tokens - 1) (Fits (room depth)))
        (parse_primary qt (suc fuel) depth tokens)
unfolding EndsWell
unary_or_none qt size fuel depth [] sound law d (ends, all) enough = absurd ends
unary_or_none qt size fuel depth (token ∷ tokens) sound law d left enough =
    primary_step qt size fuel sound depth token tokens token.type refl law d left enough

every_fuel-Sound : (qt : Qt) (size fuel : ℕ) → EmptyNumber qt → Sound qt size fuel
every_fuel-Sound qt size zero law = Sound-zero qt size
every_fuel-Sound qt size (suc fuel) law =
    let sound = every_fuel-Sound qt size fuel law in
    record {
      or_sound = or_step qt size fuel sound;
      more_or_sound = more_or_step qt size fuel sound;
      and_sound = and_step qt size fuel sound;
      more_and_sound = more_and_step qt size fuel sound;
      unary_sound = unary_step qt size fuel sound;
      primary_sound = λ depth tokens d left enough.
          unary_or_none qt size fuel depth tokens sound law d left enough;
    }

-- The deepest expression: 64 parentheses with || within each && in each, and the outermost.
abbrev pub deepest : ℕ
deepest = 2 * max_depth + 2

all_read-Fits :
    (size limit : ℕ) (e : FilterExpression) (tokens : Tokens)
    → Fits limit e
    → Left size tokens
    → Within size (Fits limit) (all_read e tokens)
unfolding all_read EndsWell
all_read-Fits size limit e [] fits (ends, all) = absurd ends
all_read-Fits size limit e (next ∷ tokens) fits left =
    Within-if size (Fits limit) (same_type next.type close_type) _ _ (refused left.1.0.within) (
      Within-if size (Fits limit) (not (same_type next.type end_type)) _ _ (refused left.1.0.within)
        (done fits))

parse-Fits :
    (qt : Qt) (size fuel : ℕ) (tokens : Tokens)
    → EmptyNumber qt
    → Left size tokens
    → 4 * length tokens + 4 ≤ fuel
    → Within size (Fits deepest) (parse qt fuel tokens)
unfolding parse EndsWell
parse-Fits qt size fuel [] law (ends, all) enough = absurd ends
parse-Fits qt size fuel (first ∷ tokens) law left enough =
    Within-if size (Fits deepest) (same_type first.type end_type) _ _ (refused (omega arith)) (
      Within-bind size (Leaves size (length (first ∷ tokens) - 1) (Fits (room 0 + 2)))
        (Fits deepest) (parse_or qt fuel 0 (first ∷ tokens)) _
        (let sound = every_fuel-Sound qt size fuel law in
          sound.or_sound 0 (first ∷ tokens) (omega arith) left enough)
        (λ (e, rest) (fits, (left1, fewer)).
          all_read-Fits size deepest e rest (Fits-le _ _ e (omega arith) fits) left1))

parse_display_filter-Fits :
    (qt : Qt) (filter : Text)
    → EmptyNumber qt
    → Within (length filter) (Fits deepest) (parse_display_filter qt filter)
unfolding parse_display_filter
parse_display_filter-Fits qt filter law =
    Within-bind (length filter) (Left (length filter)) (Fits deepest) (tokenize qt filter) _
      (tokenize-Scans qt filter)
      (λ tokens left.
        parse-Fits qt (length filter) (4 * length tokens + 4) tokens law left (omega arith))

-- Where Qt reads no number in the empty text, parseDisplayFilter never runs out of its fuel, and
-- never reads past the last token or past the end of a token's text.
pub parse_display_filter-returns :
    (qt : Qt) (filter : Text)
    → EmptyNumber qt
    → (parse_display_filter qt filter ≢ out_of_fuel) × (parse_display_filter qt filter ≢ past_end)
parse_display_filter-returns qt filter law =
    let within = parse_display_filter-Fits qt filter law in
    (λ e. Holds-at _ _ e within.shown, λ e. Holds-at _ _ e within.shown)

-- Where parseDisplayFilter rejects a filter, and Qt reads no number in the empty text, the
-- position of the error is in the filter or at its end.
pub parse_display_filter-position :
    (qt : Qt) (filter : Text) (error : FilterError)
    → EmptyNumber qt
    → parse_display_filter qt filter ≡ failed error
    → error.position ≤ length filter
parse_display_filter-position qt filter error law e =
    let within = parse_display_filter-Fits qt filter law in Holds-at _ _ e within.shown

-- Where parseDisplayFilter gives an expression, and Qt reads no number in the empty text: each
-- And and Or in it has two operands or more, none of them of the same kind; each test has a
-- number within the bound of its field, an address field is compared with == or != only, and only
-- an IPv4 field has a prefix length, below 32; and the expression is at most 130 levels high.
pub parse_display_filter-IsWellFormed :
    (qt : Qt) (filter : Text) (e : FilterExpression)
    → EmptyNumber qt
    → parse_display_filter qt filter ≡ ok e
    → IsWellFormed e × (height e ≤ 130)
parse_display_filter-IsWellFormed qt filter e law h =
    let within = parse_display_filter-Fits qt filter law in Holds-at _ _ h within.shown
