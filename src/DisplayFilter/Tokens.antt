-- ===== src/DisplayFilter/Tokens.antt =====
-- src/display_filter.cpp: the tokenizer. What it asks Qt of characters and texts is the record `Qt`.
pub mod Positions
use log_squirl_tcpdump.Common.{
  ℕ, zero, suc, ◌+◌, ◌-◌, ltb, ◌==◌, List, [], ◌∷◌, length, take, drop, Option, none, some, Bool,
  ◌&&◌, ◌||◌, not, if◌then◌else◌,
}
use log_squirl_tcpdump.Common.Int.{ℤ}
use log_squirl_tcpdump.DisplayFilter.Syntax.{
  Text, units, text_equals, has_text, FilterOperator, equal, not_equal, less_than, greater_than,
  less_equal, greater_equal, present, FilterOutcome, ok, ◌>>=◌, throw, strict_not_equal,
  single_equal, strict_equal, single_and, single_or, no_strings, no_slices, no_sets, not_supported,
  not_part, word_not_supported, xor_not_supported,
}

-- QChar::isSpace, isLetter, isDigit, isLetterOrNumber and toLower, QString::toLower, toInt,
-- toUInt and toULongLong.
pub record Qt : Type 0 where
  pub is_space : ℕ → Bool
  pub is_letter : ℕ → Bool
  pub is_digit : ℕ → Bool
  pub is_letter_or_number : ℕ → Bool
  pub lower_unit : ℕ → ℕ
  pub to_lower : Text → Text
  pub to_int : Text → Option ℤ
  pub to_uint : Text → ℕ → ℕ
  pub to_ulonglong : Text → ℕ → Option ℕ

pub data TokenType : Type 0 where
  word_type open_type close_type not_type and_type or_type compare_type end_type : TokenType

pub record Token : Type 0 where
  pub type : TokenType
  pub text : Text
  pub position : ℕ
  pub op : FilterOperator

abbrev pub token_at : ℕ → TokenType → Text → FilterOperator → Token
token_at position type text op = record { type = type; text = text; position = position; op = op }

-- The first unit of what is left, and of nothing QChar().
unfoldable pub unit_at : Text → ℕ
unit_at [] = 0
unit_at (c ∷ s) = c

-- What the scan of one token gives: the token and the units that it takes.
abbrev Scanned : Type 0
Scanned = FilterOutcome (Token × ℕ)

module _ (qt : Qt) where
  unfoldable pub is_word_character : ℕ → Bool
  is_word_character c =
      (ltb c 128 && qt.is_letter_or_number c)
      || (c == b'_')
      || (c == b'.')
      || (c == b':')
      || (c == b'-')
      || (c == b'/')

  unfoldable pub word_of : Text → Text
  unfolding is_word_character
  word_of [] = []
  word_of (c ∷ s) = let rest = word_of s in if is_word_character c then c ∷ rest else []

abbrev pub unsupported_operators : List Text
unsupported_operators =
    units "contains"
    ∷ units "matches"
    ∷ units "in"
    ∷ units "bitand"
    ∷ units "any"
    ∷ units "all"
    ∷ []

-- The operator of a comparison written as a word.
unfoldable pub comparison_op : Text → Option FilterOperator
unfolding text_equals
comparison_op s =
    if text_equals s (units "eq")
    then some equal
    else if text_equals s (units "ne")
    then some not_equal
    else if text_equals s (units "lt")
    then some less_than
    else if text_equals s (units "gt")
    then some greater_than
    else if text_equals s (units "le")
    then some less_equal
    else if text_equals s (units "ge")
    then some greater_equal
    else none

-- The token of a word, `lower` the word in lower case.
unfoldable pub token_of_word : ℕ → Text → Text → FilterOutcome Token
unfolding comparison_op has_text text_equals
token_of_word i text lower =
    if text_equals lower (units "and")
    then ok (token_at i and_type text present)
    else if text_equals lower (units "or")
    then ok (token_at i or_type text present)
    else if text_equals lower (units "not")
    then ok (token_at i not_type text present)
    else elim (comparison_op lower) [
      | some op ↦ ok (token_at i compare_type text op)
      | none ↦
          if has_text lower unsupported_operators
          then throw (word_not_supported lower) i
          else if text_equals lower (units "xor")
          then throw (xor_not_supported lower) i
          else ok (token_at i word_type text present)
    ]

-- `<`, `>`, `<=` and `>=`.
unfoldable pub order_token : ℕ → ℕ → Text → Token × ℕ
unfolding unit_at
order_token i c rest =
    let or_equal = unit_at rest == b'=' in
    let op =
      if c == b'<'
      then if or_equal then less_equal else less_than
      else if or_equal
      then greater_equal
      else greater_than in
    let size = if or_equal then 2 else 1 in
    (token_at i compare_type (take size (c ∷ rest)) op, size)

module _ (qt : Qt) where
  unfoldable pub scan_word : ℕ → Text → Scanned
  unfolding token_of_word
  scan_word i text = do token ← token_of_word i text (qt.to_lower text); ok (token, length text)

  -- One round of tokenize's loop, at the unit `c` at `i` that is no space.
  unfoldable pub scan : ℕ → ℕ → Text → Scanned
  unfolding unit_at order_token scan_word is_word_character word_of
  scan i c rest =
      let next = unit_at rest in
      let after = unit_at (drop 1 rest) in
      if (c == b'(') || (c == b')')
      then ok (token_at i (if c == b'(' then open_type else close_type) (c ∷ []) present, 1)
      else if (c == b'!') && (next == b'=')
      then if after == b'='
        then throw strict_not_equal i
        else ok (token_at i compare_type (units "!=") not_equal, 2)
      else if c == b'!'
      then ok (token_at i not_type (c ∷ []) present, 1)
      else if c == b'='
      then if not (next == b'=')
        then throw single_equal i
        else if after == b'='
        then throw strict_equal i
        else ok (token_at i compare_type (units "==") equal, 2)
      else if (c == b'<') || (c == b'>')
      then ok (order_token i c rest)
      else if (c == b'&') || (c == b'|')
      then if not (next == c)
        then throw (if c == b'&' then single_and else single_or) i
        else ok
            (token_at i (if c == b'&' then and_type else or_type) (take 2 (c ∷ rest)) present, 2)
      else if (c == 34) || (c == 39)
      then throw no_strings i
      else if c == b'['
      then throw no_slices i
      else if c == b'{'
      then throw no_sets i
      else if (c == b'~') || (c == b'^')
      then throw (not_supported c) i
      else if is_word_character qt c
      then scan_word i (word_of qt (c ∷ rest))
      else throw (not_part c) i

  -- The loop, at `i`; `skip` units there belong to the last token.
  unfoldable pub tokens_from : ℕ → ℕ → Text → FilterOutcome (List Token)
  unfolding scan
  tokens_from i skip [] = ok (token_at i end_type [] present ∷ [])
  tokens_from i (suc skip) (c ∷ rest) = tokens_from (i + 1) skip rest
  tokens_from i zero (c ∷ rest) =
      let without = tokens_from (i + 1) zero rest in
      if qt.is_space c then without else do
        (token, size) ← scan i c rest
        tokens ← tokens_from (i + 1) (size - 1) rest
        ok (token ∷ tokens)

  unfoldable pub tokenize : Text → FilterOutcome (List Token)
  unfolding tokens_from
  tokenize filter = tokens_from 0 0 filter
