-- ===== src/DisplayFilter/Tests.antt =====
-- src/display_filter.cpp: the tests of the class Parser, parseTest and what it calls. The state is what `next_`
-- leaves of the tokens.
pub mod Values
pub mod Sound
use log_squirl_tcpdump.Common.{
  ℕ, ◌+◌, ◌-◌, ◌*◌, ◌/◌, ◌^◌, ltb, ◌==◌, List, [], ◌∷◌, length, take, drop, Option, none, some,
  Bool, true, false, ◌&&◌, ◌||◌, not, if◌then◌else◌,
}
use log_squirl_tcpdump.Common.Int.{pos, negsuc}
use log_squirl_tcpdump.DisplayFilter.Syntax.{
  Text, units, text_equals, has_unit, FilterField, ip_addr, ipv6_addr, tcp_port, udp_port,
  FilterOperator, present, equal, not_equal, ValueKind, ipv4_value, ipv6_value, FieldInfo,
  field_named, maximum_of, Comparison, FilterExpression, comparison, protocol, FilterOutcome, ok,
  past_end, ◌>>=◌, throw, not_a_test, field_not_supported, protocol_compared, expected_value,
  two_fields, equality_only, prefix_of_ipv4_only, expected_prefix, is_ipv6, is_ipv4, not_ipv4,
  not_ipv6, not_a_number, too_big,
}
use log_squirl_tcpdump.DisplayFilter.Tokens.{
  Qt, TokenType, word_type, open_type, close_type, not_type, and_type, or_type, compare_type,
  end_type, Token,
}
use log_squirl_tcpdump.DisplayFilter.Addresses.{
  parse_ipv4, parse_ipv6, ipv4_text, format_ipv6, is_hex_digit, is_decimal_digit, all_units,
}

-- The state: the tokens from `next_` on.
abbrev pub Tokens : Type 0
Tokens = List Token

abbrev pub peek : Tokens → FilterOutcome Token
peek [] = past_end
peek (token ∷ tokens) = ok token

abbrev pub take_token : Tokens → FilterOutcome (Token × Tokens)
take_token [] = past_end
take_token (token ∷ tokens) = ok (token, tokens)

-- Whether the next token has a type.
unfoldable pub same_type : TokenType → TokenType → Bool
same_type word_type word_type = true
same_type open_type open_type = true
same_type close_type close_type = true
same_type not_type not_type = true
same_type and_type and_type = true
same_type or_type or_type = true
same_type compare_type compare_type = true
same_type end_type end_type = true
same_type _ _ = false

-- `text.indexOf( '/' )`.
unfoldable pub slash_of : Text → Option ℕ
slash_of [] = none
slash_of (c ∷ s) =
    let rest = slash_of s in
    if c == b'/' then some 0 else elim rest [ none ↦ none | some i ↦ some (i + 1) ]

-- The first unit of a text that has one.
abbrev pub front : Text → FilterOutcome ℕ
front [] = past_end
front (c ∷ s) = ok c

abbrev pub has_value {ℓ} : {A : Type ℓ} → Option A → Bool
has_value none = false
has_value (some a) = true

unfoldable pub shorthand : Text → Option FilterField
unfolding text_equals
shorthand s =
    if text_equals s (units "tcp")
    then some tcp_port
    else if text_equals s (units "udp")
    then some udp_port
    else if text_equals s (units "ip")
    then some ip_addr
    else if text_equals s (units "ipv6")
    then some ipv6_addr
    else none

abbrev pub field_alone : FilterField → Comparison
field_alone field = record {
  field = field;
  op = present;
  number = 0;
  address = [];
  prefix_length = none;
}

abbrev pub is_address : ValueKind → Bool
is_address ipv4_value = true
is_address ipv6_value = true
is_address _ = false

abbrev pub is_ipv6_kind : ValueKind → Bool
is_ipv6_kind ipv6_value = true
is_ipv6_kind _ = false

abbrev pub is_equality : FilterOperator → Bool
is_equality equal = true
is_equality not_equal = true
is_equality _ = false

-- The network's address and the prefix length kept: 32 is none, as is no "/".
unfoldable pub network : ℕ → Option ℕ → ℕ × Option ℕ
network address none = (address, none)
network address (some n) =
    if ltb n 32 then (address / 2 ^ (32 - n) * 2 ^ (32 - n), some n) else (address, none)

-- `text.startsWith( "0x", Qt::CaseInsensitive )`.
unfoldable pub starts_hex : Text → Bool
starts_hex (c ∷ d ∷ s) = (c == b'0') && ((d == b'x') || (d == b'X'))
starts_hex _ = false

module _ (qt : Qt) where
  -- The prefix length of a network, `rest` the text after the "/" and `at` its position.
  unfoldable pub prefix_in : Text → ℕ → FilterOutcome ℕ
  prefix_in rest at =
      let no_prefix : FilterOutcome ℕ = throw expected_prefix at in
      elim (qt.to_int rest) [
        | none ↦ no_prefix
        | some (negsuc n) ↦ no_prefix
        | some (pos n) ↦
            if ltb 32 n
            then no_prefix
            else do first ← front rest; if qt.is_digit first then ok n else no_prefix
      ]

  -- The address's text and its prefix length.
  unfoldable pub address_and_prefix : ValueKind → Token → FilterOutcome (Text × Option ℕ)
  unfolding slash_of prefix_in
  address_and_prefix kind value = elim (slash_of value.text) [
    | none ↦ ok (value.text, none)
    | some slash ↦
        if is_ipv6_kind kind then throw prefix_of_ipv4_only (value.position + slash) else do
          n ← prefix_in (drop (slash + 1) value.text) (value.position + slash + 1)
          ok (take slash value.text, some n)
  ]

  unfoldable pub parse_address : Comparison → FieldInfo → Token → FilterOutcome Comparison
  unfolding address_and_prefix parse_ipv4 parse_ipv6 network ipv4_text format_ipv6
  parse_address test info value = do
    (text, prefix) ← address_and_prefix info.kind value
    let ipv4 = parse_ipv4 qt text
    let ipv6 : Option (List ℕ) = elim ipv4 [ some address ↦ none | none ↦ parse_ipv6 qt text ]
    if is_ipv6_kind info.kind
        then elim ipv6 [
          | none ↦
              throw (if has_value ipv4 then is_ipv4 text (drop 5 info.name) else not_ipv6 text)
                value.position
          | some bytes ↦ ok (record test { address = format_ipv6 bytes })
        ]
        else elim ipv4 [
          | none ↦
              throw (if has_value ipv6 then is_ipv6 text (drop 3 info.name) else not_ipv4 text)
                value.position
          | some address ↦
              let (masked, kept) = network address prefix in
              ok (record test { address = ipv4_text masked; prefix_length = kept })
        ]

  -- The number of a text, decimal or after 0x hexadecimal.
  unfoldable pub number_of : Text → Option ℕ
  unfolding starts_hex all_units is_hex_digit is_decimal_digit
  number_of text =
      let hex = starts_hex text in
      let digits = if hex then drop 2 text else text in
      if (length digits == 0)
        || not (all_units (if hex then is_hex_digit qt else is_decimal_digit) digits)
      then none
      else qt.to_ulonglong digits (if hex then 16 else 10)

  unfoldable pub parse_number : Comparison → FieldInfo → Token → FilterOutcome Comparison
  unfolding number_of maximum_of
  parse_number test info value = elim (number_of value.text) [
    | none ↦ throw (not_a_number value.text) value.position
    | some number ↦
        if ltb (maximum_of info.kind) number
        then throw (too_big value.text) value.position
        else ok (record test { number = number })
  ]

  -- The value of a comparison, with `test` its operator.
  unfoldable pub parse_value : Comparison → FieldInfo → Token → FilterOutcome Comparison
  unfolding parse_address parse_number
  parse_value test info value =
      if is_address info.kind then parse_address test info value else parse_number test info value

  unfoldable pub parse_comparison :
      Comparison → FieldInfo → Tokens → FilterOutcome (Comparison × Tokens)
  unfolding same_type field_named parse_value
  parse_comparison test info tokens = do
    (op, tokens1) ← take_token tokens
    (value, tokens2) ← take_token tokens1
    let compared = parse_value (record test { op = op.op }) info value
    if not (same_type value.type word_type)
        then throw (expected_value op.text) value.position
        else if has_value (field_named (qt.to_lower value.text))
        then throw two_fields value.position
        else if is_address info.kind && not (is_equality op.op)
        then throw (equality_only info.name) op.position
        else (compared >>= λ test'. ok (test', tokens2))

  -- The test of a field, alone or compared.
  unfoldable pub field_test : FieldInfo → Tokens → FilterOutcome (FilterExpression × Tokens)
  unfolding same_type parse_comparison
  field_test info tokens = do
    next ← peek tokens
    let compared = parse_comparison (field_alone info.field) info tokens
    if same_type next.type compare_type
        then (compared >>= λ (test, rest). ok (comparison test, rest))
        else ok (comparison (field_alone info.field), tokens)

  -- The test of a shorthand or a protocol, which is not compared.
  unfoldable pub name_test : Text → Text → Tokens → FilterOutcome (FilterExpression × Tokens)
  unfolding same_type shorthand
  name_test text lower tokens = do
    next ← peek tokens
    let test : FilterExpression = elim (shorthand lower) [
      | some field ↦ comparison (field_alone field)
      | none ↦ protocol text
    ]
    if same_type next.type compare_type
        then throw (protocol_compared text) next.position
        else ok (test, tokens)

  -- A field alone or compared, or a protocol's name.
  unfoldable pub parse_test : Token → Tokens → FilterOutcome (FilterExpression × Tokens)
  unfolding has_unit field_named field_test name_test
  parse_test token tokens = do
    first ← front token.text
    let lower = qt.to_lower token.text
    if not (qt.is_letter first)
        then throw (not_a_test token.text) token.position
        else if has_unit b'.' lower
        then elim (field_named lower) [
          | none ↦ throw (field_not_supported token.text) token.position
          | some info ↦ field_test info tokens
        ]
        else name_test token.text lower tokens
