-- ===== src/DisplayFilter/Patterns.antt =====
-- src/display_filter.cpp: the patterns of tests and of filters, as data. The texts of the columns
-- around a field's values are not modelled: a test's pattern is the field with its values.
pub mod Selection
pub mod Values
use log_squirl_tcpdump.Common.{
  ℕ, zero, suc, ◌+◌, ◌-◌, ◌*◌, ◌/◌, ◌^◌, min, ltb, leb, ◌==◌, bit_or, List, [], ◌∷◌, Bool, true,
  false, not, ◌&&◌, ◌||◌, Option, none, some, if◌then◌else◌,
}
use log_squirl_tcpdump.DisplayFilter.Syntax.{
  Text, FilterField, frame_len, FilterOperator, present, equal, not_equal, less_than, greater_than,
  less_equal, greater_equal, ValueKind, ipv4_value, ipv6_value, info_of, maximum_of, Comparison,
  kind_and, kind_or, FilterExpression, combined, negation, comparison, protocol, FilterExpressions,
  none_left, operand,
}
use log_squirl_tcpdump.DisplayFilter.Tokens.{Qt}
use log_squirl_tcpdump.DisplayFilter.Addresses.{split}
use log_squirl_tcpdump.DisplayFilter.Tests.{is_address, is_ipv6_kind, field_alone}
use log_squirl_tcpdump.DisplayFilter.Ranges.{Pattern, literal_digits, decimal, number_range_pattern}

-- The pattern of a field's values: none, `\d+`, digits, any address of a kind, the octets of a network
-- or the text of an address. Those of addresses end in the suffix of a name.
pub data ValuesPattern : Type 0 where
  no_values any_number any_ipv4 any_ipv6 : ValuesPattern
  number_in : Pattern → ValuesPattern
  network_in : List (Option Pattern) → ValuesPattern
  address_is : Text → ValuesPattern

-- The loop of ipv4Pattern from octet `i` on.
unfoldable pub octet_patterns : Qt → ℕ → ℕ → List Text → List (Option Pattern)
unfolding number_range_pattern
octet_patterns qt prefix i [] = []
octet_patterns qt prefix i (octet ∷ octets) =
    let bits = min (prefix - 8 * i) 8 in
    let low = qt.to_uint octet 10 in
    let high = bit_or low (255 / 2 ^ bits) in
    number_range_pattern low high ∷ octet_patterns qt prefix (i + 1) octets

unfoldable pub ipv4_pattern : Qt → Text → Option ℕ → ValuesPattern
unfolding octet_patterns split
ipv4_pattern qt address none = address_is address
ipv4_pattern qt address (some prefix) = network_in (octet_patterns qt prefix 0 (split b'.' address))

-- The pattern of a range: an empty text is no pattern.
abbrev pub in_pattern : Option Pattern → ValuesPattern
in_pattern none = no_values
in_pattern (some p) = number_in p

unfoldable pub number_values : FilterOperator → ℕ → ℕ → ValuesPattern
unfolding number_range_pattern literal_digits decimal
number_values equal n maximum = number_in (literal_digits (decimal 20 n))
number_values less_than n maximum =
    if n == 0 then no_values else in_pattern (number_range_pattern 0 (n - 1))
number_values less_equal n maximum = in_pattern (number_range_pattern 0 n)
number_values greater_than n maximum =
    if leb maximum n then no_values else in_pattern (number_range_pattern (n + 1) maximum)
number_values greater_equal n maximum = in_pattern (number_range_pattern n maximum)
number_values _ n maximum = any_number

unfoldable pub address_values : Qt → Comparison → Bool → ValuesPattern
unfolding ipv4_pattern
address_values qt c is_ipv6 = elim c.op [
  | equal ↦ if is_ipv6 then address_is c.address else ipv4_pattern qt c.address c.prefix_length
  | _ ↦ if is_ipv6 then any_ipv6 else any_ipv4
]

unfoldable pub values_pattern : Qt → Comparison → ValuesPattern
unfolding number_values address_values info_of maximum_of
values_pattern qt c =
    let kind = (info_of c.field).kind in
    if is_address kind
    then address_values qt c (is_ipv6_kind kind)
    else number_values c.op c.number (maximum_of kind)

-- kNever, the columns of a protocol and fieldPattern.
pub data TestPattern : Type 0 where
  never : TestPattern
  protocol_column : Text → TestPattern
  field_has : FilterField → ValuesPattern → TestPattern

abbrev pub field_or_never : FilterField → ValuesPattern → TestPattern
field_or_never field no_values = never
field_or_never field pattern = field_has field pattern

-- Of an expression that is no test, its members as they stand: a frame.len alone.
unfoldable pub test_pattern : Qt → FilterExpression → TestPattern
unfolding values_pattern
test_pattern qt (protocol text) = protocol_column text
test_pattern qt (comparison c) = field_or_never c.field (values_pattern qt c)
test_pattern qt _ = field_or_never frame_len (values_pattern qt (field_alone frame_len))

abbrev pub is_not_equal_op : FilterOperator → Bool
is_not_equal_op not_equal = true
is_not_equal_op _ = false

unfoldable pub is_test : FilterExpression → Bool
is_test (comparison c) = not (is_not_equal_op c.op)
is_test (protocol text) = true
is_test _ = false

-- `packet_ahead` is "(?=" + packetLine() + ")", `ahead` (?=...), `not_ahead` (?!...), and `reads` a
-- test's pattern itself.
mutual
  pub data Assertion : Type 0 where
    packet_ahead : Assertion
    ahead : TestPattern → Assertion
    reads : TestPattern → Assertion
    not_ahead : Assertion → Assertion
    concatenated : Assertions → Assertion
    alternatives : Assertions → Assertion

  pub data Assertions : Type 0 where
    no_more : Assertions
    and_then : Assertion → Assertions → Assertions

abbrev pub with_op : Comparison → FilterOperator → Comparison
with_op c op = record c { op = op }

unfoldable pub test_assertion : Qt → Comparison → Assertion
unfolding test_pattern
test_assertion qt c =
    if is_not_equal_op c.op
    then concatenated (
        and_then (ahead (test_pattern qt (comparison (with_op c present))))
          (and_then (not_ahead (reads (test_pattern qt (comparison (with_op c equal))))) no_more))
    else ahead (test_pattern qt (comparison c))

unfoldable mutual
  unfolding test_assertion test_pattern is_test

  pub assertion : Qt → FilterExpression → Assertion
  assertion qt (combined kind_and es) = concatenated (assertions qt es)
  assertion qt (combined kind_or es) = alternatives (assertions qt es)
  assertion qt (negation e) =
      let inner = assertion qt e in
      not_ahead (if is_test e then reads (test_pattern qt e) else inner)
  assertion qt (comparison c) = test_assertion qt c
  assertion qt (protocol text) = ahead (test_pattern qt (protocol text))

  pub assertions : Qt → FilterExpressions → Assertions
  assertions qt none_left = no_more
  assertions qt (operand e es) = and_then (assertion qt e) (assertions qt es)

unfoldable mutual
  pub selects_packet_lines_only : FilterExpression → Bool
  selects_packet_lines_only (combined kind_and es) = any_selects es
  selects_packet_lines_only (combined kind_or es) = all_select es
  selects_packet_lines_only (negation e) = false
  selects_packet_lines_only _ = true

  pub any_selects : FilterExpressions → Bool
  any_selects none_left = false
  any_selects (operand e es) = selects_packet_lines_only e || any_selects es

  pub all_select : FilterExpressions → Bool
  all_select none_left = true
  all_select (operand e es) = selects_packet_lines_only e && all_select es

-- filterPattern, after the `^`.
unfoldable pub filter_pattern : Qt → FilterExpression → Assertion
unfolding is_test test_pattern assertion selects_packet_lines_only
filter_pattern qt e =
    if is_test e
    then reads (test_pattern qt e)
    else concatenated (
        if selects_packet_lines_only e
        then and_then (assertion qt e) no_more
        else and_then packet_ahead (and_then (assertion qt e) no_more))
