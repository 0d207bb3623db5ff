-- ===== src/Examples/Patterns.antt =====
-- Patterns of display filters, on lines that are a packet's or not and show one number.
use log_squirl_tcpdump.Common.{ℕ, ◌≡◌, refl, [], ◌∷◌, Bool, true, false, ◌&&◌, none, arith}
use log_squirl_tcpdump.DisplayFilter.Syntax.{
  FilterExpression, combined, negation, comparison, Comparison, operand, none_left, kind_or,
  tcp_port, less_than, not_equal, FilterOperator, info_of, maximum_of,
}
use log_squirl_tcpdump.DisplayFilter.Ranges.{decimal, accepts}
use log_squirl_tcpdump.DisplayFilter.Ranges.Digits.{value, is_numeral}
use log_squirl_tcpdump.DisplayFilter.Patterns.{
  TestPattern, never, protocol_column, field_has, filter_pattern, values_pattern, test_pattern,
}
use log_squirl_tcpdump.DisplayFilter.Patterns.Selection.{selects, chooses, filter_pattern-chooses}
use log_squirl_tcpdump.DisplayFilter.Patterns.Values.{admits, compares, values_pattern-compares}
use log_squirl_tcpdump.Examples.Filters.{ascii}

abbrev Line : Type 0
Line = Bool × ℕ

abbrev shows : TestPattern → Line → Bool
shows (field_has field pattern) (a_packet, n) = a_packet && admits pattern (decimal 20 n)
shows never line = false
shows (protocol_column text) line = false

abbrev packet_line : Line → Bool
packet_line (a_packet, n) = a_packet

shows-packet_line : (p : TestPattern) (line : Line) → shows p line ≡ true → packet_line line ≡ true
shows-packet_line (field_has field pattern) (true, n) h = refl
shows-packet_line (field_has field pattern) (false, n) h = absurd cc
shows-packet_line never line h = absurd cc
shows-packet_line (protocol_column text) line h = absurd cc

abbrev port : FilterOperator → ℕ → Comparison
port op n = record { field = tcp_port; op = op; number = n; address = []; prefix_length = none }

-- `tcp.port < 80 or !(tcp.port != 443)`.
abbrev port_filter : FilterExpression
port_filter = combined kind_or (
    operand (comparison (port less_than 80))
      (operand (negation (comparison (port not_equal 443))) none_left))

port_test : chooses shows packet_line ascii port_filter (true, 443) ≡ true
unfolding chooses decimal values_pattern test_pattern accepts
port_test = refl

filter_pattern-chooses_example :
    selects shows packet_line (filter_pattern ascii port_filter) (true, 443)
    ≡ (packet_line (true, 443) && chooses shows packet_line ascii port_filter (true, 443))
filter_pattern-chooses_example =
    filter_pattern-chooses shows packet_line ascii shows-packet_line port_filter (true, 443)

values_pattern-compares_example :
    admits (values_pattern ascii (port less_than 443)) (8 ∷ 0 ∷ [])
    ≡ compares less_than (value (8 ∷ 0 ∷ [])) 443
unfolding info_of maximum_of
values_pattern-compares_example =
    values_pattern-compares ascii (port less_than 443) (8 ∷ 0 ∷ []) refl (omega arith)
      (omega arith, (omega arith, tt)) (unfold is_numeral in refl) (unfold value in omega arith)
