-- ===== src/Examples/Filters.antt =====
-- Display filters at work, with Qt's functions on ASCII.
use log_squirl_tcpdump.Common.{
  ℕ, ◌+◌, ◌-◌, ◌*◌, ◌≤◌, ◌≡◌, ◌≢◌, refl, List, [], ◌∷◌, leb, ◌==◌, Bool, true, false, ◌&&◌, ◌||◌,
  if◌then◌else◌, map, Option, none, some, arith,
}
use log_squirl_tcpdump.Common.Int.{ℤ, pos}
use log_squirl_tcpdump.DisplayFilter.Syntax.{
  Text, units, FilterExpression, combined, comparison, operand, none_left, kind_and, kind_or, ok,
  failed, past_end, out_of_fuel, expected_prefix, tcp_port, ip_addr, equal, present,
}
use mathlib.Core.Option
use log_squirl_tcpdump.DisplayFilter.Tokens.{Qt, tokenize}
use log_squirl_tcpdump.DisplayFilter.Tokens.Positions.{Scans, tokenize-Scans}
use log_squirl_tcpdump.DisplayFilter.Outcomes.{Within}
use log_squirl_tcpdump.DisplayFilter.Addresses.{
  all_units, is_decimal_digit, parse_ipv4, parse_ipv6, ipv4_text, format_ipv6,
}
use log_squirl_tcpdump.DisplayFilter.Addresses.RoundTrip.{
  decimal_value, ReadsDecimal, parse_ipv4-ipv4_text,
}
use log_squirl_tcpdump.DisplayFilter.Parser.Expressions.{IsWellFormed, height}
use log_squirl_tcpdump.DisplayFilter.Parser.Correct.{
  parse_display_filter-returns, parse_display_filter-position, parse_display_filter-IsWellFormed,
}
use log_squirl_tcpdump.DisplayFilter.Ranges.{Pattern, accepts, number_range_pattern, uint64_max}
use log_squirl_tcpdump.DisplayFilter.Ranges.Order.{AreDigits}
use log_squirl_tcpdump.DisplayFilter.Ranges.Equivalence.{in_range, number_range_pattern-in_range}
use log_squirl_tcpdump.DisplayFilter.Parser.{parse_display_filter}

abbrev is_upper : ℕ → Bool
is_upper c = leb b'A' c && leb c b'Z'

abbrev is_decimal : ℕ → Bool
is_decimal c = leb b'0' c && leb c b'9'

abbrev lowered : ℕ → ℕ
lowered c = if is_upper c then c + 32 else c

abbrev is_lowercase : ℕ → Bool
is_lowercase c = leb b'a' c && leb c b'z'

abbrev number_from : ℕ → ℕ → Text → ℕ
number_from n base [] = n
number_from n base (c ∷ s) =
    number_from
      (n * base + (if leb b'a' c then c - 87 else if leb b'A' c then c - 55 else c - b'0')) base s

abbrev number_or_none : Text → ℕ → Option ℕ
number_or_none [] base = none
number_or_none (c ∷ s) base = some (number_from 0 base (c ∷ s))

abbrev signed_number : Text → Option ℤ
signed_number [] = none
signed_number (c ∷ s) = if is_decimal c then some (pos (number_from 0 10 (c ∷ s))) else none

abbrev pub ascii : Qt
ascii = record {
  is_space = λ c. c == 32;
  is_letter = λ c. is_lowercase (lowered c);
  is_digit = is_decimal;
  is_letter_or_number = λ c. is_lowercase (lowered c) || is_decimal c;
  lower_unit = lowered;
  to_lower = map lowered;
  to_int = signed_number;
  to_uint = λ s base. number_from 0 base s;
  to_ulonglong = number_or_none;
}

digit_value :
    (c : ℕ) (more : Bool)
    → (is_decimal_digit c && more) ≡ true
    → (if leb b'a' c then c - 87 else if leb b'A' c then c - 55 else c - b'0') ≡ c - b'0'
unfolding is_decimal_digit
digit_value c more h = ground arith

rest_digits : (b more : Bool) → (b && more) ≡ true → more ≡ true
rest_digits true more h = h
rest_digits false more h = absurd cc

number_from-decimal_value :
    (n : ℕ) (s : Text)
    → all_units is_decimal_digit s ≡ true
    → number_from n 10 s ≡ decimal_value n s
unfolding all_units is_decimal_digit
number_from-decimal_value n [] h = refl
number_from-decimal_value n (c ∷ s) h =
    rw (digit_value c _ h)
      (number_from-decimal_value (n * 10 + (c - b'0')) s (rest_digits (is_decimal_digit c) _ h))

ascii-ReadsDecimal : ReadsDecimal ascii
ascii-ReadsDecimal s digits some_unit few = number_from-decimal_value 0 s digits

parse_ipv4-ipv4_text_example : parse_ipv4 ascii (ipv4_text 3232235777) ≡ some 3232235777
parse_ipv4-ipv4_text_example =
    parse_ipv4-ipv4_text ascii 3232235777 ascii-ReadsDecimal (omega arith)

ipv4_text_test : ipv4_text 3232235777 ≡ units "192.168.1.1"
unfolding ipv4_text
ipv4_text_test = refl

ipv6_test : Option.map format_ipv6 (parse_ipv6 ascii (units "fe80:0:0:0:1:0:0:192.0.2.1")) ≡ none
unfolding parse_ipv6 format_ipv6
ipv6_test = refl

ipv6_text_test :
    Option.map format_ipv6 (parse_ipv6 ascii (units "FE80::1:0:0:192.0.2.1"))
    ≡ some (units "fe80::1:0:0:c000:201")
unfolding parse_ipv6 format_ipv6
ipv6_text_test = refl

abbrev web_filter : Text
web_filter = units "tcp.port == 443 && (ip or tcp.port==80)"

abbrev web_port : ℕ → FilterExpression
web_port n =
    comparison
      (record { field = tcp_port; op = equal; number = n; address = []; prefix_length = none })

abbrev web_expression : FilterExpression
web_expression = combined kind_and (
    operand (web_port 443) (
      operand
        (combined kind_or (
          operand
            (comparison (record {
              field = ip_addr;
              op = present;
              number = 0;
              address = [];
              prefix_length = none;
            }))
            (operand (web_port 80) none_left)))
        none_left))

web_filter_test : parse_display_filter ascii web_filter ≡ ok web_expression
unfolding parse_display_filter
web_filter_test = refl

prefix_test :
    parse_display_filter ascii (units "!(ip.src==10.1.2.3/40)")
    ≡ failed (record { message = expected_prefix; position = 19 })
unfolding parse_display_filter
prefix_test = refl

tokenize-Scans_example : Within 39 (Scans 39) (tokenize ascii web_filter)
tokenize-Scans_example = tokenize-Scans ascii web_filter

parse_display_filter-returns_example :
    (parse_display_filter ascii web_filter ≢ out_of_fuel)
    × (parse_display_filter ascii web_filter ≢ past_end)
parse_display_filter-returns_example = parse_display_filter-returns ascii web_filter refl

parse_display_filter-position_example : 19 ≤ 22
parse_display_filter-position_example =
    parse_display_filter-position ascii (units "!(ip.src==10.1.2.3/40)")
      (record { message = expected_prefix; position = 19 }) refl prefix_test

parse_display_filter-IsWellFormed_example :
    IsWellFormed web_expression × (height web_expression ≤ 130)
parse_display_filter-IsWellFormed_example =
    parse_display_filter-IsWellFormed ascii web_filter web_expression refl web_filter_test

number_range_pattern-in_range_example :
    (p : Pattern) × (number_range_pattern 80 443 ≡ some p)
    × ((ds : List ℕ) → AreDigits ds → accepts p ds ≡ in_range 80 443 (443 == uint64_max) ds)
number_range_pattern-in_range_example =
    number_range_pattern-in_range 80 443 (omega arith) (omega arith)
