-- ===== src/DisplayFilter/Addresses.antt =====
-- src/display_filter.cpp: parseIpv4, parseIpv6 and ipv4Text, with formatIpv4 and formatIpv6 of
-- src/wire_bytes.h. An IPv4 address is its 32 bits, an IPv6 address its 16 bytes.
pub mod RoundTrip
use log_squirl_tcpdump.Common.{
  ℕ, zero, suc, ◌+◌, ◌-◌, ◌*◌, ◌/◌, ◌%◌, ◌^◌, max, ltb, leb, ◌==◌, List, [], ◌∷◌, ◌++◌, length,
  take, drop, Option, none, some, Bool, true, false, ◌&&◌, ◌||◌, not, if◌then◌else◌,
}
use mathlib.Core.Option
use log_squirl_tcpdump.DisplayFilter.Syntax.{Text, units, has_unit}
use log_squirl_tcpdump.DisplayFilter.Tokens.{Qt, unit_at}

infixl 5 ◌>>=◌
abbrev ◌>>=◌ {ℓ κ} : {A : Type ℓ} {B : Type κ} → Option A → (A → Option B) → Option B
some a >>= f = f a
none >>= f = none

unfoldable pub in_front : ℕ → List Text → List Text
in_front c [] = (c ∷ []) ∷ []
in_front c (part ∷ parts) = (c ∷ part) ∷ parts

-- `QString::split`, by one unit.
unfoldable pub split : ℕ → Text → List Text
unfolding in_front
split sep [] = [] ∷ []
split sep (c ∷ s) = let parts = split sep s in if c == sep then [] ∷ parts else in_front c parts

unfoldable pub all_units : (ℕ → Bool) → Text → Bool
all_units test [] = true
all_units test (c ∷ s) = test c && all_units test s

unfoldable pub is_decimal_digit : ℕ → Bool
is_decimal_digit c = not (ltb c b'0' || ltb b'9' c)

-- The loop of parseIpv4, with the address of the parts before.
unfoldable pub octets_from : Qt → ℕ → List Text → Option ℕ
unfolding all_units is_decimal_digit
octets_from qt address [] = some address
octets_from qt address (part ∷ parts) =
    let octet = qt.to_uint part 10 in
    let rest = octets_from qt (((address * 2 ^ 8) % 2 ^ 32) + octet) parts in
    if (length part == 0) || ltb 3 (length part) || not (all_units is_decimal_digit part)
    then none
    else if ltb 255 octet
    then none
    else rest

unfoldable pub parse_ipv4 : Qt → Text → Option ℕ
unfolding split octets_from
parse_ipv4 qt text =
    let parts = split b'.' text in if not (length parts == 4) then none else octets_from qt 0 parts

unfoldable pub is_hex_digit : Qt → ℕ → Bool
is_hex_digit qt c =
    let lower = qt.lower_unit c in
    (leb b'0' lower && leb lower b'9') || (leb b'a' lower && leb lower b'f')

-- The groups of one item of the split, as parseIpv6Groups adds them.
unfoldable pub item_groups : Qt → Text → Bool → Option (List ℕ)
unfolding parse_ipv4 is_hex_digit has_unit all_units
item_groups qt item may_be_ipv4 =
    if may_be_ipv4 && has_unit b'.' item
    then Option.map (λ address. (address / 2 ^ 16) ∷ (address % 2 ^ 16) ∷ []) (parse_ipv4 qt item)
    else if (length item == 0) || ltb 4 (length item) || not (all_units (is_hex_digit qt) item)
    then none
    else some ((qt.to_uint item 16 % 2 ^ 16) ∷ [])

is_last : List Text → Bool
is_last [] = true
is_last (item ∷ items) = false

unfoldable pub groups_of : Qt → List Text → Bool → Option (List ℕ)
unfolding item_groups is_last
groups_of qt [] ipv4_last = some []
groups_of qt (item ∷ items) ipv4_last = do
  here ← item_groups qt item (ipv4_last && is_last items)
  rest ← groups_of qt items ipv4_last
  some (here ++ rest)

unfoldable pub parse_ipv6_groups : Qt → Text → Bool → Option (List ℕ)
unfolding groups_of split
parse_ipv6_groups qt part ipv4_last =
    if length part == 0 then some [] else groups_of qt (split b':' part) ipv4_last

-- The first "::" of a text.
unfoldable pub gap_of : Text → Option ℕ
unfolding unit_at
gap_of [] = none
gap_of (c ∷ s) =
    let rest = gap_of s in
    if (c == b':') && (unit_at s == b':') then some 0 else Option.map (λ i. i + 1) rest

unfoldable pub zero_groups : ℕ → List ℕ
zero_groups zero = []
zero_groups (suc n) = 0 ∷ zero_groups n

-- The eight groups of both sides of the "::", or of an address without one.
unfoldable pub ipv6_groups : Qt → Text → Option (List ℕ)
unfolding gap_of parse_ipv6_groups zero_groups
ipv6_groups qt text = elim (gap_of text) [
  | none ↦ do
    head ← parse_ipv6_groups qt text true
    if not (length head == 8) then none else some head
  | some gap ↦ elim (gap_of (drop (gap + 1) text)) [
    | some again ↦ none
    | none ↦ do
      head ← parse_ipv6_groups qt (take gap text) false
      tail ← parse_ipv6_groups qt (drop (gap + 2) text) true
      if ltb 7 (length head + length tail)
          then none
          else some (head ++ (zero_groups (8 - (length head + length tail)) ++ tail))
  ]
]

unfoldable pub address_bytes : List ℕ → List ℕ
address_bytes [] = []
address_bytes (group ∷ groups) = (group / 2 ^ 8) ∷ (group % 2 ^ 8) ∷ address_bytes groups

unfoldable pub parse_ipv6 : Qt → Text → Option (List ℕ)
unfolding ipv6_groups address_bytes
parse_ipv6 qt text = Option.map address_bytes (ipv6_groups qt text)

-- One byte of formatIpv4.
unfoldable pub octet_text : ℕ → Text
octet_text v =
    (if leb 100 v then (b'0' + v / 100) ∷ [] else [])
    ++ ((if leb 10 v then (b'0' + (v / 10) % 10) ∷ [] else []) ++ ((b'0' + v % 10) ∷ []))

unfoldable pub format_ipv4 : List ℕ → Text
unfolding octet_text
format_ipv4 [] = []
format_ipv4 (v ∷ []) = octet_text v
format_ipv4 (v ∷ w ∷ vs) = octet_text v ++ (b'.' ∷ format_ipv4 (w ∷ vs))

unfoldable pub ipv4_text : ℕ → Text
unfolding format_ipv4
ipv4_text address = format_ipv4 (
    (address / 2 ^ 24 % 2 ^ 8)
    ∷ (address / 2 ^ 16 % 2 ^ 8)
    ∷ (address / 2 ^ 8 % 2 ^ 8)
    ∷ (address % 2 ^ 8)
    ∷ [])

-- readBE16, of each pair of bytes.
unfoldable pub be16_groups : List ℕ → List ℕ
be16_groups (high ∷ low ∷ bytes) = (high * 2 ^ 8 + low) ∷ be16_groups bytes
be16_groups _ = []

unfoldable pub leading_zeros : List ℕ → ℕ
leading_zeros [] = 0
leading_zeros (group ∷ groups) =
    let rest = leading_zeros groups in if group == 0 then suc rest else 0

-- The first loop of formatIpv6 from group `i` on: where the longest run of zero groups starts and
-- its length. `skip` groups belong to the run that the loop saw last.
unfoldable pub longest_run : ℕ → ℕ → List ℕ → Option ℕ → ℕ → Option ℕ × ℕ
unfolding leading_zeros
longest_run i skip [] start size = (start, size)
longest_run i (suc skip) (group ∷ groups) start size = longest_run (i + 1) skip groups start size
longest_run i zero (group ∷ groups) start size =
    let zeros = leading_zeros (group ∷ groups) in
    let more_digits = ltb size zeros in
    longest_run (i + 1) (max zeros 1 - 1) groups (if more_digits then some i else start)
      (if more_digits then zeros else size)

unfoldable pub hex_digit : ℕ → ℕ
hex_digit v = if ltb v 10 then b'0' + v else b'a' + (v - 10)

-- `%x` of a number of 16 bits.
unfoldable pub hex_text : ℕ → Text
unfolding hex_digit
hex_text v =
    (if leb (2 ^ 12) v then hex_digit (v / 2 ^ 12 % 16) ∷ [] else [])
    ++ ((if leb (2 ^ 8) v then hex_digit (v / 2 ^ 8 % 16) ∷ [] else [])
        ++ ((if leb (2 ^ 4) v then hex_digit (v / 2 ^ 4 % 16) ∷ [] else [])
            ++ (hex_digit (v % 16) ∷ [])))

unfoldable pub ends_in_colon : Text → Bool
ends_in_colon [] = false
ends_in_colon (c ∷ []) = c == b':'
ends_in_colon (c ∷ d ∷ s) = ends_in_colon (d ∷ s)

abbrev starts_here : Option ℕ → ℕ → Bool
starts_here none i = false
starts_here (some start) i = i == start

-- The second loop of formatIpv6, with the text so far.
unfoldable pub groups_text : ℕ → ℕ → List ℕ → Option ℕ → ℕ → Text → Text
unfolding hex_text ends_in_colon
groups_text i skip [] start size text = text
groups_text i (suc skip) (group ∷ groups) start size text =
    groups_text (i + 1) skip groups start size text
groups_text i zero (group ∷ groups) start size text =
    let here = starts_here start i in
    let colon = if not (length text == 0) && not (ends_in_colon text) then b':' ∷ [] else [] in
    let more = if here then units "::" else colon ++ hex_text group in
    groups_text (i + 1) (if here then size - 1 else 0) groups start size (text ++ more)

unfoldable pub format_ipv6 : List ℕ → Text
unfolding be16_groups longest_run groups_text
format_ipv6 bytes =
    let groups = be16_groups bytes in
    let (start, size) = longest_run 0 0 groups none 1 in groups_text 0 0 groups start size []
