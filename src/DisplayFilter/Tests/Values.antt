-- ===== src/DisplayFilter/Tests/Values.antt =====
-- parseComparison: the values of a test fit its field, and errors have a place in the filter.
use log_squirl_tcpdump.Common.{
  ℕ, ◌+◌, ◌-◌, ◌≤◌, ◌<◌, ◌≡◌, refl, ap, ◌∙◌, List, [], ◌∷◌, length, drop, true, false, inl, inr,
  arith, Option, none, some, ltb, Option-cases, ltb→le, ◌⊎◌, some_injective,
}
use log_squirl_tcpdump.Common.Int.{pos, negsuc}
use log_squirl_tcpdump.DisplayFilter.Syntax.{
  Text, Comparison, FieldInfo, FilterOperator, present, ValueKind, ipv4_value, ipv6_value,
  port_value, stream_value, length_value, info_of, maximum_of,
}
use log_squirl_tcpdump.DisplayFilter.Tokens.{Qt, Token}
use log_squirl_tcpdump.DisplayFilter.Tests.{
  slash_of, prefix_in, address_and_prefix, network, parse_address, number_of, parse_number,
  is_address, is_ipv6_kind, is_equality, field_alone,
}
use log_squirl_tcpdump.DisplayFilter.Addresses.{parse_ipv4, parse_ipv6}
use log_squirl_tcpdump.DisplayFilter.Outcomes.{
  Within, done, refused, Within-if, Within-test, Within-option, Within-bind,
}

-- What a test holds: a number that its field can have, an operator that its values are compared
-- with, and a prefix length of an IPv4 network only.
pub record IsTest (test : Comparison) : Type 0 where
  pub in_bounds : test.number ≤ maximum_of (info_of test.field).kind
  pub operator_fits :
      is_address (info_of test.field).kind ≡ true
      → ((test.op ≡ present) ⊎ (is_equality test.op ≡ true))
  pub prefix_short :
      (n : ℕ) → test.prefix_length ≡ some n → (n < 32) × ((info_of test.field).kind ≡ ipv4_value)

-- A field as the table has it.
abbrev pub Known : FieldInfo → Type 0
Known info = info_of info.field ≡ info

-- QString::toInt reads no number in the empty text.
abbrev pub EmptyNumber : Qt → Type 0
EmptyNumber qt = qt.to_int [] ≡ none

slash_of-lt : (s : Text) (i : ℕ) → slash_of s ≡ some i → i < length s
unfolding slash_of
slash_of-lt [] i h = cc
slash_of-lt (c ∷ s) i h = ground (arith, slash_of-lt s (i - 1))

prefix_in-le :
    (qt : Qt) (size : ℕ) (rest : Text) (at : ℕ)
    → EmptyNumber qt
    → at ≤ size
    → Within size (λ n. n ≤ 32) (prefix_in qt rest at)
unfolding prefix_in
prefix_in-le qt size [] at law le = rw (prefix_in, law) (refused le)
prefix_in-le qt size (c ∷ s) at law le = elim (Option-cases (qt.to_int (c ∷ s))) [
  | inl e ↦ rw (prefix_in, e) (refused le)
  | inr (negsuc n, e) ↦ rw (prefix_in, e) (refused le)
  | inr (pos n, e) ↦
      rw (prefix_in, e)
        (Within-test size (λ m. m ≤ 32) (ltb 32 n) _ _ (λ _. refused le)
          (λ small.
            Within-if size (λ m. m ≤ 32) (qt.is_digit c) _ _ (done (ltb→le 32 n small))
              (refused le)))
]

abbrev PrefixFits : ValueKind → Text × Option ℕ → Type 0
PrefixFits kind (text, prefix) = (n : ℕ) → prefix ≡ some n → (n ≤ 32) × (is_ipv6_kind kind ≡ false)

address_and_prefix-PrefixFits :
    (qt : Qt) (size : ℕ) (kind : ValueKind) (value : Token)
    → EmptyNumber qt
    → value.position + length value.text ≤ size
    → Within size (PrefixFits kind) (address_and_prefix qt kind value)
unfolding address_and_prefix
address_and_prefix-PrefixFits qt size kind value law le =
    Within-option size (PrefixFits kind) (slash_of value.text) _ _ (done (λ n e. absurd cc))
      (λ slash e.
        let here = slash_of-lt value.text slash e in
        Within-test size (PrefixFits kind) (is_ipv6_kind kind) _ _ (λ _. refused (omega arith))
          (λ not_v6.
            Within-bind size (λ n. n ≤ 32) (PrefixFits kind)
              (prefix_in qt (drop (slash + 1) value.text) (value.position + slash + 1)) _
              (prefix_in-le qt size _ _ law (omega arith))
              (λ n small. done (λ m e. (omega (arith, some_injective e), not_v6)))))

network-lt :
    (address n : ℕ) (prefix : Option ℕ) (kind : ValueKind) (text : Text)
    → PrefixFits kind (text, prefix)
    → (network address prefix).1 ≡ some n
    → (n < 32) × (is_ipv6_kind kind ≡ false)
unfolding network
network-lt address n none kind text fits e = absurd cc
network-lt address n (some m) kind text fits e = ground (arith, fits m refl)

ipv4_kind :
    (kind : ValueKind) → is_address kind ≡ true → is_ipv6_kind kind ≡ false → kind ≡ ipv4_value
ipv4_kind ipv4_value a v = refl
ipv4_kind ipv6_value a v = absurd cc
ipv4_kind port_value a v = absurd cc
ipv4_kind stream_value a v = absurd cc
ipv4_kind length_value a v = absurd cc

-- A comparison with its operator read.
abbrev pub tested : FieldInfo → FilterOperator → Comparison
tested info op = record (field_alone info.field) { op = op }

address-IsTest :
    (info : FieldInfo) (op : FilterOperator) (address : Text) (prefix : Option ℕ)
    → Known info
    → is_equality op ≡ true
    → ((n : ℕ) → prefix ≡ some n → (n < 32) × (info.kind ≡ ipv4_value))
    → IsTest (record (tested info op) { address = address; prefix_length = prefix })
address-IsTest info op address prefix known eq fits = record {
  in_bounds = omega arith;
  operator_fits = λ a. inr eq;
  prefix_short = λ n e. ((fits n e).0, ap (λ (i : FieldInfo). i.kind) known ∙ (fits n e).1);
}

pub parse_address-IsTest :
    (qt : Qt) (size : ℕ) (info : FieldInfo) (op : FilterOperator) (value : Token)
    → EmptyNumber qt
    → Known info
    → is_address info.kind ≡ true
    → is_equality op ≡ true
    → value.position + length value.text ≤ size
    → Within size IsTest (parse_address qt (tested info op) info value)
unfolding parse_address
parse_address-IsTest qt size info op value law known addr eq le =
    let here : value.position ≤ size = omega arith in
    Within-bind size (PrefixFits info.kind) IsTest (address_and_prefix qt info.kind value) _
      (address_and_prefix-PrefixFits qt size info.kind value law le)
      (λ (text, prefix) fits.
        Within-test size IsTest (is_ipv6_kind info.kind) _ _
          (λ v6.
            Within-option size IsTest
              (elim (parse_ipv4 qt text) as (λ _. Option (List ℕ)) [
                | some address ↦ none
                | none ↦ parse_ipv6 qt text
              ])
              _ _ (refused here)
              (λ bytes e. done (address-IsTest info op _ none known eq (λ n e. absurd cc))))
          (λ v4. Within-option size IsTest (parse_ipv4 qt text) _ _ (refused here) (λ address e.
            done (
              address-IsTest info op _ _ known eq (λ n e.
                let (small, kind) = network-lt address n prefix info.kind text fits e in
                (small, ipv4_kind info.kind addr v4))))))

number-IsTest :
    (info : FieldInfo) (op : FilterOperator) (number : ℕ)
    → Known info
    → is_address info.kind ≡ false
    → number ≤ maximum_of info.kind
    → IsTest (record (tested info op) { number = number })
number-IsTest info op number known addr le = record {
  in_bounds = omega (arith, ap (λ (i : FieldInfo). maximum_of i.kind) known);
  operator_fits = λ a. absurd cc;
  prefix_short = λ n e. absurd cc;
}

pub parse_number-IsTest :
    (qt : Qt) (size : ℕ) (info : FieldInfo) (op : FilterOperator) (value : Token)
    → Known info
    → is_address info.kind ≡ false
    → value.position ≤ size
    → Within size IsTest (parse_number qt (tested info op) info value)
unfolding parse_number
parse_number-IsTest qt size info op value known addr le =
    Within-option size IsTest (number_of qt value.text) _ _ (refused le) (λ number e.
      Within-test size IsTest (ltb (maximum_of info.kind) number) _ _ (λ _. refused le)
        (λ bound. done (number-IsTest info op number known addr (ltb→le _ _ bound))))
