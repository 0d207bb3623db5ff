-- ===== src/DisplayFilter/Syntax.antt =====
-- src/display_filter.h and the fields of src/display_filter.cpp: the display filter's expressions,
-- fields, operators and errors. A text is the list of its UTF-16 units.
use Prim.Native.Char.{code}
use Prim.Native.String.{String}
use log_squirl_tcpdump.Common.{
  ℕ, ◌-◌, ◌^◌, ◌==◌, List, [], ◌∷◌, Option, none, some, Bool, true, false, ◌&&◌, ◌||◌,
  if◌then◌else◌,
}

abbrev pub Text : Type 0
Text = List ℕ

abbrev pub units : String → Text
units String.[] = []
units (String.◌∷◌ c s) = code c ∷ units s

unfoldable pub text_equals : Text → Text → Bool
text_equals [] [] = true
text_equals (c ∷ s) (d ∷ t) = (c == d) && text_equals s t
text_equals _ _ = false

-- `QString::contains` and `QStringList::contains`.
unfoldable pub has_unit : ℕ → Text → Bool
has_unit c [] = false
has_unit c (d ∷ s) = (d == c) || has_unit c s

unfoldable pub has_text : Text → List Text → Bool
unfolding text_equals
has_text s [] = false
has_text s (t ∷ ts) = text_equals s t || has_text s ts

pub data FilterField : Type 0 where
  ip_addr ip_src ip_dst ipv6_addr ipv6_src ipv6_dst : FilterField
  tcp_port tcp_src_port tcp_dst_port udp_port udp_src_port udp_dst_port : FilterField
  tcp_stream udp_stream frame_len : FilterField

-- The number that the enumerator has.
abbrev field_number : FilterField → ℕ
field_number ip_addr = 0
field_number ip_src = 1
field_number ip_dst = 2
field_number ipv6_addr = 3
field_number ipv6_src = 4
field_number ipv6_dst = 5
field_number tcp_port = 6
field_number tcp_src_port = 7
field_number tcp_dst_port = 8
field_number udp_port = 9
field_number udp_src_port = 10
field_number udp_dst_port = 11
field_number tcp_stream = 12
field_number udp_stream = 13
field_number frame_len = 14

pub data FilterOperator : Type 0 where
  present equal not_equal less_than greater_than less_equal greater_equal : FilterOperator

pub data ValueKind : Type 0 where
  ipv4_value ipv6_value port_value stream_value length_value : ValueKind

pub record FieldInfo : Type 0 where
  pub name : Text
  pub field : FilterField
  pub kind : ValueKind

abbrev pub field_info : String → FilterField → ValueKind → FieldInfo
field_info name field kind = record { name = units name; field = field; kind = kind }

-- kFields.
abbrev pub filter_fields : List FieldInfo
filter_fields =
    field_info "ip.addr" ip_addr ipv4_value
    ∷ field_info "ip.src" ip_src ipv4_value
    ∷ field_info "ip.dst" ip_dst ipv4_value
    ∷ field_info "ipv6.addr" ipv6_addr ipv6_value
    ∷ field_info "ipv6.src" ipv6_src ipv6_value
    ∷ field_info "ipv6.dst" ipv6_dst ipv6_value
    ∷ field_info "tcp.port" tcp_port port_value
    ∷ field_info "tcp.srcport" tcp_src_port port_value
    ∷ field_info "tcp.dstport" tcp_dst_port port_value
    ∷ field_info "udp.port" udp_port port_value
    ∷ field_info "udp.srcport" udp_src_port port_value
    ∷ field_info "udp.dstport" udp_dst_port port_value
    ∷ field_info "tcp.stream" tcp_stream stream_value
    ∷ field_info "udp.stream" udp_stream stream_value
    ∷ field_info "frame.len" frame_len length_value
    ∷ []

unfoldable pub named_in : List FieldInfo → Text → Option FieldInfo
unfolding text_equals
named_in [] name = none
named_in (info ∷ infos) name = if text_equals name info.name then some info else named_in infos name

unfoldable pub field_named : Text → Option FieldInfo
unfolding named_in
field_named name = named_in filter_fields name

abbrev pub frame_len_info : FieldInfo
frame_len_info = field_info "frame.len" frame_len length_value

unfoldable pub same_field : FilterField → FilterField → Bool
same_field f g = field_number f == field_number g

unfoldable pub info_in : List FieldInfo → FilterField → FieldInfo
unfolding same_field
info_in [] field = frame_len_info
info_in (info ∷ infos) field = if same_field info.field field then info else info_in infos field

-- infoOf, which falls back on the last field.
unfoldable pub info_of : FilterField → FieldInfo
unfolding info_in
info_of field = info_in filter_fields field

-- Of a stream or a length UINT64_MAX, which numberRangePattern reads as no bound.
unfoldable pub maximum_of : ValueKind → ℕ
maximum_of port_value = 65535
maximum_of _ = 2 ^ 64 - 1

-- A field alone or compared with the value that its kind has; `prefix_length` is `none` for -1.
pub record Comparison : Type 0 where
  pub field : FilterField
  pub op : FilterOperator
  pub number : ℕ
  pub address : Text
  pub prefix_length : Option ℕ

pub data Combination : Type 0 where
  kind_and kind_or : Combination

-- The expression's kind is its constructor, with the members that the kind has.
mutual
  pub data FilterExpression : Type 0 where
    combined : Combination → FilterExpressions → FilterExpression
    negation : FilterExpression → FilterExpression
    comparison : Comparison → FilterExpression
    protocol : Text → FilterExpression

  pub data FilterExpressions : Type 0 where
    none_left : FilterExpressions
    operand : FilterExpression → FilterExpressions → FilterExpressions

-- The messages of the errors, with what they are about.
pub data Message : Type 0 where
  strict_not_equal single_equal strict_equal single_and single_or no_strings no_slices no_sets :
      Message
  not_supported not_part : ℕ → Message
  word_not_supported xor_not_supported : Text → Message
  type_a_filter closes_nothing expected_combination nested_too_deep : Message
  expected_close : ℕ → Message
  ends_early expected_test : Message
  not_a_test field_not_supported protocol_compared : Text → Message
  expected_value : Text → Message
  two_fields : Message
  equality_only : Text → Message
  prefix_of_ipv4_only expected_prefix : Message
  is_ipv6 is_ipv4 : Text → Text → Message
  not_ipv4 not_ipv6 not_a_number too_big : Text → Message

pub record FilterError : Type 0 where
  pub message : Message
  pub position : ℕ

-- A result, the error thrown, a read past the last token or a text's end, or no fuel left.
pub data FilterOutcome {ℓ} (A : Type ℓ) : Type ℓ where
  ok : A → FilterOutcome A
  failed : FilterError → FilterOutcome A
  past_end : FilterOutcome A
  out_of_fuel : FilterOutcome A

infixl 5 ◌>>=◌
abbrev pub ◌>>=◌ {ℓ κ} :
    {A : Type ℓ} {B : Type κ} → FilterOutcome A → (A → FilterOutcome B) → FilterOutcome B
ok a >>= f = f a
failed e >>= f = failed e
past_end >>= f = past_end
out_of_fuel >>= f = out_of_fuel

abbrev pub throw {ℓ} : {A : Type ℓ} → Message → ℕ → FilterOutcome A
throw message position = failed (record { message = message; position = position })
