-- ===== src/DisplayFilter/Addresses/RoundTrip.antt =====
-- ipv4Text and parseIpv4: an address as a text is read back.
use log_squirl_tcpdump.Common.{
  ℕ, ◌+◌, ◌-◌, ◌*◌, ◌/◌, ◌%◌, ◌^◌, ◌≤◌, ◌<◌, ◌≡◌, refl, ap, ◌∙◌, List, [], ◌∷◌, ◌++◌, length, Bool,
  true, false, arith, ltb, leb, ◌==◌, not, ◌&&◌, ◌||◌, Option, some, none, Bool-cases, inl, inr,
  if◌then◌else◌,
}
use log_squirl_tcpdump.DisplayFilter.Syntax.{Text}
use log_squirl_tcpdump.DisplayFilter.Tokens.{Qt}
use log_squirl_tcpdump.DisplayFilter.Addresses.{
  in_front, split, all_units, is_decimal_digit, octets_from, parse_ipv4, octet_text, format_ipv4,
  ipv4_text,
}

-- The number that a decimal text stands for, with the number before it.
abbrev pub decimal_value : ℕ → Text → ℕ
decimal_value n [] = n
decimal_value n (c ∷ s) = decimal_value (n * 10 + (c - b'0')) s

-- QString::toUInt reads the decimal numbers of up to three digits.
abbrev pub ReadsDecimal : Qt → Type 0
ReadsDecimal qt =
    (s : Text)
    → all_units is_decimal_digit s ≡ true
    → 0 < length s
    → length s ≤ 3
    → qt.to_uint s 10 ≡ decimal_value 0 s

-- An octet's text: up to three digits that stand for it.
record IsOctet (v : ℕ) (s : Text) : Type 0 where
  digits : all_units is_decimal_digit s ≡ true
  some_digit : 0 < length s
  few_digits : length s ≤ 3
  stands_for : decimal_value 0 s ≡ v

octet_text-IsOctet : (v : ℕ) → v < 256 → IsOctet v (octet_text v)
unfolding octet_text all_units is_decimal_digit
octet_text-IsOctet v h = elim (Bool-cases (leb 100 v)) [
  | inl large ↦ elim (Bool-cases (leb 10 v)) [
    | inl two ↦
        rw (large, two)
          (record {
            digits = ground arith;
            some_digit = omega arith;
            few_digits = omega arith;
            stands_for = omega arith;
          })
    | inr one ↦ absurd (ground arith)
  ]
  | inr small ↦ elim (Bool-cases (leb 10 v)) [
    | inl two ↦
        rw (small, two)
          (record {
            digits = ground arith;
            some_digit = omega arith;
            few_digits = omega arith;
            stands_for = ground arith;
          })
    | inr one ↦
        rw (small, one)
          (record {
            digits = ground arith;
            some_digit = omega arith;
            few_digits = omega arith;
            stands_for = ground arith;
          })
  ]
]

digit_first :
    (c : ℕ) (more : Bool)
    → (is_decimal_digit c && more) ≡ true
    → ((c == b'.') ≡ false) × (more ≡ true)
unfolding is_decimal_digit
digit_first c true h = (ground arith, refl)
digit_first c false h = ground arith

split-digits : (s : Text) → all_units is_decimal_digit s ≡ true → split b'.' s ≡ s ∷ []
unfolding split all_units is_decimal_digit in_front
split-digits [] h = refl
split-digits (c ∷ s) h = let (no_dot, more) = digit_first c _ h in rw (no_dot, split-digits s more)

split-append :
    (s t : Text)
    → all_units is_decimal_digit s ≡ true
    → split b'.' (s ++ (b'.' ∷ t)) ≡ s ∷ split b'.' t
unfolding split all_units is_decimal_digit in_front
split-append [] t h = refl
split-append (c ∷ s) t h =
    let (no_dot, more) = digit_first c _ h in rw (no_dot, split-append s t more)

octet_step :
    (n octet v : ℕ) (digits : Bool) (rest : ℕ → Option ℕ)
    → digits ≡ true
    → 0 < n
    → n ≤ 3
    → octet ≡ v
    → v < 256
    → (if (n == 0) || ltb 3 n || not digits
        then none
        else if ltb 255 octet
        then none
        else rest octet)
      ≡ rest v
octet_step n octet v digits rest d pos few e small =
    let some_unit : (n == 0) ≡ false = ground arith in
    let not_more : ltb 3 n ≡ false = ground arith in
    let in_byte : ltb 255 v ≡ false = ground arith in rw (d, e, some_unit, not_more, in_byte)

octets_from-octet :
    (qt : Qt) (a v : ℕ) (s : Text) (parts : List Text)
    → ReadsDecimal qt
    → v < 256
    → IsOctet v s
    → octets_from qt a (s ∷ parts) ≡ octets_from qt (((a * 2 ^ 8) % 2 ^ 32) + v) parts
unfolding octets_from
octets_from-octet qt a v s parts law small octet =
    let e : qt.to_uint s 10 ≡ v =
      law s octet.digits octet.some_digit octet.few_digits ∙ octet.stands_for in
    octet_step (length s) (qt.to_uint s 10) v _
      (λ octet. octets_from qt (((a * 2 ^ 8) % 2 ^ 32) + octet) parts) octet.digits octet.some_digit
      octet.few_digits e small

octets_from-end : (qt : Qt) (a : ℕ) → octets_from qt a [] ≡ some a
unfolding octets_from
octets_from-end qt a = refl

-- One more octet behind those of `a`.
abbrev with_octet : ℕ → ℕ → ℕ
with_octet a v = ((a * 2 ^ 8) % 2 ^ 32) + v

four_octets :
    (qt : Qt) (v w x y : ℕ) (s t u z : Text)
    → ReadsDecimal qt
    → v < 256
    → w < 256
    → x < 256
    → y < 256
    → IsOctet v s
    → IsOctet w t
    → IsOctet x u
    → IsOctet y z
    → octets_from qt 0 (s ∷ t ∷ u ∷ z ∷ [])
      ≡ some (with_octet (with_octet (with_octet (with_octet 0 v) w) x) y)
four_octets qt v w x y s t u z law hv hw hx hy first second third fourth =
    octets_from-octet qt 0 v s (t ∷ u ∷ z ∷ []) law hv first
    ∙ octets_from-octet qt (with_octet 0 v) w t (u ∷ z ∷ []) law hw second
    ∙ octets_from-octet qt (with_octet (with_octet 0 v) w) x u (z ∷ []) law hx third
    ∙ octets_from-octet qt (with_octet (with_octet (with_octet 0 v) w) x) y z [] law hy fourth
    ∙ octets_from-end qt _

byte-lt : (n : ℕ) → n % 2 ^ 8 < 256
byte-lt n = omega arith

-- The octets of an address, first to last, make it.
octets-address :
    (address : ℕ)
    → address < 2 ^ 32
    → with_octet
        (with_octet
          (with_octet (with_octet 0 (address / 2 ^ 24 % 2 ^ 8)) (address / 2 ^ 16 % 2 ^ 8))
          (address / 2 ^ 8 % 2 ^ 8))
        (address % 2 ^ 8)
      ≡ address
octets-address address h = omega arith

-- parseIpv4 reads each address of 32 bits back from the text that ipv4Text gives of it, where
-- QString::toUInt reads the decimal numbers of up to three digits.
pub parse_ipv4-ipv4_text :
    (qt : Qt) (address : ℕ)
    → ReadsDecimal qt
    → address < 2 ^ 32
    → parse_ipv4 qt (ipv4_text address) ≡ some address
unfolding parse_ipv4 ipv4_text format_ipv4
parse_ipv4-ipv4_text qt address law h =
    let first = octet_text-IsOctet (address / 2 ^ 24 % 2 ^ 8) (omega arith) in
    let second = octet_text-IsOctet (address / 2 ^ 16 % 2 ^ 8) (omega arith) in
    let third = octet_text-IsOctet (address / 2 ^ 8 % 2 ^ 8) (omega arith) in
    let fourth = octet_text-IsOctet (address % 2 ^ 8) (omega arith) in
    rw
      (
        split-append _ _ first.digits,
        split-append _ _ second.digits,
        split-append _ _ third.digits,
        split-digits _ fourth.digits,
      )
      (four_octets qt _ _ _ _ _ _ _ _ law (byte-lt _) (byte-lt _) (byte-lt _) (byte-lt _) first
          second third fourth
        ∙ ap some (octets-address address h))
