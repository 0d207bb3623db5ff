-- ===== src/Examples/Rendering.antt =====
-- The rendering of bytes, with surrogates as Qt makes them.
use log_squirl_tcpdump.Common.{
  ℕ, ◌+◌, ◌-◌, ◌/◌, ◌%◌, ◌≡◌, refl, List, [], ◌∷◌, ◌++◌, leb, ◌==◌, if◌then◌else◌, some, arith,
  Bool-cases, inl, inr,
}
use log_squirl_tcpdump.StreamRendering.{Unicode, stream_text, utf8_sequence}
use log_squirl_tcpdump.StreamRendering.Columns.{
  HasShortLines, column_after, WritesCodePoints, no_breaks,
}
use log_squirl_tcpdump.StreamRendering.Lines.{stream_text-HasShortLines}
use log_squirl_tcpdump.StreamRendering.Utf8.{utf8_encode, utf8_size, utf8_sequence-utf8_encode}

abbrev utf16 : Unicode
utf16 = record {
  is_invisible = λ c. c == 0x200E;
  requires_surrogates = λ c. leb 0x10000 c;
  from_ucs4 = λ c.
      if leb 0x10000 c
      then (0xD800 + (c - 0x10000) / 0x400) ∷ (0xDC00 + c % 0x400) ∷ []
      else c ∷ [];
}

utf16-WritesCodePoints : WritesCodePoints utf16
unfolding no_breaks
utf16-WritesCodePoints c h = elim (Bool-cases (leb 0x10000 c)) [
  | inl pair ↦ rw pair (refl, ground arith)
  | inr one ↦ rw one (refl, ground arith)
]

-- "a\r\né" and a byte that is no UTF-8.
abbrev mixed : List ℕ
mixed = 97 ∷ 13 ∷ 10 ∷ 0xC3 ∷ 0xA9 ∷ 0xFF ∷ []

mixed_test : stream_text utf16 4096 mixed ≡ (10 ∷ 97 ∷ 10 ∷ 0xE9 ∷ 92 ∷ 120 ∷ 102 ∷ 102 ∷ [], 5)
unfolding stream_text
mixed_test = refl

stream_text-HasShortLines_example :
    HasShortLines 4096 (stream_text utf16 4096 mixed).0
    × (column_after 4096 (stream_text utf16 4096 mixed).0 ≡ (stream_text utf16 4096 mixed).1)
stream_text-HasShortLines_example =
    stream_text-HasShortLines utf16 4096 mixed utf16-WritesCodePoints (omega arith)

utf8_sequence-utf8_encode_example :
    utf8_sequence (utf8_encode 0x20AC ++ (65 ∷ [])) ≡ some (utf8_size 0x20AC, 0x20AC)
utf8_sequence-utf8_encode_example =
    utf8_sequence-utf8_encode 0x20AC (65 ∷ []) (omega arith) (omega arith) (inl (omega arith))
