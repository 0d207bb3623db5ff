-- ===== src/StreamRendering/Lines.antt =====
-- streamText: no line gets longer than kMaxStreamLineChars.
use log_squirl_tcpdump.Common.{
  ℕ, zero, suc, ◌+◌, ◌-◌, ◌*◌, ◌≤◌, ◌≡◌, refl, ap, sym, ◌∙◌, List, [], ◌∷◌, ◌++◌, length, take,
  Bool, true, false, ltb, leb, ◌==◌, ◌&&◌, ◌||◌, Option, none, some, arith, Bool-cases, inl, inr,
  if◌then◌else◌, length-take, leb→le, if_both, some_injective, subst,
}
use log_squirl_tcpdump.StreamRendering.{
  Unicode, Written, begins_line_feed, with_size, write_sequence, max_line_chars, new_line, escaped,
  all_escaped, with_room, write_code_point, write_other, write_byte, text_from, stream_text,
  utf8_sequence, lead_sequence, continuation,
}
use log_squirl_tcpdump.StreamRendering.Columns.{
  column_after, HasShortLines, no_breaks, WritesCodePoints, on_one_line, append-HasShortLines,
  column_after-append,
}

-- One round keeps to the lines.
abbrev KeepsLines : ℕ → Written → Type 0
KeepsLines column w =
    HasShortLines column w.text
    × ((column_after column w.text ≡ w.column) × (w.column ≤ max_line_chars))

with_room-KeepsLines :
    (column width taken : ℕ) (s : List ℕ)
    → column ≤ max_line_chars
    → width ≤ 16
    → length s ≡ width
    → no_breaks s ≡ true
    → KeepsLines column (with_room column width s taken)
unfolding with_room HasShortLines column_after
with_room-KeepsLines column width taken s le narrow len h =
    elim (Bool-cases (ltb 0 column && ltb max_line_chars (column + width))) [
      | inl break ↦ rw break (
          let (short, after) = on_one_line 0 s h (omega arith) in
          (short, (omega (arith, after), omega arith)))
      | inr fits ↦ rw fits (
          let room : column + width ≤ max_line_chars = ground arith in
          let (short, after) = on_one_line column s h (omega arith) in
          (short, (omega (arith, after), room)))
    ]

escaped-no_breaks :
    (byte : ℕ) (s : List ℕ) → no_breaks s ≡ true → no_breaks (escaped byte ++ s) ≡ true
unfolding escaped no_breaks
escaped-no_breaks byte s h = ground arith

all_escaped-no_breaks : (bytes : List ℕ) → no_breaks (all_escaped bytes) ≡ true
unfolding all_escaped
all_escaped-no_breaks [] = unfold no_breaks in refl
all_escaped-no_breaks (byte ∷ bytes) =
    escaped-no_breaks byte (all_escaped bytes) (all_escaped-no_breaks bytes)

length-all_escaped : (bytes : List ℕ) → length (all_escaped bytes) ≡ 4 * length bytes
unfolding all_escaped escaped
length-all_escaped [] = omega arith
length-all_escaped (byte ∷ bytes) = omega (arith, length-all_escaped bytes)

lead_sequence-le : (lead : ℕ) → (lead_sequence lead).size ≤ 4
unfolding lead_sequence
lead_sequence-le lead = ground arith

-- A sequence is of at most four bytes, all there.
abbrev IsThere : List ℕ → ℕ → Type 0
IsThere bytes size = (size ≤ 4) × (size ≤ length bytes)

size_is_there : (size n : ℕ) → ((size == 0) || ltb n size) ≡ false → size ≤ n
size_is_there size n h = ground arith

with_size-size : (n : ℕ) (o : Option ℕ) (size c : ℕ) → with_size n o ≡ some (size, c) → n ≡ size
with_size-size n none size c h = absurd cc
with_size-size n (some d) size c h = ap (λ (p : ℕ × ℕ). p.0) (some_injective h)

utf8_sequence-IsThere :
    (bytes : List ℕ) (size c : ℕ) → utf8_sequence bytes ≡ some (size, c) → IsThere bytes size
unfolding utf8_sequence
utf8_sequence-IsThere [] size c h = absurd cc
utf8_sequence-IsThere (lead ∷ bytes) size c h =
    let s = lead_sequence lead in
    elim (Bool-cases ((s.size == 0) || ltb (length (lead ∷ bytes)) s.size)) [
      | inl no_sequence ↦ absurd (cc (rw no_sequence at h))
      | inr there ↦
          let same : s.size ≡ size =
            with_size-size s.size (continuation (s.size - 1) s.low s.high s.bits bytes) size c
              (rw there at h) in
          (
            omega (arith, lead_sequence-le lead, same),
            omega (arith, size_is_there s.size (length (lead ∷ bytes)) there, same),
          )
    ]

width_le : (b : Bool) → (if b then 2 else 1) ≤ 16
width_le true = omega arith
width_le false = omega arith

write_code_point-KeepsLines :
    (unicode : Unicode) (column size c : ℕ) (bytes : List ℕ)
    → WritesCodePoints unicode
    → column ≤ max_line_chars
    → IsThere bytes size
    → 0xA0 ≤ c
    → KeepsLines column (write_code_point unicode column size c bytes)
unfolding write_code_point
write_code_point-KeepsLines unicode column size c bytes law le (small, there) above =
    elim (Bool-cases (unicode.is_invisible c)) [
      | inl invisible ↦ rw invisible (
          with_room-KeepsLines column (4 * size) size (all_escaped (take size bytes)) le
            (omega arith)
            (omega (arith, length-all_escaped (take size bytes), length-take size bytes))
            (all_escaped-no_breaks (take size bytes)))
      | inr visible ↦ rw visible (
          with_room-KeepsLines column _ size (unicode.from_ucs4 c) le
            (width_le (unicode.requires_surrogates c)) (law c above).0 (law c above).1)
    ]

nothing-KeepsLines :
    (column : ℕ)
    → column ≤ max_line_chars
    → KeepsLines column (record { text = []; column = column; taken = 1 })
unfolding HasShortLines column_after
nothing-KeepsLines column le = (tt, (refl, le))

break-KeepsLines :
    (column : ℕ) → KeepsLines column (record { text = new_line ∷ []; column = 0; taken = 1 })
unfolding HasShortLines column_after
break-KeepsLines column = (tt, (refl, omega arith))

unit-no_breaks : (c : ℕ) → (c == new_line) ≡ false → no_breaks (c ∷ []) ≡ true
unfolding no_breaks
unit-no_breaks c h = rw h

byte-KeepsLines :
    (column byte : ℕ)
    → column ≤ max_line_chars
    → KeepsLines column (with_room column 4 (escaped byte) 1)
unfolding escaped no_breaks
byte-KeepsLines column byte le =
    with_room-KeepsLines column 4 1 (escaped byte) le (omega arith) (omega arith)
      (escaped-no_breaks byte [] refl)

write_sequence-KeepsLines :
    (unicode : Unicode) (column byte : ℕ) (bytes : List ℕ) (o : Option (ℕ × ℕ))
    → WritesCodePoints unicode
    → column ≤ max_line_chars
    → ((size c : ℕ) → o ≡ some (size, c) → IsThere (byte ∷ bytes) size)
    → KeepsLines column (write_sequence unicode column byte bytes o)
unfolding write_sequence
write_sequence-KeepsLines unicode column byte bytes none law le there =
    byte-KeepsLines column byte le
write_sequence-KeepsLines unicode column byte bytes (some (size, c)) law le there =
    elim (Bool-cases (leb 0xA0 c)) [
      | inl above ↦ rw above (
          write_code_point-KeepsLines unicode column size c (byte ∷ bytes) law le
            (there size c refl) (leb→le _ _ above))
      | inr control ↦ rw control (byte-KeepsLines column byte le)
    ]

write_byte-KeepsLines :
    (unicode : Unicode) (column byte : ℕ) (bytes : List ℕ)
    → WritesCodePoints unicode
    → column ≤ max_line_chars
    → KeepsLines column (write_byte unicode column byte bytes)
unfolding write_byte write_other
write_byte-KeepsLines unicode column byte bytes law le =
    if_both {A = Written} (KeepsLines column) ((byte == 13) && begins_line_feed bytes)
      (nothing-KeepsLines column le)
      (elim (Bool-cases (byte == new_line)) [
        | inl break ↦ rw break (break-KeepsLines column)
        | inr other ↦ rw other (
            if_both {A = Written} (KeepsLines column)
              ((byte == 9) || (leb 0x20 byte && ltb byte 0x7F))
              (with_room-KeepsLines column 1 1 (byte ∷ []) le (omega arith) (omega arith)
                (unit-no_breaks byte other))
              (write_sequence-KeepsLines unicode column byte bytes (utf8_sequence (byte ∷ bytes))
                law le (utf8_sequence-IsThere (byte ∷ bytes))))
      ])

text_from-KeepsLines :
    (unicode : Unicode) (column skip : ℕ) (bytes : List ℕ)
    → WritesCodePoints unicode
    → column ≤ max_line_chars
    → HasShortLines column (text_from unicode column skip bytes).0
      × (column_after column (text_from unicode column skip bytes).0
          ≡ (text_from unicode column skip bytes).1)
unfolding text_from HasShortLines column_after
text_from-KeepsLines unicode column skip [] law le = (tt, refl)
text_from-KeepsLines unicode column (suc skip) (byte ∷ bytes) law le =
    text_from-KeepsLines unicode column skip bytes law le
text_from-KeepsLines unicode column zero (byte ∷ bytes) law le =
    let w = write_byte unicode column byte bytes in
    let (short, (ends, fits)) = write_byte-KeepsLines unicode column byte bytes law le in
    let more = (text_from unicode w.column (w.taken - 1) bytes).0 in
    let (short', ends') = text_from-KeepsLines unicode w.column (w.taken - 1) bytes law fits in
    (
      append-HasShortLines column w.text _ short
          (subst (λ (n : ℕ). HasShortLines n more) (sym ends) short'),
      column_after-append column w.text _ ∙ ap (λ (n : ℕ). column_after n more) ends ∙ ends',
    )

-- Where Qt gives a code point from U+00A0 on as one unit or a pair of surrogates and without a
-- line break, and the column is at most kMaxStreamLineChars: no line of streamText's text, which
-- begins in the column, gets longer than that, and the column that streamText leaves is where the
-- text ends.
pub stream_text-HasShortLines :
    (unicode : Unicode) (column : ℕ) (bytes : List ℕ)
    → WritesCodePoints unicode
    → column ≤ max_line_chars
    → HasShortLines column (stream_text unicode column bytes).0
      × (column_after column (stream_text unicode column bytes).0
          ≡ (stream_text unicode column bytes).1)
unfolding stream_text
stream_text-HasShortLines unicode column bytes law le =
    text_from-KeepsLines unicode column 0 bytes law le
