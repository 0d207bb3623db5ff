-- ===== src/StreamRendering.antt =====
-- src/stream_content.cpp: the rendering of a stream's bytes, streamText with utf8Sequence and
-- appendEscaped. A text is the list of its UTF-16 units.
pub mod Columns
pub mod Lines
pub mod Utf8
use log_squirl_tcpdump.Common.{
  ℕ, zero, suc, ◌+◌, ◌-◌, ◌*◌, ◌/◌, ◌%◌, ◌^◌, ltb, leb, ◌==◌, List, [], ◌∷◌, ◌++◌, length, take,
  Bool, true, false, not, ◌&&◌, ◌||◌, Option, none, some, if◌then◌else◌,
}

-- A lead byte's sequence: its length, 0 for none, its bits of the code point, and the range of the
-- second byte.
pub record Lead : Type 0 where
  pub size : ℕ
  pub bits : ℕ
  pub low : ℕ
  pub high : ℕ

abbrev pub lead_of : ℕ → ℕ → ℕ → ℕ → Lead
lead_of size bits low high = record { size = size; bits = bits; low = low; high = high }

unfoldable pub lead_sequence : ℕ → Lead
lead_sequence lead =
    if leb 0xC2 lead && leb lead 0xDF
    then lead_of 2 (lead % 2 ^ 5) 0x80 0xBF
    else if leb 0xE0 lead && leb lead 0xEF
    then lead_of 3 (lead % 2 ^ 4) (if lead == 0xE0 then 0xA0 else 0x80)
        (if lead == 0xED then 0x9F else 0xBF)
    else if leb 0xF0 lead && leb lead 0xF4
    then lead_of 4 (lead % 2 ^ 3) (if lead == 0xF0 then 0x90 else 0x80)
        (if lead == 0xF4 then 0x8F else 0xBF)
    else lead_of 0 0 0x80 0xBF

-- The loop over `count` bytes behind the lead byte; the first is from `low` to `high`.
unfoldable pub continuation : ℕ → ℕ → ℕ → ℕ → List ℕ → Option ℕ
continuation zero low high code_point bytes = some code_point
continuation (suc count) low high code_point [] = none
continuation (suc count) low high code_point (byte ∷ bytes) =
    let rest = continuation count 0x80 0xBF (code_point * 2 ^ 6 + byte % 2 ^ 6) bytes in
    if ltb byte low || ltb high byte then none else rest

abbrev pub with_size : ℕ → Option ℕ → Option (ℕ × ℕ)
with_size size none = none
with_size size (some code_point) = some (size, code_point)

-- The length of the sequence and its code point, where there is one.
unfoldable pub utf8_sequence : List ℕ → Option (ℕ × ℕ)
unfolding lead_sequence continuation
utf8_sequence [] = none
utf8_sequence (lead ∷ bytes) =
    let s = lead_sequence lead in
    if (s.size == 0) || ltb (length (lead ∷ bytes)) s.size
    then none
    else with_size s.size (continuation (s.size - 1) s.low s.high s.bits bytes)

abbrev pub hex_unit : ℕ → ℕ
hex_unit v = if ltb v 10 then b'0' + v else b'a' + (v - 10)

unfoldable pub escaped : ℕ → List ℕ
escaped byte = b'\\' ∷ b'x' ∷ hex_unit (byte / 2 ^ 4) ∷ hex_unit (byte % 2 ^ 4) ∷ []

unfoldable pub all_escaped : List ℕ → List ℕ
unfolding escaped
all_escaped [] = []
all_escaped (byte ∷ bytes) = escaped byte ++ all_escaped bytes

-- QChar::category of a format, line or paragraph separator, QChar::requiresSurrogates and
-- QString::fromUcs4.
pub record Unicode : Type 0 where
  pub is_invisible : ℕ → Bool
  pub requires_surrogates : ℕ → Bool
  pub from_ucs4 : ℕ → List ℕ

abbrev pub max_line_chars : ℕ
max_line_chars = 4096

abbrev pub new_line : ℕ
new_line = 10

-- What one round writes, the column behind it and the bytes that it takes.
pub record Written : Type 0 where
  pub text : List ℕ
  pub column : ℕ
  pub taken : ℕ

-- makeRoom for `text` of `width` units, and the text.
unfoldable pub with_room : ℕ → ℕ → List ℕ → ℕ → Written
with_room column width text taken =
    if ltb 0 column && ltb max_line_chars (column + width)
    then record { text = new_line ∷ text; column = width; taken = taken }
    else record { text = text; column = column + width; taken = taken }

abbrev pub begins_line_feed : List ℕ → Bool
begins_line_feed [] = false
begins_line_feed (byte ∷ bytes) = byte == new_line

-- The characters of a UTF-8 sequence of `size` bytes.
unfoldable pub write_code_point : Unicode → ℕ → ℕ → ℕ → List ℕ → Written
unfolding with_room all_escaped
write_code_point unicode column size code_point bytes =
    if unicode.is_invisible code_point
    then with_room column (4 * size) (all_escaped (take size bytes)) size
    else with_room column (if unicode.requires_surrogates code_point then 2 else 1)
        (unicode.from_ucs4 code_point) size

-- What is written of bytes that are no ASCII characters: a sequence from U+00A0 on, or the byte.
unfoldable pub write_sequence : Unicode → ℕ → ℕ → List ℕ → Option (ℕ × ℕ) → Written
unfolding write_code_point with_room escaped
write_sequence unicode column byte bytes none = with_room column 4 (escaped byte) 1
write_sequence unicode column byte bytes (some (size, code_point)) =
    if leb 0xA0 code_point
    then write_code_point unicode column size code_point (byte ∷ bytes)
    else with_room column 4 (escaped byte) 1

unfoldable pub write_other : Unicode → ℕ → ℕ → List ℕ → Written
unfolding utf8_sequence write_sequence
write_other unicode column byte bytes =
    write_sequence unicode column byte bytes (utf8_sequence (byte ∷ bytes))

-- One round of streamText's loop.
unfoldable pub write_byte : Unicode → ℕ → ℕ → List ℕ → Written
unfolding write_other with_room
write_byte unicode column byte bytes =
    if (byte == 13) && begins_line_feed bytes
    then record { text = []; column = column; taken = 1 }
    else if byte == new_line
    then record { text = new_line ∷ []; column = 0; taken = 1 }
    else if (byte == 9) || (leb 0x20 byte && ltb byte 0x7F)
    then with_room column 1 (byte ∷ []) 1
    else write_other unicode column byte bytes

-- The loop; `skip` bytes in front belong to the last round's sequence.
unfoldable pub text_from : Unicode → ℕ → ℕ → List ℕ → List ℕ × ℕ
unfolding write_byte
text_from unicode column skip [] = ([], column)
text_from unicode column (suc skip) (byte ∷ bytes) = text_from unicode column skip bytes
text_from unicode column zero (byte ∷ bytes) =
    let w = write_byte unicode column byte bytes in
    let (more, end) = text_from unicode w.column (w.taken - 1) bytes in (w.text ++ more, end)

-- The text of the bytes, and the column where it ends.
unfoldable pub stream_text : Unicode → ℕ → List ℕ → List ℕ × ℕ
unfolding text_from
stream_text unicode column bytes = text_from unicode column 0 bytes
