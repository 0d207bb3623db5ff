-- ===== src/StreamRendering/Utf8.antt =====
-- utf8Sequence: it reads back each code point that UTF-8 encodes.
use log_squirl_tcpdump.Common.{
  ℕ, suc, ◌+◌, ◌-◌, ◌*◌, ◌/◌, ◌%◌, ◌^◌, ◌≤◌, ◌<◌, ◌≡◌, ap, ◌∙◌, List, [], ◌∷◌, ◌++◌, length, true,
  false, ltb, leb, ◌==◌, ◌&&◌, ◌||◌, some, arith, Bool-cases, inl, inr, ◌⊎◌, if◌then◌else◌, ltb→lt,
  ltb→le,
}
use log_squirl_tcpdump.StreamRendering.{lead_of, lead_sequence, continuation, utf8_sequence}

-- A byte behind a lead byte, with six bits of a code point.
abbrev tail_byte : ℕ → ℕ
tail_byte n = 0x80 + n % 2 ^ 6

-- UTF-8 of a code point from U+0080 on, and its length.
abbrev pub utf8_size : ℕ → ℕ
utf8_size c = if ltb c 0x800 then 2 else if ltb c 0x10000 then 3 else 4

abbrev pub utf8_encode : ℕ → List ℕ
utf8_encode c =
    if ltb c 0x800
    then (0xC0 + c / 2 ^ 6) ∷ tail_byte c ∷ []
    else if ltb c 0x10000
    then (0xE0 + c / 2 ^ 12) ∷ tail_byte (c / 2 ^ 6) ∷ tail_byte c ∷ []
    else (0xF0 + c / 2 ^ 18) ∷ tail_byte (c / 2 ^ 12) ∷ tail_byte (c / 2 ^ 6) ∷ tail_byte c ∷ []

-- A continuation byte in the range is read.
continuation-tail :
    (count low high bits n : ℕ) (bytes : List ℕ)
    → low ≤ tail_byte n
    → tail_byte n ≤ high
    → continuation (suc count) low high bits (tail_byte n ∷ bytes)
      ≡ continuation count 0x80 0xBF (bits * 2 ^ 6 + n % 2 ^ 6) bytes
unfolding continuation
continuation-tail count low high bits n bytes above below =
    let inside : (ltb (tail_byte n) low || ltb high (tail_byte n)) ≡ false = ground arith in
    let six : tail_byte n % 2 ^ 6 ≡ n % 2 ^ 6 = omega arith in rw (inside, six)

two-lead : (v : ℕ) → 2 ≤ v → v < 32 → lead_sequence (0xC0 + v) ≡ lead_of 2 v 0x80 0xBF
unfolding lead_sequence
two-lead v h k =
    let here : (leb 0xC2 (0xC0 + v) && leb (0xC0 + v) 0xDF) ≡ true = ground arith in
    let bits : (0xC0 + v) % 2 ^ 5 ≡ v = omega arith in rw (here, bits)

abbrev three_low : ℕ → ℕ
three_low v = if 0xE0 + v == 0xE0 then 0xA0 else 0x80

abbrev three_high : ℕ → ℕ
three_high v = if 0xE0 + v == 0xED then 0x9F else 0xBF

three-lead : (v : ℕ) → v < 16 → lead_sequence (0xE0 + v) ≡ lead_of 3 v (three_low v) (three_high v)
unfolding lead_sequence
three-lead v k =
    let not_two : (leb 0xC2 (0xE0 + v) && leb (0xE0 + v) 0xDF) ≡ false = ground arith in
    let here : (leb 0xE0 (0xE0 + v) && leb (0xE0 + v) 0xEF) ≡ true = ground arith in
    let bits : (0xE0 + v) % 2 ^ 4 ≡ v = omega arith in rw (not_two, here, bits)

abbrev four_low : ℕ → ℕ
four_low v = if 0xF0 + v == 0xF0 then 0x90 else 0x80

abbrev four_high : ℕ → ℕ
four_high v = if 0xF0 + v == 0xF4 then 0x8F else 0xBF

four-lead : (v : ℕ) → v < 5 → lead_sequence (0xF0 + v) ≡ lead_of 4 v (four_low v) (four_high v)
unfolding lead_sequence
four-lead v k =
    let not_two : (leb 0xC2 (0xF0 + v) && leb (0xF0 + v) 0xDF) ≡ false = ground arith in
    let not_three : (leb 0xE0 (0xF0 + v) && leb (0xF0 + v) 0xEF) ≡ false = ground arith in
    let here : (leb 0xF0 (0xF0 + v) && leb (0xF0 + v) 0xF4) ≡ true = ground arith in
    let bits : (0xF0 + v) % 2 ^ 3 ≡ v = omega arith in rw (not_two, not_three, here, bits)

-- A sequence whose bytes are all there, and read.
sequence-read :
    (lead size bits low high c : ℕ) (bytes : List ℕ)
    → lead_sequence lead ≡ lead_of size bits low high
    → 0 < size
    → size ≤ suc (length bytes)
    → continuation (size - 1) low high bits bytes ≡ some c
    → utf8_sequence (lead ∷ bytes) ≡ some (size, c)
unfolding utf8_sequence
sequence-read lead size bits low high c bytes e pos there h =
    let all_there : ((size == 0) || ltb (suc (length bytes)) size) ≡ false = ground arith in
    rw (e, all_there, h)

two_bytes :
    (c : ℕ) (rest : List ℕ)
    → 0x80 ≤ c
    → c < 0x800
    → utf8_sequence ((0xC0 + c / 2 ^ 6) ∷ tail_byte c ∷ rest) ≡ some (2, c)
two_bytes c rest low high =
    sequence-read _ 2 (c / 2 ^ 6) 0x80 0xBF c (tail_byte c ∷ rest)
      (two-lead (c / 2 ^ 6) (omega arith) (omega arith)) (omega arith) (omega arith)
      (continuation-tail 0 0x80 0xBF (c / 2 ^ 6) c rest (omega arith) (omega arith)
        ∙ unfold continuation in ap some (omega arith))

-- No surrogate.
abbrev pub IsScalar : ℕ → Type 0
IsScalar c = (c < 0xD800) ⊎ (0xE000 ≤ c)

three-above : (c : ℕ) → 0x800 ≤ c → three_low (c / 2 ^ 12) ≤ tail_byte (c / 2 ^ 6)
three-above c h = ground arith

three-below : (c : ℕ) → IsScalar c → tail_byte (c / 2 ^ 6) ≤ three_high (c / 2 ^ 12)
three-below c (inl h) = ground arith
three-below c (inr h) = ground arith

three_bytes :
    (c : ℕ) (rest : List ℕ)
    → 0x800 ≤ c
    → c < 0x10000
    → IsScalar c
    → utf8_sequence ((0xE0 + c / 2 ^ 12) ∷ tail_byte (c / 2 ^ 6) ∷ tail_byte c ∷ rest) ≡ some (3, c)
three_bytes c rest low high scalar =
    sequence-read _ 3 (c / 2 ^ 12) _ _ c (tail_byte (c / 2 ^ 6) ∷ tail_byte c ∷ rest)
      (three-lead (c / 2 ^ 12) (omega arith)) (omega arith) (omega arith)
      (continuation-tail 1 _ _ (c / 2 ^ 12) (c / 2 ^ 6) (tail_byte c ∷ rest) (three-above c low)
          (three-below c scalar)
        ∙ continuation-tail 0 0x80 0xBF _ c rest (omega arith) (omega arith)
        ∙ unfold continuation in ap some (omega arith))

four-above : (c : ℕ) → 0x10000 ≤ c → four_low (c / 2 ^ 18) ≤ tail_byte (c / 2 ^ 12)
four-above c h = ground arith

four-below : (c : ℕ) → c < 0x110000 → tail_byte (c / 2 ^ 12) ≤ four_high (c / 2 ^ 18)
four-below c h = ground arith

four_bytes :
    (c : ℕ) (rest : List ℕ)
    → 0x10000 ≤ c
    → c < 0x110000
    → utf8_sequence
        ((0xF0 + c / 2 ^ 18) ∷ tail_byte (c / 2 ^ 12) ∷ tail_byte (c / 2 ^ 6) ∷ tail_byte c ∷ rest)
      ≡ some (4, c)
four_bytes c rest low high =
    sequence-read _ 4 (c / 2 ^ 18) _ _ c
      (tail_byte (c / 2 ^ 12) ∷ tail_byte (c / 2 ^ 6) ∷ tail_byte c ∷ rest)
      (four-lead (c / 2 ^ 18) (omega arith)) (omega arith) (omega arith)
      (continuation-tail 2 _ _ (c / 2 ^ 18) (c / 2 ^ 12)
          (tail_byte (c / 2 ^ 6) ∷ tail_byte c ∷ rest) (four-above c low) (four-below c high)
        ∙ continuation-tail 1 0x80 0xBF _ (c / 2 ^ 6) (tail_byte c ∷ rest) (omega arith)
            (omega arith)
        ∙ continuation-tail 0 0x80 0xBF _ c rest (omega arith) (omega arith)
        ∙ unfold continuation in ap some (omega arith))

-- Of the UTF-8 encoding of a code point from U+0080 to U+10FFFF that is no surrogate, whatever
-- follows it, utf8Sequence gives its length and the code point.
pub utf8_sequence-utf8_encode :
    (c : ℕ) (rest : List ℕ)
    → 0x80 ≤ c
    → c < 0x110000
    → IsScalar c
    → utf8_sequence (utf8_encode c ++ rest) ≡ some (utf8_size c, c)
utf8_sequence-utf8_encode c rest low high scalar = elim (Bool-cases (ltb c 0x800)) [
  | inl two ↦ rw two (two_bytes c rest low (ltb→lt _ _ two))
  | inr more ↦ elim (Bool-cases (ltb c 0x10000)) [
    | inl three ↦ rw (more, three) (three_bytes c rest (ltb→le _ _ more) (ltb→lt _ _ three) scalar)
    | inr four ↦ rw (more, four) (four_bytes c rest (ltb→le _ _ four) high)
  ]
]
