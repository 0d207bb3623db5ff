-- ===== src/Hpack/Block/Strings.antt =====
-- String literals of RFC 7541 (5.2): what is read is shorter than the bytes, and what the encoder
-- writes is read back.
use log_squirl_tcpdump.Common.{
  ℕ, ◌+◌, ◌-◌, ◌*◌, ◌^◌, ◌≤◌, ◌<◌, ◌≡◌, refl, inl, inr, List, [], ◌∷◌, ◌++◌, Option, none, some,
  Bool, true, false, ltb, if◌then◌else◌, arith, ap, length, take, drop, Bool-cases, ltb→lt,
  bind-some, map-some, length-drop, length-append, ◌==◌, All, ◌∙◌,
}
use log_squirl_tcpdump.Hpack.Block.{bit_set, integer, string, string_of, string_bytes}
use log_squirl_tcpdump.Hpack.Block.Integers.{
  encode_integer, groups, integer_bounds, integer-encode_integer,
}
use log_squirl_tcpdump.Hpack.Huffman.{bits_of}
use log_squirl_tcpdump.Hpack.Huffman.RoundTrip.{encode, ones, huffman_decode-encode}
use mathlib.Core.List.{append_assoc}
use mathlib.Core.Option

string_of_shorter :
    (huffman : Bool) (len : ℕ) (bytes text rest : List ℕ)
    → string_of huffman (len, bytes) ≡ some (text, rest)
    → length rest ≤ length bytes
unfolding string_of
string_of_shorter huffman len bytes text rest h = elim (Bool-cases (ltb (length bytes) len)) [
  | inl long ↦
      let e : ◌≡◌ {A = Option (List ℕ × List ℕ)} none (some (text, rest)) = rw long at h in cc
  | inr fits ↦
      let (t, read, e) = map-some _ _ _ (rw fits at h) in
      omega (arith, ap (λ p. length p.1) e, length-drop len bytes)
]

-- A string read leaves fewer bytes than there were.
pub string_shorter :
    (bytes text rest : List ℕ) → string bytes ≡ some (text, rest) → length rest < length bytes
unfolding string
string_shorter [] text rest h = cc
string_shorter (b ∷ bs) text rest h =
    let (p, read, e) = bind-some _ _ _ h in
    let bounds = integer_bounds 7 (b ∷ bs) p.0 p.1 (omega arith) read in
    let shorter = bounds.1 in omega (arith, shorter, string_of_shorter _ p.0 p.1 text rest e)

first_flag : (flag v : ℕ) → flag ≤ 1 → v < 128 → bit_set (flag * 128 + v) 7 ≡ (flag == 1)
first_flag flag v h k = ground arith

take-append : (xs ys : List ℕ) → take (length xs) (xs ++ ys) ≡ xs
take-append [] ys = refl
take-append (x ∷ xs) ys = ap (λ zs. x ∷ zs) (take-append xs ys)

drop-append : (xs ys : List ℕ) → drop (length xs) (xs ++ ys) ≡ ys
drop-append [] ys = refl
drop-append (x ∷ xs) ys = drop-append xs ys

string_of-append :
    (huffman : Bool) (bytes text rest : List ℕ)
    → string_bytes huffman bytes ≡ some text
    → string_of huffman (length bytes, bytes ++ rest) ≡ some (text, rest)
unfolding string_of
string_of-append huffman bytes text rest e =
    let fits : ltb (length (bytes ++ rest)) (length bytes) ≡ false =
      ground (arith, length-append bytes rest) in
    rw (fits, take-append, drop-append, e)

-- The string literal of RFC 7541: the flag, the length and the bytes.
abbrev pub encode_string : Bool → List ℕ → List ℕ
encode_string huffman bytes = encode_integer 7 (if huffman then 1 else 0) (length bytes) ++ bytes

string-cons :
    (b : ℕ) (bs : List ℕ) (v : ℕ) (rest : List ℕ) (huffman : Bool)
    → integer 7 (b ∷ bs) ≡ some (v, rest)
    → bit_set b 7 ≡ huffman
    → string (b ∷ bs) ≡ string_of huffman (v, rest)
unfolding string Option.bind
string-cons b bs v rest huffman read flag = rw (read, flag)

string-flagged :
    (flag v : ℕ) (rest : List ℕ)
    → flag ≤ 1
    → v < 2 ^ 28
    → string (encode_integer 7 flag v ++ rest) ≡ string_of (flag == 1) (v, rest)
string-flagged flag v rest h k =
    let read = integer-encode_integer 7 flag v rest (omega arith) (omega arith) (omega arith) in
    elim (Bool-cases (ltb v 127)) [
      | inl short ↦ rw short (
          string-cons (flag * 128 + v) rest v rest (flag == 1) (rw short at read)
            (first_flag flag v h (omega (arith, ltb→lt v 127 short))))
      | inr long ↦ rw long (
          string-cons (flag * 128 + 127) (groups 4 (v - 127) ++ rest) v rest (flag == 1)
            (rw long at read) (first_flag flag 127 h (omega arith)))
    ]

-- A string literal that spells out a text of fewer than 2 ^ 28 bytes is read back with the bytes
-- behind it.
pub string-plain :
    (text rest : List ℕ)
    → length text < 2 ^ 28
    → string (encode_string false text ++ rest) ≡ some (text, rest)
unfolding string_bytes
string-plain text rest h = rw append_assoc (
    string-flagged 0 (length text) (text ++ rest) (omega arith) h
    ∙ string_of-append false text text rest refl)

-- A string literal that holds a text of bytes, Huffman-coded with at most seven ones behind it in
-- fewer than 2 ^ 28 bytes, is read back with the bytes behind it.
pub string-huffman :
    (text bytes rest : List ℕ) (padding : ℕ)
    → All (λ x. x < 256) text
    → padding ≤ 7
    → bits_of bytes ≡ encode text ++ ones padding
    → length bytes < 2 ^ 28
    → string (encode_string true bytes ++ rest) ≡ some (text, rest)
unfolding string_bytes
string-huffman text bytes rest padding small short coded h = rw append_assoc (
    string-flagged 1 (length bytes) (bytes ++ rest) (omega arith) h
    ∙ string_of-append true bytes text rest
        (huffman_decode-encode text bytes padding small short coded))
