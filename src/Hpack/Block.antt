-- ===== src/Hpack/Block.antt =====
-- src/hpack.cpp, BlockReader: the integers and strings of a header block. The reader is the list of
-- the bytes that it has not read; a value read comes with the bytes behind it, and `none` is false.
pub mod Integers
pub mod Strings
use log_squirl_tcpdump.Common.{
  ℕ, zero, suc, ◌+◌, ◌-◌, ◌*◌, ◌/◌, ◌%◌, ◌^◌, List, [], ◌∷◌, Option, none, some, Bool, true, false,
  ltb, leb, ◌==◌, if◌then◌else◌, length, take, drop,
}
use log_squirl_tcpdump.Hpack.Huffman.{huffman_decode}
use mathlib.Core.Option

-- `byte & mask` where the mask is a run of low bits, `2 ^ n - 1`, or one bit, `2 ^ n`.
abbrev pub low_bits : ℕ → ℕ → ℕ
low_bits byte n = byte % 2 ^ n

abbrev pub bit_set : ℕ → ℕ → Bool
bit_set byte n = byte / 2 ^ n % 2 == 1

-- The loop over `shift`, 0, 7, 14 and 21: `rounds` are left.
unfoldable pub integer_rest : ℕ → ℕ → ℕ → List ℕ → Option (ℕ × List ℕ)
integer_rest zero shift value bytes = none
integer_rest (suc rounds) shift value [] = none
integer_rest (suc rounds) shift value (byte ∷ rest) =
    let value' = value + low_bits byte 7 * 2 ^ shift in
    let more = integer_rest rounds (shift + 7) value' rest in
    if bit_set byte 7 then more else some (value', rest)

unfoldable pub integer : ℕ → List ℕ → Option (ℕ × List ℕ)
integer prefix_bits [] = none
integer prefix_bits (byte ∷ rest) =
    let max = 2 ^ prefix_bits - 1 in
    let value = low_bits byte prefix_bits in
    if ltb value max then some (value, rest) else integer_rest 4 0 value rest

string_bytes : Bool → List ℕ → Option (List ℕ)
string_bytes huffman text = if huffman then huffman_decode text else some text

-- The string of `len` bytes at the front.
string_of : Bool → ℕ × List ℕ → Option (List ℕ × List ℕ)
unfolding string_bytes
string_of huffman (len, rest) =
    if ltb (length rest) len
    then none
    else Option.map (λ (text : List ℕ). (text, drop len rest))
        (string_bytes huffman (take len rest))

unfoldable pub string : List ℕ → Option (List ℕ × List ℕ)
unfolding string_of
string [] = none
string (byte ∷ rest) = Option.bind (integer 7 (byte ∷ rest)) (string_of (bit_set byte 7))
