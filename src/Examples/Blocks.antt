-- ===== src/Examples/Blocks.antt =====
-- Header blocks: the string `www.example.com` of RFC 7541 (C.4.1), a table of two entries, and
-- blocks that keep to the rules and break them.
use log_squirl_tcpdump.Common.{
  ℕ, ◌≤◌, ◌<◌, ◌≡◌, refl, List, [], ◌∷◌, ◌++◌, some, true, false, arith, All,
}
use log_squirl_tcpdump.Hpack.StaticTable.{HeaderField}
use log_squirl_tcpdump.Hpack.Huffman.{bits_of, huffman_decode}
use log_squirl_tcpdump.Hpack.Huffman.RoundTrip.{code_bits, encode, ones, huffman_decode-encode}
use log_squirl_tcpdump.Hpack.Huffman.Sound.{huffman_decode-Decoded}
use log_squirl_tcpdump.Hpack.Block.{integer, string}
use log_squirl_tcpdump.Hpack.Block.Integers.{encode_integer, integer-encode_integer}
use log_squirl_tcpdump.Hpack.Block.Strings.{encode_string, string-huffman}
use log_squirl_tcpdump.Hpack.Decoder.{HpackDecoder, evict, table_size, decode, decode_rounds}
use log_squirl_tcpdump.Hpack.Decoder.Evict.{Evicted, evict-Evicted}
use log_squirl_tcpdump.Hpack.Decoder.Bounded.{IsBounded, decode-IsBounded}
use log_squirl_tcpdump.Hpack.Decoder.Whole.{Outcome, decode-Outcome, decode_rounds-enough}

-- `www`, coded as 1111000 three times, and three ones.
abbrev www : List ℕ
www = 119 ∷ 119 ∷ 119 ∷ []

abbrev coded_www : List ℕ
coded_www = 241 ∷ 227 ∷ 199 ∷ []

www-coded : bits_of coded_www ≡ encode www ++ ones 3
unfolding encode code_bits
www-coded = refl

huffman_decode-encode_example : huffman_decode coded_www ≡ some www
huffman_decode-encode_example =
    huffman_decode-encode www coded_www 3 (omega arith, (omega arith, (omega arith, tt)))
      (omega arith) www-coded

huffman_decode-Decoded_example :
    (n : ℕ) × All (λ x. x < 256) www × (n ≤ 7) × (bits_of coded_www ≡ encode www ++ ones n)
huffman_decode-Decoded_example = huffman_decode-Decoded coded_www www huffman_decode-encode_example

-- 1337 of RFC 7541 (C.1.2).

integer-encode_integer_example :
    integer 5 (encode_integer 5 0 1337 ++ (7 ∷ [])) ≡ some (1337, 7 ∷ [])
integer-encode_integer_example =
    integer-encode_integer 5 0 1337 (7 ∷ []) (omega arith) (omega arith) (omega arith)

string-huffman_example : string (encode_string true coded_www ++ (7 ∷ [])) ≡ some (www, 7 ∷ [])
string-huffman_example =
    string-huffman www coded_www (7 ∷ []) 3 (omega arith, (omega arith, (omega arith, tt)))
      (omega arith) www-coded (omega arith)

abbrev small_field : HeaderField
small_field = record { name = 97 ∷ []; value = 98 ∷ [] }

abbrev two_entries : HpackDecoder
two_entries = record {
  table = small_field ∷ small_field ∷ [];
  size = 68;
  capacity = 100;
  max_capacity = 4096;
  broken = false;
}

two_entries-IsBounded : IsBounded two_entries
unfolding table_size
two_entries-IsBounded = record { counted = refl; fits = omega arith; settled = omega arith }

evict-Evicted_example : Evicted two_entries 40 (evict two_entries 40)
unfolding table_size
evict-Evicted_example = evict-Evicted two_entries 40 refl

-- An indexed field, `:method: GET`, then a literal with indexing.
abbrev block : List ℕ
block = 130 ∷ 64 ∷ 1 ∷ 99 ∷ 1 ∷ 100 ∷ []

decode-IsBounded_example : IsBounded (decode two_entries block []).decoder
decode-IsBounded_example = decode-IsBounded two_entries block [] two_entries-IsBounded

decode-Outcome_example : Outcome [] (decode two_entries block [])
decode-Outcome_example = decode-Outcome two_entries block [] refl

decode_rounds-enough_example :
    decode_rounds 9 two_entries false block [] ≡ decode_rounds 6 two_entries false block []
decode_rounds-enough_example =
    decode_rounds-enough 9 6 two_entries false block [] two_entries-IsBounded (omega arith)
      (omega arith)
