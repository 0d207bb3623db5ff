-- ===== src/Hpack/Huffman.antt =====
-- src/hpack.cpp, HuffmanTree: the tree that the codes build, and the decoding of a string. The
-- source keeps the nodes in a vector, a child being the index of a node, the negated symbol of a
-- leaf or 0; here the tree is a data type with these three cases.
pub mod RoundTrip
pub mod Sound
use log_squirl_tcpdump.Common.{
  ℕ, zero, suc, ◌+◌, ◌-◌, ◌/◌, ◌%◌, ◌^◌, ◌≡◌, refl, List, [], ◌∷◌, ◌++◌, Option, none, some, Bool,
  true, false, ◌&&◌, leb, ◌==◌, if◌then◌else◌,
}
use log_squirl_tcpdump.Hpack.HuffmanCodes.{HuffmanCode, huffman_codes}

pub data HuffmanTree : Type 0 where
  absent : HuffmanTree
  leaf : ℕ → HuffmanTree
  node : HuffmanTree → HuffmanTree → HuffmanTree

-- The bits of a number from bit `n - 1` down.
abbrev pub bits_down : ℕ → ℕ → List Bool
bits_down zero code = []
bits_down (suc n) code = (code / 2 ^ n % 2 == 1) ∷ bits_down n code

-- The path of one symbol, with the nodes on it that are not there yet.
unfoldable pub add_code : HuffmanTree → List Bool → ℕ → HuffmanTree
add_code t [] symbol = leaf symbol
add_code (node l r) (false ∷ path) symbol = node (add_code l path symbol) r
add_code (node l r) (true ∷ path) symbol = node l (add_code r path symbol)
add_code t (false ∷ path) symbol = node (add_code absent path symbol) absent
add_code t (true ∷ path) symbol = node absent (add_code absent path symbol)

unfoldable pub add_codes : List HuffmanCode → ℕ → HuffmanTree → HuffmanTree
unfolding add_code
add_codes [] symbol t = t
add_codes (c ∷ cs) symbol t =
    add_codes cs (suc symbol) (add_code t (bits_down c.bits c.code) symbol)

unfoldable pub huffman_tree : HuffmanTree
unfolding add_codes huffman_codes
huffman_tree = add_codes huffman_codes 0 (node absent absent)

abbrev pub eos : ℕ
eos = 256

-- The child of a node on one side.
abbrev pub child : HuffmanTree → Bool → HuffmanTree
child (node l r) false = l
child (node l r) true = r
child t side = absent

-- The loop over the bits: the node reached, the bits read since the last symbol, whether those are
-- all ones, and the symbols so far.
unfoldable pub decode_bits :
    HuffmanTree → List Bool → HuffmanTree → ℕ → Bool → List ℕ → Option (List ℕ)
decode_bits root [] at depth all_ones out = if leb depth 7 && all_ones then some out else none
decode_bits root (side ∷ rest) at depth all_ones out = elim (child at side) [
  | absent ↦ none
  | leaf symbol ↦
      let more = decode_bits root rest root 0 true (out ++ (symbol ∷ [])) in
      if symbol == eos then none else more
  | node l r ↦ decode_bits root rest (node l r) (suc depth) (all_ones && side) out
]

-- The bits of a string of bytes, the highest of each first.
abbrev pub bits_of : List ℕ → List Bool
bits_of [] = []
bits_of (b ∷ bs) = bits_down 8 b ++ bits_of bs

unfoldable pub huffman_decode : List ℕ → Option (List ℕ)
huffman_decode bytes = decode_bits huffman_tree (bits_of bytes) huffman_tree 0 true []
