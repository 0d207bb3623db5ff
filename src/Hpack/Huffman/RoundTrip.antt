-- ===== src/Hpack/Huffman/RoundTrip.antt =====
-- A string's Huffman code, as RFC 7541 (5.2) gives it, is decoded to the string.
use log_squirl_tcpdump.Common.{
  ℕ, zero, suc, ◌≤◌, ◌<◌, ◌≡◌, refl, ◌≢◌, ◌⊎◌, inl, inr, List, [], ◌∷◌, ◌++◌, Option, none, some,
  Bool, true, false, ◌&&◌, ◌==◌, arith, get_elem?, All, ◌∙◌, ap, Bool-cases,
}
use log_squirl_tcpdump.Hpack.HuffmanCodes.{HuffmanCode, huffman_codes}
use log_squirl_tcpdump.Hpack.Huffman.{
  HuffmanTree, absent, leaf, node, bits_down, huffman_tree, eos, child, decode_bits, bits_of,
  huffman_decode,
}
use mathlib.Core.List.{append-nil, append_assoc}

code_bits_of : Option HuffmanCode → List Bool
code_bits_of none = []
code_bits_of (some c) = bits_down c.bits c.code

-- The bits of a symbol.
unfoldable pub code_bits : ℕ → List Bool
unfolding code_bits_of huffman_codes
code_bits symbol = code_bits_of (get_elem? huffman_codes symbol)

unfoldable pub encode : List ℕ → List Bool
encode [] = []
encode (x ∷ xs) = code_bits x ++ encode xs

abbrev pub ones : ℕ → List Bool
ones zero = []
ones (suc n) = true ∷ ones n

-- Whether a test holds of every symbol before the given one.
pub passes : (ℕ → Bool) → ℕ → Bool
passes test zero = true
passes test (suc symbol) = passes test symbol && test symbol

passes-before :
    (test : ℕ → Bool) (symbol last : ℕ)
    → symbol < last
    → passes test last ≡ true
    → test symbol ≡ true
unfolding passes
passes-before test symbol zero before all = absurd (omega arith)
passes-before test symbol (suc last) before all = elim (Bool-cases (passes test last)) [
  | inl most ↦ ground (arith, λ (h : symbol < last). passes-before test symbol last h most)
  | inr failed ↦ ground (arith, failed)
]

abbrev no_bits : List Bool → Bool
no_bits [] = true
no_bits (b ∷ bs) = false

-- A path that ends in the leaf of `symbol`.
leads : HuffmanTree → List Bool → ℕ → Bool
leads t [] symbol = false
leads t (side ∷ rest) symbol = elim (child t side) [
  | absent ↦ false
  | leaf x ↦ no_bits rest && (x == symbol)
  | node l r ↦ leads (node l r) rest symbol
]

pub HuffmanTree-cases :
    (t : HuffmanTree)
    → (t ≡ absent)
      ⊎ ((x : ℕ) × (t ≡ leaf x))
      ⊎ ((l : HuffmanTree) × (r : HuffmanTree) × (t ≡ node l r))
HuffmanTree-cases absent = inl refl
HuffmanTree-cases (leaf x) = inr (inl (x, refl))
HuffmanTree-cases (node l r) = inr (inr (l, r, refl))

last_of :
    (path : List Bool) (x symbol : ℕ)
    → (no_bits path && (x == symbol)) ≡ true
    → (path ≡ []) × (x ≡ symbol)
last_of [] x symbol h = (refl, ground arith)
last_of (b ∷ path) x symbol h = cc

not_eos : (symbol : ℕ) → symbol ≢ eos → (symbol == eos) ≡ false
not_eos symbol h = ground arith

decode_bits-leads :
    (root at : HuffmanTree) (path rest : List Bool) (symbol depth : ℕ) (all_ones : Bool)
    (out : List ℕ)
    → leads at path symbol ≡ true
    → symbol ≢ eos
    → decode_bits root (path ++ rest) at depth all_ones out
      ≡ decode_bits root rest root 0 true (out ++ (symbol ∷ []))
unfolding leads decode_bits
decode_bits-leads root at [] rest symbol depth all_ones out h ne = cc
decode_bits-leads root at (side ∷ path) rest symbol depth all_ones out h ne =
    elim (HuffmanTree-cases (child at side)) [
      | inl e ↦ let wrong : false ≡ true = rw (e, leads) at h in cc
      | inr (inl (x, e)) ↦
          let (nothing_left, same) = last_of path x symbol (rw (e, leads) at h) in
          rw (e, decode_bits, nothing_left, same, not_eos symbol ne)
      | inr (inr (l, r, e)) ↦
          rw (e, decode_bits)
            (decode_bits-leads root (node l r) path rest symbol (suc depth) (all_ones && side) out
              (rw (e, leads) at h) ne)
    ]

every_code : passes (λ s. leads huffman_tree (code_bits s) s) 256 ≡ true
unfolding passes leads code_bits huffman_tree
every_code = refl

decode_bits-symbol :
    (x : ℕ) (rest : List Bool) (out : List ℕ)
    → x < 256
    → decode_bits huffman_tree (code_bits x ++ rest) huffman_tree 0 true out
      ≡ decode_bits huffman_tree rest huffman_tree 0 true (out ++ (x ∷ []))
decode_bits-symbol x rest out h =
    decode_bits-leads huffman_tree huffman_tree (code_bits x) rest x 0 true out
      (passes-before (λ s. leads huffman_tree (code_bits s) s) x 256 h every_code) (omega arith)

-- Up to seven ones after the last symbol are padding.
decode_bits-ones :
    (n : ℕ) (out : List ℕ)
    → n ≤ 7
    → decode_bits huffman_tree (ones n) huffman_tree 0 true out ≡ some out
unfolding decode_bits huffman_tree
decode_bits-ones zero out h = refl
decode_bits-ones (suc zero) out h = refl
decode_bits-ones (suc (suc zero)) out h = refl
decode_bits-ones (suc (suc (suc zero))) out h = refl
decode_bits-ones (suc (suc (suc (suc zero)))) out h = refl
decode_bits-ones (suc (suc (suc (suc (suc zero))))) out h = refl
decode_bits-ones (suc (suc (suc (suc (suc (suc zero)))))) out h = refl
decode_bits-ones (suc (suc (suc (suc (suc (suc (suc zero))))))) out h = refl
decode_bits-ones (suc (suc (suc (suc (suc (suc (suc (suc n)))))))) out h = absurd (omega arith)

decode_bits-encode :
    (text : List ℕ) (n : ℕ) (out : List ℕ)
    → All (λ x. x < 256) text
    → n ≤ 7
    → decode_bits huffman_tree (encode text ++ ones n) huffman_tree 0 true out ≡ some (out ++ text)
unfolding encode
decode_bits-encode [] n out h k = rw append-nil (decode_bits-ones n out k)
decode_bits-encode (x ∷ text) n out (hx, h) k = rw append_assoc (
    decode_bits-symbol x (encode text ++ ones n) out hx
    ∙ decode_bits-encode text n (out ++ (x ∷ [])) h k
    ∙ ap some (append_assoc out (x ∷ []) text))

-- Bytes whose bits are the Huffman codes of a text of bytes, padded with at most seven ones, are
-- decoded to the text.
pub huffman_decode-encode :
    (text bytes : List ℕ) (n : ℕ)
    → All (λ x. x < 256) text
    → n ≤ 7
    → bits_of bytes ≡ encode text ++ ones n
    → huffman_decode bytes ≡ some text
unfolding huffman_decode
huffman_decode-encode text bytes n h k e = rw e (decode_bits-encode text n [] h k)
