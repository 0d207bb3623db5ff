-- ===== src/Hpack/Huffman/Sound.antt =====
-- What the Huffman decoder accepts is a text's code with its padding, and nothing else.
use log_squirl_tcpdump.Common.{
  ℕ, suc, ◌+◌, ◌≤◌, ◌<◌, ◌≡◌, refl, inl, inr, List, [], ◌∷◌, ◌++◌, none, some, Bool, true, false,
  ◌&&◌, leb, ltb, ◌==◌, arith, All, ◌∙◌, ap, sym, length, length-append, Bool-cases, leb→le,
}
use log_squirl_tcpdump.Hpack.Huffman.{
  HuffmanTree, absent, leaf, node, huffman_tree, eos, child, decode_bits, bits_of, huffman_decode,
}
use log_squirl_tcpdump.Hpack.Huffman.RoundTrip.{code_bits, encode, ones, HuffmanTree-cases}
use mathlib.Core.List.{append-nil, append_assoc}

same_bits : List Bool → List Bool → Bool
same_bits [] [] = true
same_bits (true ∷ xs) (true ∷ ys) = same_bits xs ys
same_bits (false ∷ xs) (false ∷ ys) = same_bits xs ys
same_bits _ _ = false

same_bits→eq : (xs ys : List Bool) → same_bits xs ys ≡ true → xs ≡ ys
unfolding same_bits
same_bits→eq [] [] h = refl
same_bits→eq [] (b ∷ ys) h = cc
same_bits→eq (true ∷ xs) [] h = cc
same_bits→eq (false ∷ xs) [] h = cc
same_bits→eq (true ∷ xs) (true ∷ ys) h = ap (λ zs. true ∷ zs) (same_bits→eq xs ys h)
same_bits→eq (false ∷ xs) (false ∷ ys) h = ap (λ zs. false ∷ zs) (same_bits→eq xs ys h)
same_bits→eq (true ∷ xs) (false ∷ ys) h = cc
same_bits→eq (false ∷ xs) (true ∷ ys) h = cc

-- Every leaf below `t`, to which `path` leads, stands at the end of its symbol's code.
places_codes : HuffmanTree → List Bool → Bool
places_codes absent path = true
places_codes (leaf x) path = ltb x 257 && same_bits path (code_bits x)
places_codes (node l r) path =
    places_codes l (path ++ (false ∷ [])) && places_codes r (path ++ (true ∷ []))

huffman_tree-places : places_codes huffman_tree [] ≡ true
unfolding places_codes same_bits code_bits huffman_tree
huffman_tree-places = refl

places_codes-child :
    (t : HuffmanTree) (side : Bool) (path : List Bool)
    → places_codes t path ≡ true
    → places_codes (child t side) (path ++ (side ∷ [])) ≡ true
unfolding places_codes
places_codes-child absent true path h = refl
places_codes-child absent false path h = refl
places_codes-child (leaf x) true path h = refl
places_codes-child (leaf x) false path h = refl
places_codes-child (node l r) true path h = ground arith
places_codes-child (node l r) false path h = ground arith

leaf-places :
    (x : ℕ) (path : List Bool)
    → places_codes (leaf x) path ≡ true
    → (x == eos) ≡ false
    → (x < 256) × (path ≡ code_bits x)
unfolding places_codes
leaf-places x path h ne = (ground arith, same_bits→eq path (code_bits x) (ground arith))

all_true : List Bool → Bool
all_true [] = true
all_true (b ∷ bs) = b && all_true bs

all_true-snoc : (xs : List Bool) (b : Bool) → all_true (xs ++ (b ∷ [])) ≡ (all_true xs && b)
unfolding all_true
all_true-snoc [] b = ground arith
all_true-snoc (x ∷ xs) b = ground (arith, all_true-snoc xs b)

all_true-ones : (xs : List Bool) → all_true xs ≡ true → xs ≡ ones (length xs)
unfolding all_true
all_true-ones [] h = refl
all_true-ones (x ∷ xs) h = ground (arith, all_true-ones xs)

append-nil-eq : (out result : List ℕ) → out ≡ result → result ≡ out ++ []
append-nil-eq out result e = sym e ∙ sym (append-nil out)

plus_one : (n : ℕ) → n + 1 ≡ suc n
plus_one n = omega arith

-- What `path`, read since the last symbol, and the bits that follow decode to.
abbrev DecodesTo : List Bool → List Bool → List ℕ → List ℕ → Type 0
DecodesTo path bits out result =
    (text : List ℕ) × (n : ℕ) × All (λ x. x < 256) text
    × (n ≤ 7)
    × (result ≡ out ++ text)
    × (path ++ bits ≡ encode text ++ ones n)

decode_bits-Decoded :
    (bits : List Bool) (at : HuffmanTree) (path : List Bool) (out result : List ℕ)
    → places_codes at path ≡ true
    → decode_bits huffman_tree bits at (length path) (all_true path) out ≡ some result
    → DecodesTo path bits out result
unfolding decode_bits encode all_true
decode_bits-Decoded [] at path out result placed h =
    let ending : (leb (length path) 7 && all_true path) ≡ true = ground arith in
    (
      [],
      length path,
      tt,
      leb→le _ _ (ground arith),
      append-nil-eq out result (ground arith),
      append-nil path ∙ all_true-ones path (ground arith),
    )
decode_bits-Decoded (side ∷ bits) at path out result placed h =
    let below = places_codes-child at side path placed in
    elim (HuffmanTree-cases (child at side)) [
      | inl e ↦ let wrong : none ≡ some result = rw (e, decode_bits) at h in cc
      | inr (inl (x, e)) ↦ elim (Bool-cases (x == eos)) [
        | inl ends ↦ let wrong : none ≡ some result = rw (e, decode_bits, ends) at h in cc
        | inr symbol ↦
            let (small, is_code) = leaf-places x (path ++ (side ∷ [])) (rw e at below) symbol in
            let (text, n, all, pad, res, bits_eq) =
              decode_bits-Decoded bits huffman_tree [] (out ++ (x ∷ [])) result huffman_tree-places
                (rw (e, decode_bits, symbol) at h) in
            (
              x ∷ text,
              n,
              (small, all),
              pad,
              res ∙ append_assoc out (x ∷ []) text,
              sym (append_assoc path (side ∷ []) bits)
                  ∙ ap (λ (p : List Bool). p ++ bits) is_code
                  ∙ ap (λ (r : List Bool). code_bits x ++ r) bits_eq
                  ∙ sym (append_assoc (code_bits x) (encode text) (ones n)),
            )
      ]
      | inr (inr (l, r, e)) ↦
          let (text, n, all, pad, res, bits_eq) =
            decode_bits-Decoded bits (node l r) (path ++ (side ∷ [])) out result (rw e at below)
              (rw (length-append, all_true-snoc, plus_one) (rw (e, decode_bits) at h)) in
          (text, n, all, pad, res, sym (append_assoc path (side ∷ []) bits) ∙ bits_eq)
    ]

-- Bytes that are decoded to a text hold the Huffman codes of the text's bytes, and after them at
-- most seven ones.
pub huffman_decode-Decoded :
    (bytes text : List ℕ)
    → huffman_decode bytes ≡ some text
    → (n : ℕ) × All (λ x. x < 256) text × (n ≤ 7) × (bits_of bytes ≡ encode text ++ ones n)
unfolding huffman_decode all_true
huffman_decode-Decoded bytes text h =
    let (text', n, all, pad, res, bits_eq) =
      decode_bits-Decoded (bits_of bytes) huffman_tree [] [] text huffman_tree-places h in
    (n, rw (← res) at all, pad, rw (← res) at bits_eq)
