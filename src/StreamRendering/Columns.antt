-- ===== src/StreamRendering/Columns.antt =====
-- Lines of a text: the column where it ends and the length of each line.
use log_squirl_tcpdump.Common.{
  ℕ, ◌+◌, ◌≤◌, ◌≡◌, refl, List, [], ◌∷◌, ◌++◌, length, Bool, true, false, ◌==◌, not, ◌&&◌, arith,
  Bool-cases, inl, inr, if◌then◌else◌,
}
use log_squirl_tcpdump.StreamRendering.{Unicode, max_line_chars, new_line}

-- The column behind a text that begins in one.
unfoldable pub column_after : ℕ → List ℕ → ℕ
column_after column [] = column
column_after column (c ∷ s) =
    if c == new_line then column_after 0 s else column_after (column + 1) s

-- No line of a text that begins in a column gets too long.
unfoldable pub HasShortLines : ℕ → List ℕ → Type 0
HasShortLines column [] = Unit {0}
HasShortLines column (c ∷ s) =
    if c == new_line
    then HasShortLines 0 s
    else ((column + 1 ≤ max_line_chars) × HasShortLines (column + 1) s)

-- A text on one line.
unfoldable pub no_breaks : List ℕ → Bool
no_breaks [] = true
no_breaks (c ∷ s) = not (c == new_line) && no_breaks s

-- What Qt gives of a code point from 0xA0 on: one unit or a pair of surrogates, no line break.
abbrev pub WritesCodePoints : Unicode → Type 0
WritesCodePoints unicode =
    (c : ℕ)
    → 0xA0 ≤ c
    → (length (unicode.from_ucs4 c) ≡ (if unicode.requires_surrogates c then 2 else 1))
      × (no_breaks (unicode.from_ucs4 c) ≡ true)

no_breaks-first :
    (c : ℕ) (more : Bool)
    → (not (c == new_line) && more) ≡ true
    → ((c == new_line) ≡ false) × (more ≡ true)
no_breaks-first c more h = ground arith

pub on_one_line :
    (column : ℕ) (s : List ℕ)
    → no_breaks s ≡ true
    → column + length s ≤ max_line_chars
    → HasShortLines column s × (column_after column s ≡ column + length s)
unfolding no_breaks HasShortLines column_after
on_one_line column [] h le = (tt, omega arith)
on_one_line column (c ∷ s) h le =
    let (no_break, more) = no_breaks-first c _ h in
    let (short, after) = on_one_line (column + 1) s more (omega arith) in
    rw no_break ((omega arith, short), omega (arith, after))

pub append-HasShortLines :
    (column : ℕ) (s t : List ℕ)
    → HasShortLines column s
    → HasShortLines (column_after column s) t
    → HasShortLines column (s ++ t)
unfolding HasShortLines column_after
append-HasShortLines column [] t h k = k
append-HasShortLines column (c ∷ s) t h k = elim (Bool-cases (c == new_line)) [
  | inl break ↦ rw break (append-HasShortLines 0 s t (rw break at h) (rw break at k))
  | inr other ↦
      let (le, short) = rw other at h in
      rw other (le, append-HasShortLines (column + 1) s t short (rw other at k))
]

pub column_after-append :
    (column : ℕ) (s t : List ℕ)
    → column_after column (s ++ t) ≡ column_after (column_after column s) t
unfolding column_after
column_after-append column [] t = refl
column_after-append column (c ∷ s) t = elim (Bool-cases (c == new_line)) [
  | inl break ↦ rw break (column_after-append 0 s t)
  | inr other ↦ rw other (column_after-append (column + 1) s t)
]
