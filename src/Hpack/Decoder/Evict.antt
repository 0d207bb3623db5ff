-- ===== src/Hpack/Decoder/Evict.antt =====
-- Eviction: the newest entries stay, as many as the capacity allows.
use log_squirl_tcpdump.Common.{
  ℕ, zero, suc, ◌+◌, ◌-◌, ◌≤◌, ◌<◌, ◌≡◌, refl, inl, inr, List, [], ◌∷◌, ◌++◌, true, false, ltb,
  length, arith, Bool-cases, ltb→lt, ltb→le, ap, sym, ◌∙◌,
}
use log_squirl_tcpdump.Hpack.StaticTable.{HeaderField}
use log_squirl_tcpdump.Hpack.Decoder.{
  HpackDecoder, last_entry, pop_back, is_empty, table_size, evict_last, evict_rounds, evict,
}
use mathlib.Core.List.{append-nil, append_assoc}

pop_back-append : (es : List HeaderField) → pop_back es ++ last_entry es ≡ es
unfolding pop_back last_entry
pop_back-append [] = refl
pop_back-append (e ∷ []) = refl
pop_back-append (e ∷ x ∷ xs) = ap (λ ys. e ∷ ys) (pop_back-append (x ∷ xs))

table_size-append :
    (xs ys : List HeaderField) → table_size (xs ++ ys) ≡ table_size xs + table_size ys
unfolding table_size
table_size-append [] ys = omega arith
table_size-append (x ∷ xs) ys = omega (arith, table_size-append xs ys)

table_size-pop_back :
    (es : List HeaderField) → table_size es ≡ table_size (pop_back es) + table_size (last_entry es)
table_size-pop_back es =
    ap table_size (sym (pop_back-append es)) ∙ table_size-append (pop_back es) (last_entry es)

length-pop_back : (es : List HeaderField) → length (pop_back es) ≡ length es - 1
unfolding pop_back
length-pop_back [] = refl
length-pop_back (e ∷ []) = refl
length-pop_back (e ∷ x ∷ xs) = omega (arith, length-pop_back (x ∷ xs))

table_size-empty : (es : List HeaderField) → is_empty es ≡ true → table_size es ≡ 0
unfolding table_size
table_size-empty [] h = refl
table_size-empty (e ∷ es) h = cc

length-nonempty : (es : List HeaderField) → is_empty es ≡ false → 0 < length es
length-nonempty [] h = cc
length-nonempty (e ∷ es) h = omega arith

-- With the first of the dropped entries, the kept ones are too large.
pub Needed : ℕ → List HeaderField → List HeaderField → Type 0
Needed capacity kept [] = Unit
Needed capacity kept (e ∷ es) = capacity < table_size (kept ++ (e ∷ []))

-- The entries kept and those dropped; no entry is dropped while the kept ones fit with it.
pub record Evicted (d : HpackDecoder) (capacity : ℕ) (d' : HpackDecoder) : Type 0 where
  pub dropped : List HeaderField
  pub kept : d'.table ++ dropped ≡ d.table
  pub counted : d'.size ≡ table_size d'.table
  pub fits : d'.size ≤ capacity
  pub needed : Needed capacity d'.table dropped
  pub same_capacity : d'.capacity ≡ d.capacity
  pub same_max : d'.max_capacity ≡ d.max_capacity
  pub same_broken : d'.broken ≡ d.broken

Evicted-self :
    (capacity : ℕ) (d : HpackDecoder)
    → d.size ≡ table_size d.table
    → d.size ≤ capacity
    → Evicted d capacity d
unfolding Needed
Evicted-self capacity d counted h = record {
  dropped = [];
  kept = append-nil d.table;
  counted = counted;
  fits = h;
  needed = tt;
  same_capacity = refl;
  same_max = refl;
  same_broken = refl;
}

Needed-append :
    (capacity : ℕ) (kept dropped more : List HeaderField)
    → Needed capacity kept dropped
    → (length more ≤ 1)
    → capacity < table_size (kept ++ (dropped ++ more))
    → Needed capacity kept (dropped ++ more)
unfolding Needed
Needed-append capacity kept [] [] h one over = tt
Needed-append capacity kept [] (x ∷ []) h one over = over
Needed-append capacity kept [] (x ∷ y ∷ ys) h one over = absurd (omega arith)
Needed-append capacity kept (y ∷ ys) more h one over = h

length-last_entry : (es : List HeaderField) → length (last_entry es) ≤ 1
unfolding last_entry
length-last_entry [] = omega arith
length-last_entry (e ∷ []) = omega arith
length-last_entry (e ∷ x ∷ xs) = length-last_entry (x ∷ xs)

Evicted-round :
    (capacity : ℕ) (d d' : HpackDecoder)
    → d.size ≡ table_size d.table
    → capacity < d.size
    → Evicted (evict_last d) capacity d'
    → Evicted d capacity d'
unfolding evict_last
Evicted-round capacity d d' counted over rest =
    let whole : d'.table ++ (rest.dropped ++ last_entry d.table) ≡ d.table =
      sym (append_assoc d'.table rest.dropped (last_entry d.table))
      ∙ ap (λ ys. ys ++ last_entry d.table) rest.kept
      ∙ pop_back-append d.table in
    record {
      dropped = rest.dropped ++ last_entry d.table;
      kept = whole;
      counted = rest.counted;
      fits = rest.fits;
      needed =
          Needed-append capacity d'.table rest.dropped (last_entry d.table) rest.needed
            (length-last_entry d.table) (rw whole (omega arith));
      same_capacity = rest.same_capacity;
      same_max = rest.same_max;
      same_broken = rest.same_broken;
    }

evict_rounds-Evicted :
    (fuel capacity : ℕ) (d : HpackDecoder)
    → length d.table ≤ fuel
    → d.size ≡ table_size d.table
    → Evicted d capacity (evict_rounds fuel capacity d)
unfolding evict_rounds evict_last
evict_rounds-Evicted zero capacity d h counted = elim (Bool-cases (is_empty d.table)) [
  | inl none_left ↦
      Evicted-self capacity d counted (omega (arith, table_size-empty d.table none_left))
  | inr some_left ↦
      Evicted-self capacity d counted (omega (arith, length-nonempty d.table some_left))
]
evict_rounds-Evicted (suc fuel) capacity d h counted = elim (Bool-cases (ltb capacity d.size)) [
  | inl over ↦ elim (Bool-cases (is_empty d.table)) [
    | inl none_left ↦
        rw (over, none_left)
          (Evicted-self capacity d counted (omega (arith, table_size-empty d.table none_left)))
    | inr some_left ↦
        let rest =
          evict_rounds-Evicted fuel capacity (evict_last d) (omega (arith, length-pop_back d.table))
            (omega (arith, table_size-pop_back d.table)) in
        rw (over, some_left)
          (Evicted-round capacity d (evict_rounds fuel capacity (evict_last d)) counted
            (ltb→lt capacity d.size over) rest)
  ]
  | inr fits ↦ rw fits (Evicted-self capacity d counted (ltb→le capacity d.size fits))
]

-- An eviction to a capacity, of a decoder whose size is the sum of its entries' sizes, drops the
-- oldest entries, keeps the others and the rest of the state, has a size that is theirs and
-- within the capacity, and drops none that would have fitted with those kept.
pub evict-Evicted :
    (d : HpackDecoder) (capacity : ℕ)
    → d.size ≡ table_size d.table
    → Evicted d capacity (evict d capacity)
unfolding evict
evict-Evicted d capacity counted =
    evict_rounds-Evicted (length d.table) capacity d (omega arith) counted
