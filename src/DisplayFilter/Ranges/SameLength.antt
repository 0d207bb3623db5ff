-- ===== src/DisplayFilter/Ranges/SameLength.antt =====
-- digitsRange: the texts of as many digits between two.
use log_squirl_tcpdump.Common.{
  ℕ, zero, suc, ◌+◌, ◌-◌, ◌≤◌, ◌<◌, ◌≡◌, refl, ap, sym, ◌∙◌, List, [], ◌∷◌, Bool, true, false, not,
  ◌&&◌, ◌||◌, ltb, leb, ◌==◌, if◌then◌else◌, length, arith, Bool-cases, inl, inr, ==_iff,
}
use log_squirl_tcpdump.DisplayFilter.Ranges.{
  Pattern, one_from, Patterns, nil, cons, accepts, accepts_any, joined, part_if, literal_digits,
  replicate, all_are, same_digits, digits_range, parts_of,
}
use log_squirl_tcpdump.DisplayFilter.Ranges.Order.{
  text_le, AreDigits, length-replicate, zeros_le, le_nines, all_zeros_le, le_all_nines,
  same_digits-between, same_digits-eq,
}

or_false : (a : Bool) → (a || false) ≡ a
or_false true = refl
or_false false = refl

and_true : (a : Bool) → (a && true) ≡ a
and_true true = refl
and_true false = refl

and_false : (a : Bool) → (a && false) ≡ false
and_false true = refl
and_false false = refl

pub accepts-joined : (ps : Patterns) (ds : List ℕ) → accepts (joined ps) ds ≡ accepts_any ps ds
unfolding accepts joined
accepts-joined nil ds = refl
accepts-joined (cons p nil) ds = sym (or_false (accepts p ds))
accepts-joined (cons p (cons q ps)) ds = refl

accepts_any-part_if :
    (c : Bool) (p : Pattern) (ps : Patterns) (ds : List ℕ)
    → accepts_any (part_if c p ps) ds ≡ ((c && accepts p ds) || accepts_any ps ds)
unfolding accepts
accepts_any-part_if true p ps ds = refl
accepts_any-part_if false p ps ds = refl

accepts-literal_digits : (low ds : List ℕ) → accepts (literal_digits low) ds ≡ same_digits low ds
unfolding accepts literal_digits same_digits
accepts-literal_digits [] [] = refl
accepts-literal_digits [] (d ∷ ds) = refl
accepts-literal_digits (l ∷ ls) [] = refl
accepts-literal_digits (l ∷ ls) (d ∷ ds) = ground (arith, accepts-literal_digits ls ds)

-- The first digits `l < h`, the digit `d` and whether the rest of the digits are below and above.
first_digit :
    (l h d : ℕ) (below above from_0 to_9 : Bool)
    → l < h
    → (from_0 ≡ true → below ≡ true)
    → (to_9 ≡ true → above ≡ true)
    → ((not from_0 && (leb l d && leb d l && below))
        || ((leb (if from_0 then l else l + 1) (if to_9 then h else h - 1)
              && (leb (if from_0 then l else l + 1) d && leb d (if to_9 then h else h - 1)))
            || (not to_9 && (leb h d && leb d h && above))))
      ≡ ((if l == d then below else ltb l d) && (if d == h then above else ltb d h))
first_digit l h d true true true true lt f t = ground arith
first_digit l h d true true true false lt f t = ground arith
first_digit l h d true true false true lt f t = ground arith
first_digit l h d true true false false lt f t = ground arith
first_digit l h d true false from true lt f t = absurd (ground (arith, t refl))
first_digit l h d true false true false lt f t = ground arith
first_digit l h d true false false false lt f t = ground arith
first_digit l h d false above true to lt f t = absurd (ground (arith, f refl))
first_digit l h d false true false true lt f t = ground arith
first_digit l h d false true false false lt f t = ground arith
first_digit l h d false false false true lt f t = absurd (ground (arith, t refl))
first_digit l h d false false false false lt f t = ground arith

-- The three parts of a range whose first digits differ, as one test of the first digit.
parts_lem :
    (n l h : ℕ) (ls hs : List ℕ) (lower upper : Pattern) (d : ℕ) (ds : List ℕ)
    → AreDigits ds
    → l < h
    → length ls ≡ n
    → length hs ≡ n
    → accepts lower ds ≡ ((length ds == n) && text_le ls ds && text_le ds (replicate n 9))
    → accepts upper ds ≡ ((length ds == n) && text_le (replicate n 0) ds && text_le ds hs)
    → ((not (all_are 0 ls) && (leb l d && leb d l && accepts lower ds))
        || ((leb (if all_are 0 ls then l else l + 1) (if all_are 9 hs then h else h - 1)
              && (leb (if all_are 0 ls then l else l + 1) d
                  && leb d (if all_are 9 hs then h else h - 1)
                  && (length ds == n)))
            || (not (all_are 9 hs) && (leb h d && leb d h && accepts upper ds))))
      ≡ ((length ds == n)
          && (if l == d then text_le ls ds else ltb l d)
          && (if d == h then text_le ds hs else ltb d h))
parts_lem n l h ls hs lower upper d ds a lt el eh lo up = elim (Bool-cases (length ds == n)) [
  | inl same ↦
      let len : length ds ≡ n = (==_iff _ _).0 same in
      rw (lo, up, same, le_nines n ds a len, zeros_le n ds len)
        (simp and_true (
          first_digit l h d (text_le ls ds) (text_le ds hs) (all_are 0 ls) (all_are 9 hs) lt
            (λ z. all_zeros_le ls ds z (omega arith)) (λ z. le_all_nines hs ds a z (omega arith))))
  | inr other ↦ rw (lo, up, other) (simp (and_false, or_false))
]

eq_suc : (a b : ℕ) → (suc a == suc b) ≡ (a == b)
eq_suc a b = ground arith

accepts-parts_of :
    (n l h : ℕ) (ls hs : List ℕ) (lower upper : Pattern) (ds : List ℕ)
    → AreDigits ds
    → l < h
    → length ls ≡ n
    → length hs ≡ n
    → ((xs : List ℕ)
        → AreDigits xs
        → accepts lower xs ≡ ((length xs == n) && text_le ls xs && text_le xs (replicate n 9)))
    → ((xs : List ℕ)
        → AreDigits xs
        → accepts upper xs ≡ ((length xs == n) && text_le (replicate n 0) xs && text_le xs hs))
    → accepts (joined (parts_of n l ls lower h hs upper)) ds
      ≡ ((length ds == suc n) && text_le (l ∷ ls) ds && text_le ds (h ∷ hs))
unfolding parts_of text_le accepts
accepts-parts_of n l h ls hs lower upper [] a lt el eh lo up =
    rw (accepts-joined, accepts_any-part_if, accepts_any-part_if, accepts_any-part_if)
      (simp (and_false) (ground arith))
accepts-parts_of n l h ls hs lower upper (d ∷ ds) (_, a) lt el eh lo up =
    rw (accepts-joined, accepts_any-part_if, accepts_any-part_if, accepts_any-part_if, or_false)
      (parts_lem n l h ls hs lower upper d ds a lt el eh (lo ds a) (up ds a)
        ∙ ap
            (λ (b : Bool).
              b
              && (if l == d then text_le ls ds else ltb l d)
              && (if d == h then text_le ds hs else ltb d h))
            (sym (eq_suc (length ds) n)))

module _ (n l h : ℕ) (ls hs : List ℕ) where
  digits_range-same :
      same_digits (l ∷ ls) (h ∷ hs) ≡ true
      → digits_range (suc n) (l ∷ ls) (h ∷ hs) ≡ literal_digits (l ∷ ls)
  unfolding digits_range
  digits_range-same same = rw (same, digits_range)

  digits_range-first :
      same_digits (l ∷ ls) (h ∷ hs) ≡ false
      → (l == h) ≡ true
      → digits_range (suc n) (l ∷ ls) (h ∷ hs) ≡ one_from l l (digits_range n ls hs)
  unfolding digits_range
  digits_range-first differ first = rw (differ, first, digits_range)

  digits_range-apart :
      same_digits (l ∷ ls) (h ∷ hs) ≡ false
      → (l == h) ≡ false
      → digits_range (suc n) (l ∷ ls) (h ∷ hs)
        ≡ joined (
            parts_of n l ls
              (digits_range n ls (replicate n 9))
              h
              hs
              (digits_range n (replicate n 0) hs))
  unfolding digits_range
  digits_range-apart differ apart = rw (differ, apart, digits_range)

pub replicate-AreDigits : (n d : ℕ) → d ≤ 9 → AreDigits (replicate n d)
replicate-AreDigits zero d h = tt
replicate-AreDigits (suc n) d h = (h, replicate-AreDigits n d h)

text_le-rest :
    (l h : ℕ) (ls hs : List ℕ)
    → (l == h) ≡ true
    → text_le (l ∷ ls) (h ∷ hs) ≡ true
    → text_le ls hs ≡ true
unfolding text_le
text_le-rest l h ls hs first le = rw first at le

text_le-first :
    (l h : ℕ) (ls hs : List ℕ) → (l == h) ≡ false → text_le (l ∷ ls) (h ∷ hs) ≡ true → l < h
unfolding text_le
text_le-first l h ls hs apart le = let less = rw apart at le in ground arith

accepts-first :
    (n l h : ℕ) (ls hs : List ℕ) (same : Pattern) (ds : List ℕ)
    → AreDigits ds
    → (l == h) ≡ true
    → ((xs : List ℕ)
        → AreDigits xs
        → accepts same xs ≡ ((length xs == n) && text_le ls xs && text_le xs hs))
    → accepts (one_from l l same) ds
      ≡ ((length ds == suc n) && text_le (l ∷ ls) ds && text_le ds (h ∷ hs))
unfolding text_le accepts
accepts-first n l h ls hs same [] a first ih = ground arith
accepts-first n l h ls hs same (d ∷ ds) (_, a) first ih = ground (arith, ih ds a)

-- Of a text of n digits low and one of n digits high, low at most high in the order of texts,
-- digitsRange gives a pattern that matches a text of digits exactly when that has n digits and
-- lies between the two.
pub accepts-digits_range :
    (n : ℕ) (low high ds : List ℕ)
    → AreDigits low
    → AreDigits ds
    → length low ≡ n
    → length high ≡ n
    → text_le low high ≡ true
    → accepts (digits_range n low high) ds ≡ ((length ds == n) && text_le low ds && text_le ds high)
accepts-digits_range n [] (h ∷ hs) ds al ad el eh le = absurd (omega arith)
accepts-digits_range n (l ∷ ls) [] ds al ad el eh le = absurd (omega arith)
accepts-digits_range zero (l ∷ ls) (h ∷ hs) ds al ad el eh le = absurd (omega arith)
accepts-digits_range (suc n) [] [] ds al ad el eh le = absurd (omega arith)
accepts-digits_range zero [] [] ds al ad el eh le =
    unfold digits_range in (accepts-literal_digits [] ds ∙ same_digits-between [] ds)
accepts-digits_range (suc n) (l ∷ ls) (h ∷ hs) ds (al, als) ad el eh le =
    elim (Bool-cases (same_digits (l ∷ ls) (h ∷ hs))) [
      | inl same ↦
          let e = same_digits-eq (l ∷ ls) (h ∷ hs) same in
          rw (digits_range-same n l h ls hs same, ← e, ← el)
            (accepts-literal_digits (l ∷ ls) ds ∙ same_digits-between (l ∷ ls) ds)
      | inr differ ↦ elim (Bool-cases (l == h)) [
        | inl first ↦ rw (digits_range-first n l h ls hs differ first) (
            accepts-first n l h ls hs (digits_range n ls hs) ds ad first (λ xs a.
              accepts-digits_range n ls hs xs als a (omega arith) (omega arith)
                (text_le-rest l h ls hs first le)))
        | inr apart ↦
            let el' : length ls ≡ n = omega arith in
            let eh' : length hs ≡ n = omega arith in
            rw (digits_range-apart n l h ls hs differ apart) (
              accepts-parts_of n l h ls hs _ _ ds ad (text_le-first l h ls hs apart le) el' eh'
                (λ xs a.
                  accepts-digits_range n ls (replicate n 9) xs als a el' (length-replicate n 9)
                    (le_nines n ls als el'))
                (λ xs a.
                  accepts-digits_range n (replicate n 0) hs xs
                    (replicate-AreDigits n 0 (omega arith)) a (length-replicate n 0) eh'
                    (zeros_le n hs eh')))
      ]
    ]
