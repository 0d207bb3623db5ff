-- ===== src/TcpReassembly/Table.antt =====
-- src/tcp_reassembly.cpp: the table of entries and the order they were used in, as their keys tell them.
use log_squirl_tcpdump.Common.{
  ℕ, suc, ◌+◌, List, [], ◌∷◌, ◌++◌, none, some, Bool, true, false, ◌==◌, if◌then◌else◌, ◌≡◌, refl,
  subst, ◌∙◌, inl, inr, Bool-cases, ==_iff, length, arith,
}
use log_squirl_tcpdump.TcpReassembly.{Entry, find_entry, erase_entry, put_entry, erase_key, oldest}

unfoldable pub Once : List (ℕ × Entry) → Type 0
Once [] = Unit {0}
Once (p ∷ rest) = (find_entry p.0 rest ≡ none) × Once rest

unfoldable pub costs : List (ℕ × Entry) → ℕ
costs [] = 0
costs (p ∷ rest) = p.1.cost + costs rest

unfoldable pub among : ℕ → List ℕ → Bool
among key [] = false
among key (k ∷ rest) = if k == key then true else among key rest

unfoldable pub Distinct : List ℕ → Type 0
Distinct [] = Unit {0}
Distinct (k ∷ rest) = (among k rest ≡ false) × Distinct rest

pub equal_key : (j k : ℕ) → (j == k) ≡ true → j ≡ k
equal_key j k e = (==_iff j k).0 e

pub key_refl : (k : ℕ) → (k == k) ≡ true
key_refl k = ground arith

pub key_sym : (j k : ℕ) → (j == k) ≡ false → (k == j) ≡ false
key_sym j k h = ground arith

pub find_entry-head_same :
    (j key : ℕ) (e : Entry) (es : List (ℕ × Entry))
    → (key == j) ≡ true
    → find_entry j ((key, e) ∷ es) ≡ some e
unfolding find_entry
find_entry-head_same j key e es h = rw h refl

pub find_entry-head_other :
    (j key : ℕ) (e : Entry) (es : List (ℕ × Entry))
    → (key == j) ≡ false
    → find_entry j ((key, e) ∷ es) ≡ find_entry j es
unfolding find_entry
find_entry-head_other j key e es h = rw h refl

pub find_entry-erase_same :
    (key : ℕ) (es : List (ℕ × Entry)) → Once es → find_entry key (erase_entry key es) ≡ none
unfolding find_entry erase_entry Once
find_entry-erase_same key [] h = refl
find_entry-erase_same key (p ∷ rest) h = elim (Bool-cases (p.0 == key)) [
  | inl e ↦ rw e (subst (λ k. find_entry k rest ≡ none) (equal_key _ _ e) h.0)
  | inr e ↦ rw (e, e) (find_entry-erase_same key rest h.1)
]

pub find_entry-erase_other :
    (j key : ℕ) (es : List (ℕ × Entry))
    → (j == key) ≡ false
    → find_entry j (erase_entry key es) ≡ find_entry j es
unfolding find_entry erase_entry
find_entry-erase_other j key [] h = refl
find_entry-erase_other j key (p ∷ rest) h = ground (arith, find_entry-erase_other j key rest h)

pub find_entry-put_same :
    (key : ℕ) (e e' : Entry) (es : List (ℕ × Entry))
    → find_entry key es ≡ some e
    → find_entry key (put_entry key e' es) ≡ some e'
unfolding find_entry put_entry
find_entry-put_same key e e' [] h = cc
find_entry-put_same key e e' (p ∷ rest) h = ground (arith, find_entry-put_same key e e' rest)

pub find_entry-put_other :
    (j key : ℕ) (e : Entry) (es : List (ℕ × Entry))
    → (j == key) ≡ false
    → find_entry j (put_entry key e es) ≡ find_entry j es
unfolding find_entry put_entry
find_entry-put_other j key e [] h = refl
find_entry-put_other j key e (p ∷ rest) h = ground (arith, find_entry-put_other j key e rest h)

pub Once-erase : (key : ℕ) (es : List (ℕ × Entry)) → Once es → Once (erase_entry key es)
unfolding Once erase_entry
Once-erase key [] h = h
Once-erase key (p ∷ rest) h = elim (Bool-cases (p.0 == key)) [
  | inl e ↦ rw e h.1
  | inr e ↦ rw e (find_entry-erase_other p.0 key rest e ∙ h.0, Once-erase key rest h.1)
]

pub Once-put : (key : ℕ) (e : Entry) (es : List (ℕ × Entry)) → Once es → Once (put_entry key e es)
unfolding Once put_entry
Once-put key e [] h = h
Once-put key e (p ∷ rest) h = elim (Bool-cases (p.0 == key)) [
  | inl f ↦ rw f (subst (λ k. find_entry k rest ≡ none) (equal_key _ _ f) h.0, h.1)
  | inr f ↦ rw f (find_entry-put_other p.0 key e rest f ∙ h.0, Once-put key e rest h.1)
]

pub costs-erase :
    (key : ℕ) (e : Entry) (es : List (ℕ × Entry))
    → find_entry key es ≡ some e
    → costs (erase_entry key es) + e.cost ≡ costs es
unfolding costs erase_entry find_entry
costs-erase key e [] h = cc
costs-erase key e (p ∷ rest) h = ground (arith, costs-erase key e rest)

pub costs-put :
    (key : ℕ) (e e' : Entry) (es : List (ℕ × Entry))
    → find_entry key es ≡ some e
    → costs (put_entry key e' es) + e.cost ≡ costs es + e'.cost
unfolding costs put_entry find_entry
costs-put key e e' [] h = cc
costs-put key e e' (p ∷ rest) h = ground (arith, costs-put key e e' rest)

pub among-erase_same : (key : ℕ) (ks : List ℕ) → Distinct ks → among key (erase_key key ks) ≡ false
unfolding among erase_key Distinct
among-erase_same key [] h = refl
among-erase_same key (k ∷ rest) h = elim (Bool-cases (k == key)) [
  | inl e ↦ rw e (subst (λ k. among k rest ≡ false) (equal_key _ _ e) h.0)
  | inr e ↦ rw (e, e) (among-erase_same key rest h.1)
]

pub among-erase_other :
    (j key : ℕ) (ks : List ℕ) → (j == key) ≡ false → among j (erase_key key ks) ≡ among j ks
unfolding among erase_key
among-erase_other j key [] h = refl
among-erase_other j key (k ∷ rest) h = ground (arith, among-erase_other j key rest h)

pub Distinct-erase : (key : ℕ) (ks : List ℕ) → Distinct ks → Distinct (erase_key key ks)
unfolding Distinct erase_key
Distinct-erase key [] h = h
Distinct-erase key (k ∷ rest) h = elim (Bool-cases (k == key)) [
  | inl e ↦ rw e h.1
  | inr e ↦ rw e (among-erase_other k key rest e ∙ h.0, Distinct-erase key rest h.1)
]

pub length-erase_key :
    (key : ℕ) (ks : List ℕ) → among key ks ≡ true → suc (length (erase_key key ks)) ≡ length ks
unfolding among erase_key
length-erase_key key [] h = cc
length-erase_key key (k ∷ rest) h = ground (arith, length-erase_key key rest)

pub among-snoc :
    (j key : ℕ) (ks : List ℕ) → among j (ks ++ (key ∷ [])) ≡ (if key == j then true else among j ks)
unfolding among
among-snoc j key [] = refl
among-snoc j key (k ∷ rest) = ground (arith, among-snoc j key rest)

pub Distinct-snoc :
    (key : ℕ) (ks : List ℕ) → Distinct ks → among key ks ≡ false → Distinct (ks ++ (key ∷ []))
unfolding Distinct among
Distinct-snoc key [] h a = (refl, tt)
Distinct-snoc key (k ∷ rest) h a = elim (Bool-cases (k == key)) [
  | inl e ↦ ground arith
  | inr e ↦
      let later : among key rest ≡ false = ground arith in
      (ground (arith, among-snoc k key rest), Distinct-snoc key rest h.1 later)
]

pub oldest_listed :
    (keep k : ℕ) (ks : List ℕ)
    → Distinct ks
    → oldest keep ks ≡ some k
    → (among k ks ≡ true) × ((k == keep) ≡ false)
unfolding oldest among Distinct
oldest_listed keep k [] h o = cc
oldest_listed keep k (a ∷ []) h o = ground arith
oldest_listed keep k (a ∷ b ∷ rest) h o = ground arith

-- No key but `keep` is left to let go.
pub oldest-none :
    (keep k : ℕ) (ks : List ℕ) → oldest keep ks ≡ none → among k ks ≡ true → (k == keep) ≡ true
unfolding oldest among
oldest-none keep k [] o h = cc
oldest-none keep k (a ∷ []) o h = ground arith
oldest-none keep k (a ∷ b ∷ rest) o h = ground arith
