-- ===== src/DisplayFilter/Outcomes.antt =====
-- src/display_filter.cpp: what holds of the results, and of the tokens, of a filter of a size.
use log_squirl_tcpdump.Common.{
  ℕ, ◌+◌, ◌≤◌, ◌<◌, ◌≡◌, refl, ap, subst, if◌then◌else◌, List, [], ◌∷◌, length, Bool, true, false,
  Option, none, some,
}
use log_squirl_tcpdump.DisplayFilter.Syntax.{
  FilterError, FilterOutcome, ok, failed, past_end, out_of_fuel, ◌>>=◌,
}
use log_squirl_tcpdump.DisplayFilter.Tokens.{Token, TokenType, word_type, end_type}
use log_squirl_tcpdump.DisplayFilter.Tests.{same_type}

abbrev pub Holds {ℓ} : {A : Type ℓ} → ℕ → (A → Type 0) → FilterOutcome A → Type 0
Holds size P (ok a) = P a
Holds size P (failed e) = e.position ≤ size
Holds size P past_end = ⊥
Holds size P out_of_fuel = ⊥

-- A result with a property, or an error at a place in the filter or at its end.
pub record Within {ℓ} {A : Type ℓ} (size : ℕ) (P : A → Type 0) (o : FilterOutcome A) : Type 0 where
  pub shown : Holds size P o

pub done {ℓ} : {A : Type ℓ} {size : ℕ} {P : A → Type 0} {a : A} → P a → Within size P (ok a)
done h = record { shown = h }

pub refused {ℓ} :
    {A : Type ℓ} {size : ℕ} {P : A → Type 0} {e : FilterError}
    → e.position ≤ size
    → Within size P (failed e)
refused h = record { shown = h }

pub Within-if {ℓ} :
    {A : Type ℓ} (size : ℕ) (P : A → Type 0) (c : Bool) (x y : FilterOutcome A)
    → Within size P x
    → Within size P y
    → Within size P (if c then x else y)
Within-if size P true x y h k = h
Within-if size P false x y h k = k

-- The same where the condition is known in each branch.
pub Within-test {ℓ} :
    {A : Type ℓ} (size : ℕ) (P : A → Type 0) (c : Bool) (x y : FilterOutcome A)
    → (c ≡ true → Within size P x)
    → (c ≡ false → Within size P y)
    → Within size P (if c then x else y)
Within-test size P true x y h k = h refl
Within-test size P false x y h k = k refl

pub Within-option {ℓ κ} :
    {A : Type ℓ} {B : Type κ} (size : ℕ) (P : A → Type 0) (o : Option B) (x : FilterOutcome A)
    (f : B → FilterOutcome A)
    → Within size P x
    → ((b : B) → o ≡ some b → Within size P (f b))
    → Within size P (elim o [ none ↦ x | some b ↦ f b ])
Within-option size P none x f h k = h
Within-option size P (some b) x f h k = k b refl

pub Within-bind {ℓ κ} :
    {A : Type ℓ} {B : Type κ} (size : ℕ) (P : A → Type 0) (Q : B → Type 0) (m : FilterOutcome A)
    (f : A → FilterOutcome B)
    → Within size P m
    → ((a : A) → P a → Within size Q (f a))
    → Within size Q (m >>= f)
Within-bind size P Q (ok a) f h k = k a h.shown
Within-bind size P Q (failed e) f h k = record { shown = h.shown }
Within-bind size P Q past_end f h k = absurd h.shown
Within-bind size P Q out_of_fuel f h k = absurd h.shown

-- A token of the filter; a word has a first unit, and ends in the filter.
pub record InFilter (size : ℕ) (token : Token) : Type 0 where
  pub within : token.position ≤ size
  pub word_in :
      same_type token.type word_type ≡ true
      → (0 < length token.text) × (token.position + length token.text ≤ size)

-- The last token is the end.
unfoldable pub EndsWell : List Token → Type 0
EndsWell [] = ⊥
EndsWell (token ∷ []) = token.type ≡ end_type
EndsWell (token ∷ next ∷ tokens) = EndsWell (next ∷ tokens)

pub EndsWell-cons :
    (token : Token) (tokens : List Token) → EndsWell tokens → EndsWell (token ∷ tokens)
unfolding EndsWell
EndsWell-cons token [] h = absurd h
EndsWell-cons token (next ∷ tokens) h = h

pub EndsWell-tail :
    (token : Token) (tokens : List Token)
    → same_type token.type end_type ≡ false
    → EndsWell (token ∷ tokens)
    → EndsWell tokens
unfolding EndsWell same_type
EndsWell-tail token [] h e = absurd (cc (h, ap (λ (t : TokenType). same_type t end_type) e))
EndsWell-tail token (next ∷ tokens) h e = e

pub Within-map {ℓ} :
    {A : Type ℓ} (size : ℕ) (P Q : A → Type 0) (o : FilterOutcome A)
    → Within size P o
    → ((a : A) → P a → Q a)
    → Within size Q o
Within-map size P Q (ok a) h k = record { shown = k a h.shown }
Within-map size P Q (failed e) h k = record { shown = h.shown }
Within-map size P Q past_end h k = record { shown = h.shown }
Within-map size P Q out_of_fuel h k = record { shown = h.shown }

pub Holds-at {ℓ} :
    {A : Type ℓ} (size : ℕ) (P : A → Type 0) {o r : FilterOutcome A}
    → o ≡ r
    → Holds size P o
    → Holds size P r
Holds-at size P e h = subst (Holds size P) e h
