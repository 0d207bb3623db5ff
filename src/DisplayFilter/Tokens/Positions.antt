-- ===== src/DisplayFilter/Tokens/Positions.antt =====
-- tokenize: each token stands in the filter, the last is the end, and errors have a place in it.
use log_squirl_tcpdump.Common.{
  ℕ, zero, suc, ◌+◌, ◌-◌, ◌≤◌, ◌<◌, ◌≡◌, refl, List, [], ◌∷◌, length, All, Bool, true, false,
  if_both, arith, if◌then◌else◌, ◌==◌, ◌&&◌, ◌||◌, not, drop,
}
use log_squirl_tcpdump.DisplayFilter.Syntax.{
  Text, units, text_equals, has_text, ok, FilterOperator, present,
}
use log_squirl_tcpdump.DisplayFilter.Tokens.{
  Qt, Token, TokenType, word_type, open_type, close_type, and_type, or_type, compare_type, token_at,
  word_of, is_word_character, comparison_op, token_of_word, order_token, scan_word, scan,
  tokens_from, tokenize, unit_at, unsupported_operators,
}
use log_squirl_tcpdump.DisplayFilter.Tests.{same_type}
use log_squirl_tcpdump.DisplayFilter.Outcomes.{
  Within, done, refused, Within-if, Within-test, Within-option, Within-bind, InFilter, EndsWell,
  EndsWell-cons,
}

plain_token :
    {size : ℕ} (i : ℕ) (type : TokenType) (text : Text) (op : FilterOperator)
    → same_type type word_type ≡ false
    → i ≤ size
    → InFilter size (token_at i type text op)
plain_token i type text op h le = record { within = le; word_in = λ e. absurd cc }

not_word :
    (c : Bool) (type other : TokenType)
    → same_type type word_type ≡ false
    → same_type other word_type ≡ false
    → same_type (if c then type else other) word_type ≡ false
not_word c type other h k = if_both (λ t. same_type t word_type ≡ false) c h k

token_of_word-InFilter :
    (size i : ℕ) (text lower : Text)
    → 0 < length text
    → i + length text ≤ size
    → Within size (InFilter size) (token_of_word i text lower)
unfolding token_of_word same_type
token_of_word-InFilter size i text lower ne le =
    let W = InFilter size in
    let here : i ≤ size = omega arith in
    let plain = λ (type : TokenType) (op : FilterOperator) (h : same_type type word_type ≡ false).
      plain_token {size = size} i type text op h here in
    let word_here : InFilter size (token_at i word_type text present) = record {
      within = here;
      word_in = λ e. (ne, le);
    } in
    let comparison : (op : FilterOperator) → InFilter size (token_at i compare_type text op) =
      λ op. plain _ op refl in
    Within-if size W (text_equals lower (units "and")) _ _ (done (plain _ _ refl)) (
      Within-if size W (text_equals lower (units "or")) _ _ (done (plain _ _ refl)) (
        Within-if size W (text_equals lower (units "not")) _ _ (done (plain _ _ refl)) (
          Within-option size W (comparison_op lower) _ _
            (Within-if size W (has_text lower unsupported_operators) _ _ (refused here) (
              Within-if size W (text_equals lower (units "xor")) _ _ (refused here)
                (done word_here)))
            (λ op e. done (comparison op)))))

length-word_of : (qt : Qt) (s : Text) → length (word_of qt s) ≤ length s
unfolding word_of
length-word_of qt [] = omega arith
length-word_of qt (c ∷ s) = ground (arith, length-word_of qt s)

word_of-pos :
    (qt : Qt) (c : ℕ) (s : Text) → is_word_character qt c ≡ true → 0 < length (word_of qt (c ∷ s))
unfolding word_of
word_of-pos qt c s h = rw h (omega arith)

abbrev First : ℕ → Token × ℕ → Type 0
First size (token, n) = InFilter size token

order_token-InFilter : (size i c : ℕ) (rest : Text) → i ≤ size → First size (order_token i c rest)
unfolding order_token same_type
order_token-InFilter size i c rest le = plain_token i _ _ _ refl le

scan_word-InFilter :
    (qt : Qt) (size i : ℕ) (text : Text)
    → 0 < length text
    → i + length text ≤ size
    → Within size (First size) (scan_word qt i text)
unfolding scan_word
scan_word-InFilter qt size i text ne le =
    Within-bind size (InFilter size) (First size) (token_of_word i text (qt.to_lower text))
      (λ token. ok (token, length text))
      (token_of_word-InFilter size i text (qt.to_lower text) ne le) (λ token h. done h)

scan-InFilter :
    (qt : Qt) (size i c : ℕ) (rest : Text)
    → i + length (c ∷ rest) ≡ size
    → Within size (First size) (scan qt i c rest)
unfolding scan same_type
scan-InFilter qt size i c rest e =
    let F = First size in
    let here : i ≤ size = omega arith in
    let plain =
      λ (type : TokenType) (text : Text) (op : FilterOperator)
          (h : same_type type word_type ≡ false).
        plain_token {size = size} i type text op h here in
    Within-if size F ((c == b'(') || (c == b')')) _ _
      (done (plain _ _ _ (not_word (c == b'(') open_type close_type refl refl)))
      (Within-if size F ((c == b'!') && (unit_at rest == b'=')) _ _
        (Within-if size F (unit_at (drop 1 rest) == b'=') _ _ (refused here)
          (done (plain _ _ _ refl)))
        (Within-if size F (c == b'!') _ _ (done (plain _ _ _ refl)) (
          Within-if size F (c == b'=') _ _
            (Within-if size F (not (unit_at rest == b'=')) _ _ (refused here) (
              Within-if size F (unit_at (drop 1 rest) == b'=') _ _ (refused here)
                (done (plain _ _ _ refl))))
            (Within-if size F ((c == b'<') || (c == b'>')) _ _
              (done (order_token-InFilter size i c rest here))
              (Within-if size F ((c == b'&') || (c == b'|')) _ _
                (Within-if size F (not (unit_at rest == c)) _ _ (refused here)
                  (done (plain _ _ _ (not_word (c == b'&') and_type or_type refl refl))))
                (Within-if size F ((c == 34) || (c == 39)) _ _ (refused here) (
                  Within-if size F (c == b'[') _ _ (refused here) (
                    Within-if size F (c == b'{') _ _ (refused here) (
                      Within-if size F ((c == b'~') || (c == b'^')) _ _ (refused here) (
                        Within-test size F (is_word_character qt c) _ _
                          (λ is_word.
                            scan_word-InFilter qt size i (word_of qt (c ∷ rest))
                              (word_of-pos qt c rest is_word)
                              (omega (arith, length-word_of qt (c ∷ rest))))
                          (λ _. refused here)))))))))))

-- A text of the tokenizer's: all its tokens in the filter, and the end last.
abbrev pub Scans : ℕ → List Token → Type 0
Scans size tokens = EndsWell tokens × All (InFilter size) tokens

tokens_from-Scans :
    (qt : Qt) (size i skip : ℕ) (s : Text)
    → i + length s ≡ size
    → Within size (Scans size) (tokens_from qt i skip s)
unfolding tokens_from EndsWell same_type
tokens_from-Scans qt size i skip [] e = done (refl, (plain_token i _ _ _ refl (omega arith), tt))
tokens_from-Scans qt size i (suc skip) (c ∷ rest) e =
    tokens_from-Scans qt size (i + 1) skip rest (omega arith)
tokens_from-Scans qt size i zero (c ∷ rest) e =
    Within-if size (Scans size) (qt.is_space c) _ _
      (tokens_from-Scans qt size (i + 1) zero rest (omega arith))
      (Within-bind size (First size) (Scans size) (scan qt i c rest) _
        (scan-InFilter qt size i c rest e)
        (λ (token, n) h.
          Within-bind size (Scans size) (Scans size) (tokens_from qt (i + 1) (n - 1) rest) _
            (tokens_from-Scans qt size (i + 1) (n - 1) rest (omega arith))
            (λ tokens (ends, all). done (EndsWell-cons token tokens ends, (h, all)))))

-- tokenize gives tokens that end with the End token and all stand in the filter or at its end, a
-- word with one unit at least and all its units in the filter, or an error at a position in the
-- filter or at its end.
pub tokenize-Scans :
    (qt : Qt) (filter : Text) → Within (length filter) (Scans (length filter)) (tokenize qt filter)
unfolding tokenize
tokenize-Scans qt filter = tokens_from-Scans qt (length filter) 0 0 filter (omega arith)
