-- ===== src/Hpack/Decoder/Whole.antt =====
-- A header block as a whole: the loop's fuel is enough, the fields are appended to those given, and
-- a decoder that has failed stays failed.
use log_squirl_tcpdump.Common.{
  ℕ, zero, suc, ◌≤◌, ◌≡◌, refl, inl, inr, List, [], ◌∷◌, ◌++◌, Bool, true, false, ◌||◌, not, Option,
  none, some, length, arith, Bool-cases, Option-cases, bind-some, map-some, some_injective, if_both,
  ltb, ◌==◌, ◌/◌, ap, ◌∙◌, sym,
}
use log_squirl_tcpdump.Hpack.StaticTable.{HeaderField}
use log_squirl_tcpdump.Hpack.Decoder.{
  HpackDecoder, abandon, Step, representation, Decoded, append_given, decode_rounds, decode,
  evict_rounds, evict_last, evict, insert, indexed, size_update, literal,
}
use log_squirl_tcpdump.Hpack.Decoder.Bounded.{IsBounded, representation-Read}
use log_squirl_tcpdump.Hpack.Block.{bit_set}
use mathlib.Core.List.{append-nil, append_assoc}

-- A block decoded: no rule is broken exactly when the decoder goes on; the fields follow the given
-- ones, and a decoder that failed is empty.
pub record Outcome (before : List HeaderField) (done : Decoded) : Type 0 where
  pub added : List HeaderField
  pub appended : done.fields ≡ before ++ added
  pub failed : done.decoder.broken ≡ not done.ok
  pub emptied : done.ok ≡ false → (done.decoder.table ≡ []) × (done.decoder.size ≡ 0)

longer :
    (before : List HeaderField) (given : Option HeaderField) (done : Decoded)
    → Outcome (append_given before given) done
    → Outcome before done
longer before none done o = o
longer before (some f) done o = record {
  added = f ∷ o.added;
  appended = o.appended ∙ append_assoc before (f ∷ []) o.added;
  failed = o.failed;
  emptied = o.emptied;
}

abandoned :
    (d : HpackDecoder) (fields : List HeaderField)
    → Outcome fields (record { decoder = abandon d; fields = fields; ok = false })
unfolding abandon
abandoned d fields = record {
  added = [];
  appended = sym (append-nil fields);
  failed = refl;
  emptied = λ e. (refl, refl);
}

-- Reading a representation leaves a decoder that goes on.
evict_rounds-broken :
    (fuel capacity : ℕ) (d : HpackDecoder) → (evict_rounds fuel capacity d).broken ≡ d.broken
unfolding evict_rounds evict_last
evict_rounds-broken zero capacity d = refl
evict_rounds-broken (suc fuel) capacity d =
    if_both {A = HpackDecoder} (λ d'. d'.broken ≡ d.broken) _
      (evict_rounds-broken fuel capacity (evict_last d)) refl

insert-broken : (d : HpackDecoder) (e : HeaderField) → (insert d e).broken ≡ d.broken
unfolding insert evict
insert-broken d e =
    if_both {A = HpackDecoder} (λ d'. d'.broken ≡ d.broken) _ (evict_rounds-broken _ _ d)
      (evict_rounds-broken _ _ d)

representation-broken :
    (d : HpackDecoder) (field_seen : Bool) (first : ℕ) (rest : List ℕ) (s : Step)
    → representation d field_seen first rest ≡ some s
    → s.decoder.broken ≡ d.broken
unfolding representation indexed size_update literal evict
representation-broken d field_seen first rest s h = elim (Bool-cases (bit_set first 7)) [
  | inl top ↦
      let (p, read, e) = bind-some _ _ _ (rw top at h) in
      let (f, found, same) = map-some _ _ _ e in ap (λ t. t.decoder.broken) (sym same)
  | inr low ↦ elim (Bool-cases (first / 32 == 1)) [
    | inl update ↦
        let (p, read, e) = bind-some _ _ _ (rw (low, update) at h) in
        elim (Bool-cases (field_seen || ltb d.max_capacity p.0)) [
          | inl refused ↦ let e' : ◌≡◌ {A = Option Step} none (some s) = rw refused at e in cc
          | inr allowed ↦
              ap (λ t. t.decoder.broken) (sym (some_injective (rw allowed at e)))
              ∙ evict_rounds-broken _ p.0 (record d { capacity = p.0 })
        ]
    | inr other ↦
        let (p, read, e) = bind-some _ _ _ (rw (low, other) at h) in
        let (n, named, e') = bind-some _ _ _ e in
        let (v, valued, same) = bind-some _ _ _ e' in
        ap (λ t. t.decoder.broken) (sym (some_injective same))
        ∙ if_both {A = HpackDecoder} (λ d'. d'.broken ≡ d.broken) (first / 64 == 1)
            (insert-broken d _) refl
  ]
]

decode_rounds-Outcome :
    (fuel : ℕ) (d : HpackDecoder) (field_seen : Bool) (bytes : List ℕ) (fields : List HeaderField)
    → d.broken ≡ false
    → Outcome fields (decode_rounds fuel d field_seen bytes fields)
unfolding decode_rounds
decode_rounds-Outcome fuel d field_seen [] fields goes_on = record {
  added = [];
  appended = sym (append-nil fields);
  failed = goes_on;
  emptied = λ e. cc;
}
decode_rounds-Outcome zero d field_seen (x ∷ xs) fields goes_on = abandoned d fields
decode_rounds-Outcome (suc fuel) d field_seen (x ∷ xs) fields goes_on =
    elim (Option-cases (representation d field_seen x xs)) [
      | inl failed ↦ rw (failed, decode_rounds) (abandoned d fields)
      | inr (s, eq) ↦
          rw (eq, decode_rounds)
            (longer fields s.given _ (
              decode_rounds-Outcome fuel s.decoder _ s.rest _
                (representation-broken d field_seen x xs s eq ∙ goes_on)))
    ]

-- A decoder that is not broken appends fields behind those it is given, is broken after the block
-- exactly if the block fails, and has then let its table go.
pub decode-Outcome :
    (d : HpackDecoder) (bytes : List ℕ) (fields : List HeaderField)
    → d.broken ≡ false
    → Outcome fields (decode d bytes fields)
unfolding decode
decode-Outcome d bytes fields goes_on =
    simp goes_on (decode_rounds-Outcome (length bytes) d false bytes fields goes_on)

-- After a block that failed in a decoder that was not broken, every later block fails, and gives
-- no field.
pub decode-after_failure :
    (d : HpackDecoder) (bytes later : List ℕ) (fields more : List HeaderField)
    → d.broken ≡ false
    → (decode d bytes fields).ok ≡ false
    → ((decode (decode d bytes fields).decoder later more).ok ≡ false)
      × ((decode (decode d bytes fields).decoder later more).fields ≡ more)
unfolding decode
decode-after_failure d bytes later fields more goes_on failed =
    let broken : (decode d bytes fields).decoder.broken ≡ true =
      (decode-Outcome d bytes fields goes_on).failed ∙ ap not failed in
    (rw broken, rw broken)

-- Of a decoder whose table is counted and bounded, any two numbers of rounds that are not below
-- the number of bytes decode a block to the same result: the loop ends within as many rounds as
-- there are bytes.
pub decode_rounds-enough :
    (fuel fuel' : ℕ) (d : HpackDecoder) (field_seen : Bool) (bytes : List ℕ)
    (fields : List HeaderField)
    → IsBounded d
    → length bytes ≤ fuel
    → length bytes ≤ fuel'
    → decode_rounds fuel d field_seen bytes fields ≡ decode_rounds fuel' d field_seen bytes fields
unfolding decode_rounds
decode_rounds-enough fuel fuel' d field_seen [] fields b h h' = refl
decode_rounds-enough zero fuel' d field_seen (x ∷ xs) fields b h h' = absurd (omega arith)
decode_rounds-enough (suc fuel) zero d field_seen (x ∷ xs) fields b h h' = absurd (omega arith)
decode_rounds-enough (suc fuel) (suc fuel') d field_seen (x ∷ xs) fields b h h' =
    elim (Option-cases (representation d field_seen x xs)) [
      | inl failed ↦ rw (failed, decode_rounds)
      | inr (s, eq) ↦
          let read = representation-Read d field_seen x xs s b eq in
          let shorter = read.shorter in
          rw (eq, decode_rounds)
            (decode_rounds-enough fuel fuel' s.decoder _ s.rest _ read.bounded (omega arith)
              (omega arith))
    ]
