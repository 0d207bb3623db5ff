-- ===== src/Hpack/Decoder/Bounded.antt =====
-- The bound on the dynamic table, kept by every representation of a header block.
use log_squirl_tcpdump.Common.{
  ℕ, zero, suc, ◌-◌, ◌≤◌, ◌<◌, ◌≡◌, refl, inl, inr, List, [], ◌∷◌, Bool, true, false, ◌||◌, Option,
  none, some, ltb, if◌then◌else◌, length, arith, Bool-cases, Option-cases, bind-some, map-some,
  some_injective, subst, ap, if_both, ◌/◌, ltb→le, ◌==◌,
}
use log_squirl_tcpdump.Hpack.StaticTable.{HeaderField}
use log_squirl_tcpdump.Hpack.Block.{bit_set}
use log_squirl_tcpdump.Hpack.Decoder.{
  HpackDecoder, new_decoder, entry_size, evict, insert, abandon, Step, indexed, size_update,
  literal_name, literal, representation, Decoded, decode_rounds, decode, table_size,
}
use log_squirl_tcpdump.Hpack.Decoder.Evict.{evict-Evicted}
use log_squirl_tcpdump.Hpack.Block.Integers.{integer_bounds}
use log_squirl_tcpdump.Hpack.Block.Strings.{string_shorter}

-- The table's bytes are counted and within its capacity, itself within the settings.
pub record IsBounded (d : HpackDecoder) : Type 0 where
  pub counted : d.size ≡ table_size d.table
  pub fits : d.size ≤ d.capacity
  pub settled : d.capacity ≤ d.max_capacity

pub new_decoder-IsBounded : (max_size : ℕ) → IsBounded (new_decoder max_size)
unfolding new_decoder table_size
new_decoder-IsBounded max_size = record {
  counted = refl;
  fits = omega arith;
  settled = omega arith;
}

pub abandon-IsBounded : (d : HpackDecoder) → IsBounded d → IsBounded (abandon d)
unfolding abandon table_size
abandon-IsBounded d b = record { counted = refl; fits = omega arith; settled = b.settled }

pub insert-IsBounded : (d : HpackDecoder) (e : HeaderField) → IsBounded d → IsBounded (insert d e)
unfolding insert table_size
insert-IsBounded d e b = elim (Bool-cases (ltb d.capacity (entry_size e))) [
  | inl large ↦
      let emptied = evict-Evicted d 0 b.counted in
      rw large (record {
        counted = emptied.counted;
        fits = let h = emptied.fits in omega arith;
        settled = rw (emptied.same_capacity, emptied.same_max) b.settled;
      })
  | inr small ↦
      let evicted = evict-Evicted d (d.capacity - entry_size e) b.counted in
      let room = ltb→le d.capacity (entry_size e) small in
      let counted = evicted.counted in
      let fits = evicted.fits in
      let same = evicted.same_capacity in
      rw small (record {
        counted = omega arith;
        fits = omega arith;
        settled = rw (evicted.same_capacity, evicted.same_max) b.settled;
      })
]

-- A representation read from `bytes`: it keeps the bound and takes a byte at least.
pub record Read (bytes : List ℕ) (s : Step) : Type 0 where
  pub bounded : IsBounded s.decoder
  pub shorter : length s.rest < length bytes

or_right : (a : Bool) {b : Bool} → (a || b) ≡ false → b ≡ false
or_right true h = cc
or_right false h = h

indexed-Read :
    (d : HpackDecoder) (bytes : List ℕ) (s : Step)
    → IsBounded d
    → indexed d bytes ≡ some s
    → Read bytes s
unfolding indexed
indexed-Read d bytes s b h =
    let (p, read, e) = bind-some _ _ _ h in
    let (f, found, same) = map-some _ _ _ e in
    subst (λ t. Read bytes t) same
      (record { bounded = b; shorter = (integer_bounds 7 bytes p.0 p.1 (omega arith) read).1 })

size_update-Read :
    (d : HpackDecoder) (field_seen : Bool) (bytes : List ℕ) (s : Step)
    → IsBounded d
    → size_update d field_seen bytes ≡ some s
    → Read bytes s
unfolding size_update
size_update-Read d field_seen bytes s b h =
    let (p, read, e) = bind-some _ _ _ h in
    elim (Bool-cases (field_seen || ltb d.max_capacity p.0)) [
      | inl refused ↦ let e' : ◌≡◌ {A = Option Step} none (some s) = rw refused at e in cc
      | inr allowed ↦
          let d' : HpackDecoder = record d { capacity = p.0 } in
          let evicted = evict-Evicted d' p.0 b.counted in
          let same : ◌≡◌ {A = Option Step}
              (some (record { decoder = evict d' p.0; given = none; rest = p.1 })) (some s) =
            rw allowed at e in
          subst (λ t. Read bytes t) (some_injective same)
            (record {
              bounded = record {
                counted = evicted.counted;
                fits = rw evicted.same_capacity evicted.fits;
                settled =
                    rw (evicted.same_capacity, evicted.same_max)
                      (ltb→le d.max_capacity p.0 (or_right field_seen allowed));
              };
              shorter = (integer_bounds 5 bytes p.0 p.1 (omega arith) read).1;
            })
    ]

literal_name_le :
    (d : HpackDecoder) (p : ℕ × List ℕ) (n : List ℕ × List ℕ)
    → literal_name d p ≡ some n
    → length n.1 ≤ length p.1
unfolding literal_name
literal_name_le d p n h = elim (Bool-cases (p.0 == 0)) [
  | inl spelt ↦ omega (arith, string_shorter p.1 n.0 n.1 (rw spelt at h))
  | inr found ↦
      let (f, at_index, same) = map-some _ _ _ (rw found at h) in
      omega (arith, ap (λ q. length q.1) same)
]

literal-Read :
    (d : HpackDecoder) (indexing : Bool) (bytes : List ℕ) (s : Step)
    → IsBounded d
    → literal d indexing bytes ≡ some s
    → Read bytes s
unfolding literal
literal-Read d indexing bytes s b h =
    let (p, read, e) = bind-some _ _ _ h in
    let (n, named, e') = bind-some _ _ _ e in
    let (v, valued, same) = bind-some _ _ _ e' in
    let prefix : (if indexing then 6 else 4) ≤ 8 = ground arith in
    let shorter = (integer_bounds _ bytes p.0 p.1 prefix read).1 in
    subst (λ t. Read bytes t) (some_injective same)
      (record {
        bounded = if_both IsBounded indexing (insert-IsBounded d _ b) b;
        shorter =
            omega (arith, shorter, literal_name_le d p n named, string_shorter n.1 v.0 v.1 valued);
      })

pub representation-Read :
    (d : HpackDecoder) (field_seen : Bool) (first : ℕ) (rest : List ℕ) (s : Step)
    → IsBounded d
    → representation d field_seen first rest ≡ some s
    → Read (first ∷ rest) s
unfolding representation
representation-Read d field_seen first rest s b h = elim (Bool-cases (bit_set first 7)) [
  | inl top ↦ indexed-Read d _ s b (rw top at h)
  | inr low ↦ elim (Bool-cases (first / 32 == 1)) [
    | inl update ↦ size_update-Read d field_seen _ s b (rw (low, update) at h)
    | inr other ↦ literal-Read d _ _ s b (rw (low, other) at h)
  ]
]

pub decode_rounds-IsBounded :
    (fuel : ℕ) (d : HpackDecoder) (field_seen : Bool) (bytes : List ℕ) (fields : List HeaderField)
    → IsBounded d
    → IsBounded (decode_rounds fuel d field_seen bytes fields).decoder
unfolding decode_rounds
decode_rounds-IsBounded fuel d field_seen [] fields b = b
decode_rounds-IsBounded zero d field_seen (x ∷ xs) fields b = abandon-IsBounded d b
decode_rounds-IsBounded (suc fuel) d field_seen (x ∷ xs) fields b =
    elim (Option-cases (representation d field_seen x xs)) [
      | inl failed ↦ rw (failed, decode_rounds) (abandon-IsBounded d b)
      | inr (s, eq) ↦
          rw (eq, decode_rounds)
            (decode_rounds-IsBounded fuel s.decoder _ s.rest _
              (representation-Read d field_seen x xs s b eq).bounded)
    ]

-- Whatever bytes a header block has, decoding it keeps this of the decoder: the size is the sum
-- of the entries' sizes, it is within the capacity, and the capacity is within the largest one
-- allowed.
pub decode-IsBounded :
    (d : HpackDecoder) (bytes : List ℕ) (fields : List HeaderField)
    → IsBounded d
    → IsBounded (decode d bytes fields).decoder
unfolding decode
decode-IsBounded d bytes fields b =
    if_both {A = Decoded} (λ done. IsBounded done.decoder) d.broken b
      (decode_rounds-IsBounded (length bytes) d false bytes fields b)
