-- ===== src/Hpack/Decoder.antt =====
-- src/hpack.h and src/hpack.cpp, HpackDecoder: the dynamic table and the decoding of header blocks.
pub mod Evict
pub mod Bounded
pub mod Whole
use log_squirl_tcpdump.Common.{
  ℕ, zero, suc, ◌+◌, ◌-◌, ◌*◌, ◌/◌, ◌%◌, ◌^◌, min, List, [], ◌∷◌, ◌++◌, Option, none, some, Bool,
  true, false, not, ◌&&◌, ◌||◌, ltb, leb, ◌==◌, if◌then◌else◌, length, get_elem?,
}
use log_squirl_tcpdump.Hpack.StaticTable.{HeaderField, static_table}
use log_squirl_tcpdump.Hpack.Block.{integer, string, bit_set}
use mathlib.Core.Option

pub record HpackDecoder : Type 0 where
  -- The newest entry first.
  pub table : List HeaderField
  pub size : ℕ
  pub capacity : ℕ
  pub max_capacity : ℕ
  pub broken : Bool

abbrev pub default_table_size : ℕ
default_table_size = 4096

abbrev pub max_table_size : ℕ
max_table_size = 64 * 1024

abbrev pub entry_overhead : ℕ
entry_overhead = 32

abbrev pub static_entries : ℕ
static_entries = 61

unfoldable pub new_decoder : ℕ → HpackDecoder
new_decoder max_size = record {
  table = [];
  size = 0;
  capacity = min default_table_size max_size;
  max_capacity = max_size;
  broken = false;
}

abbrev pub entry_size : HeaderField → ℕ
entry_size e = length e.name + length e.value + entry_overhead

unfoldable pub field : HpackDecoder → ℕ → Option HeaderField
field d index =
    if index == 0
    then none
    else if leb index static_entries
    then get_elem? static_table (index - 1)
    else get_elem? d.table (index - static_entries - 1)

-- `empty()`, and what `pop_back()` takes and leaves.
abbrev pub is_empty : List HeaderField → Bool
is_empty [] = true
is_empty (e ∷ es) = false

unfoldable pub last_entry : List HeaderField → List HeaderField
last_entry [] = []
last_entry (e ∷ []) = e ∷ []
last_entry (e ∷ x ∷ xs) = last_entry (x ∷ xs)

unfoldable pub pop_back : List HeaderField → List HeaderField
pop_back [] = []
pop_back (e ∷ []) = []
pop_back (e ∷ x ∷ xs) = e ∷ pop_back (x ∷ xs)

-- The bytes that a list of entries counts for.
unfoldable pub table_size : List HeaderField → ℕ
table_size [] = 0
table_size (e ∷ es) = entry_size e + table_size es

-- The body of the loop.
unfoldable pub evict_last : HpackDecoder → HpackDecoder
evict_last d = record d {
  table = pop_back d.table;
  size = d.size - table_size (last_entry d.table);
}

-- Each round takes an entry.
unfoldable pub evict_rounds : ℕ → ℕ → HpackDecoder → HpackDecoder
evict_rounds zero capacity d = d
evict_rounds (suc fuel) capacity d =
    let rest = evict_rounds fuel capacity (evict_last d) in
    if ltb capacity d.size && not (is_empty d.table) then rest else d

unfoldable pub evict : HpackDecoder → ℕ → HpackDecoder
evict d capacity = evict_rounds (length d.table) capacity d

unfoldable pub insert : HpackDecoder → HeaderField → HpackDecoder
insert d e =
    let evicted = evict d (d.capacity - entry_size e) in
    if ltb d.capacity (entry_size e)
    then evict d 0
    else record evicted { table = e ∷ evicted.table; size = evicted.size + entry_size e }

unfoldable pub abandon : HpackDecoder → HpackDecoder
abandon d = record d { broken = true; table = []; size = 0 }

-- A representation read: the decoder, the field that it gives, and the bytes behind it.
pub record Step : Type 0 where
  pub decoder : HpackDecoder
  pub given : Option HeaderField
  pub rest : List ℕ

unfoldable pub indexed : HpackDecoder → List ℕ → Option Step
indexed d bytes =
    Option.bind (integer 7 bytes)
      λ p. Option.map (λ f. record { decoder = d; given = some f; rest = p.1 }) (field d p.0)

unfoldable pub size_update : HpackDecoder → Bool → List ℕ → Option Step
unfolding evict
size_update d field_seen bytes = Option.bind (integer 5 bytes) λ p.
    let d' : HpackDecoder = record d { capacity = p.0 } in
    if field_seen || ltb d.max_capacity p.0
    then none
    else some (record { decoder = evict d' p.0; given = none; rest = p.1 })

-- The name of a literal: from a table, or spelt out.
unfoldable pub literal_name : HpackDecoder → ℕ × List ℕ → Option (List ℕ × List ℕ)
literal_name d p =
    if p.0 == 0 then string p.1 else Option.map (λ (f : HeaderField). (f.name, p.1)) (field d p.0)

unfoldable pub literal : HpackDecoder → Bool → List ℕ → Option Step
literal d indexing bytes = Option.bind (integer (if indexing then 6 else 4) bytes) λ p.
    Option.bind (literal_name d p) λ n. Option.bind (string n.1) λ v.
      let f : HeaderField = record { name = n.0; value = v.0 } in
      some (record { decoder = if indexing then insert d f else d; given = some f; rest = v.1 })

-- `first & 0x80`, `( first & 0xE0 ) == 0x20` and `( first & 0xC0 ) == 0x40` of a byte.
unfoldable pub representation : HpackDecoder → Bool → ℕ → List ℕ → Option Step
unfolding indexed size_update literal
representation d field_seen first rest =
    if bit_set first 7
    then indexed d (first ∷ rest)
    else if first / 32 == 1
    then size_update d field_seen (first ∷ rest)
    else literal d (first / 64 == 1) (first ∷ rest)

-- The result of a block: the decoder, the fields appended, and whether it broke no rule.
pub record Decoded : Type 0 where
  pub decoder : HpackDecoder
  pub fields : List HeaderField
  pub ok : Bool

abbrev pub is_some {ℓ} : {A : Type ℓ} → Option A → Bool
is_some none = false
is_some (some a) = true

abbrev pub append_given : List HeaderField → Option HeaderField → List HeaderField
append_given fields none = fields
append_given fields (some f) = fields ++ (f ∷ [])

-- The loop over the block's bytes; a representation takes one at least.
unfoldable pub decode_rounds : ℕ → HpackDecoder → Bool → List ℕ → List HeaderField → Decoded
decode_rounds fuel d field_seen [] fields = record { decoder = d; fields = fields; ok = true }
decode_rounds zero d field_seen (b ∷ bs) fields = record {
  decoder = abandon d;
  fields = fields;
  ok = false;
}
decode_rounds (suc fuel) d field_seen (b ∷ bs) fields = elim (representation d field_seen b bs) [
  | none ↦ record { decoder = abandon d; fields = fields; ok = false }
  | some s ↦
      decode_rounds fuel s.decoder (field_seen || is_some s.given) s.rest
        (append_given fields s.given)
]

unfoldable pub decode : HpackDecoder → List ℕ → List HeaderField → Decoded
decode d bytes fields =
    let done = decode_rounds (length bytes) d false bytes fields in
    if d.broken then record { decoder = d; fields = fields; ok = false } else done
