-- ===== src/TcpReassembly.antt =====
-- src/tcp_reassembly.h and src/tcp_reassembly.cpp: the directions that hold bytes, the order they were
-- used in and the memory counted for them. A pointer to a stream's state is the number of the stream,
-- which the tracker keeps its state under, and `states` is the store it points into; `entries` is the
-- hash map by key, and the list iterator of an entry is its key in `lru`. A vector's capacity is what
-- it was reserved for, or its size if it was copied; sizes do not wrap.
pub mod Messages
pub mod Begin
pub mod Apply
pub mod Sound
pub mod Restart
pub mod Whole
pub mod Packets
pub mod Continue
pub mod Start
pub mod Insert
pub mod Walks
pub mod Takes
pub mod Early
pub mod Holding
pub mod Memory
pub mod Table
pub mod Segments
use log_squirl_tcpdump.Common.{
  ℕ, zero, suc, ◌+◌, ◌-◌, ◌*◌, ◌/◌, ◌^◌, ◌%◌, min, max, List, [], ◌∷◌, ◌++◌, Option, none, some,
  Bool, true, false, ltb, leb, ◌==◌, if◌then◌else◌, length,
}
use log_squirl_tcpdump.ByteStreamOrderer.{
  EarlySegment, ByteStreamOrderer, advance, holds, hold_early, early_bytes, pop_next,
}
use log_squirl_tcpdump.TcpAnalysis.{TcpDirection}

-- What a call gives: a value, the exception of `std::unordered_map::at`, or none for want of fuel.
pub data Run {ℓ} (A : Type ℓ) : Type ℓ where
  gives : A → Run A
  not_in_table out_of_fuel : Run A

infix 10 ◌>>=◌
abbrev pub ◌>>=◌ {ℓ κ} : {A : Type ℓ} {B : Type κ} → Run A → (A → Run B) → Run B
gives a >>= f = f a
not_in_table >>= f = not_in_table
out_of_fuel >>= f = out_of_fuel

-- What the reassembly reads and writes of a stream's state; the bits of `reassembly` are
-- apart.
pub record StreamState : Type 0 where
  pub tcp : ℕ → TcpDirection
  pub protocols : ℕ
  pub held_bit : ℕ → Bool
  pub let_go_bit : ℕ → Bool

pub record FramerLook : Type 0 where
  pub searched : ℕ
  pub lines_read : ℕ
  pub header_lines : ℕ
  pub content_length : Option ℕ
  pub told_length : ℕ

abbrev pub no_look : FramerLook
no_look = record {
  searched = 0;
  lines_read = 0;
  header_lines = 0;
  content_length = none;
  told_length = 0;
}

pub record Entry : Type 0 where
  pub state : ℕ
  pub direction : ℕ
  pub held : List ℕ
  pub capacity : ℕ
  pub order : ByteStreamOrderer
  pub segments : ℕ
  pub skipping : Bool
  pub skip_from : ℕ
  pub skip_end : ℕ
  pub framer : ℕ
  pub look : FramerLook
  pub label : List ℕ
  pub cost : ℕ

abbrev pub new_entry : Entry
new_entry = record {
  state = 0;
  direction = 0;
  held = [];
  capacity = 0;
  order = record { next_seq = 0; early_segments = [] };
  segments = 0;
  skipping = false;
  skip_from = 0;
  skip_end = 0;
  framer = 0;
  look = no_look;
  label = [];
  cost = 0;
}

pub record TcpReassembly : Type 0 where
  pub memory_limit : ℕ
  pub stream_limit : ℕ
  pub used : ℕ
  pub entries : List (ℕ × Entry)
  pub lru : List ℕ
  pub states : ℕ → StreamState

abbrev pub max_early_segments : ℕ
max_early_segments = 32

abbrev pub entry_overhead : ℕ
entry_overhead = 128

abbrev pub early_segment_overhead : ℕ
early_segment_overhead = 32

unfoldable pub find_entry : ℕ → List (ℕ × Entry) → Option Entry
find_entry key [] = none
find_entry key (p ∷ rest) = if p.0 == key then some p.1 else find_entry key rest

unfoldable pub erase_entry : ℕ → List (ℕ × Entry) → List (ℕ × Entry)
erase_entry key [] = []
erase_entry key (p ∷ rest) = if p.0 == key then rest else p ∷ erase_entry key rest

-- What a write through a reference to an entry makes of the table.
unfoldable pub put_entry : ℕ → Entry → List (ℕ × Entry) → List (ℕ × Entry)
put_entry key e [] = []
put_entry key e (p ∷ rest) = if p.0 == key then (key, e) ∷ rest else p ∷ put_entry key e rest

unfoldable pub erase_key : ℕ → List ℕ → List ℕ
erase_key key [] = []
erase_key key (k ∷ rest) = if k == key then rest else k ∷ erase_key key rest

abbrev pub store : ℕ → Entry → TcpReassembly → TcpReassembly
store key e r = record r { entries = put_entry key e r.entries }

abbrev pub set_bit : ℕ → Bool → (ℕ → Bool) → ℕ → Bool
set_bit direction value bits d = if d == direction then value else bits d

-- `state->reassembly |= heldBit( direction )`, and `&= ~heldBit( direction )`.
abbrev pub set_held : ℕ → ℕ → Bool → (ℕ → StreamState) → ℕ → StreamState
set_held state direction value states s =
    let old = states s in
    if s == state then record old { held_bit = set_bit direction value old.held_bit } else old

-- The same for letGoBit.
abbrev pub set_let_go : ℕ → ℕ → Bool → (ℕ → StreamState) → ℕ → StreamState
set_let_go state direction value states s =
    let old = states s in
    if s == state then record old { let_go_bit = set_bit direction value old.let_go_bit } else old

abbrev release_found : ℕ → Option Entry → TcpReassembly → TcpReassembly
release_found key none r = r
release_found key (some e) r = record r {
  states = set_held e.state e.direction false r.states;
  used = r.used - e.cost;
  lru = erase_key key r.lru;
  entries = erase_entry key r.entries;
}

unfoldable pub release : ℕ → TcpReassembly → TcpReassembly
release key r = release_found key (find_entry key r.entries) r

unfoldable pub early_cost : List EarlySegment → ℕ
early_cost [] = 0
early_cost (s ∷ rest) = early_segment_overhead + length s.bytes + early_cost rest

abbrev pub entry_cost : Entry → ℕ
entry_cost e = entry_overhead + e.capacity + early_cost e.order.early_segments

-- The entry is the one under the key, as it is written to by now.
unfoldable pub recharge : ℕ → Entry → TcpReassembly → TcpReassembly × Entry
recharge key e r =
    let charged : Entry = record e { cost = entry_cost e } in
    (store key charged (record r { used = r.used - e.cost + entry_cost e }), charged)

-- The first of the keys, or the second if `keep` is the first.
unfoldable pub oldest : ℕ → List ℕ → Option ℕ
oldest keep [] = none
oldest keep (k ∷ []) = if k == keep then none else some k
oldest keep (k ∷ l ∷ rest) = if k == keep then some l else some k

unfoldable pub let_go_of : ℕ → Entry → TcpReassembly → TcpReassembly
let_go_of key e r = release key (record r { states = set_let_go e.state e.direction true r.states })

-- The loop of makeRoom: each round but the last erases a key of `lru_`.
unfoldable pub room_loop : ℕ → ℕ → ℕ → TcpReassembly → Run (Bool × TcpReassembly)
room_loop zero bytes keep r = out_of_fuel
room_loop (suc fuel) bytes keep r = elim (leb (r.used + bytes) r.memory_limit) [
  | true ↦ gives (true, r)
  | false ↦ elim (oldest keep r.lru) [
    | none ↦ gives (false, r)
    | some key ↦ elim (find_entry key r.entries) [
      | none ↦ not_in_table
      | some e ↦ room_loop fuel bytes keep (let_go_of key e r)
    ]
  ]
]

unfoldable pub make_room : ℕ → ℕ → TcpReassembly → Run (Bool × TcpReassembly)
make_room bytes keep r = room_loop (suc (length r.lru)) bytes keep r

-- The vector's growth after room was made for it.
abbrev grow : ℕ → ℕ → Entry → Bool × TcpReassembly → Run (Bool × TcpReassembly × Entry)
grow grown key e (false, r) = gives (false, r, e)
grow grown key e (true, r) =
    let (r', e') = recharge key (record e { capacity = max e.capacity grown }) r in
    gives (true, r', e')

unfoldable pub reserve : ℕ → Entry → ℕ → TcpReassembly → Run (Bool × TcpReassembly × Entry)
reserve key e extra r =
    let early = early_bytes e.order in
    let needed = length e.held + extra in
    let grown = max needed (min (e.capacity + e.capacity / 2) (r.stream_limit - early)) in
    if ltb r.stream_limit (needed + early)
    then gives (false, r, e)
    else if leb needed e.capacity
    then gives (true, r, e)
    else make_room (grown - e.capacity) key r >>= grow grown key e

-- The bytes behind the held ones, after room was reserved for them.
abbrev append_reserved :
    ℕ → List ℕ → Bool × TcpReassembly × Entry → Run (Bool × TcpReassembly × Entry)
append_reserved key bytes (false, r, e) = gives (false, r, e)
append_reserved key bytes (true, r, e) =
    let e' : Entry = record e {
      held = e.held ++ bytes;
      order = advance e.order (length bytes);
      segments = (e.segments + 1) % 2 ^ 32;
    } in
    gives (true, store key e' r, e')

unfoldable pub append : ℕ → Entry → List ℕ → TcpReassembly → Run (Bool × TcpReassembly × Entry)
append key e bytes r = reserve key e (length bytes) r >>= append_reserved key bytes

abbrev hold_with_room :
    ℕ → Entry → ℕ → List ℕ → Bool × TcpReassembly → Run (Bool × TcpReassembly × Entry)
hold_with_room key e seq payload (false, r) = gives (false, r, e)
hold_with_room key e seq payload (true, r) =
    let (r', e') = recharge key (record e { order = hold_early e.order seq payload }) r in
    gives (true, r', e')

unfoldable pub hold_early_segment :
    ℕ → Entry → ℕ → List ℕ → TcpReassembly → Run (Bool × TcpReassembly × Entry)
hold_early_segment key e seq payload r =
    if holds e.order seq (length payload)
    then gives (true, r, e)
    else if leb max_early_segments (length e.order.early_segments)
    then gives (false, r, e)
    else if ltb r.stream_limit (e.capacity + early_bytes e.order + length payload)
    then gives (false, r, e)
    else make_room (early_segment_overhead + length payload) key r
      >>= hold_with_room key e seq payload

-- The loop of appendEarly: each round but the last takes an early segment.
unfoldable pub append_early_loop :
    ℕ → ℕ → Entry → TcpReassembly → Run (Bool × TcpReassembly × Entry)
append_early_loop zero key e r = out_of_fuel
append_early_loop (suc fuel) key e r =
    let (next, order) = pop_next e.order in
    let e' : Entry = record e { order = order } in
    elim next [
      | none ↦ let (r', last) = recharge key e' r in gives (true, r', last)
      | some bytes ↦ append key e' bytes (store key e' r) >>= λ p.
          let (ok, r', last) = p in
          elim ok [ false ↦ gives (false, r', last) | true ↦ append_early_loop fuel key last r' ]
    ]

unfoldable pub append_early : ℕ → Entry → TcpReassembly → Run (Bool × TcpReassembly × Entry)
append_early key e r = append_early_loop (suc (length e.order.early_segments)) key e r
