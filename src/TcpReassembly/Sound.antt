-- ===== src/TcpReassembly/Sound.antt =====
-- src/tcp_reassembly.cpp: what makes the memory counted, the entries and the bits of the streams' states
-- agree, and what holds of a call that gives a result.
use log_squirl_tcpdump.Common.{
  ℕ, ◌+◌, ◌*◌, ◌≤◌, ◌<◌, Option, none, some, Bool, true, false, if◌then◌else◌, ◌≡◌, refl, length,
}
use log_squirl_tcpdump.ByteStreamOrderer.{early_bytes}
use log_squirl_tcpdump.TcpReassembly.{
  Run, gives, not_in_table, out_of_fuel, ◌>>=◌, Entry, TcpReassembly, find_entry, entry_cost,
  max_early_segments,
}
use log_squirl_tcpdump.TcpReassembly.Table.{Once, costs, among, Distinct}

unfoldable pub is_found : Option Entry → Bool
is_found none = false
is_found (some e) = true

-- An entry within its direction's limit, its memory counted, under the key of its stream's state and
-- direction.
pub record IsEntry (limit key : ℕ) (e : Entry) : Type 0 where
  pub keyed : key ≡ 2 * e.state + e.direction
  pub side : e.direction < 2
  pub fits : length e.held ≤ e.capacity
  pub within : e.capacity + early_bytes e.order ≤ limit
  pub few : length e.order.early_segments ≤ max_early_segments
  pub charged : entry_cost e ≤ e.cost

-- The memory counted is the entries' and within the limit; each entry is well formed and in the order
-- of use once; a direction's bit tells whether it has an entry.
pub record IsSound (r : TcpReassembly) : Type 0 where
  pub total : r.used ≡ costs r.entries
  pub bounded : r.used ≤ r.memory_limit
  pub once : Once r.entries
  pub distinct : Distinct r.lru
  pub listed : (key : ℕ) → among key r.lru ≡ is_found (find_entry key r.entries)
  pub entry :
      (key : ℕ) (e : Entry) → find_entry key r.entries ≡ some e → IsEntry r.stream_limit key e
  pub bits :
      (s side : ℕ)
      → side < 2
      → (r.states s).held_bit side ≡ is_found (find_entry (2 * s + side) r.entries)

-- The result of a call that neither throws nor runs out of fuel.
abbrev pub Given {ℓ} : {A : Type ℓ} → (A → Type 0) → Run A → Type 0
Given P (gives a) = P a
Given P not_in_table = ⊥
Given P out_of_fuel = ⊥

pub record Gives {ℓ} {A : Type ℓ} (P : A → Type 0) (m : Run A) : Type 0 where
  pub given : Given P m

pub given {ℓ} : {A : Type ℓ} {P : A → Type 0} {a : A} → P a → Gives P (gives a)
given h = record { given = h }

pub Gives-bind {ℓ κ} :
    {A : Type ℓ} {B : Type κ} (P : A → Type 0) (Q : B → Type 0) (m : Run A) (f : A → Run B)
    → Gives P m
    → ((a : A) → P a → Gives Q (f a))
    → Gives Q (m >>= f)
Gives-bind P Q (gives a) f h k = k a h.given
Gives-bind P Q not_in_table f h k = absurd h.given
Gives-bind P Q out_of_fuel f h k = absurd h.given

pub Gives-test {ℓ} :
    {A : Type ℓ} (P : A → Type 0) (c : Bool) (x y : Run A)
    → (c ≡ true → Gives P x)
    → (c ≡ false → Gives P y)
    → Gives P (if c then x else y)
Gives-test P true x y h k = h refl
Gives-test P false x y h k = k refl

pub Gives-map {ℓ} :
    {A : Type ℓ} (P Q : A → Type 0) (m : Run A) → Gives P m → ((a : A) → P a → Q a) → Gives Q m
Gives-map P Q (gives a) h f = record { given = f a h.given }
Gives-map P Q not_in_table h f = absurd h.given
Gives-map P Q out_of_fuel h f = absurd h.given

pub Gives-option {ℓ κ} :
    {A : Type ℓ} {B : Type κ} (P : A → Type 0) (o : Option B) (x : Run A) (f : B → Run A)
    → (o ≡ none → Gives P x)
    → ((b : B) → o ≡ some b → Gives P (f b))
    → Gives P (elim o [ none ↦ x | some b ↦ f b ])
Gives-option P none x f h k = h refl
Gives-option P (some b) x f h k = k b refl
