-- ===== src/TcpReassembly/Memory.antt =====
-- src/tcp_reassembly.cpp: the memory counted, the entries and the bits of the streams' states agree
-- (release, recharge, makeRoom).
use log_squirl_tcpdump.Common.{
  ℕ, zero, suc, ◌+◌, ◌*◌, ◌≤◌, ◌<◌, none, some, Bool, true, false, ◌==◌, leb, if◌then◌else◌, ◌≡◌,
  refl, sym, subst, ◌∙◌, ap, inl, inr, Bool-cases, Option-cases, leb→le, leb→lt, length, arith,
}
use log_squirl_tcpdump.TcpReassembly.{
  Entry, TcpReassembly, StreamState, find_entry, erase_entry, set_held, set_let_go, release, oldest,
  let_go_of, room_loop, make_room,
}
use log_squirl_tcpdump.TcpReassembly.Table.{
  costs, among, equal_key, key_sym, find_entry-erase_same, find_entry-erase_other, Once-erase,
  costs-erase, among-erase_same, among-erase_other, Distinct-erase, length-erase_key, oldest_listed,
  oldest-none,
}
use log_squirl_tcpdump.TcpReassembly.Sound.{is_found, IsSound, Gives, given, Gives-map}

-- The table after the entry under a key is gone.
pub record Released (key : ℕ) (e : Entry) (r r' : TcpReassembly) : Type 0 where
  pub sound : IsSound r'
  pub limits : (r'.memory_limit ≡ r.memory_limit) × (r'.stream_limit ≡ r.stream_limit)
  pub gone : find_entry key r'.entries ≡ none
  pub others : (j : ℕ) → (j == key) ≡ false → find_entry j r'.entries ≡ find_entry j r.entries
  pub freed : r'.used + e.cost ≡ r.used
  pub shorter : suc (length r'.lru) ≡ length r.lru

release-gone : (key : ℕ) (r : TcpReassembly) → find_entry key r.entries ≡ none → release key r ≡ r
unfolding release
release-gone key r h = rw h refl

pub held_bit-set_held :
    (key s d a side : ℕ) (value : Bool) (states : ℕ → StreamState)
    → key ≡ 2 * s + d
    → d < 2
    → side < 2
    → (set_held s d value states a).held_bit side
      ≡ (if (2 * a + side) == key then value else (states a).held_bit side)
held_bit-set_held key s d a side value states e h k = ground arith

release-found :
    (key : ℕ) (e : Entry) (r : TcpReassembly)
    → IsSound r
    → find_entry key r.entries ≡ some e
    → Released key e r (release key r)
unfolding release is_found
release-found key e r s h =
    let freed : costs (erase_entry key r.entries) + e.cost ≡ r.used =
      costs-erase key e r.entries h ∙ sym s.total in
    let found : among key r.lru ≡ true = s.listed key ∙ ap is_found h in
    let at_key = s.entry key e h in
    let gone = find_entry-erase_same key r.entries s.once in
    let bounded = s.bounded in
    rw h (record {
      sound = record {
        total = omega (arith, freed);
        bounded = omega (arith, bounded);
        once = Once-erase key r.entries s.once;
        distinct = Distinct-erase key r.lru s.distinct;
        listed = λ j. elim (Bool-cases (j == key)) [
          | inl same ↦
              rw (equal_key j key same)
                (among-erase_same key r.lru s.distinct ∙ sym (ap is_found gone))
          | inr other ↦
              rw (among-erase_other j key r.lru other, find_entry-erase_other j key r.entries other)
                (s.listed j)
        ];
        entry = λ j f g. elim (Bool-cases (j == key)) [
          | inl same ↦ let at : j ≡ key = equal_key j key same in absurd cc
          | inr other ↦ s.entry j f (sym (find_entry-erase_other j key r.entries other) ∙ g)
        ];
        bits = λ a side l.
            held_bit-set_held key e.state e.direction a side false r.states at_key.keyed at_key.side
              l
            ∙ elim (Bool-cases ((2 * a + side) == key)) [
              | inl same ↦ rw same (
                  sym (
                    ap is_found (
                      ap (λ j. find_entry j (erase_entry key r.entries)) (equal_key _ key same)
                      ∙ gone)))
              | inr other ↦
                  rw (other, find_entry-erase_other _ key r.entries other) (s.bits a side l)
            ];
      };
      limits = (refl, refl);
      gone = gone;
      others = λ j n. find_entry-erase_other j key r.entries n;
      freed = omega (arith, freed);
      shorter = length-erase_key key r.lru found;
    })

-- The table after the entry under a key, if there was one, is gone.
pub record IsWithout (key : ℕ) (r r' : TcpReassembly) : Type 0 where
  pub sound : IsSound r'
  pub limits : (r'.memory_limit ≡ r.memory_limit) × (r'.stream_limit ≡ r.stream_limit)
  pub gone : find_entry key r'.entries ≡ none
  pub others : (j : ℕ) → (j == key) ≡ false → find_entry j r'.entries ≡ find_entry j r.entries
  pub less : r'.used ≤ r.used

-- release of a key in a well-formed state leaves a well-formed state without an entry under the
-- key, every other entry as it was, the same limits, and no more memory counted.
pub release-IsWithout : (key : ℕ) (r : TcpReassembly) → IsSound r → IsWithout key r (release key r)
release-IsWithout key r s = elim (Option-cases (find_entry key r.entries)) [
  | inl none_there ↦ subst (IsWithout key r) (sym (release-gone key r none_there)) (record {
    sound = s;
    limits = (refl, refl);
    gone = none_there;
    others = λ j n. refl;
    less = omega arith;
  })
  | inr (e, there) ↦
      let released = release-found key e r s there in
      let freed = released.freed in
      record {
        sound = released.sound;
        limits = released.limits;
        gone = released.gone;
        others = released.others;
        less = omega (arith, freed);
      }
]

held_bit-set_let_go :
    (s d a side : ℕ) (value : Bool) (states : ℕ → StreamState)
    → (set_let_go s d value states a).held_bit side ≡ (states a).held_bit side
held_bit-set_let_go s d a side value states = ground arith

pub set_let_go-IsSound :
    (s d : ℕ) (value : Bool) (r : TcpReassembly)
    → IsSound r
    → IsSound (record r { states = set_let_go s d value r.states })
set_let_go-IsSound s d value r h = record {
  total = h.total;
  bounded = h.bounded;
  once = h.once;
  distinct = h.distinct;
  listed = h.listed;
  entry = h.entry;
  bits = λ a side l. held_bit-set_let_go s d a side value r.states ∙ h.bits a side l;
}

-- What making room for some bytes, but for the entry under a key, leaves.
pub record HasRoom (bytes keep : ℕ) (r : TcpReassembly) (p : Bool × TcpReassembly) : Type 0 where
  pub sound : IsSound p.1
  pub limits : (p.1.memory_limit ≡ r.memory_limit) × (p.1.stream_limit ≡ r.stream_limit)
  pub kept : find_entry keep p.1.entries ≡ find_entry keep r.entries
  pub less : p.1.used ≤ r.used
  pub free : p.0 ≡ true → p.1.used + bytes ≤ p.1.memory_limit
  pub alone :
      p.0 ≡ false
      → (p.1.memory_limit < p.1.used + bytes)
        × ((key : ℕ) → is_found (find_entry key p.1.entries) ≡ true → key ≡ keep)

let_go_of-Released :
    (key : ℕ) (e : Entry) (r : TcpReassembly)
    → IsSound r
    → find_entry key r.entries ≡ some e
    → Released key e r (let_go_of key e r)
unfolding let_go_of
let_go_of-Released key e r s h =
    let marked : TcpReassembly = record r {
      states = set_let_go e.state e.direction true r.states;
    } in
    let released = release-found key e marked (set_let_go-IsSound e.state e.direction true r s) h in
    record {
      sound = released.sound;
      limits = released.limits;
      gone = released.gone;
      others = released.others;
      freed = released.freed;
      shorter = released.shorter;
    }

room_loop-HasRoom :
    (fuel bytes keep : ℕ) (r : TcpReassembly)
    → length r.lru < fuel
    → IsSound r
    → Gives (HasRoom bytes keep r) (room_loop fuel bytes keep r)
unfolding room_loop is_found
room_loop-HasRoom zero bytes keep r l s = absurd (omega (arith, l))
room_loop-HasRoom (suc fuel) bytes keep r l s =
    elim (Bool-cases (leb (r.used + bytes) r.memory_limit)) [
      | inl fits ↦
          rw (room_loop, fits)
            (given (record {
              sound = s;
              limits = (refl, refl);
              kept = refl;
              less = omega arith;
              free = λ h. leb→le _ _ fits;
              alone = λ h. absurd cc;
            }))
      | inr full ↦ elim (Option-cases (oldest keep r.lru)) [
        | inl last ↦
            rw (room_loop, full, last)
              (given (record {
                sound = s;
                limits = (refl, refl);
                kept = refl;
                less = omega arith;
                free = λ h. absurd cc;
                alone = λ h. (
                  leb→lt _ _ full,
                  λ key there.
                      equal_key key keep (oldest-none keep key r.lru last (s.listed key ∙ there)),
                );
              }))
        | inr (key, first) ↦
            let (in_lru, other) = oldest_listed keep key r.lru s.distinct first in
            elim (Option-cases (find_entry key r.entries)) [
              | inl missing ↦
                  let no : among key r.lru ≡ false = s.listed key ∙ ap is_found missing in absurd cc
              | inr (e, there) ↦
                  let released = let_go_of-Released key e r s there in
                  let r' = let_go_of key e r in
                  let shorter = released.shorter in
                  let freed = released.freed in
                  rw (room_loop, full, first, there)
                    (Gives-map (HasRoom bytes keep r') (HasRoom bytes keep r) _
                      (room_loop-HasRoom fuel bytes keep r' (omega (arith, shorter, l))
                        released.sound)
                      (λ p h.
                        let less = h.less in
                        record {
                          sound = h.sound;
                          limits = (h.limits.0 ∙ released.limits.0, h.limits.1 ∙ released.limits.1);
                          kept = h.kept ∙ released.others keep (key_sym key keep other);
                          less = omega (arith, less, freed);
                          free = h.free;
                          alone = h.alone;
                        }))
            ]
      ]
    ]

-- From a well-formed state, makeRoom ends and looks up no missing entry; the state it leaves is
-- well formed, with the entry to keep as it was and no more memory counted. If it tells that
-- there is room, the bytes fit in the memory limit; if not, they do not fit and no entry but the
-- one to keep is left.
pub make_room-HasRoom :
    (bytes keep : ℕ) (r : TcpReassembly)
    → IsSound r
    → Gives (HasRoom bytes keep r) (make_room bytes keep r)
unfolding make_room
make_room-HasRoom bytes keep r s =
    room_loop-HasRoom (suc (length r.lru)) bytes keep r (omega arith) s
