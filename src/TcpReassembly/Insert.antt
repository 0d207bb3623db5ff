-- ===== src/TcpReassembly/Insert.antt =====
-- src/tcp_reassembly.cpp: a new entry, one used again, and the rest of a message that is skipped (skip).
use log_squirl_tcpdump.Common.{
  ℕ, ◌+◌, ◌-◌, ◌*◌, ◌≤◌, ◌<◌, List, [], ◌∷◌, ◌++◌, none, some, Bool, true, false, ltb, ◌==◌, ◌≡◌,
  refl, sym, subst, ◌∙◌, ap, inl, inr, Bool-cases, length, some_injective, arith,
}
use log_squirl_tcpdump.ByteStreamOrderer.{early_bytes, bytes_of}
use log_squirl_tcpdump.TcpReassembly.{
  Entry, TcpReassembly, find_entry, put_entry, erase_key, set_held, release, entry_cost, early_cost,
  recharge, max_early_segments,
}
use log_squirl_tcpdump.TcpReassembly.Table.{
  Once, costs, among, find_entry-head_same, find_entry-head_other, equal_key, key_refl, key_sym,
  among-erase_same, among-erase_other, Distinct-erase, among-snoc, Distinct-snoc,
}
use log_squirl_tcpdump.TcpReassembly.Sound.{
  is_found, IsEntry, IsSound, Gives, given, Gives-bind, Gives-test, Gives-map,
}
use log_squirl_tcpdump.TcpReassembly.Memory.{
  release-IsWithout, HasRoom, make_room-HasRoom, held_bit-set_held,
}
use log_squirl_tcpdump.TcpReassembly.Begin.{
  use_entry, insert_entry, insert_skipping, entry_key, skip, max_skip,
}

-- A well-formed state with the same limits.
pub record Keeps (r r' : TcpReassembly) : Type 0 where
  pub sound : IsSound r'
  pub limits : (r'.memory_limit ≡ r.memory_limit) × (r'.stream_limit ≡ r.stream_limit)

pub Keeps-refl : (r : TcpReassembly) → IsSound r → Keeps r r
Keeps-refl r s = record { sound = s; limits = (refl, refl) }

pub Keeps-trans : (r r' r'' : TcpReassembly) → Keeps r r' → Keeps r' r'' → Keeps r r''
Keeps-trans r r' r'' h k = record {
  sound = k.sound;
  limits = (k.limits.0 ∙ h.limits.0, k.limits.1 ∙ h.limits.1);
}

pub release-Keeps : (key : ℕ) (r : TcpReassembly) → IsSound r → Keeps r (release key r)
release-Keeps key r s =
    let h = release-IsWithout key r s in record { sound = h.sound; limits = h.limits }

pub use_entry-Keeps :
    (key : ℕ) (e : Entry) (r : TcpReassembly)
    → IsSound r
    → find_entry key r.entries ≡ some e
    → Keeps r (use_entry key r)
unfolding is_found
use_entry-Keeps key e r s h = record {
  sound = record {
    total = s.total;
    bounded = s.bounded;
    once = s.once;
    distinct =
        Distinct-snoc key _ (Distinct-erase key r.lru s.distinct)
          (among-erase_same key r.lru s.distinct);
    listed = λ j. among-snoc j key (erase_key key r.lru) ∙ elim (Bool-cases (key == j)) [
      | inl same ↦ rw (same, ← equal_key key j same, h) refl
      | inr other ↦ rw (other, among-erase_other j key r.lru (key_sym key j other)) (s.listed j)
    ];
    entry = s.entry;
    bits = s.bits;
  };
  limits = (refl, refl);
}

-- An entry to be put under a key that has none.
pub record IsNew (key : ℕ) (e : Entry) (r : TcpReassembly) : Type 0 where
  pub absent : find_entry key r.entries ≡ none
  pub keyed : key ≡ 2 * e.state + e.direction
  pub side : e.direction < 2
  pub fits : length e.held ≤ e.capacity
  pub within : e.capacity + early_bytes e.order ≤ r.stream_limit
  pub few : length e.order.early_segments ≤ max_early_segments
  pub uncounted : e.cost ≡ 0
  pub room : r.used + entry_cost e ≤ r.memory_limit

abbrev pub charged_entry : Entry → Entry
charged_entry e = record e { cost = entry_cost e }

insert_entry_lem :
    (key : ℕ) (e : Entry) (r : TcpReassembly)
    → insert_entry key e r ≡ record r {
      entries = (key, charged_entry e) ∷ r.entries;
      lru = r.lru ++ (key ∷ []);
      used = r.used - e.cost + entry_cost e;
      states = set_held e.state e.direction true r.states;
    }
unfolding recharge put_entry
insert_entry_lem key e r = rw (key_refl key) refl

pub record Inserted (key : ℕ) (e : Entry) (r r' : TcpReassembly) : Type 0 where
  pub keeps : Keeps r r'
  pub there : find_entry key r'.entries ≡ some (charged_entry e)

pub insert_entry-Inserted :
    (key : ℕ) (e : Entry) (r : TcpReassembly)
    → IsSound r
    → IsNew key e r
    → Inserted key e r (insert_entry key e r)
unfolding costs Once is_found
insert_entry-Inserted key e r s new =
    let head = (λ (j : ℕ). find_entry-head_same j key (charged_entry e) r.entries) in
    let tail = (λ (j : ℕ). find_entry-head_other j key (charged_entry e) r.entries) in
    let uncounted = new.uncounted in
    let room = new.room in
    let total = s.total in
    let absent = new.absent in
    let unlisted : among key r.lru ≡ false = s.listed key ∙ ap is_found absent in
    rw (insert_entry_lem key e r) (record {
      keeps = record {
        sound = record {
          total = omega (arith, uncounted, total);
          bounded = omega (arith, uncounted, room);
          once = (absent, s.once);
          distinct = Distinct-snoc key r.lru s.distinct unlisted;
          listed = λ j. among-snoc j key r.lru ∙ elim (Bool-cases (key == j)) [
            | inl same ↦ rw (same, head j same) refl
            | inr other ↦ rw (other, tail j other) (s.listed j)
          ];
          entry = λ j f g. elim (Bool-cases (key == j)) [
            | inl same ↦
                let is : charged_entry e ≡ f = some_injective (sym (head j same) ∙ g) in
                subst (λ k. IsEntry r.stream_limit k f) (equal_key key j same)
                  (subst (IsEntry r.stream_limit key) is (record {
                    keyed = new.keyed;
                    side = new.side;
                    fits = new.fits;
                    within = new.within;
                    few = new.few;
                    charged = omega arith;
                  }))
            | inr other ↦ s.entry j f (sym (tail j other) ∙ g)
          ];
          bits = λ a side l.
              held_bit-set_held key e.state e.direction a side true r.states new.keyed new.side l
              ∙ elim (Bool-cases (key == (2 * a + side))) [
                | inl same ↦ rw (head _ same, ← equal_key key _ same, key_refl key) refl
                | inr other ↦ rw (tail _ other, key_sym key _ other) (s.bits a side l)
              ];
        };
        limits = (refl, refl);
      };
      there = head key (key_refl key);
    })

-- After a skip, the direction holds no bytes: an entry that it has skips.
pub record Skipped (key : ℕ) (r r' : TcpReassembly) : Type 0 where
  pub keeps : Keeps r r'
  pub skips : (e : Entry) → find_entry key r'.entries ≡ some e → e.skipping ≡ true

insert_skipping-Skipped :
    (id state direction : ℕ) (label : List ℕ) (from bytes : ℕ) (r : TcpReassembly)
    (p : Bool × TcpReassembly)
    → id ≡ state
    → direction < 2
    → find_entry (entry_key id direction) r.entries ≡ none
    → HasRoom 128 (entry_key id direction) r p
    → Gives
        (Skipped (entry_key id direction) r)
        (insert_skipping id state direction label from bytes p)
unfolding early_bytes bytes_of early_cost
insert_skipping-Skipped id state direction label from bytes r (false, r1) same side absent room =
    given (record {
      keeps = record { sound = room.sound; limits = room.limits };
      skips = λ e there. let none_there = room.kept ∙ absent in cc;
    })
insert_skipping-Skipped id state direction label from bytes r (true, r1) same side absent room =
    let free = room.free refl in
    let inserted = insert_entry-Inserted (entry_key id direction) _ r1 room.sound (record {
      absent = room.kept ∙ absent;
      keyed = omega (arith, same);
      side = side;
      fits = omega arith;
      within = omega arith;
      few = omega arith;
      uncounted = refl;
      room = free;
    }) in
    given (record {
      keeps =
          Keeps-trans r r1 _ (record { sound = room.sound; limits = room.limits }) inserted.keeps;
      skips = λ e there.
          sym (ap (λ (f : Entry). f.skipping) (some_injective (sym inserted.there ∙ there)));
    })

-- skip in a well-formed state, of a direction 0 or 1 of a stream whose pointer is to the state
-- with its number, gives a well-formed state in which the direction holds no bytes: an entry that
-- it has skips a message.
pub skip-Skipped :
    (id state direction : ℕ) (label : List ℕ) (from bytes : ℕ) (r : TcpReassembly)
    → id ≡ state
    → direction < 2
    → IsSound r
    → Gives (Skipped (entry_key id direction) r) (skip id state direction label from bytes r)
unfolding skip
skip-Skipped id state direction label from bytes r same side s =
    let key = entry_key id direction in
    let without = release-IsWithout key r s in
    let released : Keeps r (release key r) = record {
      sound = without.sound;
      limits = without.limits;
    } in
    Gives-test (Skipped key r) (ltb max_skip bytes) _ _
      (λ many.
        given (record { keeps = released; skips = λ e there. let none_there = without.gone in cc }))
      (λ few.
        Gives-bind (HasRoom 128 key (release key r)) _ _ _
          (make_room-HasRoom 128 key (release key r) without.sound)
          (λ p room.
            Gives-map (Skipped key (release key r)) (Skipped key r) _
              (insert_skipping-Skipped id state direction label from bytes (release key r) p same
                side without.gone room)
              (λ r' skipped. record {
                keeps = Keeps-trans r (release key r) r' released skipped.keeps;
                skips = skipped.skips;
              })))
