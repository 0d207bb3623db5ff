-- ===== src/TcpReassembly/Holding.antt =====
-- src/tcp_reassembly.cpp: what a direction holds stays within the limits (recharge, reserve, append,
-- holdEarly, appendEarly).
use log_squirl_tcpdump.Common.{
  ℕ, ◌+◌, ◌-◌, ◌*◌, ◌/◌, ◌≤◌, ◌<◌, min, max, List, [], ◌∷◌, some, Bool, true, false, ◌==◌, leb, ltb,
  ◌≡◌, refl, sym, subst, ◌∙◌, ap, inl, inr, Bool-cases, leb→le, leb→lt, ltb→le, length,
  some_injective, arith,
}
use log_squirl_tcpdump.ByteStreamOrderer.{EarlySegment, early_bytes, bytes_of}
use log_squirl_tcpdump.TcpReassembly.{
  Entry, TcpReassembly, find_entry, put_entry, store, early_cost, entry_cost, recharge, grow,
  reserve, max_early_segments,
}
use log_squirl_tcpdump.TcpReassembly.Table.{
  equal_key, find_entry-put_same, find_entry-put_other, Once-put, costs-erase, costs-put,
}
use log_squirl_tcpdump.TcpReassembly.Sound.{
  is_found, IsEntry, IsSound, Gives, given, Gives-bind, Gives-test,
}
use log_squirl_tcpdump.TcpReassembly.Memory.{HasRoom, make_room-HasRoom}

pub early_cost_lem : (es : List EarlySegment) → early_cost es ≡ 32 * length es + bytes_of es
unfolding early_cost bytes_of
early_cost_lem [] = refl
early_cost_lem (s ∷ rest) = omega (arith, early_cost_lem rest)

-- The table after a write to the entry under a key, and perhaps to others.
pub record Holds (key : ℕ) (r r' : TcpReassembly) (e : Entry) : Type 0 where
  pub sound : IsSound r'
  pub limits : (r'.memory_limit ≡ r.memory_limit) × (r'.stream_limit ≡ r.stream_limit)
  pub there : find_entry key r'.entries ≡ some e

-- The state with an entry written to, and the memory counted.
abbrev pub written : ℕ → Entry → ℕ → TcpReassembly → TcpReassembly
written key e used r = record r { entries = put_entry key e r.entries; used = used }

pub written-Holds :
    (key : ℕ) (e e' : Entry) (used : ℕ) (r : TcpReassembly)
    → IsSound r
    → find_entry key r.entries ≡ some e
    → IsEntry r.stream_limit key e'
    → used + e.cost ≡ r.used + e'.cost
    → used ≤ r.memory_limit
    → Holds key r (written key e' used r) e'
unfolding is_found
written-Holds key e e' used r s h well counted fits =
    let there = find_entry-put_same key e e' r.entries h in
    let costs_now = costs-put key e e' r.entries h in
    let total = s.total in
    let found : (j : ℕ)
        → is_found (find_entry j (put_entry key e' r.entries)) ≡ is_found (find_entry j r.entries) =
      λ j. elim (Bool-cases (j == key)) [
        | inl same ↦ rw (equal_key j key same, there, h) refl
        | inr other ↦ rw (find_entry-put_other j key e' r.entries other) refl
      ] in
    record {
      sound = record {
        total = omega (arith, counted, costs_now, total);
        bounded = fits;
        once = Once-put key e' r.entries s.once;
        distinct = s.distinct;
        listed = λ j. s.listed j ∙ sym (found j);
        entry = λ j f g. elim (Bool-cases (j == key)) [
          | inl same ↦
              let at : j ≡ key = equal_key j key same in
              let is : e' ≡ f =
                some_injective
                  (sym there ∙ sym (ap (λ k. find_entry k (put_entry key e' r.entries)) at) ∙ g) in
              subst (λ k. IsEntry r.stream_limit k f) (sym at)
                (subst (IsEntry r.stream_limit key) is well)
          | inr other ↦ s.entry j f (sym (find_entry-put_other j key e' r.entries other) ∙ g)
        ];
        bits = λ a side l. s.bits a side l ∙ sym (found (2 * a + side));
      };
      limits = (refl, refl);
      there = there;
    }

pub store-Holds :
    (key : ℕ) (e e' : Entry) (r : TcpReassembly)
    → IsSound r
    → find_entry key r.entries ≡ some e
    → IsEntry r.stream_limit key e'
    → e'.cost ≡ e.cost
    → Holds key r (store key e' r) e'
store-Holds key e e' r s h well same =
    written-Holds key e e' r.used r s h well (omega (arith, same)) s.bounded

cost-le-used :
    (key : ℕ) (e : Entry) (r : TcpReassembly)
    → IsSound r
    → find_entry key r.entries ≡ some e
    → e.cost ≤ r.used
cost-le-used key e r s h =
    let total = s.total in omega (arith, costs-erase key e r.entries h, total)

-- An entry whose memory is to be counted afresh, for which there is room.
pub record IsDraft (r : TcpReassembly) (key : ℕ) (e e' : Entry) : Type 0 where
  pub keyed : key ≡ 2 * e'.state + e'.direction
  pub side : e'.direction < 2
  pub fits : length e'.held ≤ e'.capacity
  pub within : e'.capacity + early_bytes e'.order ≤ r.stream_limit
  pub few : length e'.order.early_segments ≤ max_early_segments
  pub counted : e'.cost ≡ e.cost
  pub room : r.used + entry_cost e' ≤ r.memory_limit + e.cost

pub record Recharged (key : ℕ) (r : TcpReassembly) (e : Entry) (p : TcpReassembly × Entry)
    : Type 0 where
  pub holds : Holds key r p.0 p.1
  pub entry : p.1 ≡ record e { cost = entry_cost e }
  pub used : p.0.used + e.cost ≡ r.used + entry_cost e

pub recharge-Recharged :
    (key : ℕ) (e e' : Entry) (r : TcpReassembly)
    → IsSound r
    → find_entry key r.entries ≡ some e
    → IsDraft r key e e'
    → Recharged key r e' (recharge key e' r)
unfolding recharge
recharge-Recharged key e e' r s h draft =
    let part : e.cost ≤ r.used = cost-le-used key e r s h in
    let same = draft.counted in
    let room = draft.room in
    record {
      holds =
          written-Holds key e (record e' { cost = entry_cost e' })
            (r.used - e'.cost + entry_cost e') r s h
            (record {
              keyed = draft.keyed;
              side = draft.side;
              fits = draft.fits;
              within = draft.within;
              few = draft.few;
              charged = omega arith;
            })
            (omega (arith, part, same)) (omega (arith, part, room, same));
      entry = refl;
      used = omega (arith, part, same);
    }

-- An unchanged entry in a table with the same limits.
pub unchanged-Holds :
    (bytes key : ℕ) (e : Entry) (r : TcpReassembly) (p : Bool × TcpReassembly)
    → find_entry key r.entries ≡ some e
    → HasRoom bytes key r p
    → Holds key r p.1 e
unchanged-Holds bytes key e r p h room = record {
  sound = room.sound;
  limits = room.limits;
  there = room.kept ∙ h;
}

pub Holds-trans :
    (key : ℕ) (r r' r'' : TcpReassembly) (e e' : Entry)
    → Holds key r r' e
    → Holds key r' r'' e'
    → Holds key r r'' e'
Holds-trans key r r' r'' e e' h k = record {
  sound = k.sound;
  limits = (k.limits.0 ∙ h.limits.0, k.limits.1 ∙ h.limits.1);
  there = k.there;
}

-- What reserving room in the buffer of an entry leaves.
pub record IsReserved (key extra : ℕ) (e : Entry) (r : TcpReassembly)
    (q : Bool × TcpReassembly × Entry) : Type 0 where
  pub holds : Holds key r q.1 q.2
  pub same : (q.2.held ≡ e.held) × (q.2.order ≡ e.order)
  pub enough : q.0 ≡ true → length e.held + extra ≤ q.2.capacity

grow-IsReserved :
    (key extra grown : ℕ) (e : Entry) (r : TcpReassembly) (p : Bool × TcpReassembly)
    → find_entry key r.entries ≡ some e
    → e.capacity ≤ grown
    → length e.held + extra ≤ grown
    → grown + early_bytes e.order ≤ r.stream_limit
    → HasRoom (grown - e.capacity) key r p
    → Gives (IsReserved key extra e r) (grow grown key e p)
grow-IsReserved key extra grown e r (false, r1) h g n l room = given (record {
  holds = unchanged-Holds _ key e r (false, r1) h room;
  same = (refl, refl);
  enough = λ x. absurd cc;
})
grow-IsReserved key extra grown e r (true, r1) h g n l room =
    let there = room.kept ∙ h in
    let well = room.sound.entry key e there in
    let free = room.free refl in
    let charged = well.charged in
    let limit = room.limits.1 in
    let fits = well.fits in
    let recharged =
      recharge-Recharged key e (record e { capacity = max e.capacity grown }) r1 room.sound there
        (record {
          keyed = well.keyed;
          side = well.side;
          fits = omega (arith, fits, g);
          within = omega (arith, l, limit, g);
          few = well.few;
          counted = refl;
          room = omega (arith, free, charged, g);
        }) in
    let is = recharged.entry in
    given (record {
      holds =
          Holds-trans key r r1 _ e _ (unchanged-Holds _ key e r (true, r1) h room) recharged.holds;
      same = (rw is refl, rw is refl);
      enough = λ x. rw is (omega (arith, n));
    })

pub reserve-IsReserved :
    (key : ℕ) (e : Entry) (extra : ℕ) (r : TcpReassembly)
    → IsSound r
    → find_entry key r.entries ≡ some e
    → Gives (IsReserved key extra e r) (reserve key e extra r)
unfolding reserve
reserve-IsReserved key e extra r s h =
    let well = s.entry key e h in
    let within = well.within in
    let early = early_bytes e.order in
    let needed = length e.held + extra in
    let grown = max needed (min (e.capacity + e.capacity / 2) (r.stream_limit - early)) in
    let itself : Holds key r r e = record { sound = s; limits = (refl, refl); there = h } in
    Gives-test _ (ltb r.stream_limit (needed + early)) _ _
      (λ past. given (record { holds = itself; same = (refl, refl); enough = λ x. absurd cc }))
      (λ within_limit.
        Gives-test _ (leb needed e.capacity) _ _
          (λ fits.
            given (record { holds = itself; same = (refl, refl); enough = λ x. leb→le _ _ fits }))
          (λ full.
            let larger = leb→lt needed e.capacity full in
            let bound = ltb→le _ _ within_limit in
            Gives-bind (HasRoom (grown - e.capacity) key r) _ _ _
              (make_room-HasRoom (grown - e.capacity) key r s)
              (λ p room.
                grow-IsReserved key extra grown e r p h (omega (arith, larger)) (omega arith)
                  (omega (arith, bound, within)) room)))
