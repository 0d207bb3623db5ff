-- ===== src/TcpReassembly/Early.antt =====
-- src/tcp_reassembly.cpp: the bytes that are appended to a direction's, and the segments that came
-- early (append, holdEarly, appendEarly).
use mathlib.Core.List.{append-nil, append_assoc}
use log_squirl_tcpdump.Common.{
  ℕ, zero, suc, ◌+◌, ◌^◌, ◌%◌, ◌≤◌, ◌<◌, List, [], ◌∷◌, ◌++◌, some, Bool, subst, true, false, leb,
  ltb, if◌then◌else◌, ◌≡◌, refl, sym, ◌∙◌, ap, inl, inr, Bool-cases, Option-cases, leb→lt, ltb→le,
  length, length-append, arith,
}
use log_squirl_tcpdump.ByteStreamOrderer.{
  EarlySegment, ByteStreamOrderer, advance, holds, hold_early, early_bytes, early_bytes_lem,
  bytes_of, bytes_of-snoc, pop_next,
}
use log_squirl_tcpdump.ByteStreamOrderer.Positions.{Follows}
use log_squirl_tcpdump.ByteStreamOrderer.Pop.{pop_next-Popped, Popped-some}
use log_squirl_tcpdump.ByteStreamOrderer.Shrinks.{pop_next-Shrinks}
use log_squirl_tcpdump.TcpReassembly.{
  Entry, TcpReassembly, find_entry, store, entry_cost, append_reserved, append, hold_with_room,
  hold_early_segment, append_early_loop, append_early, max_early_segments,
}
use log_squirl_tcpdump.TcpReassembly.Sound.{
  IsSound, Gives, given, Gives-bind, Gives-test, Gives-map,
}
use log_squirl_tcpdump.TcpReassembly.Memory.{HasRoom, make_room-HasRoom}
use log_squirl_tcpdump.TcpReassembly.Takes.{Takes, Takes-nothing, Takes-more}
use log_squirl_tcpdump.TcpReassembly.Holding.{
  early_cost_lem, Holds, Holds-trans, store-Holds, unchanged-Holds, IsDraft, recharge-Recharged,
  IsReserved, reserve-IsReserved,
}

-- What appending bytes to an entry leaves: the bytes are there, or nothing is.
pub record IsAppended (key : ℕ) (bytes : List ℕ) (e : Entry) (r : TcpReassembly)
    (q : Bool × TcpReassembly × Entry) : Type 0 where
  pub holds : Holds key r q.1 q.2
  pub early : q.2.order.early_segments ≡ e.order.early_segments
  pub held : q.2.held ≡ (if q.0 then e.held ++ bytes else e.held)
  pub order : q.0 ≡ true → q.2.order ≡ advance e.order (length bytes)

append_reserved-IsAppended :
    (key : ℕ) (bytes : List ℕ) (e : Entry) (r : TcpReassembly) (q : Bool × TcpReassembly × Entry)
    → IsReserved key (length bytes) e r q
    → Gives (IsAppended key bytes e r) (append_reserved key bytes q)
unfolding advance early_bytes
append_reserved-IsAppended key bytes e r (false, r1, e1) h = given (record {
  holds = h.holds;
  early = ap (λ (o : ByteStreamOrderer). o.early_segments) h.same.1;
  held = h.same.0;
  order = λ ok. absurd cc;
})
append_reserved-IsAppended key bytes e r (true, r1, e1) h =
    let well = h.holds.sound.entry key e1 h.holds.there in
    let enough = h.enough refl in
    let size : length (e1.held ++ bytes) ≡ length e.held + length bytes =
      length-append e1.held bytes ∙ ap (λ xs. length xs + length bytes) h.same.0 in
    let e2 : Entry = record e1 {
      held = e1.held ++ bytes;
      order = advance e1.order (length bytes);
      segments = (e1.segments + 1) % 2 ^ 32;
    } in
    given (record {
      holds = Holds-trans key r r1 _ e1 e2 h.holds (
          store-Holds key e1 e2 r1 h.holds.sound h.holds.there
            (record {
              keyed = well.keyed;
              side = well.side;
              fits = omega (arith, size, enough);
              within = well.within;
              few = well.few;
              charged = well.charged;
            })
            refl);
      early = ap (λ (o : ByteStreamOrderer). o.early_segments) h.same.1;
      held = ap (λ xs. xs ++ bytes) h.same.0;
      order = λ ok. ap (λ o. advance o (length bytes)) h.same.1;
    })

pub append-IsAppended :
    (key : ℕ) (e : Entry) (bytes : List ℕ) (r : TcpReassembly)
    → IsSound r
    → find_entry key r.entries ≡ some e
    → Gives (IsAppended key bytes e r) (append key e bytes r)
unfolding append
append-IsAppended key e bytes r s h =
    Gives-bind (IsReserved key (length bytes) e r) _ _ _
      (reserve-IsReserved key e (length bytes) r s h)
      (λ q reserved. append_reserved-IsAppended key bytes e r q reserved)

hold_with_room-Holds :
    (key : ℕ) (e : Entry) (seq : ℕ) (payload : List ℕ) (r : TcpReassembly)
    (p : Bool × TcpReassembly)
    → find_entry key r.entries ≡ some e
    → length e.order.early_segments < max_early_segments
    → e.capacity + early_bytes e.order + length payload ≤ r.stream_limit
    → HasRoom (32 + length payload) key r p
    → Gives (λ q. Holds key r q.1 q.2) (hold_with_room key e seq payload p)
hold_with_room-Holds key e seq payload r (false, r1) h f l room =
    given (unchanged-Holds _ key e r (false, r1) h room)
hold_with_room-Holds key e seq payload r (true, r1) h f l room =
    let there = room.kept ∙ h in
    let well = room.sound.entry key e there in
    let free = room.free refl in
    let charged = well.charged in
    let limit = room.limits.1 in
    let s : EarlySegment = record { seq = seq; bytes = payload } in
    let new = hold_early e.order seq payload in
    let bytes : early_bytes new ≡ early_bytes e.order + length payload =
      unfold hold_early early_bytes in bytes_of-snoc e.order.early_segments s in
    let count : length new.early_segments ≡ length e.order.early_segments + 1 =
      unfold hold_early in length-append e.order.early_segments (s ∷ []) in
    let cost = early_cost_lem new.early_segments in
    let cost_before = early_cost_lem e.order.early_segments in
    let before = early_bytes_lem e.order in
    let after = early_bytes_lem new in
    let recharged =
      recharge-Recharged key e (record e { order = new }) r1 room.sound there
        (record {
          keyed = well.keyed;
          side = well.side;
          fits = well.fits;
          within = omega (arith, l, limit, bytes);
          few = omega (arith, f, count);
          counted = refl;
          room = omega (arith, free, charged, bytes, count, cost, cost_before, before, after);
        }) in
    given (Holds-trans key r r1 _ e _ (unchanged-Holds _ key e r (true, r1) h room) recharged.holds)

pub hold_early_segment-Holds :
    (key : ℕ) (e : Entry) (seq : ℕ) (payload : List ℕ) (r : TcpReassembly)
    → IsSound r
    → find_entry key r.entries ≡ some e
    → Gives (λ q. Holds key r q.1 q.2) (hold_early_segment key e seq payload r)
unfolding hold_early_segment
hold_early_segment-Holds key e seq payload r s h =
    let itself : Holds key r r e = record { sound = s; limits = (refl, refl); there = h } in
    Gives-test _ (holds e.order seq (length payload)) _ _ (λ again. given itself)
      (λ fresh.
        Gives-test _ (leb max_early_segments (length e.order.early_segments)) _ _
          (λ many. given itself)
          (λ few.
            Gives-test _ (ltb r.stream_limit (e.capacity + early_bytes e.order + length payload)) _
              _ (λ past. given itself)
              (λ fits.
                Gives-bind (HasRoom (32 + length payload) key r) _ _ _
                  (make_room-HasRoom (32 + length payload) key r s)
                  (λ p room.
                    hold_with_room-Holds key e seq payload r p h (leb→lt _ _ few) (ltb→le _ _ fits)
                      room))))

-- What appending the early segments leaves: bytes follow the held ones, those that come next.
pub record IsExtended (key : ℕ) (e : Entry) (r : TcpReassembly) (q : Bool × TcpReassembly × Entry)
    : Type 0 where
  pub holds : Holds key r q.1 q.2
  pub held : (more : List ℕ) × (q.2.held ≡ e.held ++ more)
  pub takes :
      q.0 ≡ true
      → (S : ℕ → ℕ) (p : ℕ) → Follows S p e.order
      → bytes_of e.order.early_segments ≤ 2 ^ 31
      → Takes S p e.order held.0 q.2.order

-- An entry after its orderer handed a segment over, or none.
abbrev popped : Entry → Entry
popped e = record e { order = (pop_next e.order).1 }

popped-IsDraft :
    (key : ℕ) (e : Entry) (r : TcpReassembly)
    → IsSound r
    → find_entry key r.entries ≡ some e
    → IsDraft r key e (popped e) × (entry_cost (popped e) ≤ e.cost)
popped-IsDraft key e r s h =
    let well = s.entry key e h in
    let o = (pop_next e.order).1 in
    let shrinks = pop_next-Shrinks e.order in
    let fewer = shrinks.fewer in
    let less = shrinks.less in
    let within = well.within in
    let few = well.few in
    let charged = well.charged in
    let bounded = s.bounded in
    let cost = early_cost_lem o.early_segments in
    let cost_before = early_cost_lem e.order.early_segments in
    let before = early_bytes_lem e.order in
    let after = early_bytes_lem o in
    let cheaper : entry_cost (popped e) ≤ e.cost =
      omega (arith, charged, cost, cost_before, fewer, less) in
    (
      record {
        keyed = well.keyed;
        side = well.side;
        fits = well.fits;
        within = omega (arith, within, before, after, less);
        few = omega (arith, few, fewer);
        counted = refl;
        room = omega (arith, bounded, cheaper);
      },
      cheaper,
    )

popped-Holds :
    (key : ℕ) (e : Entry) (r : TcpReassembly)
    → IsSound r
    → find_entry key r.entries ≡ some e
    → Holds key r (store key (popped e) r) (popped e)
popped-Holds key e r s h =
    let (draft, cheaper) = popped-IsDraft key e r s h in
    store-Holds key e (popped e) r s h
      (record {
        keyed = draft.keyed;
        side = draft.side;
        fits = draft.fits;
        within = draft.within;
        few = draft.few;
        charged = cheaper;
      })
      refl

append_early_loop-IsExtended :
    (fuel key : ℕ) (e : Entry) (r : TcpReassembly)
    → length e.order.early_segments < fuel
    → IsSound r
    → find_entry key r.entries ≡ some e
    → Gives (IsExtended key e r) (append_early_loop fuel key e r)
unfolding append_early_loop
append_early_loop-IsExtended zero key e r l s h = absurd (omega (arith, l))
append_early_loop-IsExtended (suc fuel) key e r l s h = elim (Option-cases (pop_next e.order).0) [
  | inl none_next ↦
      let recharged = recharge-Recharged key e (popped e) r s h (popped-IsDraft key e r s h).0 in
      let is = recharged.entry in
      rw (append_early_loop, none_next)
        (given (record {
          holds = recharged.holds;
          held = ([], rw is (sym (append-nil e.held)));
          takes = λ ok S p follows few. rw is (Takes-nothing S p e.order follows none_next);
        }))
  | inr (bytes, next) ↦
      let stored = popped-Holds key e r s h in
      let fewer = ((pop_next-Shrinks e.order).popped bytes next).0 in
      rw (append_early_loop, next)
        (Gives-bind (IsAppended key bytes (popped e) (store key (popped e) r)) _ _ _
          (append-IsAppended key (popped e) bytes _ stored.sound stored.there)
          (λ q appended.
            let holds = Holds-trans key r _ q.1 (popped e) q.2 stored appended.holds in
            elim (Bool-cases q.0) [
              | inl ok ↦
                  let left : length q.2.order.early_segments < fuel =
                    omega (arith, l, fewer, ap length appended.early) in
                  let now : q.2.held ≡ e.held ++ bytes =
                    appended.held ∙ ap (λ c. if c then e.held ++ bytes else e.held) ok in
                  rw ok (
                    Gives-map (IsExtended key q.2 q.1) (IsExtended key e r) _
                      (append_early_loop-IsExtended fuel key q.2 q.1 left holds.sound holds.there)
                      (λ t later. record {
                        holds = Holds-trans key r q.1 t.1 q.2 t.2 holds later.holds;
                        held = (
                          bytes ++ later.held.0,
                          later.held.1 ∙ rw now (append_assoc e.held bytes later.held.0),
                        );
                        takes = λ done S p follows few.
                            let popped_now =
                              Popped-some S p e.order (pop_next e.order) bytes next
                                (pop_next-Popped S p e.order follows) in
                            let size = popped_now.4 in
                            Takes-more S p e.order bytes later.held.0 t.2.order follows few next (
                              subst (λ o. Takes S (p + length bytes) o later.held.0 t.2.order)
                                (appended.order ok)
                                (later.takes done S (p + length bytes)
                                  (subst (Follows S (p + length bytes)) (sym (appended.order ok))
                                    popped_now.2)
                                  (subst (λ es. bytes_of es ≤ 2 ^ 31) (sym appended.early)
                                    (omega (arith, few, size)))));
                      }))
              | inr failed ↦
                  let now : q.2.held ≡ e.held =
                    appended.held ∙ ap (λ c. if c then e.held ++ bytes else e.held) failed in
                  rw failed (
                    given (record {
                      holds = holds;
                      held = ([], now ∙ sym (append-nil e.held));
                      takes = λ done. absurd cc;
                    }))
            ]))
]

pub append_early-IsExtended :
    (key : ℕ) (e : Entry) (r : TcpReassembly)
    → IsSound r
    → find_entry key r.entries ≡ some e
    → Gives (IsExtended key e r) (append_early key e r)
unfolding append_early
append_early-IsExtended key e r s h = append_early_loop-IsExtended _ key e r (omega arith) s h
