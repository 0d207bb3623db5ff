-- ===== src/TcpReassembly/Continue.antt =====
-- src/tcp_reassembly.cpp: the messages that the held bytes make, and the start of the next one
-- (continueMessage).
use log_squirl_tcpdump.Common.{
  ℕ, ◌+◌, ◌-◌, ◌≤◌, ◌<◌, min, max, List, [], some, Bool, true, false, ◌==◌, if◌then◌else◌, ◌≡◌,
  refl, sym, ◌∙◌, ap, inl, inr, Bool-cases, length, drop, take-append-drop, length-drop, All,
  some_injective, arith,
}
use log_squirl_tcpdump.ByteStreamOrderer.{ByteStreamOrderer, early_bytes}
use log_squirl_tcpdump.TcpReassembly.{Entry, TcpReassembly, find_entry, store, recharge}
use log_squirl_tcpdump.TcpReassembly.Messages.{DescribedPacket, Describer, Walk, announced_past}
use log_squirl_tcpdump.TcpReassembly.Walks.{Frames, IsWalked, walk_messages-IsWalked}
use log_squirl_tcpdump.TcpReassembly.Sound.{
  IsSound, Gives, given, Gives-bind, Gives-test, Gives-map,
}
use log_squirl_tcpdump.TcpReassembly.Memory.{release-IsWithout, HasRoom, make_room-HasRoom}
use log_squirl_tcpdump.TcpReassembly.Holding.{Holds, store-Holds, recharge-Recharged}
use log_squirl_tcpdump.TcpReassembly.Insert.{
  Keeps, Keeps-refl, Keeps-trans, release-Keeps, Skipped, skip-Skipped,
}
use log_squirl_tcpdump.TcpReassembly.Start.{Divides, Divides-after}
use log_squirl_tcpdump.TcpReassembly.Begin.{Applied, entry_key}
use log_squirl_tcpdump.TcpReassembly.Segments.{
  continue_past, keep_next, continue_whole, continue_walked, continue_message,
}

-- What is left of the held bytes is held, or nothing is.
record IsNext (key : ℕ) (bytes : List ℕ) (order : ByteStreamOrderer) (r : TcpReassembly)
    (p : Bool × TcpReassembly) : Type 0 where
  pub keeps : Keeps r p.1
  pub holds :
      (e : Entry) → find_entry key p.1.entries ≡ some e → (e.held ≡ bytes) × (e.order ≡ order)

-- The held bytes are divided, and a direction that holds the others has its early segments still.
pub record Continues (key : ℕ) (e : Entry) (r : TcpReassembly) (a : Applied) : Type 0 where
  pub divides : Divides key e.held r a
  pub order :
      (f : Entry) → find_entry key a.after.entries ≡ some f → f.skipping ≡ false → f.order ≡ e.order

chosen :
    (c : Bool) (rest room : ℕ)
    → rest ≤ room
    → (rest ≤ (if c then room else rest)) × ((if c then room else rest) ≤ room)
chosen true rest room h = (h, omega arith)
chosen false rest room h = (omega arith, h)

has_free :
    (c : Bool) (room rest used limit : ℕ)
    → ((if c then room else rest) == rest) ≡ false
    → (c ≡ true → used + room ≤ limit)
    → used + (if c then room else rest) ≤ limit
has_free true room rest used limit h k = k refl
has_free false room rest used limit h k = absurd (ground arith)

module _ (d : Describer) (framing : All Frames d.framers) where
  module _ (id state direction : ℕ) (same : id ≡ state) (side : direction < 2) where
    -- The table after the buffer of an entry was moved away.
    emptied-Holds :
        (e : Entry) (r : TcpReassembly)
        → IsSound r
        → find_entry (entry_key id direction) r.entries ≡ some e
        → Holds
            (entry_key id direction)
            r
            (store (entry_key id direction) (record e { held = []; capacity = 0 }) r)
            (record e { held = []; capacity = 0 })
    emptied-Holds e r s h =
        let well = s.entry _ e h in
        let within = well.within in
        let charged = well.charged in
        store-Holds _ e _ r s h
          (record {
            keyed = well.keyed;
            side = well.side;
            fits = omega arith;
            within = omega (arith, within);
            few = well.few;
            charged = omega (arith, charged);
          })
          refl

    continue_past-Continues :
        (pkt : DescribedPacket) (e : Entry) (walk : Walk) (r : TcpReassembly)
        → IsSound r
        → find_entry (entry_key id direction) r.entries ≡ some e
        → Gives
            (Continues (entry_key id direction) e r)
            (continue_past d id state direction pkt e walk r)
    unfolding continue_past
    continue_past-Continues pkt e walk r s h =
        let key = entry_key id direction in
        let emptied = emptied-Holds e r s h in
        let keeps : Keeps r _ = record { sound = emptied.sound; limits = emptied.limits } in
        Gives-bind (Skipped key _) _ _ _
          (skip-Skipped id state direction _ _ _ _ same side emptied.sound)
          (λ r' skipped. given (record {
            divides = record {
              keeps = Keeps-trans r _ r' keeps skipped.keeps;
              prefix = elim (Bool-cases (walk.walk_end == 0)) [
                | inl at_start ↦ rw at_start (e.held, refl)
                | inr later ↦
                    rw later (drop walk.walk_end e.held, take-append-drop walk.walk_end e.held)
              ];
              rest = λ f there holding. let skips = skipped.skips f there in absurd cc;
            };
            order = λ f there holding. let skips = skipped.skips f there in absurd cc;
          }))

    keep_next-IsNext :
        (e : Entry) (walk : Walk) (r : TcpReassembly)
        → IsSound r
        → find_entry (entry_key id direction) r.entries ≡ some e
        → Gives
            (IsNext (entry_key id direction) (drop walk.walk_end e.held) e.order r)
            (keep_next d id state direction e walk r)
    unfolding keep_next recharge
    keep_next-IsNext e walk r s h =
        let key = entry_key id direction in
        let well = s.entry key e h in
        let fits = well.fits in
        let within = well.within in
        let charged = well.charged in
        let bounded = s.bounded in
        let rest = length e.held - walk.walk_end in
        let room =
          max rest (min walk.incomplete.extent_length (r.stream_limit - early_bytes e.order)) in
        let first =
          recharge-Recharged key e (record e { held = []; capacity = 0 }) r s h
            (record {
              keyed = well.keyed;
              side = well.side;
              fits = omega arith;
              within = omega (arith, within);
              few = well.few;
              counted = refl;
              room = omega (arith, charged, bounded);
            }) in
        let r1 = (recharge key (record e { held = []; capacity = 0 }) r).0 in
        let e1 = (recharge key (record e { held = []; capacity = 0 }) r).1 in
        let start : Keeps r r1 = record {
          sound = first.holds.sound;
          limits = first.holds.limits;
        } in
        let size = length-drop walk.walk_end e.held in
        Gives-bind (HasRoom room key r1) _ _ _ (make_room-HasRoom room key r1 start.sound)
          (λ p roomy.
            let room' = if p.0 then room else rest in
            let bound : (rest ≤ room') × (room' ≤ room) = chosen p.0 rest room (omega arith) in
            let above = bound.0 in
            let below = bound.1 in
            let second : Keeps r p.1 =
              Keeps-trans r r1 p.1 start (record { sound = roomy.sound; limits = roomy.limits }) in
            Gives-bind (HasRoom room' key p.1) _ _ _
              (Gives-test (HasRoom room' key p.1) (room' == rest) _ _
                (λ least. make_room-HasRoom room' key p.1 roomy.sound)
                (λ larger. given (record {
                  sound = roomy.sound;
                  limits = (refl, refl);
                  kept = refl;
                  less = omega arith;
                  free = λ t. has_free p.0 room rest _ _ larger roomy.free;
                  alone = λ f. absurd cc;
                })))
              (λ q free.
                let third : Keeps r q.1 =
                  Keeps-trans r p.1 q.1 second
                    (record { sound = free.sound; limits = free.limits }) in
                let there : find_entry key q.1.entries ≡ some e1 =
                  free.kept ∙ roomy.kept ∙ first.holds.there in
                let limit = third.limits.1 in
                let without = release-IsWithout key q.1 third.sound in
                Gives-test _ q.0 _ _
                  (λ ok.
                    let enough = free.free ok in
                    let last =
                      recharge-Recharged key e1
                        (record e1 {
                          held = drop walk.walk_end e.held;
                          capacity = room';
                          segments = 1;
                          framer = walk.incomplete.framer;
                          label = walk.incomplete.label;
                        })
                        q.1 third.sound there
                        (record {
                          keyed = well.keyed;
                          side = well.side;
                          fits = omega (arith, size, above);
                          within = omega (arith, below, within, fits, limit);
                          few = well.few;
                          counted = refl;
                          room = omega (arith, enough);
                        }) in
                    given (record {
                      keeps =
                          Keeps-trans r q.1 _ third
                            (record { sound = last.holds.sound; limits = last.holds.limits });
                      holds = λ f at.
                          let is = some_injective (sym at ∙ last.holds.there) in
                          (ap (λ (g : Entry). g.held) is, ap (λ (g : Entry). g.order) is);
                    }))
                  (λ full. given (record {
                    keeps = Keeps-trans r q.1 _ third (release-Keeps key q.1 third.sound);
                    holds = λ f at. let gone = without.gone in absurd cc;
                  }))))

    continue_whole-Continues :
        (pkt : DescribedPacket) (e : Entry) (walk : Walk) (r : TcpReassembly)
        → IsSound r
        → find_entry (entry_key id direction) r.entries ≡ some e
        → Gives
            (Continues (entry_key id direction) e r)
            (continue_whole d id state direction pkt e walk r)
    unfolding continue_whole
    continue_whole-Continues pkt e walk r s h =
        let key = entry_key id direction in
        let without = release-IsWithout key r s in
        let parts = take-append-drop walk.walk_end e.held in
        Gives-bind (IsNext key (drop walk.walk_end e.held) e.order r) _ _ _
          (Gives-test _ (walk.incomplete.framer == 0) _ _
            (λ all. given (record {
              keeps = release-Keeps key r s;
              holds = λ f there. let gone = without.gone in absurd cc;
            }))
            (λ more. keep_next-IsNext e walk r s h))
          (λ p next. given (record {
            divides = record {
              keeps = next.keeps;
              prefix = (drop walk.walk_end e.held, parts);
              rest = λ f there holding. rw ((next.holds f there).0) parts;
            };
            order = λ f there holding. (next.holds f there).1;
          }))

    continue_walked-Continues :
        (pkt : DescribedPacket) (e : Entry) (walk : Walk) (r : TcpReassembly)
        → IsSound r
        → find_entry (entry_key id direction) r.entries ≡ some e
        → Gives
            (Continues (entry_key id direction) e r)
            (continue_walked d id state direction pkt e walk r)
    unfolding continue_walked
    continue_walked-Continues pkt e walk r s h =
        Gives-test _ (announced_past walk.incomplete (length e.held - walk.walk_end) r.stream_limit)
          _ _ (λ past. continue_past-Continues pkt e walk r s h)
          (λ fits.
            Gives-test _ (walk.walk_end == 0) _ _
              (λ none_whole. given (record {
                divides = record {
                  keeps = Keeps-refl r s;
                  prefix = (e.held, refl);
                  rest = λ f there holding.
                      ap (λ (g : Entry). g.held) (some_injective (sym there ∙ h));
                };
                order =
                    λ f there holding. ap (λ (g : Entry). g.order) (some_injective (sym there ∙ h));
              }))
              (λ whole. continue_whole-Continues pkt e walk r s h))

    pub continue_message-Continues :
        (pkt : DescribedPacket) (e : Entry) (r : TcpReassembly)
        → IsSound r
        → find_entry (entry_key id direction) r.entries ≡ some e
        → Gives
            (Continues (entry_key id direction) e r)
            (continue_message d id state direction pkt e r)
    unfolding continue_message
    continue_message-Continues pkt e r s h =
        let key = entry_key id direction in
        let well = s.entry key e h in
        Gives-bind (IsWalked e.held) _ _ _
          (walk_messages-IsWalked d framing pkt.packet e.held _ e.framer e.look)
          (λ w walked.
            let stored =
              store-Holds key e (record e { look = w.1 }) r s h
                (record {
                  keyed = well.keyed;
                  side = well.side;
                  fits = well.fits;
                  within = well.within;
                  few = well.few;
                  charged = well.charged;
                })
                refl in
            Gives-map _ _ _
              (continue_walked-Continues pkt (record e { look = w.1 }) w.0 _ stored.sound
                stored.there)
              (λ a continues. record {
                divides =
                    Divides-after key e.held r _ a
                      (record { sound = stored.sound; limits = stored.limits }) continues.divides;
                order = continues.order;
              }))
