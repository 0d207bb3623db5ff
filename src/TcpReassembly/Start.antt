-- ===== src/TcpReassembly/Start.antt =====
-- src/tcp_reassembly.cpp: the message that a segment begins (startMessage).
use log_squirl_tcpdump.Common.{
  ℕ, ◌+◌, ◌-◌, ◌^◌, ◌%◌, ◌≤◌, ◌<◌, min, max, List, ◌++◌, Option, none, some, true, false, ◌&&◌, ltb,
  ◌==◌, if◌then◌else◌, ◌≡◌, refl, sym, ◌∙◌, ap, ==_iff, ltb→le, length, drop, take-append-drop,
  length-drop, All, some_injective, arith,
}
use log_squirl_tcpdump.Common.Int.{is_pos}
use log_squirl_tcpdump.PacketRecord.{has, tcp_fin, tcp_syn}
use log_squirl_tcpdump.ByteStreamOrderer.{early_bytes, bytes_of, reset, seq_after}
use log_squirl_tcpdump.TcpReassembly.{
  FramerLook, no_look, Entry, TcpReassembly, find_entry, release, early_cost,
}
use log_squirl_tcpdump.TcpReassembly.Messages.{
  DescribedPacket, Describer, MessageExtent, tcp_message_extent, Walk, announced_past,
}
use log_squirl_tcpdump.TcpReassembly.Walks.{Frames, IsWalked, walk_messages-IsWalked}
use log_squirl_tcpdump.TcpReassembly.Sound.{
  IsSound, Gives, given, Gives-bind, Gives-test, Gives-map,
}
use log_squirl_tcpdump.TcpReassembly.Memory.{release-IsWithout, HasRoom, make_room-HasRoom}
use log_squirl_tcpdump.TcpReassembly.Insert.{
  Keeps, Keeps-refl, Keeps-trans, insert_entry-Inserted, Skipped, skip-Skipped,
}
use log_squirl_tcpdump.TcpReassembly.Begin.{
  Applied, left, entry_key, start_past, start_held, start_walked, start_message, begin_message,
}

-- The messages completed are the first of the bytes of a direction in order, and what it holds then
-- is the others.
pub record Divides (key : ℕ) (bytes : List ℕ) (r : TcpReassembly) (a : Applied) : Type 0 where
  pub keeps : Keeps r a.after
  pub prefix : (more : List ℕ) × (a.messages.bytes ++ more ≡ bytes)
  pub rest :
      (e : Entry)
      → find_entry key a.after.entries ≡ some e
      → e.skipping ≡ false
      → a.messages.bytes ++ e.held ≡ bytes

-- Nothing is completed, and nothing is held.
pub Divides-none :
    (key : ℕ) (bytes : List ℕ) (r r' : TcpReassembly) (pkt : DescribedPacket)
    → Keeps r r'
    → ((e : Entry) → find_entry key r'.entries ≡ some e → e.skipping ≡ true)
    → Divides key bytes r (left pkt r')
Divides-none key bytes r r' pkt keeps skips = record {
  keeps = keeps;
  prefix = (bytes, refl);
  rest = λ e there holding. let skipping = skips e there in absurd cc;
}

absent-skips :
    (key : ℕ) (r : TcpReassembly)
    → find_entry key r.entries ≡ none
    → (e : Entry) → find_entry key r.entries ≡ some e
    → e.skipping ≡ true
absent-skips key r absent e there = absurd cc

pub Divides-after :
    (key : ℕ) (bytes : List ℕ) (r r' : TcpReassembly) (a : Applied)
    → Keeps r r'
    → Divides key bytes r' a
    → Divides key bytes r a
Divides-after key bytes r r' a keeps h = record {
  keeps = Keeps-trans r r' a.after keeps h.keeps;
  prefix = h.prefix;
  rest = h.rest;
}

module _ (d : Describer) (framing : All Frames d.framers) where
  module _ (id state direction : ℕ) (same : id ≡ state) (side : direction < 2) where
    start_past-Divides :
        (after : Option (List ℕ)) (pkt : DescribedPacket) (bytes : List ℕ) (first : MessageExtent)
        (walk : Walk) (r : TcpReassembly)
        → IsSound r
        → find_entry (entry_key id direction) r.entries ≡ none
        → Gives
            (Divides (entry_key id direction) bytes r)
            (start_past d id state direction after pkt bytes first walk r)
    unfolding start_past
    start_past-Divides after pkt bytes first walk r s absent =
        let key = entry_key id direction in
        Gives-bind (Skipped key r) _ _ _
          (Gives-test (Skipped key r)
            (announced_past walk.incomplete (length bytes - walk.walk_end) r.stream_limit) _ _
            (λ announced. skip-Skipped id state direction _ _ _ r same side s)
            (λ unknown.
              given (record { keeps = Keeps-refl r s; skips = absent-skips key r absent })))
          (λ r' skipped. given (Divides-none key bytes r r' _ skipped.keeps skipped.skips))

    start_held-Divides :
        (pkt : DescribedPacket) (bytes : List ℕ) (first : MessageExtent) (walk : Walk)
        (look : FramerLook) (room : ℕ) (r : TcpReassembly)
        → IsSound r
        → find_entry (entry_key id direction) r.entries ≡ none
        → length bytes - walk.walk_end ≤ room
        → room ≤ r.stream_limit
        → r.used + (128 + room) ≤ r.memory_limit
        → Gives
            (Divides (entry_key id direction) bytes r)
            (start_held d id state direction pkt bytes first walk look room r)
    unfolding start_held early_bytes bytes_of early_cost reset
    start_held-Divides pkt bytes first walk look room r s absent fits within free =
        let key = entry_key id direction in
        let inserted = insert_entry-Inserted key _ r s (record {
          absent = absent;
          keyed = omega (arith, same);
          side = side;
          fits = omega (arith, fits, length-drop walk.walk_end bytes);
          within = omega (arith, within);
          few = omega arith;
          uncounted = refl;
          room = omega (arith, free);
        }) in
        let parts = take-append-drop walk.walk_end bytes in
        let held : (e : Entry) → find_entry key _ ≡ some e → e.held ≡ drop walk.walk_end bytes =
          λ e there. ap (λ (f : Entry). f.held) (some_injective (sym there ∙ inserted.there)) in
        Gives-test _ (walk.walk_end == 0) _ _
          (λ at_start.
            let zero_end : walk.walk_end ≡ 0 = (==_iff walk.walk_end 0).0 at_start in
            given (record {
              keeps = inserted.keeps;
              prefix = (bytes, refl);
              rest = λ e there holding. held e there ∙ ap (λ n. drop n bytes) zero_end;
            }))
          (λ later. given (record {
            keeps = inserted.keeps;
            prefix = (drop walk.walk_end bytes, parts);
            rest = λ e there holding. rw (held e there) parts;
          }))

    start_walked-Divides :
        (after : Option (List ℕ)) (pkt : DescribedPacket) (bytes : List ℕ) (first : MessageExtent)
        (w : Walk × FramerLook) (r : TcpReassembly)
        → IsSound r
        → find_entry (entry_key id direction) r.entries ≡ none
        → IsWalked bytes w
        → Gives
            (Divides (entry_key id direction) bytes r)
            (start_walked d id state direction after pkt bytes first w.0 w.1 r)
    unfolding start_walked
    start_walked-Divides after pkt bytes first w r s absent walked =
        let key = entry_key id direction in
        let without = release-IsWithout key r s in
        let released : Keeps r (release key r) = record {
          sound = without.sound;
          limits = without.limits;
        } in
        let again = (λ (a : Applied) (h : Divides key bytes (release key r) a).
          Divides-after key bytes r (release key r) a released h) in
        let inside = walked.inside in
        Gives-test _ (w.0.incomplete.framer == 0) _ _
          (λ whole. given (record {
            keeps = Keeps-refl r s;
            prefix = (drop w.0.walk_end bytes, take-append-drop w.0.walk_end bytes);
            rest = λ e there holding. absurd cc;
          }))
          (λ framed.
            Gives-test _ (ltb r.stream_limit w.0.incomplete.extent_length) _ _
              (λ past.
                Gives-map _ _ _
                  (start_past-Divides after pkt bytes first w.0 (release key r) without.sound
                    without.gone)
                  again)
              (λ fits.
                let longer = walked.goes_on framed in
                let limit = ltb→le _ _ fits in
                Gives-bind
                  (HasRoom
                    (128
                      + max (length bytes - w.0.walk_end)
                          (min w.0.incomplete.extent_length r.stream_limit))
                    key (release key r))
                  _ _ _ (make_room-HasRoom _ key (release key r) without.sound)
                  (λ p room.
                    let roomy : Keeps r p.1 =
                      Keeps-trans r (release key r) p.1 released
                        (record { sound = room.sound; limits = room.limits }) in
                    let same_limit = roomy.limits.1 in
                    let absent_still = room.kept ∙ without.gone in
                    let then_on = (λ (a : Applied) (h : Divides key bytes p.1 a).
                      Divides-after key bytes r p.1 a roomy h) in
                    Gives-test _ p.0 _ _
                      (λ free.
                        Gives-map _ _ _
                          (start_held-Divides pkt bytes first w.0 w.1 _ p.1 room.sound absent_still
                            (omega arith) (omega (arith, longer, limit, same_limit))
                            (room.free free))
                          then_on)
                      (λ full.
                        Gives-map _ _ _
                          (start_past-Divides after pkt bytes first w.0 p.1 room.sound absent_still)
                          then_on))))

    -- Each framer's message takes some bytes. From a well-formed state in which the direction has
    -- no entry, startMessage gives a result: the state stays well formed, the messages completed
    -- are the first of the payload's bytes, and where the direction then holds bytes and skips
    -- nothing, they are all the others.
    pub start_message-Divides :
        (after : Option (List ℕ)) (pkt : DescribedPacket) (bytes : List ℕ) (r : TcpReassembly)
        → IsSound r
        → find_entry (entry_key id direction) r.entries ≡ none
        → Gives
            (Divides (entry_key id direction) bytes r)
            (start_message d id state direction after pkt bytes r)
    unfolding start_message
    start_message-Divides after pkt bytes r s absent =
        let key = entry_key id direction in
        let first = (tcp_message_extent d bytes pkt.packet 0 (some (r.states state)) no_look).0 in
        Gives-test _ (first.framer == 0) _ _
          (λ unframed.
            given (Divides-none key bytes r r _ (Keeps-refl r s) (absent-skips key r absent)))
          (λ framed.
            Gives-bind (IsWalked bytes) _ _ _
              (walk_messages-IsWalked d framing pkt.packet bytes _ _ _)
              (λ w walked. start_walked-Divides after pkt bytes first w r s absent walked))

    pub begin_message-Divides :
        (pkt : DescribedPacket) (bytes : List ℕ) (r : TcpReassembly)
        → IsSound r
        → find_entry (entry_key id direction) r.entries ≡ none
        → Gives
            (Divides (entry_key id direction) bytes r)
            (begin_message d id state direction pkt bytes r)
    unfolding begin_message
    begin_message-Divides pkt bytes r s absent =
        let key = entry_key id direction in
        let dir = (r.states state).tcp direction in
        let sent =
          pkt.packet.tcp_seq
          + 2 ^ 32
          - dir.base_seq
          + (if has pkt.packet.tcp_flags tcp_syn then 1 else 0)
          + pkt.packet.payload_len
          + (if has pkt.packet.tcp_flags tcp_fin then 1 else 0) in
        Gives-test _ (dir.base_seq_set && is_pos (seq_after dir.next_seq (sent % 2 ^ 32))) _ _
          (λ before.
            given (Divides-none key bytes r r pkt (Keeps-refl r s) (absent-skips key r absent)))
          (λ fresh. start_message-Divides none pkt bytes r s absent)
