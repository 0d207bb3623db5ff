-- ===== src/TcpReassembly/Packets.antt =====
-- src/tcp_reassembly.cpp: a packet of a stream (skipSegment, segment, apply) leaves the state well
-- formed, and what a segment that comes next completes.
use log_squirl_tcpdump.Common.{
  ℕ, ◌+◌, ◌-◌, ◌*◌, ◌^◌, ◌%◌, ◌≤◌, ◌<◌, List, [], ◌++◌, Option, none, some, Bool, false, not, ◌==◌,
  if◌then◌else◌, ◌≡◌, refl, sym, subst, ◌∙◌, ap, inl, inr, Bool-cases, if_both, length, drop, All,
  arith,
}
use log_squirl_tcpdump.Common.Int.{is_pos}
use log_squirl_tcpdump.ByteStreamOrderer.{
  seq_after, place, Fit, next, early, taken, advance, early_bytes, bytes_of,
}
use log_squirl_tcpdump.ByteStreamOrderer.Positions.{Agrees, Follows}
use log_squirl_tcpdump.TcpReassembly.{Run, gives, Entry, TcpReassembly, find_entry, release}
use log_squirl_tcpdump.TcpReassembly.Messages.{DescribedPacket, Describer}
use log_squirl_tcpdump.TcpReassembly.Walks.{Frames}
use log_squirl_tcpdump.TcpReassembly.Sound.{
  is_found, IsSound, Gives, given, Gives-bind, Gives-test, Gives-map, Gives-option,
}
use log_squirl_tcpdump.TcpReassembly.Memory.{release-IsWithout}
use log_squirl_tcpdump.TcpReassembly.Holding.{Holds}
use log_squirl_tcpdump.TcpReassembly.Early.{
  IsAppended, append-IsAppended, hold_early_segment-Holds, IsExtended, append_early-IsExtended,
}
use log_squirl_tcpdump.TcpReassembly.Takes.{Takes}
use log_squirl_tcpdump.TcpReassembly.Insert.{
  Keeps, Keeps-refl, Keeps-trans, release-Keeps, use_entry-Keeps,
}
use log_squirl_tcpdump.TcpReassembly.Start.{
  Divides, Divides-none, Divides-after, start_message-Divides, begin_message-Divides,
}
use log_squirl_tcpdump.TcpReassembly.Continue.{continue_message-Continues}
use log_squirl_tcpdump.TcpReassembly.Begin.{
  Applied, left, entry_key, use_entry, payload_end, begin_message,
}
use log_squirl_tcpdump.TcpReassembly.Segments.{
  SkipResult, taken_in, past_message, whole_payload, skip_segment, next_segment,
  place_segment_in_order, fresh_segment, skipping_segment, holding_segment, segment,
}

Gives-fit {ℓ} :
    {A : Type ℓ} (P : A → Type 0) (fit : Fit) (x y z : Run A)
    → Gives P x
    → Gives P y
    → Gives P z
    → Gives P (elim fit [ next ↦ x | early ↦ y | taken ↦ z ])
Gives-fit P next x y z h k l = h
Gives-fit P early x y z h k l = k
Gives-fit P taken x y z h k l = l

-- The bytes that a direction held, those of a segment and the early ones that come next are divided
-- into the messages completed and what is held then.
record IsDivided (key : ℕ) (e : Entry) (bytes : List ℕ) (r : TcpReassembly) (a : Applied)
    : Type 0 where
  pub more : List ℕ
  pub divides : Divides key ((e.held ++ bytes) ++ more) r a
  pub takes :
      (S : ℕ → ℕ) (p : ℕ)
      → Follows S p (advance e.order (length bytes))
      → early_bytes e.order ≤ 2 ^ 31
      → Agrees S p more
        × ((f : Entry)
            → find_entry key a.after.entries ≡ some f
            → f.skipping ≡ false
            → Takes S p (advance e.order (length bytes)) more f.order)

-- The same of a stream that the direction follows up to `p`, the segment's bytes taken: the early
-- bytes are the stream's at `p`; and where the direction then holds bytes and skips nothing, the
-- early segments that it held have each of their bytes from `p` on among these, or are held, and
-- none that is held comes next.
pub record DividesNext (S : ℕ → ℕ) (p key : ℕ) (e : Entry) (bytes : List ℕ) (r : TcpReassembly)
    (a : Applied) : Type 0 where
  pub more : List ℕ
  pub divides : Divides key ((e.held ++ bytes) ++ more) r a
  pub agrees : Agrees S p more
  pub takes :
      (f : Entry)
      → find_entry key a.after.entries ≡ some f
      → f.skipping ≡ false
      → Takes S p (advance e.order (length bytes)) more f.order

-- The segment is taken in, or the direction holds nothing.
Kept : ℕ → TcpReassembly → SkipResult → Type 0
Kept key r (taken_in a) = Keeps r a.after
Kept key r (past_message r') = Keeps r r' × (find_entry key r'.entries ≡ none)

unheld :
    (bit : Bool) (o : Option Entry) → bit ≡ is_found o → (if bit then o else none) ≡ none → o ≡ none
unfolding is_found
unheld bit none h k = refl
unheld bit (some e) h k = ground arith

held_entry :
    (bit : Bool) (o : Option Entry) (e : Entry) → (if bit then o else none) ≡ some e → o ≡ some e
held_entry bit o e h = ground arith

module _ (d : Describer) (framing : All Frames d.framers) where
  module _ (id state direction : ℕ) (same : id ≡ state) (side : direction < 2) where
    -- Nothing is held, and nothing completed.
    IsDivided-released :
        (e : Entry) (bytes : List ℕ) (pkt : DescribedPacket) (r r' : TcpReassembly)
        → Keeps r r'
        → IsDivided
            (entry_key id direction)
            e
            bytes
            r
            (left pkt (release (entry_key id direction) r'))
    IsDivided-released e bytes pkt r r' keeps =
        let key = entry_key id direction in
        let without = release-IsWithout key r' keeps.sound in
        record {
          more = [];
          divides =
              Divides-none key ((e.held ++ bytes) ++ []) r _ pkt
                (Keeps-trans r r' _ keeps
                  (record { sound = without.sound; limits = without.limits }))
                (λ f there. let gone = without.gone in absurd cc);
          takes = λ S p follows few. (tt, λ f there holding. let gone = without.gone in absurd cc);
        }

    next_segment-IsDivided :
        (pkt : DescribedPacket) (e : Entry) (bytes : List ℕ) (r : TcpReassembly)
        → IsSound r
        → find_entry (entry_key id direction) r.entries ≡ some e
        → Gives
            (IsDivided (entry_key id direction) e bytes r)
            (next_segment d id state direction pkt e bytes r)
    unfolding next_segment
    next_segment-IsDivided pkt e bytes r s h =
        let key = entry_key id direction in
        Gives-bind (IsAppended key bytes e r) _ _ _ (append-IsAppended key e bytes r s h)
          (λ p appended.
            let first : Keeps r p.1 = record {
              sound = appended.holds.sound;
              limits = appended.holds.limits;
            } in
            elim (Bool-cases p.0) [
              | inr failed ↦ rw failed (given (IsDivided-released e bytes _ r p.1 first))
              | inl ok ↦
                  let now : p.2.held ≡ e.held ++ bytes =
                    appended.held ∙ ap (λ c. if c then e.held ++ bytes else e.held) ok in
                  rw ok (
                    Gives-bind (IsExtended key p.2 p.1) _ _ _
                      (append_early-IsExtended key p.2 p.1 first.sound appended.holds.there)
                      (λ q extended.
                        let then_on : Keeps r q.1 = Keeps-trans r p.1 q.1 first (record {
                          sound = extended.holds.sound;
                          limits = extended.holds.limits;
                        }) in
                        let more = extended.held.0 in
                        let bytes_now : q.2.held ≡ (e.held ++ bytes) ++ more =
                          extended.held.1 ∙ ap (λ xs. xs ++ more) now in
                        Gives-test _ q.0 _ _
                          (λ all.
                            Gives-map _ _ _
                              (continue_message-Continues d framing id state direction same side pkt
                                q.2 q.1 then_on.sound extended.holds.there)
                              (λ a continues. record {
                                more = more;
                                divides =
                                    subst (λ xs. Divides key xs r a) bytes_now
                                      (Divides-after key q.2.held r q.1 a then_on
                                        continues.divides);
                                takes = λ S at follows few.
                                    let takes : Takes S at (advance e.order (length bytes)) more
                                        q.2.order =
                                      subst (λ o. Takes S at o more q.2.order) (appended.order ok)
                                        (extended.takes all S at
                                          (subst (Follows S at) (sym (appended.order ok)) follows)
                                          (subst (λ es. bytes_of es ≤ 2 ^ 31) (sym appended.early)
                                            (unfold early_bytes in few))) in
                                    (
                                      takes.agrees,
                                      λ f there holding.
                                          subst (Takes S at (advance e.order (length bytes)) more)
                                            (sym (continues.order f there holding)) takes,
                                    );
                              }))
                          (λ limited. given (IsDivided-released e bytes _ r q.1 then_on))))
            ])

    -- Each framer's message takes some bytes. The state is well formed, with an entry whose early
    -- segments are pieces of a stream that it follows up to position `p` once a segment's bytes
    -- are taken, of 2 ^ 31 bytes together at most. That segment's bytes come next: the handler
    -- gives a result, and there are bytes of the stream at `p`, or none, such that the messages
    -- completed are the first of the held bytes, the segment's and these, in order. Where the
    -- direction then holds bytes and skips nothing, they are all the others, none lost, repeated
    -- or moved; each byte from `p` on that an early segment had is one of these or in a segment
    -- held still; and no segment that is held comes next.
    pub next_segment-DividesNext :
        (S : ℕ → ℕ) (p : ℕ) (pkt : DescribedPacket) (e : Entry) (bytes : List ℕ) (r : TcpReassembly)
        → IsSound r
        → find_entry (entry_key id direction) r.entries ≡ some e
        → Follows S p (advance e.order (length bytes))
        → early_bytes e.order ≤ 2 ^ 31
        → Gives
            (DividesNext S p (entry_key id direction) e bytes r)
            (next_segment d id state direction pkt e bytes r)
    next_segment-DividesNext S p pkt e bytes r s h follows few =
        Gives-map _ _ _ (next_segment-IsDivided pkt e bytes r s h) (λ a divided.
          let (agrees, takes) = divided.takes S p follows few in
          record { more = divided.more; divides = divided.divides; agrees = agrees; takes = takes })

    begin_released :
        (pkt : DescribedPacket) (bytes : List ℕ) (r : TcpReassembly)
        → IsSound r
        → Gives
            (λ a. Keeps r a.after)
            (begin_message d id state direction pkt bytes (release (entry_key id direction) r))
    begin_released pkt bytes r s =
        let key = entry_key id direction in
        let without = release-IsWithout key r s in
        Gives-map _ _ _
          (begin_message-Divides d framing id state direction same side pkt bytes _ without.sound
            without.gone)
          (λ a divides. Keeps-trans r _ a.after (release-Keeps key r s) divides.keeps)

    place_segment_in_order-Keeps :
        (pkt : DescribedPacket) (e : Entry) (bytes : List ℕ) (r : TcpReassembly)
        → IsSound r
        → find_entry (entry_key id direction) r.entries ≡ some e
        → Gives (λ a. Keeps r a.after) (place_segment_in_order d id state direction pkt e bytes r)
    unfolding place_segment_in_order
    place_segment_in_order-Keeps pkt e bytes r s h =
        let key = entry_key id direction in
        let used = use_entry-Keeps key e r s h in
        let r1 = use_entry key r in
        Gives-fit _ (place e.order pkt.packet.tcp_seq (length bytes)).fit _ _ _
          (Gives-map _ _ _ (next_segment-IsDivided pkt e _ r1 used.sound h)
            (λ a h. Keeps-trans r r1 a.after used h.divides.keeps))
          (Gives-bind (λ q. Holds key r1 q.1 q.2) _ _ _
            (hold_early_segment-Holds key e pkt.packet.tcp_seq bytes r1 used.sound h)
            (λ q holds.
              let then_on : Keeps r q.1 =
                Keeps-trans r r1 q.1 used (record { sound = holds.sound; limits = holds.limits }) in
              Gives-test _ q.0 _ _ (λ held. given then_on)
                (λ gap.
                  Gives-map _ _ _ (begin_released pkt bytes q.1 then_on.sound)
                    (λ a keeps. Keeps-trans r q.1 a.after then_on keeps))))
          (given used)

    fresh_segment-Keeps :
        (pkt : DescribedPacket) (payload : Option (List ℕ)) (r : TcpReassembly)
        → IsSound r
        → find_entry (entry_key id direction) r.entries ≡ none
        → Gives (λ a. Keeps r a.after) (fresh_segment d id state direction pkt payload r)
    unfolding fresh_segment
    fresh_segment-Keeps pkt payload r s absent =
        Gives-option _ (whole_payload pkt.packet payload) _ _ (λ cut. given (Keeps-refl r s))
          (λ bytes whole.
            Gives-map _ _ _
              (begin_message-Divides d framing id state direction same side pkt bytes r s absent)
              (λ a divides. divides.keeps))

    skip_segment-Kept :
        (pkt : DescribedPacket) (payload : Option (List ℕ)) (e : Entry) (r : TcpReassembly)
        → IsSound r
        → find_entry (entry_key id direction) r.entries ≡ some e
        → Gives
            (Kept (entry_key id direction) r)
            (skip_segment d id state direction pkt payload e r)
    unfolding skip_segment Kept
    skip_segment-Kept pkt payload e r s h =
        let key = entry_key id direction in
        let used = use_entry-Keeps key e r s h in
        let r1 = use_entry key r in
        let without = release-IsWithout key r1 used.sound in
        let over : Keeps r (release key r1) =
          Keeps-trans r r1 _ used (record { sound = without.sound; limits = without.limits }) in
        let last = payload_end pkt.packet in
        Gives-test (Kept key r) (is_pos (seq_after e.skip_from pkt.packet.tcp_seq)) _ _
          (λ before. given used)
          (λ in_or_after.
            Gives-test (Kept key r) (not (is_pos (seq_after last e.skip_end))) _ _
              (λ inside. given (if_both (λ x. Keeps r x) (last == e.skip_end) over used))
              (λ past_it.
                Gives-test (Kept key r) (not (is_pos (seq_after e.skip_end pkt.packet.tcp_seq))) _ _
                  (λ after. given (over, without.gone))
                  (λ across.
                    Gives-option (Kept key r) (whole_payload pkt.packet payload) _ _
                      (λ cut. given over)
                      (λ bytes whole.
                        let offset = (e.skip_end + 2 ^ 32 - pkt.packet.tcp_seq) % 2 ^ 32 in
                        Gives-bind (Divides key (drop offset bytes) (release key r1)) _ _ _
                          (start_message-Divides d framing id state direction same side
                            (some e.label) pkt (drop offset bytes) (release key r1) without.sound
                            without.gone)
                          (λ a divides. given (Keeps-trans r _ a.after over divides.keeps))))))

    after_skip-Keeps :
        (pkt : DescribedPacket) (payload : Option (List ℕ)) (r : TcpReassembly) (s : SkipResult)
        → Kept (entry_key id direction) r s
        → Gives
            (λ a. Keeps r a.after)
            (elim s [
              | taken_in a ↦ gives a
              | past_message r' ↦ fresh_segment d id state direction pkt payload r'
            ])
    unfolding Kept
    after_skip-Keeps pkt payload r (taken_in a) h = given h
    after_skip-Keeps pkt payload r (past_message r') h =
        Gives-map _ _ _ (fresh_segment-Keeps pkt payload r' h.0.sound h.1)
          (λ a keeps. Keeps-trans r r' a.after h.0 keeps)

    -- The whole handler of a segment.
    pub segment-Keeps :
        (pkt : DescribedPacket) (payload : Option (List ℕ)) (r : TcpReassembly)
        → IsSound r
        → Gives (λ a. Keeps r a.after) (segment d id state direction pkt payload r)
    unfolding segment skipping_segment holding_segment is_found
    segment-Keeps pkt payload r s =
        let key = entry_key id direction in
        let bit = (r.states state).held_bit direction in
        let told : bit ≡ is_found (find_entry key r.entries) =
          s.bits state direction side
          ∙ ap (λ k. is_found (find_entry (2 * k + direction) r.entries)) (sym same) in
        Gives-option _ (if bit then find_entry key r.entries else none) _ _
          (λ nothing. fresh_segment-Keeps pkt payload r s (unheld bit _ told nothing))
          (λ e there.
            let at = held_entry bit _ e there in
            Gives-test _ e.skipping _ _
              (λ skipping.
                Gives-bind (Kept key r) _ _ _ (skip_segment-Kept pkt payload e r s at)
                  (λ result kept. after_skip-Keeps pkt payload r result kept))
              (λ holding.
                Gives-option _ (whole_payload pkt.packet payload) _ _
                  (λ cut. given (release-Keeps key r s))
                  (λ bytes whole. place_segment_in_order-Keeps pkt e bytes r s at)))
