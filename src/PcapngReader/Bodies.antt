-- ===== src/PcapngReader/Bodies.antt =====
-- src/pcapng_reader.cpp: the packet that a block holds (readPacket).
use log_squirl_tcpdump.Common.{
  ℕ, zero, suc, ◌+◌, ◌-◌, ◌^◌, ◌≤◌, ◌<◌, min, List, [], ◌∷◌, Option, none, some, true, not, ltb,
  ◌==◌, ◌≡◌, refl, sym, ◌∙◌, if_both, subst, ltb→le, length, All, get_elem?, some_injective, arith,
}
use log_squirl_tcpdump.PcapngReader.{
  in_packet, undeclared_interface, packet_too_long, Interface, BlockHeader, PcapngReader, BlockRead,
  skip_bytes, read32, minimum_length, more_consumed, is_packet_block, enhanced_packet_block,
}
use log_squirl_tcpdump.PcapngReader.Blocks.{
  finest, max_dissected_bytes, CapturedPacket, read_body, read_enhanced, simple_length, read_simple,
  read_packet_block,
}
use log_squirl_tcpdump.PcapngReader.Reads.{
  Moved, Moved-trans, Reads, reads, Reads-fail, Reads-bind, Reads-map, Reads-test, exactly-Reads,
  skip_bytes-Moved, IsPast, finish_block-IsPast,
}
use log_squirl_tcpdump.PcapngReader.Interfaces.{AreFine, IsPast-after}
use log_squirl_tcpdump.PcapngReader.Times.{fraction_ns-IsRounded}

-- A packet was read from its block: its bytes lie in the block, and the time is one of its second.
pub record IsPacket (block : BlockHeader) (r : PcapngReader) (p : CapturedPacket)
    (r' : PcapngReader) : Type 0 where
  pub past : IsPast block r r'
  pub declared : r'.interfaces ≡ r.interfaces
  pub kept : length p.bytes ≡ min p.captured_len max_dissected_bytes
  pub inside : p.captured_len + 16 ≤ block.block_length
  pub nanoseconds : p.timestamp_nsec < 10 ^ 9
  pub seconds : p.timestamp_sec < 2 ^ 63
  pub recorded : r'.last_record ≡ record { offset = block.start; span = block.block_length }

read_body-IsPacket :
    (iface : Interface) (timestamp captured original : ℕ) (block : BlockHeader) (r : PcapngReader)
    → iface.unit.exponent ≤ finest iface.unit
    → r.bytes_read ≡ block.start + block.consumed
    → block.consumed + captured + 4 ≤ block.block_length
    → 12 ≤ block.consumed
    → Reads (IsPacket block r) (read_body iface timestamp captured original block r)
unfolding read_body
read_body-IsPacket iface timestamp captured original block r fine at room consumed =
    let kept = min captured max_dissected_bytes in
    Reads-bind (λ bytes r'. (length bytes ≡ kept) × Moved kept r r') _ _ _
      (exactly-Reads kept in_packet r)
      (λ bytes r1 h.
        let r2 = (skip_bytes (captured - kept) r1).1 in
        Reads-test _ (not (skip_bytes (captured - kept) r1).0) _ _
          (λ cut. Reads-fail _ in_packet r2)
          (λ skipped.
            let rest = skip_bytes-Moved (captured - kept) r1 (ground arith) in
            let both = Moved-trans kept (captured - kept) r r1 r2 h.1 rest in
            let place = both.place in
            Reads-bind
              (λ b r'.
                IsPast (more_consumed block captured) r2 r' × (r'.interfaces ≡ r2.interfaces))
              _ _ _
              (finish_block-IsPast (more_consumed block captured) r2 (omega (arith, at, place))
                (omega (arith, room)))
              (λ b r3 done.
                let past =
                  IsPast-after block (more_consumed block captured) r r2 r3 (refl, refl) both.total
                    both.waiting done.0 in
                reads (record {
                  past = record { place = past.place; total = past.total; waiting = past.waiting };
                  declared = done.1 ∙ both.declared;
                  kept = h.0;
                  inside = omega (arith, room, consumed);
                  nanoseconds = (fraction_ns-IsRounded iface.unit timestamp fine).below;
                  seconds = omega arith;
                  recorded = refl;
                }))))

All-get_elem? :
    (P : Interface → Type 0) (xs : List Interface) (i : ℕ) (x : Interface)
    → All P xs
    → get_elem? xs i ≡ some x
    → P x
All-get_elem? P [] i x h e = absurd cc
All-get_elem? P (y ∷ ys) zero x h e = subst P (some_injective e) h.0
All-get_elem? P (y ∷ ys) (suc i) x h e = All-get_elem? P ys i x h.1 e

Reads-option {ℓ κ} :
    {A : Type ℓ} {B : Type κ} (P : A → PcapngReader → Type 0) (o : Option B) (x : BlockRead A)
    (f : B → BlockRead A)
    → (o ≡ none → Reads P x)
    → ((b : B) → o ≡ some b → Reads P (f b))
    → Reads P (elim o [ none ↦ x | some b ↦ f b ])
Reads-option P none x f h k = h refl
Reads-option P (some b) x f h k = k b refl

IsPacket-after :
    (block : BlockHeader) (n : ℕ) (r r1 r2 : PcapngReader) (p : CapturedPacket)
    → Moved n r r1
    → IsPacket (more_consumed block n) r1 p r2
    → IsPacket block r p r2
IsPacket-after block n r r1 r2 p moved h = record {
  past =
      IsPast-after block (more_consumed block n) r r1 r2 (refl, refl) moved.total moved.waiting
        h.past;
  declared = h.declared ∙ moved.declared;
  kept = h.kept;
  inside = h.inside;
  nanoseconds = h.nanoseconds;
  seconds = h.seconds;
  recorded = h.recorded;
}

read_enhanced-IsPacket :
    (block : BlockHeader) (r : PcapngReader)
    → AreFine r.interfaces
    → r.bytes_read ≡ block.start + block.consumed
    → block.consumed ≡ 8
    → 32 ≤ block.block_length
    → Reads (IsPacket block r) (read_enhanced block r)
unfolding read_enhanced
read_enhanced-IsPacket block r fine at consumed room =
    Reads-bind (λ bytes r'. (length bytes ≡ 20) × Moved 20 r r') _ _ _
      (exactly-Reads 20 in_packet r)
      (λ fields r' h.
        let place = h.1.place in
        Reads-option _ (get_elem? r'.interfaces (read32 r'.swap 0 fields)) _ _
          (λ undeclared. Reads-fail _ undeclared_interface r')
          (λ iface found.
            Reads-test _ (ltb (block.block_length - 32) (read32 r'.swap 12 fields)) _ _
              (λ long. Reads-fail _ packet_too_long r')
              (λ fits.
                let short = ltb→le _ _ fits in
                Reads-map _ _ _
                  (read_body-IsPacket iface _ (read32 r'.swap 12 fields) _ (more_consumed block 20)
                    r'
                    (All-get_elem? _ r'.interfaces _ iface
                      (subst AreFine (sym h.1.declared) fine).units found)
                    (omega (arith, at, place)) (omega (arith, short, consumed, room))
                    (omega (arith, consumed)))
                  (λ p r'' packet. IsPacket-after block 20 r r' r'' p h.1 packet))))

Reads-list {ℓ κ} :
    {A : Type ℓ} {B : Type κ} (P : A → PcapngReader → Type 0) (xs : List B) (x : BlockRead A)
    (f : B → BlockRead A)
    → Reads P x
    → ((b : B) (bs : List B) → xs ≡ b ∷ bs → Reads P (f b))
    → Reads P (elim xs [ [] ↦ x | b ∷ bs ↦ f b ])
Reads-list P [] x f h k = h
Reads-list P (b ∷ bs) x f h k = k b bs refl

read_simple-IsPacket :
    (block : BlockHeader) (r : PcapngReader)
    → AreFine r.interfaces
    → r.bytes_read ≡ block.start + block.consumed
    → block.consumed ≡ 8
    → 16 ≤ block.block_length
    → Reads (IsPacket block r) (read_simple block r)
unfolding read_simple
read_simple-IsPacket block r fine at consumed room =
    Reads-list _ r.interfaces _ _ (Reads-fail _ undeclared_interface r) (λ iface others declared.
      let first : iface.unit.exponent ≤ finest iface.unit = (subst AreFine declared fine).units.0 in
      Reads-bind (λ bytes r'. (length bytes ≡ 4) × Moved 4 r r') _ _ _ (exactly-Reads 4 in_packet r)
        (λ fields r' h.
          let place = h.1.place in
          let captured =
            simple_length (read32 r'.swap 0 fields) (block.block_length - 16) iface.snaplen in
          let short : captured ≤ block.block_length - 16 =
            if_both (λ n. n ≤ block.block_length - 16) (iface.snaplen == 0) (omega arith)
              (omega arith) in
          Reads-map _ _ _
            (read_body-IsPacket iface 0 captured _ (more_consumed block 4) r' first
              (omega (arith, at, place)) (omega (arith, short, consumed, room))
              (omega (arith, consumed)))
            (λ p r'' packet. IsPacket-after block 4 r r' r'' p h.1 packet)))

-- The header of a packet block is read, and the reader behind it.
pub record IsWaiting (block : BlockHeader) (r : PcapngReader) : Type 0 where
  pub place : r.bytes_read ≡ block.start + 8
  pub consumed : block.consumed ≡ 8
  pub packet_block : is_packet_block block.block_type ≡ true
  pub long_enough : minimum_length block.block_type ≤ block.block_length

pub read_packet_block-IsPacket :
    (block : BlockHeader) (r : PcapngReader)
    → AreFine r.interfaces
    → IsWaiting block r
    → Reads (IsPacket block r) (read_packet_block block r)
unfolding read_packet_block minimum_length
read_packet_block-IsPacket block r fine waiting =
    let place = waiting.place in
    let consumed = waiting.consumed in
    let packet_block = waiting.packet_block in
    let long_enough = waiting.long_enough in
    Reads-test _ (block.block_type == enhanced_packet_block) _ _
      (λ enhanced.
        read_enhanced-IsPacket block r fine (omega (arith, place, consumed)) consumed
          (ground arith))
      (λ simple.
        read_simple-IsPacket block r fine (omega (arith, place, consumed)) consumed (ground arith))
