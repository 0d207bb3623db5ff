-- ===== src/PcapngReader/Interfaces.antt =====
-- src/pcapng_reader.cpp: the sections and interfaces that a reader declares (readSectionHeader,
-- readInterface).
use log_squirl_tcpdump.Common.{
  ℕ, zero, suc, ◌+◌, ◌-◌, ◌*◌, ◌/◌, ◌≤◌, ◌<◌, List, ◌&&◌, ltb, leb, ◌==◌, ◌≡◌, refl, sym, ◌∙◌, ap,
  subst, ltb→le, leb→le, leb→lt, length, length-append, All, All-append, arith,
}
use log_squirl_tcpdump.PcapngReader.{
  in_interface, option_beyond, unit_too_fine, too_many_interfaces, in_section_header,
  unsupported_version, TimeUnit, Interface, BlockHeader, PcapngReader, skip_bytes, read16,
  minimum_length, max_interfaces, more_consumed, read_section_header, section_header_block,
  interface_block,
}
use log_squirl_tcpdump.PcapngReader.Blocks.{
  default_unit, read_option, option_loop, finest, add_interface, declare_interface, read_interface,
  read_other,
}
use log_squirl_tcpdump.PcapngReader.Reads.{
  status, Moved, Moved-trans, Reads, reads, Reads-fail, Reads-bind, Reads-map, Reads-test,
  Reads-branch, exactly-Reads, skip_bytes-Moved, IsHeader, IsPast, finish_block-IsPast,
}

-- A part of a block's body was read.
record IsInside (n : ℕ) (block : BlockHeader) (r : PcapngReader) (p : TimeUnit × BlockHeader)
    (r' : PcapngReader) : Type 0 where
  pub same : (p.1.start ≡ block.start) × (p.1.block_length ≡ block.block_length)
  pub consumed : p.1.consumed ≡ block.consumed + n
  pub moved : Moved n r r'

read_option-IsInside :
    (code n : ℕ) (unit : TimeUnit) (block : BlockHeader) (r : PcapngReader)
    → Reads (IsInside n block r) (read_option code n unit block r)
unfolding read_option
read_option-IsInside code n unit block r =
    Reads-test _ ((code == 9) && ltb 0 n) _ _
      (λ resolution.
        Reads-bind (λ bytes r'. (length bytes ≡ 1) × Moved 1 r r') _ _ _
          (exactly-Reads 1 in_interface r)
          (λ value r1 h.
            Reads-test _ (skip_bytes (n - 1) r1).0 _ _
              (λ skipped.
                let some_value : 1 + (n - 1) ≡ n = ground arith in
                reads (record {
                  same = (refl, refl);
                  consumed = refl;
                  moved =
                      subst (λ m. Moved m r (skip_bytes (n - 1) r1).1) some_value
                        (Moved-trans 1 (n - 1) r r1 _ h.1 (skip_bytes-Moved (n - 1) r1 skipped));
                }))
              (λ cut. Reads-fail _ in_interface (skip_bytes (n - 1) r1).1)))
      (λ other.
        Reads-test _ (skip_bytes n r).0 _ _
          (λ skipped.
            reads (record {
              same = (refl, refl);
              consumed = refl;
              moved = skip_bytes-Moved n r skipped;
            }))
          (λ cut. Reads-fail _ in_interface (skip_bytes n r).1))

-- The options lie in the block.
record IsBehind (block : BlockHeader) (r : PcapngReader) (p : TimeUnit × BlockHeader)
    (r' : PcapngReader) : Type 0 where
  pub n : ℕ
  pub inside : IsInside n block r p r'
  pub room : p.1.consumed + 4 ≤ block.block_length

option_loop-IsBehind :
    (fuel : ℕ) (unit : TimeUnit) (block : BlockHeader) (r : PcapngReader)
    → block.consumed + 4 ≤ block.block_length
    → block.block_length < block.consumed + fuel
    → Reads (IsBehind block r) (option_loop fuel unit block r)
unfolding option_loop
option_loop-IsBehind zero unit block r room enough = absurd (omega (arith, room, enough))
option_loop-IsBehind (suc fuel) unit block r room enough =
    Reads-branch _ (leb (block.consumed + 4) (block.block_length - 4)) _ _
      (λ more.
        let left = leb→le _ _ more in
        Reads-bind (λ bytes r'. (length bytes ≡ 4) × Moved 4 r r') _ _ _
          (exactly-Reads 4 in_interface r)
          (λ option r' h.
            let code = read16 r'.swap 0 option in
            let n = (read16 r'.swap 2 option + 3) / 4 * 4 in
            let at_value = more_consumed block 4 in
            Reads-branch _ (code == 0) _ _
              (λ ended. reads (record {
                n = 4;
                inside = record { same = (refl, refl); consumed = refl; moved = h.1 };
                room = omega (arith, left);
              }))
              (λ goes_on.
                Reads-branch _ (ltb (block.block_length - 4 - at_value.consumed) n) _ _
                  (λ beyond. Reads-fail _ option_beyond r')
                  (λ fits.
                    let short = ltb→le _ _ fits in
                    Reads-bind (IsInside n at_value r') _ _ _
                      (read_option-IsInside code n unit at_value r')
                      (λ p r'' inside.
                        let same = inside.same.1 in
                        let consumed = inside.consumed in
                        Reads-map _ _ _
                          (option_loop-IsBehind fuel p.0 p.1 r''
                            (omega (arith, same, consumed, short, left))
                            (omega (arith, same, consumed, enough)))
                          (λ q r3 behind.
                            let consumed_later = behind.inside.consumed in
                            let room_later = behind.room in
                            record {
                              n = 4 + n + behind.n;
                              inside = record {
                                same = (
                                  behind.inside.same.0 ∙ inside.same.0,
                                  behind.inside.same.1 ∙ inside.same.1,
                                );
                                consumed = omega (arith, consumed, consumed_later);
                                moved =
                                    Moved-trans (4 + n) behind.n r r'' r3
                                      (Moved-trans 4 n r r' r'' h.1 inside.moved)
                                      behind.inside.moved;
                              };
                              room = omega (arith, room_later, same);
                            }))))))
      (λ over. reads (record {
        n = 0;
        inside = record {
          same = (refl, refl);
          consumed = omega arith;
          moved = record { place = omega arith; total = refl; declared = refl; waiting = refl };
        };
        room = room;
      }))

-- The interfaces are few, and the timestamps of each are counted in 64 bits.
pub record AreFine (interfaces : List Interface) : Type 0 where
  pub few : length interfaces ≤ max_interfaces
  pub units : All (λ i. i.unit.exponent ≤ finest i.unit) interfaces

-- A block without a packet was read.
pub record IsRead (block : BlockHeader) (r r' : PcapngReader) : Type 0 where
  pub past : IsPast block r r'
  pub fine : AreFine r'.interfaces

pub IsPast-after :
    (block b : BlockHeader) (r r1 r2 : PcapngReader)
    → (b.start ≡ block.start) × (b.block_length ≡ block.block_length)
    → r1.bytes_read + length r1.source ≡ r.bytes_read + length r.source
    → status r1 ≡ status r
    → IsPast b r1 r2
    → IsPast block r r2
IsPast-after block b r r1 r2 same total waiting past =
    let place = past.place in
    let start = same.0 in
    let size = same.1 in
    record {
      place = omega (arith, place, start, size);
      total = past.total ∙ total;
      waiting = past.waiting ∙ waiting;
    }

pub read_section_header-IsRead :
    (block : BlockHeader) (r : PcapngReader)
    → r.bytes_read ≡ block.start + block.consumed
    → block.consumed + 16 ≤ block.block_length
    → Reads (λ b r'. IsRead block r r') (read_section_header block r)
unfolding read_section_header
read_section_header-IsRead block r at room =
    Reads-bind (λ bytes r'. (length bytes ≡ 12) × Moved 12 r r') _ _ _
      (exactly-Reads 12 in_section_header r)
      (λ fields r' h.
        Reads-test _ (read16 r'.swap 0 fields == 1) _ _
          (λ first.
            let place = h.1.place in
            Reads-map _ _ _
              (finish_block-IsPast (more_consumed block 12) _ (omega (arith, at, place))
                (omega (arith, room)))
              (λ b r'' done. record {
                past =
                    IsPast-after block (more_consumed block 12) r _ r'' (refl, refl) h.1.total
                      h.1.waiting done.0;
                fine = subst AreFine (sym done.1) (record { few = omega arith; units = tt });
              }))
          (λ other. Reads-fail _ (unsupported_version _ _) r'))

declare_interface-IsRead :
    (fields : List ℕ) (unit : TimeUnit) (block : BlockHeader) (r : PcapngReader)
    → AreFine r.interfaces
    → length r.interfaces < max_interfaces
    → r.bytes_read ≡ block.start + block.consumed
    → block.consumed + 4 ≤ block.block_length
    → Reads (λ b r'. IsRead block r r') (declare_interface fields unit block r)
unfolding declare_interface add_interface
declare_interface-IsRead fields unit block r fine few at room =
    Reads-test _ (ltb (finest unit) unit.exponent) _ _ (λ too_fine. Reads-fail _ unit_too_fine r)
      (λ counted.
        Reads-bind (λ b r'. IsPast block r r' × (r'.interfaces ≡ r.interfaces)) _ _ _
          (finish_block-IsPast block r at room)
          (λ b r' done.
            let fine' : AreFine r'.interfaces = subst AreFine (sym done.1) fine in
            let exponent = ltb→le (finest unit) unit.exponent counted in
            let count = ap (λ (xs : List Interface). length xs) done.1 in
            reads (record {
              past = record {
                place = done.0.place;
                total = done.0.total;
                waiting = done.0.waiting;
              };
              fine = record {
                few = omega (arith, length-append r'.interfaces _, few, count);
                units = All-append _ r'.interfaces _ fine'.units (exponent, tt);
              };
            })))

read_interface-IsRead :
    (block : BlockHeader) (r : PcapngReader)
    → AreFine r.interfaces
    → r.bytes_read ≡ block.start + block.consumed
    → block.consumed + 12 ≤ block.block_length
    → Reads (λ b r'. IsRead block r r') (read_interface block r)
unfolding read_interface
read_interface-IsRead block r fine at room =
    Reads-test _ (leb max_interfaces (length r.interfaces)) _ _
      (λ many. Reads-fail _ too_many_interfaces r)
      (λ few.
        Reads-bind (λ bytes r'. (length bytes ≡ 8) × Moved 8 r r') _ _ _
          (exactly-Reads 8 in_interface r)
          (λ fields r' h.
            Reads-bind (IsBehind (more_consumed block 8) r') _ _ _
              (option_loop-IsBehind block.block_length default_unit (more_consumed block 8) r'
                (omega (arith, room)) (omega (arith, room)))
              (λ p r'' behind.
                let inside = behind.inside in
                let both = Moved-trans 8 behind.n r r' r'' h.1 inside.moved in
                let place = both.place in
                let consumed = inside.consumed in
                let start = inside.same.0 in
                let size = inside.same.1 in
                let room_left = behind.room in
                let below = leb→lt max_interfaces (length r.interfaces) few in
                let count = ap (λ (xs : List Interface). length xs) both.declared in
                Reads-map _ _ _
                  (declare_interface-IsRead fields p.0 p.1 r''
                    (subst AreFine (sym both.declared) fine) (omega (arith, below, count))
                    (omega (arith, at, place, consumed, start)) (omega (arith, room_left, size)))
                  (λ b r3 done. record {
                    past =
                        IsPast-after block p.1 r r'' r3 inside.same both.total both.waiting
                          done.past;
                    fine = done.fine;
                  }))))

-- A block without a packet, whose header was read, is read to its end exactly, whatever options
-- it has, or the reader stops with a problem or a source used up; the interfaces declared then
-- are at most kMaxInterfaces, each with a time unit that 64 bits count.
pub read_other-IsRead :
    (block : BlockHeader) (r0 r : PcapngReader)
    → IsHeader r0 block r
    → AreFine r.interfaces
    → Reads (λ b r'. IsRead block r r') (read_other block r)
unfolding read_other minimum_length
read_other-IsRead block r0 r header fine =
    let place = header.moved.place in
    let begins = header.begins in
    let at : r.bytes_read ≡ block.start + block.consumed = omega (arith, place, begins) in
    let long_enough = header.long_enough in
    let by_type = header.by_type in
    Reads-test _ (block.block_type == section_header_block) _ _
      (λ section. read_section_header-IsRead block r at (ground arith))
      (λ no_section.
        Reads-test _ (block.block_type == interface_block) _ _
          (λ interface_type. read_interface-IsRead block r fine at (ground arith))
          (λ other.
            Reads-map _ _ _ (finish_block-IsPast block r at (ground arith))
              (λ b r' done. record { past = done.0; fine = subst AreFine (sym done.1) fine })))
