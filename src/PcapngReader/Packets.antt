-- ===== src/PcapngReader/Packets.antt =====
-- src/pcapng_reader.cpp: the next packet of a capture (readBlocksUpToPacket, next).
use log_squirl_tcpdump.Common.{
  ℕ, zero, suc, ◌+◌, ◌^◌, ◌≤◌, ◌<◌, min, Option, none, some, true, false, ◌≡◌, ◌⊎◌, refl, sym, ◌∙◌,
  ap, subst, length, arith,
}
use log_squirl_tcpdump.PcapngReader.{BlockHeader, PcapngReader, minimum_length, is_packet_block}
use log_squirl_tcpdump.PcapngReader.Blocks.{max_dissected_bytes, CapturedPacket, blocks_loop}
use log_squirl_tcpdump.PcapngReader.Reads.{
  Reads, reads, Reads-bind, Reads-map, Reads-branch, IsHeader, read_block_header-IsHeader,
}
use log_squirl_tcpdump.PcapngReader.Interfaces.{AreFine, IsRead, read_other-IsRead}
use log_squirl_tcpdump.PcapngReader.Bodies.{IsWaiting}

pub record IsReader (r : PcapngReader) : Type 0 where
  pub fine : AreFine r.interfaces
  pub waits : (block : BlockHeader) → r.pending ≡ some block → IsWaiting block r

-- The reader is at the next packet block, which it has not read before.
pub record IsNext (r : PcapngReader) (block : BlockHeader) (r' : PcapngReader) : Type 0 where
  pub waiting : IsWaiting block r'
  pub fine : AreFine r'.interfaces
  pub set : r'.pending ≡ some block
  pub later : r.bytes_read ≤ block.start
  pub total : r'.bytes_read + length r'.source ≡ r.bytes_read + length r.source
  pub open_still : r'.is_open ≡ r.is_open

long_block :
    (r : PcapngReader) (block : BlockHeader) (r' : PcapngReader)
    → IsHeader r block r'
    → 12 ≤ block.block_length
unfolding minimum_length
long_block r block r' header = let long_enough = header.long_enough in ground arith

pub blocks_loop-IsNext :
    (fuel : ℕ) (r : PcapngReader)
    → length r.source < fuel
    → AreFine r.interfaces
    → Reads (IsNext r) (blocks_loop fuel r)
unfolding blocks_loop
blocks_loop-IsNext zero r enough fine = absurd (omega (arith, enough))
blocks_loop-IsNext (suc fuel) r enough fine =
    Reads-bind (IsHeader r) _ _ _ (read_block_header-IsHeader r) (λ block r' header.
      let begins = header.begins in
      let place = header.moved.place in
      let total = header.moved.total in
      let by_type = header.by_type in
      let fine' = subst AreFine (sym header.moved.declared) fine in
      Reads-branch _ (is_packet_block block.block_type) _ _
        (λ packet.
          let eight : block.consumed ≡ 8 = ground arith in
          reads (record {
            waiting = record {
              place = omega (arith, begins, place, eight);
              consumed = eight;
              packet_block = packet;
              long_enough = header.long_enough;
            };
            fine = fine';
            set = refl;
            later = omega (arith, begins);
            total = total;
            open_still = ap (λ x. x.1) header.moved.waiting;
          }))
        (λ other.
          Reads-bind (λ b r''. IsRead block r' r'') _ _ _
            (read_other-IsRead block r r' header fine')
            (λ b r'' done.
              let past = done.past.place in
              let all = done.past.total in
              let long = long_block r block r' header in
              let shorter : length r''.source < fuel =
                omega (arith, past, all, long, begins, total, enough) in
              Reads-map _ _ _ (blocks_loop-IsNext fuel r'' shorter done.fine) (λ c r3 next.
                let later = next.later in
                record {
                  waiting = next.waiting;
                  fine = next.fine;
                  set = next.set;
                  later = omega (arith, later, past, begins);
                  total = next.total ∙ all ∙ total;
                  open_still =
                      next.open_still
                      ∙ ap (λ x. x.1) done.past.waiting
                      ∙ ap (λ x. x.1) header.moved.waiting;
                }))))

abbrev place_of : Option BlockHeader → ℕ → ℕ
place_of none n = n
place_of (some block) n = block.start

-- Where the reader's next block begins.
unfoldable pub position : PcapngReader → ℕ
position r = place_of r.pending r.bytes_read

-- A packet comes from a block behind those read before; without one the reader is at its end, broken
-- off or with the source used up.
pub record IsGiven (r : PcapngReader) (p : CapturedPacket) (r' : PcapngReader) : Type 0 where
  pub reader : IsReader r'
  pub later : position r ≤ r'.last_record.offset
  pub behind : r'.bytes_read ≡ r'.last_record.offset + r'.last_record.span
  pub total : r'.bytes_read + length r'.source ≡ r.bytes_read + length r.source
  pub inside : p.captured_len + 16 ≤ r'.last_record.span
  pub kept : length p.bytes ≡ min p.captured_len max_dissected_bytes
  pub time : (p.timestamp_nsec < 10 ^ 9) × (p.timestamp_sec < 2 ^ 63)

abbrev pub NextResult : PcapngReader → Option (Option CapturedPacket × PcapngReader) → Type 0
NextResult r none = ⊥
NextResult r (some (some p, r')) = IsGiven r p r'
NextResult r (some (none, r')) =
    (r'.is_open ≡ false) × ((r'.truncated ≡ true) ⊎ (length r'.source ≡ 0))

-- The next packet block's header is read.
record IsFound (r : PcapngReader) (block : BlockHeader) (r1 : PcapngReader) : Type 0 where
  pub waiting : IsWaiting block r1
  pub fine : AreFine r1.interfaces
  pub later : position r ≤ block.start
  pub total : r1.bytes_read + length r1.source ≡ r.bytes_read + length r.source
