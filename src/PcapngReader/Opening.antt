-- ===== src/PcapngReader/Opening.antt =====
-- src/pcapng_reader.cpp: the reader after its first section header and the blocks up to the first packet
-- (open).
use log_squirl_tcpdump.Common.{Option, none, some, Bool, true, false, ◌≡◌, ◌⊎◌, length}
use log_squirl_tcpdump.PcapngReader.{BlockHeader, PcapngReader}
use log_squirl_tcpdump.PcapngReader.Reads.{Ended, Reads}
use log_squirl_tcpdump.PcapngReader.Packets.{IsReader}

-- An open reader, well formed, that has read the header of its next packet's block.
pub record AwaitsPacket (r : PcapngReader) : Type 0 where
  pub reader : IsReader r
  pub open_now : r.is_open ≡ true
  pub pending : (block : BlockHeader) × (r.pending ≡ some block)

abbrev pub OpenResult : Option (Bool × PcapngReader) → Type 0
OpenResult none = ⊥
OpenResult (some (true, r)) =
    (r.precision_announced ≡ true)
    × (AwaitsPacket r ⊎ ((r.is_open ≡ false) ⊎ (length r.source ≡ 0)))
OpenResult (some (false, r)) = Ended r
