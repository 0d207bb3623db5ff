-- ===== src/TcpAnalysis/Bases.antt =====
-- The bases that relative numbers count from.
use log_squirl_tcpdump.Common.{
  ℕ, ◌+◌, ◌-◌, ◌%◌, ◌^◌, ◌<◌, ◌≡◌, inl, inr, false, arith, Bool-cases, if◌then◌else◌,
}
use log_squirl_tcpdump.PacketRecord.{tcp_syn, has}
use log_squirl_tcpdump.TcpAnalysis.{TcpDirection}
use log_squirl_tcpdump.TcpAnalysis.Classify.{learn_bases}

-- The first segment of a direction whose base is not known, with a sequence number of 32 bits,
-- gets the relative sequence number 0 if it is a SYN and 1 otherwise, and no later segment
-- changes the direction's base.
pub learn_bases-first :
    (fwd rev rev' : TcpDirection) (flags seq ack flags' seq' ack' : ℕ)
    → fwd.base_seq_set ≡ false
    → seq < 2 ^ 32
    → let learnt = (learn_bases fwd rev flags seq ack).0 in
      ((seq + 2 ^ 32 - learnt.base_seq) % 2 ^ 32 ≡ (if has flags tcp_syn then 0 else 1))
      × ((learn_bases learnt rev' flags' seq' ack').0 ≡ learnt)
unfolding learn_bases
learn_bases-first fwd rev rev' flags seq ack flags' seq' ack' unset small =
    elim (Bool-cases (has flags tcp_syn)) [
      | inl syn ↦ (rw (unset, syn) (omega arith), rw (unset, syn))
      | inr other ↦ (rw (unset, other) (omega arith), rw (unset, other))
    ]
