-- ===== src/StreamContent/Remembers.antt =====
-- takeTcp as a whole loses no byte of either direction.
use log_squirl_tcpdump.Common.{ℕ, ◌-◌}
use log_squirl_tcpdump.PacketRecord.{PacketRecord}
use log_squirl_tcpdump.StreamContent.{Reader, flow_of}
use log_squirl_tcpdump.StreamContent.Shows.{Known}
use log_squirl_tcpdump.StreamContent.Session.{Session}

-- Each byte of either direction that was shown, or held and not passed, is so still.
pub record Remembers (s t d : ℕ) (r r' : Reader) : Type 0 where
  pub own : (n : ℕ) → Known d s n (flow_of r d) → Known d s n (flow_of r' d)
  pub other :
      (n : ℕ) → Known (1 - d) t n (flow_of r (1 - d)) → Known (1 - d) t n (flow_of r' (1 - d))
