-- ===== src/Initiator/System.antt =====
-- An initiator and its peers: initiator/initiator_main.c over peer/peer_main.c.
use sisci_perf.Common.{◌≡◌, List}
use sisci_perf.Peer.World.{Environment, Peer, done}
use sisci_perf.Peer.Orders.{shut_down}
use sisci_perf.Peer.Serving.{peer_service}
use sisci_perf.Initiator.World.{Resource}
use sisci_perf.Initiator.Host.{Host}
use sisci_perf.Initiator.Stages.{Passed}

-- Behind a run: the first peer holds nothing, and its shutdown goes through.
pub record Cleared (env : Environment) (more : List Resource) (w w' : Host Peer) : Type 0 where
  pub passed : Passed (peer_service env) more w w'
  pub shuts_down : (s : Peer) × (shut_down env (w'.peers 0) ≡ done tt s)
