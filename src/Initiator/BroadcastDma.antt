-- ===== src/Initiator/BroadcastDma.antt =====
-- broadcast_dma.c of initiator/.
use sisci_perf.Common.{ℕ, [], ◌∷◌}
use sisci_perf.Protocol.{global_dma_broadcast_segment, create, destroy}
use sisci_perf.Initiator.Service.{PeerService}
use sisci_perf.Initiator.World.{
  dma_broadcast, connect_remote, disconnect_remote, create_local, prepare_local, map_local,
  fill_local, create_queue, remove_queue, wait_for_queue, set_timer, begin_timer, end_timer, timed,
}
use sisci_perf.Initiator.Host.{Adapter, Program, ◌>>◌, return, seoe_each, ordered, counting}
use sisci_perf.Initiator.Segments.{measure_seconds, segment_size}
use sisci_perf.Initiator.Scaled.{broadcast_group_id}

module _ (P : PeerService) (adapter : Adapter) where
  unfoldable pub broadcast_dma_round : (broadcast_node i : ℕ) → Program P.State (Unit {0})
  broadcast_dma_round broadcast_node i = do
    ordered P adapter i create global_dma_broadcast_segment segment_size broadcast_group_id
    seoe_each P adapter (
        connect_remote 0 broadcast_node broadcast_group_id
        ∷ wait_for_queue 0
        ∷ begin_timer
        ∷ timed (dma_broadcast 1)
        ∷ disconnect_remote 0
        ∷ [])

  unfoldable pub end_broadcast_dma : ℕ → Program P.State (Unit {0})
  end_broadcast_dma i = do
    ordered P adapter i destroy global_dma_broadcast_segment segment_size broadcast_group_id
    return tt

  unfoldable pub run_broadcast_dma_experiment :
      (broadcast_node num_peers : ℕ) → Program P.State (Unit {0})
  run_broadcast_dma_experiment broadcast_node num_peers = do
    seoe_each P adapter (
        set_timer measure_seconds
        ∷ create_local 0 segment_size
        ∷ prepare_local 0
        ∷ map_local 0
        ∷ fill_local 0
        ∷ create_queue 0
        ∷ [])
    counting P adapter num_peers 0 (broadcast_dma_round broadcast_node)
    seoe_each P adapter (remove_queue 0 ∷ [])
    counting P adapter num_peers 0 end_broadcast_dma
    seoe_each P adapter (end_timer ∷ [])
