-- ===== src/Initiator/Transfers.antt =====
-- The experiments of initiator/ that transfer by DMA from and to one peer: simple_dma.c,
-- var_size_dma.c and dma_vec.c, whose SISCI_PERF_ALLOW_DMA_VEC_WAIT is off.
use sisci_perf.Common.{ℕ, suc, ◌/◌, List, [], ◌∷◌, Option, none, some}
use sisci_perf.Protocol.{global_dma_segment, create, destroy}
use sisci_perf.Initiator.Service.{PeerService}
use sisci_perf.Initiator.DmaVec.{Element, fill, first_size}
use sisci_perf.Initiator.World.{
  dma_write, dma_read, dma_vec_write, dma_vec_read, Action, connect_remote, disconnect_remote,
  create_local, prepare_local, map_local, fill_local, unmap_local, remove_local, create_queue,
  remove_queue, wait_for_queue, set_timer, begin_timer, end_timer, timed,
}
use sisci_perf.Initiator.Host.{
  Adapter, Program, ◌>>=◌, ◌>>◌, return, overrun, undefined, seoe_each, ordered, doubling,
}
use sisci_perf.Initiator.Segments.{segment_size, max_segment_size, measure_seconds}

-- A local segment to transfer from and to, and its queue.
abbrev pub set_up : ℕ → List Action
set_up size =
    create_local 0 size ∷ prepare_local 0 ∷ map_local 0 ∷ fill_local 0 ∷ create_queue 0 ∷ []

abbrev pub tear_down : List Action
tear_down = end_timer ∷ remove_queue 0 ∷ unmap_local 0 ∷ disconnect_remote 0 ∷ remove_local 0 ∷ []

module _ (P : PeerService) (adapter : Adapter) where
  unfoldable pub measure_dma : ℕ → Program P.State (Unit {0})
  measure_dma transfer_size = seoe_each P adapter (
      wait_for_queue 0
      ∷ begin_timer
      ∷ timed (dma_write 1 transfer_size)
      ∷ wait_for_queue 0
      ∷ begin_timer
      ∷ timed (dma_read 1 transfer_size)
      ∷ [])

  unfoldable pub run_single_segment_experiment_dma : ℕ → Program P.State (Unit {0})
  run_single_segment_experiment_dma p = do
    seoe_each P adapter (set_timer measure_seconds ∷ [])
    d ← ordered P adapter p create global_dma_segment segment_size 0
    seoe_each P adapter (connect_remote 0 d.node_id d.id ∷ set_up segment_size)
    measure_dma 1
    seoe_each P adapter tear_down
    ordered P adapter p destroy global_dma_segment segment_size d.id
    return tt

  -- MIN_MEASURE_DMA_TRANSFER_SIZE is 1024.
  unfoldable pub run_var_size_experiment_dma : ℕ → Program P.State (Unit {0})
  run_var_size_experiment_dma p = do
    seoe_each P adapter (set_timer measure_seconds ∷ [])
    d ← ordered P adapter p create global_dma_segment max_segment_size 0
    seoe_each P adapter (connect_remote 0 d.node_id d.id ∷ set_up max_segment_size)
    doubling P adapter (suc max_segment_size) max_segment_size 1024 measure_dma
    seoe_each P adapter tear_down
    ordered P adapter p destroy global_dma_segment max_segment_size d.id
    return tt

  abbrev pub filled : Option (List Element) → Program P.State (Unit {0})
  filled none w = undefined overrun
  filled (some vec) w = return tt w

  -- A round of the inner loop: dmaVec is filled, and transferred both ways.
  unfoldable pub measure_vector :
      (veclen transfer_size vec_el_size : ℕ) → Program P.State (Unit {0})
  measure_vector veclen transfer_size vec_el_size = do
    let vec_el_count = transfer_size / vec_el_size
    filled (fill veclen vec_el_count 0 vec_el_size)
    seoe_each P adapter (
        wait_for_queue 0
        ∷ begin_timer
        ∷ timed (dma_vec_write vec_el_size vec_el_count)
        ∷ wait_for_queue 0
        ∷ begin_timer
        ∷ timed (dma_vec_read vec_el_size vec_el_count)
        ∷ [])

  -- A round of the outer loop.
  unfoldable pub measure_vectors : (veclen transfer_size : ℕ) → Program P.State (Unit {0})
  measure_vectors veclen transfer_size =
      doubling P adapter (suc transfer_size) transfer_size (first_size veclen transfer_size)
        (measure_vector veclen transfer_size)

  unfoldable pub run_experiment_dma_vec : (veclen p : ℕ) → Program P.State (Unit {0})
  run_experiment_dma_vec veclen p = do
    seoe_each P adapter (set_timer measure_seconds ∷ [])
    d ← ordered P adapter p create global_dma_segment max_segment_size 0
    seoe_each P adapter (connect_remote 0 d.node_id d.id ∷ set_up max_segment_size)
    doubling P adapter (suc max_segment_size) max_segment_size 1024 (measure_vectors veclen)
    seoe_each P adapter tear_down
    ordered P adapter p destroy global_dma_segment max_segment_size d.id
    return tt
