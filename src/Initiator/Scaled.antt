-- ===== src/Initiator/Scaled.antt =====
-- The experiments of initiator/ on several segments or peers: scale_up_pio.c, scale_out_pio.c,
-- scale_up_out_pio.c, broadcast_pio.c and interleaved_dmas.c. The order interrupt at index i belongs
-- to peer i; for scale_up_pio.c, `order_peer` says whose it is.
use sisci_perf.Common.{ℕ, ◌+◌, ◌-◌, ◌*◌, false, [], ◌∷◌, none, ltb, if◌then◌else◌}
use sisci_perf.Protocol.{segment, global_dma_segment, broadcast_segment, create, destroy, Delivery}
use sisci_perf.Pio.Loops.{no_seq}
use sisci_perf.Initiator.Service.{PeerService}
use sisci_perf.Initiator.World.{
  pio_write, pio_read, memcpy_write, dma_write, dma_read, connect_remote, map_remote,
  create_sequence, start_sequence, remove_sequence, unmap_remote, disconnect_remote, create_local,
  prepare_local, map_local, fill_local, unmap_local, remove_local, create_queue, remove_queue,
  wait_for_queue, allocate_data, free_data, set_timer, begin_timer, end_timer, timed,
}
use sisci_perf.Initiator.Host.{
  Adapter, Program, ◌>>=◌, ◌>>◌, return, stopped, seoe_each, ordered, get_remote_segment_id,
  counting,
}
use sisci_perf.Initiator.Segments.{segment_size, measure_seconds}

-- MAX_BROADCAST_SEGMENT_SIZE and BROADCAST_GROUP_ID of lib/sisci_glob_defs.h.
abbrev pub max_broadcast_segment_size : ℕ
max_broadcast_segment_size = 2097152

abbrev pub broadcast_group_id : ℕ
broadcast_group_id = 1

-- NUM_CONCURRENT_SEGMENTS and TRANSFER_SIZE of initiator/interleaved_dmas.h.
abbrev num_concurrent_segments : ℕ
num_concurrent_segments = 2

abbrev transfer_size : ℕ
transfer_size = 4096

-- UP_SCALE of initiator/scale_up_out_pio.h.
abbrev up_scale : ℕ
up_scale = 2

module _ (P : PeerService) (adapter : Adapter) where
  unfoldable pub destroy_segment_of : (peer size i : ℕ) → Program P.State (Unit {0})
  destroy_segment_of peer size i = do
    seoe_each P adapter (unmap_remote i ∷ disconnect_remote i ∷ [])
    id ← get_remote_segment_id P adapter i
    ordered P adapter peer destroy segment size id
    return tt

  unfoldable pub create_segment_of : (peer size i : ℕ) → Program P.State (Unit {0})
  create_segment_of peer size i = do
    d ← ordered P adapter peer create segment size 0
    seoe_each P adapter (connect_remote i d.node_id d.id ∷ map_remote i size false ∷ [])

  unfoldable pub scale_up_round : (order_peer : ℕ → ℕ) → ℕ → Program P.State (Unit {0})
  scale_up_round order_peer segments_this_round = do
    let peer = order_peer (segments_this_round - 1)
    counting P adapter segments_this_round 0 (create_segment_of peer segment_size)
    seoe_each P adapter (
        begin_timer
        ∷ timed (pio_write 1 segment_size segments_this_round none no_seq)
        ∷ begin_timer
        ∷ timed (pio_read 1 segment_size segments_this_round)
        ∷ [])
    counting P adapter segments_this_round 0 (destroy_segment_of peer segment_size)

  unfoldable pub run_scale_up_segment_experiment_pio :
      (num_segments : ℕ) (order_peer : ℕ → ℕ) → Program P.State (Unit {0})
  run_scale_up_segment_experiment_pio num_segments order_peer = do
    seoe_each P adapter (set_timer measure_seconds ∷ [])
    counting P adapter num_segments 1 (scale_up_round order_peer)
    seoe_each P adapter (end_timer ∷ [])

  -- The rest of a round's loops is the same in scale_out_pio.c and scale_up_out_pio.c.
  unfoldable pub create_sequenced : (peer i : ℕ) → Program P.State (Unit {0})
  create_sequenced peer i = do
    d ← ordered P adapter peer create segment max_broadcast_segment_size 0
    seoe_each P adapter (
        connect_remote i d.node_id d.id
        ∷ map_remote i max_broadcast_segment_size false
        ∷ create_sequence i
        ∷ start_sequence i
        ∷ [])

  unfoldable pub destroy_sequenced : (peer i : ℕ) → Program P.State (Unit {0})
  destroy_sequenced peer i = do
    seoe_each P adapter (remove_sequence i ∷ unmap_remote i ∷ disconnect_remote i ∷ [])
    id ← get_remote_segment_id P adapter i
    ordered P adapter peer destroy segment max_broadcast_segment_size id
    return tt

  unfoldable pub measure_scaled : (num_segments : ℕ) → Program P.State (Unit {0})
  measure_scaled n = seoe_each P adapter (
      begin_timer
      ∷ timed (pio_write 1 max_broadcast_segment_size n none no_seq)
      ∷ begin_timer
      ∷ timed (pio_read 1 max_broadcast_segment_size n)
      ∷ begin_timer
      ∷ timed (memcpy_write segment_size n)
      ∷ begin_timer
      ∷ timed (memcpy_write max_broadcast_segment_size n)
      ∷ [])

  unfoldable pub scale_out_round : ℕ → Program P.State (Unit {0})
  scale_out_round segments_this_round = do
    counting P adapter segments_this_round 0 (λ i. create_sequenced i i)
    measure_scaled segments_this_round
    counting P adapter segments_this_round 0 (λ i. destroy_sequenced i i)

  unfoldable pub run_scale_out_segment_experiment_pio : ℕ → Program P.State (Unit {0})
  run_scale_out_segment_experiment_pio num_peers = do
    seoe_each P adapter (set_timer measure_seconds ∷ allocate_data max_broadcast_segment_size ∷ [])
    counting P adapter num_peers 1 scale_out_round
    seoe_each P adapter (free_data ∷ end_timer ∷ [])

  -- A round of scale_up_out_pio.c.
  unfoldable pub scale_up_out_round : (peers_this_round : ℕ) → Program P.State (Unit {0})
  scale_up_out_round n = do
    counting P adapter n 0
        (λ peer. counting P adapter up_scale 0 (λ i. create_sequenced peer (peer * up_scale + i)))
    measure_scaled (n * up_scale)
    counting P adapter n 0
        (λ peer. counting P adapter up_scale 0 (λ i. destroy_sequenced peer (peer * up_scale + i)))

  unfoldable pub run_scale_up_out_segment_experiment_pio :
      (num_peers : ℕ) → Program P.State (Unit {0})
  run_scale_up_out_segment_experiment_pio num_peers = do
    seoe_each P adapter (set_timer measure_seconds ∷ allocate_data max_broadcast_segment_size ∷ [])
    counting P adapter num_peers 1 scale_up_out_round
    seoe_each P adapter (free_data ∷ end_timer ∷ [])

  -- One peer more; all of them are reached through the broadcast node.
  unfoldable pub broadcast_round : (broadcast_node i : ℕ) → Program P.State (Unit {0})
  broadcast_round broadcast_node i = do
    ordered P adapter i create broadcast_segment max_broadcast_segment_size broadcast_group_id
    seoe_each P adapter (
        connect_remote 0 broadcast_node broadcast_group_id
        ∷ map_remote 0 max_broadcast_segment_size false
        ∷ begin_timer
        ∷ timed (pio_write 1 max_broadcast_segment_size 1 none no_seq)
        ∷ create_sequence 0
        ∷ start_sequence 0
        ∷ begin_timer
        ∷ timed (memcpy_write segment_size 1)
        ∷ begin_timer
        ∷ timed (memcpy_write max_broadcast_segment_size 1)
        ∷ remove_sequence 0
        ∷ unmap_remote 0
        ∷ disconnect_remote 0
        ∷ [])

  unfoldable pub end_broadcast : ℕ → Program P.State (Unit {0})
  end_broadcast i = do
    ordered P adapter i destroy broadcast_segment max_broadcast_segment_size broadcast_group_id
    return tt

  unfoldable pub run_broadcast_pio_experiment :
      (broadcast_node num_peers : ℕ) → Program P.State (Unit {0})
  run_broadcast_pio_experiment broadcast_node num_peers = do
    seoe_each P adapter (set_timer measure_seconds ∷ allocate_data max_broadcast_segment_size ∷ [])
    counting P adapter num_peers 0 (broadcast_round broadcast_node)
    counting P adapter num_peers 0 end_broadcast
    seoe_each P adapter (free_data ∷ end_timer ∷ [])

  -- The last delivery is in a variable that both loops of interleaved_dmas.c write.
  unfoldable pub set_up_interleaved : ℕ → Program P.State Delivery
  set_up_interleaved i = do
    d ← ordered P adapter i create global_dma_segment segment_size 0
    seoe_each P adapter (
        connect_remote i d.node_id d.id
        ∷ create_local i segment_size
        ∷ prepare_local i
        ∷ map_local i
        ∷ fill_local i
        ∷ create_queue i
        ∷ [])
    return d

  unfoldable pub tear_down_interleaved : ℕ → Delivery → Program P.State Delivery
  tear_down_interleaved i d = do
    seoe_each P adapter (remove_queue i ∷ unmap_local i ∷ disconnect_remote i ∷ remove_local i ∷ [])
    ordered P adapter i destroy global_dma_segment segment_size d.id

  -- The loops over the two peers are written out.
  unfoldable pub run_single_segment_experiment_interleaved_dma : ℕ → Program P.State (Unit {0})
  run_single_segment_experiment_interleaved_dma num_peers = do
    seoe_each P adapter (set_timer measure_seconds ∷ [])
    if ltb num_peers num_concurrent_segments then stopped else return tt
    set_up_interleaved 0
    d ← set_up_interleaved 1
    seoe_each P adapter (
        wait_for_queue 0
        ∷ wait_for_queue 1
        ∷ begin_timer
        ∷ timed (dma_write num_concurrent_segments transfer_size)
        ∷ wait_for_queue 0
        ∷ wait_for_queue 1
        ∷ begin_timer
        ∷ timed (dma_read num_concurrent_segments transfer_size)
        ∷ wait_for_queue 0
        ∷ wait_for_queue 1
        ∷ end_timer
        ∷ [])
    d₁ ← tear_down_interleaved 0 d
    tear_down_interleaved 1 d₁
    return tt
