-- ===== src/Initiator/Signals.antt =====
-- The experiments of initiator/ that trigger interrupts of a peer, simple_interrupt.c and
-- simple_data_interrupt.c, and ping_pong_pio.c. Where the order's size is never written, `stack` is
-- what stands there.
use sisci_perf.Common.{ℕ, false, [], ◌∷◌}
use sisci_perf.Protocol.{interrupt, data_interrupt, ping_pong_segment, create, destroy}
use sisci_perf.Initiator.Service.{PeerService}
use sisci_perf.Initiator.World.{
  interrupt_loop, data_interrupt_loop, ping_pong_loop, connect_remote, map_remote, create_sequence,
  start_sequence, remove_sequence, unmap_remote, disconnect_remote, create_local, prepare_local,
  make_available, make_unavailable, map_local, fill_local, unmap_local, remove_local,
  connect_interrupt, connect_data_interrupt, disconnect_interrupt, disconnect_data_interrupt,
  store_remote, set_timer, begin_timer, end_timer, timed,
}
use sisci_perf.Initiator.Host.{Adapter, Program, ◌>>=◌, ◌>>◌, return, seoe_each, ordered}
use sisci_perf.Initiator.Segments.{segment_size, measure_seconds}

-- DATA_INT_DATA_LENGTH of initiator/simple_data_interrupt.h.
abbrev data_int_data_length : ℕ
data_int_data_length = 50

module _ (P : PeerService) (adapter : Adapter) where
  unfoldable pub run_experiment_interrupt : (stack p : ℕ) → Program P.State (Unit {0})
  run_experiment_interrupt stack p = do
    seoe_each P adapter (set_timer measure_seconds ∷ [])
    d ← ordered P adapter p create interrupt stack 0
    seoe_each P adapter (
        connect_interrupt d.node_id d.id
        ∷ begin_timer
        ∷ timed interrupt_loop
        ∷ disconnect_interrupt
        ∷ end_timer
        ∷ [])
    ordered P adapter p destroy interrupt stack d.id
    return tt

  unfoldable pub run_experiment_data_interrupt : (stack p : ℕ) → Program P.State (Unit {0})
  run_experiment_data_interrupt stack p = do
    seoe_each P adapter (set_timer measure_seconds ∷ [])
    d ← ordered P adapter p create data_interrupt stack 0
    seoe_each P adapter (
        connect_data_interrupt d.node_id d.id
        ∷ begin_timer
        ∷ timed (data_interrupt_loop 1)
        ∷ begin_timer
        ∷ timed (data_interrupt_loop data_int_data_length)
        ∷ disconnect_data_interrupt
        ∷ end_timer
        ∷ [])
    ordered P adapter p destroy data_interrupt stack d.id
    return tt

  unfoldable pub run_ping_pong_experiment_pio : ℕ → Program P.State (Unit {0})
  run_ping_pong_experiment_pio p = do
    seoe_each P adapter (
        create_local 0 segment_size
        ∷ prepare_local 0
        ∷ make_available 0
        ∷ map_local 0
        ∷ fill_local 0
        ∷ [])
    d ← ordered P adapter p create ping_pong_segment segment_size 0
    seoe_each P adapter (
        connect_remote 0 d.node_id d.id
        ∷ map_remote 0 segment_size false
        ∷ create_sequence 0
        ∷ start_sequence 0
        ∷ store_remote 0
        ∷ set_timer measure_seconds
        ∷ begin_timer
        ∷ timed ping_pong_loop
        ∷ end_timer
        ∷ [])
    ordered P adapter p destroy ping_pong_segment segment_size d.id
    seoe_each P adapter (
        remove_sequence 0
        ∷ unmap_remote 0
        ∷ disconnect_remote 0
        ∷ make_unavailable 0
        ∷ unmap_local 0
        ∷ remove_local 0
        ∷ [])
