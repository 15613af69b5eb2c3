-- ===== src/Initiator/Segments.antt =====
-- The experiments of initiator/ on one segment of a peer, with programmed I/O: simple_pio.c,
-- var_size_pio.c and var_size_segments.c.
use sisci_perf.Common.{ℕ, suc, true, false, [], ◌∷◌, none, some, ◌==◌, if◌then◌else◌}
use sisci_perf.Protocol.{segment, create, destroy}
use sisci_perf.Pio.Loops.{no_seq, flush_seq, chk_seq}
use sisci_perf.Initiator.Service.{PeerService}
use sisci_perf.Initiator.World.{
  pio_write, pio_read, memcpy_write, memcpy_read, connect_remote, map_remote, create_sequence,
  start_sequence, check_sequence, remove_sequence, unmap_remote, disconnect_remote, allocate_data,
  free_data, set_timer, begin_timer, end_timer, one_second, timed,
}
use sisci_perf.Initiator.Host.{
  Adapter, Program, ◌>>=◌, ◌>>◌, return, stopped, seoe_each, ordered, start_until_ok, doubling,
}

-- SEGMENT_SIZE and MAX_SEGMENT_SIZE of lib/sisci_glob_defs.h, and MEASURE_SECONDS.
abbrev pub segment_size : ℕ
segment_size = 4096

abbrev pub max_segment_size : ℕ
max_segment_size = 16777216

abbrev pub measure_seconds : ℕ
measure_seconds = 2

module _ (P : PeerService) (adapter : Adapter) where
  unfoldable pub run_single_segment_experiment_pio : ℕ → Program P.State (Unit {0})
  run_single_segment_experiment_pio p = do
    seoe_each P adapter (set_timer measure_seconds ∷ [])
    d ← ordered P adapter p create segment segment_size 0
    seoe_each P adapter
        (connect_remote 0 d.node_id d.id ∷ map_remote 0 segment_size false ∷ create_sequence 0 ∷ [])
    start_until_ok P adapter adapter.patience 0 0
    seoe_each P adapter (
        begin_timer
        ∷ timed (pio_write 1 segment_size 1 none no_seq)
        ∷ begin_timer
        ∷ timed (pio_read 1 segment_size 1)
        ∷ begin_timer
        ∷ timed (pio_write 1 segment_size 1 (some 0) flush_seq)
        ∷ check_sequence 0
        ∷ begin_timer
        ∷ timed (pio_write 1 segment_size 1 (some 0) chk_seq)
        ∷ remove_sequence 0
        ∷ unmap_remote 0
        ∷ disconnect_remote 0
        ∷ one_second
        ∷ connect_remote 0 d.node_id d.id
        ∷ map_remote 0 segment_size true
        ∷ begin_timer
        ∷ timed (pio_write 1 segment_size 1 none no_seq)
        ∷ begin_timer
        ∷ timed (pio_read 1 segment_size 1)
        ∷ unmap_remote 0
        ∷ end_timer
        ∷ [])
    ordered P adapter p destroy segment segment_size d.id
    return tt

  -- The functions that the switch chooses, by the width of their elements.
  unfoldable pub measure_width : ℕ → Program P.State (Unit {0})
  measure_width width = do
    seoe_each P adapter (
        begin_timer
        ∷ timed (pio_write width max_segment_size 1 none no_seq)
        ∷ begin_timer
        ∷ timed (pio_write width max_segment_size 1 none flush_seq)
        ∷ begin_timer
        ∷ timed (pio_read width max_segment_size 1)
        ∷ [])

  -- The switch, whose default exits.
  unfoldable pub by_width : ℕ → Program P.State (Unit {0})
  by_width n =
      if n == 1
      then measure_width 1
      else if n == 2
      then measure_width 2
      else if n == 4
      then measure_width 4
      else if n == 8
      then measure_width 8
      else stopped

  unfoldable pub measure_memcpy : ℕ → Program P.State (Unit {0})
  measure_memcpy transfer_size = do
    seoe_each P adapter (
        begin_timer
        ∷ timed (memcpy_write transfer_size 1)
        ∷ begin_timer
        ∷ timed (memcpy_read transfer_size)
        ∷ [])

  unfoldable pub run_var_size_experiment_pio : ℕ → Program P.State (Unit {0})
  run_var_size_experiment_pio p = do
    seoe_each P adapter (allocate_data max_segment_size ∷ set_timer measure_seconds ∷ [])
    d ← ordered P adapter p create segment max_segment_size 0
    seoe_each P adapter (connect_remote 0 d.node_id d.id ∷ map_remote 0 max_segment_size false ∷ [])
    doubling P adapter 9 8 1 by_width
    seoe_each P adapter (create_sequence 0 ∷ start_sequence 0 ∷ [])
    doubling P adapter (suc max_segment_size) max_segment_size 4 measure_memcpy
    seoe_each P adapter
        (free_data ∷ end_timer ∷ remove_sequence 0 ∷ unmap_remote 0 ∷ disconnect_remote 0 ∷ [])
    ordered P adapter p destroy segment max_segment_size d.id
    return tt

  unfoldable pub measure_segment : ℕ → ℕ → Program P.State (Unit {0})
  measure_segment p size = do
    d ← ordered P adapter p create segment size 0
    seoe_each P adapter
        (connect_remote 0 d.node_id d.id ∷ map_remote 0 size false ∷ create_sequence 0 ∷ [])
    start_until_ok P adapter adapter.patience 0 0
    seoe_each P adapter (
        begin_timer
        ∷ timed (pio_write 1 size 1 (some 0) flush_seq)
        ∷ unmap_remote 0
        ∷ disconnect_remote 0
        ∷ [])
    ordered P adapter p destroy segment size d.id
    return tt

  unfoldable pub run_var_size_segments_experiment : ℕ → Program P.State (Unit {0})
  run_var_size_segments_experiment p = do
    seoe_each P adapter (set_timer measure_seconds ∷ [])
    doubling P adapter (suc max_segment_size) max_segment_size segment_size (measure_segment p)
    seoe_each P adapter (end_timer ∷ [])
