-- ===== src/Pio/Loops.antt =====
-- The loops themselves. Each function of the header runs its body under
-- `while (!timer_expired)` and counts an operation unless the timer expires first.
use sisci_perf.Common.{ℕ, zero, suc, ◌+◌, ◌/◌, ◌%◌, Bool, true, false, ◌==◌, if◌then◌else◌, [], ◌∷◌}
use sisci_perf.Pio.Meter.{
  Call, store, load, flush, check_sequence, sci_mem_copy, start_dma, start_dma_vec, wait_for_queue,
  trigger, trigger_data, QueueState, idle, gather, posted, done_queue, aborted, failed, SciError,
  err_ok, err_nospc, err_other, Outside, Segments, Meter, Ran, on, expired, exited, fault,
  unfinished, after, logged, is_ok, put,
}

-- pio_flags_t.
pub data PioFlags : Type 0 where
  no_seq flush_seq chk_seq : PioFlags

-- What a function starts with: `operations = 0`.
unfoldable pub start_meter : Segments → Meter
start_meter memory = record { reads = 0; operations = 0; memory = memory; log = [] }

unfoldable pub read_flag : Meter → Meter
read_flag m = record {
  reads = m.reads + 1;
  operations = m.operations;
  memory = m.memory;
  log = m.log;
}

unfoldable pub count_operation : Meter → Meter
count_operation m = record {
  reads = m.reads;
  operations = m.operations + 1;
  memory = m.memory;
  log = m.log;
}

module _ (out : Outside) where
  -- `if (timer_expired) break; else operations++;`
  unfoldable pub break_or_count : Meter → Ran
  break_or_count m =
      if out.clock m.reads then expired (read_flag m) else on (count_operation (read_flag m))

  -- A call under SEOE.
  unfoldable pub seoe : Call → Meter → Ran
  seoe c m = if is_ok (out.error c m.log) then on (logged c m) else exited (logged c m)

  -- `while (!timer_expired) body`, on fuel.
  unfoldable pub while_running : ℕ → (Meter → Ran) → Meter → Ran
  while_running zero body m = unfinished m
  while_running (suc fuel) body m =
      let rest = after (body (read_flag m)) (while_running fuel body) in
      if out.clock m.reads then expired (read_flag m) else rest

  -- `for (uint32_t i = …; …; i++) body`, with the rounds that are left.
  unfoldable pub for_each : (rounds i : ℕ) → (ℕ → Meter → Ran) → Meter → Ran
  for_each zero i body m = on m
  for_each (suc r) i body m = after (body i m) (for_each r (i + 1) body)

  unfoldable pub check_status : Meter → Ran
  check_status m = if out.sequence_ok m.log then on m else exited m

  unfoldable pub order_store : PioFlags → Meter → Ran
  order_store no_seq m = on m
  order_store flush_seq m = on (logged flush m)
  order_store chk_seq m = after (seoe check_sequence m) check_status

  -- `data[i % num_segments][i] = 0x01`
  unfoldable pub store_one : (num_segments i : ℕ) → Meter → Ran
  store_one num_segments i m =
      let s = i % num_segments in
      if num_segments == 0
      then fault m
      else on (record {
        reads = m.reads;
        operations = m.operations;
        memory = put s i 1 m.memory;
        log = store s i ∷ m.log;
      })

  unfoldable pub write_element : (num_segments : ℕ) → PioFlags → ℕ → Meter → Ran
  write_element num_segments flags i m =
      after (after (store_one num_segments i m) (order_store flags)) break_or_count

  unfoldable pub write_pio : (fuel elements num_segments : ℕ) → PioFlags → Segments → Ran
  write_pio fuel elements num_segments flags memory =
      while_running fuel (for_each elements 0 (write_element num_segments flags))
        (start_meter memory)

  unfoldable pub write_pio_byte : (fuel segment_size num_segments : ℕ) → PioFlags → Segments → Ran
  write_pio_byte fuel segment_size = write_pio fuel segment_size

  unfoldable pub write_pio_word : (fuel segment_size num_segments : ℕ) → PioFlags → Segments → Ran
  write_pio_word fuel segment_size = write_pio fuel (segment_size / 2)

  unfoldable pub write_pio_dword : (fuel segment_size num_segments : ℕ) → PioFlags → Segments → Ran
  write_pio_dword fuel segment_size = write_pio fuel (segment_size / 4)

  unfoldable pub write_pio_qword : (fuel segment_size num_segments : ℕ) → PioFlags → Segments → Ran
  write_pio_qword fuel segment_size = write_pio fuel (segment_size / 8)

  unfoldable pub check_one : (num_segments i : ℕ) → Meter → Ran
  check_one num_segments i m =
      let s = i % num_segments in
      if num_segments == 0
      then fault m
      else if m.memory s i == 1
      then on (logged (load s i) m)
      else exited (logged (load s i) m)

  unfoldable pub read_element : (num_segments : ℕ) → ℕ → Meter → Ran
  read_element num_segments i m = after (check_one num_segments i m) break_or_count

  unfoldable pub read_pio : (fuel elements num_segments : ℕ) → Segments → Ran
  read_pio fuel elements num_segments memory =
      while_running fuel (for_each elements 0 (read_element num_segments)) (start_meter memory)

  unfoldable pub read_pio_byte : (fuel segment_size num_segments : ℕ) → Segments → Ran
  read_pio_byte fuel segment_size = read_pio fuel segment_size

  unfoldable pub read_pio_word : (fuel segment_size num_segments : ℕ) → Segments → Ran
  read_pio_word fuel segment_size = read_pio fuel (segment_size / 2)

  unfoldable pub read_pio_dword : (fuel segment_size num_segments : ℕ) → Segments → Ran
  read_pio_dword fuel segment_size = read_pio fuel (segment_size / 4)

  unfoldable pub read_pio_qword : (fuel segment_size num_segments : ℕ) → Segments → Ran
  read_pio_qword fuel segment_size = read_pio fuel (segment_size / 8)

  unfoldable pub copy_to : ℕ → Meter → Ran
  copy_to i m = after (seoe (sci_mem_copy i) m) break_or_count

  unfoldable pub memcpy_write_pio : (fuel num_segments : ℕ) → Segments → Ran
  memcpy_write_pio fuel num_segments memory =
      while_running fuel (for_each num_segments 0 copy_to) (start_meter memory)

  unfoldable pub memcpy_read_pio : (fuel : ℕ) → Segments → Ran
  memcpy_read_pio fuel memory = while_running fuel (copy_to 0) (start_meter memory)

  -- The switch behind the loop of block_for_dma.
  unfoldable pub accept_state : QueueState → Meter → Ran
  accept_state idle m = on m
  accept_state done_queue m = on m
  accept_state gather m = exited m
  accept_state posted m = exited m
  accept_state aborted m = exited m
  accept_state failed m = exited m

  unfoldable pub is_posted : QueueState → Bool
  is_posted posted = true
  is_posted idle = false
  is_posted gather = false
  is_posted done_queue = false
  is_posted aborted = false
  is_posted failed = false

  unfoldable pub block_for_dma : (fuel queue : ℕ) → Meter → Ran
  block_for_dma zero queue m = unfinished m
  block_for_dma (suc fuel) queue m =
      let state = out.queue_state queue m.log in
      let rest = after (seoe (wait_for_queue queue) m) (block_for_dma fuel queue) in
      if is_posted state then rest else accept_state state m

  -- `waits` is the fuel of each block_for_dma. Reading differs from writing in a flag only.
  unfoldable pub dma_round : (waits remotes : ℕ) → Meter → Ran
  dma_round waits remotes m =
      after
        (after (for_each remotes 0 (λ i. seoe (start_dma i)) m)
          (for_each remotes 0 (block_for_dma waits)))
        break_or_count

  unfoldable pub write_dma : (fuel waits remotes : ℕ) → Segments → Ran
  write_dma fuel waits remotes memory =
      while_running fuel (dma_round waits remotes) (start_meter memory)

  unfoldable pub read_dma : (fuel waits remotes : ℕ) → Segments → Ran
  read_dma fuel waits remotes memory =
      while_running fuel (dma_round waits remotes) (start_meter memory)

  unfoldable pub write_dma_broadcast : (fuel waits : ℕ) → Segments → Ran
  write_dma_broadcast fuel waits memory =
      while_running fuel
        (λ m. after (after (seoe (start_dma 0) m) (block_for_dma waits 0)) break_or_count)
        (start_meter memory)

  -- With SISCI_PERF_ALLOW_DMA_VEC_WAIT 0 the process exits when blocking is asked for.
  unfoldable pub write_dma_vec : (fuel waits : ℕ) → (block : Bool) → Segments → Ran
  write_dma_vec fuel waits block memory =
      if block
      then exited (start_meter memory)
      else while_running fuel
          (λ m. after (after (seoe start_dma_vec m) (block_for_dma waits 0)) break_or_count)
          (start_meter memory)

  -- Reading does not look at the error of the call.
  unfoldable pub read_dma_vec : (fuel waits : ℕ) → (block : Bool) → Segments → Ran
  read_dma_vec fuel waits block memory =
      if block
      then exited (start_meter memory)
      else while_running fuel
          (λ m. after (block_for_dma waits 0 (logged start_dma_vec m)) break_or_count)
          (start_meter memory)

  unfoldable pub trigger_interrupt : (fuel : ℕ) → Segments → Ran
  trigger_interrupt fuel memory =
      while_running fuel (λ m. after (seoe trigger m) break_or_count) (start_meter memory)

  -- A lack of space is only remembered for a warning behind the loop.
  unfoldable pub tolerate : SciError → Meter → Ran
  tolerate err_ok m = break_or_count m
  tolerate err_nospc m = break_or_count m
  tolerate err_other m = exited m

  unfoldable pub trigger_data_interrupt : (fuel : ℕ) → Segments → Ran
  trigger_data_interrupt fuel memory =
      while_running fuel (λ m. tolerate (out.error trigger_data m.log) (logged trigger_data m))
        (start_meter memory)
