-- ===== src/Initiator/World.antt =====
-- What the experiments of initiator/ call, with the handles of SISCI that each call works through,
-- opens and closes.
use sisci_perf.Common.{
  ℕ, zero, suc, Bool, true, false, ◌&&◌, ◌||◌, List, [], ◌∷◌, ◌++◌, Option, none, some, ◌==◌,
  if◌then◌else◌,
}
use sisci_perf.Protocol.{Order}
use sisci_perf.Pio.Loops.{PioFlags}

-- A handle goes by the variable that holds it: `segment[i]` is `remote_segment i`, and a variable
-- that is no array is at 0.
pub data Resource : Type 0 where
  remote_segment remote_map map_sequence : ℕ → Resource
  local_segment local_map dma_queue : ℕ → Resource
  remote_interrupt remote_data_interrupt local_data : Resource
  sisci adapter_open delivery_interrupt : Resource
  order_interrupt : ℕ → Resource

abbrev pub same : Resource → Resource → Bool
same (remote_segment i) (remote_segment j) = i == j
same (remote_map i) (remote_map j) = i == j
same (map_sequence i) (map_sequence j) = i == j
same (local_segment i) (local_segment j) = i == j
same (local_map i) (local_map j) = i == j
same (dma_queue i) (dma_queue j) = i == j
same remote_interrupt remote_interrupt = true
same remote_data_interrupt remote_data_interrupt = true
same local_data local_data = true
same sisci sisci = true
same adapter_open adapter_open = true
same delivery_interrupt delivery_interrupt = true
same (order_interrupt i) (order_interrupt j) = i == j
same r q = false

abbrev pub holds : Resource → List Resource → Bool
holds r [] = false
holds r (q ∷ held) = same r q || holds r held

abbrev pub hold_all : List Resource → List Resource → Bool
hold_all [] held = true
hold_all (r ∷ rs) held = holds r held && hold_all rs held

abbrev pub released : Resource → List Resource → List Resource
released r [] = []
released r (q ∷ held) = if same r q then held else q ∷ released r held

-- The timed loops, with the arguments that tell their runs apart. A width is 1, 2, 4 or 8 bytes, and
-- NO_SEQUENCE is `none`.
pub data Loop : Type 0 where
  pio_write : (width segment_size num_segments : ℕ) (sequence : Option ℕ) → PioFlags → Loop
  pio_read : (width segment_size num_segments : ℕ) → Loop
  memcpy_write : (size num_segments : ℕ) → Loop
  memcpy_read : (size : ℕ) → Loop
  dma_write dma_read : (remotes transfer_size : ℕ) → Loop
  dma_broadcast : (transfer_size : ℕ) → Loop
  dma_vec_write dma_vec_read : (vec_el_size vec_el_count : ℕ) → Loop
  interrupt_loop ping_pong_loop : Loop
  data_interrupt_loop : (length : ℕ) → Loop

-- What the experiments call.
pub data Action : Type 0 where
  trigger_order : (peer : ℕ) → Order → Action
  wait_for_delivery : Action
  connect_remote : (i node id : ℕ) → Action
  map_remote : (i size : ℕ) (io_space : Bool) → Action
  create_sequence start_sequence check_sequence remove_sequence : (i : ℕ) → Action
  unmap_remote disconnect_remote : (i : ℕ) → Action
  create_local : (i size : ℕ) → Action
  prepare_local map_local fill_local unmap_local remove_local : (i : ℕ) → Action
  make_available make_unavailable : (i : ℕ) → Action
  create_queue remove_queue wait_for_queue : (i : ℕ) → Action
  connect_interrupt connect_data_interrupt : (node id : ℕ) → Action
  disconnect_interrupt disconnect_data_interrupt : Action
  store_remote : (i : ℕ) → Action  -- plain stores through a mapped pointer
  allocate_data : (size : ℕ) → Action
  free_data : Action
  set_timer : (seconds : ℕ) → Action
  begin_timer end_timer one_second : Action
  timed : Loop → Action
  initialize open_adapter close_adapter terminate : Action
  create_delivery_interrupt remove_delivery_interrupt : Action
  connect_order : (i node id : ℕ) → Action
  disconnect_order : (i : ℕ) → Action

abbrev pub up_to : (Resource → List Resource → List Resource) → (ℕ → Resource) → ℕ → List Resource
up_to add r zero = []
up_to add r (suc n) = add (r n) (up_to add r n)

abbrev pub each : (ℕ → Resource) → ℕ → List Resource
each = up_to (λ r rs. r ∷ rs)

abbrev pub sequence_of : Option ℕ → List Resource
sequence_of none = []
sequence_of (some i) = map_sequence i ∷ []

-- The handles that a loop works through.
abbrev pub loop_needs : Loop → List Resource
loop_needs (pio_write w size n sequence flags) = sequence_of sequence ++ each remote_map n
loop_needs (pio_read w size n) = each remote_map n
loop_needs (memcpy_write size n) = local_data ∷ each map_sequence n ++ each remote_map n
loop_needs (memcpy_read size) = local_data ∷ map_sequence 0 ∷ remote_map 0 ∷ []
loop_needs (dma_write n size) = each dma_queue n ++ each local_segment n ++ each remote_segment n
loop_needs (dma_read n size) = each dma_queue n ++ each local_segment n ++ each remote_segment n
loop_needs (dma_vec_write el n) = dma_queue 0 ∷ local_segment 0 ∷ remote_segment 0 ∷ []
loop_needs (dma_vec_read el n) = dma_queue 0 ∷ local_segment 0 ∷ remote_segment 0 ∷ []
loop_needs (dma_broadcast size) = dma_queue 0 ∷ local_segment 0 ∷ remote_segment 0 ∷ []
loop_needs interrupt_loop = remote_interrupt ∷ []
loop_needs (data_interrupt_loop length) = remote_data_interrupt ∷ []
loop_needs ping_pong_loop = local_map 0 ∷ remote_map 0 ∷ map_sequence 0 ∷ []

-- The handles that a call is given.
abbrev pub needs : Action → List Resource
needs (map_remote i size io) = remote_segment i ∷ []
needs (create_sequence i) = remote_map i ∷ []
needs (start_sequence i) = map_sequence i ∷ []
needs (check_sequence i) = map_sequence i ∷ []
needs (remove_sequence i) = map_sequence i ∷ []
needs (unmap_remote i) = remote_map i ∷ []
needs (disconnect_remote i) = remote_segment i ∷ []
needs (prepare_local i) = local_segment i ∷ []
needs (make_available i) = local_segment i ∷ []
needs (make_unavailable i) = local_segment i ∷ []
needs (map_local i) = local_segment i ∷ []
needs (fill_local i) = local_map i ∷ []
needs (unmap_local i) = local_map i ∷ []
needs (remove_local i) = local_segment i ∷ []
needs (remove_queue i) = dma_queue i ∷ []
needs (wait_for_queue i) = dma_queue i ∷ []
needs disconnect_interrupt = remote_interrupt ∷ []
needs disconnect_data_interrupt = remote_data_interrupt ∷ []
needs (store_remote i) = remote_map i ∷ []
needs free_data = local_data ∷ []
needs (timed loop) = loop_needs loop
needs open_adapter = sisci ∷ []
needs close_adapter = adapter_open ∷ []
needs terminate = sisci ∷ []
needs create_delivery_interrupt = adapter_open ∷ []
needs remove_delivery_interrupt = delivery_interrupt ∷ []
needs (connect_order i node id) = adapter_open ∷ []
needs (disconnect_order i) = order_interrupt i ∷ []
needs c = []

-- The handles that are open after a call that succeeds.
abbrev pub effect : Action → List Resource → List Resource
effect (connect_remote i node id) held = remote_segment i ∷ held
effect (map_remote i size io) held = remote_map i ∷ held
effect (create_sequence i) held = map_sequence i ∷ held
effect (remove_sequence i) held = released (map_sequence i) held
effect (unmap_remote i) held = released (remote_map i) held
effect (disconnect_remote i) held = released (remote_segment i) held
effect (create_local i size) held = local_segment i ∷ held
effect (map_local i) held = local_map i ∷ held
effect (unmap_local i) held = released (local_map i) held
effect (remove_local i) held = released (local_segment i) held
effect (create_queue i) held = dma_queue i ∷ held
effect (remove_queue i) held = released (dma_queue i) held
effect (connect_interrupt node id) held = remote_interrupt ∷ held
effect (connect_data_interrupt node id) held = remote_data_interrupt ∷ held
effect disconnect_interrupt held = released remote_interrupt held
effect disconnect_data_interrupt held = released remote_data_interrupt held
effect (allocate_data size) held = local_data ∷ held
effect free_data held = released local_data held
effect initialize held = sisci ∷ held
effect open_adapter held = adapter_open ∷ held
effect close_adapter held = released adapter_open held
effect terminate held = released sisci held
effect create_delivery_interrupt held = delivery_interrupt ∷ held
effect remove_delivery_interrupt held = released delivery_interrupt held
effect (connect_order i node id) held = order_interrupt i ∷ held
effect (disconnect_order i) held = released (order_interrupt i) held
effect c held = held

-- Whether the last timed loop has written what a reading loop expects: 1, in as many elements of
-- the same width and number of segments.
abbrev pub has_written : (width size n : ℕ) → List Action → Bool
has_written w size n [] = false
has_written w size n (timed (pio_write w' size' n' sequence flags) ∷ log) =
    w == w' && size == size' && n == n'
has_written w size n (timed loop ∷ log) = false
has_written w size n (c ∷ log) = has_written w size n log

abbrev pub is_ready : Action → List Action → Bool
is_ready (timed (pio_read w size n)) log = has_written w size n log
is_ready c log = true
