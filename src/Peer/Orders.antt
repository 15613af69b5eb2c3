-- ===== src/Peer/Orders.antt =====
-- The handlers of peer/peer_main.c and what `main` does after the termination signal. The two
-- branches for interrupts differ in the calls only, so each pair is one function over a `Table`.
-- The main thread is not run beside the callbacks: a `kill_main` is in the log, and the callback
-- goes on, as it does in the source.
use sisci_perf.Common.{
  ℕ, zero, suc, ◌+◌, ◌-◌, ◌%◌, Bool, true, false, not, ◌&&◌, Option, none, some, ltb, leb, ◌==◌,
  if◌then◌else◌,
}
use sisci_perf.Memory.{Array, null, fresh, resize, get_elem?, set}
use sisci_perf.Protocol.{
  OrderType, segment, global_dma_segment, interrupt, data_interrupt, ping_pong_segment,
  broadcast_segment, global_dma_broadcast_segment, other_order, CommandType, create, destroy,
  other_command, Order, success, failure, uint_mod,
}
use sisci_perf.Peer.World.{
  Environment, Table, Flags, Call, create_segment, prepare_segment, set_segment_available,
  remove_segment, create_interrupt, remove_interrupt, create_data_interrupt, remove_data_interrupt,
  pthread_create, pthread_cancel, pthread_join, allocate, kill_main, disconnect_delivery,
  remove_order_interrupt, close, terminate, CallbackAction, callback_continue, callback_cancel, M,
  pure, exit_failure, ◌>>=◌, ◌>>◌, gets, modify, or_fault, ask, seoe, delivery_notification,
}
use sisci_perf.Peer.Tables.{compact, compact_nos}

-- `n + 1` and `n - 1` of an `unsigned int`.
abbrev pub inc : ℕ → ℕ
inc n = (n + 1) % uint_mod

abbrev pub dec : ℕ → ℕ
dec n = (n + uint_mod - 1) % uint_mod

abbrev pub is_ping_pong : OrderType → Bool
is_ping_pong ping_pong_segment = true
is_ping_pong _ = false

-- The `if`s that set up create_flags.
unfoldable pub create_flags : OrderType → Flags
create_flags broadcast_segment = record { auto_id = false; dma_global = false; broadcast = true }
create_flags global_dma_segment = record { auto_id = true; dma_global = true; broadcast = false }
create_flags global_dma_broadcast_segment = record {
  auto_id = true;
  dma_global = true;
  broadcast = true;
}
create_flags _ = record { auto_id = true; dma_global = false; broadcast = false }

-- What a read of the order_t finds: its fields, if SISCI has passed as many bytes. The size of an
-- order_t, on the 64-bit machines that the adapters go into, is 24.
abbrev pub read_order : Option Order → (length : ℕ) → Option Order
read_order content length = if leb 24 length then content else none

module _ (env : Environment) where
  -- `p = reallocarray(p, n, sizeof(*p))` and its check, which does not return.
  unfoldable pub realloc : Array → ℕ → M Array
  realloc a n = do
    r ← ask env (allocate n)
    if r.ok then pure (resize a n) else (ask env kill_main >> pure null)

  unfoldable pub launch : (handle initiator thread : ℕ) → M (Unit {0})
  launch handle initiator thread =
      if thread == 0
      then (ask env (pthread_create handle initiator) >>= λ r.
          modify (λ s. record s { ping_pong_thread = r.value }))
      else exit_failure

  unfoldable pub start_ping_pong : OrderType → ℕ → M (Unit {0})
  unfolding launch
  start_ping_pong order_type handle = do
    thread ← gets (λ s. s.ping_pong_thread)
    initiator ← gets (λ s. s.initiator_id)
    if is_ping_pong order_type then launch handle initiator thread else pure tt

  unfoldable pub create_segment_order : Order → M CallbackAction
  create_segment_order order = do
    old ← gets (λ s. s.ordered_segments)
    count ← gets (λ s. s.ordered_segments_count)
    grown ← realloc old (inc count)
    r ← seoe env (create_segment order.id order.size (create_flags order.order_type))
    segments ← or_fault (set grown count r.value)
    handle ← or_fault (get_elem? segments count)
    seoe env (prepare_segment handle)
    seoe env (set_segment_available handle)
    delivery_notification env success create order.order_type (env.local_segment_id handle)
    start_ping_pong order.order_type handle
    modify (λ s. record s { ordered_segments = segments; ordered_segments_count = inc count })
    pure callback_continue

  -- What both interrupt branches do up to the delivery: the new table, and the number.
  unfoldable pub create_entry : (ℕ → Call) → Table → ℕ → M (Table × ℕ)
  create_entry creates t id = do
    handles ← realloc t.handles (inc t.count)
    nos ← realloc t.nos (inc t.count)
    r ← seoe env (creates id)
    handles' ← or_fault (set handles t.count r.value)
    nos' ← or_fault (set nos t.count r.number)
    pure (record { handles = handles'; nos = nos'; count = inc t.count }, r.number)

  unfoldable pub create_interrupt_order : Order → M CallbackAction
  create_interrupt_order order = do
    table ← gets (λ s. s.ordered_interrupts)
    (table', no') ← create_entry create_interrupt table order.id
    modify (λ s. record s { ordered_interrupts = table' })
    delivery_notification env success create interrupt no'
    pure callback_continue

  unfoldable pub create_data_interrupt_order : Order → M CallbackAction
  create_data_interrupt_order order = do
    table ← gets (λ s. s.ordered_data_interrupts)
    (table', no') ← create_entry create_data_interrupt table order.id
    modify (λ s. record s { ordered_data_interrupts = table' })
    delivery_notification env success create data_interrupt no'
    pure callback_continue

  unfoldable pub create_by : OrderType → Order → M CallbackAction
  create_by interrupt order = create_interrupt_order order
  create_by data_interrupt order = create_data_interrupt_order order
  create_by (other_order n) order = pure callback_continue
  create_by _ order = create_segment_order order

  unfoldable pub handle_create_order : Order → M CallbackAction
  unfolding create_by
  handle_create_order order = create_by order.order_type order

  -- The way out of handle_destroy_order when a step fails.
  unfoldable pub give_up : OrderType → ℕ → M CallbackAction
  give_up order_type id = do
    delivery_notification env failure destroy order_type id
    ask env kill_main
    pure callback_cancel

  unfoldable pub join_thread : ℕ → M Bool
  join_thread thread = do
    joined ← ask env (pthread_join thread)
    if joined.ok then (modify (λ s. record s { ping_pong_thread = 0 }) >> pure true) else pure false

  unfoldable pub cancel_thread : ℕ → M Bool
  unfolding join_thread
  cancel_thread thread = do
    cancelled ← ask env (pthread_cancel thread)
    if cancelled.ok then join_thread thread else pure false

  -- pthread_cancel and pthread_join; false if one of them failed.
  unfoldable pub stop_ping_pong : OrderType → M Bool
  unfolding cancel_thread
  stop_ping_pong order_type = do
    thread ← gets (λ s. s.ping_pong_thread)
    if is_ping_pong order_type then cancel_thread thread else pure true

  -- `malloc((count - 1) * sizeof(*p))`; `none` if it failed and that is treated as an error.
  unfoldable pub shorter : ℕ → M (Option Array)
  shorter count = do
    r ← ask env (allocate (dec count))
    let new : Array = if r.ok then fresh (dec count) else null
    pure (if not r.ok && ltb 1 count then none else some new)

  abbrev pub segment_key : Array → ℕ → Option ℕ
  segment_key segments i = elim (get_elem? segments i) [
    | none ↦ none
    | some h ↦ some (env.local_segment_id h)
  ]

  unfoldable pub compact_segments : Order → Option Array → M CallbackAction
  compact_segments order none = give_up segment order.id
  compact_segments order (some new) = do
    old ← gets (λ s. s.ordered_segments)
    count ← gets (λ s. s.ordered_segments_count)
    segments ← compact env (segment_key old) remove_segment order.id old count 0 0 new
    modify (λ s. record s { ordered_segments = segments; ordered_segments_count = dec count })
    delivery_notification env success destroy order.order_type order.id
    pure callback_continue

  unfoldable pub shorten_segments : Order → M CallbackAction
  shorten_segments order = do
    count ← gets (λ s. s.ordered_segments_count)
    new ← shorter count
    compact_segments order new

  unfoldable pub destroy_segment_order : Order → M CallbackAction
  destroy_segment_order order = do
    stopped ← stop_ping_pong order.order_type
    if stopped then shorten_segments order else give_up segment order.id

  unfoldable pub destroy_nos :
      OrderType → Table → ℕ → Array → Option Array → M (Table × CallbackAction)
  destroy_nos order_type t id handles none = do
    action ← give_up order_type id
    pure (record t { handles = handles }, action)
  destroy_nos order_type t id handles (some new) = do
    nos ← compact_nos id t.nos t.count 0 0 new
    pure (record { handles = handles; nos = nos; count = dec t.count }, callback_continue)

  unfoldable pub destroy_handles :
      OrderType → (ℕ → Call) → Table → ℕ → Option Array → M (Table × CallbackAction)
  destroy_handles order_type remove t id none = do action ← give_up order_type id; pure (t, action)
  destroy_handles order_type remove t id (some new) = do
    handles ← compact env (get_elem? t.nos) remove id t.handles t.count 0 0 new
    new_nos ← shorter t.count
    destroy_nos order_type t id handles new_nos

  -- What both interrupt branches do up to the delivery.
  unfoldable pub destroy_entry : OrderType → (ℕ → Call) → Table → ℕ → M (Table × CallbackAction)
  destroy_entry order_type remove t id = do
    new ← shorter t.count
    destroy_handles order_type remove t id new

  unfoldable pub finish : OrderType → ℕ → CallbackAction → M CallbackAction
  finish order_type id callback_cancel = pure callback_cancel
  finish order_type id callback_continue = do
    delivery_notification env success destroy order_type id
    pure callback_continue

  unfoldable pub destroy_interrupt_order : Order → M CallbackAction
  destroy_interrupt_order order = do
    table ← gets (λ s. s.ordered_interrupts)
    (table', action) ← destroy_entry interrupt remove_interrupt table order.id
    modify (λ s. record s { ordered_interrupts = table' })
    finish interrupt order.id action

  unfoldable pub destroy_data_interrupt_order : Order → M CallbackAction
  destroy_data_interrupt_order order = do
    table ← gets (λ s. s.ordered_data_interrupts)
    (table', action) ← destroy_entry data_interrupt remove_data_interrupt table order.id
    modify (λ s. record s { ordered_data_interrupts = table' })
    finish data_interrupt order.id action

  unfoldable pub destroy_by : OrderType → Order → M CallbackAction
  destroy_by interrupt order = destroy_interrupt_order order
  destroy_by data_interrupt order = destroy_data_interrupt_order order
  destroy_by (other_order n) order = pure callback_continue
  destroy_by _ order = destroy_segment_order order

  unfoldable pub handle_destroy_order : Order → M CallbackAction
  unfolding destroy_by
  handle_destroy_order order = destroy_by order.order_type order

  unfoldable pub obey : CommandType → Order → M CallbackAction
  obey create order = handle_create_order order
  obey destroy order = handle_destroy_order order
  obey (other_command n) order = ask env kill_main >> pure callback_continue

  unfoldable pub kill_unless : Bool → M (Unit {0})
  kill_unless fine = if fine then pure tt else (ask env kill_main >> pure tt)

  -- `content` is the order that stands there; `none` if there is no memory that holds one, as SISCI
  -- may pass with an error. A read of such data, or behind the end of it, is undefined.
  unfoldable pub order_callback :
      (content : Option Order) (length : ℕ) (status_ok : Bool) → M CallbackAction
  unfolding obey kill_unless
  order_callback content length status_ok = do
    kill_unless status_ok
    kill_unless (length == 24)
    order ← or_fault (read_order content length)
    obey order.command_type order

  -- `for (i = 0; i < count; i++) SEOE(remove, handles[i])`, with the rounds that are left.
  unfoldable pub remove_all : (ℕ → Call) → Array → (rounds i : ℕ) → M (Unit {0})
  remove_all remove handles zero i = pure tt
  remove_all remove handles (suc r) i = do
    h ← or_fault (get_elem? handles i)
    seoe env (remove h)
    remove_all remove handles r (suc i)

  -- `main` after block_for_termination_signal.
  unfoldable pub shut_down : M (Unit {0})
  shut_down = do
    segments ← gets (λ s. s.ordered_segments)
    count ← gets (λ s. s.ordered_segments_count)
    remove_all remove_segment segments count 0
    ints ← gets (λ s. s.ordered_interrupts)
    remove_all remove_interrupt ints.handles ints.count 0
    data_ints ← gets (λ s. s.ordered_data_interrupts)
    remove_all remove_data_interrupt data_ints.handles data_ints.count 0
    seoe env disconnect_delivery
    seoe env remove_order_interrupt
    seoe env close
    ask env terminate
    pure tt
