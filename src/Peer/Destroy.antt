-- ===== src/Peer/Destroy.antt =====
-- Theorems on handle_destroy_order where no call fails.
use sisci_perf.Common.{ℕ, ◌<◌, ◌≡◌, refl, true, false, List, ◌∷◌, arith, length, ap}
use sisci_perf.Memory.{fresh}
use sisci_perf.Protocol.{
  OrderType, segment, global_dma_segment, ping_pong_segment, broadcast_segment,
  global_dma_broadcast_segment, other_order, IsKnown, interrupt, data_interrupt, destroy, success,
  Order, uint_mod,
}
use sisci_perf.Peer.World.{
  Environment, Obliging, Peer, Call, allocate, remove_segment, remove_interrupt,
  remove_data_interrupt, pthread_cancel, pthread_join, Run, done, CallbackAction, callback_continue,
}
use sisci_perf.Peer.Tables.{handles, kept, removals, compact-table}
use sisci_perf.Peer.Orders.{
  dec, is_ping_pong, segment_key, compact_segments, shorten_segments, destroy_segment_order,
  destroy_interrupt_order, destroy_data_interrupt_order, cancel_thread, join_thread, stop_ping_pong,
  finish, destroy_by, handle_destroy_order,
}
use sisci_perf.Peer.Registry.{
  Registry, Refines, entries, deliveries, sent, announced, notification-ok, count, count-kept,
  remover, unregistered, takedowns, takedowns-removals, deliveries-removals, kept-ids,
  Refines-stopped, Reads-segment_key,
}
use sisci_perf.Peer.Entries.{shorter-ok, destroy_entry-ok}

module _ (env : Environment) (obliging : Obliging env) where
  -- What a run that destroys an entry has done: it goes on, the registry has lost the entries that
  -- go by the number, SISCI has been told to remove just those, and one delivery has been sent.
  abbrev pub Destroys : OrderType → ℕ → Run CallbackAction → Peer → Registry → Type 0
  Destroys t id run s r =
      (s' : Peer) × (run ≡ done callback_continue s')
      × Refines env s' (unregistered t id r)
      × (takedowns s'.log ≡ removals (remover t) id (entries t r) (takedowns s.log))
      × (deliveries s'.log ≡ sent env obliging success destroy t id ∷ deliveries s.log)

  destroy_interrupt_order-ok :
      (order : Order) (s : Peer) (r : Registry)
      → Refines env s r
      → length r.interrupts < uint_mod
      → count order.id r.interrupts ≡ 1
      → Destroys interrupt order.id (destroy_interrupt_order env order s) s r
  unfolding destroy_interrupt_order finish
  destroy_interrupt_order-ok order s r is le one =
      let d =
        destroy_entry-ok env obliging interrupt remove_interrupt s.ordered_interrupts order.id
          r.interrupts s is.interrupts_are le one in
      let n = dec s.ordered_interrupts.count in
      let log : List Call =
        allocate n ∷ removals remove_interrupt order.id r.interrupts (allocate n ∷ s.log) in
      (
        announced env obliging success destroy interrupt order.id
            (record s { ordered_interrupts = d.0; log = log }),
        rw (d.1, notification-ok env obliging),
        record {
          segments_hold = is.segments_hold;
          segments_ids = is.segments_ids;
          segments_counted = is.segments_counted;
          interrupts_are = d.2;
          data_interrupts_are = is.data_interrupts_are;
          thread_is = is.thread_is;
        },
        takedowns-removals interrupt order.id r.interrupts (allocate n ∷ s.log),
        ap (λ l. sent env obliging success destroy interrupt order.id ∷ l)
            (deliveries-removals interrupt order.id r.interrupts (allocate n ∷ s.log)),
      )

  destroy_data_interrupt_order-ok :
      (order : Order) (s : Peer) (r : Registry)
      → Refines env s r
      → length r.data_interrupts < uint_mod
      → count order.id r.data_interrupts ≡ 1
      → Destroys data_interrupt order.id (destroy_data_interrupt_order env order s) s r
  unfolding destroy_data_interrupt_order finish
  destroy_data_interrupt_order-ok order s r is le one =
      let d =
        destroy_entry-ok env obliging data_interrupt remove_data_interrupt s.ordered_data_interrupts
          order.id r.data_interrupts s is.data_interrupts_are le one in
      let n = dec s.ordered_data_interrupts.count in
      let log : List Call =
        allocate n
        ∷ removals remove_data_interrupt order.id r.data_interrupts (allocate n ∷ s.log) in
      (
        announced env obliging success destroy data_interrupt order.id
            (record s { ordered_data_interrupts = d.0; log = log }),
        rw (d.1, notification-ok env obliging),
        record {
          segments_hold = is.segments_hold;
          segments_ids = is.segments_ids;
          segments_counted = is.segments_counted;
          interrupts_are = is.interrupts_are;
          data_interrupts_are = d.2;
          thread_is = is.thread_is;
        },
        takedowns-removals data_interrupt order.id r.data_interrupts (allocate n ∷ s.log),
        ap (λ l. sent env obliging success destroy data_interrupt order.id ∷ l)
            (deliveries-removals data_interrupt order.id r.data_interrupts (allocate n ∷ s.log)),
      )

  shorten_segments-ok :
      (t : OrderType) (order : Order) (s : Peer) (r : Registry)
      → order.order_type ≡ t
      → Refines env s r
      → length r.segments < uint_mod
      → count order.id r.segments ≡ 1
      → (s' : Peer) × (shorten_segments env order s ≡ done callback_continue s')
        × Refines env s' (record r { segments = kept order.id r.segments })
        × (takedowns s'.log ≡ removals remove_segment order.id r.segments (takedowns s.log))
        × (deliveries s'.log ≡ sent env obliging success destroy t order.id ∷ deliveries s.log)
  unfolding shorten_segments compact_segments
  shorten_segments-ok t order s r e is le one =
      let n = dec s.ordered_segments_count in
      let log : List Call = allocate n ∷ s.log in
      let c =
        compact-table env (segment_key env s.ordered_segments) remove_segment order.id
          s.ordered_segments (λ log h. obliging.succeeds log (remove_segment h)) r.segments
          s.ordered_segments_count (fresh n) (record s { log = log }) is.segments_counted
          (rw is.segments_ids
            (Reads-segment_key env s.ordered_segments 0 (handles r.segments) is.segments_hold))
          is.segments_hold (omega (arith, count-kept order.id r.segments, is.segments_counted)) in
      (
        announced env obliging success destroy t order.id (record s {
          ordered_segments = c.0;
          ordered_segments_count = n;
          log = removals remove_segment order.id r.segments log;
        }),
        rw (
          shorter-ok env obliging s.ordered_segments_count s,
          compact_segments,
          c.1,
          notification-ok env obliging success destroy order.order_type order.id,
          e,
        ),
        record {
          segments_hold = c.2;
          segments_ids = kept-ids env.local_segment_id order.id r.segments is.segments_ids;
          segments_counted = omega (arith, count-kept order.id r.segments, is.segments_counted);
          interrupts_are = is.interrupts_are;
          data_interrupts_are = is.data_interrupts_are;
          thread_is = is.thread_is;
        },
        takedowns-removals segment order.id r.segments log,
        ap (λ l. sent env obliging success destroy t order.id ∷ l)
            (deliveries-removals segment order.id r.segments log),
      )

  pub stop_plain :
      (t : OrderType) (s : Peer) → is_ping_pong t ≡ false → stop_ping_pong env t s ≡ done true s
  unfolding stop_ping_pong
  stop_plain t s plain = rw plain

  -- The thread is cancelled and joined.
  pub stop_thread :
      (t : OrderType) (s : Peer)
      → t ≡ ping_pong_segment
      → stop_ping_pong env t s
        ≡ done true (record s {
          ping_pong_thread = 0;
          log = pthread_join s.ping_pong_thread ∷ pthread_cancel s.ping_pong_thread ∷ s.log;
        })
  unfolding stop_ping_pong cancel_thread join_thread
  stop_thread t s e = rw (
    e,
    obliging.succeeds s.log (pthread_cancel s.ping_pong_thread),
    obliging.succeeds (pthread_cancel s.ping_pong_thread ∷ s.log) (pthread_join s.ping_pong_thread),
  )

  destroy_segment_order-ok :
      (t : OrderType) (order : Order) (s : Peer) (r : Registry)
      → order.order_type ≡ t
      → is_ping_pong t ≡ false
      → Refines env s r
      → length r.segments < uint_mod
      → count order.id r.segments ≡ 1
      → (s' : Peer) × (destroy_segment_order env order s ≡ done callback_continue s')
        × Refines env s' (record r { segments = kept order.id r.segments })
        × (takedowns s'.log ≡ removals remove_segment order.id r.segments (takedowns s.log))
        × (deliveries s'.log ≡ sent env obliging success destroy t order.id ∷ deliveries s.log)
  unfolding destroy_segment_order
  destroy_segment_order-ok t order s r e plain is le one =
      let c = shorten_segments-ok t order s r e is le one in
      (c.0, rw (stop_plain order.order_type s (rw e plain)) c.1, c.2, c.3, c.4)

  destroy_ping_pong-ok :
      (order : Order) (s : Peer) (r : Registry)
      → order.order_type ≡ ping_pong_segment
      → Refines env s r
      → length r.segments < uint_mod
      → count order.id r.segments ≡ 1
      → Destroys ping_pong_segment order.id (destroy_segment_order env order s) s r
  unfolding destroy_segment_order
  destroy_ping_pong-ok order s r e is le one =
      let thread = s.ping_pong_thread in
      let l₁ : List Call = pthread_cancel thread ∷ s.log in
      let l₂ : List Call = pthread_join thread ∷ l₁ in
      let c =
        shorten_segments-ok ping_pong_segment order (record s { ping_pong_thread = 0; log = l₂ })
          (record r { thread = 0 }) e (Refines-stopped env s r l₂ is) le one in
      (c.0, rw (stop_thread order.order_type s e) c.1, c.2, c.3, c.4)

  destroy_by-ok :
      (t : OrderType) (order : Order) (s : Peer) (r : Registry)
      → order.order_type ≡ t
      → IsKnown t
      → Refines env s r
      → length (entries t r) < uint_mod
      → count order.id (entries t r) ≡ 1
      → Destroys t order.id (destroy_by env t order s) s r
  unfolding destroy_by
  destroy_by-ok interrupt order s r e k is le one = destroy_interrupt_order-ok order s r is le one
  destroy_by-ok data_interrupt order s r e k is le one =
      destroy_data_interrupt_order-ok order s r is le one
  destroy_by-ok ping_pong_segment order s r e k is le one =
      destroy_ping_pong-ok order s r e is le one
  destroy_by-ok (other_order n) order s r e k is le one = absurd k
  destroy_by-ok segment order s r e k is le one =
      destroy_segment_order-ok _ order s r e refl is le one
  destroy_by-ok global_dma_segment order s r e k is le one =
      destroy_segment_order-ok _ order s r e refl is le one
  destroy_by-ok broadcast_segment order s r e k is le one =
      destroy_segment_order-ok _ order s r e refl is le one
  destroy_by-ok global_dma_broadcast_segment order s r e k is le one =
      destroy_segment_order-ok _ order s r e refl is le one

  -- Where no call fails, an order to destroy is carried out on every branch of
  -- `handle_destroy_order`: if exactly one entry of the table goes by the order's id, that entry is
  -- gone and the others stand in their order, the other tables are as they were, SISCI has been
  -- told to remove exactly the handle of that entry, and one delivery is sent, a success with the
  -- order's type and id. A ping-pong segment's thread is joined and forgotten.
  pub handle_destroy_order-Refines :
      (order : Order) (s : Peer) (r : Registry)
      → IsKnown order.order_type
      → Refines env s r
      → length (entries order.order_type r) < uint_mod
      → count order.id (entries order.order_type r) ≡ 1
      → Destroys order.order_type order.id (handle_destroy_order env order s) s r
  unfolding handle_destroy_order
  handle_destroy_order-Refines order s r = destroy_by-ok order.order_type order s r refl
