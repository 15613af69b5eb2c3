-- ===== src/Peer/Create.antt =====
-- Theorems on handle_create_order.
use sisci_perf.Common.{
  ℕ, suc, ◌<◌, ◌≡◌, refl, false, List, [], ◌∷◌, ◌++◌, arith, length, ◌∙◌, length-append, sym,
  length-map, map-append,
}
use sisci_perf.Protocol.{
  OrderType, segment, global_dma_segment, ping_pong_segment, broadcast_segment,
  global_dma_broadcast_segment, other_order, IsKnown, interrupt, data_interrupt, create, success,
  Order, uint_mod,
}
use sisci_perf.Peer.World.{
  Environment, Obliging, Peer, Call, create_segment, prepare_segment, set_segment_available,
  pthread_create, allocate, create_interrupt, create_data_interrupt, Run, done, CallbackAction,
  callback_continue,
}
use sisci_perf.Peer.Tables.{Entry, handles, seoe-ok}
use sisci_perf.Peer.Orders.{
  inc, create_interrupt_order, create_data_interrupt_order, create_segment_order, create_flags,
  is_ping_pong, create_by, launch, start_ping_pong, handle_create_order,
}
use sisci_perf.Peer.Registry.{
  Registry, Refines, registered, entries, deliveries, sent, announced, notification-ok,
}
use sisci_perf.Peer.Entries.{answered, realloc-ok, pushed, create_entry-ok}

module _ (env : Environment) (obliging : Obliging env) where
  -- What a run that creates an entry has done: it goes on, the registry has the entry last in the
  -- table of that type, and one delivery has been sent, a success with the entry's number.
  abbrev pub Creates : OrderType → Run CallbackAction → Peer → Registry → Type 0
  Creates t run s r =
      (s' : Peer) × (e : Entry) × (run ≡ done callback_continue s')
      × Refines env s' (registered t e s'.ping_pong_thread r)
      × (deliveries s'.log ≡ sent env obliging success create t e.no ∷ deliveries s.log)

  create_interrupt_order-ok :
      (order : Order) (s : Peer) (r : Registry)
      → Refines env s r
      → suc (length r.interrupts) < uint_mod
      → Creates interrupt (create_interrupt_order env order s) s r
  unfolding create_interrupt_order
  create_interrupt_order-ok order s r is le =
      let n = inc s.ordered_interrupts.count in
      let log = create_interrupt order.id ∷ allocate n ∷ allocate n ∷ s.log in
      let c =
        create_entry-ok env obliging create_interrupt s.ordered_interrupts order.id r.interrupts s
          is.interrupts_are le in
      let e = answered (env.reply (allocate n ∷ allocate n ∷ s.log) (create_interrupt order.id)) in
      (
        announced env obliging success create interrupt e.no
            (record s { ordered_interrupts = c.0; log = log }),
        e,
        rw (c.1, notification-ok env obliging),
        record {
          segments_hold = is.segments_hold;
          segments_ids = is.segments_ids;
          segments_counted = is.segments_counted;
          data_interrupts_are = is.data_interrupts_are;
          interrupts_are = c.2;
          thread_is = is.thread_is;
        },
        refl,
      )

  create_data_interrupt_order-ok :
      (order : Order) (s : Peer) (r : Registry)
      → Refines env s r
      → suc (length r.data_interrupts) < uint_mod
      → Creates data_interrupt (create_data_interrupt_order env order s) s r
  unfolding create_data_interrupt_order
  create_data_interrupt_order-ok order s r is le =
      let n = inc s.ordered_data_interrupts.count in
      let log = create_data_interrupt order.id ∷ allocate n ∷ allocate n ∷ s.log in
      let c =
        create_entry-ok env obliging create_data_interrupt s.ordered_data_interrupts order.id
          r.data_interrupts s is.data_interrupts_are le in
      let e =
        answered (env.reply (allocate n ∷ allocate n ∷ s.log) (create_data_interrupt order.id)) in
      (
        announced env obliging success create data_interrupt e.no
            (record s { ordered_data_interrupts = c.0; log = log }),
        e,
        rw (c.1, notification-ok env obliging),
        record {
          segments_hold = is.segments_hold;
          segments_ids = is.segments_ids;
          segments_counted = is.segments_counted;
          interrupts_are = is.interrupts_are;
          data_interrupts_are = c.2;
          thread_is = is.thread_is;
        },
        refl,
      )

  -- The calls before the delivery, newest first.
  abbrev segment_calls : Order → ℕ → ℕ → List Call → List Call
  segment_calls order n handle log =
      set_segment_available handle
      ∷ prepare_segment handle
      ∷ create_segment order.id order.size (create_flags order.order_type)
      ∷ allocate n
      ∷ log

  -- The handle that SCICreateSegment gives.
  abbrev segment_handle : Order → Peer → ℕ
  segment_handle order s =
      (env.reply (allocate (inc s.ordered_segments_count) ∷ s.log)
        (create_segment order.id order.size (create_flags order.order_type))).value

  -- The state when the delivery has been sent.
  abbrev segment_announced : Order → Peer → Peer
  segment_announced order s =
      let h = segment_handle order s in
      announced env obliging success create order.order_type (env.local_segment_id h)
        (record s { log = segment_calls order (inc s.ordered_segments_count) h s.log })

  create_segment_order-ok :
      (order : Order) (s : Peer) (r : Registry) (thread : ℕ) (log : List Call)
      → Refines env s r
      → suc (length r.segments) < uint_mod
      → start_ping_pong env order.order_type (segment_handle order s) (segment_announced order s)
        ≡ done tt (record s { ping_pong_thread = thread; log = log })
      → let h = segment_handle order s in
        (s' : Peer) × (create_segment_order env order s ≡ done callback_continue s')
        × Refines env s' (record r {
          segments = r.segments ++ record { handle = h; no = env.local_segment_id h } ∷ [];
          thread = thread;
        })
        × (s'.log ≡ log)
        × (s'.ping_pong_thread ≡ thread)
  unfolding create_segment_order
  create_segment_order-ok order s r thread log is le st =
      let n = inc s.ordered_segments_count in
      let h = segment_handle order s in
      let b =
        pushed env obliging s.ordered_segments (handles r.segments) s.ordered_segments_count h
          is.segments_hold (is.segments_counted ∙ sym (length-map _ r.segments))
          (rw length-map le) in
      let l₁ : List Call = allocate n ∷ s.log in
      let c₁ = create_segment order.id order.size (create_flags order.order_type) in
      let l₂ : List Call = c₁ ∷ l₁ in
      let l₃ : List Call = prepare_segment h ∷ l₂ in
      (
        record s {
          ordered_segments = b.0;
          ordered_segments_count = n;
          ping_pong_thread = thread;
          log = log;
        },
        rw (
          realloc-ok env obliging s.ordered_segments n s,
          seoe-ok env c₁ (record s { log = l₁ }) (obliging.succeeds l₁ c₁),
          b.1,
          b.3,
          seoe-ok env (prepare_segment h) (record s { log = l₂ })
              (obliging.succeeds l₂ (prepare_segment h)),
          seoe-ok env (set_segment_available h) (record s { log = l₃ })
              (obliging.succeeds l₃ (set_segment_available h)),
          notification-ok env obliging,
          st,
        ),
        record {
          segments_hold = rw map-append b.2;
          segments_ids = simp (map-append, is.segments_ids);
          segments_counted = omega (
            arith,
            length-append r.segments (record { handle = h; no = env.local_segment_id h } ∷ []),
            is.segments_counted,
          );
          interrupts_are = is.interrupts_are;
          data_interrupts_are = is.data_interrupts_are;
          thread_is = refl;
        },
        refl,
        refl,
      )

  plain_segment-ok :
      (t : OrderType) (order : Order) (s : Peer) (r : Registry)
      → order.order_type ≡ t
      → Refines env s r
      → suc (length r.segments) < uint_mod
      → is_ping_pong t ≡ false
      → (s' : Peer) × (e : Entry) × (create_segment_order env order s ≡ done callback_continue s')
        × Refines env s' (record r { segments = r.segments ++ e ∷ [] })
        × (deliveries s'.log ≡ sent env obliging success create t e.no ∷ deliveries s.log)
  unfolding start_ping_pong
  plain_segment-ok t order s r e is le plain =
      let c =
        create_segment_order-ok order s r r.thread (segment_announced order s).log is le
          (rw (e, plain, is.thread_is)) in
      (c.0, _, c.1, c.2, rw (c.3, e))

  ping_pong-ok :
      (order : Order) (s : Peer) (r : Registry)
      → Refines env s r
      → suc (length r.segments) < uint_mod
      → order.order_type ≡ ping_pong_segment
      → s.ping_pong_thread ≡ 0
      → Creates ping_pong_segment (create_segment_order env order s) s r
  unfolding start_ping_pong launch
  ping_pong-ok order s r is le pp idle =
      let h = segment_handle order s in
      let call = pthread_create h s.initiator_id in
      let log = (segment_announced order s).log in
      let c =
        create_segment_order-ok order s r (env.reply log call).value (call ∷ log) is le
          (rw (pp, idle)) in
      (c.0, record { handle = h; no = env.local_segment_id h }, c.1, rw c.4 c.2, rw (c.3, pp))

  create_by-ok :
      (t : OrderType) (order : Order) (s : Peer) (r : Registry)
      → order.order_type ≡ t
      → IsKnown t
      → Refines env s r
      → suc (length (entries t r)) < uint_mod
      → (t ≡ ping_pong_segment → s.ping_pong_thread ≡ 0)
      → Creates t (create_by env t order s) s r
  unfolding create_by
  create_by-ok interrupt order s r e k is le pp = create_interrupt_order-ok order s r is le
  create_by-ok data_interrupt order s r e k is le pp =
      create_data_interrupt_order-ok order s r is le
  create_by-ok ping_pong_segment order s r e k is le pp = ping_pong-ok order s r is le e (pp refl)
  create_by-ok (other_order n) order s r e k is le pp = absurd k
  create_by-ok segment order s r e k is le pp = plain_segment-ok _ order s r e is le refl
  create_by-ok global_dma_segment order s r e k is le pp = plain_segment-ok _ order s r e is le refl
  create_by-ok broadcast_segment order s r e k is le pp = plain_segment-ok _ order s r e is le refl
  create_by-ok global_dma_broadcast_segment order s r e k is le pp =
      plain_segment-ok _ order s r e is le refl

  -- On an adapter that answers every call, an order to create is carried out on every branch of
  -- `handle_create_order`: whatever the registry holds, as long as the count does not wrap and no
  -- second ping-pong thread is asked for, the new entry stands last in the table of the order's
  -- type, every other table is as it was, and exactly one delivery is sent, a success that carries
  -- the number of the new entry.
  pub handle_create_order-Refines :
      (order : Order) (s : Peer) (r : Registry)
      → IsKnown order.order_type
      → Refines env s r
      → suc (length (entries order.order_type r)) < uint_mod
      → (order.order_type ≡ ping_pong_segment → s.ping_pong_thread ≡ 0)
      → Creates order.order_type (handle_create_order env order s) s r
  unfolding handle_create_order
  handle_create_order-Refines order s r = create_by-ok order.order_type order s r refl
