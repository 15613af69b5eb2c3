-- ===== src/Peer/Faults.antt =====
-- What the handlers of peer/peer_main.c do to orders that name nothing, and when memory is short.
use sisci_perf.Common.{ℕ, ◌<◌, ◌≡◌, refl, List, ◌∷◌, arith, length}
use sisci_perf.Memory.{fresh, get_elem?}
use sisci_perf.Protocol.{
  OrderType, segment, global_dma_segment, ping_pong_segment, broadcast_segment,
  global_dma_broadcast_segment, other_order, IsKnown, interrupt, data_interrupt, Order, uint_mod,
}
use sisci_perf.Peer.World.{
  Environment, Obliging, Peer, Table, Call, allocate, remove_segment, remove_interrupt,
  remove_data_interrupt, pthread_cancel, pthread_join, fault, logged,
}
use sisci_perf.Peer.Tables.{Entry, handles, compact_overflow-table}
use sisci_perf.Peer.Orders.{
  dec, segment_key, compact_segments, shorten_segments, destroy_segment_order,
  destroy_interrupt_order, destroy_data_interrupt_order, destroy_by, handle_destroy_order,
  destroy_handles, destroy_entry,
}
use sisci_perf.Peer.Registry.{
  Registry, TableIs, Refines, entries, count, count-kept, Reads-segment_key, Refines-stopped,
}
use sisci_perf.Peer.Destroy.{stop_plain, stop_thread}
use sisci_perf.Peer.Entries.{shorter-ok}

module _ (env : Environment) (obliging : Obliging env) where
  destroy_entry_unknown :
      (kind : OrderType) (remove : ℕ → Call) (t : Table) (id : ℕ) (es : List Entry) (s : Peer)
      → TableIs t es
      → length es < uint_mod
      → 0 < length es
      → count id es ≡ 0
      → destroy_entry env kind remove t id s ≡ fault
  unfolding destroy_entry destroy_handles
  destroy_entry_unknown kind remove t id es s is le some_entry zero_hits = rw (
    shorter-ok env obliging t.count s,
    compact_overflow-table env (get_elem? t.nos) remove id t.handles
        (λ log h. obliging.succeeds log (remove h)) es t.count (fresh (dec t.count))
        (logged (allocate (dec t.count)) s) is.counted is.nos_hold is.handles_hold
        (omega (arith, count-kept id es, is.counted)),
  )

  shorten_segments_unknown :
      (order : Order) (s : Peer) (r : Registry)
      → Refines env s r
      → length r.segments < uint_mod
      → 0 < length r.segments
      → count order.id r.segments ≡ 0
      → shorten_segments env order s ≡ fault
  unfolding shorten_segments compact_segments
  shorten_segments_unknown order s r is le some_entry zero_hits =
      let n = s.ordered_segments_count in
      rw (
        shorter-ok env obliging n s,
        compact_overflow-table env (segment_key env s.ordered_segments) remove_segment order.id
            s.ordered_segments (λ log h. obliging.succeeds log (remove_segment h)) r.segments n
            (fresh (dec n)) (logged (allocate (dec n)) s) is.segments_counted
            (rw is.segments_ids
              (Reads-segment_key env s.ordered_segments 0 (handles r.segments) is.segments_hold))
            is.segments_hold (omega (arith, count-kept order.id r.segments, is.segments_counted)),
      )

  destroy_by_unknown :
      (t : OrderType) (order : Order) (s : Peer) (r : Registry)
      → order.order_type ≡ t
      → IsKnown t
      → Refines env s r
      → length (entries t r) < uint_mod
      → 0 < length (entries t r)
      → count order.id (entries t r) ≡ 0
      → destroy_by env t order s ≡ fault
  unfolding destroy_by destroy_interrupt_order destroy_data_interrupt_order destroy_segment_order
  destroy_by_unknown interrupt order s r e k is le some_entry z = rw (
      destroy_entry_unknown interrupt remove_interrupt s.ordered_interrupts order.id r.interrupts s
        is.interrupts_are le some_entry z)
  destroy_by_unknown data_interrupt order s r e k is le some_entry z = rw (
      destroy_entry_unknown data_interrupt remove_data_interrupt s.ordered_data_interrupts order.id
        r.data_interrupts s is.data_interrupts_are le some_entry z)
  destroy_by_unknown ping_pong_segment order s r e k is le some_entry z = rw (
    stop_thread env obliging order.order_type s e,
    shorten_segments_unknown order
        (record s {
          ping_pong_thread = 0;
          log = pthread_join s.ping_pong_thread ∷ pthread_cancel s.ping_pong_thread ∷ s.log;
        })
        (record r { thread = 0 }) (Refines-stopped env s r _ is) le some_entry z,
  )
  destroy_by_unknown (other_order n) order s r e k is le some_entry z = absurd k
  destroy_by_unknown segment order s r e k is le some_entry z = rw (
    stop_plain env obliging order.order_type s (rw e),
    shorten_segments_unknown order s r is le some_entry z,
  )
  destroy_by_unknown global_dma_segment order s r e k is le some_entry z = rw (
    stop_plain env obliging order.order_type s (rw e),
    shorten_segments_unknown order s r is le some_entry z,
  )
  destroy_by_unknown broadcast_segment order s r e k is le some_entry z = rw (
    stop_plain env obliging order.order_type s (rw e),
    shorten_segments_unknown order s r is le some_entry z,
  )
  destroy_by_unknown global_dma_broadcast_segment order s r e k is le some_entry z = rw (
    stop_plain env obliging order.order_type s (rw e),
    shorten_segments_unknown order s r is le some_entry z,
  )

  -- An order to destroy with an id that no entry of a non-empty table goes by: the new array has
  -- one element less than the old one, all the old elements are copied, and the last copy is
  -- written behind its end, which is undefined behaviour. No call has failed.
  pub handle_destroy_order_unknown :
      (order : Order) (s : Peer) (r : Registry)
      → IsKnown order.order_type
      → Refines env s r
      → length (entries order.order_type r) < uint_mod
      → 0 < length (entries order.order_type r)
      → count order.id (entries order.order_type r) ≡ 0
      → handle_destroy_order env order s ≡ fault
  unfolding handle_destroy_order
  handle_destroy_order_unknown order s r = destroy_by_unknown order.order_type order s r refl
