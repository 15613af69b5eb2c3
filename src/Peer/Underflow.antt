-- ===== src/Peer/Underflow.antt =====
-- What handle_destroy_order of peer/peer_main.c does when the table is empty.
use sisci_perf.Common.{ℕ, ◌-◌, ◌≡◌, refl, false, List, ◌∷◌, arith}
use sisci_perf.Memory.{fresh, get_elem?}
use sisci_perf.Protocol.{
  OrderType, segment, global_dma_segment, ping_pong_segment, broadcast_segment,
  global_dma_broadcast_segment, other_order, IsKnown, interrupt, data_interrupt, destroy, success,
  Order, uint_mod,
}
use sisci_perf.Peer.World.{
  Environment, Obliging, Peer, Table, Call, allocate, remove_segment, remove_interrupt,
  remove_data_interrupt, pthread_cancel, pthread_join, Run, done, CallbackAction, callback_continue,
  logged,
}
use sisci_perf.Peer.Tables.{compact_none, compact_nos_none}
use sisci_perf.Peer.Orders.{
  dec, is_ping_pong, segment_key, compact_segments, shorten_segments, destroy_segment_order,
  destroy_interrupt_order, destroy_data_interrupt_order, destroy_by, handle_destroy_order,
  destroy_nos, destroy_handles, destroy_entry, finish,
}
use sisci_perf.Peer.Registry.{deliveries, sent, announced, notification-ok}
use sisci_perf.Peer.Shortage.{table_count}
use sisci_perf.Peer.Destroy.{stop_plain, stop_thread}
use sisci_perf.Peer.Entries.{shorter-ok}

module _ (env : Environment) (obliging : Obliging env) where
  -- What is left of an empty table of a type.
  abbrev pub Wraps : OrderType → Order → Run CallbackAction → Peer → Type 0
  Wraps t o run s =
      (s' : Peer) × (run ≡ done callback_continue s')
      × (table_count t s' ≡ uint_mod - 1)
      × (deliveries s'.log ≡ sent env obliging success destroy t o.id ∷ deliveries s.log)

  destroy_entry_empty :
      (kind : OrderType) (remove : ℕ → Call) (t : Table) (id : ℕ) (s : Peer)
      → t.count ≡ 0
      → (t' : Table) × (destroy_entry env kind remove t id s
          ≡ done
              (t', callback_continue)
              (record s { log = allocate (dec t.count) ∷ allocate (dec t.count) ∷ s.log }))
        × (t'.count ≡ uint_mod - 1)
  unfolding destroy_entry destroy_handles destroy_nos
  destroy_entry_empty kind remove t id s z =
      let a = fresh (dec t.count) in
      let l : List Call = allocate (dec t.count) ∷ s.log in
      (
        record { handles = a; nos = a; count = dec t.count },
        rw (
          shorter-ok env obliging t.count s,
          compact_none env (get_elem? t.nos) remove id t.handles t.count a (record s { log = l }) z,
          shorter-ok env obliging t.count (record s { log = l }),
          compact_nos_none id t.nos t.count a (record s { log = allocate (dec t.count) ∷ l }) z,
        ),
        omega arith,
      )

  shorten_segments_empty :
      (t : OrderType) (o : Order) (s : Peer)
      → o.order_type ≡ t
      → s.ordered_segments_count ≡ 0
      → (s' : Peer) × (shorten_segments env o s ≡ done callback_continue s')
        × (s'.ordered_segments_count ≡ uint_mod - 1)
        × (deliveries s'.log ≡ sent env obliging success destroy t o.id ∷ deliveries s.log)
  unfolding shorten_segments compact_segments
  shorten_segments_empty t o s e z =
      let n = s.ordered_segments_count in
      let a = fresh (dec n) in
      let s₁ = logged (allocate (dec n)) s in
      (
        announced env obliging success destroy t o.id
            (record s₁ { ordered_segments = a; ordered_segments_count = dec n }),
        rw (
          shorter-ok env obliging n s,
          compact_none env (segment_key env s.ordered_segments) remove_segment o.id
              s.ordered_segments n a s₁ z,
          notification-ok env obliging success destroy o.order_type o.id,
          e,
        ),
        omega arith,
        refl,
      )

  plain_empty :
      (t : OrderType) (o : Order) (s : Peer)
      → o.order_type ≡ t
      → is_ping_pong t ≡ false
      → s.ordered_segments_count ≡ 0
      → (s' : Peer) × (destroy_segment_order env o s ≡ done callback_continue s')
        × (s'.ordered_segments_count ≡ uint_mod - 1)
        × (deliveries s'.log ≡ sent env obliging success destroy t o.id ∷ deliveries s.log)
  unfolding destroy_segment_order
  plain_empty t o s e plain z =
      let c = shorten_segments_empty t o s e z in
      (c.0, rw (stop_plain env obliging o.order_type s (rw e plain)) c.1, c.2, c.3)

  destroy_by_empty :
      (t : OrderType) (o : Order) (s : Peer)
      → o.order_type ≡ t
      → IsKnown t
      → table_count t s ≡ 0
      → Wraps t o (destroy_by env t o s) s
  unfolding destroy_by destroy_interrupt_order destroy_data_interrupt_order destroy_segment_order
      finish
  destroy_by_empty interrupt o s e k z =
      let t = s.ordered_interrupts in
      let d = destroy_entry_empty interrupt remove_interrupt t o.id s z in
      let l : List Call = allocate (dec t.count) ∷ allocate (dec t.count) ∷ s.log in
      (
        announced env obliging success destroy interrupt o.id
            (record s { ordered_interrupts = d.0; log = l }),
        rw (d.1, notification-ok env obliging),
        d.2,
        refl,
      )
  destroy_by_empty data_interrupt o s e k z =
      let t = s.ordered_data_interrupts in
      let d = destroy_entry_empty data_interrupt remove_data_interrupt t o.id s z in
      let l : List Call = allocate (dec t.count) ∷ allocate (dec t.count) ∷ s.log in
      (
        announced env obliging success destroy data_interrupt o.id
            (record s { ordered_data_interrupts = d.0; log = l }),
        rw (d.1, notification-ok env obliging),
        d.2,
        refl,
      )
  destroy_by_empty ping_pong_segment o s e k z =
      let thread = s.ping_pong_thread in
      let l : List Call = pthread_join thread ∷ pthread_cancel thread ∷ s.log in
      let c =
        shorten_segments_empty ping_pong_segment o (record s { ping_pong_thread = 0; log = l }) e
          z in
      (c.0, rw (stop_thread env obliging o.order_type s e) c.1, c.2, c.3)
  destroy_by_empty (other_order n) o s e k z = absurd k
  destroy_by_empty segment o s e k z = plain_empty _ o s e refl z
  destroy_by_empty global_dma_segment o s e k z = plain_empty _ o s e refl z
  destroy_by_empty broadcast_segment o s e k z = plain_empty _ o s e refl z
  destroy_by_empty global_dma_broadcast_segment o s e k z = plain_empty _ o s e refl z

  -- An order to destroy from an empty table is answered as a success, though nothing was there, and
  -- leaves the table's count at the largest `unsigned int`.
  pub handle_destroy_order_empty :
      (o : Order) (s : Peer)
      → IsKnown o.order_type
      → table_count o.order_type s ≡ 0
      → Wraps o.order_type o (handle_destroy_order env o s) s
  unfolding handle_destroy_order
  handle_destroy_order_empty o s = destroy_by_empty o.order_type o s refl
