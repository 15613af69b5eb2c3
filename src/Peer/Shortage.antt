-- ===== src/Peer/Shortage.antt =====
-- What the handlers of peer/peer_main.c do when malloc or reallocarray fails.
use sisci_perf.Common.{
  ℕ, ◌<◌, ◌≡◌, refl, true, false, none, some, List, ◌∷◌, arith, lt→ltb, if◌then◌else◌,
}
use sisci_perf.Memory.{fresh}
use sisci_perf.Protocol.{
  OrderType, segment, global_dma_segment, ping_pong_segment, broadcast_segment,
  global_dma_broadcast_segment, other_order, IsKnown, interrupt, data_interrupt, destroy, failure,
  Order, delivery_of, Delivery,
}
use sisci_perf.Peer.World.{
  Environment, Peer, Call, allocate, query_node_id, trigger_data_interrupt, kill_main, done,
  callback_cancel, logged, delivery_notification,
}
use sisci_perf.Peer.Orders.{
  dec, is_ping_pong, compact_segments, shorten_segments, destroy_segment_order,
  destroy_interrupt_order, destroy_data_interrupt_order, destroy_by, handle_destroy_order,
  destroy_handles, destroy_entry, shorter, give_up, finish, stop_ping_pong,
}

-- How many entries the table of an order type has, as the peer counts them.
abbrev pub table_count : OrderType → Peer → ℕ
table_count interrupt s = s.ordered_interrupts.count
table_count data_interrupt s = s.ordered_data_interrupts.count
table_count _ s = s.ordered_segments_count

-- The type that a failure is reported under.
abbrev pub table_kind : OrderType → OrderType
table_kind interrupt = interrupt
table_kind data_interrupt = data_interrupt
table_kind _ = segment

-- Deliveries get through, whatever else fails.
abbrev pub Notifies : Environment → Type 0
Notifies env =
    (log : List Call) (d : Delivery) → (env.reply log (trigger_data_interrupt d)).ok ≡ true

pub shorter_works :
    (env : Environment) (n : ℕ) (s : Peer)
    → (env.reply s.log (allocate (dec n))).ok ≡ true
    → shorter env n s ≡ done (some (fresh (dec n))) (logged (allocate (dec n)) s)
unfolding shorter
shorter_works env n s e = rw e

module _ (env : Environment) (notifies : Notifies env) where
  -- lib/print_node_id.c: the node's id, or 0 where it cannot be had.
  abbrev pub own_node : List Call → ℕ
  own_node log = let r = env.reply log query_node_id in if r.ok then r.value else 0

  -- The calls of `give_up`.
  abbrev pub given_up : OrderType → ℕ → List Call → List Call
  given_up t id log =
      kill_main
      ∷ trigger_data_interrupt (delivery_of failure destroy t id (own_node log))
      ∷ query_node_id
      ∷ log

  pub give_up_lem :
      (t : OrderType) (id : ℕ) (s : Peer)
      → give_up env t id s ≡ done callback_cancel (record s { log = given_up t id s.log })
  unfolding give_up delivery_notification
  give_up_lem t id s =
      ground (
        arith,
        notifies (query_node_id ∷ s.log) (delivery_of failure destroy t id (own_node s.log)),
      )

  pub shorter_fails :
      (n : ℕ) (s : Peer)
      → (env.reply s.log (allocate (dec n))).ok ≡ false
      → 1 < n
      → shorter env n s ≡ done none (logged (allocate (dec n)) s)
  unfolding shorter
  shorter_fails n s e lt = rw (e, lt→ltb 1 n lt)

  destroy_by_no_memory :
      (t : OrderType) (order : Order) (s : Peer)
      → order.order_type ≡ t
      → IsKnown t
      → is_ping_pong t ≡ false
      → 1 < table_count t s
      → (env.reply s.log (allocate (dec (table_count t s)))).ok ≡ false
      → destroy_by env t order s
        ≡ done callback_cancel (record s {
          log = given_up (table_kind t) order.id (allocate (dec (table_count t s)) ∷ s.log);
        })
  unfolding destroy_by destroy_interrupt_order destroy_data_interrupt_order destroy_segment_order
      destroy_entry destroy_handles finish shorten_segments compact_segments stop_ping_pong
  destroy_by_no_memory interrupt order s t k pp lt e =
      rw (shorter_fails s.ordered_interrupts.count s e lt, give_up_lem)
  destroy_by_no_memory data_interrupt order s t k pp lt e =
      rw (shorter_fails s.ordered_data_interrupts.count s e lt, give_up_lem)
  destroy_by_no_memory ping_pong_segment order s t k pp lt e = cc
  destroy_by_no_memory (other_order n) order s t k pp lt e = absurd k
  destroy_by_no_memory segment order s t k pp lt e =
      rw (t, shorter_fails s.ordered_segments_count s e lt, give_up_lem)
  destroy_by_no_memory global_dma_segment order s t k pp lt e =
      rw (t, shorter_fails s.ordered_segments_count s e lt, give_up_lem)
  destroy_by_no_memory broadcast_segment order s t k pp lt e =
      rw (t, shorter_fails s.ordered_segments_count s e lt, give_up_lem)
  destroy_by_no_memory global_dma_broadcast_segment order s t k pp lt e =
      rw (t, shorter_fails s.ordered_segments_count s e lt, give_up_lem)

  -- If malloc fails where an order to destroy wants the shorter array of a table with two entries
  -- or more, every table stays as it is, and the peer reports a failure with the order's id, tells
  -- its main thread to terminate, and cancels the callback. The failure is reported under the type
  -- of the table, so that of every kind of segment as one of a plain segment. (A ping-pong segment,
  -- whose thread goes first, is left out.)
  pub handle_destroy_order_no_memory :
      (order : Order) (s : Peer)
      → IsKnown order.order_type
      → is_ping_pong order.order_type ≡ false
      → 1 < table_count order.order_type s
      → (env.reply s.log (allocate (dec (table_count order.order_type s)))).ok ≡ false
      → handle_destroy_order env order s
        ≡ done callback_cancel (record s {
          log =
              given_up
                (table_kind order.order_type)
                order.id
                (allocate (dec (table_count order.order_type s)) ∷ s.log);
        })
  unfolding handle_destroy_order
  handle_destroy_order_no_memory order s = destroy_by_no_memory order.order_type order s refl
