-- ===== src/Initiator/Service.antt =====
-- What an initiator relies on in a peer: orders go in, deliveries come out. `Peer.Serving` shows that
-- the callback of peer/peer_main.c keeps to it.
use sisci_perf.Common.{ℕ, ◌≡◌, ◌≢◌}
use sisci_perf.Protocol.{
  OrderType, IsKnown, CommandType, create, destroy, success, Order, Delivery, delivery_of,
}

-- What becomes of an order: the peer sends a delivery; it sends none, or has exited; or its
-- behaviour is undefined.
pub data Answer (S : Type 0) : Type 0 where
  delivers : S → Delivery → Answer S
  silent : Answer S
  astray : Answer S

pub record PeerService : Type 1 where
  pub State : Type 0
  pub carry_out : Order → State → Answer State
  -- The peer holds nothing, or one thing of a type that goes by a number.
  pub Idle : State → Type 0
  pub Holding : OrderType → ℕ → State → Type 0

abbrev pub order_of : CommandType → OrderType → (size id : ℕ) → Order
order_of c t size id = record { order_type = t; command_type = c; size = size; id = id }

pub record Serves (P : PeerService) : Type 0 where
  pub creates :
      (t : OrderType) (size id : ℕ) (s : P.State)
      → IsKnown t
      → P.Idle s
      → (s' : P.State) × (number node : ℕ) × (P.carry_out (order_of create t size id) s
          ≡ delivers s' (delivery_of success create t number node))
        × P.Holding t number s'
  pub destroys :
      (t : OrderType) (number size : ℕ) (s : P.State)
      → IsKnown t
      → P.Holding t number s
      → (s' : P.State) × (node : ℕ) × (P.carry_out (order_of destroy t size number) s
          ≡ delivers s' (delivery_of success destroy t number node))
        × P.Idle s'
  -- A number that nothing goes by is not checked, and leads into undefined behaviour.
  pub breaks :
      (t : OrderType) (number other size : ℕ) (s : P.State)
      → IsKnown t
      → P.Holding t number s
      → other ≢ number
      → P.carry_out (order_of destroy t size other) s ≡ astray
