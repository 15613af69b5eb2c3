-- ===== src/Protocol.antt =====
-- lib/protocol.h: the orders that the initiator sends to a peer, and the deliveries that come back.
-- An enumeration may hold a number that none of its names stands for, since orders come from
-- another node: `other_order` and `other_command` are those values. `message` of delivery_t is never
-- written, and is left out.
use sisci_perf.Common.{ℕ}

pub data OrderType : Type 0 where
  segment global_dma_segment interrupt data_interrupt : OrderType
  ping_pong_segment broadcast_segment global_dma_broadcast_segment : OrderType
  other_order : ℕ → OrderType

-- An order type that has a name.
abbrev pub IsKnown : OrderType → Type 0
IsKnown (other_order n) = ⊥
IsKnown _ = Unit {0}

pub data CommandType : Type 0 where
  create destroy : CommandType
  other_command : ℕ → CommandType

pub record Order : Type 0 where
  pub order_type : OrderType
  pub command_type : CommandType
  pub size : ℕ
  pub id : ℕ

pub data DeliveryStatus : Type 0 where
  protocol success failure : DeliveryStatus

pub record Delivery : Type 0 where
  pub status : DeliveryStatus
  pub delivery_type : OrderType
  pub command_type : CommandType
  pub id : ℕ
  pub node_id : ℕ

-- The deliveries that a peer fills in, field by field.
abbrev pub delivery_of : DeliveryStatus → CommandType → OrderType → ℕ → ℕ → Delivery
delivery_of status command_type delivery_type id node_id = record {
  status = status;
  delivery_type = delivery_type;
  command_type = command_type;
  id = id;
  node_id = node_id;
}

-- The largest value of an `unsigned int`, plus one.
abbrev pub uint_mod : ℕ
uint_mod = 4294967296
