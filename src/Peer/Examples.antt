-- ===== src/Peer/Examples.antt =====
-- A peer of peer/peer_main.c with two interrupts, on concrete adapters.
use sisci_perf.Common.{
  ℕ, suc, ◌≡◌, refl, true, some, none, [], ◌∷◌, arith, ◌==◌, if◌then◌else◌, length,
}
use sisci_perf.Memory.{Array, null}
use sisci_perf.Protocol.{OrderType, interrupt, CommandType, create, destroy, Order}
use sisci_perf.Peer.World.{
  Environment, Obliging, Call, query_node_id, remove_interrupt, Peer, done, fault, start, close,
  terminate, remove_order_interrupt, disconnect_delivery,
}
use sisci_perf.Peer.Orders.{handle_create_order, handle_destroy_order, order_callback, shut_down}
use sisci_perf.Peer.Registry.{Registry, Refines, deliveries}
use sisci_perf.Peer.Create.{Creates, handle_create_order-Refines}
use sisci_perf.Peer.Destroy.{Destroys, handle_destroy_order-Refines}
use sisci_perf.Peer.Teardown.{shut_down-Refines}
use sisci_perf.Peer.Callback.{
  Obeys, obeyed-Obeys, order_callback-Obeys, Reached, boots, obeys, Reached-IsSound, empty,
  start-Refines,
}

-- Handles and numbers are new each time; node 4 is the local one.
abbrev pub answered : Call → ℕ → ℕ
answered query_node_id n = 4
answered c n = suc n

-- An adapter on which nothing fails.
abbrev pub ready : Environment
ready = record {
  reply = λ log c. record { ok = true; value = answered c (length log); number = suc (length log) };
  local_segment_id = λ h. h;
}

pub ready-Obliging : Obliging ready
ready-Obliging = record { succeeds = λ log c. refl; local_node = 4; node_id = λ log. refl }

-- Interrupt 3 has the handle 7, interrupt 5 the handle 9.
abbrev seven_nine : Array
seven_nine = record { cap = 2; cell = λ i. if i == 0 then some 7 else some 9 }

abbrev three_five : Array
three_five = record { cap = 2; cell = λ i. if i == 0 then some 3 else some 5 }

abbrev pub two_interrupts : Peer
two_interrupts = record {
  initiator_id = 8;
  ordered_segments = null;
  ordered_segments_count = 0;
  ordered_data_interrupts = record { handles = null; nos = null; count = 0 };
  ordered_interrupts = record { handles = seven_nine; nos = three_five; count = 2 };
  ping_pong_thread = 0;
  log = [];
}

abbrev pub holding : Registry
holding = record {
  segments = [];
  interrupts = record { handle = 7; no = 3 } ∷ record { handle = 9; no = 5 } ∷ [];
  data_interrupts = [];
  thread = 0;
}

pub holding-Refines : (env : Environment) → Refines env two_interrupts holding
holding-Refines env = record {
  segments_hold = tt;
  segments_ids = refl;
  segments_counted = refl;
  interrupts_are = record {
    handles_hold = (refl, (refl, tt));
    nos_hold = (refl, (refl, tt));
    counted = refl;
  };
  data_interrupts_are = record { handles_hold = tt; nos_hold = tt; counted = refl };
  thread_is = refl;
}

abbrev pub order_for : CommandType → OrderType → ℕ → Order
order_for c t id = record { order_type = t; command_type = c; size = 0; id = id }

handle_create_order_example :
    Creates ready ready-Obliging interrupt
      (handle_create_order ready (order_for create interrupt 0) two_interrupts)
      two_interrupts
      holding
handle_create_order_example =
    handle_create_order-Refines ready ready-Obliging (order_for create interrupt 0) two_interrupts
      holding tt (holding-Refines ready) (omega arith) (λ e. refl)

handle_destroy_order_example :
    Destroys ready ready-Obliging interrupt 3
      (handle_destroy_order ready (order_for destroy interrupt 3) two_interrupts)
      two_interrupts
      holding
handle_destroy_order_example =
    handle_destroy_order-Refines ready ready-Obliging (order_for destroy interrupt 3) two_interrupts
      holding tt (holding-Refines ready) (omega arith) refl

order_callback_example :
    Obeys ready ready-Obliging destroy
      (order_for destroy interrupt 5)
      (order_callback ready (some (order_for destroy interrupt 5)) 24 true two_interrupts)
      two_interrupts
      holding
    × (order_callback ready (some (order_for destroy interrupt 5)) 8 true two_interrupts ≡ fault)
    × (order_callback ready none 24 true two_interrupts ≡ fault)
order_callback_example =
    order_callback-Obeys ready ready-Obliging (order_for destroy interrupt 5)
      (some (order_for destroy interrupt 5)) 24 8 true two_interrupts holding (omega arith)
      (omega arith) (holding-Refines ready) (tt, omega arith, refl)

abbrev first_order : Order
first_order = order_for create interrupt 0

first_obeyed :
    Obeys ready ready-Obliging create first_order
      (order_callback ready (some first_order) 24 true (start 8))
      (start 8)
      empty
first_obeyed =
    obeyed-Obeys ready ready-Obliging first_order 24 true (start 8) empty (omega arith)
      (start-Refines ready 8) (tt, omega arith, λ e. refl)

after_first : Reached ready ready-Obliging 8 first_obeyed.0 1
after_first =
    obeys boots first_order 24 true empty (omega arith) (start-Refines ready 8)
      (tt, omega arith, λ e. refl) first_obeyed.3

Reached_example :
    (r : Registry) × Refines ready first_obeyed.0 r
    × (length (deliveries (first_obeyed.0).log) ≡ 1)
    × ((s' : Peer) × (shut_down ready first_obeyed.0 ≡ done tt s'))
Reached_example = Reached-IsSound ready ready-Obliging 8 1 first_obeyed.0 after_first

shut_down_example :
    shut_down ready two_interrupts
    ≡ done tt (record two_interrupts {
      log =
          terminate
          ∷ close
          ∷ remove_order_interrupt
          ∷ disconnect_delivery
          ∷ remove_interrupt 9
          ∷ remove_interrupt 7
          ∷ [];
    })
shut_down_example =
    shut_down-Refines ready ready-Obliging two_interrupts holding (holding-Refines ready)
