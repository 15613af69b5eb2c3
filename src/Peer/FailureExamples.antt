-- ===== src/Peer/FailureExamples.antt =====
-- The same peer on adapters on which something fails, and orders that it should not be sent.
use sisci_perf.Common.{
  leb, ℕ, suc, ◌≡◌, refl, Bool, true, false, not, some, List, [], ◌∷◌, arith, ◌||◌, if◌then◌else◌,
  length,
}
use sisci_perf.Protocol.{interrupt, segment, create, destroy}
use sisci_perf.Peer.World.{Environment, Call, allocate, Peer, done, fault, callback_cancel, start}
use sisci_perf.Peer.Orders.{handle_create_order, handle_destroy_order, shut_down}
use sisci_perf.Peer.Faults.{handle_destroy_order_unknown}
use sisci_perf.Peer.Shortage.{given_up, handle_destroy_order_no_memory}
use sisci_perf.Peer.Underflow.{Wraps, handle_destroy_order_empty}
use sisci_perf.Peer.Boot.{
  Parsed, in_range, read_initiator, boot, attempts, is_connect, Willing, Boots, boot-Boots,
}
use sisci_perf.Peer.Unchecked.{
  handle_create_order_no_memory, is_allocate, destroy_interrupt_halfway,
}
use sisci_perf.Peer.Examples.{
  answered, ready, ready-Obliging, two_interrupts, holding, holding-Refines, order_for,
}

unknown_example : handle_destroy_order ready (order_for destroy interrupt 4) two_interrupts ≡ fault
unknown_example =
    handle_destroy_order_unknown ready ready-Obliging (order_for destroy interrupt 4) two_interrupts
      holding tt (holding-Refines ready) (omega arith) (omega arith) refl

empty_example :
    Wraps ready ready-Obliging segment
      (order_for destroy segment 6)
      (handle_destroy_order ready (order_for destroy segment 6) two_interrupts)
      two_interrupts
empty_example =
    handle_destroy_order_empty ready ready-Obliging (order_for destroy segment 6) two_interrupts tt
      refl

-- An adapter on which all is well but for malloc and reallocarray.
abbrev short_of_memory : Environment
short_of_memory = record {
  reply = λ log c. record {
    ok = not (is_allocate c);
    value = answered c (length log);
    number = suc (length log);
  };
  local_segment_id = λ h. h;
}

no_memory_example :
    handle_destroy_order short_of_memory (order_for destroy interrupt 3) two_interrupts
    ≡ done callback_cancel (record two_interrupts {
      log = given_up short_of_memory (λ log d. refl) interrupt 3 (allocate 1 ∷ []);
    })
no_memory_example =
    handle_destroy_order_no_memory short_of_memory (λ log d. refl) (order_for destroy interrupt 3)
      two_interrupts tt refl (omega arith) refl

create_no_memory_example :
    handle_create_order short_of_memory (order_for create interrupt 0) two_interrupts ≡ fault
create_no_memory_example =
    handle_create_order_no_memory short_of_memory (order_for create interrupt 0) two_interrupts tt
      refl (λ log. refl)

-- An adapter on which one allocation succeeds.
abbrev has_allocated : List Call → Bool
has_allocated [] = false
has_allocated (c ∷ log) = is_allocate c || has_allocated log

abbrev one_allocation : Environment
one_allocation = record {
  reply = λ log c. record {
    ok = not (is_allocate c) || not (has_allocated log);
    value = answered c (length log);
    number = suc (length log);
  };
  local_segment_id = λ h. h;
}

others_succeed :
    (log : List Call) (c : Call) → is_allocate c ≡ false → (one_allocation.reply log c).ok ≡ true
others_succeed log c e = rw e

halfway_example :
    (s' : Peer) × (handle_destroy_order one_allocation
        (order_for destroy interrupt 3)
        two_interrupts
      ≡ done callback_cancel s')
    × (shut_down one_allocation s' ≡ fault)
halfway_example =
    destroy_interrupt_halfway one_allocation others_succeed (order_for destroy interrupt 3)
      two_interrupts holding refl (holding-Refines one_allocation) (omega arith) (omega arith) refl
      refl refl

-- An adapter on which the initiator takes connections from the third attempt on.
abbrev late_initiator : Environment
late_initiator = record {
  reply = λ log c. record {
    ok = if is_connect c then leb 2 (attempts log) else true;
    value = answered c (length log);
    number = suc (length log);
  };
  local_segment_id = λ h. h;
}

late_initiator-Willing : Willing late_initiator 2
late_initiator-Willing = record { others = λ log c e. rw e; connects = λ log. refl }

-- strtol, on strings that stand for 8.
abbrev eight : List ℕ → Parsed
eight s = record { negative = false; value = 8; has_rest = false }

abbrev arguments : List (List ℕ)
arguments = (112 ∷ []) ∷ (56 ∷ []) ∷ []

eight_read : read_initiator eight arguments ≡ some 8
unfolding read_initiator in_range
eight_read = refl

boot_example :
    Boots late_initiator 2 late_initiator-Willing 8
      (boot late_initiator eight 3 arguments (start 0))
boot_example =
    boot-Boots late_initiator 2 late_initiator-Willing eight 3 arguments 8 0 eight_read
      (omega arith)
