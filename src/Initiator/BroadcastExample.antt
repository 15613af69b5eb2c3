-- ===== src/Initiator/BroadcastExample.antt =====
-- The broadcast experiments with three peers.
use sisci_perf.Common.{ℕ, ◌≡◌, refl, true, false, Bool, Option, none, some, [], ◌==◌, arith}
use sisci_perf.Protocol.{
  OrderType, IsKnown, broadcast_segment, CommandType, create, destroy, other_command, success,
  Order, delivery_of,
}
use sisci_perf.Initiator.Service.{Answer, delivers, silent, astray, PeerService, Serves}
use sisci_perf.Initiator.Host.{Host}
use sisci_perf.Initiator.Joining.{GoesByGroup}
use sisci_perf.Initiator.Ends.{Safe, Meets}
use sisci_perf.Initiator.Scaled.{run_broadcast_pio_experiment}
use sisci_perf.Initiator.Broadcast.{RestoresAll, run_broadcast_pio_experiment-RestoresAll}
use sisci_perf.Initiator.RunExamples.{Numbered, smooth}

-- A peer in which everything goes by the id of the order.
abbrev destroyed_if : Bool → Order → Answer (Option ℕ)
destroyed_if true o = delivers none (delivery_of success destroy o.order_type o.id 4)
destroyed_if false o = astray

abbrev destroyed_from : Option ℕ → Order → Answer (Option ℕ)
destroyed_from none o = astray
destroyed_from (some n) o = destroyed_if (o.id == n) o

abbrev carried_out : CommandType → Order → Option ℕ → Answer (Option ℕ)
carried_out create o s = delivers (some o.id) (delivery_of success create o.order_type o.id 4)
carried_out destroy o s = destroyed_from s o
carried_out (other_command n) o s = silent

abbrev grouped : PeerService
grouped = record {
  State = Option ℕ;
  carry_out = λ o s. carried_out o.command_type o s;
  Idle = λ s. s ≡ none;
  Holding = λ t number s. s ≡ some number;
}

grouped-Serves : Serves grouped
grouped-Serves = record {
  creates = λ t size id s known idle. (some id, id, 4, refl, refl);
  destroys = λ t number size s known holds.
      let same : (number == number) ≡ true = ground arith in (none, 4, rw (holds, same), refl);
  breaks = λ t number other size s known holds apart.
      let differ : (other == number) ≡ false = ground arith in rw (holds, differ);
}

grouped-GoesByGroup :
    (t : OrderType) (known : IsKnown t) → GoesByGroup grouped grouped-Serves t known
unfolding grouped-Serves
grouped-GoesByGroup t known size id s idle = refl

abbrev three_idle : Host (Option ℕ)
three_idle = record { peers = λ q. none; inbox = []; held = []; lost = []; log = [] }

broadcast_example :
    Meets smooth Safe
      (run_broadcast_pio_experiment grouped smooth 9 3)
      three_idle
      (λ _ w'. RestoresAll grouped 3 three_idle w')
broadcast_example =
    run_broadcast_pio_experiment-RestoresAll grouped smooth grouped-Serves 3 9 three_idle
      (grouped-GoesByGroup broadcast_segment tt) (λ q lt. refl) refl

-- Peers that give the number of the group to whatever they make, whatever it is ordered as.
abbrev three_ones : Host Numbered
three_ones = record {
  peers = λ q. record { own = 1; made = none };
  inbox = [];
  held = [];
  lost = [];
  log = [];
}
