-- ===== src/Initiator/RunExamples.antt =====
-- The experiments of the initiator on concrete peers and a concrete adapter.
use sisci_perf.Common.{
  ℕ, ◌*◌, ◌^◌, ◌≡◌, ◌≢◌, refl, inl, Bool, true, false, Option, none, some, List, [], ◌==◌,
  if◌then◌else◌, arith,
}
use sisci_perf.Protocol.{
  CommandType, create, destroy, other_command, success, Order, Delivery, delivery_of,
}
use sisci_perf.Peer.World.{start}
use sisci_perf.Peer.Callback.{start-Refines}
use sisci_perf.Peer.Serving.{peer_service, peer_service-Serves}
use sisci_perf.Peer.Examples.{ready, ready-Obliging}
use sisci_perf.Initiator.Service.{Answer, delivers, silent, astray, PeerService, Serves}
use sisci_perf.Initiator.Host.{
  sequence_ok, Adapter, Host, Outcome, returned, put, seoe_each, ordered,
}
use sisci_perf.Initiator.Ends.{Safe, Meets}
use sisci_perf.Initiator.Rules.{Restores}
use sisci_perf.Initiator.TransfersRestoring.{Suits, run_experiment_dma_vec-Restores}
use sisci_perf.Initiator.BroadcastDma.{run_broadcast_dma_experiment}
use sisci_perf.Initiator.BroadcastDmaEnds.{run_broadcast_dma_experiment_breaks}
use sisci_perf.Initiator.Undefined.{
  AsksClosed, FirstGone, run_scale_out_segment_experiment_pio_dead,
  run_single_segment_experiment_interleaved_dma_breaks,
}
use sisci_perf.Initiator.Transfers.{run_experiment_dma_vec}
use sisci_perf.Initiator.Signals.{run_experiment_interrupt}
use sisci_perf.Initiator.Scaled.{
  run_scale_out_segment_experiment_pio, run_single_segment_experiment_interleaved_dma,
}

-- A peer that gives one number to whatever it makes.
pub record Numbered : Type 0 where
  pub own : ℕ
  pub made : Option ℕ

abbrev destroyed_if : Bool → Order → Numbered → Answer Numbered
destroyed_if true o s =
    delivers (record s { made = none }) (delivery_of success destroy o.order_type o.id 4)
destroyed_if false o s = astray

abbrev destroyed_from : Option ℕ → Order → Numbered → Answer Numbered
destroyed_from none o s = astray
destroyed_from (some n) o s = destroyed_if (o.id == n) o s

abbrev carried_out : CommandType → Order → Numbered → Answer Numbered
carried_out create o s =
    delivers (record s { made = some s.own }) (delivery_of success create o.order_type s.own 4)
carried_out destroy o s = destroyed_from s.made o s
carried_out (other_command n) o s = silent

abbrev pub numbered : PeerService
numbered = record {
  State = Numbered;
  carry_out = λ o s. carried_out o.command_type o s;
  Idle = λ s. s.made ≡ none;
  Holding = λ t number s. s.made ≡ some number;
}

pub same_number : (n : ℕ) → (n == n) ≡ true
same_number n = ground arith

pub other_number : (m n : ℕ) → m ≢ n → (m == n) ≡ false
other_number m n ne = ground arith

unfoldable pub numbered-Serves : Serves numbered
numbered-Serves = record {
  creates = λ t size id s known idle. (record s { made = some s.own }, s.own, 4, refl, refl);
  destroys = λ t number size s known holds.
      let same = same_number number in (record s { made = none }, 4, rw (holds, same), refl);
  breaks = λ t number other size s known holds apart.
      let differ = other_number other number apart in rw (holds, differ);
}

-- An adapter on which nothing fails.
abbrev pub smooth : Adapter
smooth = record {
  succeeds = λ log c. true;
  status = λ attempt log. sequence_ok;
  remote_id = λ i log. 0;
  patience = 3;
}

-- Peers that have just started.
abbrev pub at_start : List Delivery → Host (peer_service ready).State
at_start inbox = record { peers = λ q. start 8; inbox = inbox; held = []; lost = []; log = [] }

-- Peers whose numbers are 7, 8, ….
abbrev two_numbered : Host Numbered
two_numbered = record {
  peers = λ q. record { own = if q == 0 then 7 else 8; made = none };
  inbox = [];
  held = [];
  lost = [];
  log = [];
}

abbrev has_returned : {S : Type 0} → Outcome S (Unit {0}) → Bool
has_returned (returned a w) = true
has_returned _ = false

-- The interrupt experiment runs to its end.
interrupt_returns : has_returned (run_experiment_interrupt numbered smooth 0 0 two_numbered) ≡ true
unfolding run_experiment_interrupt ordered seoe_each put
interrupt_returns = refl

serving_example : Serves (peer_service ready)
serving_example = peer_service-Serves ready ready-Obliging

-- Vectors of at most 256 elements suit every transfer size.
pub Suits-256 : (k : ℕ) → Suits 256 (1024 * 2 ^ k)
Suits-256 k = inl (grind arith)

vector_example :
    Meets smooth Safe
      (run_experiment_dma_vec (peer_service ready) smooth 256 0)
      (at_start [])
      (λ _ w'. Restores (peer_service ready) 0 (at_start []) w')
vector_example =
    run_experiment_dma_vec-Restores (peer_service ready) smooth
      (peer_service-Serves ready ready-Obliging) 256 0 (at_start []) (omega arith) Suits-256
      (start-Refines ready 8) refl

scale_out_example :
    Meets smooth AsksClosed
      (run_scale_out_segment_experiment_pio (peer_service ready) smooth 2)
      (at_start [])
      (λ _ _. ⊥)
scale_out_example =
    run_scale_out_segment_experiment_pio_dead (peer_service ready) smooth
      (peer_service-Serves ready ready-Obliging) 1 (at_start []) (start-Refines ready 8) refl refl

abbrev seven : ℕ
seven = 7

seven_is_not_eight : seven ≢ 8
seven_is_not_eight e = absurd (omega arith)

interleaved_example :
    Meets smooth FirstGone
      (run_single_segment_experiment_interleaved_dma numbered smooth 2)
      two_numbered
      (λ _ _. ⊥)
unfolding numbered-Serves
interleaved_example =
    run_single_segment_experiment_interleaved_dma_breaks numbered smooth numbered-Serves 0
      two_numbered refl refl refl seven_is_not_eight

seven_is_not_one : seven ≢ 1
seven_is_not_one e = absurd (omega arith)

broadcast_dma_breaks_example :
    Meets smooth FirstGone
      (run_broadcast_dma_experiment numbered smooth 9 2)
      two_numbered
      (λ _ _. ⊥)
unfolding numbered-Serves
broadcast_dma_breaks_example =
    run_broadcast_dma_experiment_breaks numbered smooth numbered-Serves 9 1 two_numbered refl
      (λ q pos lt. refl) refl seven_is_not_one
