-- ===== src/Initiator/SystemExamples.antt =====
-- A whole run of the initiator with a peer of peer/peer_main.c.
use sisci_perf.Common.{ℕ, ◌≡◌, refl, true, false, some, List, [], ◌∷◌, arith}
use sisci_perf.Protocol.{data_interrupt, create, protocol, Delivery, delivery_of}
use sisci_perf.Peer.Callback.{start-Refines}
use sisci_perf.Peer.Boot.{Parsed}
use sisci_perf.Peer.Serving.{peer_service, peer_service-Serves}
use sisci_perf.Peer.Examples.{ready, ready-Obliging}
use sisci_perf.Initiator.Ends.{Meets}
use sisci_perf.Initiator.Whole.{run_main_dead}
use sisci_perf.Initiator.Arguments.{Accepted, read_arguments-Accepted}
use sisci_perf.Initiator.Undefined.{AsksClosed}
use sisci_perf.Initiator.Main.{
  Switches, Surroundings, greets, read_arguments, read_peers, read_ids, read_number, run_main,
}
use sisci_perf.Initiator.RunExamples.{smooth, at_start}

abbrev greeting : ℕ → Delivery
greeting node = delivery_of protocol create data_interrupt 5 node

-- strtol, on strings of one digit.
abbrev digit : List ℕ → Parsed
digit [] = record { negative = false; value = 0; has_rest = false }
digit (c ∷ s) = record { negative = false; value = c; has_rest = false }

abbrev arguments : List (List ℕ)
arguments = (112 ∷ []) ∷ (1 ∷ []) ∷ (4 ∷ []) ∷ []

one_peer : read_arguments digit arguments ≡ some (1, 4 ∷ [])
unfolding read_arguments read_peers read_ids read_number
one_peer = refl

arguments_example : Accepted 1 (4 ∷ [])
arguments_example = read_arguments-Accepted digit arguments 1 (4 ∷ []) one_peer

abbrev sound_switches : Switches
sound_switches = record {
  pio = true;
  dma = true;
  scale_up = false;
  scale_out = false;
  scale_up_out = false;
  var_size = true;
  var_size_dma = true;
  dma_vec = true;
  int = true;
  data_int = true;
  ping_pong_pio = true;
  broadcast_pio = false;
  var_size_segments = true;
  interleaved_dmas = false;
  broadcast_dma = false;
}

abbrev shipped_switches : Switches
shipped_switches = record sound_switches {
  scale_up = true;
  scale_out = true;
  scale_up_out = true;
  broadcast_pio = true;
  interleaved_dmas = true;
}

abbrev surroundings : Surroundings
surroundings = record { veclen = 256; broadcast_node = 0; stack₁ = 1; stack₂ = 2 }

greeting-greets : greets (greeting 4) ≡ true
unfolding greets
greeting-greets = refl

shipped_example :
    Meets smooth AsksClosed
      (run_main (peer_service ready) smooth shipped_switches surroundings 1)
      (at_start (greeting 4 ∷ []))
      (λ _ _. ⊥)
shipped_example =
    run_main_dead (peer_service ready) smooth (peer_service-Serves ready ready-Obliging)
      shipped_switches surroundings (at_start (greeting 4 ∷ [])) refl (omega arith)
      (start-Refines ready 8) (greeting-greets, tt)
