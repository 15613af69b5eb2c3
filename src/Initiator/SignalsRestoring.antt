-- ===== src/Initiator/SignalsRestoring.antt =====
-- What the experiments of `Signals` leave behind.
use sisci_perf.Common.{ℕ, ◌≡◌, refl, []}
use sisci_perf.Protocol.{interrupt, data_interrupt, ping_pong_segment}
use sisci_perf.Initiator.Service.{PeerService, Serves}
use sisci_perf.Initiator.Host.{Adapter, Host}
use sisci_perf.Initiator.Ends.{Safe, Meets, return_meets, seoe_each_meets, calls}
use sisci_perf.Initiator.Rules.{Restores, restored, held_there, created, destroyed}
use sisci_perf.Initiator.Segments.{segment_size}
use sisci_perf.Initiator.Signals.{
  run_experiment_interrupt, run_experiment_data_interrupt, run_ping_pong_experiment_pio,
}

module _ (P : PeerService) (adapter : Adapter) (serves : Serves P) where
  pub run_experiment_interrupt-Restores :
      (stack p : ℕ) (w : Host P.State)
      → P.Idle (w.peers p)
      → w.inbox ≡ []
      → Meets adapter Safe
          (run_experiment_interrupt P adapter stack p)
          w
          (λ _ w'. Restores P p w w')
  unfolding run_experiment_interrupt
  run_experiment_interrupt-Restores stack p w idle empty = calls P _ _ refl (
      created P serves p interrupt stack 0 _ tt empty idle (λ s number node log holds.
        calls P _ _ refl (
          destroyed P serves p interrupt stack number _ tt refl (held_there P p _ holds)
            (λ s' node' log' idle'. return_meets (restored P p w s s' idle')))))

  pub run_experiment_data_interrupt-Restores :
      (stack p : ℕ) (w : Host P.State)
      → P.Idle (w.peers p)
      → w.inbox ≡ []
      → Meets adapter Safe
          (run_experiment_data_interrupt P adapter stack p)
          w
          (λ _ w'. Restores P p w w')
  unfolding run_experiment_data_interrupt
  run_experiment_data_interrupt-Restores stack p w idle empty = calls P _ _ refl (
      created P serves p data_interrupt stack 0 _ tt empty idle (λ s number node log holds.
        calls P _ _ refl (
          destroyed P serves p data_interrupt stack number _ tt refl (held_there P p _ holds)
            (λ s' node' log' idle'. return_meets (restored P p w s s' idle')))))

  pub run_ping_pong_experiment_pio-Restores :
      (p : ℕ) (w : Host P.State)
      → P.Idle (w.peers p)
      → w.inbox ≡ []
      → Meets adapter Safe (run_ping_pong_experiment_pio P adapter p) w (λ _ w'. Restores P p w w')
  unfolding run_ping_pong_experiment_pio
  run_ping_pong_experiment_pio-Restores p w idle empty = calls P _ _ refl (
      created P serves p ping_pong_segment segment_size 0 _ tt empty idle
        (λ s number node log holds. calls P _ _ refl (
          destroyed P serves p ping_pong_segment segment_size number _ tt refl
            (held_there P p _ holds)
            (λ s' node' log' idle'. seoe_each_meets P _ refl (restored P p w s s' idle')))))
