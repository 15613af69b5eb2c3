-- ===== src/Initiator/Chosen.antt =====
-- The experiments that initiator/initiator_main.c runs, one after the other.
use sisci_perf.Common.{
  ℕ, zero, suc, ◌<◌, ◌≡◌, refl, true, false, List, [], ◌∷◌, ◌++◌, arith, ◌^◌, ◌*◌, ◌-◌,
}
use sisci_perf.Initiator.Service.{PeerService, Serves}
use sisci_perf.Initiator.World.{Resource, remote_segment, hold_all}
use sisci_perf.Initiator.Host.{
  Adapter, Host, Outcome, Program, returned, stopped, unfinished, undefined, after,
}
use sisci_perf.Initiator.Ends.{Ends, Meets, raise, bind_meets}
use sisci_perf.Initiator.Repeats.{never}
use sisci_perf.Initiator.Restoring.{
  leaked, run_single_segment_experiment_pio-Restores, run_var_size_experiment_pio-Restores,
  run_var_size_segments_experiment-Restores,
}
use sisci_perf.Initiator.TransfersRestoring.{
  Suits, run_single_segment_experiment_dma-Restores, run_var_size_experiment_dma-Restores,
  run_experiment_dma_vec-Restores,
}
use sisci_perf.Initiator.SignalsRestoring.{
  run_experiment_interrupt-Restores, run_experiment_data_interrupt-Restores,
  run_ping_pong_experiment_pio-Restores,
}
use sisci_perf.Initiator.Undefined.{AsksClosed, run_scale_up_segment_experiment_pio_dead}
use sisci_perf.Initiator.Main.{
  Switches, Surroundings, first_peer, handles_for, left, scale_up_peer, enter, when, scale_up_both,
  run_experiments,
}
use sisci_perf.Initiator.Stages.{
  Stage, lost_if, Stage-then, enter-Stage, when-Stage, off-Stage, quiet_then, clean-Stage,
}

-- The experiments that do not come to use what is closed or not theirs.
pub record Sound (on : Switches) : Type 0 where
  pub no_scale_up : on.scale_up ≡ false
  pub no_scale_out : on.scale_out ≡ false
  pub no_scale_up_out : on.scale_up_out ≡ false
  pub no_broadcast : on.broadcast_pio ≡ false
  pub no_interleaved : on.interleaved_dmas ≡ false
  pub no_broadcast_dma : on.broadcast_dma ≡ false

-- What simple_pio.c and var_size_segments.c forget to close.
abbrev pub forgotten : Switches → List Resource
forgotten on = lost_if on.var_size_segments (leaked 13 []) ++ lost_if on.pio (remote_segment 0 ∷ [])

module _ (P : PeerService) (adapter : Adapter) (serves : Serves P) where
  pub run_experiments-Stage :
      (on : Switches) (s : Surroundings) (n : ℕ)
      → Sound on
      → 0 < s.veclen
      → ((k : ℕ) → Suits s.veclen (1024 * 2 ^ k))
      → Stage P adapter (run_experiments P adapter on s n) (forgotten on)
  unfolding run_experiments
  run_experiments-Stage on s n sound pos suits =
      Stage-then P adapter _ _ _ _
        (when-Stage P adapter on.pio _ _ (
          enter-Stage P adapter _ (remote_segment 0 ∷ [])
            (run_single_segment_experiment_pio-Restores P adapter serves 0)))
        (quiet_then P adapter
          (clean-Stage P adapter on.dma _
            (run_single_segment_experiment_dma-Restores P adapter serves 0))
          (quiet_then P adapter (off-Stage P adapter on.scale_up _ sound.no_scale_up) (
            quiet_then P adapter (off-Stage P adapter on.scale_out _ sound.no_scale_out) (
              quiet_then P adapter (off-Stage P adapter on.scale_up_out _ sound.no_scale_up_out) (
                quiet_then P adapter
                  (clean-Stage P adapter on.var_size _
                    (run_var_size_experiment_pio-Restores P adapter serves 0))
                  (quiet_then P adapter
                    (clean-Stage P adapter on.var_size_dma _
                      (run_var_size_experiment_dma-Restores P adapter serves 0))
                    (quiet_then P adapter
                      (clean-Stage P adapter on.dma_vec _ (λ v.
                        run_experiment_dma_vec-Restores P adapter serves s.veclen 0 v pos suits))
                      (quiet_then P adapter
                        (clean-Stage P adapter on.int _
                          (run_experiment_interrupt-Restores P adapter serves s.stack₁ 0))
                        (quiet_then P adapter
                          (clean-Stage P adapter on.data_int _
                            (run_experiment_data_interrupt-Restores P adapter serves s.stack₂ 0))
                          (quiet_then P adapter
                            (clean-Stage P adapter on.ping_pong_pio _
                              (run_ping_pong_experiment_pio-Restores P adapter serves 0))
                            (quiet_then P adapter
                              (off-Stage P adapter on.broadcast_pio _ sound.no_broadcast)
                              (Stage-then P adapter _ _ _ []
                                (when-Stage P adapter on.var_size_segments _ _ (
                                  enter-Stage P adapter _ (leaked 13 [])
                                    (run_var_size_segments_experiment-Restores P adapter serves 0)))
                                (quiet_then P adapter
                                  (off-Stage P adapter on.interleaved_dmas _ sound.no_interleaved)
                                  (off-Stage P adapter on.broadcast_dma _
                                    sound.no_broadcast_dma))))))))))))))

  -- An experiment that has no defined way to its end.
  never_left :
      (Q : Unit {0} → Host P.State → Type 0) (r : Outcome P.State (Unit {0}))
      → (k : Unit {0} → Program P.State (Unit {0})) → Ends adapter AsksClosed (λ _ _. ⊥) r
      → Ends adapter AsksClosed Q (after r k)
  never_left Q (returned a v) k is = absurd is
  never_left Q (stopped v) k is = is
  never_left Q (unfinished v) k is = is
  never_left Q (undefined r) k is = is

  scale_up_both_dead :
      (n : ℕ) (w : Host P.State)
      → 0 < n
      → P.Idle (w.peers 0)
      → w.inbox ≡ []
      → hold_all (handles_for (0 ∷ (n - 1) ∷ [])) w.held ≡ true
      → Meets adapter AsksClosed (scale_up_both P adapter n) w (λ _ _. ⊥)
  unfolding scale_up_both enter scale_up_peer
  scale_up_both_dead zero w pos idle empty there = absurd (omega arith)
  scale_up_both_dead (suc n) w pos idle empty there =
      let first : scale_up_peer (suc n) 0 ≡ 0 = ground arith in
      let idle' : P.Idle (w.peers (scale_up_peer (suc n) 0)) = rw first idle in
      let inner =
        run_scale_up_segment_experiment_pio_dead P adapter serves n (scale_up_peer (suc n))
          (record w { held = [] }) idle' empty refl in
      never P _ _ (record { ends = rw there (never_left _ _ (left P adapter w) inner.ends) })

  -- With the experiment of scale_up_pio.c switched on, the experiments have no defined way
  -- to their end.
  pub run_experiments_dead :
      (on : Switches) (s : Surroundings) (n : ℕ) (w : Host P.State)
      → on.scale_up ≡ true
      → 0 < n
      → P.Idle (w.peers 0)
      → w.inbox ≡ []
      → hold_all (handles_for first_peer) w.held ≡ true
      → hold_all (handles_for (0 ∷ (n - 1) ∷ [])) w.held ≡ true
      → Meets adapter AsksClosed (run_experiments P adapter on s n) w (λ _ _. ⊥)
  unfolding run_experiments when
  run_experiments_dead on s n w scale_up pos idle empty there both =
      bind_meets
        (raise (
          when-Stage P adapter on.pio _ _
            (enter-Stage P adapter _ (remote_segment 0 ∷ [])
              (run_single_segment_experiment_pio-Restores P adapter serves 0))
            w idle empty there))
        (λ a v p.
          bind_meets
            (raise (
              clean-Stage P adapter on.dma _
                (run_single_segment_experiment_dma-Restores P adapter serves 0) v p.idle p.none_left
                (rw p.same_held there)))
            (λ b u q. never P _ _ (
              rw scale_up (
                scale_up_both_dead n u pos q.idle q.none_left
                  (rw (q.same_held, p.same_held) both)))))
