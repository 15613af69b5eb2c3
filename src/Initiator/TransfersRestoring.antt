-- ===== src/Initiator/TransfersRestoring.antt =====
-- What the experiments of `Transfers` leave behind.
use sisci_perf.Common.{
  ℕ, suc, ◌+◌, ◌*◌, ◌/◌, ◌^◌, ◌<◌, ◌≡◌, ◌⊎◌, refl, sym, subst, List, [], ◌∷◌, arith,
}
use sisci_perf.Protocol.{global_dma_segment}
use sisci_perf.Initiator.Service.{PeerService, Serves}
use sisci_perf.Initiator.DmaVec.{first_size, fill_lem, fits, room_for}
use sisci_perf.Initiator.World.{Resource, dma_queue, local_segment, remote_segment, local_map}
use sisci_perf.Initiator.Host.{Adapter, Host, doubling}
use sisci_perf.Initiator.Ends.{Safe, Meets, return_meets, seoe_each_meets, calls}
use sisci_perf.Initiator.Rules.{Restores, restored, held_there, created, destroyed}
use sisci_perf.Initiator.Repeats.{Logged, quietly, doubling_meets, doubling_quietly}
use sisci_perf.Initiator.Segments.{segment_size, max_segment_size}
use sisci_perf.Initiator.Transfers.{
  measure_dma, run_single_segment_experiment_dma, run_var_size_experiment_dma, measure_vector,
  measure_vectors, run_experiment_dma_vec,
}

-- The handles of a transfer.
abbrev ready_for : List Resource → List Resource
ready_for rest = dma_queue 0 ∷ local_map 0 ∷ local_segment 0 ∷ remote_segment 0 ∷ rest

-- A transfer size that DIS_DMA_MAX_VECLEN divides, or that is too small for that to matter.
abbrev pub Suits : (veclen transfer_size : ℕ) → Type 0
Suits veclen t = (t / veclen * veclen ≡ t) ⊎ (t / veclen < 1024)

module _ (P : PeerService) {adapter : Adapter} where
  measure_dma_meets :
      (size : ℕ) (rest : List Resource) {w : Host P.State}
      → w.held ≡ ready_for rest
      → Meets adapter Safe (measure_dma P adapter size) w (λ _ w'. Logged w w')
  unfolding measure_dma
  measure_dma_meets size rest open' = seoe_each_meets P _ (rw open') (_, refl)

  measure_vector_meets :
      (veclen t el : ℕ) (rest : List Resource) {w : Host P.State}
      → 0 < el
      → t < veclen * el + el
      → w.held ≡ ready_for rest
      → Meets adapter Safe (measure_vector P adapter veclen t el) w (λ _ w'. Logged w w')
  unfolding measure_vector
  measure_vector_meets veclen t el rest {w} pos room open' =
      let fit = fits veclen t el pos room in
      let vec = fill_lem veclen (t / el) 0 el 0 (omega arith) (omega arith) in
      rw vec.1 (
        quietly P _ _ (record { ends = (w.log, refl) })
          (λ log. seoe_each_meets P _ (rw open') (_, refl)))

  measure_vectors_meets :
      (veclen t : ℕ) (rest : List Resource) {w : Host P.State}
      → 0 < veclen
      → Suits veclen t
      → w.held ≡ ready_for rest
      → Meets adapter Safe (measure_vectors P adapter veclen t) w (λ _ w'. Logged w w')
  unfolding measure_vectors
  measure_vectors_meets veclen t rest {w} pos suits open' =
      let room = room_for veclen t pos suits in
      doubling_meets P (λ el. t < veclen * el + el) (λ _. Logged w) (suc t) t (first_size veclen t)
        _
        (λ r el w' le pos' is l.
          subst (λ v. Meets adapter Safe (measure_vector P adapter veclen t el) v (λ _. Logged w))
            (sym l.1) (measure_vector_meets veclen t el rest pos' is open'))
        (λ el lt. grind arith) room.0 (omega arith) (let p = room.0 in omega arith) room.1 0 w
        (w.log, refl)

module _ (P : PeerService) (adapter : Adapter) (serves : Serves P) where
  pub run_single_segment_experiment_dma-Restores :
      (p : ℕ) (w : Host P.State)
      → P.Idle (w.peers p)
      → w.inbox ≡ []
      → Meets adapter Safe
          (run_single_segment_experiment_dma P adapter p)
          w
          (λ _ w'. Restores P p w w')
  unfolding run_single_segment_experiment_dma
  run_single_segment_experiment_dma-Restores p w idle empty = calls P _ _ refl (
      created P serves p global_dma_segment segment_size 0 _ tt empty idle
        (λ s number node log holds. calls P _ _ refl (
          quietly P _ _ (measure_dma_meets P 1 w.held refl) (λ log'. calls P _ _ refl (
            destroyed P serves p global_dma_segment _ number _ tt refl (held_there P p _ holds)
              (λ s' node' log'' idle'. return_meets (restored P p w s s' idle')))))))

  pub run_var_size_experiment_dma-Restores :
      (p : ℕ) (w : Host P.State)
      → P.Idle (w.peers p)
      → w.inbox ≡ []
      → Meets adapter Safe (run_var_size_experiment_dma P adapter p) w (λ _ w'. Restores P p w w')
  unfolding run_var_size_experiment_dma
  run_var_size_experiment_dma-Restores p w idle empty = calls P _ _ refl (
      created P serves p global_dma_segment max_segment_size 0 _ tt empty idle
        (λ s number node log holds. calls P _ _ refl (
          quietly P _ _
            (doubling_quietly P _ _ _ _ _ (λ n l. measure_dma_meets P n w.held refl) (omega arith)
              (omega arith) (omega arith))
            (λ log'. calls P _ _ refl (
              destroyed P serves p global_dma_segment _ number _ tt refl (held_there P p _ holds)
                (λ s' node' log'' idle'. return_meets (restored P p w s s' idle')))))))

  -- The size after k rounds.
  abbrev IsTransferSize : ℕ → Type 0
  IsTransferSize n = (k : ℕ) × (n ≡ 1024 * 2 ^ k)

  twice : (n : ℕ) → IsTransferSize n → IsTransferSize (n * 2)
  twice n is =
      let e = is.1 in let p : 2 ^ suc is.0 ≡ 2 * 2 ^ is.0 = omega arith in (suc is.0, omega arith)

  -- Whatever SISCI answers, dma_vec.c, sent to an idle peer that serves, with no delivery
  -- waiting, uses no handle that is not open, never writes behind the end of dmaVec if each
  -- transfer size that it doubles to is a multiple of DIS_DMA_MAX_VECLEN or too small for that
  -- to matter, and ends: it is stopped by a call that fails, or it returns with the peer idle
  -- again, the other peers untouched, no delivery left and nothing more held than before.
  pub run_experiment_dma_vec-Restores :
      (veclen p : ℕ) (w : Host P.State)
      → 0 < veclen
      → ((k : ℕ) → Suits veclen (1024 * 2 ^ k))
      → P.Idle (w.peers p)
      → w.inbox ≡ []
      → Meets adapter Safe (run_experiment_dma_vec P adapter veclen p) w (λ _ w'. Restores P p w w')
  unfolding run_experiment_dma_vec
  run_experiment_dma_vec-Restores veclen p w pos suits idle empty = calls P _ _ refl (
      created P serves p global_dma_segment max_segment_size 0 _ tt empty idle
        (λ s number node log holds. calls P _ _ refl (
          quietly P _ _ (sweep _ refl) (λ log'. calls P _ _ refl (
            destroyed P serves p global_dma_segment _ number _ tt refl (held_there P p _ holds)
              (λ s' node' log'' idle'. return_meets (restored P p w s s' idle')))))))
    where
      sweep :
          (v : Host P.State)
          → v.held ≡ ready_for w.held
          → Meets adapter Safe
              (doubling P adapter
                (suc max_segment_size)
                max_segment_size
                1024
                (measure_vectors P adapter veclen))
              v
              (λ _ v'. Logged v v')
      sweep v open' =
          doubling_meets P IsTransferSize (λ _. Logged v) _ _ _ _
            (λ r t v' le pos' is l.
              subst (λ u. Meets adapter Safe (measure_vectors P adapter veclen t) u (λ _. Logged v))
                (sym l.1)
                (measure_vectors_meets P veclen t w.held pos
                  (subst (Suits veclen) (sym is.1) (suits is.0)) open'))
            twice (omega arith) (omega arith) (omega arith) (0, refl) 0 v (v.log, refl)
