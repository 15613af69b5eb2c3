-- ===== src/Initiator/Undefined.antt =====
-- Where the experiments of `Scaled` leave what the code or a peer defines.
use sisci_perf.Common.{ℕ, suc, ◌≡◌, ◌≢◌, refl, sym, ◌∙◌, subst, false, List, [], ◌∷◌, arith, ltb}
use sisci_perf.Protocol.{segment, global_dma_segment, create, success, Delivery, delivery_of}
use sisci_perf.Initiator.Service.{PeerService, Serves}
use sisci_perf.Initiator.World.{
  Resource, remote_segment, remote_map, map_sequence, local_data, dma_queue, local_map,
  local_segment, Action, set_timer, holds,
}
use sisci_perf.Initiator.Host.{
  Adapter, Host, Mishap, bad_id, peer_gone, Program, ◌>>=◌, put, performed,
}
use sisci_perf.Initiator.Ends.{Meets, bind_meets, return_meets, ==_self, seoe_each_meets, calls}
use sisci_perf.Initiator.Rules.{created, created_as, broken}
use sisci_perf.Initiator.Repeats.{dead, never, counting_first, counting_once}
use sisci_perf.Initiator.Segments.{segment_size}
use sisci_perf.Initiator.Scaled.{
  max_broadcast_segment_size, destroy_segment_of, create_segment_of, scale_up_round,
  run_scale_up_segment_experiment_pio, create_sequenced, destroy_sequenced, measure_scaled,
  scale_out_round, run_scale_out_segment_experiment_pio, set_up_interleaved, tear_down_interleaved,
  run_single_segment_experiment_interleaved_dma,
}

-- The first segment, closed, is asked for its id.
abbrev pub AsksClosed : Mishap → Type 0
AsksClosed r = r ≡ bad_id 0

-- The first peer answers no more.
abbrev pub FirstGone : Mishap → Type 0
FirstGone r = r ≡ peer_gone 0

module _ (P : PeerService) (adapter : Adapter) (serves : Serves P) where
  destroy_segment_dead :
      (peer size : ℕ) (w : Host P.State)
      → (rest : List Resource) → w.held ≡ remote_map 0 ∷ remote_segment 0 ∷ rest
      → holds (remote_segment 0) rest ≡ false
      → Meets adapter AsksClosed (destroy_segment_of P adapter peer size 0) w (λ _ w'. ⊥)
  unfolding destroy_segment_of
  destroy_segment_dead peer size w rest open' closed =
      calls P _ _ (rw open') (dead P 0 _ (rw (open', closed)) refl)

  create_segment_lem :
      (peer size : ℕ) (w : Host P.State)
      → P.Idle (w.peers peer)
      → w.inbox ≡ []
      → Meets adapter AsksClosed
          (create_segment_of P adapter peer size 0)
          w
          (λ _ w'. w'.held ≡ remote_map 0 ∷ remote_segment 0 ∷ w.held)
  unfolding create_segment_of
  create_segment_lem peer size w idle empty =
      created P serves peer segment size 0 _ tt empty idle
        (λ s number node log holds'. seoe_each_meets P _ refl refl)

  scale_up_round_dead :
      (order_peer : ℕ → ℕ) (w : Host P.State)
      → P.Idle (w.peers (order_peer 0))
      → w.inbox ≡ []
      → holds (remote_segment 0) w.held ≡ false
      → Meets adapter AsksClosed (scale_up_round P adapter order_peer 1) w (λ _ w'. ⊥)
  unfolding scale_up_round
  scale_up_round_dead order_peer w idle empty closed = counting_once P 0 _ _ (
      bind_meets (create_segment_lem (order_peer 0) segment_size w idle empty) (λ a v open'.
        calls P _ _ (rw open')
          (counting_first P 0 0 _ (destroy_segment_dead _ _ _ w.held open' closed))))

  -- scale_up_pio.c has no defined end: with at least one segment, an idle peer that serves, no
  -- delivery waiting and no segment connected as the first, it comes to ask its first segment
  -- for its id while that is not open, unless a call that fails stops it before.
  pub run_scale_up_segment_experiment_pio_dead :
      (n : ℕ) (order_peer : ℕ → ℕ) (w : Host P.State)
      → P.Idle (w.peers (order_peer 0))
      → w.inbox ≡ []
      → holds (remote_segment 0) w.held ≡ false
      → Meets adapter AsksClosed
          (run_scale_up_segment_experiment_pio P adapter (suc n) order_peer)
          w
          (λ _ w'. ⊥)
  unfolding run_scale_up_segment_experiment_pio
  run_scale_up_segment_experiment_pio_dead n order_peer w idle empty closed =
      calls P _ _ refl
        (never P _ _ (counting_first P n 1 _ (scale_up_round_dead order_peer _ idle empty closed)))

  destroy_sequenced_dead :
      (peer : ℕ) (w : Host P.State) (rest : List Resource)
      → w.held ≡ map_sequence 0 ∷ remote_map 0 ∷ remote_segment 0 ∷ rest
      → holds (remote_segment 0) rest ≡ false
      → Meets adapter AsksClosed (destroy_sequenced P adapter peer 0) w (λ _ w'. ⊥)
  unfolding destroy_sequenced
  destroy_sequenced_dead peer w rest open' closed =
      calls P _ _ (rw open') (dead P 0 _ (rw (open', closed)) refl)

  create_sequenced_lem :
      (peer : ℕ) (w : Host P.State)
      → P.Idle (w.peers peer)
      → w.inbox ≡ []
      → Meets adapter AsksClosed
          (create_sequenced P adapter peer 0)
          w
          (λ _ w'. w'.held ≡ map_sequence 0 ∷ remote_map 0 ∷ remote_segment 0 ∷ w.held)
  unfolding create_sequenced
  create_sequenced_lem peer w idle empty =
      created P serves peer segment max_broadcast_segment_size 0 _ tt empty idle
        (λ s number node log holds'. seoe_each_meets P _ refl refl)

  measure_scaled_meets :
      (w : Host P.State) (rest : List Resource)
      → w.held ≡ map_sequence 0 ∷ remote_map 0 ∷ remote_segment 0 ∷ local_data ∷ rest
      → Meets adapter AsksClosed (measure_scaled P adapter 1) w (λ _ w'. w'.held ≡ w.held)
  unfolding measure_scaled
  measure_scaled_meets w rest open' = seoe_each_meets P _ (rw open') refl

  scale_out_round_dead :
      (w : Host P.State) (rest : List Resource)
      → P.Idle (w.peers 0)
      → w.inbox ≡ []
      → w.held ≡ local_data ∷ rest
      → holds (remote_segment 0) rest ≡ false
      → Meets adapter AsksClosed (scale_out_round P adapter 1) w (λ _ w'. ⊥)
  unfolding scale_out_round
  scale_out_round_dead w rest idle empty data' closed = counting_once P 0 _ _ (
      bind_meets (create_sequenced_lem 0 w idle empty) (λ a v open'.
        let held' : v.held ≡ map_sequence 0 ∷ remote_map 0 ∷ remote_segment 0 ∷ local_data ∷ rest =
          rw data' at open' in
        bind_meets (measure_scaled_meets v rest held') (λ b u same'.
          counting_first P 0 0 _
            (destroy_sequenced_dead 0 u (local_data ∷ rest) (same' ∙ held') closed))))

  -- scale_out_pio.c has no defined way to its end: with at least one peer, the first of them idle
  -- and serving, no delivery waiting and no segment connected as the first, it comes to ask its
  -- first segment for its id while that is not open, unless a call that fails stops it before, and
  -- it is undefined in no other way. What SISCI makes of the closed handle is not followed: it may
  -- answer, and the experiment go on.
  pub run_scale_out_segment_experiment_pio_dead :
      (n : ℕ) (w : Host P.State)
      → P.Idle (w.peers 0)
      → w.inbox ≡ []
      → holds (remote_segment 0) w.held ≡ false
      → Meets adapter AsksClosed
          (run_scale_out_segment_experiment_pio P adapter (suc n))
          w
          (λ _ w'. ⊥)
  unfolding run_scale_out_segment_experiment_pio
  run_scale_out_segment_experiment_pio_dead n w idle empty closed =
      calls P _ _ refl (
        never P _ _ (counting_first P n 1 _ (scale_out_round_dead _ w.held idle empty refl closed)))

  set_up_interleaved_meets :
      {Q : Unit {0} → Host P.State → Type 0} (i : ℕ) (w : Host P.State)
      → (k : Delivery → Program P.State (Unit {0})) (idle : P.Idle (w.peers i)) → w.inbox ≡ []
      → (let c = serves.creates global_dma_segment segment_size 0 (w.peers i) tt idle in
          let held = dma_queue i ∷ local_map i ∷ local_segment i ∷ remote_segment i ∷ w.held in
          (log : List Action)
          → Meets adapter FirstGone
              (k (delivery_of success create global_dma_segment c.1 c.2))
              (record w { peers = put i c.0 w.peers; inbox = []; held = held; log = log })
              Q)
      → Meets adapter FirstGone (set_up_interleaved P adapter i >>= k) w Q
  unfolding set_up_interleaved
  set_up_interleaved_meets {Q} i w k idle empty then =
      let c = serves.creates global_dma_segment segment_size 0 (w.peers i) tt idle in
      let d = delivery_of success create global_dma_segment c.1 c.2 in
      let held' = dma_queue i ∷ local_map i ∷ local_segment i ∷ remote_segment i ∷ w.held in
      let v : List Action → Host P.State =
        λ log. record w { peers = put i c.0 w.peers; inbox = []; held = held'; log = log } in
      bind_meets {P = λ d' v'. (log : List Action) × (d' ≡ d) × (v' ≡ v log)}
        (created_as P serves i global_dma_segment segment_size 0 _ tt empty idle
          (λ log. calls P _ _ (rw (==_self i)) (return_meets (_, refl, refl))))
        (λ d' v' is.
          subst (λ u. Meets adapter FirstGone (k d') u Q) (sym is.2)
            (subst (λ e. Meets adapter FirstGone (k e) (v is.0) Q) (sym is.1) (then is.0)))

  -- With at least two peers that serve, the first two idle, no delivery waiting, and different
  -- numbers for what these two make, interleaved_dmas.c orders the first peer to destroy a number
  -- that the peer does not have, after which that peer's behaviour is undefined, unless a call that
  -- fails stops it before; it is undefined in no other way.
  pub run_single_segment_experiment_interleaved_dma_breaks :
      (n : ℕ) (w : Host P.State) (idle₀ : P.Idle (w.peers 0)) (idle₁ : P.Idle (w.peers 1))
      → w.inbox ≡ []
      → (serves.creates global_dma_segment segment_size 0 (w.peers 0) tt idle₀).1
        ≢ (serves.creates global_dma_segment segment_size 0 (w.peers 1) tt idle₁).1
      → Meets adapter FirstGone
          (run_single_segment_experiment_interleaved_dma P adapter (suc (suc n)))
          w
          (λ _ w'. ⊥)
  unfolding run_single_segment_experiment_interleaved_dma tear_down_interleaved put
  run_single_segment_experiment_interleaved_dma_breaks n w idle₀ idle₁ empty apart =
      let enough : ltb (suc (suc n)) 2 ≡ false = ground arith in
      let first = serves.creates global_dma_segment segment_size 0 (w.peers 0) tt idle₀ in
      rw enough (
        calls P _ _ refl (
          bind_meets {P = λ a v. v ≡ performed (set_timer 2) w} (return_meets refl) (λ a v same'.
            rw same' (
              set_up_interleaved_meets 0 _ _ idle₀ empty (λ log.
                set_up_interleaved_meets 1 _ _ idle₁ refl (λ log'. calls P _ _ refl (
                  never P _ _ (
                    calls P _ _ refl (
                      broken P serves 0 global_dma_segment segment_size first.1 _ tt first.4
                        (λ e. apart (sym e)) refl)))))))))
