-- ===== src/Initiator/BroadcastDmaEnds.antt =====
-- What broadcast_dma.c of initiator/ leaves behind, and when it breaks a peer.
use sisci_perf.Common.{ℕ, suc, ◌≤◌, ◌<◌, ◌≡◌, ◌≢◌, refl, sym, ap, ◌∙◌, List, [], ◌∷◌, arith}
use sisci_perf.Protocol.{global_dma_broadcast_segment}
use sisci_perf.Initiator.Service.{PeerService, Serves}
use sisci_perf.Initiator.World.{Resource, local_segment, local_map, dma_queue}
use sisci_perf.Initiator.Host.{Adapter, Host}
use sisci_perf.Initiator.Ends.{Meets, bind_meets, seoe_each_meets, calls, put_other}
use sisci_perf.Initiator.Rules.{held_there, created_as, broken}
use sisci_perf.Initiator.Repeats.{never, counting_first, counting_rest, counting_meets}
use sisci_perf.Initiator.Joining.{Joined, Parted}
use sisci_perf.Initiator.Segments.{segment_size}
use sisci_perf.Initiator.Scaled.{broadcast_group_id}
use sisci_perf.Initiator.Undefined.{FirstGone}
use sisci_perf.Initiator.BroadcastDma.{
  broadcast_dma_round, end_broadcast_dma, run_broadcast_dma_experiment,
}

-- What the program opens and does not close.
abbrev pub forgotten_local : List Resource → List Resource
forgotten_local held = local_map 0 ∷ local_segment 0 ∷ held

module _ (P : PeerService) (adapter : Adapter) (serves : Serves P) (n : ℕ) where
  abbrev Grown : Host P.State → ℕ → Host P.State → Type 0
  Grown w =
      Joined P global_dma_broadcast_segment broadcast_group_id
        (dma_queue 0 ∷ forgotten_local w.held) w

  abbrev Shrunk : Host P.State → ℕ → Host P.State → Type 0
  Shrunk w = Parted P global_dma_broadcast_segment broadcast_group_id (forgotten_local w.held) n w

  -- The number that each peer gives its segment is that of the group. The peer of peer/peer_main.c
  -- does not see to it: it lets SISCI choose the number.
  abbrev pub GivesGroup : Host P.State → Type 0
  GivesGroup w =
      (q : ℕ) (s : P.State) (idle : P.Idle s)
      → q < n
      → s ≡ w.peers q
      → (serves.creates global_dma_broadcast_segment segment_size broadcast_group_id s tt idle).1
        ≡ broadcast_group_id

module _ (P : PeerService) (adapter : Adapter) (serves : Serves P) where
  -- The first of the peers holds what goes by `number`; those from i on are as they were.
  record HeldFirst (number : ℕ) (w : Host P.State) (i : ℕ) (w' : Host P.State) : Type 0 where
    started : 0 < i
    held_is : w'.held ≡ dma_queue 0 ∷ forgotten_local w.held
    none_left : w'.inbox ≡ []
    holding : P.Holding global_dma_broadcast_segment number (w'.peers 0)
    same_peers : (q : ℕ) → i ≤ q → w'.peers q ≡ w.peers q

  first_round_meets :
      (node : ℕ) (w w' : Host P.State) (idle : P.Idle (w'.peers 0))
      → w'.inbox ≡ []
      → w'.held ≡ dma_queue 0 ∷ forgotten_local w.held
      → w'.peers ≡ w.peers
      → Meets adapter FirstGone (broadcast_dma_round P adapter node 0) w' (λ _.
        HeldFirst
          (serves.creates global_dma_broadcast_segment segment_size broadcast_group_id
            (w'.peers 0)
            tt
            idle).1
          w
          1)
  unfolding broadcast_dma_round
  first_round_meets node w w' idle empty open' peers =
      let c =
        serves.creates global_dma_broadcast_segment segment_size broadcast_group_id (w'.peers 0) tt
          idle in
      created_as P serves 0 global_dma_broadcast_segment _ _ _ tt empty idle (λ log.
        seoe_each_meets P _ (rw open') (record {
          started = omega arith;
          held_is = open';
          none_left = refl;
          holding = held_there P 0 w'.peers c.4;
          same_peers = λ q le. put_other 0 q c.0 w'.peers (λ e. omega arith) ∙ ap (λ f. f q) peers;
        }))

  later_round_meets :
      (number node i : ℕ) (w w' : Host P.State)
      → P.Idle (w.peers i)
      → HeldFirst number w i w'
      → Meets adapter FirstGone
          (broadcast_dma_round P adapter node i)
          w'
          (λ _. HeldFirst number w (suc i))
  unfolding broadcast_dma_round
  later_round_meets number node i w w' idle is =
      let pos = is.started in
      let idle' : P.Idle (w'.peers i) = rw (is.same_peers i (omega arith)) idle in
      let c =
        serves.creates global_dma_broadcast_segment segment_size broadcast_group_id (w'.peers i) tt
          idle' in
      created_as P serves i global_dma_broadcast_segment _ _ _ tt is.none_left idle' (λ log.
        seoe_each_meets P _ (rw is.held_is) (record {
          started = omega arith;
          held_is = is.held_is;
          none_left = refl;
          holding = rw (put_other i 0 c.0 w'.peers (λ e. omega arith)) is.holding;
          same_peers =
              λ q le. put_other i q c.0 w'.peers (λ e. omega arith) ∙ is.same_peers q (omega arith);
        }))

  end_first_breaks :
      (number : ℕ) (w : Host P.State)
      → P.Holding global_dma_broadcast_segment number (w.peers 0)
      → number ≢ broadcast_group_id
      → Meets adapter FirstGone (end_broadcast_dma P adapter 0) w (λ _ _. ⊥)
  unfolding end_broadcast_dma
  end_first_breaks number w holds apart = never P _ _ (
      broken P serves 0 global_dma_broadcast_segment segment_size number broadcast_group_id tt holds
        (λ e. apart (sym e)) refl)

  -- If the first of several idle peers that serve gives its segment another number than that of the
  -- group, broadcast_dma.c orders that peer to destroy what the peer does not have, after which the
  -- peer's behaviour is undefined, unless a call that fails stops it before.
  pub run_broadcast_dma_experiment_breaks :
      (node n : ℕ) (w : Host P.State) (idle : P.Idle (w.peers 0))
      → ((q : ℕ) → 0 < q → q < suc n → P.Idle (w.peers q))
      → w.inbox ≡ []
      → (serves.creates global_dma_broadcast_segment segment_size broadcast_group_id
          (w.peers 0)
          tt
          idle).1
        ≢ broadcast_group_id
      → Meets adapter FirstGone (run_broadcast_dma_experiment P adapter node (suc n)) w (λ _ w'. ⊥)
  unfolding run_broadcast_dma_experiment
  run_broadcast_dma_experiment_breaks node n w idle others empty apart =
      let number =
        (serves.creates global_dma_broadcast_segment segment_size broadcast_group_id (w.peers 0) tt
          idle).1 in
      calls P _ _ refl (
        bind_meets
          (counting_rest P n 0 (broadcast_dma_round P adapter node)
            (first_round_meets node w _ idle empty refl refl)
            (λ v is.
              counting_meets P (HeldFirst number w) n 1 (broadcast_dma_round P adapter node)
                (λ i w' lt is'.
                  later_round_meets number node i w w' (others i is'.started (omega arith)) is')
                v is))
          (λ a v is. calls P _ _ (rw is.held_is) (
            never P _ _ (
              counting_first P n 0 (end_broadcast_dma P adapter)
                (end_first_breaks number _ is.holding apart)))))
