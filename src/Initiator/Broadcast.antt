-- ===== src/Initiator/Broadcast.antt =====
-- What broadcast_pio.c of initiator/ leaves behind.
use sisci_perf.Common.{ℕ, suc, ◌≤◌, ◌<◌, ◌≡◌, refl, subst, [], ◌∷◌, arith}
use sisci_perf.Protocol.{broadcast_segment}
use sisci_perf.Initiator.Service.{PeerService, Serves}
use sisci_perf.Initiator.World.{local_data}
use sisci_perf.Initiator.Host.{Adapter, Host}
use sisci_perf.Initiator.Ends.{Safe, Meets, bind_meets, return_meets, seoe_each_meets, calls}
use sisci_perf.Initiator.Rules.{created_as, destroyed}
use sisci_perf.Initiator.Repeats.{counting_meets}
use sisci_perf.Initiator.Joining.{
  GoesByGroup, Joined, Joined-next, Parted, Parted-start, Parted-next,
}
use sisci_perf.Initiator.Scaled.{
  max_broadcast_segment_size, broadcast_group_id, broadcast_round, end_broadcast,
  run_broadcast_pio_experiment,
}

-- The first n peers are idle, no other was asked for anything, and the initiator holds what it held.
pub record RestoresAll (P : PeerService) (n : ℕ) (w w' : Host P.State) : Type 0 where
  pub same_held : w'.held ≡ w.held
  pub none_left : w'.inbox ≡ []
  pub idle : (q : ℕ) → q < n → P.Idle (w'.peers q)
  pub others : (q : ℕ) → n ≤ q → w'.peers q ≡ w.peers q

module _ (P : PeerService) (adapter : Adapter) (serves : Serves P) (n : ℕ) where
  abbrev Grown : Host P.State → ℕ → Host P.State → Type 0
  Grown w = Joined P broadcast_segment broadcast_group_id (local_data ∷ w.held) w

  abbrev Shrunk : Host P.State → ℕ → Host P.State → Type 0
  Shrunk w = Parted P broadcast_segment broadcast_group_id (local_data ∷ w.held) n w

  broadcast_round_meets :
      (node i : ℕ) (w w' : Host P.State)
      → GoesByGroup P serves broadcast_segment tt
      → P.Idle (w.peers i)
      → Grown w i w'
      → Meets adapter Safe (broadcast_round P adapter node i) w' (λ _. Grown w (suc i))
  unfolding broadcast_round
  broadcast_round_meets node i w w' groups idle is =
      let idle' : P.Idle (w'.peers i) = rw (is.same_peers i (omega arith)) idle in
      let size = max_broadcast_segment_size in
      let c = serves.creates broadcast_segment size broadcast_group_id (w'.peers i) tt idle' in
      let held : P.Holding broadcast_segment broadcast_group_id c.0 =
        subst (λ number. P.Holding broadcast_segment number c.0) (groups _ _ _ idle') c.4 in
      created_as P serves i broadcast_segment _ _ _ tt is.none_left idle' (λ log.
        seoe_each_meets P _ (rw is.held_is) (
          Joined-next P broadcast_segment broadcast_group_id _ w w' _ i c.0 is held refl is.held_is
            refl))

  end_broadcast_meets :
      (i : ℕ) (w w' : Host P.State)
      → i < n
      → Shrunk w i w'
      → Meets adapter Safe (end_broadcast P adapter i) w' (λ _. Shrunk w (suc i))
  unfolding end_broadcast
  end_broadcast_meets i w w' lt is =
      destroyed P serves i broadcast_segment _ broadcast_group_id _ tt is.none_left
        (is.joined i (omega arith) lt)
        (λ s node log idle. return_meets (
          Parted-next P broadcast_segment broadcast_group_id _ n w w' _ i s lt is idle refl
            is.held_is refl))

  -- Whatever SISCI answers, broadcast_pio.c, with n idle peers that serve, in which a broadcast
  -- segment goes by the group that it is ordered for, and no delivery waiting, uses no handle
  -- that is not open, and ends: it is stopped by a call that fails, or it returns with all n
  -- peers idle again, the others untouched, no delivery left and nothing more held than before.
  pub run_broadcast_pio_experiment-RestoresAll :
      (node : ℕ) (w : Host P.State)
      → GoesByGroup P serves broadcast_segment tt
      → ((q : ℕ) → q < n → P.Idle (w.peers q))
      → w.inbox ≡ []
      → Meets adapter Safe
          (run_broadcast_pio_experiment P adapter node n)
          w
          (λ _ w'. RestoresAll P n w w')
  unfolding run_broadcast_pio_experiment
  run_broadcast_pio_experiment-RestoresAll node w groups idle empty = calls P _ _ refl (
      bind_meets
        (counting_meets P (Grown w) n 0 (broadcast_round P adapter node)
          (λ i v lt is. broadcast_round_meets node i w v groups (idle i (omega arith)) is) _
          (record {
            held_is = refl;
            none_left = empty;
            joined = λ q lt. absurd (omega arith);
            same_peers = λ q le. refl;
          }))
        (λ a v is.
          bind_meets
            (counting_meets P (Shrunk w) n 0 (end_broadcast P adapter)
              (λ i u lt is'. end_broadcast_meets i w u (omega arith) is') v
              (Parted-start P broadcast_segment broadcast_group_id _ n w v v
                (λ q lt. is.joined q (omega arith)) (λ q le. is.same_peers q (omega arith)) refl
                is.held_is is.none_left))
            (λ b u is'. seoe_each_meets P _ (rw is'.held_is) (record {
              same_held = rw is'.held_is;
              none_left = is'.none_left;
              idle = λ q lt. is'.parted q (omega arith);
              others = is'.same_peers;
            }))))
