-- ===== src/Initiator/Joining.antt =====
-- Loops over the peers that make the same thing in each of them, and destroy it again.
use sisci_perf.Common.{ℕ, suc, ◌≤◌, ◌<◌, ◌≡◌, inl, inr, List, [], arith, ◌∙◌}
use sisci_perf.Protocol.{OrderType, IsKnown}
use sisci_perf.Initiator.Service.{PeerService, Serves}
use sisci_perf.Initiator.World.{Resource}
use sisci_perf.Initiator.Host.{Host, put}
use sisci_perf.Initiator.Ends.{put_at, put_other}
use sisci_perf.Initiator.Repeats.{earlier}

module _ (P : PeerService) (serves : Serves P) where
  -- What is ordered for a group goes by the group's number.
  abbrev pub GoesByGroup : (t : OrderType) → IsKnown t → Type 0
  GoesByGroup t known =
      (size id : ℕ) (s : P.State) (idle : P.Idle s) → (serves.creates t size id s known idle).1 ≡ id

module _ (P : PeerService) (t : OrderType) (group : ℕ) (opened : List Resource) where
  -- i peers have been added; w is how it was before.
  pub record Joined (w : Host P.State) (i : ℕ) (w' : Host P.State) : Type 0 where
    pub held_is : w'.held ≡ opened
    pub none_left : w'.inbox ≡ []
    pub joined : (q : ℕ) → q < i → P.Holding t group (w'.peers q)
    pub same_peers : (q : ℕ) → i ≤ q → w'.peers q ≡ w.peers q

  -- Of n peers i have been taken out again.
  pub record Parted (n : ℕ) (w : Host P.State) (i : ℕ) (w' : Host P.State) : Type 0 where
    pub held_is : w'.held ≡ opened
    pub none_left : w'.inbox ≡ []
    pub parted : (q : ℕ) → q < i → P.Idle (w'.peers q)
    pub joined : (q : ℕ) → i ≤ q → q < n → P.Holding t group (w'.peers q)
    pub same_peers : (q : ℕ) → n ≤ q → w'.peers q ≡ w.peers q

  pub Joined-next :
      (w w' v : Host P.State) (i : ℕ) (s : P.State)
      → Joined w i w'
      → P.Holding t group s
      → v.peers ≡ put i s w'.peers
      → v.held ≡ opened
      → v.inbox ≡ []
      → Joined w (suc i) v
  Joined-next w w' v i s is holds peers held none_left = record {
    held_is = held;
    none_left = none_left;
    joined = λ q lt. elim (earlier q i lt) [
      | inl before ↦ rw (peers, put_other i q s w'.peers (λ e. omega arith)) (is.joined q before)
      | inr e ↦ rw (e, peers, put_at i s w'.peers) holds
    ];
    same_peers = λ q le.
        rw peers (put_other i q s w'.peers (λ e. omega arith) ∙ is.same_peers q (omega arith));
  }

  pub Parted-start :
      (n : ℕ) (w v u : Host P.State)
      → ((q : ℕ) → q < n → P.Holding t group (v.peers q))
      → ((q : ℕ) → n ≤ q → v.peers q ≡ w.peers q)
      → u.peers ≡ v.peers
      → u.held ≡ opened
      → u.inbox ≡ []
      → Parted n w 0 u
  Parted-start n w v u joined same peers held none_left = record {
    held_is = held;
    none_left = none_left;
    parted = λ q lt. absurd (omega arith);
    joined = λ q le lt. rw peers (joined q lt);
    same_peers = λ q le. rw peers (same q le);
  }

  pub Parted-next :
      (n : ℕ) (w w' v : Host P.State) (i : ℕ) (s : P.State)
      → i < n
      → Parted n w i w'
      → P.Idle s
      → v.peers ≡ put i s w'.peers
      → v.held ≡ opened
      → v.inbox ≡ []
      → Parted n w (suc i) v
  Parted-next n w w' v i s lt is idle peers held none_left = record {
    held_is = held;
    none_left = none_left;
    parted = λ q lt'. elim (earlier q i lt') [
      | inl before ↦ rw (peers, put_other i q s w'.peers (λ e. omega arith)) (is.parted q before)
      | inr e ↦ rw (e, peers, put_at i s w'.peers) idle
    ];
    joined = λ q le lt'.
        rw (peers, put_other i q s w'.peers (λ e. omega arith)) (is.joined q (omega arith) lt');
    same_peers =
        λ q le. rw peers (put_other i q s w'.peers (λ e. omega arith) ∙ is.same_peers q le);
  }
