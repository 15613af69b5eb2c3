-- ===== src/Initiator/Rules.antt =====
-- The rules of `Ends` for the orders to a peer.
use sisci_perf.Common.{ℕ, ◌≡◌, ◌≢◌, inl, inr, refl, true, List, [], Bool-cases, ◌∙◌}
use sisci_perf.Protocol.{
  OrderType, segment, global_dma_segment, interrupt, data_interrupt, ping_pong_segment,
  broadcast_segment, global_dma_broadcast_segment, other_order, IsKnown, create, destroy, success,
  Delivery, delivery_of,
}
use sisci_perf.Initiator.Service.{PeerService, Serves, order_of}
use sisci_perf.Initiator.World.{Action, trigger_order}
use sisci_perf.Initiator.Host.{
  Adapter, Host, Mishap, peer_gone, Program, ◌>>=◌, put, answers, same_type, same_command, seoe,
  send, ordered,
}
use sisci_perf.Initiator.Ends.{failed, Meets, put_at, put_other, ordered_meets}

known_answers :
    (t : OrderType) (number node : ℕ)
    → IsKnown t
    → (answers create t (delivery_of success create t number node) ≡ true)
      × (answers destroy t (delivery_of success destroy t number node) ≡ true)
unfolding answers same_type same_command
known_answers segment number node k = (refl, refl)
known_answers global_dma_segment number node k = (refl, refl)
known_answers interrupt number node k = (refl, refl)
known_answers data_interrupt number node k = (refl, refl)
known_answers ping_pong_segment number node k = (refl, refl)
known_answers broadcast_segment number node k = (refl, refl)
known_answers global_dma_broadcast_segment number node k = (refl, refl)
known_answers (other_order n) number node k = absurd k

-- The initiator holds what it held before, no delivery is left, the peer holds nothing again, and
-- no other peer was asked for anything.
pub record Restores (P : PeerService) (p : ℕ) (w w' : Host P.State) : Type 0 where
  pub same_held : w'.held ≡ w.held
  pub same_lost : w'.lost ≡ w.lost
  pub none_left : w'.inbox ≡ []
  pub idle : P.Idle (w'.peers p)
  pub others : (q : ℕ) → q ≢ p → w'.peers q ≡ w.peers q

module _ (P : PeerService) where
  pub held_there :
      {t : OrderType} {number : ℕ} (p : ℕ) {s : P.State} (peers : ℕ → P.State)
      → P.Holding t number s
      → P.Holding t number (put p s peers p)
  held_there p {s} peers holds = rw (put_at p s peers) holds

  pub restored :
      (p : ℕ) (w : Host P.State) {log : List Action} (s s' : P.State)
      → P.Idle s'
      → Restores P p w (record w { peers = put p s' (put p s w.peers); inbox = []; log = log })
  restored p w s s' idle = record {
    same_held = refl;
    same_lost = refl;
    none_left = refl;
    idle = rw (put_at p s' (put p s w.peers)) idle;
    others = λ q ne. put_other p q s' (put p s w.peers) ne ∙ put_other p q s w.peers ne;
  }

module _ (P : PeerService) (serves : Serves P) where
  -- An order to create, to an idle peer, which answers with the number that `Serves` gives.
  pub created_as :
      {adapter : Adapter} {U : Mishap → Type 0} {B : Type 0} {Q : B → Host P.State → Type 0}
      {w : Host P.State}
      → (p : ℕ) (t : OrderType) (size id : ℕ) (k : Delivery → Program P.State B) (known : IsKnown t)
      → w.inbox ≡ []
      → (idle : P.Idle (w.peers p))
      → (let c = serves.creates t size id (w.peers p) known idle in
          (log : List Action)
          → Meets adapter U
              (k (delivery_of success create t c.1 c.2))
              (record w { peers = put p c.0 w.peers; inbox = []; log = log })
              Q)
      → Meets adapter U (ordered P adapter p create t size id >>= k) w Q
  created_as {w = w} p t size id k known empty idle then =
      let c = serves.creates t size id (w.peers p) known idle in
      ordered_meets P p create t size id k c.0 _ empty c.3 (known_answers t c.1 c.2 known).0 then

  -- Whatever number it is.
  pub created :
      {adapter : Adapter} {U : Mishap → Type 0} {B : Type 0} {Q : B → Host P.State → Type 0}
      {w : Host P.State}
      → (p : ℕ) (t : OrderType) (size id : ℕ) (k : Delivery → Program P.State B) → IsKnown t
      → w.inbox ≡ []
      → P.Idle (w.peers p)
      → ((s : P.State) (number node : ℕ) (log : List Action)
          → P.Holding t number s
          → Meets adapter U
              (k (delivery_of success create t number node))
              (record w { peers = put p s w.peers; inbox = []; log = log })
              Q)
      → Meets adapter U (ordered P adapter p create t size id >>= k) w Q
  created {w = w} p t size id k known empty idle then =
      let c = serves.creates t size id (w.peers p) known idle in
      created_as p t size id k known empty idle (λ log. then c.0 c.1 c.2 log c.4)

  -- An order to destroy something else than what the peer holds.
  pub broken :
      {adapter : Adapter} {U : Mishap → Type 0} {Q : Delivery → Host P.State → Type 0}
      → {w : Host P.State} (p : ℕ) (t : OrderType) (size number other : ℕ) → IsKnown t
      → P.Holding t number (w.peers p)
      → other ≢ number
      → U (peer_gone p)
      → Meets adapter U (ordered P adapter p destroy t size other) w Q
  unfolding ordered send seoe ◌>>=◌
  broken {adapter = adapter} {w = w} p t size number other known holds apart gone =
      let sent = trigger_order p (order_of destroy t size other) in
      let breaks = serves.breaks t number other size (w.peers p) known holds apart in
      record {
        ends = elim (Bool-cases (adapter.succeeds w.log sent)) [
          | inl yes' ↦ rw (yes', breaks) gone
          | inr no' ↦ rw no' (failed sent no')
        ];
      }

  -- The order to destroy what the peer holds since.
  pub destroyed :
      {adapter : Adapter} {U : Mishap → Type 0} {B : Type 0} {Q : B → Host P.State → Type 0}
      {w : Host P.State} (p : ℕ) (t : OrderType) (size number : ℕ)
      → (k : Delivery → Program P.State B) → IsKnown t
      → w.inbox ≡ []
      → P.Holding t number (w.peers p)
      → ((s' : P.State) (node : ℕ) (log : List Action)
          → P.Idle s'
          → Meets adapter U
              (k (delivery_of success destroy t number node))
              (record w { peers = put p s' w.peers; inbox = []; log = log })
              Q)
      → Meets adapter U (ordered P adapter p destroy t size number >>= k) w Q
  destroyed {w = w} p t size number k known empty holds then =
      let d = serves.destroys t number size (w.peers p) known holds in
      ordered_meets P p destroy t size number k d.0 _ empty d.2 (known_answers t number d.1 known).1
        (λ log. then d.0 d.1 log d.3)
