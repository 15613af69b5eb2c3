-- ===== src/Peer/Serving.antt =====
-- The callback of peer/peer_main.c as the service that an initiator relies on.
use sisci_perf.Common.{
  ℕ, suc, ◌<◌, ◌≡◌, ◌≢◌, refl, sym, subst, true, false, List, [], ◌∷◌, some, length, ltb, ◌==◌,
  if◌then◌else◌, arith, ◌∙◌,
}
use sisci_perf.Protocol.{
  OrderType, segment, global_dma_segment, interrupt, data_interrupt, ping_pong_segment,
  broadcast_segment, global_dma_broadcast_segment, other_order, IsKnown, create, destroy, success,
  Delivery, delivery_of, uint_mod,
}
use sisci_perf.Initiator.Service.{Answer, delivers, silent, astray, PeerService, order_of, Serves}
use sisci_perf.Peer.World.{
  Environment, Obliging, Peer, Run, done, exited, fault, CallbackAction, callback_continue,
}
use sisci_perf.Peer.Tables.{Entry}
use sisci_perf.Peer.Orders.{obey, order_callback}
use sisci_perf.Peer.Registry.{Refines, entries, count, registered, unregistered, deliveries}
use sisci_perf.Peer.Callback.{empty, order_callback_lem, obeyed-Obeys}
use sisci_perf.Peer.Faults.{handle_destroy_order_unknown}

-- The delivery that a callback has sent, if it has sent one.
abbrev newest : Peer → (before now : List Delivery) → Answer Peer
newest s before [] = silent
newest s before (d ∷ ds) = if ltb (length before) (suc (length ds)) then delivers s d else silent

abbrev answer_of : List Delivery → Run CallbackAction → Answer Peer
answer_of before (done action s) = newest s before (deliveries s.log)
answer_of before (exited s) = silent
answer_of before fault = astray

-- An order arrives whole.
abbrev pub peer_service : Environment → PeerService
peer_service env = record {
  State = Peer;
  carry_out = λ o s. answer_of (deliveries s.log) (order_callback env (some o) 24 true s);
  Idle = λ s. Refines env s empty;
  Holding = λ t number s.
      (e : Entry) × (thread : ℕ) × (e.no ≡ number) × Refines env s (registered t e thread empty);
}

==_same : (n : ℕ) → (n == n) ≡ true
==_same n = ground arith

==_other : (m n : ℕ) → n ≢ m → (m == n) ≡ false
==_other m n ne = ground arith

-- The registry with one entry.
entries_one :
    (t : OrderType) (e : Entry) (thread : ℕ)
    → IsKnown t
    → entries t (registered t e thread empty) ≡ e ∷ []
entries_one segment e thread known = refl
entries_one global_dma_segment e thread known = refl
entries_one interrupt e thread known = refl
entries_one data_interrupt e thread known = refl
entries_one ping_pong_segment e thread known = refl
entries_one broadcast_segment e thread known = refl
entries_one global_dma_broadcast_segment e thread known = refl
entries_one (other_order n) e thread known = absurd known

unregistered_one :
    (t : OrderType) (e : Entry) (thread : ℕ)
    → IsKnown t
    → unregistered t e.no (registered t e thread empty) ≡ empty
unregistered_one segment e thread known = rw (==_same e.no)
unregistered_one global_dma_segment e thread known = rw (==_same e.no)
unregistered_one interrupt e thread known = rw (==_same e.no)
unregistered_one data_interrupt e thread known = rw (==_same e.no)
unregistered_one ping_pong_segment e thread known = rw (==_same e.no)
unregistered_one broadcast_segment e thread known = rw (==_same e.no)
unregistered_one global_dma_broadcast_segment e thread known = rw (==_same e.no)
unregistered_one (other_order n) e thread known = absurd known

entries_none : (t : OrderType) → entries t empty ≡ []
entries_none segment = refl
entries_none global_dma_segment = refl
entries_none interrupt = refl
entries_none data_interrupt = refl
entries_none ping_pong_segment = refl
entries_none broadcast_segment = refl
entries_none global_dma_broadcast_segment = refl
entries_none (other_order n) = refl

answer_lem :
    (run : Run CallbackAction) (s : Peer) (d : Delivery) (before : List Delivery)
    → run ≡ done callback_continue s
    → deliveries s.log ≡ d ∷ before
    → answer_of before run ≡ delivers s d
answer_lem run s d before ends sends =
    let more : ltb (length before) (suc (length before)) ≡ true = ground arith in
    rw (ends, sends, more)

module _ (env : Environment) (obliging : Obliging env) where
  -- Where no call of the peer fails, the callback of peer_main.c is what the experiments of the
  -- initiator rely on: from the empty registry an order to create, of any type with a name, is
  -- answered with a success that carries a number; the order to destroy that number then leads
  -- back to the empty registry and is answered with a success; and an order to destroy another
  -- number leads into undefined behaviour, not into an exit or silence.
  pub peer_service-Serves : Serves (peer_service env)
  unfolding obey
  peer_service-Serves = record {
    creates = λ t size id s known idle.
        let o = order_of create t size id in
        let room : suc (length (entries t empty)) < uint_mod = rw (entries_none t) (omega arith) in
        let b =
          obeyed-Obeys env obliging o 24 true s empty (omega arith) idle
            (known, room, λ pp. refl) in
        (
          b.0,
          b.2,
          obliging.local_node,
          answer_lem _ _ _ _ b.3 b.6,
          (b.5.0, b.5.1, sym b.5.3, subst (Refines env b.0) b.5.2 b.4),
        );
    destroys = λ t number size s known holds.
        let o = order_of destroy t size number in
        let r = registered t holds.0 holds.1 empty in
        let one : entries t r ≡ holds.0 ∷ [] = entries_one t holds.0 holds.1 known in
        let room : length (entries t r) < uint_mod = rw one (omega arith) in
        let hit : count number (entries t r) ≡ 1 = rw (one, holds.2, ==_same number) in
        let b = obeyed-Obeys env obliging o 24 true s r (omega arith) holds.3 (known, room, hit) in
        let gone : unregistered t number r ≡ empty =
          subst (λ n. unregistered t n r ≡ empty) holds.2
            (unregistered_one t holds.0 holds.1 known) in
        (
          b.0,
          obliging.local_node,
          subst
              (λ n.
                answer_of (deliveries s.log) (order_callback env (some o) 24 true s)
                ≡ delivers b.0 (delivery_of success destroy t n obliging.local_node))
              b.5.1 (answer_lem _ _ _ _ b.3 b.6),
          subst (Refines env b.0) (b.5.0 ∙ gone) b.4,
        );
    breaks = λ t number other size s known holds apart.
        let o = order_of destroy t size other in
        let r = registered t holds.0 holds.1 empty in
        let one : entries t r ≡ holds.0 ∷ [] = entries_one t holds.0 holds.1 known in
        let room : length (entries t r) < uint_mod = rw one (omega arith) in
        let some' : 0 < length (entries t r) = rw one (omega arith) in
        let ne : holds.0.no ≢ other = λ e. apart (sym e ∙ holds.2) in
        let miss : count other (entries t r) ≡ 0 =
          rw (one, ==_other holds.0.no other (λ e. ne (sym e))) in
        let stuck = handle_destroy_order_unknown env obliging o s r known holds.3 room some' miss in
        let runs : order_callback env (some o) 24 true s ≡ fault =
          order_callback_lem env o 24 true s (omega arith) ∙ stuck in
        rw runs;
  }
