-- ===== src/Peer/Boot.antt =====
-- The start of `main` in peer/peer_main.c, up to block_for_termination_signal.
use sisci_perf.Common.{
  ℕ, zero, suc, ◌-◌, ◌≤◌, ◌<◌, ◌≡◌, refl, ap, Bool, true, false, ◌||◌, Option, none, some, List, [],
  ◌∷◌, arith, ltb, leb, if◌then◌else◌, Bool-cases, inl, inr,
}
use sisci_perf.Protocol.{protocol, create, data_interrupt, Delivery, delivery_of, uint_mod}
use sisci_perf.Peer.World.{
  Environment, Peer, Call, initialize, open_adapter, create_order_interrupt, connect_delivery,
  query_node_id, trigger_data_interrupt, Run, done, M, pure, exit_failure, ◌>>=◌, ◌>>◌, modify,
  seoe, get_node_id, logged, start,
}
use sisci_perf.Peer.Tables.{seoe-ok}
use sisci_perf.Peer.Registry.{Refines, deliveries}
use sisci_perf.Peer.Callback.{empty, start-Refines}

-- What strtol makes of a string: the number, its sign, and whether a rest is left.
pub record Parsed : Type 0 where
  pub negative : Bool
  pub value : ℕ
  pub has_rest : Bool

abbrev pub is_empty : List ℕ → Bool
is_empty [] = true
is_empty (c ∷ s) = false

module _ (strtol : List ℕ → Parsed) where
  unfoldable pub in_range : Parsed → Option ℕ
  in_range p = if p.negative || ltb p.value 1 || leb uint_mod p.value then none else some p.value

  -- argv holds strings without their final 0.
  unfoldable pub read_initiator : List (List ℕ) → Option ℕ
  read_initiator (name ∷ arg ∷ []) =
      if is_empty arg || (strtol arg).has_rest then none else in_range (strtol arg)
  read_initiator _ = none

module _ (env : Environment) where
  -- `do SCIConnectDataInterrupt while (error != SCI_ERR_OK)`, on fuel; false if it is used up.
  unfoldable pub connect : ℕ → M Bool
  connect zero s = done false s
  connect (suc fuel) s =
      let rest = connect fuel (logged connect_delivery s) in
      if (env.reply s.log connect_delivery).ok then done true (logged connect_delivery s) else rest

  unfoldable pub announce : ℕ → M Bool
  announce order_interrupt_no = do
    node ← get_node_id env
    let delivery : Delivery = delivery_of protocol create data_interrupt order_interrupt_no node
    seoe env (trigger_data_interrupt delivery)
    pure true

  unfoldable pub announce_if : ℕ → Bool → M Bool
  announce_if order_interrupt_no connected =
      if connected then announce order_interrupt_no else pure false

  unfoldable pub boot_for : (fuel : ℕ) → Option ℕ → M Bool
  boot_for fuel none = exit_failure
  boot_for fuel (some initiator) = do
    modify (λ s. record s { initiator_id = initiator })
    seoe env initialize
    seoe env open_adapter
    r ← seoe env create_order_interrupt
    connected ← connect fuel
    announce_if r.number connected

unfoldable pub boot :
    (env : Environment) (strtol : List ℕ → Parsed) (fuel : ℕ) (argv : List (List ℕ)) → M Bool
boot env strtol fuel argv = boot_for env fuel (read_initiator strtol argv)

abbrev pub attempts : List Call → ℕ
attempts [] = 0
attempts (connect_delivery ∷ log) = suc (attempts log)
attempts (c ∷ log) = attempts log

abbrev pub is_connect : Call → Bool
is_connect connect_delivery = true
is_connect c = false

-- No call fails, but for the first `tries` attempts to connect to the initiator.
pub record Willing (env : Environment) (tries : ℕ) : Type 0 where
  pub others : (log : List Call) (c : Call) → is_connect c ≡ false → (env.reply log c).ok ≡ true
  pub connects : (log : List Call) → (env.reply log connect_delivery).ok ≡ leb tries (attempts log)

in_range-bounds :
    (strtol : List ℕ → Parsed) (p : Parsed) (id : ℕ)
    → in_range strtol p ≡ some id
    → (0 < id) × (id < uint_mod)
unfolding in_range
in_range-bounds strtol p id e = ground arith

read_initiator-bounds :
    (strtol : List ℕ → Parsed) (argv : List (List ℕ)) (id : ℕ)
    → read_initiator strtol argv ≡ some id
    → (0 < id) × (id < uint_mod)
unfolding read_initiator
read_initiator-bounds strtol [] id e = cc
read_initiator-bounds strtol (name ∷ []) id e = cc
read_initiator-bounds strtol (name ∷ arg ∷ []) id e =
    elim (Bool-cases (is_empty arg || (strtol arg).has_rest)) [
      | inl bad ↦ absurd (let c = rw bad at e in cc)
      | inr good ↦ in_range-bounds strtol (strtol arg) id (rw good at e)
    ]
read_initiator-bounds strtol (name ∷ arg ∷ more ∷ rest) id e = cc

module _ (env : Environment) (tries : ℕ) (willing : Willing env tries) where
  -- The log after the attempts that are left, and one that succeeds.
  connect_lem :
      (fuel : ℕ) (s : Peer)
      → tries - attempts s.log < fuel
      → attempts s.log ≤ tries
      → (log : List Call) × (connect env fuel s ≡ done true (record s { log = log }))
        × (attempts log ≡ suc tries)
        × (deliveries log ≡ deliveries s.log)
  unfolding connect
  connect_lem zero s lt le = absurd (omega arith)
  connect_lem (suc fuel) s lt le = elim (Bool-cases (leb tries (attempts s.log))) [
    | inl now ↦ (
      connect_delivery ∷ s.log,
      rw (willing.connects s.log, now),
      (let e : attempts s.log ≡ tries = ground arith in omega arith),
      refl,
    )
    | inr later ↦
        let c = connect_lem fuel (logged connect_delivery s) (ground arith) (ground arith) in
        (c.0, rw (willing.connects s.log, later) c.1, c.2, c.3)
  ]

  announce-ok :
      (order_no : ℕ) (s : Peer)
      → let node = (env.reply s.log query_node_id).value in
        announce env order_no s
        ≡ done true (record s {
          log =
              trigger_data_interrupt (delivery_of protocol create data_interrupt order_no node)
              ∷ query_node_id
              ∷ s.log;
        })
  unfolding announce get_node_id
  announce-ok order_no s =
      let d =
        delivery_of protocol create data_interrupt order_no (env.reply s.log query_node_id).value in
      rw (
        willing.others s.log query_node_id refl,
        seoe-ok env (trigger_data_interrupt d) (logged query_node_id s)
            (willing.others (query_node_id ∷ s.log) (trigger_data_interrupt d) refl),
      )

  at_start-Refines :
      (id : ℕ) (log : List Call) → Refines env (record (start id) { log = log }) empty
  at_start-Refines id log =
      let is = start-Refines env id in
      record {
        segments_hold = is.segments_hold;
        segments_ids = is.segments_ids;
        segments_counted = is.segments_counted;
        interrupts_are = is.interrupts_are;
        data_interrupts_are = is.data_interrupts_are;
        thread_is = is.thread_is;
      }

  -- The delivery that announces the peer: the number that SISCI gave the order interrupt, the third
  -- call, and the node id that it is told after the calls of `log`.
  abbrev pub announced : List Call → Delivery
  announced log =
      delivery_of protocol create data_interrupt
        (env.reply (open_adapter ∷ initialize ∷ []) create_order_interrupt).number
        (env.reply log query_node_id).value

  -- What a peer has done once it waits for a signal: it holds nothing, and its last call has told
  -- the initiator the number of the interrupt that takes its orders, and its node id.
  abbrev pub Boots : ℕ → Run Bool → Type 0
  Boots id run =
      (s : Peer) × (log : List Call) × (run ≡ done true s)
      × (s.initiator_id ≡ id)
      × Refines env s empty
      × (attempts log ≡ suc tries)
      × (s.log ≡ trigger_data_interrupt (announced log) ∷ query_node_id ∷ log)
      × (deliveries s.log ≡ announced log ∷ [])
      × (0 < id)
      × (id < uint_mod)

  -- With an argument that is accepted as the id of the initiator, a peer on which no call fails,
  -- but for the first attempts to connect to the initiator, comes to wait for a signal after
  -- exactly one attempt more than fail. It has then sent one delivery, the protocol's, which tells
  -- the number that SISCI gave its order interrupt and its node id, and holds nothing. The id is not
  -- 0 and fits an `unsigned int`.
  pub boot-Boots :
      (strtol : List ℕ → Parsed) (fuel : ℕ) (argv : List (List ℕ)) (id before : ℕ)
      → read_initiator strtol argv ≡ some id
      → tries < fuel
      → Boots id (boot env strtol fuel argv (start before))
  unfolding boot boot_for announce_if
  boot-Boots strtol fuel argv id before e enough =
      let seoe_ok = λ (c : Call) (s : Peer) (k : is_connect c ≡ false).
        seoe-ok env c s (willing.others s.log c k) in
      let l₁ : List Call = initialize ∷ [] in
      let l₂ : List Call = open_adapter ∷ l₁ in
      let l₃ : List Call = create_order_interrupt ∷ l₂ in
      let s₃ = record (start id) { log = l₃ } in
      let c = connect_lem fuel s₃ (omega arith) (omega arith) in
      let b = read_initiator-bounds strtol argv id e in
      let order_no = (env.reply l₂ create_order_interrupt).number in
      let node = (env.reply c.0 query_node_id).value in
      let d = delivery_of protocol create data_interrupt order_no node in
      (
        record (start id) { log = trigger_data_interrupt d ∷ query_node_id ∷ c.0 },
        c.0,
        rw
            (
              e,
              seoe_ok initialize (start id) refl,
              seoe_ok open_adapter (record (start id) { log = l₁ }) refl,
              seoe_ok create_order_interrupt (record (start id) { log = l₂ }) refl,
              c.1,
            )
            (announce-ok order_no (record (start id) { log = c.0 })),
        refl,
        at_start-Refines id _,
        c.2,
        refl,
        ap (λ ds. d ∷ ds) c.3,
        b.0,
        b.1,
      )
