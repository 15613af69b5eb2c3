-- ===== src/Initiator/Whole.antt =====
-- A whole run of initiator/initiator_main.c: greetings, experiments, and the end.
use sisci_perf.Common.{
  ℕ, zero, suc, ◌+◌, ◌*◌, ◌^◌, ◌<◌, ◌-◌, ◌≡◌, Bool-cases, inl, inr, refl, sym, subst, ap, ap₂, true,
  false, List, [], ◌∷◌, ◌++◌, arith, ◌∙◌, length, ◌==◌,
}
use sisci_perf.Protocol.{Delivery}
use sisci_perf.Initiator.Service.{PeerService, Serves}
use sisci_perf.Initiator.World.{
  Resource, sisci, adapter_open, delivery_interrupt, order_interrupt, holds, hold_all, released,
  Action, disconnect_order, close_adapter, terminate,
}
use sisci_perf.Initiator.Host.{Adapter, Host, seoe_each, counting}
use sisci_perf.Initiator.Ends.{
  Safe, Meets, weaken, raise, bind_meets, return_meets, seoe_each_meets, calls, receive_meets,
}
use sisci_perf.Initiator.Repeats.{never}
use sisci_perf.Initiator.TransfersRestoring.{Suits}
use sisci_perf.Initiator.Stages.{Passed}
use sisci_perf.Initiator.Chosen.{Sound, forgotten, run_experiments-Stage, run_experiments_dead}
use sisci_perf.Initiator.Undefined.{AsksClosed}
use sisci_perf.Initiator.Main.{
  Switches, Surroundings, first_peer, handles_for, greets, greeted, run_main,
}

-- The order interrupts from a number on.
abbrev orders : (from count : ℕ) → List Resource → List Resource
orders from zero held = held
orders from (suc c) held = order_interrupt (from + c) ∷ orders from c held

holds-orders :
    (from c : ℕ) (held : List Resource)
    → (holds delivery_interrupt (orders from c held) ≡ holds delivery_interrupt held)
      × (released delivery_interrupt (orders from c held)
          ≡ orders from c (released delivery_interrupt held))
      × (holds adapter_open (orders from c held) ≡ holds adapter_open held)
holds-orders from zero held = (refl, refl, refl)
holds-orders from (suc c) held =
    let rest = holds-orders from c held in
    (rest.0, ap (λ h. order_interrupt (from + c) ∷ h) rest.1, rest.2)

holds-order :
    (c j : ℕ) (held : List Resource) → j < c → holds (order_interrupt j) (orders 0 c held) ≡ true
holds-order zero j held lt = absurd (omega arith)
holds-order (suc c) j held lt = elim (Bool-cases (j == 0 + c)) [
  | inl here ↦ rw here
  | inr other ↦ let lt' : j < c = ground arith in rw (other, holds-order c j held lt')
]

-- What main has open when its experiments begin.
there-handles :
    (c j : ℕ) (base held : List Resource)
    → held ≡ orders 0 c (delivery_interrupt ∷ adapter_open ∷ base)
    → 0 < c
    → j < c
    → (hold_all (handles_for first_peer) held ≡ true)
      × (hold_all (handles_for (0 ∷ j ∷ [])) held ≡ true)
there-handles c j base held e pos lt =
    let all = delivery_interrupt ∷ adapter_open ∷ base in
    let there = holds-orders 0 c all in
    (
      rw (e, there.0, there.2, holds-order c 0 all pos),
      rw (e, there.0, there.2, holds-order c 0 all pos, holds-order c j all lt),
    )

-- The first of them is there, and what is left when it is gone.
first_order :
    (from c : ℕ) (held : List Resource)
    → (holds (order_interrupt from) (orders from (suc c) held) ≡ true)
      × (released (order_interrupt from) (orders from (suc c) held) ≡ orders (suc from) c held)
first_order from zero held = let e : (from == from + 0) ≡ true = ground arith in (rw e, rw e)
first_order from (suc c) held =
    let ne : (from == from + suc c) ≡ false = ground arith in
    let rest = first_order from c held in
    let next : from + suc c ≡ suc from + c = omega arith in (rw (ne, rest.0), rw (ne, rest.1, next))

abbrev pub AllGreet : List Delivery → Type 0
AllGreet [] = Unit {0}
AllGreet (d ∷ ds) = (greets d ≡ true) × AllGreet ds

-- Every peer has been connected to, in the order of the greetings.
record Greeted {S : Type 0} (i n : ℕ) (base : List Resource) (w w' : Host S) : Type 0 where
  connected : w'.held ≡ orders 0 (i + n) base
  none_left : w'.inbox ≡ []
  same_peers : w'.peers ≡ w.peers
  same_lost : w'.lost ≡ w.lost

module _ (P : PeerService) (adapter : Adapter) where
  greet_all :
      (ds : List Delivery) (i : ℕ) (base : List Resource) (w : Host P.State)
      → w.inbox ≡ ds
      → AllGreet ds
      → w.held ≡ orders 0 i base
      → holds adapter_open base ≡ true
      → Meets adapter Safe
          (counting P adapter (length ds) i (greeted P adapter))
          w
          (λ _ w'. Greeted i (length ds) base w w')
  unfolding counting greeted
  greet_all [] i base w waiting greet have open' = return_meets (record {
    connected = have ∙ ap (λ n. orders 0 n base) (omega arith);
    none_left = waiting;
    same_peers = refl;
    same_lost = refl;
  })
  greet_all (d ∷ ds) i base w waiting greet have open' =
      bind_meets
        {P = λ _ v.
          (log : List Action) × (v
            ≡ record w { inbox = ds; held = order_interrupt i ∷ w.held; log = log })}
        (receive_meets P d ds _ waiting (λ log.
          let fine : holds adapter_open w.held ≡ true =
            rw (have, (holds-orders 0 i base).2, open') in
          rw greet.0 (seoe_each_meets P _ (rw fine) (_, refl))))
        (λ a v is.
          let u : Host P.State = record w {
            inbox = ds;
            held = order_interrupt i ∷ w.held;
            log = is.0;
          } in
          let zero' : i ≡ 0 + i = omega arith in
          let have' : u.held ≡ orders 0 (suc i) base =
            ap₂ (λ j h. order_interrupt j ∷ h) zero' have in
          subst
            (λ x.
              Meets adapter Safe (counting P adapter (length ds) (suc i) (greeted P adapter)) x
                (λ _ w'. Greeted i (suc (length ds)) base w w'))
            (sym is.1)
            (weaken
              (λ b w' g. record {
                connected = g.connected ∙ ap (λ n. orders 0 n base) (omega arith);
                none_left = g.none_left;
                same_peers = g.same_peers;
                same_lost = g.same_lost;
              })
              (greet_all ds (suc i) base u refl greet.1 have' open')))

  disconnect_all :
      (c i : ℕ) (base : List Resource) (w : Host P.State)
      → w.held ≡ orders i c base
      → Meets adapter Safe
          (counting P adapter c i (λ j. seoe_each P adapter (disconnect_order j ∷ [])))
          w
          (λ _ w'. (log : List Action) × (w' ≡ record w { held = base; log = log }))
  unfolding counting
  disconnect_all zero i base w have = return_meets (w.log, ap (λ h. record w { held = h }) have)
  disconnect_all (suc c) i base w have =
      let first = first_order i c base in
      let gone : released (order_interrupt i) w.held ≡ orders (suc i) c base = rw (have, first.1) in
      bind_meets
        {P = λ _ v.
          (log : List Action) × (v ≡ record w { held = orders (suc i) c base; log = log })}
        (seoe_each_meets P _ (rw (have, first.0)) (
          disconnect_order i ∷ w.log,
          ap (λ h. record w { held = h; log = disconnect_order i ∷ w.log }) gone,
        ))
        (λ a v is.
          subst
            (λ x.
              Meets adapter Safe
                (counting P adapter c (suc i) (λ j. seoe_each P adapter (disconnect_order j ∷ [])))
                x (λ _ w'. (log : List Action) × (w' ≡ record w { held = base; log = log })))
            (sym is.1)
            (disconnect_all c (suc i) base (record w { held = orders (suc i) c base; log = is.0 })
              refl))

module _ (P : PeerService) (adapter : Adapter) (serves : Serves P) where
  pub run_main-Ended :
      (on : Switches) (s : Surroundings) (w : Host P.State)
      → Sound on
      → 0 < s.veclen
      → ((k : ℕ) → Suits s.veclen (1024 * 2 ^ k))
      → P.Idle (w.peers 0)
      → AllGreet w.inbox
      → 0 < length w.inbox
      → Meets adapter Safe
          (run_main P adapter on s (length w.inbox))
          w
          (λ _ w'. Passed P (forgotten on) w w')
  unfolding run_main
  run_main-Ended on s w sound pos suits idle greet some_peer =
      let n = length w.inbox in
      let base = adapter_open ∷ sisci ∷ w.held in
      calls P _ _ refl (
        bind_meets
          (greet_all P adapter w.inbox 0 (delivery_interrupt ∷ base) _ refl greet refl refl)
          (λ a v g.
            let idle' : P.Idle (v.peers 0) = rw g.same_peers idle in
            let there =
              there-handles n 0 (sisci ∷ w.held) v.held
                (g.connected ∙ ap (λ m. orders 0 m (delivery_interrupt ∷ base)) (omega arith))
                some_peer some_peer in
            bind_meets
              (run_experiments-Stage P adapter serves on s n sound pos suits v idle' g.none_left
                there.0)
              (λ b u p.
                let held' : u.held ≡ orders 0 n (delivery_interrupt ∷ base) =
                  p.same_held
                  ∙ g.connected
                  ∙ ap (λ m. orders 0 m (delivery_interrupt ∷ base)) (omega arith) in
                let there = holds-orders 0 n (delivery_interrupt ∷ base) in
                calls P _ _ (rw (held', there.0)) (
                  bind_meets (disconnect_all P adapter n 0 base _ (rw (held', there.1))) (λ c x is.
                    subst
                      (λ y.
                        Meets adapter Safe (seoe_each P adapter (close_adapter ∷ terminate ∷ [])) y
                          (λ _ w'. Passed P (forgotten on) w w'))
                      (sym is.1)
                      (seoe_each_meets P _ refl (record {
                        same_held = refl;
                        none_left = p.none_left;
                        idle = p.idle;
                        others = λ q ne. p.others q ne ∙ ap (λ f. f q) g.same_peers;
                        lost = p.lost ∙ ap (λ lost. forgotten on ++ lost) g.same_lost;
                      })))))))

  -- With the experiment of scale_up_pio.c switched on, main has no defined way to its end, whatever
  -- else is switched on: where at least one peer greets, every delivery that waits is a greeting and
  -- the first peer is idle and serves, main comes to ask the first segment for its id while that is
  -- not open, unless it is stopped before by a call that fails or a sequence that does not start,
  -- and it is undefined in no other way. What SISCI makes of the closed handle is not followed: it
  -- may answer, and main go on.
  pub run_main_dead :
      (on : Switches) (s : Surroundings) (w : Host P.State)
      → on.scale_up ≡ true
      → 0 < length w.inbox
      → P.Idle (w.peers 0)
      → AllGreet w.inbox
      → Meets adapter AsksClosed (run_main P adapter on s (length w.inbox)) w (λ _ _. ⊥)
  unfolding run_main
  run_main_dead on s w scale_up pos idle greet =
      let base = adapter_open ∷ sisci ∷ w.held in
      calls P _ _ refl (
        bind_meets
          (raise (greet_all P adapter w.inbox 0 (delivery_interrupt ∷ base) _ refl greet refl refl))
          (λ a v g.
            let idle' : P.Idle (v.peers 0) = rw g.same_peers idle in
            let n = length w.inbox in
            let there =
              there-handles n (n - 1) (sisci ∷ w.held) v.held
                (g.connected ∙ ap (λ m. orders 0 m (delivery_interrupt ∷ base)) (omega arith)) pos
                (omega arith) in
            never P _ _ (
              run_experiments_dead P adapter serves on s n v scale_up pos idle' g.none_left there.0
                there.1)))
