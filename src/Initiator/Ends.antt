-- ===== src/Initiator/Ends.antt =====
-- How a run of initiator/ may end, and the rules by which the proofs on experiments go through their
-- calls: one rule for each helper of `Host`.
use sisci_perf.Common.{
  ℕ, ◌<◌, ◌≡◌, ◌≢◌, inl, inr, refl, sym, subst, Bool, true, false, ◌&&◌, List, [], ◌∷◌, arith, ◌==◌,
  Bool-cases,
}
use sisci_perf.Protocol.{OrderType, CommandType, Delivery}
use sisci_perf.Initiator.Service.{delivers, PeerService, order_of}
use sisci_perf.Initiator.World.{hold_all, Action, trigger_order, wait_for_delivery, needs, is_ready}
use sisci_perf.Initiator.Host.{
  sequence_pending, sequence_refused, Adapter, Host, Outcome, returned, stopped, unfinished,
  undefined, Mishap, Program, after, return, ◌>>=◌, performed, put, seoe, seoe_each, send, receive,
  ordered, answers,
}

-- Why a run is stopped where its log has come to: the next call fails, or an attempt to start a
-- sequence is refused.
pub data Failure (adapter : Adapter) (log : List Action) : Type 0 where
  failed : (c : Action) → adapter.succeeds log c ≡ false → Failure adapter log
  refused : (n : ℕ) → adapter.status n log ≡ sequence_refused → Failure adapter log

-- Why it is not finished: a sequence stays pending.
abbrev pub Late : Adapter → List Action → Type 0
Late adapter log = (n : ℕ) → n < adapter.patience → adapter.status n log ≡ sequence_pending

-- For a run that does not become undefined.
abbrev pub Safe : Mishap → Type 0
Safe r = ⊥

-- `U` is what holds of the way a run becomes undefined, `Q` what holds if it returns.
abbrev pub Ends :
    {S A : Type 0} → Adapter → (Mishap → Type 0) → (A → Host S → Type 0) → Outcome S A → Type 0
Ends adapter U Q (returned a w) = Q a w
Ends adapter U Q (stopped w) = Failure adapter w.log
Ends adapter U Q (unfinished w) = Late adapter w.log
Ends adapter U Q (undefined r) = U r

-- A program, run in a state.
pub record Meets {S A : Type 0} (adapter : Adapter) (U : Mishap → Type 0) (m : Program S A)
    (w : Host S) (Q : A → Host S → Type 0) : Type 0 where
  pub ends : Ends adapter U Q (m w)

both : (a b : Bool) → (a && b) ≡ true → (a ≡ true) × (b ≡ true)
both true b e = (refl, e)
both false b e = absurd (cc)

pub ==_self : (n : ℕ) → (n == n) ≡ true
==_self n = ground arith

==_apart : (m n : ℕ) → m ≢ n → (m == n) ≡ false
==_apart m n ne = ground arith

pub put_at : {S : Type 0} (p : ℕ) (s : S) (peers : ℕ → S) → put p s peers p ≡ s
unfolding put
put_at p s peers = rw (==_self p)

pub put_other : {S : Type 0} (p q : ℕ) (s : S) (peers : ℕ → S) → q ≢ p → put p s peers q ≡ peers q
unfolding put
put_other p q s peers ne = rw (==_apart q p ne)

module _ {S : Type 0} where
  Ends-after :
      {A B : Type 0} (adapter : Adapter) (U : Mishap → Type 0) (Q : B → Host S → Type 0)
      (r : Outcome S A) (P : A → Host S → Type 0)
      → (k : A → Program S B) → Ends adapter U P r
      → ((a : A) (w : Host S) → P a w → Ends adapter U Q (k a w))
      → Ends adapter U Q (after r k)
  Ends-after adapter U Q (returned a w) P k h then = then a w h
  Ends-after adapter U Q (stopped w) P k h then = h
  Ends-after adapter U Q (unfinished w) P k h then = h
  Ends-after adapter U Q (undefined r) P k h then = h

  Ends-weaken :
      {A : Type 0} (adapter : Adapter) (U : Mishap → Type 0) (P Q : A → Host S → Type 0)
      (r : Outcome S A)
      → ((a : A) (w : Host S) → P a w → Q a w)
      → Ends adapter U P r
      → Ends adapter U Q r
  Ends-weaken adapter U P Q (returned a w) f h = f a w h
  Ends-weaken adapter U P Q (stopped w) f h = h
  Ends-weaken adapter U P Q (unfinished w) f h = h
  Ends-weaken adapter U P Q (undefined r) f h = h

  pub weaken :
      {adapter : Adapter} {U : Mishap → Type 0} {A : Type 0} {P Q : A → Host S → Type 0}
      {m : Program S A}
      → {w : Host S} → ((a : A) (w' : Host S) → P a w' → Q a w')
      → Meets adapter U m w P
      → Meets adapter U m w Q
  weaken {adapter = adapter} {U = U} {P = P} {Q = Q} {m = m} {w = w} f h = record {
    ends = Ends-weaken adapter U P Q (m w) f h.ends;
  }

  Ends-raise :
      {A : Type 0} (adapter : Adapter) (U : Mishap → Type 0) (Q : A → Host S → Type 0)
      (r : Outcome S A)
      → Ends adapter Safe Q r
      → Ends adapter U Q r
  Ends-raise adapter U Q (returned a w) h = h
  Ends-raise adapter U Q (stopped w) h = h
  Ends-raise adapter U Q (unfinished w) h = h
  Ends-raise adapter U Q (undefined r) h = absurd h

  -- What does not become undefined may be said where that is allowed.
  pub raise :
      {adapter : Adapter} {U : Mishap → Type 0} {A : Type 0} {Q : A → Host S → Type 0}
      → {m : Program S A} {w : Host S} → Meets adapter Safe m w Q
      → Meets adapter U m w Q
  raise {adapter = adapter} {U = U} {Q = Q} {m = m} {w = w} h = record {
    ends = Ends-raise adapter U Q (m w) h.ends;
  }

  pub return_meets :
      {adapter : Adapter} {U : Mishap → Type 0} {A : Type 0} {Q : A → Host S → Type 0} {a : A}
      {w : Host S}
      → Q a w
      → Meets adapter U (return a) w Q
  return_meets q = record { ends = q }

  pub bind_meets :
      {adapter : Adapter} {U : Mishap → Type 0} {A B : Type 0} {P : A → Host S → Type 0}
      {Q : B → Host S → Type 0} {m : Program S A}
      → {k : A → Program S B} {w : Host S} → Meets adapter U m w P
      → ((a : A) (w' : Host S) → P a w' → Meets adapter U (k a) w' Q)
      → Meets adapter U (m >>= k) w Q
  unfolding ◌>>=◌
  bind_meets {adapter = adapter} {U = U} {P = P} {Q = Q} {m = m} {k = k} {w = w} h then = record {
    ends = Ends-after adapter U Q (m w) P k h.ends (λ a w' p. (then a w' p).ends);
  }

module _ (P : PeerService) where
  seoe_meets :
      {adapter : Adapter} {U : Mishap → Type 0} (c : Action) {w : Host P.State}
      {Q : Unit {0} → Host P.State → Type 0}
      → (hold_all (needs c) w.held && is_ready c w.log) ≡ true
      → Q tt (performed c w)
      → Meets adapter U (seoe P adapter c) w Q
  unfolding seoe
  seoe_meets {adapter = adapter} {U = U} c {w} {Q} fine q = record {
    ends = elim (Bool-cases (adapter.succeeds w.log c)) [
      | inl yes' ↦ rw (fine, yes') q
      | inr no' ↦ rw (fine, no') (failed c no')
    ];
  }

  abbrev pub allowed : {S : Type 0} → List Action → Host S → Bool
  allowed [] w = true
  allowed (c ∷ cs) w = (hold_all (needs c) w.held && is_ready c w.log) && allowed cs (performed c w)

  abbrev pub performed_each : {S : Type 0} → List Action → Host S → Host S
  performed_each [] w = w
  performed_each (c ∷ cs) w = performed_each cs (performed c w)

  pub seoe_each_meets :
      {adapter : Adapter} {U : Mishap → Type 0} (cs : List Action) {w : Host P.State}
      → {Q : Unit {0} → Host P.State → Type 0} → allowed cs w ≡ true
      → Q tt (performed_each cs w)
      → Meets adapter U (seoe_each P adapter cs) w Q
  unfolding seoe_each
  seoe_each_meets [] fine q = return_meets q
  seoe_each_meets {adapter = adapter} {U = U} (c ∷ cs) {w} {Q} fine q =
      let parts = both _ _ fine in
      bind_meets {P = λ _ w'. w' ≡ performed c w} (seoe_meets c parts.0 refl) (λ a w' e.
        subst (λ v. Meets adapter U (seoe_each P adapter cs) v Q) (sym e)
          (seoe_each_meets cs (parts.1) q))

  -- Calls that work through handles that are open.
  pub calls :
      {adapter : Adapter} {U : Mishap → Type 0} {B : Type 0} {Q : B → Host P.State → Type 0}
      {w : Host P.State}
      → (cs : List Action) (k : Unit {0} → Program P.State B) → allowed cs w ≡ true
      → Meets adapter U (k tt) (performed_each cs w) Q
      → Meets adapter U (seoe_each P adapter cs >>= k) w Q
  calls {adapter = adapter} {U = U} {Q = Q} {w = w} cs k fine then =
      bind_meets {P = λ _ w'. w' ≡ performed_each cs w} (seoe_each_meets cs fine refl)
        (λ a w' e. subst (λ v. Meets adapter U (k tt) v Q) (sym e) then)

  -- An order, of whatever kind, that the peer carries out.
  pub ordered_meets :
      {adapter : Adapter} {U : Mishap → Type 0} {B : Type 0} {Q : B → Host P.State → Type 0}
      {w : Host P.State} (p : ℕ) (c : CommandType)
      → (t : OrderType) (size id : ℕ) (k : Delivery → Program P.State B) (s : P.State)
        (d : Delivery)
      → w.inbox ≡ []
      → P.carry_out (order_of c t size id) (w.peers p) ≡ delivers s d
      → answers c t d ≡ true
      → ((log : List Action)
          → Meets adapter U (k d) (record w { peers = put p s w.peers; inbox = []; log = log }) Q)
      → Meets adapter U (ordered P adapter p c t size id >>= k) w Q
  unfolding ordered send receive seoe ◌>>=◌
  ordered_meets {adapter = adapter} {Q = Q} {w = w} p c t size id k s d empty obeys fits then =
      let sent = trigger_order p (order_of c t size id) in
      record {
        ends = elim (Bool-cases (adapter.succeeds w.log sent)) [
          | inl yes₁ ↦ elim (Bool-cases (adapter.succeeds (sent ∷ w.log) wait_for_delivery)) [
            | inl yes₂ ↦
                rw (yes₁, obeys, yes₂, empty, fits) (then (wait_for_delivery ∷ sent ∷ w.log)).ends
            | inr no₂ ↦ rw (yes₁, obeys, no₂) (failed wait_for_delivery no₂)
          ]
          | inr no₁ ↦ rw no₁ (failed sent no₁)
        ];
      }

  -- A delivery that is there to be waited for.
  pub receive_meets :
      {adapter : Adapter} {U : Mishap → Type 0} {B : Type 0} {Q : B → Host P.State → Type 0}
      {w : Host P.State}
      → (d : Delivery) (ds : List Delivery) (k : Delivery → Program P.State B) → w.inbox ≡ d ∷ ds
      → ((log : List Action) → Meets adapter U (k d) (record w { inbox = ds; log = log }) Q)
      → Meets adapter U (receive P adapter >>= k) w Q
  unfolding receive seoe ◌>>=◌
  receive_meets {adapter = adapter} {w = w} d ds k there next = record {
    ends = elim (Bool-cases (adapter.succeeds w.log wait_for_delivery)) [
      | inl yes' ↦ rw (yes', there) (next (wait_for_delivery ∷ w.log)).ends
      | inr no' ↦ rw no' (failed wait_for_delivery no')
    ];
  }
