-- ===== src/Initiator/Stages.antt =====
-- The runs of initiator/initiator_main.c: its experiments, one after the other.
use sisci_perf.Common.{
  ℕ, ◌≡◌, ◌≢◌, refl, sym, subst, ap, Bool, true, false, List, [], ◌++◌, ◌∙◌, append-nil,
  append_assoc, if◌then◌else◌,
}
use sisci_perf.Initiator.Service.{PeerService}
use sisci_perf.Initiator.World.{Resource, hold_all}
use sisci_perf.Initiator.Host.{
  Adapter, Host, Outcome, Program, returned, stopped, unfinished, undefined, after, ◌>>◌, return,
}
use sisci_perf.Initiator.Ends.{Safe, Ends, Meets, weaken, bind_meets, return_meets}
use sisci_perf.Initiator.Rules.{Restores}
use sisci_perf.Initiator.Main.{first_peer, handles_for, left, enter, when}

-- Between two experiments: main holds what it held, no delivery is left, the first peer is idle, the
-- others were not asked for anything, and `more` are the handles that were lost.
pub record Passed (P : PeerService) (more : List Resource) (w w' : Host P.State) : Type 0 where
  pub same_held : w'.held ≡ w.held
  pub none_left : w'.inbox ≡ []
  pub idle : P.Idle (w'.peers 0)
  pub others : (q : ℕ) → q ≢ 0 → w'.peers q ≡ w.peers q
  pub lost : w'.lost ≡ more ++ w.lost

abbrev pub Stage : (P : PeerService) → Adapter → Program P.State (Unit {0}) → List Resource → Type 0
Stage P adapter m more =
    (w : Host P.State)
    → P.Idle (w.peers 0)
    → w.inbox ≡ []
    → hold_all (handles_for first_peer) w.held ≡ true
    → Meets adapter Safe m w (λ _ w'. Passed P more w w')

abbrev pub lost_if : Bool → List Resource → List Resource
lost_if on more = if on then more else []

module _ (P : PeerService) (adapter : Adapter) where
  pub passed_nothing : Stage P adapter (return tt) []
  passed_nothing w idle empty there = return_meets (record {
    same_held = refl;
    none_left = empty;
    idle = idle;
    others = λ q ne. refl;
    lost = refl;
  })

  pub Stage-then :
      (m k : Program P.State (Unit {0})) (l l' : List Resource)
      → Stage P adapter m l
      → Stage P adapter k l'
      → Stage P adapter (m >> k) (l' ++ l)
  Stage-then m k l l' first second w idle empty there =
      bind_meets (first w idle empty there) (λ a v p.
        weaken
          (λ b u q. record {
            same_held = q.same_held ∙ p.same_held;
            none_left = q.none_left;
            idle = q.idle;
            others = λ i ne. q.others i ne ∙ p.others i ne;
            lost = q.lost ∙ ap (λ lost. l' ++ lost) p.lost ∙ sym (append_assoc l' l w.lost);
          })
          (second v p.idle p.none_left (rw p.same_held there)))

  pub left-Ends :
      (r : Outcome P.State (Unit {0})) (w : Host P.State) (leak : List Resource)
      → Ends adapter Safe (λ _ v'. Restores P 0 (record w { held = leak ++ [] }) v') r
      → Ends adapter Safe (λ _ v'. Passed P leak w v') (after r (left P adapter w))
  left-Ends (returned a v) w leak is = record {
    same_held = refl;
    none_left = is.none_left;
    idle = is.idle;
    others = is.others;
    lost =
        ap (λ held. held ++ v.lost) (is.same_held ∙ append-nil leak)
        ∙ ap (λ lost. leak ++ lost) is.same_lost;
  }
  left-Ends (stopped v) w leak is = is
  left-Ends (unfinished v) w leak is = is
  left-Ends (undefined r) w leak is = is

  -- An experiment with variables of its own: what it holds when it returns is lost.
  pub enter-Stage :
      (m : Program P.State (Unit {0})) (leak : List Resource)
      → ((v : Host P.State)
          → P.Idle (v.peers 0)
          → v.inbox ≡ []
          → Meets adapter Safe m v (λ _ v'. Restores P 0 (record v { held = leak ++ v.held }) v'))
      → Stage P adapter (enter P adapter first_peer m) leak
  unfolding enter
  enter-Stage m leak each w idle empty there =
      let inner = each (record w { held = [] }) idle empty in
      record { ends = rw there (left-Ends (m (record w { held = [] })) w leak inner.ends) }

  pub when-Stage :
      (on : Bool) (m : Program P.State (Unit {0})) (l : List Resource)
      → Stage P adapter m l
      → Stage P adapter (when P adapter on m) (lost_if on l)
  unfolding when
  when-Stage true m l stage = stage
  when-Stage false m l stage = passed_nothing

  pub off-Stage :
      (on : Bool) (m : Program P.State (Unit {0}))
      → on ≡ false
      → Stage P adapter (when P adapter on m) []
  unfolding when
  off-Stage true m off = absurd (cc)
  off-Stage false m off = passed_nothing

  pub when_quiet :
      (on : Bool) (m : Program P.State (Unit {0}))
      → Stage P adapter m []
      → Stage P adapter (when P adapter on m) []
  unfolding when
  when_quiet true m stage = stage
  when_quiet false m stage = passed_nothing

  pub quiet_then :
      {m k : Program P.State (Unit {0})} {l : List Resource}
      → Stage P adapter m []
      → Stage P adapter k l
      → Stage P adapter (m >> k) l
  quiet_then {m} {k} {l} first second =
      subst (λ l'. Stage P adapter (m >> k) l') (append-nil l) (Stage-then m k [] l first second)

  -- An experiment that restores everything.
  pub clean-Stage :
      (on : Bool) (m : Program P.State (Unit {0}))
      → ((v : Host P.State)
          → P.Idle (v.peers 0)
          → v.inbox ≡ []
          → Meets adapter Safe m v (λ _ v'. Restores P 0 v v'))
      → Stage P adapter (when P adapter on (enter P adapter first_peer m)) []
  clean-Stage on m each = when_quiet on (enter P adapter first_peer m) (enter-Stage m [] each)
