-- ===== src/Initiator/Restoring.antt =====
-- What the experiments of `Segments` leave behind.
use sisci_perf.Common.{ℕ, zero, suc, ◌≡◌, refl, ap, true, List, [], ◌∷◌, arith, ◌∙◌}
use sisci_perf.Protocol.{segment}
use sisci_perf.Initiator.Service.{PeerService, Serves}
use sisci_perf.Initiator.World.{
  Resource, remote_segment, map_sequence, remote_map, local_data, hold_all, set_timer,
}
use sisci_perf.Initiator.Host.{
  Mishap, Adapter, Host, Program, ◌>>=◌, ◌>>◌, return, performed, doubling,
}
use sisci_perf.Initiator.Ends.{
  Safe, Meets, weaken, bind_meets, return_meets, seoe_each_meets, calls, ==_self,
}
use sisci_perf.Initiator.Rules.{Restores, restored, held_there, created, destroyed}
use sisci_perf.Initiator.Repeats.{
  Logged, quietly, start_until_ok_meets, doubling_meets, doubling_quietly, doublings,
}
use sisci_perf.Initiator.Segments.{
  measure_seconds, segment_size, max_segment_size, run_single_segment_experiment_pio, measure_width,
  by_width, measure_memcpy, run_var_size_experiment_pio, measure_segment,
  run_var_size_segments_experiment,
}

abbrev pub leaked : ℕ → List Resource → List Resource
leaked zero held = held
leaked (suc n) held = map_sequence 0 ∷ leaked n held

module _ (P : PeerService) where
  doubling_widths :
      (adapter : Adapter) (body : ℕ → Program P.State (Unit {0}))
      → doubling P adapter 9 8 1 body ≡ (body 1 >> (body 2 >> (body 4 >> (body 8 >> return tt))))
  unfolding doubling ◌>>=◌
  doubling_widths adapter body = refl

  measure_width_meets :
      {adapter : Adapter} {U : Mishap → Type 0} (width : ℕ) {w : Host P.State}
      → hold_all (remote_map 0 ∷ []) w.held ≡ true
      → Meets adapter U (measure_width P adapter width) w (λ _ w'. Logged w w')
  unfolding measure_width
  measure_width_meets width {w} mapped = seoe_each_meets P _ (rw (mapped, ==_self width)) (_, refl)

  by_width_meets :
      {adapter : Adapter} {U : Mishap → Type 0} {w : Host P.State}
      → hold_all (remote_map 0 ∷ []) w.held ≡ true
      → Meets adapter U (doubling P adapter 9 8 1 (by_width P adapter)) w (λ _ w'. Logged w w')
  unfolding by_width
  by_width_meets {adapter} {U} {w} mapped = rw (doubling_widths adapter (by_width P adapter)) (
      quietly P _ _ (measure_width_meets 1 mapped) (λ l₁.
        quietly P _ _ (measure_width_meets 2 mapped) (λ l₂.
          quietly P _ _ (measure_width_meets 4 mapped)
            (λ l₃. quietly P _ _ (measure_width_meets 8 mapped) (λ l₄. return_meets (l₄, refl))))))

  measure_memcpy_meets :
      {adapter : Adapter} {U : Mishap → Type 0} (size : ℕ) {w : Host P.State}
      → hold_all (local_data ∷ map_sequence 0 ∷ remote_map 0 ∷ []) w.held ≡ true
      → Meets adapter U (measure_memcpy P adapter size) w (λ _ w'. Logged w w')
  unfolding measure_memcpy
  measure_memcpy_meets size {w} open' = seoe_each_meets P _ (rw open') (_, refl)

module _ (P : PeerService) (adapter : Adapter) (serves : Serves P) where
  -- Whatever SISCI answers, simple_pio.c, sent to an idle peer that serves, with no delivery
  -- waiting, uses no handle that is not open, reads back only what it has written, and ends: it
  -- is stopped by a call that fails or a sequence that does not start, or it returns with the
  -- peer idle again, the other peers untouched and no delivery left, and holds what it held and
  -- one connected segment more.
  pub run_single_segment_experiment_pio-Restores :
      (p : ℕ) (w : Host P.State)
      → P.Idle (w.peers p)
      → w.inbox ≡ []
      → Meets adapter Safe
          (run_single_segment_experiment_pio P adapter p)
          w
          (λ _ w'. Restores P p (record w { held = remote_segment 0 ∷ w.held }) w')
  unfolding run_single_segment_experiment_pio
  run_single_segment_experiment_pio-Restores p w idle empty = calls P _ _ refl (
      created P serves p segment segment_size 0 _ tt empty idle (λ s number node log holds.
        calls P _ _ refl (
          quietly P _ _ (start_until_ok_meets P 0 refl) (λ log'. calls P _ _ refl (
            destroyed P serves p segment _ number _ tt refl (held_there P p _ holds)
              (λ s' node' log'' idle'. return_meets (restored P p _ s s' idle')))))))

  -- Whatever SISCI answers, var_size_pio.c, sent to an idle peer that serves, with no delivery
  -- waiting, never takes the default of its switch, uses no handle that is not open, reads back
  -- only what it has written, and ends: it is stopped by a call that fails, or it returns with
  -- the peer idle again, the other peers untouched, no delivery left and nothing more held than
  -- before.
  pub run_var_size_experiment_pio-Restores :
      (p : ℕ) (w : Host P.State)
      → P.Idle (w.peers p)
      → w.inbox ≡ []
      → Meets adapter Safe (run_var_size_experiment_pio P adapter p) w (λ _ w'. Restores P p w w')
  unfolding run_var_size_experiment_pio
  run_var_size_experiment_pio-Restores p w idle empty = calls P _ _ refl (
      created P serves p segment max_segment_size 0 _ tt empty idle (λ s number node log holds.
        calls P _ _ refl (
          quietly P _ _ (by_width_meets P refl) (λ log'. calls P _ _ refl (
            quietly P _ _
              (doubling_quietly P _ _ _ _ _ (λ n l. measure_memcpy_meets P n refl) (omega arith)
                (omega arith) (omega arith))
              (λ l'. calls P _ _ refl (
                destroyed P serves p segment _ number _ tt refl (held_there P p _ holds)
                  (λ s' node' log'' idle'. return_meets (restored P p _ s s' idle')))))))))

  measure_segment-Restores :
      (p size : ℕ) (w : Host P.State)
      → P.Idle (w.peers p)
      → w.inbox ≡ []
      → Meets adapter Safe
          (measure_segment P adapter p size)
          w
          (λ _ w'. Restores P p (record w { held = map_sequence 0 ∷ w.held }) w')
  unfolding measure_segment
  measure_segment-Restores p size w idle empty =
      (created P serves p segment size 0 _ tt empty idle (λ s number node log holds.
        calls P _ _ refl (
          quietly P _ _ (start_until_ok_meets P 0 refl) (λ log'. calls P _ _ refl (
            destroyed P serves p segment _ number _ tt refl (held_there P p _ holds)
              (λ s' node' log'' idle'. return_meets (restored P p _ s s' idle')))))))

  Restores-more :
      (p : ℕ) (u v w : Host P.State) (r : ℕ)
      → Restores P p (record u { held = leaked r u.held }) v
      → Restores P p (record v { held = map_sequence 0 ∷ v.held }) w
      → Restores P p (record u { held = leaked (suc r) u.held }) w
  Restores-more p u v w r a b = record {
    same_held = b.same_held ∙ ap (λ held. map_sequence 0 ∷ held) a.same_held;
    same_lost = b.same_lost ∙ a.same_lost;
    none_left = b.none_left;
    idle = b.idle;
    others = λ q ne. b.others q ne ∙ a.others q ne;
  }

  -- Whatever SISCI answers, var_size_segments.c, sent to an idle peer that serves, with no
  -- delivery waiting, uses no handle that is not open, and ends: it is stopped by a call that
  -- fails or a sequence that does not start, or it returns with the peer idle again, the other
  -- peers untouched and no delivery left, after 13 rounds, and holds 13 sequences more than
  -- before.
  pub run_var_size_segments_experiment-Restores :
      (p : ℕ) (w : Host P.State)
      → P.Idle (w.peers p)
      → w.inbox ≡ []
      → Meets adapter Safe
          (run_var_size_segments_experiment P adapter p)
          w
          (λ _ w'. Restores P p (record w { held = leaked 13 w.held }) w')
  unfolding run_var_size_segments_experiment doublings
  run_var_size_segments_experiment-Restores p w idle empty =
      let thirteen : doublings (suc max_segment_size) max_segment_size segment_size ≡ 13 = refl in
      let all =
        doubling_meets P {adapter = adapter} {U = Safe} (λ n. Unit {0})
          (λ r w'. Restores P p (record w { held = leaked r w.held }) w') (suc max_segment_size)
          max_segment_size segment_size (measure_segment P adapter p)
          (λ r n w' le pos known is.
            weaken (λ a w'' more. Restores-more p w w' w'' r is more)
              (measure_segment-Restores p n w' is.idle is.none_left))
          (λ n known. tt) (omega arith) (omega arith) (omega arith) tt 0
          (performed (set_timer measure_seconds) w)
          (record {
            same_held = refl;
            same_lost = refl;
            none_left = empty;
            idle = idle;
            others = λ q ne. refl;
          }) in
      calls P _ _ refl (
        bind_meets all (λ a w' is. seoe_each_meets P _ refl (record {
          same_held = is.same_held;
          same_lost = is.same_lost;
          none_left = is.none_left;
          idle = is.idle;
          others = is.others;
        })))
