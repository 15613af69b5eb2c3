-- ===== src/Pio/Readback.antt =====
-- The reading loops: they end, and find no mismatch where the writing loops have been.
use sisci_perf.Common.{
  ℕ, suc, ◌+◌, ◌%◌, ◌≤◌, ◌<◌, ◌≡◌, ◌⊎◌, refl, ap, ◌∙◌, true, false, arith, ◌==◌, inl, inr, length,
}
use sisci_perf.Pio.Meter.{Outside, Segments, Meter, logged}
use sisci_perf.Pio.Loops.{
  start_meter, read_flag, count_operation, break_or_count, for_each, check_one, read_element,
  read_pio,
}
use sisci_perf.Pio.Counted.{
  Fires, Ends, goes, Stops, while_running-Stops, after-Ends, for_each-Ends, break_or_count-Ends,
}
use sisci_perf.Pio.Written.{written, stores, Wrote}

-- Every call so far is a load; `ahead` of them are not counted yet.
record Loaded (memory : Segments) (ahead : ℕ) (m : Meter) : Type 0 where
  counted : ahead + m.operations ≡ length m.log
  kept : m.memory ≡ memory

-- At the end: one load at most is not counted.
pub record Read (memory : Segments) (m : Meter) : Type 0 where
  pub counted : (m.operations ≡ length m.log) ⊎ (suc m.operations ≡ length m.log)
  pub left : m.memory ≡ memory

module _ (out : Outside) (elements num_segments : ℕ) (memory : Segments)
    (some_segment : 0 < num_segments)
    (full : (i : ℕ) → i < elements → memory (i % num_segments) i ≡ 1) where
  check_one-Ends :
      (from i : ℕ) (m : Meter)
      → i < elements
      → Loaded memory 0 m
      → from ≤ m.reads
      → Ends (Loaded memory 1) (Read memory) from (check_one out num_segments i m)
  unfolding check_one logged
  check_one-Ends from i m lt is le =
      let e : (num_segments == 0) ≡ false = ground arith in
      let one : m.memory (i % num_segments) i ≡ 1 =
        ap (λ f. f (i % num_segments) i) is.kept ∙ full i lt in
      let t : (m.memory (i % num_segments) i == 1) ≡ true = ground arith in
      rw (e, t) (goes _ (record { counted = let c = is.counted in omega arith; kept = is.kept }) le)

  count-Ends :
      (from : ℕ) (m : Meter)
      → Loaded memory 1 m
      → from ≤ m.reads
      → Ends (Loaded memory 0) (Read memory) from (break_or_count out m)
  unfolding count_operation read_flag
  count-Ends from m is le =
      let c = is.counted in
      break_or_count-Ends out from m le (record { counted = omega arith; kept = is.kept })
        (record { counted = inr (omega arith); left = is.kept })

  read_pio-Stops :
      (T fuel : ℕ)
      → Fires out T
      → T < fuel
      → Stops (Read memory) (read_pio out fuel elements num_segments memory)
  unfolding read_pio start_meter read_element read_flag
  read_pio-Stops T fuel timer enough =
      while_running-Stops {Inv = Loaded memory 0} out T timer
        (for_each out elements 0 (read_element out num_segments))
        (λ m is.
          for_each-Ends out (λ i. Loaded memory 0) (Read memory) elements
            (read_element out num_segments) (m.reads + 1)
            (λ i n lt is_n le.
              after-Ends (m.reads + 1) _ (break_or_count out)
                (check_one-Ends (m.reads + 1) i n lt is_n le)
                (λ k loaded le_k. count-Ends (m.reads + 1) k loaded le_k))
            elements 0 (read_flag m) (omega arith) (record { counted = is.counted; kept = is.kept })
            (omega arith))
        (λ m is. record { counted = inl (let c = is.counted in omega arith); left = is.kept }) fuel
        (start_meter memory) (omega arith) (record { counted = refl; kept = refl })

written-full :
    (count elements num_segments i : ℕ) (memory : Segments)
    → i < elements
    → elements ≤ count
    → written count elements num_segments memory (i % num_segments) i ≡ 1
unfolding written
written-full count elements num_segments i memory lt le = ground arith

-- What a writing loop has left after at least one store to each element, a reading loop over the
-- same number of elements and segments runs through without a mismatch until its own timer fires,
-- whatever that timer is; all of its loads but at most one are counted, and it changes nothing.
pub read_pio-written :
    (out : Outside) (T fuel elements num_segments : ℕ) (memory : Segments) (m : Meter)
    → 0 < num_segments
    → Wrote elements num_segments memory m
    → elements ≤ stores m.log
    → Fires out T
    → T < fuel
    → Stops (Read m.memory) (read_pio out fuel elements num_segments m.memory)
read_pio-written out T fuel elements num_segments memory m some_segment is enough timer
      fuel_enough =
    read_pio-Stops out elements num_segments m.memory some_segment
      (λ i lt.
        ap (λ f. f (i % num_segments) i) is.left
        ∙ written-full (stores m.log) elements num_segments i memory lt enough)
      T fuel timer fuel_enough
