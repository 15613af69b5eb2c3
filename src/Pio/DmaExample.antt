-- ===== src/Pio/DmaExample.antt =====
-- Queues whose transfers take two waits.
use sisci_perf.Common.{
  ℕ, zero, suc, ◌-◌, ◌<◌, ◌≡◌, ◌≢◌, inl, inr, refl, true, false, leb, List, [], ◌∷◌, ◌==◌,
  if◌then◌else◌, arith, Bool-cases,
}
use sisci_perf.Pio.Meter.{
  Outside, Segments, Call, store, load, flush, check_sequence, sci_mem_copy, start_dma,
  start_dma_vec, wait_for_queue, trigger, trigger_data, QueueState, idle, posted, err_ok, is_ok,
}
use sisci_perf.Pio.Loops.{is_posted, write_dma, read_dma, write_dma_broadcast}
use sisci_perf.Pio.Counted.{Fires, Stops}
use sisci_perf.Pio.Written.{Healthy}
use sisci_perf.Pio.Queues.{Queues, Started}
use sisci_perf.Pio.Dma.{dma-Stops}

-- The waits that a queue still takes.
abbrev pending : ℕ → List Call → ℕ
pending q [] = 0
pending q (start_dma i ∷ log) = if i == q then 2 else pending q log
pending q (wait_for_queue i ∷ log) = if i == q then pending q log - 1 else pending q log
pending q (c ∷ log) = pending q log

abbrev state_of : ℕ → QueueState
state_of zero = idle
state_of (suc n) = posted

abbrev slow : Outside
slow = record {
  clock = λ n. leb 100 n;
  error = λ c log. err_ok;
  sequence_ok = λ log. true;
  queue_state = λ q log. state_of (pending q log);
}

slow-Fires : Fires slow 100
slow-Fires = record { fired = refl; stays = λ k e. ground arith }

slow-Healthy : Healthy slow
unfolding is_ok
slow-Healthy = record { succeeds = λ c log. refl; in_order = λ log. refl }

pending-bounded : (q : ℕ) (log : List Call) → pending q log < 3
pending-bounded q [] = omega arith
pending-bounded q (start_dma i ∷ log) = let b = pending-bounded q log in ground arith
pending-bounded q (wait_for_queue i ∷ log) = let b = pending-bounded q log in ground arith
pending-bounded q (store s i ∷ log) = pending-bounded q log
pending-bounded q (load s i ∷ log) = pending-bounded q log
pending-bounded q (flush ∷ log) = pending-bounded q log
pending-bounded q (check_sequence ∷ log) = pending-bounded q log
pending-bounded q (sci_mem_copy i ∷ log) = pending-bounded q log
pending-bounded q (start_dma_vec ∷ log) = pending-bounded q log
pending-bounded q (trigger ∷ log) = pending-bounded q log
pending-bounded q (trigger_data ∷ log) = pending-bounded q log

is_posted-idle : (n : ℕ) → is_posted slow (state_of n) ≡ false → n ≡ 0
unfolding is_posted
is_posted-idle zero e = refl
is_posted-idle (suc n) e = cc

is_posted-busy : (n : ℕ) → is_posted slow (state_of n) ≡ true → 0 < n
unfolding is_posted
is_posted-busy zero e = cc
is_posted-busy (suc n) e = omega arith

idle_free : (n : ℕ) → n ≡ 0 → is_posted slow (state_of n) ≡ false
unfolding is_posted
idle_free n e = rw e

pending-stays :
    (q : ℕ) (c : Call) (log : List Call)
    → c ≢ start_dma q
    → pending q log ≡ 0
    → pending q (c ∷ log) ≡ 0
pending-stays q (start_dma i) log ne e = elim (Bool-cases (i == q)) [
  | inl same ↦ let s : i ≡ q = ground arith in absurd (ne (rw s))
  | inr other ↦ rw other e
]
pending-stays q (wait_for_queue i) log ne e = ground arith
pending-stays q (store s i) log ne e = e
pending-stays q (load s i) log ne e = e
pending-stays q flush log ne e = e
pending-stays q check_sequence log ne e = e
pending-stays q (sci_mem_copy i) log ne e = e
pending-stays q start_dma_vec log ne e = e
pending-stays q trigger log ne e = e
pending-stays q trigger_data log ne e = e

slow-Queues : Queues slow 3
slow-Queues = record {
  left = pending;
  at_first = λ q. idle_free 0 refl;
  stays_free = λ q c log ne free.
      idle_free (pending q (c ∷ log))
        (pending-stays q c log ne (is_posted-idle (pending q log) free));
  nears = λ q log busy. let b = is_posted-busy (pending q log) busy in ground arith;
  bounded = pending-bounded;
  sound = λ q log free. let e = is_posted-idle (pending q log) free in inl (rw e);
}

abbrev zeros : Segments
zeros s i = 0

dma_example :
    Stops (Started slow) (write_dma slow 101 3 4 zeros)
    × Stops (Started slow) (read_dma slow 101 3 4 zeros)
    × Stops (Started slow) (write_dma_broadcast slow 101 3 zeros)
dma_example = dma-Stops slow 100 101 3 4 zeros slow-Healthy slow-Queues slow-Fires (omega arith)
