-- ===== src/Pio/Calls.antt =====
-- The loops that make one call of SISCI in a round: memcpy_write_pio, memcpy_read_pio,
-- trigger_interrupt and trigger_data_interrupt.
use sisci_perf.Common.{
  ℕ, zero, suc, ◌+◌, ◌-◌, ◌*◌, ◌≤◌, ◌<◌, ◌≡◌, ◌⊎◌, false, List, [], ◌∷◌, length, ◌==◌,
  if◌then◌else◌,
}
use sisci_perf.Pio.Meter.{Call, sci_mem_copy, Outside, Meter}
use sisci_perf.Pio.Counted.{Fires}

-- The first calls of a sequence, the latest first.
abbrev pub made : (ℕ → Call) → ℕ → List Call
made call zero = []
made call (suc k) = call k ∷ made call k

-- Whose turn it is after k turns: 0, 1, ..., num - 1, 0, 1, ...
unfoldable pub turn : (num k : ℕ) → ℕ
turn num zero = 0
turn num (suc k) = let i = turn num k in if i + 1 == num then 0 else i + 1

-- The flag is unset at each of its first T reads, and set from then on.
pub record FiresAt (out : Outside) (T : ℕ) : Type 0 where
  pub fires : Fires out T
  pub before : (k : ℕ) → k < T → out.clock k ≡ false

-- At the end: the read that found the flag set is the first that could; the calls are those of the
-- sequence, with one read of the flag for each at least, and two for each and one more at most; and
-- one call at most is not counted.
pub record Called (T : ℕ) (call : ℕ → Call) (m : Meter) : Type 0 where
  pub at_once : m.reads ≡ suc T
  pub in_turn : m.log ≡ made call (length m.log)
  pub read_after_each : length m.log ≤ m.reads
  pub called_between : m.reads ≤ 2 * length m.log + 1
  pub counted : (m.operations ≡ length m.log) ⊎ (suc m.operations ≡ length m.log)

-- While the loop runs, with the calls not counted yet and the reads not followed by a call yet.
record Running (T : ℕ) (call : ℕ → Call) (ahead extra : ℕ) (m : Meter) : Type 0 where
  in_time : m.reads ≤ T
  in_turn : m.log ≡ made call (length m.log)
  few_calls : length m.log ≤ m.reads + ahead
  few_reads : m.reads + ahead ≤ 2 * length m.log + extra
  counted : ahead + m.operations ≡ length m.log

-- The same in the loop over the segments, which is at segment i.
record Turning (T num i : ℕ) (m : Meter) : Type 0 where
  running : Running T (λ k. sci_mem_copy (turn num k)) 0 (1 - i) m
  at : turn num (length m.log) ≡ (if i == num then 0 else i)
