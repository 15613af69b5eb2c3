-- ===== src/Pio/Meter.antt =====
-- What the timed loops of lib/common_read_write_functions.h see and change: the flag that the
-- timer's handler sets, the counter `operations`, the mapped segments and the calls into SISCI.
use sisci_perf.Common.{ℕ, Bool, true, false, ◌&&◌, List, ◌∷◌, ◌==◌, if◌then◌else◌}

pub data Call : Type 0 where
  store : (segment index : ℕ) → Call
  load : (segment index : ℕ) → Call
  flush : Call
  check_sequence : Call
  sci_mem_copy : (map : ℕ) → Call
  start_dma : (queue : ℕ) → Call
  start_dma_vec : Call
  wait_for_queue : (queue : ℕ) → Call
  trigger : Call
  trigger_data : Call

-- sci_dma_queue_state_t.
pub data QueueState : Type 0 where
  idle gather posted done_queue aborted failed : QueueState

-- sci_error_t, as far as the loops tell its values apart.
pub data SciError : Type 0 where
  err_ok err_nospc err_other : SciError

-- What the loops do not decide: the flag at its n-th read, and how a call turns out, which may
-- hang on all calls so far.
pub record Outside : Type 0 where
  pub clock : ℕ → Bool
  pub error : Call → List Call → SciError
  pub sequence_ok : List Call → Bool
  pub queue_state : ℕ → List Call → QueueState

abbrev pub Segments : Type 0
Segments = (segment index : ℕ) → ℕ

-- `reads` counts the reads of timer_expired; the log has the latest call first.
pub record Meter : Type 0 where
  pub reads : ℕ
  pub operations : ℕ
  pub memory : Segments
  pub log : List Call

-- How a piece of a loop ends: it goes on, it breaks since the timer has expired, the process exits,
-- the behaviour is undefined, or the fuel is used up.
pub data Ran : Type 0 where
  on : Meter → Ran
  expired : Meter → Ran
  exited : Meter → Ran
  fault : Meter → Ran
  unfinished : Meter → Ran

unfoldable pub after : Ran → (Meter → Ran) → Ran
after (on m) next = next m
after (expired m) next = expired m
after (exited m) next = exited m
after (fault m) next = fault m
after (unfinished m) next = unfinished m

unfoldable pub logged : Call → Meter → Meter
logged c m = record {
  reads = m.reads;
  operations = m.operations;
  memory = m.memory;
  log = c ∷ m.log;
}

unfoldable pub is_ok : SciError → Bool
is_ok err_ok = true
is_ok err_nospc = false
is_ok err_other = false

unfoldable pub put : (segment index value : ℕ) → Segments → Segments
put segment index value memory s k = if (s == segment) && (k == index) then value else memory s k
