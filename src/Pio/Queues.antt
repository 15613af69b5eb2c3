-- ===== src/Pio/Queues.antt =====
-- DMA queues: what a start and block_for_dma do to them.
use sisci_perf.Common.{
  ℕ, zero, suc, ◌+◌, ◌≤◌, ◌<◌, ◌≡◌, ◌≢◌, ◌⊎◌, inl, inr, true, false, List, [], ◌∷◌, arith,
  Bool-cases,
}
use sisci_perf.Pio.Meter.{
  Call, start_dma, wait_for_queue, QueueState, idle, gather, posted, done_queue, aborted, failed,
  Outside, Meter, after, logged,
}
use sisci_perf.Pio.Loops.{seoe, is_posted, accept_state, block_for_dma}
use sisci_perf.Pio.Counted.{Ends, goes}
use sisci_perf.Pio.Written.{Healthy}

-- Each transfer of the log was started on a queue whose last one was over.
abbrev pub WellStarted : Outside → List Call → Type 0
WellStarted out [] = Unit {0}
WellStarted out (start_dma q ∷ log) =
    (is_posted out (out.queue_state q log) ≡ false) × WellStarted out log
WellStarted out (c ∷ log) = WellStarted out log

-- What SISCI says of a queue: it is not posted at first, only a transfer on it makes it so, each
-- wait brings it nearer to the end, within `waits` of them, and nothing fails.
pub record Queues (out : Outside) (waits : ℕ) : Type 0 where
  pub left : ℕ → List Call → ℕ
  pub at_first : (q : ℕ) → is_posted out (out.queue_state q []) ≡ false
  pub stays_free :
      (q : ℕ) (c : Call) (log : List Call)
      → c ≢ start_dma q
      → is_posted out (out.queue_state q log) ≡ false
      → is_posted out (out.queue_state q (c ∷ log)) ≡ false
  pub nears :
      (q : ℕ) (log : List Call)
      → is_posted out (out.queue_state q log) ≡ true
      → left q (wait_for_queue q ∷ log) < left q log
  pub bounded : (q : ℕ) (log : List Call) → left q log < waits
  pub sound :
      (q : ℕ) (log : List Call)
      → is_posted out (out.queue_state q log) ≡ false
      → (out.queue_state q log ≡ idle) ⊎ (out.queue_state q log ≡ done_queue)

-- All queues of a set are free.
pub record Free (out : Outside) (in_set : ℕ → Type 0) (m : Meter) : Type 0 where
  pub well : WellStarted out m.log
  pub free : (q : ℕ) → in_set q → is_posted out (out.queue_state q m.log) ≡ false

pub record Started (out : Outside) (m : Meter) : Type 0 where
  pub well : WellStarted out m.log

module _ (out : Outside) (waits : ℕ) (healthy : Healthy out) (queues : Queues out waits) where
  pub start-Ends :
      (from i : ℕ) (m : Meter)
      → Free out (λ q. i ≤ q) m
      → from ≤ m.reads
      → Ends (Free out (λ q. i + 1 ≤ q)) (Started out) from (seoe out (start_dma i) m)
  unfolding seoe logged
  start-Ends from i m is le = rw (healthy.succeeds (start_dma i) m.log) (
      goes _
        (record {
          well = (is.free i (omega arith), is.well);
          free = λ q behind.
              queues.stays_free q (start_dma i) m.log (other q behind) (is.free q (omega arith));
        })
        le)
    where
      other : (q : ℕ) → i + 1 ≤ q → start_dma i ≢ start_dma q
      other q behind e = let same : i ≡ q = cc in omega arith

  accept-Ends :
      (from : ℕ) (Inv : Meter → Type 0) (state : QueueState) (m : Meter)
      → (state ≡ idle) ⊎ (state ≡ done_queue)
      → Inv m
      → from ≤ m.reads
      → Ends Inv (Started out) from (accept_state out state m)
  unfolding accept_state
  accept-Ends from Inv idle m fine inv le = goes m inv le
  accept-Ends from Inv done_queue m fine inv le = goes m inv le
  accept-Ends from Inv gather m (inl e) inv le = cc
  accept-Ends from Inv gather m (inr e) inv le = cc
  accept-Ends from Inv posted m (inl e) inv le = cc
  accept-Ends from Inv posted m (inr e) inv le = cc
  accept-Ends from Inv aborted m (inl e) inv le = cc
  accept-Ends from Inv aborted m (inr e) inv le = cc
  accept-Ends from Inv failed m (inl e) inv le = cc
  accept-Ends from Inv failed m (inr e) inv le = cc

  -- Blocking for a queue frees it, and keeps the others free.
  pub block-Ends :
      (in_set : ℕ → Type 0) (from fuel i : ℕ) (m : Meter)
      → queues.left i m.log < fuel
      → Free out in_set m
      → from ≤ m.reads
      → Ends (Free out (λ q. (q ≡ i) ⊎ in_set q)) (Started out) from (block_for_dma out fuel i m)
  unfolding block_for_dma seoe after logged
  block-Ends in_set from zero i m lt is le = absurd (omega arith)
  block-Ends in_set from (suc fuel) i m lt is le =
      elim (Bool-cases (is_posted out (out.queue_state i m.log))) [
        | inl busy ↦
            rw (busy, healthy.succeeds (wait_for_queue i) m.log)
              (block-Ends in_set from fuel i (logged (wait_for_queue i) m)
                (let n = queues.nears i m.log busy in omega arith)
                (record {
                  well = is.well;
                  free = λ q in_it.
                      queues.stays_free q (wait_for_queue i) m.log (λ e. cc) (is.free q in_it);
                })
                le)
        | inr done ↦ rw done (
            accept-Ends from _ (out.queue_state i m.log) m (queues.sound i m.log done)
              (record { well = is.well; free = freed done }) le)
      ]
    where
      freed :
          is_posted out (out.queue_state i m.log) ≡ false
          → (q : ℕ) → (q ≡ i) ⊎ in_set q
          → is_posted out (out.queue_state q m.log) ≡ false
      freed free_i q (inl e) = rw e free_i
      freed free_i q (inr in_it) = is.free q in_it
