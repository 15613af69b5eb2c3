-- ===== src/Pio/Dma.antt =====
-- The DMA loops: when a transfer is started, the queue's last one must be over.
use sisci_perf.Common.{ℕ, zero, suc, ◌+◌, ◌≤◌, ◌<◌, ◌≡◌, ◌⊎◌, inl, inr, refl, arith, dec_lt}
use sisci_perf.Pio.Meter.{start_dma, Outside, Segments, Meter, Ran, after}
use sisci_perf.Pio.Loops.{
  start_meter, read_flag, count_operation, break_or_count, while_running, for_each, seoe,
  block_for_dma, dma_round, write_dma, read_dma, write_dma_broadcast,
}
use sisci_perf.Pio.Counted.{
  Fires, Ends, goes, stops, Stops, while_running-Stops, after-Ends, for_each-Ends,
  break_or_count-Ends,
}
use sisci_perf.Pio.Written.{Healthy}
use sisci_perf.Pio.Queues.{Queues, Free, Started, start-Ends, block-Ends}

module _ (out : Outside) (waits : ℕ) (healthy : Healthy out) (queues : Queues out waits) where
  -- What holds between two rounds.
  abbrev AllFree : Meter → Type 0
  AllFree = Free out (λ q. 0 ≤ q)

  flag-AllFree : (m : Meter) → AllFree m → AllFree (read_flag m)
  unfolding read_flag
  flag-AllFree m is = record { well = is.well; free = is.free }

  count-Ends :
      (from : ℕ) (m : Meter)
      → AllFree m
      → from ≤ m.reads
      → Ends AllFree (Started out) from (break_or_count out m)
  unfolding count_operation read_flag
  count-Ends from m is le =
      break_or_count-Ends out from m le (record { well = is.well; free = is.free })
        (record { well = is.well })

  weaken-Ends :
      (from : ℕ) {A B : ℕ → Type 0} (r : Ran)
      → ((q : ℕ) → B q → A q)
      → Ends (Free out A) (Started out) from r
      → Ends (Free out B) (Started out) from r
  weaken-Ends from _ into (goes m is le) =
      goes m (record { well = is.well; free = λ q b. is.free q (into q b) }) le
  weaken-Ends from _ into (stops m end) = stops m end

  start_all-Ends :
      (from remotes : ℕ) (m : Meter)
      → AllFree m
      → from ≤ m.reads
      → Ends
          (Free out (λ q. remotes ≤ q))
          (Started out)
          from
          (for_each out remotes 0 (λ i. seoe out (start_dma i)) m)
  start_all-Ends from remotes m is le =
      for_each-Ends out (λ i. Free out (λ q. i ≤ q)) (Started out) remotes
        (λ i. seoe out (start_dma i)) from
        (λ i n lt is_n le_n. start-Ends out waits healthy queues from i n is_n le_n) remotes 0 m
        (omega arith) is le

  block_all-Ends :
      (from remotes : ℕ) (m : Meter)
      → Free out (λ q. remotes ≤ q) m
      → from ≤ m.reads
      → Ends AllFree (Started out) from (for_each out remotes 0 (block_for_dma out waits) m)
  block_all-Ends from remotes m is le =
      weaken-Ends from _ (λ q any. every q)
        (for_each-Ends out (λ i. Free out (λ q. (q < i) ⊎ (remotes ≤ q))) (Started out) remotes
          (block_for_dma out waits) from
          (λ i n lt is_n le_n.
            weaken-Ends from _ (λ q. split i q)
              (block-Ends out waits healthy queues (λ q. (q < i) ⊎ (remotes ≤ q)) from waits i n
                (queues.bounded i n.log) is_n le_n))
          remotes 0 m (omega arith)
          (record { well = is.well; free = λ q in_it. is.free q (beyond q in_it) }) le)
    where
      every : (q : ℕ) → (q < remotes) ⊎ (remotes ≤ q)
      every q = elim (dec_lt q remotes) [ yes lt ↦ inl lt | no ge ↦ inr (omega arith) ]

      beyond : (q : ℕ) → (q < 0) ⊎ (remotes ≤ q) → remotes ≤ q
      beyond q (inl lt) = absurd (omega arith)
      beyond q (inr ge) = ge

      split : (i q : ℕ) → (q < i + 1) ⊎ (remotes ≤ q) → (q ≡ i) ⊎ ((q < i) ⊎ (remotes ≤ q))
      split i q (inr ge) = inr (inr ge)
      split i q (inl lt) = elim (dec_lt q i) [
        | yes less ↦ inr (inl less)
        | no more ↦ inl (omega arith)
      ]

  dma_round-Ends :
      (from remotes : ℕ) (m : Meter)
      → AllFree m
      → from ≤ m.reads
      → Ends AllFree (Started out) from (dma_round out waits remotes m)
  unfolding dma_round
  dma_round-Ends from remotes m is le =
      after-Ends from _ (break_or_count out)
        (after-Ends from _ (for_each out remotes 0 (block_for_dma out waits))
          (start_all-Ends from remotes m is le)
          (λ n free le_n. block_all-Ends from remotes n free le_n))
        (λ n free le_n. count-Ends from n free le_n)

  broadcast-Ends :
      (from : ℕ) (m : Meter)
      → AllFree m
      → from ≤ m.reads
      → Ends AllFree (Started out) from (
          after (after (seoe out (start_dma 0) m) (block_for_dma out waits 0)) (break_or_count out))
  broadcast-Ends from m is le =
      after-Ends from _ (break_or_count out)
        (after-Ends from _ (block_for_dma out waits 0)
          (start-Ends out waits healthy queues from 0 m is le)
          (λ n free le_n. weaken-Ends from _ split (
            block-Ends out waits healthy queues (λ q. 1 ≤ q) from waits 0 n (queues.bounded 0 n.log)
              free le_n)))
        (λ n free le_n. count-Ends from n free le_n)
    where
      split : (q : ℕ) → 0 ≤ q → (q ≡ 0) ⊎ (1 ≤ q)
      split zero any = inl refl
      split (suc q) any = inr (omega arith)

  loop-Stops :
      (T fuel : ℕ) (memory : Segments) (body : Meter → Ran)
      → Fires out T
      → T < fuel
      → ((from : ℕ) (m : Meter)
          → AllFree m
          → from ≤ m.reads
          → Ends AllFree (Started out) from (body m))
      → Stops (Started out) (while_running out fuel body (start_meter memory))
  unfolding start_meter read_flag
  loop-Stops T fuel memory body timer enough ends =
      while_running-Stops {Inv = AllFree} out T timer body
        (λ m is. ends (m.reads + 1) (read_flag m) (flag-AllFree m is) (omega arith))
        (λ m is. record { well = is.well }) fuel (start_meter memory) (omega arith)
        (record { well = tt; free = λ q any. queues.at_first q })

-- With calls that succeed, queues that each wait brings nearer to the end of their transfer, and a
-- timer that fires, the DMA loops over several queues (for writing and for reading) and the
-- broadcast end with the timer, and never start a transfer on a queue whose last one is not over.
pub dma-Stops :
    (out : Outside) (T fuel waits remotes : ℕ) (memory : Segments)
    → Healthy out
    → Queues out waits
    → Fires out T
    → T < fuel
    → Stops (Started out) (write_dma out fuel waits remotes memory)
      × Stops (Started out) (read_dma out fuel waits remotes memory)
      × Stops (Started out) (write_dma_broadcast out fuel waits memory)
unfolding write_dma read_dma write_dma_broadcast
dma-Stops out T fuel waits remotes memory healthy queues timer enough =
    let loop = loop-Stops out waits healthy queues T fuel memory in
    let round = λ (from : ℕ) (m : Meter). dma_round-Ends out waits healthy queues from remotes m in
    (
      loop (dma_round out waits remotes) timer enough round,
      loop (dma_round out waits remotes) timer enough round,
      loop _ timer enough (broadcast-Ends out waits healthy queues),
    )
