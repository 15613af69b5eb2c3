-- ===== src/Pio/Written.antt =====
-- What the writing loops leave in the segments, and that the reading loops find it.
use sisci_perf.Common.{
  ℕ, suc, ◌+◌, ◌/◌, ◌%◌, ◌≤◌, ◌<◌, ◌≡◌, ◌⊎◌, refl, sym, ap, ◌∙◌, fun_ext, true, false, ◌&&◌, List,
  [], ◌∷◌, arith, ltb, ◌==◌, if◌then◌else◌, inl, inr,
}
use sisci_perf.Pio.Meter.{
  Call, store, load, flush, check_sequence, sci_mem_copy, start_dma, start_dma_vec, wait_for_queue,
  trigger, trigger_data, Outside, Segments, Meter, Ran, after, logged, is_ok, put,
}
use sisci_perf.Pio.Loops.{
  PioFlags, no_seq, flush_seq, chk_seq, start_meter, read_flag, count_operation, break_or_count,
  for_each, seoe, check_status, order_store, store_one, write_element, write_pio, write_pio_byte,
  write_pio_word, write_pio_dword, write_pio_qword,
}
use sisci_perf.Pio.Counted.{
  Fires, Ends, goes, stops, Stops, while_running-Stops, after-Ends, for_each-Ends,
  break_or_count-Ends,
}

-- The number of stores in a log.
unfoldable pub stores : List Call → ℕ
stores [] = 0
stores (store s i ∷ log) = suc (stores log)
stores (load s i ∷ log) = stores log
stores (flush ∷ log) = stores log
stores (check_sequence ∷ log) = stores log
stores (sci_mem_copy i ∷ log) = stores log
stores (start_dma q ∷ log) = stores log
stores (start_dma_vec ∷ log) = stores log
stores (wait_for_queue q ∷ log) = stores log
stores (trigger ∷ log) = stores log
stores (trigger_data ∷ log) = stores log

-- What `count` stores in the order of the elements leave: element i stands in segment
-- i % num_segments.
unfoldable pub written : (count elements num_segments : ℕ) → Segments → Segments
written count elements num_segments memory s i =
    if ltb i count && ltb i elements && (s == i % num_segments) then 1 else memory s i

-- A call that SISCI answers without an error, and a sequence in order.
pub record Healthy (out : Outside) : Type 0 where
  pub succeeds : (c : Call) (log : List Call) → is_ok (out.error c log) ≡ true
  pub in_order : (log : List Call) → out.sequence_ok log ≡ true

-- Behind the element `i`, with `count` stores made.
record WroteUpTo (elements num_segments : ℕ) (memory : Segments) (i : ℕ) (m : Meter) : Type 0 where
  counted : m.operations ≡ stores m.log
  place : (stores m.log ≡ i) ⊎ (elements ≤ stores m.log)
  kept : m.memory ≡ written (stores m.log) elements num_segments memory

-- At the end: every operation is a store, and one store at most is not counted.
pub record Wrote (elements num_segments : ℕ) (memory : Segments) (m : Meter) : Type 0 where
  pub counted : (m.operations ≡ stores m.log) ⊎ (suc m.operations ≡ stores m.log)
  pub left : m.memory ≡ written (stores m.log) elements num_segments memory

written-none :
    (elements num_segments : ℕ) (memory : Segments)
    → written 0 elements num_segments memory ≡ memory
unfolding written
written-none elements num_segments memory = fun_ext λ s. fun_ext λ i. ground arith

put-written :
    (count elements num_segments i : ℕ) (memory : Segments)
    → i < elements
    → (count ≡ i) ⊎ (elements ≤ count)
    → put (i % num_segments) i 1 (written count elements num_segments memory)
      ≡ written (suc count) elements num_segments memory
unfolding put written
put-written count elements num_segments i memory lt place = fun_ext λ s. fun_ext λ k. ground arith

-- Between the store of element i and the count.
record Stored (elements num_segments : ℕ) (memory : Segments) (i : ℕ) (m : Meter) : Type 0 where
  ahead : suc m.operations ≡ stores m.log
  place : (stores m.log ≡ i + 1) ⊎ (elements ≤ stores m.log)
  kept : m.memory ≡ written (stores m.log) elements num_segments memory

module _ (out : Outside) (elements num_segments : ℕ) (memory : Segments)
    (some_segment : 0 < num_segments) where
  store_one-Ends :
      (from i : ℕ) (m : Meter)
      → i < elements
      → WroteUpTo elements num_segments memory i m
      → from ≤ m.reads
      → Ends
          (Stored elements num_segments memory i)
          (Wrote elements num_segments memory)
          from
          (store_one out num_segments i m)
  unfolding store_one stores
  store_one-Ends from i m lt is le =
      let e : (num_segments == 0) ≡ false = ground arith in
      let c = is.counted in
      let p = is.place in
      rw e (
        goes _
          (record {
            ahead = ap suc c;
            place = ground arith;
            kept =
                ap (put (i % num_segments) i 1) is.kept
                ∙ put-written (stores m.log) elements num_segments i memory lt p;
          })
          le)

  order_store-Ends :
      (from i : ℕ) (flags : PioFlags) (m : Meter)
      → Healthy out
      → Stored elements num_segments memory i m
      → from ≤ m.reads
      → Ends
          (Stored elements num_segments memory i)
          (Wrote elements num_segments memory)
          from
          (order_store out flags m)
  unfolding order_store seoe check_status after logged stores
  order_store-Ends from i no_seq m healthy is le = goes m is le
  order_store-Ends from i flush_seq m healthy is le =
      goes _ (record { ahead = is.ahead; place = is.place; kept = is.kept }) le
  order_store-Ends from i chk_seq m healthy is le =
      rw (healthy.succeeds check_sequence m.log, healthy.in_order (check_sequence ∷ m.log))
        (goes _ (record { ahead = is.ahead; place = is.place; kept = is.kept }) le)

  count-Ends :
      (from i : ℕ) (m : Meter)
      → Stored elements num_segments memory i m
      → from ≤ m.reads
      → Ends
          (WroteUpTo elements num_segments memory (i + 1))
          (Wrote elements num_segments memory)
          from
          (break_or_count out m)
  unfolding count_operation read_flag
  count-Ends from i m is le =
      break_or_count-Ends out from m le
        (record { counted = let a = is.ahead in omega arith; place = is.place; kept = is.kept })
        (record { counted = inr is.ahead; left = is.kept })

  write_element-Ends :
      (from i : ℕ) (flags : PioFlags) (m : Meter)
      → Healthy out
      → i < elements
      → WroteUpTo elements num_segments memory i m
      → from ≤ m.reads
      → Ends
          (WroteUpTo elements num_segments memory (i + 1))
          (Wrote elements num_segments memory)
          from
          (write_element out num_segments flags i m)
  unfolding write_element
  write_element-Ends from i flags m healthy lt is le =
      after-Ends from _ (break_or_count out)
        (after-Ends from (store_one out num_segments i m) (order_store out flags)
          (store_one-Ends from i m lt is le)
          (λ n stored le_n. order_store-Ends from i flags n healthy stored le_n))
        (λ n stored le_n. count-Ends from i n stored le_n)

  after_pass :
      (reads : ℕ) {r : Ran}
      → Ends
          (WroteUpTo elements num_segments memory elements)
          (Wrote elements num_segments memory)
          (reads + 1)
          r
      → Ends
          (WroteUpTo elements num_segments memory 0)
          (Wrote elements num_segments memory)
          (reads + 1)
          r
  after_pass reads (goes m is le) =
      goes m
        (record {
          counted = is.counted;
          place = inr (let p = is.place in ground arith);
          kept = is.kept;
        })
        le
  after_pass reads (stops m end) = stops m end

  write_pio-Stops :
      (T fuel : ℕ) (flags : PioFlags)
      → Healthy out
      → Fires out T
      → T < fuel
      → Stops
          (Wrote elements num_segments memory)
          (write_pio out fuel elements num_segments flags memory)
  unfolding write_pio start_meter stores read_flag
  write_pio-Stops T fuel flags healthy timer enough =
      while_running-Stops {Inv = WroteUpTo elements num_segments memory 0} out T timer
        (for_each out elements 0 (write_element out num_segments flags))
        (λ m is. after_pass m.reads (
          for_each-Ends out (WroteUpTo elements num_segments memory)
            (Wrote elements num_segments memory) elements (write_element out num_segments flags)
            (m.reads + 1)
            (λ i n lt is_n le. write_element-Ends (m.reads + 1) i flags n healthy lt is_n le)
            elements 0 (read_flag m) (omega arith)
            (record { counted = is.counted; place = is.place; kept = is.kept }) (omega arith)))
        (λ m is. record { counted = inl is.counted; left = is.kept }) fuel (start_meter memory)
        (omega arith)
        (record {
          counted = refl;
          place = inl refl;
          kept = sym (written-none elements num_segments memory);
        })

-- For each of the four widths, with calls that succeed, at least one segment and a timer that fires
-- by its T-th read, the writing loop ends with that and neither exits nor goes on for ever. The
-- segments then hold 1 at each element that was reached, in the order of the elements and in the
-- segments by turns, and what they held before elsewhere; `operations` is the number of stores, or
-- one less.
pub write_pio_widths-Stops :
    (out : Outside) (segment_size num_segments T fuel : ℕ) (flags : PioFlags) (memory : Segments)
    → 0 < num_segments
    → Healthy out
    → Fires out T
    → T < fuel
    → Stops
        (Wrote segment_size num_segments memory)
        (write_pio_byte out fuel segment_size num_segments flags memory)
      × Stops
          (Wrote (segment_size / 2) num_segments memory)
          (write_pio_word out fuel segment_size num_segments flags memory)
      × Stops
          (Wrote (segment_size / 4) num_segments memory)
          (write_pio_dword out fuel segment_size num_segments flags memory)
      × Stops
          (Wrote (segment_size / 8) num_segments memory)
          (write_pio_qword out fuel segment_size num_segments flags memory)
unfolding write_pio_byte write_pio_word write_pio_dword write_pio_qword
write_pio_widths-Stops out segment_size num_segments T fuel flags memory some_segment healthy timer
      enough =
    (
      write_pio-Stops out segment_size num_segments memory some_segment T fuel flags healthy timer
          enough,
      write_pio-Stops out (segment_size / 2) num_segments memory some_segment T fuel flags healthy
          timer enough,
      write_pio-Stops out (segment_size / 4) num_segments memory some_segment T fuel flags healthy
          timer enough,
      write_pio-Stops out (segment_size / 8) num_segments memory some_segment T fuel flags healthy
          timer enough,
    )
