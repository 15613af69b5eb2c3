-- ===== src/Pio/Counted.antt =====
-- The loop `while (!timer_expired)` of lib/common_read_write_functions.h for any body: it ends once
-- the timer has fired.
use sisci_perf.Common.{
  ℕ, zero, suc, ◌+◌, ◌-◌, ◌≤◌, ◌<◌, ◌≡◌, sym, subst, ◌∙◌, true, false, arith, Bool-cases, inl, inr,
  dec_lt,
}
use sisci_perf.Pio.Meter.{Outside, Meter, Ran, on, expired, after}
use sisci_perf.Pio.Loops.{read_flag, count_operation, break_or_count, while_running, for_each}

-- The timer has fired by the T-th read of the flag, and the flag stays set: nothing but start_timer
-- resets it.
pub record Fires (out : Outside) (T : ℕ) : Type 0 where
  pub fired : out.clock T ≡ true
  pub stays : (k : ℕ) → out.clock k ≡ true → out.clock (k + 1) ≡ true

-- A piece of a loop goes on with `Inv`, or breaks with `End`.
pub data Ends (Inv End : Meter → Type 0) (from : ℕ) : Ran → Type 0 where
  goes : (m : Meter) → Inv m → from ≤ m.reads → Ends Inv End from (on m)
  stops : (m : Meter) → End m → Ends Inv End from (expired m)

-- A whole loop ends since the timer has expired.
pub data Stops (End : Meter → Type 0) : Ran → Type 0 where
  stopped : (m : Meter) → End m → Stops End (expired m)

fired_later : (out : Outside) (T d : ℕ) → Fires out T → out.clock (T + d) ≡ true
fired_later out T zero is = let e : T + 0 ≡ T = omega arith in rw e is.fired
fired_later out T (suc d) is =
    let e : T + d + 1 ≡ T + suc d = omega arith in
    rw (← e) (is.stays (T + d) (fired_later out T d is))

running_before : (out : Outside) (T k : ℕ) → Fires out T → out.clock k ≡ false → k < T
running_before out T k is e = elim (dec_lt k T) [
  | yes lt ↦ lt
  | no ge ↦
      let late = fired_later out T (k - T) is in
      let same : T + (k - T) ≡ k = omega arith in
      let c : true ≡ false = sym (rw same at late) ∙ e in ground arith
]

round-Stops :
    {Inv End : Meter → Type 0}
    → (from : ℕ) (r : Ran) (next : Meter → Ran) → Ends Inv End from r
    → ((m : Meter) → Inv m → from ≤ m.reads → Stops End (next m))
    → Stops End (after r next)
unfolding after
round-Stops from _ next (goes m inv le) then_stops = then_stops m inv le
round-Stops from _ next (stops m end) then_stops = stopped m end

-- With a timer that fires, fuel for each read of the flag up to then is enough. What holds at the
-- end, and in the body, may rest on what the flag was when it was read.
pub while_reading-Stops :
    {Inv End : Meter → Type 0}
    → (out : Outside) (T : ℕ) → Fires out T
    → (body : Meter → Ran)
    → ((m : Meter)
        → Inv m
        → out.clock m.reads ≡ false
        → Ends Inv End (m.reads + 1) (body (read_flag m)))
    → ((m : Meter) → Inv m → out.clock m.reads ≡ true → End (read_flag m))
    → (fuel : ℕ) (m : Meter) → T - m.reads < fuel
    → Inv m
    → Stops End (while_running out fuel body m)
unfolding while_running
while_reading-Stops out T timer body step early zero m lt inv = absurd (omega arith)
while_reading-Stops out T timer body step early (suc fuel) m lt inv =
    elim (Bool-cases (out.clock m.reads)) [
      | inl end ↦ rw end (stopped (read_flag m) (early m inv end))
      | inr running ↦
          let before = running_before out T m.reads timer running in
          rw running (
            round-Stops (m.reads + 1) (body (read_flag m)) (while_running out fuel body)
              (step m inv running)
              (λ n inv_n le.
                while_reading-Stops out T timer body step early fuel n (omega arith) inv_n))
    ]

pub while_running-Stops :
    {Inv End : Meter → Type 0}
    → (out : Outside) (T : ℕ) → Fires out T
    → (body : Meter → Ran) → ((m : Meter) → Inv m → Ends Inv End (m.reads + 1) (body (read_flag m)))
    → ((m : Meter) → Inv m → End (read_flag m))
    → (fuel : ℕ) (m : Meter) → T - m.reads < fuel
    → Inv m
    → Stops End (while_running out fuel body m)
while_running-Stops out T timer body step early =
    while_reading-Stops out T timer body (λ m inv e. step m inv) (λ m inv e. early m inv)

pub after-Ends :
    {Inv Next End : Meter → Type 0}
    → (from : ℕ) (r : Ran) (next : Meter → Ran) → Ends Inv End from r
    → ((m : Meter) → Inv m → from ≤ m.reads → Ends Next End from (next m))
    → Ends Next End from (after r next)
unfolding after
after-Ends from _ next (goes m inv le) then_ends = then_ends m inv le
after-Ends from _ next (stops m end) then_ends = stops m end

-- The loop over the elements, with an invariant that knows how far it is.
pub for_each-Ends :
    (out : Outside) (Inv : ℕ → Meter → Type 0) (End : Meter → Type 0) (n : ℕ)
    (body : ℕ → Meter → Ran) (from : ℕ)
    → ((i : ℕ) (m : Meter)
        → i < n
        → Inv i m
        → from ≤ m.reads
        → Ends (Inv (i + 1)) End from (body i m))
    → (left i : ℕ) (m : Meter) → i + left ≡ n
    → Inv i m
    → from ≤ m.reads
    → Ends (Inv n) End from (for_each out left i body m)
unfolding for_each
for_each-Ends out Inv End n body from step zero i m e inv le =
    let same : i ≡ n = omega arith in goes m (subst (λ k. Inv k m) same inv) le
for_each-Ends out Inv End n body from step (suc left) i m e inv le =
    after-Ends from (body i m) (for_each out left (i + 1) body) (step i m (omega arith) inv le)
      (λ k inv_k le_k.
        for_each-Ends out Inv End n body from step left (i + 1) k (omega arith) inv_k le_k)

-- The end of a body: the timer has expired, or one more operation is counted.
pub break_or_count_by :
    {Inv End : Meter → Type 0}
    → (out : Outside) (from : ℕ) (m : Meter) → from ≤ m.reads
    → (out.clock m.reads ≡ false → Inv (count_operation (read_flag m)))
    → (out.clock m.reads ≡ true → End (read_flag m))
    → Ends Inv End from (break_or_count out m)
unfolding break_or_count count_operation read_flag
break_or_count_by out from m le inv end =
    let later : from ≤ m.reads + 1 = omega arith in
    elim (Bool-cases (out.clock m.reads)) [
      | inl fired ↦ rw fired (stops (read_flag m) (end fired))
      | inr running ↦ rw running (goes (count_operation (read_flag m)) (inv running) later)
    ]

pub break_or_count-Ends :
    {Inv End : Meter → Type 0}
    → (out : Outside) (from : ℕ) (m : Meter) → from ≤ m.reads
    → Inv (count_operation (read_flag m))
    → End (read_flag m)
    → Ends Inv End from (break_or_count out m)
break_or_count-Ends out from m le inv end = break_or_count_by out from m le (λ e. inv) (λ e. end)
