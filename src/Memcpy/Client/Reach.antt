-- ===== src/Memcpy/Client/Reach.antt =====
-- Every line that is due is printed by the sweeps of the memcpy client.
use sisci_perf.Common.{
  ℕ, zero, suc, ◌*◌, ◌^◌, ◌≤◌, ◌<◌, ◌≡◌, refl, ap, ◌⊎◌, dec_lt, inl, inr, true, List, [], ◌∷◌,
  arith, leb,
}
use mathlib.Core.List.Memᴰ
use mathlib.Core.List.{Memᴰ}
use sisci_perf.Memcpy.Client.{
  Routine, chunks_8, chunks_32, chunks_64, nonvol_64, os_copy, tuned, nobranch, memmove, scicopy,
  two_halves, memcopy, load_stream_store, loadu_storeu, Row, Item, always, if_at_least,
  single_sweeps, majloop, int_fuel,
}
use sisci_perf.Memcpy.Client.Due.{smallest, IsDue, all_rows}
use sisci_perf.Memcpy.Client.Sweeps.{
  row, item_rows, items_rows, sweep_rows, sweeps_rows, double_power, power_pos, times_pos,
}

-- A size that the loop reaches is measured with what its body measures.
sweep_rows-reach :
    (count k first bytes : ℕ) (items : List Item) (r : Row)
    → k < count
    → first * 2 ^ k ≤ bytes
    → Memᴰ r (items_rows (first * 2 ^ k) items)
    → Memᴰ r (sweep_rows count first bytes items)
unfolding sweep_rows
sweep_rows-reach zero k first bytes items r lt le mem = absurd (omega arith)
sweep_rows-reach (suc count) zero first bytes items r lt le mem =
    let more : leb first bytes ≡ true = ground arith in
    let e : first * 2 ^ 0 ≡ first = omega arith in rw more (Memᴰ.append_left _ (rw e at mem))
sweep_rows-reach (suc count) (suc k) first bytes items r lt le mem =
    let le_first : first ≤ bytes =
      omega (arith, times_pos first (2 ^ suc k) (power_pos (suc k)), le) in
    let more : leb first bytes ≡ true = ground arith in
    rw more (
      Memᴰ.append_right (items_rows first items) (
        sweep_rows-reach count k (first * 2) bytes items r (omega arith)
          (rw (double_power first k) le) (rw (double_power first k) mem)))

power_mono : (m k : ℕ) → m ≤ k → 2 ^ m ≤ 2 ^ k
power_mono zero k le = omega (arith, power_pos k)
power_mono (suc m) zero le = absurd (omega arith)
power_mono (suc m) (suc k) le = omega (arith, power_mono m k (omega arith))

enough_fuel : (k bytes : ℕ) → bytes < 2 ^ 30 → 2 ^ k ≤ bytes → k < int_fuel
enough_fuel k bytes small le = elim (dec_lt k int_fuel) [
  | yes lt ↦ lt
  | no far ↦ absurd (omega (arith, power_mono 32 k (omega arith)))
]

abbrev from_tuned : List Item
from_tuned = always tuned ∷ always os_copy ∷ always nobranch ∷ always memmove ∷ []

abbrev from_64_on : List Item
from_64_on = if_at_least 64 (chunks_64 ∷ nonvol_64 ∷ []) ∷ from_tuned

abbrev from_32_on : List Item
from_32_on = if_at_least 32 (chunks_32 ∷ []) ∷ from_64_on

-- The last loop's lines from its first test on, and behind each of them.
at_tests : (n : ℕ) (r : Row) → Memᴰ r (items_rows n from_32_on) → Memᴰ r (items_rows n majloop.body)
at_tests n r mem = Memᴰ.tail (Memᴰ.tail (Memᴰ.tail (Memᴰ.tail (Memᴰ.tail (Memᴰ.tail mem)))))

behind_32 :
    (n : ℕ) (r : Row) → Memᴰ r (items_rows n from_64_on) → Memᴰ r (items_rows n majloop.body)
behind_32 n r mem =
    at_tests n r (Memᴰ.append_right (item_rows n (if_at_least 32 (chunks_32 ∷ []))) mem)

behind_tests :
    (n : ℕ) (r : Row) → Memᴰ r (items_rows n from_tuned) → Memᴰ r (items_rows n majloop.body)
behind_tests n r mem =
    behind_32 n r
      (Memᴰ.append_right (item_rows n (if_at_least 64 (chunks_64 ∷ nonvol_64 ∷ []))) mem)

majloop-reach :
    (thing : Routine) (n : ℕ)
    → smallest thing ≤ n
    → (thing ≡ chunks_8) ⊎ Memᴰ (row n thing) (items_rows n majloop.body)
majloop-reach chunks_8 n le = inl refl
majloop-reach scicopy n le = inr (Memᴰ.head refl)
majloop-reach two_halves n le = inr (Memᴰ.tail (Memᴰ.head refl))
majloop-reach memcopy n le = inr (Memᴰ.tail (Memᴰ.tail (Memᴰ.head refl)))
majloop-reach load_stream_store n le = inr (Memᴰ.tail (Memᴰ.tail (Memᴰ.tail (Memᴰ.head refl))))
majloop-reach loadu_storeu n le =
    inr (Memᴰ.tail (Memᴰ.tail (Memᴰ.tail (Memᴰ.tail (Memᴰ.head refl)))))
majloop-reach nobranch n le = inr (behind_tests n _ (Memᴰ.tail (Memᴰ.tail (Memᴰ.head refl))))
majloop-reach tuned n le = inr (behind_tests n _ (Memᴰ.head refl))
majloop-reach os_copy n le = inr (behind_tests n _ (Memᴰ.tail (Memᴰ.head refl)))
majloop-reach memmove n le =
    inr (behind_tests n _ (Memᴰ.tail (Memᴰ.tail (Memᴰ.tail (Memᴰ.head refl)))))
majloop-reach chunks_32 n le =
    let large : leb 32 n ≡ true = ground arith in inr (at_tests n _ (rw large (Memᴰ.head refl)))
majloop-reach chunks_64 n le =
    let large : leb 64 n ≡ true = ground arith in inr (behind_32 n _ (rw large (Memᴰ.head refl)))
majloop-reach nonvol_64 n le =
    let large : leb 64 n ≡ true = ground arith in
    inr (behind_32 n _ (rw large (Memᴰ.tail (Memᴰ.head refl))))

-- The sweep of the byte-wise routine.
chunks_8-reach :
    (k bytes : ℕ)
    → bytes < 2 ^ 30
    → 64 ≤ 8 * 2 ^ k
    → 8 * 2 ^ k ≤ bytes
    → Memᴰ (row (8 * 2 ^ k) chunks_8) (sweeps_rows bytes single_sweeps)
chunks_8-reach zero bytes small from le = absurd (omega arith)
chunks_8-reach (suc zero) bytes small from le = absurd (omega arith)
chunks_8-reach (suc (suc zero)) bytes small from le = absurd (omega arith)
chunks_8-reach (suc (suc (suc k))) bytes small from le =
    let e : 8 * 2 ^ suc (suc (suc k)) ≡ 64 * 2 ^ k = omega arith in
    let fuel = enough_fuel k bytes small (omega arith) in
    let part : Routine → List Row = λ thing. sweep_rows int_fuel 64 bytes (always thing ∷ []) in
    rw e (
      Memᴰ.append_right (part chunks_64) (
        Memᴰ.append_right (part os_copy) (
          Memᴰ.append_right (part tuned) (
            Memᴰ.append_right (part nobranch) (
              Memᴰ.append_right (part memmove) (
                Memᴰ.append_left _ (
                  sweep_rows-reach int_fuel k 64 bytes (always chunks_8 ∷ []) _ fuel (rw e at le)
                    (Memᴰ.head refl))))))))

all_rows-reach :
    (thing : Routine) (k bytes : ℕ)
    → bytes < 2 ^ 30
    → smallest thing ≤ 8 * 2 ^ k
    → 8 * 2 ^ k ≤ bytes
    → Memᴰ (row (8 * 2 ^ k) thing) (all_rows bytes)
all_rows-reach thing k bytes small from le = elim (majloop-reach thing (8 * 2 ^ k) from) [
  | inl e ↦ rw e (Memᴰ.append_left _ (chunks_8-reach k bytes small (rw (ap smallest e) at from) le))
  | inr here ↦ Memᴰ.append_right (sweeps_rows bytes single_sweeps) (
      Memᴰ.append_left [] (
        sweep_rows-reach int_fuel k 8 bytes majloop.body _ (enough_fuel k bytes small (omega arith))
          le here))
]

pub all_rows-printed :
    (r : Row) (bytes : ℕ) → bytes < 2 ^ 30 → IsDue bytes r → Memᴰ r (all_rows bytes)
all_rows-printed r bytes small due =
    let whole : r ≡ row (8 * 2 ^ due.exponent) r.thing = ap (λ n. row n r.thing) due.power in
    rw whole (
      all_rows-reach r.thing due.exponent bytes small (rw due.power at due.from_smallest)
        (rw due.power at due.within))
