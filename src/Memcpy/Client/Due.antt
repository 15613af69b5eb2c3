-- ===== src/Memcpy/Client/Due.antt =====
-- Every line that the sweeps of the memcpy client print is due.
use sisci_perf.Common.{
  ℕ, zero, suc, ◌*◌, ◌^◌, ◌≤◌, ◌≡◌, refl, ◌∙◌, inl, inr, Bool, true, ◌&&◌, List, [], ◌∷◌, ◌++◌, map,
  arith, leb, Bool-cases,
}
use mathlib.Core.List.Memᴰ
use mathlib.Core.List.{Memᴰ}
use sisci_perf.Memcpy.Client.{
  Routine, chunks_8, chunks_32, chunks_64, nonvol_64, Row, Item, always, if_at_least, Sweep,
  single_sweeps, majloop, int_fuel,
}
use sisci_perf.Memcpy.Client.Sweeps.{row, item_rows, items_rows, sweep_rows, sweeps_rows}

-- The smallest size each routine is measured with.
abbrev pub smallest : Routine → ℕ
smallest chunks_8 = 64
smallest chunks_32 = 32
smallest chunks_64 = 64
smallest nonvol_64 = 64
smallest _ = 8

-- A line for a power of two between the routine's smallest size and `bytes`.
pub record IsDue (bytes : ℕ) (r : Row) : Type 0 where
  pub exponent : ℕ
  pub power : r.bytes ≡ 8 * 2 ^ exponent
  pub from_smallest : smallest r.thing ≤ r.bytes
  pub within : r.bytes ≤ bytes

-- Every routine in the list may be measured from `n` bytes on.
abbrev all_from : ℕ → List Routine → Bool
all_from n [] = true
all_from n (thing ∷ things) = leb (smallest thing) n && all_from n things

abbrev item_from : ℕ → Item → Bool
item_from first (always thing) = leb (smallest thing) first
item_from first (if_at_least n things) = all_from n things

abbrev items_from : ℕ → List Item → Bool
items_from first [] = true
items_from first (item ∷ items) = item_from first item && items_from first items

map-IsDue :
    (m n : ℕ) (things : List Routine) (r : Row)
    → all_from m things ≡ true
    → m ≤ n
    → Memᴰ r (map (row n) things)
    → (r.bytes ≡ n) × (smallest r.thing ≤ n)
map-IsDue m n [] r ok le mem = elim mem [ ]
map-IsDue m n (thing ∷ things) r ok le (Memᴰ.head e) = rw e (refl, ground arith)
map-IsDue m n (thing ∷ things) r ok le (Memᴰ.tail mem) =
    map-IsDue m n things r (ground arith) le mem

item_rows-IsDue :
    (first n : ℕ) (item : Item) (r : Row)
    → item_from first item ≡ true
    → first ≤ n
    → Memᴰ r (item_rows n item)
    → (r.bytes ≡ n) × (smallest r.thing ≤ n)
item_rows-IsDue first n (always thing) r ok le (Memᴰ.head e) = rw e (refl, ground arith)
item_rows-IsDue first n (always thing) r ok le (Memᴰ.tail mem) = elim mem [ ]
item_rows-IsDue first n (if_at_least m things) r ok le mem = elim (Bool-cases (leb m n)) [
  | inl large ↦ map-IsDue m n things r ok (ground arith) (rw large at mem)
  | inr small ↦ elim (rw small at mem) [ ]
]

items_rows-IsDue :
    (first n : ℕ) (items : List Item) (r : Row)
    → items_from first items ≡ true
    → first ≤ n
    → Memᴰ r (items_rows n items)
    → (r.bytes ≡ n) × (smallest r.thing ≤ n)
items_rows-IsDue first n [] r ok le mem = elim mem [ ]
items_rows-IsDue first n (item ∷ items) r ok le mem =
    elim (Memᴰ.append_cases (item_rows n item) mem) [
      | inl here ↦ item_rows-IsDue first n item r (ground arith) le here
      | inr there ↦ items_rows-IsDue first n items r (ground arith) le there
    ]

sweep_rows-IsDue :
    (count first n j bytes : ℕ) (items : List Item) (r : Row)
    → items_from first items ≡ true
    → first ≤ n
    → n ≡ 8 * 2 ^ j
    → Memᴰ r (sweep_rows count n bytes items)
    → IsDue bytes r
unfolding sweep_rows
sweep_rows-IsDue zero first n j bytes items r ok le power mem = elim mem [ ]
sweep_rows-IsDue (suc count) first n j bytes items r ok le power mem =
    elim (Bool-cases (leb n bytes)) [
      | inl more ↦
          let all = rw more at mem in
          elim (Memᴰ.append_cases (items_rows n items) all) [
            | inl here ↦
                let due = items_rows-IsDue first n items r ok le here in
                record {
                  exponent = j;
                  power = due.0 ∙ power;
                  from_smallest = rw due.0 due.1;
                  within = rw due.0 (ground arith);
                }
            | inr there ↦
                let next : n * 2 ≡ 8 * 2 ^ suc j = omega arith in
                sweep_rows-IsDue count first (n * 2) (suc j) bytes items r ok (omega arith) next
                  there
          ]
      | inr end ↦ elim (rw end at mem) [ ]
    ]

abbrev SweepsFrom : List Sweep → Type 0
SweepsFrom [] = Unit {0}
SweepsFrom (sweep ∷ sweeps) =
    (items_from sweep.first sweep.body ≡ true)
    × ((j : ℕ) × (sweep.first ≡ 8 * 2 ^ j))
    × SweepsFrom sweeps

sweeps_rows-IsDue :
    (bytes : ℕ) (sweeps : List Sweep) (r : Row)
    → SweepsFrom sweeps
    → Memᴰ r (sweeps_rows bytes sweeps)
    → IsDue bytes r
sweeps_rows-IsDue bytes [] r from mem = elim mem [ ]
sweeps_rows-IsDue bytes (sweep ∷ sweeps) r (ok, (j, power), rest) mem =
    elim (Memᴰ.append_cases (sweep_rows int_fuel sweep.first bytes sweep.body) mem) [
      | inl here ↦
          sweep_rows-IsDue int_fuel sweep.first sweep.first j bytes sweep.body r ok (omega arith)
            power here
      | inr there ↦ sweeps_rows-IsDue bytes sweeps r rest there
    ]

from_64 : (j : ℕ) × (64 ≡ 8 * 2 ^ j)
from_64 = (3, refl)

-- What the client prints.
abbrev pub all_rows : ℕ → List Row
all_rows bytes = sweeps_rows bytes single_sweeps ++ sweeps_rows bytes (majloop ∷ [])

pub all_rows-IsDue : (bytes : ℕ) (r : Row) → Memᴰ r (all_rows bytes) → IsDue bytes r
all_rows-IsDue bytes r mem = elim (Memᴰ.append_cases (sweeps_rows bytes single_sweeps) mem) [
  | inl single ↦
      sweeps_rows-IsDue bytes single_sweeps r
        (
          refl,
          from_64,
          (
            refl,
            from_64,
            (
              refl,
              from_64,
              (
                refl,
                from_64,
                (
                  refl,
                  from_64,
                  (
                    refl,
                    from_64,
                    (refl, from_64, (refl, from_64, (refl, from_64, (refl, from_64, tt)))),
                  ),
                ),
              ),
            ),
          ),
        )
        single
  | inr major ↦ sweeps_rows-IsDue bytes (majloop ∷ []) r (refl, (0, refl), tt) major
]
