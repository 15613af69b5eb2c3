-- ===== src/Memcpy/Client/Sweeps.antt =====
-- The sweeps of the memcpy client: which measurements they print, and where a size overflows.
use sisci_perf.Common.{
  ℕ, zero, suc, ◌*◌, ◌^◌, ◌≤◌, ◌<◌, ◌≡◌, ◌∙◌, Option, Bool, true, false, List, [], ◌∷◌, ◌++◌, map,
  arith, ltb, leb, if◌then◌else◌, Bool-cases, inl, inr, append-nil, append_assoc,
}
use sisci_perf.Standalone.{Call, Process, goes_on, undefined, and_then}
use sisci_perf.Memcpy.Cursor.{Bytes}
use sisci_perf.Memcpy.Client.{
  Routine, Row, Client, MemcpyCtx, Item, always, if_at_least, Sweep, int_end, int_fuel, doubled,
  for_each_csize,
}
use sisci_perf.Memcpy.Client.Program.{bench, bench_each, run_item, run_items, run_sweep, run_sweeps}
use sisci_perf.Memcpy.Client.Measures.{Copies, Suits, mirrored, bench-mirrored}

abbrev pub row : ℕ → Routine → Row
row n thing = record { bytes = n; thing = thing }

-- The lines of one round.
abbrev pub item_rows : ℕ → Item → List Row
item_rows n (always thing) = row n thing ∷ []
item_rows n (if_at_least m things) = if leb m n then map (row n) things else []

abbrev pub items_rows : ℕ → List Item → List Row
items_rows n [] = []
items_rows n (item ∷ items) = item_rows n item ++ items_rows n items

-- The lines of a sweep from a size on, at most `count` rounds.
unfoldable pub sweep_rows : (count n bytes : ℕ) → List Item → List Row
sweep_rows zero n bytes items = []
sweep_rows (suc count) n bytes items =
    let rest = sweep_rows count (n * 2) bytes items in
    if leb n bytes then items_rows n items ++ rest else []

-- The lines of all rounds from a size to the one that is 2^m times as large.
abbrev pub rounds : (m n : ℕ) → List Item → List Row
rounds zero n items = items_rows n items
rounds (suc m) n items = items_rows n items ++ rounds m (n * 2) items

abbrev pub sweeps_rows : ℕ → List Sweep → List Row
sweeps_rows bytes [] = []
sweeps_rows bytes (sweep ∷ sweeps) =
    sweep_rows int_fuel sweep.first bytes sweep.body ++ sweeps_rows bytes sweeps

-- Sizes from which the loops of main double without leaving `int` on the way to `bytes`.
abbrev pub Starts : Sweep → Type 0
Starts sweep = (1 < sweep.first) × (sweep.first < int_end)

abbrev pub AllStart : List Sweep → Type 0
AllStart [] = Unit {0}
AllStart (sweep ∷ sweeps) = Starts sweep × AllStart sweeps

pub double_power : (n k : ℕ) → n * 2 * 2 ^ k ≡ n * 2 ^ suc k
double_power n k = let double : 2 ^ suc k ≡ 2 * 2 ^ k = omega arith in rw double (grind arith)

pub power_pos : (k : ℕ) → 1 ≤ 2 ^ k
power_pos zero = omega arith
power_pos (suc k) = omega (arith, power_pos k)

pub times_pos : (a p : ℕ) → 1 ≤ p → a ≤ a * p
times_pos a zero le = absurd (omega arith)
times_pos a (suc p) le = grind arith

module _ (sci_memcpy : (size : ℕ) (src : Bytes) (s : ℕ) (dst : Bytes) (offset : ℕ) → Option Bytes)
    (copies : Copies sci_memcpy) (succeeds : Call → Bool) (ctx : MemcpyCtx) (suits : Suits ctx)
    (remote : Bytes) (calls : List Call) where
  abbrev holding : List Row → Process Client
  holding rows = mirrored sci_memcpy copies succeeds ctx suits remote rows calls

  one :
      (thing : Routine) (n : ℕ) (rows : List Row)
      → 1 < n
      → n ≤ ctx.bytes
      → bench sci_memcpy succeeds ctx thing n (holding rows)
        ≡ goes_on (holding (rows ++ row n thing ∷ []))
  one thing n rows lt le =
      bench-mirrored sci_memcpy copies succeeds ctx suits thing n remote rows calls lt le

  bench_each-rows :
      (things : List Routine) (n : ℕ) (rows : List Row)
      → 1 < n
      → n ≤ ctx.bytes
      → bench_each sci_memcpy succeeds ctx things n (holding rows)
        ≡ goes_on (holding (rows ++ map (row n) things))
  unfolding bench_each and_then
  bench_each-rows [] n rows lt le = rw append-nil
  bench_each-rows (thing ∷ things) n rows lt le = rw (
    one thing n rows lt le,
    bench_each-rows things n (rows ++ row n thing ∷ []) lt le,
    append_assoc rows (row n thing ∷ []) (map (row n) things),
  )

  run_item-rows :
      (item : Item) (n : ℕ) (rows : List Row)
      → 1 < n
      → n ≤ ctx.bytes
      → run_item sci_memcpy succeeds ctx item n (holding rows)
        ≡ goes_on (holding (rows ++ item_rows n item))
  unfolding run_item
  run_item-rows (always thing) n rows lt le = one thing n rows lt le
  run_item-rows (if_at_least m things) n rows lt le = elim (Bool-cases (leb m n)) [
    | inl large ↦ rw large (bench_each-rows things n rows lt le)
    | inr small ↦ rw (small, append-nil)
  ]

  run_items-rows :
      (items : List Item) (n : ℕ) (rows : List Row)
      → 1 < n
      → n ≤ ctx.bytes
      → run_items sci_memcpy succeeds ctx items n (holding rows)
        ≡ goes_on (holding (rows ++ items_rows n items))
  unfolding run_items and_then
  run_items-rows [] n rows lt le = rw append-nil
  run_items-rows (item ∷ items) n rows lt le = rw (
    run_item-rows item n rows lt le,
    run_items-rows items n (rows ++ item_rows n item) lt le,
    append_assoc rows (item_rows n item) (items_rows n items),
  )

  -- Below 2^30 bytes no doubling on the way overflows, and the fuel is enough.
  for_each_csize-rows :
      (items : List Item) (fuel n : ℕ) (rows : List Row)
      → ctx.bytes < 2 ^ 30
      → 1 < n
      → n < int_end
      → int_end ≤ n * 2 ^ fuel
      → for_each_csize fuel n ctx.bytes (run_items sci_memcpy succeeds ctx items) (holding rows)
        ≡ goes_on (holding (rows ++ sweep_rows fuel n ctx.bytes items))
  unfolding for_each_csize sweep_rows and_then doubled
  for_each_csize-rows items zero n rows small lt within far = absurd (omega arith)
  for_each_csize-rows items (suc fuel) n rows small lt within far =
      elim (Bool-cases (leb n ctx.bytes)) [
        | inl more ↦
            let le : n ≤ ctx.bytes = ground arith in
            let fits : ltb (n * 2) int_end ≡ true = ground arith in
            let far' : int_end ≤ n * 2 * 2 ^ fuel = rw (double_power n fuel) far in
            let rest =
              for_each_csize-rows items fuel (n * 2) (rows ++ items_rows n items) small
                (omega arith) (ground arith) far' in
            rw (
              more,
              run_items-rows items n rows lt le,
              fits,
              rest,
              append_assoc rows (items_rows n items) (sweep_rows fuel (n * 2) ctx.bytes items),
            )
        | inr end ↦ rw (end, append-nil)
      ]

  pub run_sweeps-rows :
      (sweeps : List Sweep) (rows : List Row)
      → ctx.bytes < 2 ^ 30
      → AllStart sweeps
      → run_sweeps sci_memcpy succeeds ctx sweeps (holding rows)
        ≡ goes_on (holding (rows ++ sweeps_rows ctx.bytes sweeps))
  unfolding run_sweeps run_sweep and_then
  run_sweeps-rows [] rows small all = rw append-nil
  run_sweeps-rows (sweep ∷ sweeps) rows small all =
      let here = sweep_rows int_fuel sweep.first ctx.bytes sweep.body in
      rw (
        for_each_csize-rows sweep.body int_fuel sweep.first rows small all.0.0 all.0.1
            (omega (arith, all.0.0)),
        run_sweeps-rows sweeps (rows ++ here) small all.1,
        append_assoc rows here (sweeps_rows ctx.bytes sweeps),
      )

  -- From 2^30 bytes on, a sweep over powers of two leaves `int` behind the round of 2^30.
  pub for_each_csize_overflows :
      (items : List Item) (m fuel n : ℕ) (rows : List Row)
      → 2 ^ 30 ≤ ctx.bytes
      → 1 < n
      → n * 2 ^ m ≡ 2 ^ 30
      → m < fuel
      → for_each_csize fuel n ctx.bytes (run_items sci_memcpy succeeds ctx items) (holding rows)
        ≡ undefined (holding (rows ++ rounds m n items))
  unfolding for_each_csize and_then doubled
  for_each_csize_overflows items m zero n rows large lt power enough = absurd (omega arith)
  for_each_csize_overflows items zero (suc fuel) n rows large lt power enough =
      let e : n ≡ 2 ^ 30 = omega arith in
      let le : n ≤ ctx.bytes = omega arith in
      let more : leb n ctx.bytes ≡ true = ground arith in
      let too_large : ltb (n * 2) int_end ≡ false = ground arith in
      rw (more, run_items-rows items n rows lt le, too_large)
  for_each_csize_overflows items (suc m) (suc fuel) n rows large lt power enough =
      let half : n * 2 * 2 ^ m ≡ 2 ^ 30 = double_power n m ∙ power in
      let below : n * 2 ≤ 2 ^ 30 = omega (arith, times_pos (n * 2) (2 ^ m) (power_pos m), half) in
      let le : n ≤ ctx.bytes = omega arith in
      let more : leb n ctx.bytes ≡ true = ground arith in
      let fits : ltb (n * 2) int_end ≡ true = ground arith in
      let rest =
        for_each_csize_overflows items m fuel (n * 2) (rows ++ items_rows n items) large
          (omega arith) half (omega arith) in
      rw (
        more,
        run_items-rows items n rows lt le,
        fits,
        rest,
        append_assoc rows (items_rows n items) (rounds m (n * 2) items),
      )
