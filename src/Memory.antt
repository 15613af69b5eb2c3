-- ===== src/Memory.antt =====
-- The C arrays that peer/peer_main.c keeps on the heap: a capacity and cells. A cell that was
-- never written is `none`; a null pointer is an array of capacity 0.
use sisci_perf.Common.{
  ℕ, suc, ◌+◌, ◌≤◌, ◌<◌, ◌≡◌, refl, Option, none, some, List, [], ◌∷◌, ◌++◌, arith, ltb, ◌==◌,
  if◌then◌else◌, length,
}

pub record Array : Type 0 where
  pub cap : ℕ
  pub cell : ℕ → Option ℕ

abbrev pub null : Array
null = record { cap = 0; cell = λ i. none }

-- `a[i]`; `none` is an access out of bounds or of a cell never written.
abbrev pub get_elem? : Array → ℕ → Option ℕ
get_elem? a i = if ltb i a.cap then a.cell i else none

-- `a[i] = v`; `none` is a write out of bounds.
abbrev pub set : Array → ℕ → ℕ → Option Array
set a i v =
    if ltb i a.cap
    then some (record a { cell = λ k. if k == i then some v else a.cell k })
    else none

-- What `malloc(n * sizeof(*p))` returns when it succeeds.
abbrev pub fresh : ℕ → Array
fresh n = record { cap = n; cell = λ i. none }

-- What `reallocarray(a, n, sizeof(*a))` returns when it succeeds.
abbrev pub resize : Array → ℕ → Array
resize a n = record { cap = n; cell = λ i. get_elem? a i }

-- From index `i` on, the reads give the elements of the list.
abbrev pub Reads : (ℕ → Option ℕ) → ℕ → List ℕ → Type 0
Reads f i [] = Unit {0}
Reads f i (x ∷ xs) = (f i ≡ some x) × Reads f (suc i) xs

abbrev pub Holds : Array → ℕ → List ℕ → Type 0
Holds a = Reads (get_elem? a)

-- A longer array keeps what it held.
pub Holds-resize :
    (a : Array) (n i : ℕ) (xs : List ℕ) → i + length xs ≤ n → Holds a i xs → Holds (resize a n) i xs
Holds-resize a n i [] le h = tt
Holds-resize a n i (x ∷ xs) le h = (ground arith, Holds-resize a n (suc i) xs (omega arith) h.1)

-- A write within the capacity succeeds.
pub set_in :
    (a : Array) (i v : ℕ) → i < a.cap → (b : Array) × (set a i v ≡ some b) × (b.cap ≡ a.cap)
set_in a i v h = (record a { cell = λ k. if k == i then some v else a.cell k }, ground arith, refl)

-- A write behind the elements leaves them.
pub Holds-set :
    (a b : Array) (i j v : ℕ) (xs : List ℕ)
    → i + length xs ≤ j
    → set a j v ≡ some b
    → Holds a i xs
    → Holds b i xs
Holds-set a b i j v [] le e h = tt
Holds-set a b i j v (x ∷ xs) le e h =
    (ground arith, Holds-set a b (suc i) j v xs (omega arith) e h.1)

-- A write at the end appends.
pub Holds-set_last :
    (a b : Array) (i j v : ℕ) (xs : List ℕ)
    → i + length xs ≡ j
    → set a j v ≡ some b
    → Holds a i xs
    → Holds b i (xs ++ v ∷ [])
Holds-set_last a b i j v [] le e h = (ground arith, tt)
Holds-set_last a b i j v (x ∷ xs) le e h =
    (ground arith, Holds-set_last a b (suc i) j v xs (omega arith) e h.1)

-- A write succeeds exactly within the capacity, and keeps it.
pub set-cap : (a b : Array) (i v : ℕ) → set a i v ≡ some b → (i < a.cap) × (b.cap ≡ a.cap)
set-cap a b i v e = ground arith

pub set_out : (a : Array) (i v : ℕ) → a.cap ≤ i → set a i v ≡ none
set_out a i v h = ground arith

pub Holds-cap : (a : Array) (i : ℕ) (xs : List ℕ) → Holds a i xs → i ≤ a.cap → i + length xs ≤ a.cap
Holds-cap a i [] h le = omega arith
Holds-cap a i (x ∷ xs) h le = omega (arith, Holds-cap a (suc i) xs h.1 (ground arith))

pub get_elem?-set_self : (a b : Array) (i v : ℕ) → set a i v ≡ some b → get_elem? b i ≡ some v
get_elem?-set_self a b i v e = ground arith
