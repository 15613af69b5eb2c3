-- ===== src/Initiator/DmaVec.antt =====
-- initiator/dma_vec.c: for each transfer size, the vectors that divide it. `veclen` is SISCI's
-- DIS_DMA_MAX_VECLEN, the length of the array dmaVec; `none` is a write behind its end.
use sisci_perf.Common.{
  ℕ, zero, suc, ◌+◌, ◌*◌, ◌/◌, ◌≤◌, ◌<◌, ◌≡◌, ◌⊎◌, inl, inr, refl, sym, ap, true, Option, none,
  some, List, [], ◌∷◌, arith, ltb, leb, if◌then◌else◌, length, Bool-cases,
}

-- dis_dma_vec_t.
pub record Element : Type 0 where
  pub size : ℕ
  pub local_offset : ℕ
  pub remote_offset : ℕ

-- What is handed to write_dma_vec and read_dma_vec.
pub record Config : Type 0 where
  pub vec_el_size : ℕ
  pub vec_el_count : ℕ
  pub vec : List Element

abbrev element : (i el : ℕ) → Element
element i el = record { size = el; local_offset = i * el; remote_offset = i * el }

abbrev pub push : {A : Type 0} → A → Option (List A) → Option (List A)
push x none = none
push x (some xs) = some (x ∷ xs)

-- The loop that fills dmaVec, with the rounds that are left.
unfoldable pub fill : (veclen rounds i el : ℕ) → Option (List Element)
fill veclen zero i el = some []
fill veclen (suc r) i el =
    let rest = push (element i el) (fill veclen r (i + 1) el) in if ltb i veclen then rest else none

abbrev pub configure :
    (el count : ℕ) → Option (List Element) → Option (List Config) → Option (List Config)
configure el count none rest = none
configure el count (some vec) rest =
    push (record { vec_el_size = el; vec_el_count = count; vec = vec }) rest

-- `while (vec_el_size <= transfer_size) { …; vec_el_size *= 2; }`, on fuel.
unfoldable pub divide : (fuel veclen transfer_size vec_el_size : ℕ) → Option (List Config)
divide zero veclen transfer_size vec_el_size = some []
divide (suc fuel) veclen transfer_size vec_el_size =
    let count = transfer_size / vec_el_size in
    let rest = divide fuel veclen transfer_size (vec_el_size * 2) in
    let all = configure vec_el_size count (fill veclen count 0 vec_el_size) rest in
    if leb vec_el_size transfer_size then all else some []

unfoldable pub first_size : (veclen transfer_size : ℕ) → ℕ
first_size veclen transfer_size =
    if ltb (transfer_size / veclen) 1024 then 1024 else transfer_size / veclen

unfoldable pub divisions : (veclen transfer_size : ℕ) → Option (List Config)
divisions veclen transfer_size =
    divide (suc transfer_size) veclen transfer_size (first_size veclen transfer_size)

-- The elements stand one behind the other, in both segments.
abbrev pub Tiles : (el at : ℕ) → List Element → Type 0
Tiles el at [] = Unit {0}
Tiles el at (e ∷ es) =
    (e.local_offset ≡ at) × (e.remote_offset ≡ at) × (e.size ≡ el) × Tiles el (at + el) es

-- A configuration covers the transfer from its first byte on, but for less than an element.
pub record Covers (transfer_size : ℕ) (c : Config) : Type 0 where
  pub counted : length c.vec ≡ c.vec_el_count
  pub tiled : Tiles c.vec_el_size 0 c.vec
  pub within : c.vec_el_count * c.vec_el_size ≤ transfer_size
  pub nearly : transfer_size < c.vec_el_count * c.vec_el_size + c.vec_el_size

abbrev pub AllCover : ℕ → List Config → Type 0
AllCover transfer_size [] = Unit {0}
AllCover transfer_size (c ∷ cs) = Covers transfer_size c × AllCover transfer_size cs

pub fill_lem :
    (veclen r i el at : ℕ)
    → i + r ≤ veclen
    → at ≡ i * el
    → (vec : List Element) × (fill veclen r i el ≡ some vec) × (length vec ≡ r) × Tiles el at vec
unfolding fill
fill_lem veclen zero i el at le e = ([], refl, refl, tt)
fill_lem veclen (suc r) i el at le e =
    let inside : ltb i veclen ≡ true = ground arith in
    let next : at + el ≡ (i + 1) * el = grind arith in
    let f = fill_lem veclen r (i + 1) el (at + el) (omega arith) next in
    (element i el ∷ f.0, rw (inside, f.1), ap suc f.2, (sym e, sym e, refl, f.3))

count_within : (t el : ℕ) → 0 < el → (t / el * el ≤ t) × (t < t / el * el + el)
count_within t el pos = (grind arith, grind arith)

pub fits : (veclen t el : ℕ) → 0 < el → t < veclen * el + el → t / el ≤ veclen
fits veclen t el pos lt = grind arith

divide_lem :
    (fuel veclen t el : ℕ)
    → t < el + fuel
    → 0 < el
    → t < veclen * el + el
    → (cs : List Config) × (divide fuel veclen t el ≡ some cs) × AllCover t cs
unfolding divide
divide_lem zero veclen t el lt pos room = ([], refl, tt)
divide_lem (suc fuel) veclen t el lt pos room = elim (Bool-cases (leb el t)) [
  | inl more ↦
      let rest = divide_lem fuel veclen t (el * 2) (omega arith) (omega arith) (grind arith) in
      let fit = fits veclen t el pos room in
      let vec = fill_lem veclen (t / el) 0 el 0 (omega arith) (omega arith) in
      let covers = count_within t el pos in
      let c : Config = record { vec_el_size = el; vec_el_count = t / el; vec = vec.0 } in
      (
        c ∷ rest.0,
        rw (more, rest.1, vec.1),
        (record { counted = vec.2; tiled = vec.3; within = covers.0; nearly = covers.1 }, rest.2),
      )
  | inr less ↦ ([], rw less, tt)
]

pub room_for :
    (veclen t : ℕ)
    → 0 < veclen
    → (t / veclen * veclen ≡ t) ⊎ (t / veclen < 1024)
    → (0 < first_size veclen t) × (t < veclen * first_size veclen t + first_size veclen t)
unfolding first_size
room_for veclen t pos either = elim (Bool-cases (ltb (t / veclen) 1024)) [
  | inl small ↦
      let w = count_within t veclen pos in
      rw small (omega arith, (let s : t / veclen < 1024 = ground arith in grind arith))
  | inr large ↦
      let l : 1024 ≤ t / veclen = ground arith in
      let exact : t / veclen * veclen ≡ t = elim either [
        | inl e ↦ e
        | inr s ↦ absurd (omega arith)
      ] in
      rw large (omega arith, grind arith)
]

-- For every transfer size that DIS_DMA_MAX_VECLEN divides, or that is too small for that length to
-- matter, the array dmaVec is never written behind its end, whichever element size is tried. Each
-- vector has as many elements as it is said to have, all of its size and one behind the other in
-- both segments, lies within the transfer, and leaves less than an element of it out.
pub divisions-AllCover :
    (veclen transfer_size : ℕ)
    → 0 < veclen
    → (transfer_size / veclen * veclen ≡ transfer_size) ⊎ (transfer_size / veclen < 1024)
    → (cs : List Config) × (divisions veclen transfer_size ≡ some cs) × AllCover transfer_size cs
unfolding divisions
divisions-AllCover veclen t pos either =
    let room = room_for veclen t pos either in
    divide_lem (suc t) veclen t (first_size veclen t) (let p = room.0 in omega arith) room.0 room.1
