-- ===== src/Memcpy/Blocks.antt =====
-- The routines of standalone/memcpy/client.c that copy blocks of 64 bytes with prefetches between
-- them: sciMemCopy_OS_COPY_Prefetch, nobranch_prefetch and memmove_prefetch.
use sisci_perf.Common.{
  ℕ, zero, suc, ◌+◌, ◌-◌, ◌*◌, ◌/◌, ◌≤◌, ◌<◌, ◌≡◌, sym, ap, ◌∙◌, arith, ltb, leb, ◌==◌,
  if◌then◌else◌, Bool-cases, inl, inr,
}
use sisci_perf.Memcpy.Cursor.{
  Bytes, move, copied, move-copied, copied-zero, Cursor, at_start, advance_while, IsAt,
  at_start-IsAt, advance_while-IsAt, IsAt-end,
}

-- The loop of sciMemCopy_OS_COPY_Prefetch over words of 4 bytes, from word `j` on, on fuel.
unfoldable pub os_copy : (fuel j nostores : ℕ) → Bytes → Bytes → Bytes
os_copy zero j nostores src dst = dst
os_copy (suc fuel) j nostores src dst =
    let s = j * 4 in
    let rest = os_copy fuel (j + 16) nostores src (move 64 src s dst s) in
    if ltb j nostores
    then if leb (j + 16) nostores then rest else move ((nostores - j) * 4) src s dst s
    else dst

unfoldable pub sci_mem_copy_os_copy_prefetch : (size : ℕ) → Bytes → Bytes → Bytes
sci_mem_copy_os_copy_prefetch size src dst =
    let nostores = size / 4 in os_copy (suc nostores) 0 nostores src dst

-- The loop of nobranch_prefetch over whole blocks: the word behind them, and the memory.
pub record Blocks : Type 0 where
  pub j : ℕ
  pub dst : Bytes

unfoldable pub copy_blocks : (fuel nwords : ℕ) → Bytes → Blocks → Blocks
copy_blocks zero nwords src b = b
copy_blocks (suc fuel) nwords src b =
    let s = b.j * 4 in
    let rest = copy_blocks fuel nwords src (record { j = b.j + 16; dst = move 64 src s b.dst s }) in
    if leb (b.j + 16) nwords then rest else b

unfoldable pub nobranch_prefetch : (size : ℕ) → Bytes → Bytes → Bytes
nobranch_prefetch size src dst =
    let nwords = size / 4 in
    let b = copy_blocks (suc nwords) nwords src (record { j = 0; dst = dst }) in
    let s = b.j * 4 in if ltb b.j nwords then move ((nwords - b.j) * 4) src s b.dst s else b.dst

unfoldable pub memmove_prefetch : (size : ℕ) → Bytes → Bytes → Bytes
memmove_prefetch size src dst =
    let c = advance_while (suc size) 64 src (at_start size dst) in
    if c.left == 0 then c.dst else move c.left src c.s c.dst c.d

os_copy-copied :
    (fuel j nostores : ℕ) (src dst : Bytes)
    → nostores - j < fuel
    → j ≤ nostores
    → os_copy fuel j nostores src (copied (j * 4) src dst) ≡ copied (nostores * 4) src dst
unfolding os_copy
os_copy-copied zero j nostores src dst lt le = absurd (omega arith)
os_copy-copied (suc fuel) j nostores src dst lt le = elim (Bool-cases (ltb j nostores)) [
  | inl more ↦ elim (Bool-cases (leb (j + 16) nostores)) [
    | inl block ↦
        let e : j * 4 + 64 ≡ (j + 16) * 4 = omega arith in
        rw (more, block, move-copied 64 (j * 4) src dst, e)
          (os_copy-copied fuel (j + 16) nostores src dst (ground arith) (ground arith))
    | inr part ↦
        let e : j * 4 + (nostores - j) * 4 ≡ nostores * 4 = omega arith in
        rw (more, part, move-copied ((nostores - j) * 4) (j * 4) src dst, e)
  ]
  | inr end ↦ let e : j ≡ nostores = ground arith in rw (end, e)
]

record IsBlocks (src dst : Bytes) (nwords : ℕ) (b : Blocks) : Type 0 where
  within : b.j ≤ nwords
  done : b.dst ≡ copied (b.j * 4) src dst

copy_blocks-IsBlocks :
    (fuel nwords : ℕ) (src dst : Bytes) (b : Blocks)
    → IsBlocks src dst nwords b
    → IsBlocks src dst nwords (copy_blocks fuel nwords src b)
unfolding copy_blocks
copy_blocks-IsBlocks zero nwords src dst b is = is
copy_blocks-IsBlocks (suc fuel) nwords src dst b is = elim (Bool-cases (leb (b.j + 16) nwords)) [
  | inl more ↦
      let e : b.j * 4 + 64 ≡ (b.j + 16) * 4 = omega arith in
      rw more (
        copy_blocks-IsBlocks fuel nwords src dst _ (record {
          within = ground arith;
          done = rw is.done (move-copied 64 (b.j * 4) src dst ∙ rw e);
        }))
  | inr end ↦ rw end is
]

last_block-copied :
    (nwords : ℕ) (src dst : Bytes) (b : Blocks)
    → IsBlocks src dst nwords b
    → (if ltb b.j nwords then move ((nwords - b.j) * 4) src (b.j * 4) b.dst (b.j * 4) else b.dst)
      ≡ copied (nwords * 4) src dst
last_block-copied nwords src dst b is = elim (Bool-cases (ltb b.j nwords)) [
  | inl part ↦
      let e : b.j * 4 + (nwords - b.j) * 4 ≡ nwords * 4 = let le = is.within in omega arith in
      rw (part, is.done) (move-copied ((nwords - b.j) * 4) (b.j * 4) src dst ∙ rw e)
  | inr end ↦ let e : b.j ≡ nwords = let le = is.within in ground arith in rw (end, ← e) is.done
]

rest-copied :
    (src dst : Bytes) (total : ℕ) (c : Cursor)
    → IsAt src dst total c
    → (if c.left == 0 then c.dst else move c.left src c.s c.dst c.d) ≡ copied total src dst
rest-copied src dst total c at = elim (Bool-cases (c.left == 0)) [
  | inl nothing ↦ rw nothing (IsAt-end src dst total c at (ground arith))
  | inr more ↦ rw (more, at.together, at.done) (move-copied c.left c.s src dst ∙ rw at.rest)
]

from_start : (src dst : Bytes) → dst ≡ copied (0 * 4) src dst
from_start src dst = sym (copied-zero src dst)

-- The two routines over words copy all whole words, and memmove_prefetch copies every byte, for
-- every size; nothing behind that is changed. The fuel of their loops is enough.
pub blocks-copied :
    (size : ℕ) (src dst : Bytes)
    → (sci_mem_copy_os_copy_prefetch size src dst ≡ copied (size / 4 * 4) src dst)
      × (nobranch_prefetch size src dst ≡ copied (size / 4 * 4) src dst)
      × (memmove_prefetch size src dst ≡ copied size src dst)
unfolding sci_mem_copy_os_copy_prefetch nobranch_prefetch memmove_prefetch
blocks-copied size src dst = (
  ap (os_copy (suc (size / 4)) 0 (size / 4) src) (from_start src dst)
      ∙ os_copy-copied (suc (size / 4)) 0 (size / 4) src dst (omega arith) (omega arith),
  last_block-copied (size / 4) src dst _ (
      copy_blocks-IsBlocks (suc (size / 4)) (size / 4) src dst _
        (record { within = omega arith; done = from_start src dst })),
  rest-copied src dst size _
      (advance_while-IsAt src dst size (suc size) 64 (at_start size dst) (omega arith) (omega arith)
        (at_start-IsAt src dst size)).0,
)
