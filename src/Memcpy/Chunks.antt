-- ===== src/Memcpy/Chunks.antt =====
-- The plain routines of standalone/memcpy/client.c: one call of memcpy or SCIMemCpy, two halves, and
-- the loops over elements of a fixed size.
use sisci_perf.Common.{
  ℕ, zero, suc, ◌+◌, ◌-◌, ◌*◌, ◌/◌, ◌≤◌, ◌<◌, ◌≡◌, refl, sym, ap, subst, ◌∙◌, false, Option, none,
  some, arith, ltb, ◌==◌, if◌then◌else◌, fun_ext, Bool-cases, inl, inr, dec_lt,
}
use sisci_perf.Memcpy.Cursor.{
  Bytes, move, copied, move-copied, copied-zero, Cursor, at_start, advance, advance-left, IsAt,
  at_start-IsAt, advance-IsAt,
}

-- The one-call routines. SCIMemCpy is SISCI's; `none` is the exit of SEOE.
unfoldable pub memcopy_op : ℕ → Bytes → Bytes → Bytes
memcopy_op bytes src dst = move bytes src 0 dst 0

module _
    (sci_memcpy : (size : ℕ) (src : Bytes) (s : ℕ) (dst : Bytes) (offset : ℕ) → Option Bytes) where
  unfoldable pub scicopy_op : ℕ → Bytes → Bytes → Option Bytes
  scicopy_op bytes src dst = sci_memcpy bytes src 0 dst 0

  after_first : ℕ → ℕ → Bytes → Option Bytes → Option Bytes
  after_first half tail src none = none
  after_first half tail src (some dst) = sci_memcpy tail src half dst half

  unfoldable pub scicopy_two_halves_op : ℕ → Bytes → Bytes → Option Bytes
  unfolding after_first
  scicopy_two_halves_op bytes src dst =
      let half = bytes / 2 in
      let tail = bytes - half in
      if ltb 0 half then after_first half tail src (sci_memcpy half src 0 dst 0) else some dst

-- `while (src < end) *dst++ = *src++` over elements of `w` bytes, `rounds` of which are left.
unfoldable pub copy_elements : (rounds w : ℕ) → Bytes → Cursor → Cursor
copy_elements zero w src c = c
copy_elements (suc r) w src c = copy_elements r w src (advance w src c)

unfoldable pub memcpy_8_chunks_op : ℕ → Bytes → Bytes → Bytes
memcpy_8_chunks_op bytes src dst = (copy_elements bytes 1 src (at_start bytes dst)).dst

unfoldable pub memcpy_32_chunks_op : ℕ → Bytes → Bytes → Bytes
memcpy_32_chunks_op bytes src dst = (copy_elements (bytes / 4) 4 src (at_start bytes dst)).dst

unfoldable pub memcpy_64_chunks_op : ℕ → Bytes → Bytes → Bytes
memcpy_64_chunks_op bytes src dst = (copy_elements (bytes / 8) 8 src (at_start bytes dst)).dst

unfoldable pub memcpy_nonvol_64_chunks_op : ℕ → Bytes → Bytes → Bytes
memcpy_nonvol_64_chunks_op bytes src dst =
    (copy_elements (bytes / 8) 8 src (at_start bytes dst)).dst

-- `for (b = …; b < n; ++b) d[b] = s[b]`, with the rounds that are left.
unfoldable pub copy_for : (rounds b : ℕ) (src : Bytes) (s : ℕ) (dst : Bytes) (d : ℕ) → Bytes
copy_for zero b src s dst d = dst
copy_for (suc r) b src s dst d = copy_for r (b + 1) src s (move 1 src (s + b) dst (d + b)) d

unfoldable pub copy_groups : (rounds size : ℕ) → Bytes → Cursor → Cursor
copy_groups zero size src c = c
copy_groups (suc r) size src c = copy_groups r size src (record {
  s = c.s + size;
  d = c.d + size;
  left = c.left - size;
  dst = copy_for size 0 src c.s c.dst c.d;
})

-- A division by zero is undefined.
unfoldable pub memcpy_chunks_generic : (len elem_size : ℕ) → Bytes → Bytes → Option Bytes
memcpy_chunks_generic len elem_size src dst =
    if elem_size == 0
    then none
    else some (copy_groups (len / elem_size) elem_size src (at_start len dst)).dst

pub move-zero : (n : ℕ) (src dst : Bytes) → move n src 0 dst 0 ≡ copied n src dst
unfolding move copied
move-zero n src dst = fun_ext λ k. let e : 0 + (k - 0) ≡ k = omega arith in rw e (ground arith)

-- One more byte behind what has been moved.
move-step :
    (b : ℕ) (src : Bytes) (s : ℕ) (dst : Bytes) (d : ℕ)
    → move 1 src (s + b) (move b src s dst d) (d + b) ≡ move (b + 1) src s dst d
unfolding move
move-step b src s dst d = fun_ext λ k. elim (dec_lt k (d + b)) [
  | yes before ↦ ground arith
  | no behind ↦ let e : s + b + (k - (d + b)) ≡ s + (k - d) = omega arith in rw e (ground arith)
]

move-none : (src : Bytes) (s : ℕ) (dst : Bytes) (d : ℕ) → move 0 src s dst d ≡ dst
unfolding move
move-none src s dst d = fun_ext λ k. ground arith

copy_for-move :
    (r b : ℕ) (src : Bytes) (s : ℕ) (dst : Bytes) (d : ℕ)
    → copy_for r b src s (move b src s dst d) d ≡ move (b + r) src s dst d
unfolding copy_for
copy_for-move zero b src s dst d = let e : b + 0 ≡ b = omega arith in rw e
copy_for-move (suc r) b src s dst d =
    let e : b + 1 + r ≡ b + suc r = omega arith in
    rw (move-step b src s dst d, ← e) (copy_for-move r (b + 1) src s dst d)

-- A loop over single bytes moves them all.
pub copy_for_lem :
    (n : ℕ) (src : Bytes) (s : ℕ) (dst : Bytes) (d : ℕ)
    → copy_for n 0 src s dst d ≡ move n src s dst d
copy_for_lem n src s dst d =
    let e : 0 + n ≡ n = omega arith in
    ap (λ m. copy_for n 0 src s m d) (sym (move-none src s dst d))
    ∙ copy_for-move n 0 src s dst d
    ∙ rw e

copy_groups_lem :
    (r size : ℕ) (src : Bytes) (c : Cursor) → copy_groups r size src c ≡ copy_elements r size src c
unfolding copy_groups copy_elements advance
copy_groups_lem zero size src c = refl
copy_groups_lem (suc r) size src c =
    rw (copy_for_lem size src c.s c.dst c.d) (copy_groups_lem r size src _)

copy_elements-IsAt :
    (src dst : Bytes) (total r w : ℕ) (c : Cursor)
    → r * w ≤ c.left
    → IsAt src dst total c
    → IsAt src dst total (copy_elements r w src c)
      × ((copy_elements r w src c).left + r * w ≡ c.left)
unfolding copy_elements
copy_elements-IsAt src dst total zero w c le at = (at, grind arith)
copy_elements-IsAt src dst total (suc r) w c le at =
    let split : suc r * w ≡ w + r * w = grind arith in
    let rest =
      copy_elements-IsAt src dst total r w (advance w src c) (omega (arith, advance-left w src c))
        (advance-IsAt src dst total w c (omega arith) at) in
    (rest.0, omega (arith, rest.1, advance-left w src c))

-- A whole number of elements of `w` bytes is copied, and nothing behind them.
copy_elements-copied :
    (bytes w : ℕ) (src dst : Bytes)
    → 0 < w
    → (copy_elements (bytes / w) w src (at_start bytes dst)).dst ≡ copied (bytes / w * w) src dst
copy_elements-copied bytes w src dst pos =
    let c =
      copy_elements-IsAt src dst bytes (bytes / w) w (at_start bytes dst) (grind arith)
        (at_start-IsAt src dst bytes) in
    let end = copy_elements (bytes / w) w src (at_start bytes dst) in
    let e : end.s ≡ bytes / w * w = omega (arith, c.0.rest, c.1) in rw (← e) c.0.done

-- The four plain routines over elements copy every whole element of their buffer and leave what is
-- behind: all of the bytes one by one, the bytes up to a multiple of 4, or of 8 (with a volatile
-- destination or not).
pub memcpy_chunks_op-copied :
    (bytes : ℕ) (src dst : Bytes)
    → (memcpy_8_chunks_op bytes src dst ≡ copied bytes src dst)
      × (memcpy_32_chunks_op bytes src dst ≡ copied (bytes / 4 * 4) src dst)
      × (memcpy_64_chunks_op bytes src dst ≡ copied (bytes / 8 * 8) src dst)
      × (memcpy_nonvol_64_chunks_op bytes src dst ≡ copied (bytes / 8 * 8) src dst)
unfolding memcpy_8_chunks_op memcpy_32_chunks_op memcpy_64_chunks_op memcpy_nonvol_64_chunks_op
memcpy_chunks_op-copied bytes src dst =
    let one : bytes / 1 ≡ bytes = omega arith in
    let all : bytes / 1 * 1 ≡ bytes = omega arith in
    (
      subst (λ n. (copy_elements n 1 src (at_start bytes dst)).dst ≡ copied bytes src dst) one
          (copy_elements-copied bytes 1 src dst (omega arith) ∙ rw all),
      copy_elements-copied bytes 4 src dst (omega arith),
      copy_elements-copied bytes 8 src dst (omega arith),
      copy_elements-copied bytes 8 src dst (omega arith),
    )

-- For any element size but 0 the generic routine copies the whole elements, byte by byte, and
-- leaves what is behind.
pub memcpy_chunks_generic-copied :
    (len elem_size : ℕ) (src dst : Bytes)
    → 0 < elem_size
    → memcpy_chunks_generic len elem_size src dst
      ≡ some (copied (len / elem_size * elem_size) src dst)
unfolding memcpy_chunks_generic
memcpy_chunks_generic-copied len elem_size src dst pos =
    let e : (elem_size == 0) ≡ false = ground arith in
    rw (e, copy_groups_lem (len / elem_size) elem_size src (at_start len dst))
      (ap some (copy_elements-copied len elem_size src dst pos))

-- If SCIMemCpy copies what it is asked for, the copy in two halves leaves what a single copy
-- leaves, for every number of bytes but one. Of a single byte it copies nothing.
pub two_halves-copied :
    (sci_memcpy : (size : ℕ) (src : Bytes) (s : ℕ) (dst : Bytes) (offset : ℕ) → Option Bytes)
    (bytes : ℕ) (src dst : Bytes)
    → ((size : ℕ) (src : Bytes) (s : ℕ) (dst : Bytes) (offset : ℕ)
        → sci_memcpy size src s dst offset ≡ some (move size src s dst offset))
    → scicopy_two_halves_op sci_memcpy bytes src dst
      ≡ (if bytes == 1 then some dst else scicopy_op sci_memcpy bytes src dst)
unfolding scicopy_two_halves_op scicopy_op
two_halves-copied sci_memcpy bytes src dst copies = elim (Bool-cases (ltb 0 (bytes / 2))) [
  | inl some_half ↦
      let h = bytes / 2 in
      let not_one : (bytes == 1) ≡ false = ground arith in
      let whole : h + (bytes - h) ≡ bytes = omega arith in
      rw (some_half, copies h src 0 dst 0, not_one)
        (copies (bytes - h) src h (move h src 0 dst 0) h
          ∙ ap some (
              ap (λ m. move (bytes - h) src h m h) (move-zero h src dst)
              ∙ move-copied (bytes - h) h src dst
              ∙ rw whole (sym (move-zero bytes src dst)))
          ∙ sym (copies bytes src 0 dst 0))
  | inr no_half ↦ elim (Bool-cases (bytes == 1)) [
    | inl one ↦ rw (no_half, one)
    | inr not_one ↦
        let e : bytes ≡ 0 = ground arith in
        rw (no_half, not_one, copies bytes src 0 dst 0, e)
          (ap some (sym (move-zero 0 src dst ∙ copied-zero src dst)))
  ]
]
