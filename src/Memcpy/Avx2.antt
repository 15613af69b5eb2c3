-- ===== src/Memcpy/Avx2.antt =====
-- The two AVX2 routines of standalone/memcpy/client.c, as compiled with __AVX2__. A streaming store
-- and an aligned load fault (`none`) unless their address is a multiple of their width.
use sisci_perf.Common.{
  ℕ, zero, suc, ◌+◌, ◌-◌, ◌%◌, ◌≤◌, ◌<◌, ◌≡◌, refl, ap, ◌∙◌, true, ◌&&◌, Option, none, some, arith,
  leb, ◌==◌, if◌then◌else◌, Bool-cases, inl, inr,
}
use sisci_perf.Memcpy.Cursor.{
  Bytes, copied, Cursor, at_start, advance, advance_while, advance_if, advance_if-IsAt, IsAt,
  at_start-IsAt, advance-IsAt, advance-left, advance_while-IsAt, IsAt-end,
}

-- `while (n--) { *dst++ = *src++; }`, `n` times.
unfoldable pub copy_rest : (n : ℕ) → Bytes → Cursor → Cursor
copy_rest zero src c = c
copy_rest (suc n) src c = copy_rest n src (advance 1 src c)

-- Two vectors of 32 bytes are loaded, then stored side by side.
unfoldable pub advance_two : Bytes → Cursor → Cursor
advance_two src c = advance 32 src (advance 32 src c)

unfoldable pub storeu_while : ℕ → Bytes → Cursor → Cursor
storeu_while zero src c = c
storeu_while (suc fuel) src c =
    let rest = storeu_while fuel src (advance_two src c) in if leb 64 c.left then rest else c

-- The part that the routines share: words of 8 bytes, then bytes.
unfoldable pub words_and_bytes : Bytes → Cursor → Bytes
words_and_bytes src c = let e = advance_while (suc c.left) 8 src c in (copy_rest e.left src e).dst

unfoldable pub memcpy_avx2_loadu_storeu : (bytes : ℕ) → Bytes → Bytes → Bytes
memcpy_avx2_loadu_storeu bytes src dst =
    let c = storeu_while (suc bytes) src (at_start bytes dst) in
    words_and_bytes src (advance_if 16 src (advance_if 32 src c))

-- The addresses at which the buffers begin.
module _ (at from : ℕ) where
  unfoldable pub stream_aligned : (w : ℕ) → Bytes → Cursor → Option Cursor
  stream_aligned w src c =
      if ((from + c.s) % w == 0) && ((at + c.d) % w == 0) then some (advance w src c) else none

  unfoldable pub bind_stream : (w : ℕ) → Bytes → Option Cursor → Option Cursor
  bind_stream w src none = none
  bind_stream w src (some c) = stream_aligned w src c

  unfoldable pub stream_while : ℕ → Bytes → Option Cursor → Option Cursor
  stream_while fuel src none = none
  stream_while zero src (some c) = some c
  stream_while (suc fuel) src (some c) =
      let rest = stream_while fuel src (bind_stream 32 src (stream_aligned 32 src c)) in
      if leb 64 c.left then rest else some c

  unfoldable pub stream_if : (w : ℕ) → Bytes → Option Cursor → Option Cursor
  stream_if w src none = none
  stream_if w src (some c) = if leb w c.left then stream_aligned w src c else some c

  unfoldable pub finish_copy : Bytes → Option Cursor → Option Bytes
  finish_copy src none = none
  finish_copy src (some c) = some (words_and_bytes src c)

  unfoldable pub memcpy_avx2_load_stream_store : (bytes : ℕ) → Bytes → Bytes → Option Bytes
  memcpy_avx2_load_stream_store bytes src dst =
      let c = stream_while (suc bytes) src (some (at_start bytes dst)) in
      finish_copy src (stream_if 16 src (stream_if 32 src c))

copy_rest-IsAt :
    (src dst : Bytes) (total n : ℕ) (c : Cursor)
    → c.left ≡ n
    → IsAt src dst total c
    → IsAt src dst total (copy_rest n src c) × ((copy_rest n src c).left ≡ 0)
unfolding copy_rest
copy_rest-IsAt src dst total zero c e at = (at, e)
copy_rest-IsAt src dst total (suc n) c e at =
    copy_rest-IsAt src dst total n (advance 1 src c) (omega (arith, advance-left 1 src c))
      (advance-IsAt src dst total 1 c (omega arith) at)

words_and_bytes-copied :
    (src dst : Bytes) (total : ℕ) (c : Cursor)
    → IsAt src dst total c
    → words_and_bytes src c ≡ copied total src dst
unfolding words_and_bytes
words_and_bytes-copied src dst total c at =
    let words =
      (advance_while-IsAt src dst total (suc c.left) 8 c (omega arith) (omega arith) at).0 in
    let end = copy_rest-IsAt src dst total _ _ refl words in IsAt-end src dst total _ end.0 end.1

advance_two-IsAt :
    (src dst : Bytes) (total : ℕ) (c : Cursor)
    → 64 ≤ c.left
    → IsAt src dst total c
    → IsAt src dst total (advance_two src c) × ((advance_two src c).left ≡ c.left - 64)
unfolding advance_two
advance_two-IsAt src dst total c le at =
    let once = advance 32 src c in
    let l = advance-left 32 src c in
    (
      advance-IsAt src dst total 32 once (omega (arith, l))
          (advance-IsAt src dst total 32 c (omega arith) at),
      omega (arith, l, advance-left 32 src once),
    )

storeu_while-IsAt :
    (src dst : Bytes) (total fuel : ℕ) (c : Cursor)
    → c.left < fuel
    → IsAt src dst total c
    → IsAt src dst total (storeu_while fuel src c) × ((storeu_while fuel src c).left < 64)
unfolding storeu_while
storeu_while-IsAt src dst total zero c lt at = absurd (omega arith)
storeu_while-IsAt src dst total (suc fuel) c lt at = elim (Bool-cases (leb 64 c.left)) [
  | inl more ↦
      let le : 64 ≤ c.left = ground arith in
      let two = advance_two-IsAt src dst total c le at in
      rw more
        (storeu_while-IsAt src dst total fuel (advance_two src c) (omega (arith, two.1)) two.0)
  | inr less ↦ rw less (at, ground arith)
]

-- Copying 64, 32, 16, 8 and then single bytes is one copy of all the bytes, for every length.
pub memcpy_avx2_loadu_storeu-copied :
    (bytes : ℕ) (src dst : Bytes) → memcpy_avx2_loadu_storeu bytes src dst ≡ copied bytes src dst
unfolding memcpy_avx2_loadu_storeu
memcpy_avx2_loadu_storeu-copied bytes src dst =
    let sixty_four =
      storeu_while-IsAt src dst bytes (suc bytes) (at_start bytes dst) (omega arith)
        (at_start-IsAt src dst bytes) in
    let half = advance_if-IsAt src dst bytes 32 _ sixty_four.1 sixty_four.0 in
    let quarter = advance_if-IsAt src dst bytes 16 _ half.1 half.0 in
    words_and_bytes-copied src dst bytes _ quarter.0

-- Both pointers at a multiple of 32 from where the buffers begin.
record Is32Aligned (c : Cursor) : Type 0 where
  loads : c.s % 32 ≡ 0
  stores : c.d % 32 ≡ 0

advance_two-Is32Aligned :
    (src : Bytes) (c : Cursor) → Is32Aligned c → Is32Aligned (advance_two src c)
unfolding advance_two advance
advance_two-Is32Aligned src c is =
    let s = is.loads in let d = is.stores in record { loads = omega arith; stores = omega arith }

storeu_while-Is32Aligned :
    (src : Bytes) (fuel : ℕ) (c : Cursor) → Is32Aligned c → Is32Aligned (storeu_while fuel src c)
unfolding storeu_while
storeu_while-Is32Aligned src zero c is = is
storeu_while-Is32Aligned src (suc fuel) c is = elim (Bool-cases (leb 64 c.left)) [
  | inl more ↦
      rw more
        (storeu_while-Is32Aligned src fuel (advance_two src c) (advance_two-Is32Aligned src c is))
  | inr less ↦ rw less is
]

advance_if-Is32Aligned :
    (src : Bytes) (c : Cursor) → Is32Aligned c → Is32Aligned (advance_if 32 src c)
unfolding advance_if advance
advance_if-Is32Aligned src c is = elim (Bool-cases (leb 32 c.left)) [
  | inl more ↦
      let s = is.loads in
      let d = is.stores in rw more (record { loads = omega arith; stores = omega arith })
  | inr less ↦ rw less is
]

module _ (at from : ℕ) (at_aligned : at % 32 ≡ 0) (from_aligned : from % 32 ≡ 0) where
  stream_32-ok :
      (src : Bytes) (c : Cursor)
      → Is32Aligned c
      → stream_aligned at from 32 src c ≡ some (advance 32 src c)
  unfolding stream_aligned
  stream_32-ok src c is =
      let s = is.loads in
      let d = is.stores in
      let e : (((from + c.s) % 32 == 0) && ((at + c.d) % 32 == 0)) ≡ true = ground arith in rw e

  stream_16-ok :
      (src : Bytes) (c : Cursor)
      → Is32Aligned c
      → stream_aligned at from 16 src c ≡ some (advance 16 src c)
  unfolding stream_aligned
  stream_16-ok src c is =
      let s = is.loads in
      let d = is.stores in
      let e : (((from + c.s) % 16 == 0) && ((at + c.d) % 16 == 0)) ≡ true = ground arith in rw e

  stream_two-ok :
      (src : Bytes) (c : Cursor)
      → Is32Aligned c
      → bind_stream at from 32 src (stream_aligned at from 32 src c) ≡ some (advance_two src c)
  unfolding bind_stream advance_two advance
  stream_two-ok src c is =
      let s = is.loads in
      let d = is.stores in
      ap (bind_stream at from 32 src) (stream_32-ok src c is)
      ∙ stream_32-ok src (advance 32 src c) (record { loads = omega arith; stores = omega arith })

  stream_while-ok :
      (src : Bytes) (fuel : ℕ) (c : Cursor)
      → Is32Aligned c
      → stream_while at from fuel src (some c) ≡ some (storeu_while fuel src c)
  unfolding stream_while storeu_while
  stream_while-ok src zero c is = refl
  stream_while-ok src (suc fuel) c is = elim (Bool-cases (leb 64 c.left)) [
    | inl more ↦ rw more (
        ap (stream_while at from fuel src) (stream_two-ok src c is)
        ∙ stream_while-ok src fuel (advance_two src c) (advance_two-Is32Aligned src c is))
    | inr less ↦ rw less
  ]

  stream_if-ok :
      (w : ℕ) (src : Bytes) (c : Cursor)
      → stream_aligned at from w src c ≡ some (advance w src c)
      → stream_if at from w src (some c) ≡ some (advance_if w src c)
  unfolding stream_if advance_if
  stream_if-ok w src c ok = elim (Bool-cases (leb w c.left)) [
    | inl more ↦ rw more ok
    | inr less ↦ rw less
  ]

  -- With both buffers at a multiple of 32, no aligned load and no streaming store faults, for every
  -- length, and the routine leaves what the one with unaligned accesses leaves: the copy.
  pub memcpy_avx2_load_stream_store-copied :
      (bytes : ℕ) (src dst : Bytes)
      → (memcpy_avx2_load_stream_store at from bytes src dst
          ≡ some (memcpy_avx2_loadu_storeu bytes src dst))
        × (memcpy_avx2_load_stream_store at from bytes src dst ≡ some (copied bytes src dst))
  unfolding memcpy_avx2_load_stream_store memcpy_avx2_loadu_storeu finish_copy
  memcpy_avx2_load_stream_store-copied bytes src dst =
      let c = storeu_while (suc bytes) src (at_start bytes dst) in
      let start : Is32Aligned (at_start bytes dst) = record { loads = refl; stores = refl } in
      let is = storeu_while-Is32Aligned src (suc bytes) (at_start bytes dst) start in
      let half = advance_if 32 src c in
      let same = ap (finish_copy at from src) (
        ap (λ o. stream_if at from 16 src (stream_if at from 32 src o))
          (stream_while-ok src (suc bytes) (at_start bytes dst) start)
        ∙ ap (stream_if at from 16 src) (stream_if-ok 32 src c (stream_32-ok src c is))
        ∙ stream_if-ok 16 src half (stream_16-ok src half (advance_if-Is32Aligned src c is))) in
      (same, same ∙ ap some (memcpy_avx2_loadu_storeu-copied bytes src dst))
