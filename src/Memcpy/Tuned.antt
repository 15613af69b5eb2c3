-- ===== src/Memcpy/Tuned.antt =====
-- memcpy_tuned_prefetch of standalone/memcpy/client.c with its scalar helpers. A 32-byte streaming
-- store faults unless its address is a multiple of 32; prefetches have no effect on memory.
use sisci_perf.Common.{
  ℕ, zero, suc, ◌+◌, ◌-◌, ◌*◌, ◌/◌, ◌%◌, ◌≤◌, ◌<◌, ◌≡◌, refl, sym, ap, subst, ◌∙◌, true, false,
  ◌||◌, Option, none, some, arith, ltb, leb, ◌==◌, if◌then◌else◌, fun_ext, Bool-cases, inl, inr,
}
use sisci_perf.Memcpy.Cursor.{
  Bytes, move, copied, move-copied, copied-zero, Cursor, advance_while, advance_if, IsAt,
  advance_if-IsAt, advance_while-IsAt, IsAt-end,
}
use sisci_perf.Memcpy.Chunks.{copy_for, copy_for_lem}

unfoldable pub memcpy_scalar_small : (dst : Bytes) (d : ℕ) (src : Bytes) (s : ℕ) (len : ℕ) → Bytes
memcpy_scalar_small dst d src s len = copy_for len 0 src s dst d

unfoldable pub memcpy_scalar_tail : (dst : Bytes) (d : ℕ) (src : Bytes) (s : ℕ) (len : ℕ) → Bytes
memcpy_scalar_tail dst d src s len =
    let words = advance_while (suc len) 8 src (record { s = s; d = d; left = len; dst = dst }) in
    let c = advance_if 2 src (advance_if 4 src words) in
    if c.left == 0 then c.dst else move 1 src c.s c.dst c.d

-- `_mm256_stream_si256`, at the address `at + d`.
unfoldable pub stream : (at : ℕ) (src : Bytes) (s : ℕ) (dst : Bytes) (d : ℕ) → Option Bytes
stream at src s dst d = if (at + d) % 32 == 0 then some (move 32 src s dst d) else none

-- The vector loop from `i` on, with the rounds that are left.
unfoldable pub stream_for :
    (rounds i at : ℕ) (src : Bytes) (s : ℕ) (d : ℕ) → Option Bytes → Option Bytes
stream_for zero i at src s d stored = stored
stream_for (suc r) i at src s d none = none
stream_for (suc r) i at src s d (some dst) =
    stream_for r (i + 1) at src s d (stream at src (s + i * 32) dst (d + i * 32))

unfoldable pub finish_tail : (tail : ℕ) (src : Bytes) (s : ℕ) (d : ℕ) → Option Bytes → Option Bytes
finish_tail tail src s d none = none
finish_tail tail src s d (some dst) =
    if tail == 0 then some dst else some (memcpy_scalar_tail dst d src s tail)

-- From `n_vec` on: small copies in one loop, large ones in two, then the tail.
unfoldable pub vectors :
    (at : ℕ) (dst : Bytes) (d : ℕ) (src : Bytes) (s : ℕ) (len : ℕ) → Option Bytes
vectors at dst d src s len =
    let n_vec = len / 32 in
    let main_end = n_vec - 16 in
    let stored =
      if leb n_vec 32
      then stream_for n_vec 0 at src s d (some dst)
      else stream_for (n_vec - main_end) main_end at src s d
          (stream_for main_end 0 at src s d (some dst)) in
    finish_tail (len % 32) src (s + n_vec * 32) (d + n_vec * 32) stored

unfoldable pub behind_prefix : (at prefix : ℕ) (dst src : Bytes) (len : ℕ) → Option Bytes
behind_prefix at prefix dst src len =
    let aligned = memcpy_scalar_small dst 0 src 0 prefix in
    let left = len - prefix in
    if ltb left 32
    then some (memcpy_scalar_small aligned prefix src prefix left)
    else vectors at aligned prefix src prefix left

-- The whole routine; the destination begins at the address `at`, the source at `from`.
unfoldable pub memcpy_tuned_prefetch : (at from : ℕ) (dst src : Bytes) (len : ℕ) → Option Bytes
memcpy_tuned_prefetch at from dst src len =
    let mis = at % 32 in
    let prefix = if ltb len (32 - mis) then len else 32 - mis in
    if (len == 0) || (at == from)
    then some dst
    else if ltb len 32
    then some (memcpy_scalar_small dst 0 src 0 len)
    else if mis == 0
    then vectors at dst 0 src 0 len
    else behind_prefix at prefix dst src len

zero_plus : (n : ℕ) → 0 + n ≡ n
zero_plus n = omega arith

small-copied :
    (n len : ℕ) (src dst : Bytes)
    → memcpy_scalar_small (copied n src dst) n src n len ≡ copied (n + len) src dst
unfolding memcpy_scalar_small
small-copied n len src dst = copy_for_lem len src n (copied n src dst) n ∙ move-copied len n src dst

last-copied :
    (src dst : Bytes) (total : ℕ) (c : Cursor)
    → c.left < 2
    → IsAt src dst total c
    → (if c.left == 0 then c.dst else move 1 src c.s c.dst c.d) ≡ copied total src dst
last-copied src dst total c lt at = elim (Bool-cases (c.left == 0)) [
  | inl nothing ↦ rw nothing (IsAt-end src dst total c at (ground arith))
  | inr one ↦
      let e : c.s + 1 ≡ total = let l : c.left ≡ 1 = ground arith in omega (arith, at.rest) in
      rw (one, at.together, at.done) (move-copied 1 c.s src dst ∙ rw e)
]

tail-copied :
    (n len : ℕ) (src dst : Bytes)
    → memcpy_scalar_tail (copied n src dst) n src n len ≡ copied (n + len) src dst
unfolding memcpy_scalar_tail
tail-copied n len src dst =
    let c : Cursor = record { s = n; d = n; left = len; dst = copied n src dst } in
    let eight =
      advance_while-IsAt src dst (n + len) (suc len) 8 c (omega arith) (omega arith)
        (record { together = refl; rest = refl; done = refl }) in
    let four = advance_if-IsAt src dst (n + len) 4 _ eight.1 eight.0 in
    let two = advance_if-IsAt src dst (n + len) 2 _ four.1 four.0 in
    last-copied src dst (n + len) _ two.1 two.0

stream-copied :
    (at n : ℕ) (src dst : Bytes)
    → (at + n) % 32 ≡ 0
    → stream at src n (copied n src dst) n ≡ some (copied (n + 32) src dst)
unfolding stream
stream-copied at n src dst aligned =
    let e : ((at + n) % 32 == 0) ≡ true = ground arith in rw e (ap some (move-copied 32 n src dst))

stream_for-copied :
    (r i at n : ℕ) (src dst : Bytes)
    → (at + n) % 32 ≡ 0
    → stream_for r i at src n n (some (copied (n + i * 32) src dst))
      ≡ some (copied (n + (i + r) * 32) src dst)
unfolding stream_for
stream_for-copied zero i at n src dst aligned = let e : i + 0 ≡ i = omega arith in rw e
stream_for-copied (suc r) i at n src dst aligned =
    let next : n + i * 32 + 32 ≡ n + (i + 1) * 32 = omega arith in
    let all : i + 1 + r ≡ i + suc r = omega arith in
    ap (λ o. stream_for r (i + 1) at src n n o)
      (stream-copied at (n + i * 32) src dst (omega arith) ∙ rw next)
    ∙ stream_for-copied r (i + 1) at n src dst aligned
    ∙ rw all

finish_tail-copied :
    (n tail : ℕ) (src dst : Bytes)
    → finish_tail tail src n n (some (copied n src dst)) ≡ some (copied (n + tail) src dst)
unfolding finish_tail
finish_tail-copied n tail src dst = elim (Bool-cases (tail == 0)) [
  | inl nothing ↦
      let e : n + tail ≡ n = let z : tail ≡ 0 = ground arith in omega arith in rw (nothing, e)
  | inr more ↦ rw more (ap some (tail-copied n tail src dst))
]

vectors-copied :
    (at n len : ℕ) (src dst : Bytes)
    → (at + n) % 32 ≡ 0
    → vectors at (copied n src dst) n src n len ≡ some (copied (n + len) src dst)
unfolding vectors
vectors-copied at n len src dst aligned =
    let v = len / 32 in
    let start : n + 0 * 32 ≡ n = omega arith in
    let from_0 = λ (r : ℕ).
      subst
        (λ m.
          stream_for r 0 at src n n (some (copied m src dst))
          ≡ some (copied (n + (0 + r) * 32) src dst))
        start (stream_for-copied r 0 at n src dst aligned) in
    let end : n + v * 32 + len % 32 ≡ n + len = omega arith in
    let tail : finish_tail (len % 32) src (n + v * 32) (n + v * 32)
          (some (copied (n + v * 32) src dst))
        ≡ some (copied (n + len) src dst) =
      finish_tail-copied (n + v * 32) (len % 32) src dst ∙ rw end in
    elim (Bool-cases (leb v 32)) [
      | inl small ↦ let e : 0 + v ≡ v = omega arith in rw (small, from_0 v, e) tail
      | inr large ↦
          let e : 0 + (v - 16) ≡ v - 16 = omega arith in
          let f : v - 16 + (v - (v - 16)) ≡ v = omega arith in
          rw
            (
              large,
              from_0 (v - 16),
              e,
              stream_for-copied (v - (v - 16)) (v - 16) at n src dst aligned,
              f,
            )
            tail
    ]

fitting : (at : ℕ) → (at + (32 - at % 32)) % 32 ≡ 0
fitting at = omega arith

copied_self : (len : ℕ) (src : Bytes) → copied len src src ≡ src
unfolding copied
copied_self len src = fun_ext λ k. ground arith

copied_or_same :
    (at from len : ℕ) (src dst : Bytes)
    → (at ≡ from → dst ≡ src)
    → ((len == 0) || (at == from)) ≡ true
    → dst ≡ copied len src dst
copied_or_same at from len src dst same e = elim (Bool-cases (len == 0)) [
  | inl nothing ↦ let z : len ≡ 0 = ground arith in rw (z, copied-zero src dst)
  | inr some_bytes ↦ let one : at ≡ from = ground arith in rw (same one) (sym (copied_self len src))
]

small-start : (len : ℕ) (src dst : Bytes) → memcpy_scalar_small dst 0 src 0 len ≡ copied len src dst
small-start len src dst =
    ap (λ m. memcpy_scalar_small m 0 src 0 len) (sym (copied-zero src dst))
    ∙ small-copied 0 len src dst
    ∙ rw (zero_plus len)

behind_prefix-copied :
    (at prefix len : ℕ) (dst src : Bytes)
    → (at + prefix) % 32 ≡ 0
    → prefix ≤ len
    → behind_prefix at prefix dst src len ≡ some (copied len src dst)
unfolding behind_prefix
behind_prefix-copied at prefix len dst src aligned le =
    let all : prefix + (len - prefix) ≡ len = omega arith in
    rw (small-start prefix src dst) elim (Bool-cases (ltb (len - prefix) 32)) [
      | inl short ↦ rw short (ap some (small-copied prefix (len - prefix) src dst ∙ rw all))
      | inr long ↦ rw long (vectors-copied at prefix (len - prefix) src dst aligned ∙ rw all)
    ]

-- Wherever the destination begins, and whatever the length, every streaming store is aligned and
-- the routine leaves the destination with the copy and nothing else changed. Equal addresses have
-- equal contents.
pub memcpy_tuned_prefetch-copied :
    (at from : ℕ) (dst src : Bytes) (len : ℕ)
    → (at ≡ from → dst ≡ src)
    → memcpy_tuned_prefetch at from dst src len ≡ some (copied len src dst)
unfolding memcpy_tuned_prefetch
memcpy_tuned_prefetch-copied at from dst src len same =
    elim (Bool-cases ((len == 0) || (at == from))) [
      | inl nothing ↦ rw nothing (ap some (copied_or_same at from len src dst same nothing))
      | inr work ↦ elim (Bool-cases (ltb len 32)) [
        | inl short ↦ rw (work, short) (ap some (small-start len src dst))
        | inr long ↦ elim (Bool-cases (at % 32 == 0)) [
          | inl aligned ↦
              rw (work, long, aligned)
                (ap (λ m. vectors at m 0 src 0 len) (sym (copied-zero src dst))
                  ∙ vectors-copied at 0 len src dst (ground arith)
                  ∙ rw (zero_plus len))
          | inr askew ↦
              let room : ltb len (32 - at % 32) ≡ false = ground arith in
              rw (work, long, askew, room)
                (behind_prefix-copied at (32 - at % 32) len dst src (fitting at) (ground arith))
        ]
      ]
    ]
