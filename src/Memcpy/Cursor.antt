-- ===== src/Memcpy/Cursor.antt =====
-- Two buffers and the pointers into them, as standalone/memcpy/client.c moves them. The local and
-- the remote buffer are separate memories of bytes, indexed from their first byte.
use sisci_perf.Common.{
  ℕ, zero, suc, ◌+◌, ◌-◌, ◌≤◌, ◌<◌, ◌≡◌, refl, ◌&&◌, arith, ltb, leb, if◌then◌else◌, fun_ext,
  Bool-cases, inl, inr, sym, dec_lt,
}

abbrev pub Bytes : Type 0
Bytes = ℕ → ℕ

-- `w` bytes are loaded at `s` and stored at `d`.
unfoldable pub move : (w : ℕ) (src : Bytes) (s : ℕ) (dst : Bytes) (d : ℕ) → Bytes
move w src s dst d k = if leb d k && ltb k (d + w) then src (s + (k - d)) else dst k

-- What memcpy(dst, src, n) leaves in the destination: the specification of every routine.
unfoldable pub copied : (n : ℕ) (src dst : Bytes) → Bytes
copied n src dst k = if ltb k n then src k else dst k

pub copied-zero : (src dst : Bytes) → copied 0 src dst ≡ dst
unfolding copied
copied-zero src dst = fun_ext λ k. ground arith

pub move-copied :
    (w n : ℕ) (src dst : Bytes) → move w src n (copied n src dst) n ≡ copied (n + w) src dst
unfolding move copied
move-copied w n src dst = fun_ext λ k. elim (dec_lt k n) [
  | yes before ↦ ground arith
  | no behind ↦ let e : n + (k - n) ≡ k = omega arith in rw e (ground arith)
]

-- The pointers, the bytes that are left, and the destination's memory.
pub record Cursor : Type 0 where
  pub s : ℕ
  pub d : ℕ
  pub left : ℕ
  pub dst : Bytes

abbrev pub at_start : ℕ → Bytes → Cursor
at_start n dst = record { s = 0; d = 0; left = n; dst = dst }

-- A copy of `w` bytes that moves both pointers behind them: `*d = *s; d += w; s += w; n -= w`.
unfoldable pub advance : ℕ → Bytes → Cursor → Cursor
advance w src c = record {
  s = c.s + w;
  d = c.d + w;
  left = c.left - w;
  dst = move w src c.s c.dst c.d;
}

-- `while (n >= w) { copy w bytes }` on fuel.
unfoldable pub advance_while : ℕ → ℕ → Bytes → Cursor → Cursor
advance_while zero w src c = c
advance_while (suc fuel) w src c =
    let rest = advance_while fuel w src (advance w src c) in if leb w c.left then rest else c

-- `if (len >= w) { copy w bytes and move on }`.
unfoldable pub advance_if : ℕ → Bytes → Cursor → Cursor
advance_if w src c = if leb w c.left then advance w src c else c

-- `total` bytes are wanted; what lies behind the pointers has been copied, and nothing else.
pub record IsAt (src dst : Bytes) (total : ℕ) (c : Cursor) : Type 0 where
  pub together : c.d ≡ c.s
  pub rest : c.s + c.left ≡ total
  pub done : c.dst ≡ copied c.s src dst

pub at_start-IsAt : (src dst : Bytes) (n : ℕ) → IsAt src dst n (at_start n dst)
at_start-IsAt src dst n = record {
  together = refl;
  rest = omega arith;
  done = sym (copied-zero src dst);
}

pub advance-left : (w : ℕ) (src : Bytes) (c : Cursor) → (advance w src c).left ≡ c.left - w
unfolding advance
advance-left w src c = refl

pub advance-IsAt :
    (src dst : Bytes) (total w : ℕ) (c : Cursor)
    → w ≤ c.left
    → IsAt src dst total c
    → IsAt src dst total (advance w src c)
unfolding advance
advance-IsAt src dst total w c le at = record {
  together = omega arith;
  rest = omega arith;
  done = rw (at.together, at.done) (move-copied w c.s src dst);
}

-- With enough fuel the loop ends by its test.
pub advance_while-IsAt :
    (src dst : Bytes) (total fuel w : ℕ) (c : Cursor)
    → 0 < w
    → c.left < fuel
    → IsAt src dst total c
    → IsAt src dst total (advance_while fuel w src c) × ((advance_while fuel w src c).left < w)
unfolding advance_while
advance_while-IsAt src dst total zero w c pos lt at = absurd (omega arith)
advance_while-IsAt src dst total (suc fuel) w c pos lt at = elim (Bool-cases (leb w c.left)) [
  | inl more ↦ rw more (
      advance_while-IsAt src dst total fuel w (advance w src c) pos
        (let le : w ≤ c.left = ground arith in omega (arith, advance-left w src c))
        (advance-IsAt src dst total w c (ground arith) at))
  | inr less ↦ rw less (at, ground arith)
]

pub advance_if-IsAt :
    (src dst : Bytes) (total w : ℕ) (c : Cursor)
    → c.left < w + w
    → IsAt src dst total c
    → IsAt src dst total (advance_if w src c) × ((advance_if w src c).left < w)
unfolding advance_if
advance_if-IsAt src dst total w c lt at = elim (Bool-cases (leb w c.left)) [
  | inl more ↦
      let le : w ≤ c.left = ground arith in
      rw more (advance-IsAt src dst total w c le at, omega (arith, advance-left w src c))
  | inr less ↦ rw less (at, ground arith)
]

-- When nothing is left, the destination holds the copy.
pub IsAt-end :
    (src dst : Bytes) (total : ℕ) (c : Cursor)
    → IsAt src dst total c
    → c.left ≡ 0
    → c.dst ≡ copied total src dst
IsAt-end src dst total c at e = let t : c.s ≡ total = omega (arith, at.rest) in rw (← t) at.done
