-- ===== src/Memcpy/Client/Measures.antt =====
-- A measurement of the memcpy client on a remote segment that holds the copy already.
use sisci_perf.Common.{
  ℕ, suc, zero, ◌*◌, ◌/◌, ◌%◌, ◌≤◌, ◌<◌, ◌≡◌, ◌≢◌, refl, ap, ◌∙◌, Option, some, Bool, false, List,
  [], ◌∷◌, ◌++◌, arith, ◌==◌, fun_ext,
}
use sisci_perf.Standalone.{Call, Process, goes_on}
use sisci_perf.Memcpy.Cursor.{Bytes, move, copied}
use sisci_perf.Memcpy.Chunks.{
  scicopy_op, memcopy_op, memcpy_chunks_op-copied, two_halves-copied, move-zero,
}
use sisci_perf.Memcpy.Tuned.{memcpy_tuned_prefetch-copied}
use sisci_perf.Memcpy.Blocks.{blocks-copied}
use sisci_perf.Memcpy.Avx2.{memcpy_avx2_load_stream_store-copied, memcpy_avx2_loadu_storeu-copied}
use sisci_perf.Memcpy.Client.{
  Routine, chunks_8, chunks_32, chunks_64, nonvol_64, os_copy, tuned, nobranch, memmove, scicopy,
  two_halves, memcopy, load_stream_store, loadu_storeu, Row, Client, MemcpyCtx, BenchOp,
  memcpy_tuned_chunks, repeat, iloops, run_benchmark,
}
use sisci_perf.Memcpy.Client.Program.{benches, bench, warm_up}

-- A shorter copy over a copy of the same bytes changes nothing.
pub copied_again :
    (m n : ℕ) (src dst : Bytes) → m ≤ n → copied m src (copied n src dst) ≡ copied n src dst
unfolding copied
copied_again m n src dst le = fun_ext λ k. ground arith

pub repeat_same :
    (k n : ℕ) (op : BenchOp) (dst : Bytes)
    → op n dst ≡ some dst
    → repeat k op n (some dst) ≡ some dst
unfolding repeat
repeat_same zero n op dst same = refl
repeat_same (suc k) n op dst same = rw same (repeat_same k n op dst same)

-- The first round makes what the others keep.
repeat_first :
    (k n : ℕ) (op : BenchOp) (before dst : Bytes)
    → op n before ≡ some dst
    → op n dst ≡ some dst
    → repeat (suc k) op n (some before) ≡ some dst
unfolding repeat
repeat_first k n op before dst first same = rw first (repeat_same k n op dst same)

-- What SCIMemCpy does when it succeeds.
abbrev pub Copies :
    ((size : ℕ) (src : Bytes) (s : ℕ) (dst : Bytes) (offset : ℕ) → Option Bytes) → Type 0
Copies sci_memcpy =
    (size : ℕ) (src : Bytes) (s : ℕ) (dst : Bytes) (offset : ℕ)
    → sci_memcpy size src s dst offset ≡ some (move size src s dst offset)

-- Both addresses are aligned for vector stores, and they are two.
pub record Suits (ctx : MemcpyCtx) : Type 0 where
  pub remote_aligned : ctx.remote_address % 32 ≡ 0
  pub local_aligned : ctx.local_address % 32 ≡ 0
  pub apart : ctx.remote_address ≢ ctx.local_address

-- How many of the bytes a routine copies: those of its whole elements of 4 or 8 bytes, or all.
abbrev pub share : Routine → ℕ → ℕ
share chunks_32 n = n / 4 * 4
share chunks_64 n = n / 8 * 8
share nonvol_64 n = n / 8 * 8
share os_copy n = n / 4 * 4
share nobranch n = n / 4 * 4
share _ n = n

share-bound : (thing : Routine) (n : ℕ) → share thing n ≤ n
share-bound chunks_8 n = omega arith
share-bound chunks_32 n = omega arith
share-bound chunks_64 n = omega arith
share-bound nonvol_64 n = omega arith
share-bound os_copy n = omega arith
share-bound tuned n = omega arith
share-bound nobranch n = omega arith
share-bound memmove n = omega arith
share-bound scicopy n = omega arith
share-bound two_halves n = omega arith
share-bound memcopy n = omega arith
share-bound load_stream_store n = omega arith
share-bound loadu_storeu n = omega arith

module _ (sci_memcpy : (size : ℕ) (src : Bytes) (s : ℕ) (dst : Bytes) (offset : ℕ) → Option Bytes)
    (copies : Copies sci_memcpy) (succeeds : Call → Bool) (ctx : MemcpyCtx)
    (suits : Suits ctx) where
  scicopy-copied :
      (n : ℕ) (dst : Bytes) → scicopy_op sci_memcpy n ctx.local dst ≡ some (copied n ctx.local dst)
  unfolding scicopy_op
  scicopy-copied n dst = copies n ctx.local 0 dst 0 ∙ ap some (move-zero n ctx.local dst)

  -- Of at least two bytes, from separate buffers at multiples of 32, and if SCIMemCpy copies what it
  -- is asked for, every routine that main measures leaves exactly the copy of its share of the bytes
  -- (all of them, or the whole elements of 4 or of 8 bytes), whatever was there; no access faults.
  pub benches-copied :
      (thing : Routine) (n : ℕ) (dst : Bytes)
      → 1 < n
      → benches sci_memcpy succeeds ctx thing n dst ≡ some (copied (share thing n) ctx.local dst)
  unfolding memcpy_tuned_chunks memcopy_op
  benches-copied chunks_8 n dst lt = ap some (memcpy_chunks_op-copied n ctx.local dst).0
  benches-copied chunks_32 n dst lt = ap some (memcpy_chunks_op-copied n ctx.local dst).1
  benches-copied chunks_64 n dst lt = ap some (memcpy_chunks_op-copied n ctx.local dst).2
  benches-copied nonvol_64 n dst lt = ap some (memcpy_chunks_op-copied n ctx.local dst).3
  benches-copied os_copy n dst lt = ap some (blocks-copied n ctx.local dst).0
  benches-copied tuned n dst lt =
      memcpy_tuned_prefetch-copied ctx.remote_address ctx.local_address dst ctx.local n
        (λ same. absurd (suits.apart same))
  benches-copied nobranch n dst lt = ap some (blocks-copied n ctx.local dst).1
  benches-copied memmove n dst lt = ap some (blocks-copied n ctx.local dst).2
  benches-copied scicopy n dst lt = scicopy-copied n dst
  benches-copied two_halves n dst lt =
      let more : (n == 1) ≡ false = ground arith in
      two_halves-copied sci_memcpy n ctx.local dst copies ∙ rw more (scicopy-copied n dst)
  benches-copied memcopy n dst lt = ap some (move-zero n ctx.local dst)
  benches-copied load_stream_store n dst lt =
      (memcpy_avx2_load_stream_store-copied ctx.remote_address ctx.local_address
        suits.remote_aligned suits.local_aligned n ctx.local dst).1
  benches-copied loadu_storeu n dst lt = ap some (memcpy_avx2_loadu_storeu-copied n ctx.local dst)

  abbrev row : ℕ → Routine → Row
  row n thing = record { bytes = n; thing = thing }

  -- The state of a client whose remote segment holds the copy.
  abbrev pub mirrored : Bytes → List Row → List Call → Process Client
  mirrored remote rows calls = record {
    own = record { remote = copied ctx.bytes ctx.local remote; rows = rows };
    calls = calls;
  }

  -- A measurement leaves the copy as it is and prints its line.
  pub bench-mirrored :
      (thing : Routine) (n : ℕ) (remote : Bytes) (rows : List Row) (calls : List Call)
      → 1 < n
      → n ≤ ctx.bytes
      → bench sci_memcpy succeeds ctx thing n (mirrored remote rows calls)
        ≡ goes_on (mirrored remote (rows ++ row n thing ∷ []) calls)
  unfolding bench run_benchmark
  bench-mirrored thing n remote rows calls lt le =
      let full = copied ctx.bytes ctx.local remote in
      let op = benches sci_memcpy succeeds ctx thing in
      let same : op n full ≡ some full =
        benches-copied thing n full lt
        ∙ ap some (
            copied_again (share thing n) ctx.bytes ctx.local remote
              (omega (arith, share-bound thing n, le))) in
      rw (repeat_same iloops n op full same)

  -- The warm-up makes the copy.
  pub warm_up-mirrored :
      (remote : Bytes) (rows : List Row) (calls : List Call)
      → warm_up sci_memcpy succeeds ctx
          (record { own = record { remote = remote; rows = rows }; calls = calls })
        ≡ goes_on (mirrored remote rows calls)
  unfolding warm_up
  warm_up-mirrored remote rows calls =
      let full = copied ctx.bytes ctx.local remote in
      let same : scicopy_op sci_memcpy ctx.bytes ctx.local full ≡ some full =
        scicopy-copied ctx.bytes full
        ∙ ap some (copied_again ctx.bytes ctx.bytes ctx.local remote (omega arith)) in
      rw (
        repeat_first 49999 ctx.bytes (benches sci_memcpy succeeds ctx scicopy) remote full
          (scicopy-copied ctx.bytes remote) same)
