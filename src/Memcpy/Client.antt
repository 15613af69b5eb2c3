-- ===== src/Memcpy/Client.antt =====
-- main of standalone/memcpy/client.c: the set-up, the sweeps over the sizes of a copy and the
-- tear-down, with run_benchmark and the callbacks that stand for the routines. `int` is guarded where
-- a size is computed: what leaves its range is undefined.
pub mod Program
pub mod Sweeps
pub mod Measures
pub mod Due
pub mod Reach
pub mod Outcome
pub mod Examples
use sisci_perf.Common.{
  ℕ, zero, suc, ◌+◌, ◌*◌, ◌%◌, Option, none, some, Bool, true, false, not, List, [], ◌∷◌, ◌++◌, ltb,
  leb, ◌==◌, if◌then◌else◌,
}
use sisci_perf.Standalone.{
  Call, initialize, open_sd, close_sd, terminate, connect_segment, map_remote, unmap_remote,
  disconnect, create_sequence, remove_sequence, set_mem_copy_function, Process, End, returned,
  goes_on, exited, undefined, unfinished, and_then, with_call, seoe_all, or_return_1,
}
use sisci_perf.Memcpy.Cursor.{Bytes}
use sisci_perf.Memcpy.Chunks.{
  scicopy_op, scicopy_two_halves_op, memcopy_op, memcpy_8_chunks_op, memcpy_32_chunks_op,
  memcpy_64_chunks_op, memcpy_nonvol_64_chunks_op, memcpy_chunks_generic,
}
use sisci_perf.Memcpy.Tuned.{memcpy_tuned_prefetch}
use sisci_perf.Memcpy.Blocks.{sci_mem_copy_os_copy_prefetch, nobranch_prefetch, memmove_prefetch}
use sisci_perf.Memcpy.Avx2.{memcpy_avx2_load_stream_store, memcpy_avx2_loadu_storeu}

abbrev pub iloops : ℕ
iloops = 50000

abbrev pub wuloops : ℕ
wuloops = 50000

abbrev pub segment_id : ℕ
segment_id = 1

-- One more than the largest `int`.
abbrev pub int_end : ℕ
int_end = 2147483648

-- The routine that a printed line names.
pub data Routine : Type 0 where
  chunks_8 chunks_32 chunks_64 nonvol_64 : Routine
  os_copy tuned nobranch memmove : Routine
  scicopy two_halves memcopy load_stream_store loadu_storeu : Routine

-- A line that run_benchmark prints, without its times.
pub record Row : Type 0 where
  pub bytes : ℕ
  pub thing : Routine

-- The content of the remote segment, and what has been printed.
pub record Client : Type 0 where
  pub remote : Bytes
  pub rows : List Row

-- The mapped addresses, and what lies behind the local one.
pub record MemcpyCtx : Type 0 where
  pub local_address : ℕ
  pub bytes : ℕ
  pub remote_address : ℕ
  pub trans_size : ℕ
  pub local : Bytes

-- A routine on the content of the remote segment; `none` ends the process.
abbrev pub BenchOp : Type 0
BenchOp = (bytes : ℕ) → Bytes → Option Bytes

abbrev pub memcpy_chunks : MemcpyCtx → BenchOp
memcpy_chunks ctx bytes dst = memcpy_chunks_generic bytes ctx.trans_size ctx.local dst

unfoldable pub memcpy_tuned_chunks : MemcpyCtx → BenchOp
memcpy_tuned_chunks ctx bytes dst =
    memcpy_tuned_prefetch ctx.remote_address ctx.local_address dst ctx.local bytes

-- `for (i = 0; i < n; i++) op(i, ctx, bytes)`.
unfoldable pub repeat : ℕ → BenchOp → ℕ → Option Bytes → Option Bytes
repeat zero op bytes dst = dst
repeat (suc n) op bytes none = none
repeat (suc n) op bytes (some dst) = repeat n op bytes (op bytes dst)

abbrev pub leave : (Bytes → Client) → Option Bytes → Process Client → End (Process Client)
leave next none s = exited s
leave next (some dst) s = goes_on (record s { own = next dst })

-- The timer and the fence behind the loop change no memory.
unfoldable pub run_benchmark : BenchOp → ℕ → Routine → Process Client → End (Process Client)
run_benchmark op bytes thing s =
    leave
      (λ dst. record {
        remote = dst;
        rows = s.own.rows ++ record { bytes = bytes; thing = thing } ∷ [];
      })
      (repeat iloops op bytes (some s.own.remote)) s

unfoldable pub doubled : ℕ → Process Client → (ℕ → End (Process Client)) → End (Process Client)
doubled csize s next = if ltb (csize * 2) int_end then next (csize * 2) else undefined s

-- `for (csize = …; csize <= bytes; csize *= 2) body`, on fuel.
unfoldable pub for_each_csize :
    (fuel csize bytes : ℕ)
    → (ℕ → Process Client → End (Process Client))
    → Process Client
    → End (Process Client)
unfolding and_then doubled
for_each_csize zero csize bytes body s = unfinished s
for_each_csize (suc fuel) csize bytes body s =
    if leb csize bytes
    then and_then (body csize s)
        (λ t. doubled csize t (λ next. for_each_csize fuel next bytes body t))
    else goes_on s

-- A doubling of an `int` from 8 on has at most 28 rounds.
abbrev pub int_fuel : ℕ
int_fuel = 32

-- `while ((size_t)malloc_x & 0x3f) malloc_x++`, on fuel.
unfoldable pub align : (fuel malloc_x : ℕ) → ℕ
align zero malloc_x = malloc_x
align (suc fuel) malloc_x =
    let rest = align fuel (malloc_x + 1) in if malloc_x % 64 == 0 then malloc_x else rest

-- `for (i = …; i < bytes; ++i) malloc_x[i] = i & 255`, with the rounds that are left.
unfoldable pub fill_buffer : (rounds i : ℕ) → Bytes → Bytes
fill_buffer zero i malloc_x = malloc_x
fill_buffer (suc r) i malloc_x = fill_buffer r (i + 1) (λ k. if k == i then i % 256 else malloc_x k)

abbrev pub Body : Type 0
Body = ℕ → Process Client → End (Process Client)

-- What the body of a sweep is made of: measurements, and measurements under `if (csize >= n)`.
pub data Item : Type 0 where
  always : Routine → Item
  if_at_least : (n : ℕ) → List Routine → Item

-- `for (csize = first; …)` with its body.
pub record Sweep : Type 0 where
  pub first : ℕ
  pub body : List Item

-- The loops of main before SetSciMemCopyFunction; sleep changes nothing.
abbrev pub single_sweeps : List Sweep
single_sweeps =
    record { first = 64; body = always chunks_64 ∷ [] }
    ∷ record { first = 64; body = always os_copy ∷ [] }
    ∷ record { first = 64; body = always tuned ∷ [] }
    ∷ record { first = 64; body = always nobranch ∷ [] }
    ∷ record { first = 64; body = always memmove ∷ [] }
    ∷ record { first = 64; body = always chunks_8 ∷ [] }
    ∷ record { first = 64; body = always chunks_32 ∷ always chunks_32 ∷ [] }
    ∷ record { first = 64; body = always chunks_64 ∷ always chunks_64 ∷ [] }
    ∷ record { first = 64; body = always chunks_32 ∷ always chunks_64 ∷ [] }
    ∷ record { first = 64; body = always chunks_64 ∷ always chunks_32 ∷ [] }
    ∷ []

-- The loop behind it.
abbrev pub majloop : Sweep
majloop = record {
  first = 8;
  body =
      always scicopy
      ∷ always two_halves
      ∷ always memcopy
      ∷ always load_stream_store
      ∷ always loadu_storeu
      ∷ always nobranch
      ∷ if_at_least 32 (chunks_32 ∷ [])
      ∷ if_at_least 64 (chunks_64 ∷ nonvol_64 ∷ [])
      ∷ always tuned
      ∷ always os_copy
      ∷ always nobranch
      ∷ always memmove
      ∷ [];
}
