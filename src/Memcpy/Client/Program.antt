-- ===== src/Memcpy/Client/Program.antt =====
-- How main of standalone/memcpy/client.c runs: its routines, its sweeps, and its calls.
use sisci_perf.Common.{
  ℕ, ◌+◌, Option, some, Bool, not, List, [], ◌∷◌, ltb, leb, ◌==◌, if◌then◌else◌,
}
use sisci_perf.Standalone.{
  Call, initialize, open_sd, close_sd, terminate, connect_segment, map_remote, unmap_remote,
  disconnect, create_sequence, remove_sequence, set_mem_copy_function, Process, End, returned,
  goes_on, exited, undefined, and_then, with_call, seoe_all, or_return_1,
}
use sisci_perf.Memcpy.Cursor.{Bytes}
use sisci_perf.Memcpy.Chunks.{
  scicopy_op, scicopy_two_halves_op, memcopy_op, memcpy_8_chunks_op, memcpy_32_chunks_op,
  memcpy_64_chunks_op, memcpy_nonvol_64_chunks_op,
}
use sisci_perf.Memcpy.Blocks.{sci_mem_copy_os_copy_prefetch, nobranch_prefetch, memmove_prefetch}
use sisci_perf.Memcpy.Avx2.{memcpy_avx2_load_stream_store, memcpy_avx2_loadu_storeu}
use sisci_perf.Memcpy.Client.{
  wuloops, segment_id, int_end, Routine, Client, MemcpyCtx, BenchOp, memcpy_tuned_chunks, repeat,
  leave, run_benchmark, for_each_csize, int_fuel, align, fill_buffer, Body, Item, Sweep,
  single_sweeps, majloop, chunks_8, chunks_32, chunks_64, nonvol_64, os_copy, tuned, nobranch,
  memmove, scicopy, two_halves, memcopy, load_stream_store, loadu_storeu, always, if_at_least,
}

-- SCIMemCpy, and the outcome of the other calls, are SISCI's; malloc is the C library's, and its
-- block holds `heap`.
module _ (sci_memcpy : (size : ℕ) (src : Bytes) (s : ℕ) (dst : Bytes) (offset : ℕ) → Option Bytes)
    (succeeds : Call → Bool) where
  abbrev pub benches : MemcpyCtx → Routine → BenchOp
  benches ctx chunks_8 = λ n dst. some (memcpy_8_chunks_op n ctx.local dst)
  benches ctx chunks_32 = λ n dst. some (memcpy_32_chunks_op n ctx.local dst)
  benches ctx chunks_64 = λ n dst. some (memcpy_64_chunks_op n ctx.local dst)
  benches ctx nonvol_64 = λ n dst. some (memcpy_nonvol_64_chunks_op n ctx.local dst)
  benches ctx os_copy = λ n dst. some (sci_mem_copy_os_copy_prefetch n ctx.local dst)
  benches ctx tuned = memcpy_tuned_chunks ctx
  benches ctx nobranch = λ n dst. some (nobranch_prefetch n ctx.local dst)
  benches ctx memmove = λ n dst. some (memmove_prefetch n ctx.local dst)
  benches ctx scicopy = λ n dst. scicopy_op sci_memcpy n ctx.local dst
  benches ctx two_halves = λ n dst. scicopy_two_halves_op sci_memcpy n ctx.local dst
  benches ctx memcopy = λ n dst. some (memcopy_op n ctx.local dst)
  benches ctx load_stream_store =
      λ n dst. memcpy_avx2_load_stream_store ctx.remote_address ctx.local_address n ctx.local dst
  benches ctx loadu_storeu = λ n dst. some (memcpy_avx2_loadu_storeu n ctx.local dst)

  unfoldable pub bench : MemcpyCtx → Routine → Body
  bench ctx thing csize s = run_benchmark (benches ctx thing) csize thing s

  unfoldable pub bench_each : MemcpyCtx → List Routine → Body
  unfolding bench and_then
  bench_each ctx [] csize s = goes_on s
  bench_each ctx (thing ∷ things) csize s =
      and_then (bench ctx thing csize s) (bench_each ctx things csize)

  unfoldable pub run_item : MemcpyCtx → Item → Body
  unfolding bench bench_each
  run_item ctx (always thing) csize s = bench ctx thing csize s
  run_item ctx (if_at_least n things) csize s =
      if leb n csize then bench_each ctx things csize s else goes_on s

  unfoldable pub run_items : MemcpyCtx → List Item → Body
  unfolding run_item and_then
  run_items ctx [] csize s = goes_on s
  run_items ctx (item ∷ items) csize s =
      and_then (run_item ctx item csize s) (run_items ctx items csize)

  unfoldable pub run_sweep : MemcpyCtx → Sweep → Process Client → End (Process Client)
  unfolding for_each_csize run_items
  run_sweep ctx sweep = for_each_csize int_fuel sweep.first ctx.bytes (run_items ctx sweep.body)

  unfoldable pub run_sweeps : MemcpyCtx → List Sweep → Process Client → End (Process Client)
  unfolding run_sweep and_then
  run_sweeps ctx [] s = goes_on s
  run_sweeps ctx (sweep ∷ sweeps) s = and_then (run_sweep ctx sweep s) (run_sweeps ctx sweeps)

  unfoldable pub warm_up : MemcpyCtx → Process Client → End (Process Client)
  unfolding repeat
  warm_up ctx s =
      leave (λ dst. record s.own { remote = dst })
        (repeat wuloops (benches ctx scicopy) ctx.bytes (some s.own.remote)) s

  -- The address of the mapped segment, and that of the block malloc returns, are the system's.
  module _ (remote_address malloc_x : ℕ) (heap remote : Bytes) where
    abbrev pub ctx_of : ℕ → MemcpyCtx
    ctx_of bytes = record {
      local_address = align 64 malloc_x;
      bytes = bytes;
      remote_address = remote_address;
      trans_size = 0;
      local = fill_buffer bytes 0 heap;
    }

    abbrev pub begun : Process Client
    begun = record { own = record { remote = remote; rows = [] }; calls = [] }

    abbrev pub measure_all : MemcpyCtx → Process Client → End (Process Client)
    measure_all ctx s = and_then (warm_up ctx s) λ s.
        and_then (run_sweeps ctx single_sweeps s)
          λ s. run_sweeps ctx (majloop ∷ []) (with_call (set_mem_copy_function 5) s)

    abbrev pub give_back_all : List Call
    give_back_all = remove_sequence ∷ unmap_remote ∷ disconnect ∷ close_sd ∷ []

    unfoldable pub client_main : (argc remote_node_id bytes : ℕ) → End (Process Client)
    unfolding and_then seoe_all or_return_1 warm_up run_sweeps
    client_main argc remote_node_id bytes =
        if not (argc == 3)
        then exited begun
        else if not (ltb (bytes + 63) int_end)
        then undefined begun
        else and_then
            (seoe_all succeeds
              (initialize ∷ open_sd ∷ connect_segment remote_node_id segment_id ∷ []) begun)
            λ s. and_then (or_return_1 succeeds (map_remote bytes) s) λ s.
              and_then (seoe_all succeeds (create_sequence ∷ []) s) λ s.
                and_then (measure_all (ctx_of bytes) s) λ s.
                  and_then (seoe_all succeeds give_back_all s)
                    λ s. returned 0 (with_call terminate s)
