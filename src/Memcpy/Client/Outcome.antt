-- ===== src/Memcpy/Client/Outcome.antt =====
-- Theorems on main of standalone/memcpy/client.c.
use sisci_perf.Common.{
  ℕ, zero, suc, ◌+◌, ◌-◌, ◌%◌, ◌^◌, ◌≤◌, ◌<◌, ◌≡◌, ◌≢◌, ◌↔◌, refl, ◌∙◌, ℕ_discrete, Option, Bool,
  true, ◌&&◌, List, [], ◌∷◌, ◌++◌, arith, ltb, leb, ◌==◌, if◌then◌else◌, Bool-cases, inl, inr,
}
use mathlib.Core.List.{Memᴰ}
use sisci_perf.Standalone.{
  Call, initialize, open_sd, close_sd, terminate, connect_segment, map_remote, unmap_remote,
  disconnect, create_sequence, remove_sequence, set_mem_copy_function, Process, returned, undefined,
  and_then, seoe_all_ok, or_return_1,
}
use sisci_perf.Memcpy.Cursor.{Bytes, copied}
use sisci_perf.Memcpy.Client.{
  Row, Client, segment_id, int_end, align, fill_buffer, single_sweeps, majloop, always, chunks_64,
  int_fuel,
}
use sisci_perf.Memcpy.Client.Program.{ctx_of, client_main, run_sweep, run_sweeps}
use sisci_perf.Memcpy.Client.Measures.{Copies, Suits, mirrored, warm_up-mirrored}
use sisci_perf.Memcpy.Client.Sweeps.{sweeps_rows, rounds, run_sweeps-rows, for_each_csize_overflows}
use sisci_perf.Memcpy.Client.Due.{IsDue, all_rows, all_rows-IsDue}
use sisci_perf.Memcpy.Client.Reach.{all_rows-printed}

-- The rounding ends at the next multiple of 64, if it has fuel for the way.
align_lem :
    (fuel x : ℕ)
    → (64 - x % 64) % 64 ≤ fuel
    → (align fuel x % 64 ≡ 0) × (x ≤ align fuel x) × (align fuel x ≤ x + (64 - x % 64) % 64)
unfolding align
align_lem zero x le = (omega arith, omega arith, omega arith)
align_lem (suc fuel) x le = elim (Bool-cases (x % 64 == 0)) [
  | inl at ↦ rw at (ground arith, omega arith, omega arith)
  | inr off ↦
      let more : 0 < x % 64 = ground arith in
      let rest = align_lem fuel (x + 1) (omega arith) in
      rw off (rest.0, omega (arith, rest.1), omega (arith, rest.2))
]

fill_buffer_lem :
    (rounds i : ℕ) (b : Bytes) (k : ℕ)
    → fill_buffer rounds i b k ≡ (if leb i k && ltb k (i + rounds) then k % 256 else b k)
unfolding fill_buffer
fill_buffer_lem zero i b k = ground arith
fill_buffer_lem (suc r) i b k =
    fill_buffer_lem r (i + 1) (λ j. if j == i then i % 256 else b j) k
    ∙ elim (ℕ_discrete k i) [ yes here ↦ rw here (ground arith) | no other ↦ ground arith ]

-- The calls of a run that ends by itself.
abbrev pub all_calls : (remote_node_id bytes : ℕ) → List Call
all_calls remote_node_id bytes =
    initialize
    ∷ open_sd
    ∷ connect_segment remote_node_id segment_id
    ∷ map_remote bytes
    ∷ create_sequence
    ∷ set_mem_copy_function 5
    ∷ remove_sequence
    ∷ unmap_remote
    ∷ disconnect
    ∷ close_sd
    ∷ terminate
    ∷ []

module _ (sci_memcpy : (size : ℕ) (src : Bytes) (s : ℕ) (dst : Bytes) (offset : ℕ) → Option Bytes)
    (copies : Copies sci_memcpy) (succeeds : Call → Bool) (ok : (c : Call) → succeeds c ≡ true)
    (remote_address malloc_x : ℕ) (heap remote : Bytes) where
  Suits-ctx_of :
      (bytes : ℕ)
      → remote_address % 32 ≡ 0
      → remote_address ≢ align 64 malloc_x
      → Suits (ctx_of sci_memcpy succeeds remote_address malloc_x heap remote bytes)
  Suits-ctx_of bytes aligned apart = record {
    remote_aligned = aligned;
    local_aligned = omega (arith, (align_lem 64 malloc_x (omega arith)).0);
    apart = apart;
  }

  client_main-end :
      (remote_node_id bytes : ℕ)
      → bytes < 2 ^ 30
      → remote_address % 32 ≡ 0
      → remote_address ≢ align 64 malloc_x
      → client_main sci_memcpy succeeds remote_address malloc_x heap remote 3 remote_node_id bytes
        ≡ returned 0 (record {
          own = record {
            remote = copied bytes (fill_buffer bytes 0 heap) remote;
            rows = all_rows bytes;
          };
          calls = all_calls remote_node_id bytes;
        })
  unfolding client_main and_then or_return_1
  client_main-end remote_node_id bytes small aligned apart =
      let ctx = ctx_of sci_memcpy succeeds remote_address malloc_x heap remote bytes in
      let suits = Suits-ctx_of bytes aligned apart in
      let fits : ltb (bytes + 63) int_end ≡ true = ground arith in
      let first = initialize ∷ open_sd ∷ connect_segment remote_node_id segment_id ∷ [] in
      let opened = first ++ map_remote bytes ∷ create_sequence ∷ [] in
      let start : List Call → Process Client =
        λ calls. record { own = record { remote = remote; rows = [] }; calls = calls } in
      let rows = sweeps_rows bytes single_sweeps in
      let holding = mirrored sci_memcpy copies succeeds ctx suits remote in
      rw (
        fits,
        seoe_all_ok succeeds first (start []) ok,
        ok (map_remote bytes),
        seoe_all_ok succeeds (create_sequence ∷ []) (start (first ++ map_remote bytes ∷ [])) ok,
        warm_up-mirrored sci_memcpy copies succeeds ctx suits remote [] opened,
        run_sweeps-rows sci_memcpy copies succeeds ctx suits remote opened single_sweeps [] small
            (ground arith),
        run_sweeps-rows sci_memcpy copies succeeds ctx suits remote
            (opened ++ set_mem_copy_function 5 ∷ []) (majloop ∷ []) rows small (ground arith),
        seoe_all_ok succeeds (remove_sequence ∷ unmap_remote ∷ disconnect ∷ close_sd ∷ [])
            (holding (all_rows bytes) (opened ++ set_mem_copy_function 5 ∷ [])) ok,
      )

  -- Below 2^30 bytes, if every call succeeds, SCIMemCpy copies, and the remote segment is mapped at
  -- a multiple of 32 that is not the local buffer: the local buffer lies at a multiple of 64 within
  -- the block that malloc returned; main returns 0 and has made its calls in order, giving back each
  -- handle; byte k of the remote segment is k mod 256 for each of the `bytes`, and what it was
  -- behind them; and a line is printed exactly if its size is a power of two (times 8) between the
  -- smallest size of its routine and `bytes`.
  pub client_main-measures :
      (remote_node_id bytes : ℕ)
      → bytes < 2 ^ 30
      → remote_address % 32 ≡ 0
      → remote_address ≢ align 64 malloc_x
      → (align 64 malloc_x % 64 ≡ 0)
        × (malloc_x ≤ align 64 malloc_x)
        × (align 64 malloc_x + bytes ≤ malloc_x + (bytes + 63))
        × ((end : Process Client) × (client_main sci_memcpy succeeds remote_address malloc_x heap
                remote 3 remote_node_id bytes
              ≡ returned 0 end)
            × (end.calls ≡ all_calls remote_node_id bytes)
            × ((k : ℕ) → end.own.remote k ≡ (if ltb k bytes then k % 256 else remote k))
            × ((r : Row) → Memᴰ r end.own.rows ↔ IsDue bytes r))
  unfolding copied
  client_main-measures remote_node_id bytes small aligned apart =
      let place = align_lem 64 malloc_x (omega arith) in
      (
        place.0,
        place.1,
        omega (arith, place.2),
        (
          _,
          client_main-end remote_node_id bytes small aligned apart,
          refl,
          λ k. rw (fill_buffer_lem bytes 0 heap k) (ground arith),
          λ r. (all_rows-IsDue bytes r, all_rows-printed r bytes small),
        ),
      )

  -- From 2^30 bytes on, as long as what malloc is asked for fits an `int`, the first sweep does not
  -- end: even if every call succeeds, SCIMemCpy copies, and the remote segment is mapped as above,
  -- main prints the lines of 64, 128, ... up to 2^30 bytes, the content having reached the remote
  -- segment, and the `int` that doubles overflows then, which is undefined. Nothing is given back.
  pub client_main_overflows :
      (remote_node_id bytes : ℕ)
      → 2 ^ 30 ≤ bytes
      → bytes + 63 < int_end
      → remote_address % 32 ≡ 0
      → remote_address ≢ align 64 malloc_x
      → client_main sci_memcpy succeeds remote_address malloc_x heap remote 3 remote_node_id bytes
        ≡ undefined (record {
          own = record {
            remote = copied bytes (fill_buffer bytes 0 heap) remote;
            rows = rounds 24 64 (always chunks_64 ∷ []);
          };
          calls =
              initialize
              ∷ open_sd
              ∷ connect_segment remote_node_id segment_id
              ∷ map_remote bytes
              ∷ create_sequence
              ∷ [];
        })
  unfolding client_main and_then or_return_1 run_sweeps run_sweep
  client_main_overflows remote_node_id bytes large within aligned apart =
      let ctx = ctx_of sci_memcpy succeeds remote_address malloc_x heap remote bytes in
      let suits = Suits-ctx_of bytes aligned apart in
      let first = initialize ∷ open_sd ∷ connect_segment remote_node_id segment_id ∷ [] in
      let opened = first ++ map_remote bytes ∷ create_sequence ∷ [] in
      let start : List Call → Process Client =
        λ calls. record { own = record { remote = remote; rows = [] }; calls = calls } in
      let fits : ltb (bytes + 63) int_end ≡ true = ground arith in
      rw (
        fits,
        seoe_all_ok succeeds first (start []) ok,
        ok (map_remote bytes),
        seoe_all_ok succeeds (create_sequence ∷ []) (start (first ++ map_remote bytes ∷ [])) ok,
        warm_up-mirrored sci_memcpy copies succeeds ctx suits remote [] opened,
        for_each_csize_overflows sci_memcpy copies succeeds ctx suits remote opened
            (always chunks_64 ∷ []) 24 int_fuel 64 [] large (omega arith) (omega arith)
            (omega arith),
      )
