-- ===== src/Memcpy/Client/Examples.antt =====
-- main of standalone/memcpy/client.c with a segment of 200 bytes, and with one of 2^30.
use sisci_perf.Common.{
  ℕ, ◌+◌, ◌%◌, ◌≤◌, ◌≡◌, ◌≢◌, ◌↔◌, refl, Option, some, [], ◌∷◌, Bool, true, arith, ltb,
  if◌then◌else◌,
}
use mathlib.Core.List.{Memᴰ}
use sisci_perf.Standalone.{
  Call, initialize, open_sd, connect_segment, map_remote, create_sequence, Process, returned,
  undefined,
}
use sisci_perf.Memcpy.Cursor.{Bytes, move, copied}
use sisci_perf.Memcpy.Client.{Row, Client, align, segment_id, chunks_64, always, fill_buffer}
use sisci_perf.Memcpy.Client.Program.{client_main}
use sisci_perf.Memcpy.Client.Sweeps.{rounds}
use sisci_perf.Memcpy.Client.Due.{IsDue}
use sisci_perf.Memcpy.Client.Outcome.{all_calls, client_main-measures, client_main_overflows}

-- SCIMemCpy on an adapter that copies.
abbrev copies : ℕ → Bytes → ℕ → Bytes → ℕ → Option Bytes
copies size src s dst offset = some (move size src s dst offset)

abbrev succeeds : Call → Bool
succeeds c = true

abbrev blank : Bytes
blank k = 255

-- The segment is mapped at 4096, and malloc has returned 5.
apart : 4096 ≢ align 64 5
unfolding align
apart e = let no : 4096 ≡ 64 = e in absurd (omega (arith, no))

client_main_example :
    (align 64 5 % 64 ≡ 0)
    × (5 ≤ align 64 5)
    × (align 64 5 + 200 ≤ 5 + (200 + 63))
    × ((end : Process Client) × (client_main copies succeeds 4096 5 blank blank 3 8 200
          ≡ returned 0 end)
        × (end.calls ≡ all_calls 8 200)
        × ((k : ℕ) → end.own.remote k ≡ (if ltb k 200 then k % 256 else blank k))
        × ((r : Row) → Memᴰ r end.own.rows ↔ IsDue 200 r))
client_main_example =
    client_main-measures copies (λ size src s dst offset. refl) succeeds (λ c. refl) 4096 5 blank
      blank 8 200 (omega arith) refl apart

client_main_overflows_example :
    client_main copies succeeds 4096 5 blank blank 3 8 1073741824
    ≡ undefined (record {
      own = record {
        remote = copied 1073741824 (fill_buffer 1073741824 0 blank) blank;
        rows = rounds 24 64 (always chunks_64 ∷ []);
      };
      calls =
          initialize
          ∷ open_sd
          ∷ connect_segment 8 segment_id
          ∷ map_remote 1073741824
          ∷ create_sequence
          ∷ [];
    })
client_main_overflows_example =
    client_main_overflows copies (λ size src s dst offset. refl) succeeds (λ c. refl) 4096 5 blank
      blank 8 1073741824 (omega arith) (omega arith) refl apart
