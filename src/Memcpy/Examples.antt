-- ===== src/Memcpy/Examples.antt =====
-- The routines of standalone/memcpy/client.c on concrete buffers.
use sisci_perf.Common.{ℕ, ◌≡◌, ◌≢◌, refl, Option, some, Bool, true, arith}
use sisci_perf.Standalone.{Call}
use sisci_perf.Memcpy.Cursor.{Bytes, move, copied}
use sisci_perf.Memcpy.Client.{tuned, MemcpyCtx}
use sisci_perf.Memcpy.Client.Program.{benches}
use sisci_perf.Memcpy.Client.Measures.{Suits, share, benches-copied}

-- Byte k of the local buffer is k, as the client fills it.
abbrev local_bytes : Bytes
local_bytes k = k

abbrev remote_bytes : Bytes
remote_bytes k = 255

-- SCIMemCpy on an adapter that copies.
abbrev copies : ℕ → Bytes → ℕ → Bytes → ℕ → Option Bytes
copies size src s dst offset = some (move size src s dst offset)

abbrev succeeds : Call → Bool
succeeds c = true

abbrev ctx : MemcpyCtx
ctx = record {
  local_address = 64;
  bytes = 203;
  remote_address = 4096;
  trans_size = 0;
  local = local_bytes;
}

apart : ctx.remote_address ≢ ctx.local_address
apart e = absurd (omega (arith, e))

suits : Suits ctx
suits = record { remote_aligned = refl; local_aligned = refl; apart = apart }

benches_example :
    benches copies succeeds ctx tuned 203 remote_bytes
    ≡ some (copied (share tuned 203) local_bytes remote_bytes)
benches_example =
    benches-copied copies (λ size src s dst offset. refl) succeeds ctx suits tuned 203 remote_bytes
      (omega arith)
