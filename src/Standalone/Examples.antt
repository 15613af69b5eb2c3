-- ===== src/Standalone/Examples.antt =====
-- The memcpy server with a client that connects and disconnects.
use sisci_perf.Common.{◌≡◌, refl, Bool, true, [], ◌∷◌}
use sisci_perf.Standalone.{Call}
use sisci_perf.Standalone.MemcpyServer.{
  operational, connect, disconnect, server_main, ended, server_main-ended,
}

abbrev all_succeed : Call → Bool
all_succeed c = true

server_example :
    server_main all_succeed (operational ∷ connect ∷ disconnect ∷ connect ∷ []) 2 4096
    ≡ ended 4096 (operational ∷ connect ∷ []) (disconnect ∷ connect ∷ [])
server_example =
    server_main-ended all_succeed 4096 (operational ∷ connect ∷ []) (disconnect ∷ connect ∷ [])
      (λ c. refl) refl refl
