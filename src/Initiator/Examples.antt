-- ===== src/Initiator/Examples.antt =====
-- A transfer of 1 MiB with vectors of at most 256 elements.
use sisci_perf.Common.{◌≡◌, refl, inl, some, List, arith}
use sisci_perf.Initiator.DmaVec.{Config, divisions, AllCover, divisions-AllCover}

divisions_example : (cs : List Config) × (divisions 256 1048576 ≡ some cs) × AllCover 1048576 cs
divisions_example = divisions-AllCover 256 1048576 (omega arith) (inl refl)
