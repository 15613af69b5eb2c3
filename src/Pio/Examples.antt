-- ===== src/Pio/Examples.antt =====
-- The timed loops on a concrete adapter.
use sisci_perf.Common.{◌/◌, ◌≡◌, inr, refl, true, leb, List, [], ◌∷◌, arith}
use sisci_perf.Pio.Meter.{Outside, Segments, Meter, Call, store, err_ok, idle, is_ok}
use sisci_perf.Pio.Loops.{
  chk_seq, write_pio_byte, write_pio_word, write_pio_dword, write_pio_qword, read_pio,
}
use sisci_perf.Pio.Counted.{Fires, Stops}
use sisci_perf.Pio.Written.{Healthy, Wrote, written, stores, write_pio_widths-Stops}
use sisci_perf.Pio.Readback.{Read, read_pio-written}

-- The timer fires by the 100th read of its flag, and no call fails.
abbrev adapter : Outside
adapter = record {
  clock = λ n. leb 100 n;
  error = λ c log. err_ok;
  sequence_ok = λ log. true;
  queue_state = λ q log. idle;
}

adapter-Fires : Fires adapter 100
adapter-Fires = record { fired = refl; stays = λ k e. ground arith }

succeeds : (c : Call) (log : List Call) → is_ok (adapter.error c log) ≡ true
unfolding is_ok
succeeds c log = refl

adapter-Healthy : Healthy adapter
adapter-Healthy = record { succeeds = succeeds; in_order = λ log. refl }

abbrev zeros : Segments
zeros s i = 0

write_pio_widths_example :
    Stops (Wrote 64 2 zeros) (write_pio_byte adapter 101 64 2 chk_seq zeros)
    × Stops (Wrote (64 / 2) 2 zeros) (write_pio_word adapter 101 64 2 chk_seq zeros)
    × Stops (Wrote (64 / 4) 2 zeros) (write_pio_dword adapter 101 64 2 chk_seq zeros)
    × Stops (Wrote (64 / 8) 2 zeros) (write_pio_qword adapter 101 64 2 chk_seq zeros)
write_pio_widths_example =
    write_pio_widths-Stops adapter 64 2 100 101 chk_seq zeros (omega arith) adapter-Healthy
      adapter-Fires (omega arith)

-- Two elements in two segments, each stored to once.
abbrev stored_log : List Call
stored_log = store 1 1 ∷ store 0 0 ∷ []

stored_twice : stores stored_log ≡ 2
unfolding stores
stored_twice = refl

abbrev stored_meter : Meter
stored_meter = record { reads = 3; operations = 1; memory = written 2 2 2 zeros; log = stored_log }

stored-Wrote : Wrote 2 2 zeros stored_meter
unfolding stores
stored-Wrote = record { counted = inr refl; left = refl }

read_pio_example :
    Stops (Read (written 2 2 2 zeros)) (read_pio adapter 101 2 2 (written 2 2 2 zeros))
read_pio_example =
    read_pio-written adapter 100 101 2 2 zeros stored_meter (omega arith) stored-Wrote
      (omega (arith, stored_twice)) adapter-Fires (omega arith)
