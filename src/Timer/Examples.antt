-- ===== src/Timer/Examples.antt =====
-- A measurement of five seconds, from the globals as the program starts.
use sisci_perf.Common.{◌≡◌, refl, true, some}
use sisci_perf.Timer.{Timer, timer_handler, at_start, handle, fire, alarm}

abbrev prepared : Timer
prepared = record at_start { sa = timer_handler; action = timer_handler; it_value = 5 }

abbrev started : Timer
started = record prepared { armed = some 5 }

fires_in_time : (alarm started).timer_expired ≡ true
unfolding fire handle
fires_in_time = refl
