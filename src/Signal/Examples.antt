-- ===== src/Signal/Examples.antt =====
-- A SIGTERM that comes between the last sigaction and SIG_BLOCK, and one that another thread takes
-- between the test and sigsuspend.
use sisci_perf.Common.{◌≡◌, ◌⊎◌, refl, true, false}
use sisci_perf.Signal.{
  Waiting, called, suspended, returned, sigterm, step_at, step, noted, taken, arrive, Reached,
  begins, steps, receives, run, Reached-returns, Reached-caused,
}

abbrev installed : Waiting
installed = step (step (step called))

abbrev early : Waiting
early = arrive installed.at false sigterm installed

early-Reached : Reached false early
early-Reached = receives false sigterm (steps (steps (steps begins)))

early-arrived : early.arrived ≡ true
unfolding arrive taken noted step_at
early-arrived = refl

returns_example : ((run 7 early).at ≡ returned) ⊎ ((false ≡ true) × ((run 7 early).at ≡ suspended))
returns_example = Reached-returns false early early-Reached early-arrived

abbrev later : Waiting
later = step (step (step early))

later-Reached : Reached false later
later-Reached = steps (steps (steps early-Reached))

later-returned : later.at ≡ returned
unfolding arrive taken noted step_at
later-returned = refl

caused_example : (later.received ≡ true) × (later.arrived ≡ true)
caused_example = Reached-caused false later later-Reached later-returned

-- The handler has run, and the peer sleeps on.
abbrev about_to_sleep : Waiting
about_to_sleep = step (step installed)

abbrev slept_through : Waiting
slept_through = run 7 (arrive about_to_sleep.at true sigterm about_to_sleep)

slept_through_lem : (slept_through.at ≡ suspended) × (slept_through.received ≡ true)
unfolding arrive taken noted step_at
slept_through_lem = (refl, refl)
