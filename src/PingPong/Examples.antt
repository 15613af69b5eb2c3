-- ===== src/PingPong/Examples.antt =====
-- The first ping of a ping-pong, and a thread that is cancelled in its loop.
use sisci_perf.Common.{◌+◌, ◌≤◌, ◌≡◌, ◌⊎◌, refl, true, false}
use sisci_perf.PingPong.Steps.{
  PingPong, waiting, counting, start, initiator_at, initiator_step, Reached, starts, by_initiator,
}
use sisci_perf.PingPong.Lockstep.{Tally, turn, Reached-counts, Reached-progress}
use sisci_perf.PingPong.Thread.{
  Thread, awaiting, bouncing, gone, new_thread, thread_step, poll, thread_at, land, store_arrives,
  cancel, cancel_at, cancel_if, take_effect, close, Run, creates, steps, stores, cancels, acts,
}
use sisci_perf.PingPong.Cleanup.{Outcome, Run-Outcome, Hazard, Run-Hazard}

abbrev first_ping : PingPong
first_ping = initiator_step false start

first_ping-Reached : Reached first_ping
first_ping-Reached = by_initiator false starts

first_ping_waits : first_ping.at ≡ waiting
unfolding initiator_at
first_ping_waits = refl

counts_example :
    Tally first_ping.at first_ping.operations first_ping.sent
    × ((first_ping.at ≡ waiting) ⊎ (first_ping.echoed ≡ first_ping.sent))
    × (first_ping.echoed ≤ first_ping.sent)
    × (first_ping.sent ≤ first_ping.echoed + 1)
counts_example = Reached-counts first_ping first_ping-Reached

progress_example : (turn true first_ping).at ≡ counting
progress_example = Reached-progress true first_ping first_ping-Reached first_ping_waits

-- Nine steps of the thread, while all calls succeed.
abbrev nine_steps : Thread → Thread
nine_steps t = thread_step true (
    thread_step true (
      thread_step true (
        thread_step true (
          thread_step true
            (thread_step true (thread_step true (thread_step true (thread_step true t))))))))

abbrev in_loop : Thread
in_loop = nine_steps (store_arrives (store_arrives (store_arrives (new_thread 9))))

abbrev cleaned : Thread
cleaned =
    thread_step true
      (thread_step true (thread_step true (thread_step true (take_effect (cancel in_loop)))))

in_loop-Run : Run 9 in_loop
in_loop-Run = steps true (
    steps true (
      steps true (
        steps true (
          steps true (
            steps true
              (steps true (steps true (steps true (stores (stores (stores creates)))))))))))

cleaned_is_gone : (in_loop.at ≡ bouncing) × (cleaned.at ≡ gone true)
unfolding thread_at land poll cancel_if cancel_at close
cleaned_is_gone = (refl, refl)

outcome_example : Outcome 9 cleaned.at cleaned
outcome_example =
    Run-Outcome 9 cleaned
      (steps true (steps true (steps true (steps true (acts (cancels in_loop-Run))))))

-- The thread waits for the initiator, whose stores have not arrived.
abbrev waits : Thread
waits = thread_step true (thread_step true (new_thread 9))

early_example : Hazard 9 waits.at waits true
early_example = Run-Hazard 9 waits true (steps true (steps true creates))

waits_there : waits.at ≡ awaiting
unfolding thread_at
waits_there = refl
