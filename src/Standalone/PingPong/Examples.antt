-- ===== src/Standalone/PingPong/Examples.antt =====
-- Runs of the two ping-pong programs.
use sisci_perf.Common.{◌+◌, ◌≤◌, ◌≡◌, ◌≢◌, ◌⊎◌, refl, true, false}
use sisci_perf.Standalone.PingPong.{
  Both, ended, exited, responded, finished, connected, client_at, client_step, guard, server_by,
  server_step, arrive_at_server, deliver_to_server, arrive_at_client, Reached, connects, by_client,
  by_server, to_the_server, to_the_client,
}
use sisci_perf.Standalone.PingPong.Counts.{
  three_steps, turn, wind_up, Reached-responses, Reached-unblocks, Reached-ends,
}

-- The client waits, and its first word is on its way.
abbrev first_wait : Both
first_wait = client_step false true connected

first_wait-Reached : Reached first_wait
first_wait-Reached = by_client false true connects

-- After one round the server has answered the second word, and spins on it; two seconds are over.
abbrev over : Both
over = client_step true true (
    server_step true true
      (three_steps (deliver_to_server (client_step false true (turn false first_wait)))))

over-Reached : Reached over
over-Reached = by_client true true (
    by_server true true (
      by_server true true (
        by_server true true (
          by_server true true (
            to_the_server (
              by_client false true (
                by_client false true (
                  to_the_client (
                    by_server true true (
                      by_server true true
                        (by_server true true (to_the_server first_wait-Reached))))))))))))

-- It answers the -1 as well, so that its counter is two ahead.
over_ahead : ((wind_up over).server_counter ≡ 3) × (over.response_count ≡ 1)
unfolding client_at guard server_by arrive_at_server arrive_at_client
over_ahead = (refl, refl)

ping_pong_counts_example :
    (over.response_count ≡ over.curr_counter)
    × (over.response_count ≤ over.server_counter)
    × (over.server_counter ≤ over.response_count + 2)
    × ((over.at ≡ finished) ⊎ (over.server_counter ≤ over.response_count + 1))
    × ((over.at ≡ finished) ⊎ (over.server_at ≢ ended))
ping_pong_counts_example = Reached-responses over over-Reached

first_wait_on : first_wait.server_at ≢ exited
unfolding client_at
first_wait_on e = cc

over_on : over.server_at ≢ exited
unfolding client_at guard server_by arrive_at_server arrive_at_client
over_on e = cc

ping_pong_progress_example : (turn false first_wait).at ≡ responded
unfolding client_at
ping_pong_progress_example = Reached-unblocks false first_wait first_wait-Reached refl first_wait_on

ping_pong_ends_example : (wind_up over).server_at ≡ ended
unfolding client_at guard server_by arrive_at_server arrive_at_client
ping_pong_ends_example = Reached-ends over over-Reached refl over_on
