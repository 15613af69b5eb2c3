-- ===== src/Standalone/PingPong/Counts.antt =====
-- What the rounds of the two ping-pong programs come to: their counts, and their ends.
use sisci_perf.Common.{ℕ, ◌+◌, ◌≤◌, ◌≡◌, ◌≢◌, ◌⊎◌, inl, inr, refl, Bool, true, arith}
use sisci_perf.Standalone.PingPong.{
  ClientAt, timing, waiting, responded, finished, ServerAt, guarding, spinning, answering, ended,
  exited, Both, client_at, client_step, guard, server_by, server_step, arrive_at_server,
  deliver_to_server, arrive_at_client, deliver_to_client, Reached,
}
use sisci_perf.Standalone.PingPong.Rounds.{
  IsAsking, IsRunning, IsIdle, IsServing, IsLate, IsLast, Round, asked, heard, answered, echoed,
  stops_early, stops, stopped, alone, over, same, ahead, Reached-Round,
}

guarding_on : guarding ≢ ended
guarding_on e = cc

spinning_on : spinning ≢ ended
spinning_on e = cc

answering_on : answering ≢ ended
answering_on e = cc

exited_on : exited ≢ ended
exited_on e = cc

IsServing-on : (by : ServerAt) → IsServing by → by ≢ ended
IsServing-on guarding serving = guarding_on
IsServing-on spinning serving = spinning_on
IsServing-on answering serving = answering_on
IsServing-on ended serving = absurd serving
IsServing-on exited serving = absurd serving

IsIdle-IsServing : (by : ServerAt) → IsIdle by → IsServing by
IsIdle-IsServing guarding idle = tt
IsIdle-IsServing spinning idle = tt
IsIdle-IsServing answering idle = absurd idle
IsIdle-IsServing ended idle = absurd idle
IsIdle-IsServing exited idle = absurd idle

IsLate-bounds : (by : ServerAt) (n m : ℕ) → IsLate by n m → (n ≤ m) × (m ≤ n + 2)
IsLate-bounds guarding n m late = (omega (arith, late), omega (arith, late))
IsLate-bounds spinning n m late = (omega (arith, late), omega (arith, late))
IsLate-bounds answering n m late = (omega arith, omega arith)
IsLate-bounds ended n m late = absurd late
IsLate-bounds exited n m late = absurd late

IsLast-bounds : (by : ServerAt) (n m : ℕ) → IsLast by n m → (n ≤ m) × (m ≤ n + 2)
IsLast-bounds guarding n m last = last
IsLast-bounds spinning n m last = (omega (arith, last), omega (arith, last))
IsLast-bounds answering n m last = (omega (arith, last), omega (arith, last))
IsLast-bounds ended n m last = last
IsLast-bounds exited n m last = absurd last

Round-responses :
    (s : Both)
    → Round s
    → (s.response_count ≡ s.curr_counter)
      × (s.response_count ≤ s.server_counter)
      × (s.server_counter ≤ s.response_count + 2)
      × ((s.at ≡ finished) ⊎ (s.server_counter ≤ s.response_count + 1))
      × ((s.at ≡ finished) ⊎ (s.server_at ≢ ended))
Round-responses _ (asked at by n is idle) = (
  refl,
  omega arith,
  omega arith,
  inr (omega arith),
  inr (IsServing-on by (IsIdle-IsServing by idle)),
)
Round-responses _ (heard at by n is serving) =
    (refl, omega arith, omega arith, inr (omega arith), inr (IsServing-on by (serving)))
Round-responses _ (answered at by n is idle) = (
  refl,
  omega arith,
  omega arith,
  inr (omega arith),
  inr (IsServing-on by (IsIdle-IsServing by idle)),
)
Round-responses _ (echoed at by n is idle) = (
  refl,
  omega arith,
  omega arith,
  inr (omega arith),
  inr (IsServing-on by (IsIdle-IsServing by idle)),
)
Round-responses _ (stops_early by n back echo idle) =
    (refl, omega arith, omega arith, inl refl, inl refl)
Round-responses _ (stops by n m back echo late) =
    (refl, (IsLate-bounds by n m late).0, (IsLate-bounds by n m late).1, inl refl, inl refl)
Round-responses _ (stopped by n m back echo last) =
    (refl, (IsLast-bounds by n m last).0, (IsLast-bounds by n m last).1, inl refl, inl refl)
Round-responses _ (alone at n is) =
    (refl, omega arith, omega arith, inr (omega arith), inr exited_on)
Round-responses _ (over n m to_server word back echo le) = (refl, le.0, le.1, inl refl, inl refl)

-- In whatever order the steps of both programs and the arrivals of their words come, and whichever
-- copies of the server fail and rounds of the busy waits go by an old word: the client counts each
-- of its rounds as a response; the server's counter is at least that, one more at most while the
-- client runs, two more at most afterwards (the -1 that ends it counts as a word of the client's
-- if it comes while the server spins); and while the client runs, the server does not come to the
-- end of its loops: it serves, or has exited at a copy that failed.
pub Reached-responses :
    (s : Both)
    → Reached s
    → (s.response_count ≡ s.curr_counter)
      × (s.response_count ≤ s.server_counter)
      × (s.server_counter ≤ s.response_count + 2)
      × ((s.at ≡ finished) ⊎ (s.server_counter ≤ s.response_count + 1))
      × ((s.at ≡ finished) ⊎ (s.server_at ≢ ended))
Reached-responses s reached = Round-responses s (Reached-Round s reached)

abbrev pub three_steps : Both → Both
three_steps s = server_step true true (server_step true true (server_step true true s))

-- One turn of everything else, with copies that succeed, and then a step of the client.
abbrev pub turn : (two_seconds : Bool) → Both → Both
turn two_seconds s =
    client_step two_seconds true (deliver_to_client (three_steps (deliver_to_server s)))

-- Everything that is on its way to the server arrives, and it makes three steps.
abbrev pub wind_up : Both → Both
wind_up s = three_steps (deliver_to_server (deliver_to_server s))

Round-unblocks :
    (t : Bool) (s : Both)
    → Round s
    → s.at ≡ waiting
    → s.server_at ≢ exited
    → (turn t s).at ≡ responded
unfolding client_at server_by guard arrive_at_server arrive_at_client
Round-unblocks t _ (asked at guarding n is idle) e on = rw (e, ahead n, ahead n)
Round-unblocks t _ (asked at spinning n is idle) e on = rw (e, ahead n, ahead n)
Round-unblocks t _ (asked at answering n is idle) e on = absurd idle
Round-unblocks t _ (asked at ended n is idle) e on = absurd idle
Round-unblocks t _ (asked at exited n is idle) e on = absurd idle
Round-unblocks t _ (heard at guarding n is serving) e on = rw (e, ahead n, ahead n)
Round-unblocks t _ (heard at spinning n is serving) e on = rw (e, ahead n, ahead n)
Round-unblocks t _ (heard at answering n is serving) e on = rw (e, same (n + 1), ahead n)
Round-unblocks t _ (heard at ended n is serving) e on = absurd serving
Round-unblocks t _ (heard at exited n is serving) e on = absurd serving
Round-unblocks t _ (answered at guarding n is idle) e on =
    rw (e, same (n + 1), same (n + 1), ahead n)
Round-unblocks t _ (answered at spinning n is idle) e on =
    rw (e, same (n + 1), same (n + 1), same (n + 1), ahead n)
Round-unblocks t _ (answered at answering n is idle) e on = absurd idle
Round-unblocks t _ (answered at ended n is idle) e on = absurd idle
Round-unblocks t _ (answered at exited n is idle) e on = absurd idle
Round-unblocks t _ (echoed at guarding n is idle) e on = rw (e, same (n + 1), same (n + 1), ahead n)
Round-unblocks t _ (echoed at spinning n is idle) e on =
    rw (e, same (n + 1), same (n + 1), same (n + 1), ahead n)
Round-unblocks t _ (echoed at answering n is idle) e on = absurd idle
Round-unblocks t _ (echoed at ended n is idle) e on = absurd idle
Round-unblocks t _ (echoed at exited n is idle) e on = absurd idle
Round-unblocks t _ (stops_early by n back echo idle) e on = cc
Round-unblocks t _ (stops by n m back echo late) e on = cc
Round-unblocks t _ (stopped by n m back echo last) e on = cc
Round-unblocks t _ (alone at n is) e on = absurd (on refl)
Round-unblocks t _ (over n m to_server word back echo le) e on = absurd (on refl)

IsRunning-on : (at : ClientAt) → IsRunning at → at ≢ finished
IsRunning-on timing is e = cc
IsRunning-on waiting is e = cc
IsRunning-on responded is e = cc
IsRunning-on finished is e = absurd is

IsAsking-on : (at : ClientAt) → IsAsking at → at ≢ finished
IsAsking-on timing is e = cc
IsAsking-on waiting is e = cc
IsAsking-on responded is e = absurd is
IsAsking-on finished is e = absurd is

Round-ends :
    (s : Both) → Round s → s.at ≡ finished → s.server_at ≢ exited → (wind_up s).server_at ≡ ended
unfolding server_by guard arrive_at_server
Round-ends _ (stops_early guarding n back echo idle) e on = refl
Round-ends _ (stops_early spinning n back echo idle) e on = refl
Round-ends _ (stops_early answering n back echo idle) e on = absurd idle
Round-ends _ (stops_early ended n back echo idle) e on = absurd idle
Round-ends _ (stops_early exited n back echo idle) e on = absurd idle
Round-ends _ (stops guarding n m back echo late) e on = refl
Round-ends _ (stops spinning n m back echo late) e on = refl
Round-ends _ (stops answering n m back echo late) e on = refl
Round-ends _ (stops ended n m back echo late) e on = absurd late
Round-ends _ (stops exited n m back echo late) e on = absurd late
Round-ends _ (stopped guarding n m back echo last) e on = refl
Round-ends _ (stopped spinning n m back echo last) e on = refl
Round-ends _ (stopped answering n m back echo last) e on = refl
Round-ends _ (stopped ended n m back echo last) e on = refl
Round-ends _ (asked at by n is idle) e on = absurd (IsAsking-on at is e)
Round-ends _ (heard at by n is serving) e on = absurd (IsAsking-on at is e)
Round-ends _ (answered at by n is idle) e on = absurd (IsAsking-on at is e)
Round-ends _ (echoed at by n is idle) e on = absurd (IsRunning-on at is e)
Round-ends _ (stopped exited n m back echo last) e on = absurd last
Round-ends _ (alone at n is) e on = absurd (on refl)
Round-ends _ (over n m to_server word back echo le) e on = absurd (on refl)

-- A client that waits for a server that has not exited does not wait in vain, if the words are read
-- anew and the copy succeeds: from any reached state, once the word on its way to the server has
-- arrived, the server has made three steps and its answer has arrived, the client's next step
-- leaves the loop.
pub Reached-unblocks :
    (two_seconds : Bool) (s : Both)
    → Reached s
    → s.at ≡ waiting
    → s.server_at ≢ exited
    → (turn two_seconds s).at ≡ responded
Reached-unblocks two_seconds s reached e on =
    Round-unblocks two_seconds s (Reached-Round s reached) e on

-- The server ends as well, if its copies succeed and it reads its word anew: from any reached state
-- in which the client has ended and the server has not exited, once what is on its way to the
-- server has arrived, three of the server's steps take it out of its loops, wherever it stands.
pub Reached-ends :
    (s : Both) → Reached s → s.at ≡ finished → s.server_at ≢ exited → (wind_up s).server_at ≡ ended
Reached-ends s reached e on = Round-ends s (Reached-Round s reached) e on
