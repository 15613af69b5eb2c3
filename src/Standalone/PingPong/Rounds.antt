-- ===== src/Standalone/PingPong/Rounds.antt =====
-- The rounds of the two ping-pong programs, through every interleaving of their loops.
use sisci_perf.Common.{
  ℕ, ◌+◌, ◌≤◌, ◌≡◌, ℕ_discrete, refl, Bool, true, false, List, [], ◌∷◌, ◌++◌, arith, ◌==◌,
  Bool-cases, inl, inr,
}
use sisci_perf.Standalone.PingPong.{
  Word, counter, minus_one, ClientAt, timing, waiting, responded, finished, ServerAt, guarding,
  spinning, answering, ended, exited, Both, client_at, client_step, guard, server_by, server_step,
  arrive_at_server, deliver_to_server, arrive_at_client, deliver_to_client, Reached, connects,
  by_client, by_server, to_the_server, to_the_client,
}

abbrev pub IsAsking : ClientAt → Type 0
IsAsking timing = Unit {0}
IsAsking waiting = Unit {0}
IsAsking _ = ⊥

abbrev pub IsRunning : ClientAt → Type 0
IsRunning finished = ⊥
IsRunning _ = Unit {0}

abbrev pub IsIdle : ServerAt → Type 0
IsIdle guarding = Unit {0}
IsIdle spinning = Unit {0}
IsIdle _ = ⊥

abbrev pub IsServing : ServerAt → Type 0
IsServing ended = ⊥
IsServing exited = ⊥
IsServing _ = Unit {0}

-- Of the client's n-th round the server has answered up to m, while the -1 is on its way.
abbrev pub IsLate : ServerAt → (n m : ℕ) → Type 0
IsLate answering n m = m ≡ n
IsLate ended n m = ⊥
IsLate exited n m = ⊥
IsLate _ n m = (n ≤ m) × (m ≤ n + 1)

-- The same, when it has arrived.
abbrev pub IsLast : ServerAt → (n m : ℕ) → Type 0
IsLast spinning n m = (n ≤ m) × (m ≤ n + 1)
IsLast answering n m = (n ≤ m) × (m ≤ n + 1)
IsLast exited n m = ⊥
IsLast _ n m = (n ≤ m) × (m ≤ n + 2)

abbrev pub both :
    ClientAt → (n : ℕ) → List Word → Word → ServerAt → (m : ℕ) → List ℕ → (echo : ℕ) → Both
both at n to_server word server_at m to_client echo = record {
  at = at;
  curr_counter = n;
  response_count = n;
  echo = echo;
  to_server = to_server;
  server_at = server_at;
  server_counter = m;
  word = word;
  to_client = to_client;
}

-- The stations of round n: the client's word is on its way, has arrived, is answered, and the answer
-- has arrived; those of the -1; and those behind a copy that has failed.
pub data Round : Both → Type 0 where
  asked :
      (at : ClientAt) (by : ServerAt) (n : ℕ)
      → IsAsking at
      → IsIdle by
      → Round (both at n (counter (n + 1) ∷ []) (counter n) by n [] n)
  heard :
      (at : ClientAt) (by : ServerAt) (n : ℕ)
      → IsAsking at
      → IsServing by
      → Round (both at n [] (counter (n + 1)) by n [] n)
  answered :
      (at : ClientAt) (by : ServerAt) (n : ℕ)
      → IsAsking at
      → IsIdle by
      → Round (both at n [] (counter (n + 1)) by (n + 1) ((n + 1) ∷ []) n)
  echoed :
      (at : ClientAt) (by : ServerAt) (n : ℕ)
      → IsRunning at
      → IsIdle by
      → Round (both at n [] (counter (n + 1)) by (n + 1) [] (n + 1))
  stops_early :
      (by : ServerAt) (n : ℕ) (back : List ℕ) (echo : ℕ)
      → IsIdle by
      → Round (both finished n (counter (n + 1) ∷ minus_one ∷ []) (counter n) by n back echo)
  stops :
      (by : ServerAt) (n m : ℕ) (back : List ℕ) (echo : ℕ)
      → IsLate by n m
      → Round (both finished n (minus_one ∷ []) (counter (n + 1)) by m back echo)
  stopped :
      (by : ServerAt) (n m : ℕ) (back : List ℕ) (echo : ℕ)
      → IsLast by n m
      → Round (both finished n [] minus_one by m back echo)
  alone :
      (at : ClientAt) (n : ℕ)
      → IsAsking at
      → Round (both at n [] (counter (n + 1)) exited (n + 1) [] n)
  over :
      (n m : ℕ) (to_server : List Word) (word : Word) (back : List ℕ) (echo : ℕ)
      → (n ≤ m) × (m ≤ n + 2)
      → Round (both finished n to_server word exited m back echo)

pub same : (n : ℕ) → (n == n) ≡ true
same n = ground arith

pub ahead : (n : ℕ) → (n + 1 == n) ≡ false
ahead n = ground arith

client_step-Round : (t rereads : Bool) (s : Both) → Round s → Round (client_step t rereads s)
unfolding client_at
client_step-Round true again _ (asked timing by n is idle) = stops_early by n [] n idle
client_step-Round false again _ (asked timing by n is idle) = asked waiting by n tt idle
client_step-Round t again _ (asked waiting by n is idle) = rw (same n) (asked waiting by n tt idle)
client_step-Round t again _ (asked responded by n is idle) = absurd is
client_step-Round t again _ (asked finished by n is idle) = absurd is
client_step-Round true again _ (heard timing guarding n is serving) =
    stops guarding n n [] n (omega arith, omega arith)
client_step-Round true again _ (heard timing spinning n is serving) =
    stops spinning n n [] n (omega arith, omega arith)
client_step-Round true again _ (heard timing answering n is serving) = stops answering n n [] n refl
client_step-Round true again _ (heard timing ended n is serving) = absurd serving
client_step-Round true again _ (heard timing exited n is serving) = absurd serving
client_step-Round false again _ (heard timing by n is serving) = heard waiting by n tt serving
client_step-Round t again _ (heard waiting by n is serving) =
    rw (same n) (heard waiting by n tt serving)
client_step-Round t again _ (heard responded by n is serving) = absurd is
client_step-Round t again _ (heard finished by n is serving) = absurd is
client_step-Round true again _ (answered timing guarding n is idle) =
    stops guarding n (n + 1) ((n + 1) ∷ []) n (omega arith, omega arith)
client_step-Round true again _ (answered timing spinning n is idle) =
    stops spinning n (n + 1) ((n + 1) ∷ []) n (omega arith, omega arith)
client_step-Round true again _ (answered timing answering n is idle) = absurd idle
client_step-Round true again _ (answered timing ended n is idle) = absurd idle
client_step-Round true again _ (answered timing exited n is idle) = absurd idle
client_step-Round false again _ (answered timing by n is idle) = answered waiting by n tt idle
client_step-Round t again _ (answered waiting by n is idle) =
    rw (same n) (answered waiting by n tt idle)
client_step-Round t again _ (answered responded by n is idle) = absurd is
client_step-Round t again _ (answered finished by n is idle) = absurd is
client_step-Round true again _ (echoed timing guarding n is idle) =
    stops guarding n (n + 1) [] (n + 1) (omega arith, omega arith)
client_step-Round true again _ (echoed timing spinning n is idle) =
    stops spinning n (n + 1) [] (n + 1) (omega arith, omega arith)
client_step-Round true again _ (echoed timing answering n is idle) = absurd idle
client_step-Round true again _ (echoed timing ended n is idle) = absurd idle
client_step-Round true again _ (echoed timing exited n is idle) = absurd idle
client_step-Round false again _ (echoed timing by n is idle) = echoed waiting by n tt idle
client_step-Round t true _ (echoed waiting by n is idle) =
    rw (ahead n) (echoed responded by n tt idle)
client_step-Round t false _ (echoed waiting by n is idle) =
    rw (ahead n) (echoed waiting by n tt idle)
client_step-Round t again _ (echoed responded by n is idle) = asked timing by (n + 1) tt idle
client_step-Round t again _ (echoed finished by n is idle) = absurd is
client_step-Round t again _ (stops_early by n back echo idle) = stops_early by n back echo idle
client_step-Round t again _ (stops by n m back echo late) = stops by n m back echo late
client_step-Round t again _ (stopped by n m back echo last) = stopped by n m back echo last
client_step-Round true again _ (alone timing n is) =
    over n (n + 1) (minus_one ∷ []) (counter (n + 1)) [] n (omega arith, omega arith)
client_step-Round false again _ (alone timing n is) = alone waiting n tt
client_step-Round t again _ (alone waiting n is) = rw (same n) (alone waiting n tt)
client_step-Round t again _ (alone responded n is) = absurd is
client_step-Round t again _ (alone finished n is) = absurd is
client_step-Round t again _ (over n m to_server word back echo le) =
    over n m to_server word back echo le

server_step-Round :
    (rereads copied : Bool) (s : Both) → Round s → Round (server_step rereads copied s)
unfolding server_by guard
server_step-Round again ok _ (asked at guarding n is idle) = asked at spinning n is tt
server_step-Round again ok _ (asked at spinning n is idle) = rw (same n) (asked at spinning n is tt)
server_step-Round again ok _ (asked at answering n is idle) = absurd idle
server_step-Round again ok _ (asked at ended n is idle) = absurd idle
server_step-Round again ok _ (asked at exited n is idle) = absurd idle
server_step-Round again ok _ (heard at guarding n is serving) = heard at spinning n is tt
server_step-Round true ok _ (heard at spinning n is serving) =
    rw (ahead n) (heard at answering n is tt)
server_step-Round false ok _ (heard at spinning n is serving) =
    rw (ahead n) (heard at spinning n is tt)
server_step-Round again true _ (heard at answering n is serving) = answered at guarding n is tt
server_step-Round again false _ (heard at answering n is serving) = alone at n is
server_step-Round again ok _ (heard at ended n is serving) = absurd serving
server_step-Round again ok _ (heard at exited n is serving) = absurd serving
server_step-Round again ok _ (answered at guarding n is idle) = answered at spinning n is tt
server_step-Round again ok _ (answered at spinning n is idle) =
    rw (same (n + 1)) (answered at spinning n is tt)
server_step-Round again ok _ (answered at answering n is idle) = absurd idle
server_step-Round again ok _ (answered at ended n is idle) = absurd idle
server_step-Round again ok _ (answered at exited n is idle) = absurd idle
server_step-Round again ok _ (echoed at guarding n is idle) = echoed at spinning n is tt
server_step-Round again ok _ (echoed at spinning n is idle) =
    rw (same (n + 1)) (echoed at spinning n is tt)
server_step-Round again ok _ (echoed at answering n is idle) = absurd idle
server_step-Round again ok _ (echoed at ended n is idle) = absurd idle
server_step-Round again ok _ (echoed at exited n is idle) = absurd idle
server_step-Round again ok _ (stops_early guarding n back echo idle) =
    stops_early spinning n back echo tt
server_step-Round again ok _ (stops_early spinning n back echo idle) =
    rw (same n) (stops_early spinning n back echo tt)
server_step-Round again ok _ (stops_early answering n back echo idle) = absurd idle
server_step-Round again ok _ (stops_early ended n back echo idle) = absurd idle
server_step-Round again ok _ (stops_early exited n back echo idle) = absurd idle
server_step-Round again ok _ (stops guarding n m back echo late) = stops spinning n m back echo late
server_step-Round false ok _ (stops spinning n m back echo late) = elim (Bool-cases (n + 1 == m)) [
  | inl at ↦ rw at (stops spinning n m back echo late)
  | inr off ↦ rw off (stops spinning n m back echo late)
]
server_step-Round true ok _ (stops spinning n m back echo late) = elim (ℕ_discrete m n) [
  | yes e ↦ rw (e, ahead n) (stops answering n n back echo refl)
  | no ne ↦
      let e : m ≡ n + 1 = omega (arith, late) in
      rw (e, same (n + 1)) (stops spinning n (n + 1) back echo (omega arith, omega arith))
]
server_step-Round again true _ (stops answering n m back echo late) =
    stops guarding n (m + 1) (back ++ (m + 1) ∷ []) echo (omega arith, omega arith)
server_step-Round again false _ (stops answering n m back echo late) =
    over n (m + 1) (minus_one ∷ []) (counter (n + 1)) back echo (omega arith, omega arith)
server_step-Round again ok _ (stops ended n m back echo late) = absurd late
server_step-Round again ok _ (stops exited n m back echo late) = absurd late
server_step-Round again ok _ (stopped guarding n m back echo last) =
    stopped ended n m back echo last
server_step-Round true ok _ (stopped spinning n m back echo last) =
    stopped answering n m back echo last
server_step-Round false ok _ (stopped spinning n m back echo last) =
    stopped spinning n m back echo last
server_step-Round again true _ (stopped answering n m back echo last) =
    stopped guarding n (m + 1) (back ++ (m + 1) ∷ []) echo (omega arith, omega arith)
server_step-Round again false _ (stopped answering n m back echo last) =
    over n (m + 1) [] minus_one back echo (omega arith, omega arith)
server_step-Round again ok _ (stopped ended n m back echo last) = stopped ended n m back echo last
server_step-Round again ok _ (stopped exited n m back echo last) = absurd last
server_step-Round again ok _ (alone at n is) = alone at n is
server_step-Round again ok _ (over n m to_server word back echo le) =
    over n m to_server word back echo le

deliver_to_server-Round : (s : Both) → Round s → Round (deliver_to_server s)
unfolding arrive_at_server
deliver_to_server-Round _ (asked at guarding n is idle) = heard at guarding n is tt
deliver_to_server-Round _ (asked at spinning n is idle) = heard at spinning n is tt
deliver_to_server-Round _ (asked at answering n is idle) = absurd idle
deliver_to_server-Round _ (asked at ended n is idle) = absurd idle
deliver_to_server-Round _ (asked at exited n is idle) = absurd idle
deliver_to_server-Round _ (heard at by n is serving) = heard at by n is serving
deliver_to_server-Round _ (answered at by n is idle) = answered at by n is idle
deliver_to_server-Round _ (echoed at by n is idle) = echoed at by n is idle
deliver_to_server-Round _ (stops_early guarding n back echo idle) =
    stops guarding n n back echo (omega arith, omega arith)
deliver_to_server-Round _ (stops_early spinning n back echo idle) =
    stops spinning n n back echo (omega arith, omega arith)
deliver_to_server-Round _ (stops_early answering n back echo idle) = absurd idle
deliver_to_server-Round _ (stops_early ended n back echo idle) = absurd idle
deliver_to_server-Round _ (stops_early exited n back echo idle) = absurd idle
deliver_to_server-Round _ (stops guarding n m back echo late) =
    stopped guarding n m back echo (omega (arith, late), omega (arith, late))
deliver_to_server-Round _ (stops spinning n m back echo late) = stopped spinning n m back echo late
deliver_to_server-Round _ (stops answering n m back echo late) =
    stopped answering n m back echo (omega arith, omega arith)
deliver_to_server-Round _ (stops ended n m back echo late) = absurd late
deliver_to_server-Round _ (stops exited n m back echo late) = absurd late
deliver_to_server-Round _ (stopped by n m back echo last) = stopped by n m back echo last
deliver_to_server-Round _ (alone at n is) = alone at n is
deliver_to_server-Round _ (over n m [] word back echo le) = over n m [] word back echo le
deliver_to_server-Round _ (over n m (w ∷ rest) word back echo le) = over n m rest w back echo le

deliver_to_client-Round : (s : Both) → Round s → Round (deliver_to_client s)
unfolding arrive_at_client
deliver_to_client-Round _ (asked at by n is idle) = asked at by n is idle
deliver_to_client-Round _ (heard at by n is serving) = heard at by n is serving
deliver_to_client-Round _ (answered timing by n is idle) = echoed timing by n tt idle
deliver_to_client-Round _ (answered waiting by n is idle) = echoed waiting by n tt idle
deliver_to_client-Round _ (answered responded by n is idle) = absurd is
deliver_to_client-Round _ (answered finished by n is idle) = absurd is
deliver_to_client-Round _ (echoed at by n is idle) = echoed at by n is idle
deliver_to_client-Round _ (stops_early by n [] echo idle) = stops_early by n [] echo idle
deliver_to_client-Round _ (stops_early by n (c ∷ back) echo idle) = stops_early by n back c idle
deliver_to_client-Round _ (stops by n m [] echo late) = stops by n m [] echo late
deliver_to_client-Round _ (stops by n m (c ∷ back) echo late) = stops by n m back c late
deliver_to_client-Round _ (stopped by n m [] echo last) = stopped by n m [] echo last
deliver_to_client-Round _ (stopped by n m (c ∷ back) echo last) = stopped by n m back c last
deliver_to_client-Round _ (alone at n is) = alone at n is
deliver_to_client-Round _ (over n m to_server word [] echo le) = over n m to_server word [] echo le
deliver_to_client-Round _ (over n m to_server word (c ∷ back) echo le) =
    over n m to_server word back c le

pub Reached-Round : (s : Both) → Reached s → Round s
Reached-Round _ connects = asked timing guarding 0 tt tt
Reached-Round _ (by_client {s} t again before) =
    client_step-Round t again s (Reached-Round s before)
Reached-Round _ (by_server {s} again ok before) =
    server_step-Round again ok s (Reached-Round s before)
Reached-Round _ (to_the_server {s} before) = deliver_to_server-Round s (Reached-Round s before)
Reached-Round _ (to_the_client {s} before) = deliver_to_client-Round s (Reached-Round s before)
