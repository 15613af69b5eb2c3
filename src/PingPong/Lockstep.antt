-- ===== src/PingPong/Lockstep.antt =====
-- Theorems on the interleaved loops of a ping-pong.
use sisci_perf.Common.{
  ℕ, suc, ◌+◌, ◌≤◌, ◌<◌, ◌≡◌, ◌⊎◌, inl, inr, refl, Bool, true, false, List, [], ◌∷◌, arith, ◌==◌,
}
use sisci_perf.PingPong.Steps.{
  InitiatorAt, testing, waiting, counting, finished, PeerAt, watching, noticed, PingPong, next,
  initiator_at, initiator_step, peer_by, peer_step, arrive_at_peer, deliver_to_peer,
  arrive_at_initiator, deliver_to_initiator, Reached, starts, by_initiator, by_peer, to_the_peer,
  to_the_initiator,
}

-- Of the pings, the operations count all, or all but the last.
abbrev pub Tally : InitiatorAt → ℕ → ℕ → Type 0
Tally testing operations sent = operations ≡ sent
Tally waiting operations sent = suc operations ≡ sent
Tally counting operations sent = suc operations ≡ sent
Tally finished operations sent = (operations ≡ sent) ⊎ (suc operations ≡ sent)

abbrev pub IsResting : InitiatorAt → Type 0
IsResting waiting = ⊥
IsResting _ = Unit {0}

abbrev resting : InitiatorAt → (c operations n : ℕ) → PingPong
resting at c operations n = record {
  at = at;
  curr_counter = c;
  operations = operations;
  sent = n;
  to_peer = [];
  buffer = c;
  peer_at = watching;
  peer_counter = c;
  echoed = n;
  to_initiator = [];
  local = c;
}

-- While the initiator waits for the echo of its n-th ping.
abbrev busy :
    (c operations n : ℕ) (to_peer : List ℕ) (buffer : ℕ)
    → PeerAt
    → (peer_counter echoed : ℕ) (to_initiator : List ℕ) (local : ℕ) → PingPong
busy c operations n to_peer buffer peer_at peer_counter echoed to_initiator local = record {
  at = waiting;
  curr_counter = c;
  operations = operations;
  sent = n;
  to_peer = to_peer;
  buffer = buffer;
  peer_at = peer_at;
  peer_counter = peer_counter;
  echoed = echoed;
  to_initiator = to_initiator;
  local = local;
}

-- The stations of a ping, with the number of pings before it and the byte they ended with.
pub data Lockstep : PingPong → Type 0 where
  rests :
      (at : InitiatorAt) (c ops n : ℕ)
      → c < 256
      → IsResting at
      → Tally at ops n
      → Lockstep (resting at c ops n)
  pinged :
      (c n : ℕ) → c < 256 → Lockstep (busy (next c) n (n + 1) (next c ∷ []) c watching c n [] c)
  arrived : (c n : ℕ) → c < 256 → Lockstep (busy (next c) n (n + 1) [] (next c) watching c n [] c)
  seen : (c n : ℕ) → c < 256 → Lockstep (busy (next c) n (n + 1) [] (next c) noticed c n [] c)
  ponged :
      (c n : ℕ)
      → c < 256
      → Lockstep (busy (next c) n (n + 1) [] (next c) watching (next c) (n + 1) (next c ∷ []) c)
  returned :
      (c n : ℕ)
      → c < 256
      → Lockstep (busy (next c) n (n + 1) [] (next c) watching (next c) (n + 1) [] (next c))

next-bound : (c : ℕ) → next c < 256
next-bound c = omega arith

next_differs : (c : ℕ) → c < 256 → (next c == c) ≡ false
next_differs c lt = ground arith

differs_next : (c : ℕ) → c < 256 → (c == next c) ≡ false
differs_next c lt = ground arith

same_byte : (c : ℕ) → (c == c) ≡ true
same_byte c = ground arith

initiator_step-Lockstep : (t : Bool) (s : PingPong) → Lockstep s → Lockstep (initiator_step t s)
unfolding initiator_at
initiator_step-Lockstep true _ (rests testing c ops n lt is tally) =
    rests finished c ops n lt tt (inl tally)
initiator_step-Lockstep false _ (rests testing c ops n lt is tally) = rw tally (pinged c n lt)
initiator_step-Lockstep t _ (rests waiting c ops n lt is tally) = absurd is
initiator_step-Lockstep true _ (rests counting c ops n lt is tally) =
    rests finished c ops n lt tt (inr tally)
initiator_step-Lockstep false _ (rests counting c ops n lt is tally) =
    rests testing c (ops + 1) n lt tt (omega arith)
initiator_step-Lockstep t _ (rests finished c ops n lt is tally) =
    rests finished c ops n lt tt tally
initiator_step-Lockstep t _ (pinged c n lt) = rw (differs_next c lt) (pinged c n lt)
initiator_step-Lockstep t _ (arrived c n lt) = rw (differs_next c lt) (arrived c n lt)
initiator_step-Lockstep t _ (seen c n lt) = rw (differs_next c lt) (seen c n lt)
initiator_step-Lockstep t _ (ponged c n lt) = rw (differs_next c lt) (ponged c n lt)
initiator_step-Lockstep t _ (returned c n lt) =
    rw (same_byte (next c)) (rests counting (next c) n (n + 1) (next-bound c) tt (omega arith))

peer_step-Lockstep : (s : PingPong) → Lockstep s → Lockstep (peer_step s)
unfolding peer_by
peer_step-Lockstep _ (rests at c ops n lt is tally) =
    rw (same_byte c) (rests at c ops n lt is tally)
peer_step-Lockstep _ (pinged c n lt) = rw (same_byte c) (pinged c n lt)
peer_step-Lockstep _ (arrived c n lt) = rw (next_differs c lt) (seen c n lt)
peer_step-Lockstep _ (seen c n lt) = ponged c n lt
peer_step-Lockstep _ (ponged c n lt) = rw (same_byte (next c)) (ponged c n lt)
peer_step-Lockstep _ (returned c n lt) = rw (same_byte (next c)) (returned c n lt)

deliver_to_peer-Lockstep : (s : PingPong) → Lockstep s → Lockstep (deliver_to_peer s)
unfolding arrive_at_peer
deliver_to_peer-Lockstep _ (rests at c ops n lt is tally) = rests at c ops n lt is tally
deliver_to_peer-Lockstep _ (pinged c n lt) = arrived c n lt
deliver_to_peer-Lockstep _ (arrived c n lt) = arrived c n lt
deliver_to_peer-Lockstep _ (seen c n lt) = seen c n lt
deliver_to_peer-Lockstep _ (ponged c n lt) = ponged c n lt
deliver_to_peer-Lockstep _ (returned c n lt) = returned c n lt

deliver_to_initiator-Lockstep : (s : PingPong) → Lockstep s → Lockstep (deliver_to_initiator s)
unfolding arrive_at_initiator
deliver_to_initiator-Lockstep _ (rests at c ops n lt is tally) = rests at c ops n lt is tally
deliver_to_initiator-Lockstep _ (pinged c n lt) = pinged c n lt
deliver_to_initiator-Lockstep _ (arrived c n lt) = arrived c n lt
deliver_to_initiator-Lockstep _ (seen c n lt) = seen c n lt
deliver_to_initiator-Lockstep _ (ponged c n lt) = returned c n lt
deliver_to_initiator-Lockstep _ (returned c n lt) = returned c n lt

Reached-Lockstep : (s : PingPong) → Reached s → Lockstep s
Reached-Lockstep _ starts = rests testing 0 0 0 (omega arith) tt refl
Reached-Lockstep _ (by_initiator {s} t before) =
    initiator_step-Lockstep t s (Reached-Lockstep s before)
Reached-Lockstep _ (by_peer {s} before) = peer_step-Lockstep s (Reached-Lockstep s before)
Reached-Lockstep _ (to_the_peer {s} before) = deliver_to_peer-Lockstep s (Reached-Lockstep s before)
Reached-Lockstep _ (to_the_initiator {s} before) =
    deliver_to_initiator-Lockstep s (Reached-Lockstep s before)

Lockstep-counts :
    (s : PingPong)
    → Lockstep s
    → Tally s.at s.operations s.sent
      × ((s.at ≡ waiting) ⊎ (s.echoed ≡ s.sent))
      × (s.echoed ≤ s.sent)
      × (s.sent ≤ s.echoed + 1)
Lockstep-counts _ (rests at c ops n lt is tally) = (tally, inr refl, omega arith, omega arith)
Lockstep-counts _ (pinged c n lt) = (omega arith, inl refl, omega arith, omega arith)
Lockstep-counts _ (arrived c n lt) = (omega arith, inl refl, omega arith, omega arith)
Lockstep-counts _ (seen c n lt) = (omega arith, inl refl, omega arith, omega arith)
Lockstep-counts _ (ponged c n lt) = (omega arith, inl refl, omega arith, omega arith)
Lockstep-counts _ (returned c n lt) = (omega arith, inl refl, omega arith, omega arith)

-- In whatever order the steps of both sides and the arrivals of their bytes come, and though the
-- counters wrap at 256: the peer answers each ping exactly once and never answers ahead, at most
-- one ping is unanswered, none is while the initiator does not wait, and `operations` is the number
-- of pings, or one less.
pub Reached-counts :
    (s : PingPong)
    → Reached s
    → Tally s.at s.operations s.sent
      × ((s.at ≡ waiting) ⊎ (s.echoed ≡ s.sent))
      × (s.echoed ≤ s.sent)
      × (s.sent ≤ s.echoed + 1)
Reached-counts s reached = Lockstep-counts s (Reached-Lockstep s reached)

-- One turn of everything else, with two steps of the peer, and then a step of the initiator.
abbrev pub turn : (timer_expired : Bool) → PingPong → PingPong
turn timer_expired s =
    initiator_step timer_expired (deliver_to_initiator (peer_step (peer_step (deliver_to_peer s))))

Lockstep-turn : (t : Bool) (s : PingPong) → Lockstep s → s.at ≡ waiting → (turn t s).at ≡ counting
unfolding initiator_at peer_by arrive_at_peer arrive_at_initiator
Lockstep-turn t _ (rests waiting c ops n lt is tally) e = absurd is
Lockstep-turn t _ (rests testing c ops n lt is tally) e = cc
Lockstep-turn t _ (rests counting c ops n lt is tally) e = cc
Lockstep-turn t _ (rests finished c ops n lt is tally) e = cc
Lockstep-turn t _ (pinged c n lt) e = rw (next_differs c lt, same_byte (next c))
Lockstep-turn t _ (arrived c n lt) e = rw (next_differs c lt, same_byte (next c))
Lockstep-turn t _ (seen c n lt) e = rw (same_byte (next c), same_byte (next c))
Lockstep-turn t _ (ponged c n lt) e =
    rw (same_byte (next c), same_byte (next c), same_byte (next c))
Lockstep-turn t _ (returned c n lt) e =
    rw (same_byte (next c), same_byte (next c), same_byte (next c))

-- An initiator that waits never waits in vain: from any reached state, once what is on its way has
-- arrived and the peer has made two steps, the initiator's next step leaves the waiting loop.
pub Reached-progress :
    (timer_expired : Bool) (s : PingPong)
    → Reached s
    → s.at ≡ waiting
    → (turn timer_expired s).at ≡ counting
Reached-progress timer_expired s reached =
    Lockstep-turn timer_expired s (Reached-Lockstep s reached)
