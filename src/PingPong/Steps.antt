-- ===== src/PingPong/Steps.antt =====
-- The loops of ping_pong_pio (lib/common_read_write_functions.h) and of the peer's thread
-- (peer/ping_pong_thread.c) as steps that interleave. A byte that one side stores into the other's
-- segment is on its way, in order, until a delivery step; no step relies on a flush.
use sisci_perf.Common.{ℕ, ◌+◌, ◌%◌, Bool, List, [], ◌∷◌, ◌++◌, ◌==◌, if◌then◌else◌}

-- Where ping_pong_pio stands: at `while (!timer_expired)`, in the loop on *local_ptr, at
-- `if (timer_expired)`, or behind it all.
pub data InitiatorAt : Type 0 where
  testing waiting counting finished : InitiatorAt

-- Where the thread stands: in the loop on buffer->counter, or behind it.
pub data PeerAt : Type 0 where
  watching noticed : PeerAt

-- `sent` and `echoed` count the stores of both sides.
pub record PingPong : Type 0 where
  pub at : InitiatorAt
  pub curr_counter : ℕ
  pub operations : ℕ
  pub sent : ℕ
  pub to_peer : List ℕ
  pub buffer : ℕ  -- buffer->counter of the peer
  pub peer_at : PeerAt
  pub peer_counter : ℕ
  pub echoed : ℕ
  pub to_initiator : List ℕ
  pub local : ℕ  -- *local_ptr of the initiator

-- Both segments are cleared, and both counters 0.
abbrev pub start : PingPong
start = record {
  at = testing;
  curr_counter = 0;
  operations = 0;
  sent = 0;
  to_peer = [];
  buffer = 0;
  peer_at = watching;
  peer_counter = 0;
  echoed = 0;
  to_initiator = [];
  local = 0;
}

-- `curr_counter++` of an unsigned char.
abbrev pub next : ℕ → ℕ
next c = (c + 1) % 256

abbrev pub ping : PingPong → PingPong
ping s = record s {
  at = waiting;
  curr_counter = next s.curr_counter;
  sent = s.sent + 1;
  to_peer = s.to_peer ++ next s.curr_counter ∷ [];
}

abbrev pub move_to : InitiatorAt → PingPong → PingPong
move_to at s = record s { at = at }

unfoldable pub initiator_at : InitiatorAt → (timer_expired : Bool) → PingPong → PingPong
initiator_at testing timer_expired s = if timer_expired then move_to finished s else ping s
initiator_at waiting timer_expired s = if s.local == s.curr_counter then move_to counting s else s
initiator_at counting timer_expired s =
    if timer_expired
    then move_to finished s
    else record s { at = testing; operations = s.operations + 1 }
initiator_at finished timer_expired s = s

abbrev pub initiator_step : (timer_expired : Bool) → PingPong → PingPong
initiator_step timer_expired s = initiator_at s.at timer_expired s

unfoldable pub peer_by : PeerAt → PingPong → PingPong
peer_by watching s = if s.buffer == s.peer_counter then s else record s { peer_at = noticed }
peer_by noticed s = record s {
  peer_at = watching;
  peer_counter = next s.peer_counter;
  echoed = s.echoed + 1;
  to_initiator = s.to_initiator ++ next s.peer_counter ∷ [];
}

abbrev pub peer_step : PingPong → PingPong
peer_step s = peer_by s.peer_at s

unfoldable pub arrive_at_peer : List ℕ → PingPong → PingPong
arrive_at_peer [] s = s
arrive_at_peer (c ∷ rest) s = record s { to_peer = rest; buffer = c }

abbrev pub deliver_to_peer : PingPong → PingPong
deliver_to_peer s = arrive_at_peer s.to_peer s

unfoldable pub arrive_at_initiator : List ℕ → PingPong → PingPong
arrive_at_initiator [] s = s
arrive_at_initiator (c ∷ rest) s = record s { to_initiator = rest; local = c }

abbrev pub deliver_to_initiator : PingPong → PingPong
deliver_to_initiator s = arrive_at_initiator s.to_initiator s

-- Any order of the steps of both sides and of the deliveries.
pub data Reached : PingPong → Type 0 where
  starts : Reached start
  by_initiator :
      {s : PingPong} → (timer_expired : Bool) → Reached s → Reached (initiator_step timer_expired s)
  by_peer : {s : PingPong} → Reached s → Reached (peer_step s)
  to_the_peer : {s : PingPong} → Reached s → Reached (deliver_to_peer s)
  to_the_initiator : {s : PingPong} → Reached s → Reached (deliver_to_initiator s)
