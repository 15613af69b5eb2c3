-- ===== src/Standalone/PingPong.antt =====
-- standalone/ping-pong-client.c and standalone/ping-pong-server.c: what each does, and their loops
-- as steps that interleave. A word that one side stores into the other's segment is on its way, in
-- order, until a delivery step. The counters do not wrap: in two seconds there are fewer than 2^31
-- rounds.
pub mod Rounds
pub mod Counts
pub mod Mains
pub mod Examples
use sisci_perf.Common.{
  ℕ, ◌+◌, Bool, true, false, ◌||◌, not, List, [], ◌∷◌, ◌++◌, ◌==◌, if◌then◌else◌,
}

-- An `int` of the protocol.
pub data Word : Type 0 where
  counter : ℕ → Word
  minus_one : Word

-- `word == c`, for a counter c.
abbrev pub is_counter : Word → ℕ → Bool
is_counter (counter n) c = n == c
is_counter minus_one c = false

-- Where the client stands: at the test of the clock, in the loop on local_address->counter, behind
-- it, or out of `while (1)`.
pub data ClientAt : Type 0 where
  timing waiting responded finished : ClientAt

-- Where the server stands: at `while (*local_address >= 0)`, in the loop inside, behind that, out of
-- both loops, or exited, since SCIMemCpy has failed.
pub data ServerAt : Type 0 where
  guarding spinning answering ended exited : ServerAt

pub record Both : Type 0 where
  pub at : ClientAt
  pub curr_counter : ℕ
  pub response_count : ℕ
  pub echo : ℕ  -- local_address->counter of the client
  pub to_server : List Word
  pub server_at : ServerAt
  pub server_counter : ℕ
  pub word : Word  -- *local_address of the server
  pub to_client : List ℕ

-- Both segments are cleared, and the client has stored its first 1.
abbrev pub connected : Both
connected = record {
  at = timing;
  curr_counter = 0;
  response_count = 0;
  echo = 0;
  to_server = counter 1 ∷ [];
  server_at = guarding;
  server_counter = 0;
  word = counter 0;
  to_client = [];
}

-- `two_seconds` is what the test of the clock gives. `rereads` is whether a round of a busy wait
-- reads its word anew: the words are not volatile, so that it may go by what it has read before,
-- when it saw nothing new.
unfoldable pub client_at : ClientAt → (two_seconds rereads : Bool) → Both → Both
client_at timing two_seconds rereads s =
    if two_seconds
    then record s { at = finished; to_server = s.to_server ++ minus_one ∷ [] }
    else record s { at = waiting }
client_at waiting two_seconds rereads s =
    if s.echo == s.curr_counter || not rereads then s else record s { at = responded }
client_at responded two_seconds rereads s = record s {
  at = timing;
  response_count = s.response_count + 1;
  curr_counter = s.curr_counter + 1;
  to_server = s.to_server ++ counter (s.curr_counter + 1 + 1) ∷ [];
}
client_at finished two_seconds rereads s = s

abbrev pub client_step : (two_seconds rereads : Bool) → Both → Both
client_step two_seconds rereads s = client_at s.at two_seconds rereads s

unfoldable pub guard : Word → Both → Both
guard (counter n) s = record s { server_at = spinning }
guard minus_one s = record s { server_at = ended }

-- `copied` is whether SCIMemCpy succeeds. SEOE exits if it does not.
unfoldable pub server_by : ServerAt → (rereads copied : Bool) → Both → Both
unfolding guard
server_by guarding rereads copied s = guard s.word s
server_by spinning rereads copied s =
    if is_counter s.word s.server_counter || not rereads
    then s
    else record s { server_at = answering }
server_by answering rereads copied s =
    if copied
    then record s {
      server_at = guarding;
      server_counter = s.server_counter + 1;
      to_client = s.to_client ++ (s.server_counter + 1) ∷ [];
    }
    else record s { server_at = exited; server_counter = s.server_counter + 1 }
server_by ended rereads copied s = s
server_by exited rereads copied s = s

abbrev pub server_step : (rereads copied : Bool) → Both → Both
server_step rereads copied s = server_by s.server_at rereads copied s

unfoldable pub arrive_at_server : List Word → Both → Both
arrive_at_server [] s = s
arrive_at_server (w ∷ rest) s = record s { to_server = rest; word = w }

abbrev pub deliver_to_server : Both → Both
deliver_to_server s = arrive_at_server s.to_server s

unfoldable pub arrive_at_client : List ℕ → Both → Both
arrive_at_client [] s = s
arrive_at_client (c ∷ rest) s = record s { to_client = rest; echo = c }

abbrev pub deliver_to_client : Both → Both
deliver_to_client s = arrive_at_client s.to_client s

-- Any order of the steps of both programs and of the deliveries, with whatever the clock, the busy
-- waits and the copies do.
pub data Reached : Both → Type 0 where
  connects : Reached connected
  by_client :
      {s : Both}
      → (two_seconds rereads : Bool) → Reached s
      → Reached (client_step two_seconds rereads s)
  by_server :
      {s : Both} → (rereads copied : Bool) → Reached s → Reached (server_step rereads copied s)
  to_the_server : {s : Both} → Reached s → Reached (deliver_to_server s)
  to_the_client : {s : Both} → Reached s → Reached (deliver_to_client s)
