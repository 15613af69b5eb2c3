-- ===== src/Initiator/Host.antt =====
-- How an experiment of initiator/ runs: SEOE of lib/sisci_glob_defs.h, the orders and deliveries, and
-- the loops that several experiments share.
use sisci_perf.Common.{
  ℕ, zero, suc, ◌*◌, Bool, true, false, ◌&&◌, not, List, [], ◌∷◌, ◌++◌, ◌==◌, leb, if◌then◌else◌,
}
use sisci_perf.Protocol.{
  OrderType, segment, global_dma_segment, interrupt, data_interrupt, ping_pong_segment,
  broadcast_segment, global_dma_broadcast_segment, other_order, CommandType, create, destroy,
  other_command, DeliveryStatus, success, Order, Delivery,
}
use sisci_perf.Initiator.Service.{Answer, delivers, silent, astray, PeerService, order_of}
use sisci_perf.Initiator.World.{
  Resource, hold_all, Action, trigger_order, wait_for_delivery, start_sequence, remote_segment,
  needs, effect, is_ready,
}

pub data SequenceStatus : Type 0 where
  sequence_ok sequence_pending sequence_refused : SequenceStatus

-- SISCI and the machine: `succeeds` whether a call does (a timed loop may also exit), `status` what
-- an attempt to start a sequence meets, `remote_id` what SCIGetRemoteSegmentId answers. A loop of
-- attempts is followed for `patience` of them.
pub record Adapter : Type 0 where
  pub succeeds : List Action → Action → Bool
  pub status : (attempt : ℕ) → List Action → SequenceStatus
  pub remote_id : (i : ℕ) → List Action → ℕ
  pub patience : ℕ

-- `peers` are the states of the peers behind the order interrupts, `inbox` the deliveries that have
-- not been waited for, `lost` the handles that were open when the function returned whose variables
-- held them.
pub record Host (S : Type 0) : Type 0 where
  pub peers : ℕ → S
  pub inbox : List Delivery
  pub held : List Resource
  pub lost : List Resource
  pub log : List Action

-- How a run becomes undefined: a call is given a handle that is not open, or is a loop that reads
-- what no loop wrote; a remote segment that is not open is asked for its id; an array is written
-- behind its end; an experiment is given a handle of main's that is not open; or the behaviour
-- of a peer is undefined after an order.
pub data Mishap : Type 0 where
  bad_call : Action → Mishap
  bad_id : (i : ℕ) → Mishap
  overrun : Mishap
  main_closed : Mishap
  peer_gone : (p : ℕ) → Mishap

pub data Outcome (S A : Type 0) : Type 0 where
  returned : A → Host S → Outcome S A
  stopped : Host S → Outcome S A  -- exit, or the SIGTERM that kill sends to the process itself
  unfinished : Host S → Outcome S A
  undefined : Mishap → Outcome S A

abbrev pub Program : Type 0 → Type 0 → Type 0
Program S A = Host S → Outcome S A

abbrev pub after : {S A B : Type 0} → Outcome S A → (A → Program S B) → Outcome S B
after (returned a w) k = k a w
after (stopped w) k = stopped w
after (unfinished w) k = unfinished w
after (undefined r) k = undefined r

abbrev pub return : {S A : Type 0} → A → Program S A
return a w = returned a w

infixl 5 ◌>>=◌ ◌>>◌
unfoldable pub ◌>>=◌ : {S A B : Type 0} → Program S A → (A → Program S B) → Program S B
◌>>=◌ m k w = after (m w) k

abbrev pub ◌>>◌ : {S A B : Type 0} → Program S A → Program S B → Program S B
m >> k = m >>= λ _. k

abbrev pub performed : {S : Type 0} → Action → Host S → Host S
performed c w = record w { held = effect c w.held; log = c ∷ w.log }

-- The deliveries are compared by the numbers of the enumerations.
unfoldable pub same_command : CommandType → CommandType → Bool
same_command create create = true
same_command destroy destroy = true
same_command (other_command m) (other_command n) = m == n
same_command c d = false

unfoldable pub same_type : OrderType → OrderType → Bool
same_type segment segment = true
same_type global_dma_segment global_dma_segment = true
same_type interrupt interrupt = true
same_type data_interrupt data_interrupt = true
same_type ping_pong_segment ping_pong_segment = true
same_type broadcast_segment broadcast_segment = true
same_type global_dma_broadcast_segment global_dma_broadcast_segment = true
same_type (other_order m) (other_order n) = m == n
same_type t u = false

abbrev is_success : DeliveryStatus → Bool
is_success success = true
is_success s = false

unfoldable pub answers : CommandType → OrderType → Delivery → Bool
unfolding same_command same_type
answers c t d = same_command d.command_type c && same_type d.delivery_type t && is_success d.status

unfoldable pub put : {S : Type 0} → ℕ → S → (ℕ → S) → ℕ → S
put p s peers q = if q == p then s else peers q

module _ (P : PeerService) (adapter : Adapter) where
  -- SEOE. A handle that is not open, or a loop that reads what no loop wrote, is undefined.
  unfoldable pub seoe : Action → Program P.State (Unit {0})
  seoe c w =
      if not (hold_all (needs c) w.held && is_ready c w.log)
      then undefined (bad_call c)
      else if adapter.succeeds w.log c
      then returned tt (performed c w)
      else stopped w

  -- Calls in a row.
  unfoldable pub seoe_each : List Action → Program P.State (Unit {0})
  unfolding ◌>>=◌
  seoe_each [] = return tt
  seoe_each (c ∷ cs) = seoe c >> seoe_each cs

  -- A peer that sends no delivery is waited for without end.
  abbrev pub arrives : ℕ → Answer P.State → Program P.State (Unit {0})
  arrives p astray w = undefined (peer_gone p)
  arrives p silent w = unfinished w
  arrives p (delivers s d) w =
      returned tt (record w { peers = put p s w.peers; inbox = w.inbox ++ d ∷ [] })

  -- SCITriggerDataInterrupt on the order interrupt of a peer, and the callback that runs there.
  unfoldable pub send : ℕ → Order → Program P.State (Unit {0})
  unfolding seoe ◌>>=◌
  send p o w = (seoe (trigger_order p o) >> λ w'. arrives p (P.carry_out o (w'.peers p)) w') w

  abbrev pub first : List Delivery → Program P.State Delivery
  first [] w = unfinished w
  first (d ∷ ds) w = returned d (record w { inbox = ds })

  unfoldable pub receive : Program P.State Delivery
  unfolding seoe ◌>>=◌
  receive w = (seoe wait_for_delivery >> λ w'. first w'.inbox w') w

  -- An order, the wait for its delivery, and the test of that.
  unfoldable pub ordered : ℕ → CommandType → OrderType → (size id : ℕ) → Program P.State Delivery
  unfolding send receive ◌>>=◌ answers
  ordered p c t size id = do
    send p (order_of c t size id)
    d ← receive
    if answers c t d then return d else stopped

  abbrev pub started : SequenceStatus → Program P.State (Unit {0}) → Program P.State (Unit {0})
  started sequence_ok again w = returned tt w
  started sequence_pending again w = again w
  started sequence_refused again w = stopped w

  -- do … while (sequence_status != SCI_SEQ_OK), on fuel.
  unfoldable pub start_until_ok : (fuel attempt i : ℕ) → Program P.State (Unit {0})
  start_until_ok zero attempt i w = unfinished w
  start_until_ok (suc fuel) attempt i w =
      let again = start_until_ok fuel (suc attempt) i in
      if hold_all (needs (start_sequence i)) w.held
      then started (adapter.status attempt w.log) again w
      else undefined (bad_call (start_sequence i))

  -- SCIGetRemoteSegmentId.
  unfoldable pub get_remote_segment_id : ℕ → Program P.State ℕ
  get_remote_segment_id i w =
      if hold_all (remote_segment i ∷ []) w.held
      then returned (adapter.remote_id i w.log) w
      else undefined (bad_id i)

  -- `while (size <= last) { …; size *= 2; }`, on fuel.
  unfoldable pub doubling :
      (fuel last size : ℕ) → (ℕ → Program P.State (Unit {0})) → Program P.State (Unit {0})
  unfolding ◌>>=◌
  doubling zero last size body w = unfinished w
  doubling (suc fuel) last size body w =
      let rest = doubling fuel last (size * 2) body in
      if leb size last then (body size >> rest) w else returned tt w

  -- `for (i = from; …; i++)`, for a number of rounds.
  unfoldable pub counting :
      (rounds from : ℕ) → (ℕ → Program P.State (Unit {0})) → Program P.State (Unit {0})
  unfolding ◌>>=◌
  counting zero from body = return tt
  counting (suc r) from body = let rest = counting r (suc from) body in body from >> rest
