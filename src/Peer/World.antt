-- ===== src/Peer/World.antt =====
-- The globals of peer/peer_main.c, the calls that it makes of SISCI, pthreads, malloc and kill, and
-- the monad of a callback: it is done, or it has called exit, or its behaviour is undefined.
use sisci_perf.Common.{ℕ, ◌≡◌, Bool, true, Option, none, some, List, [], ◌∷◌, if◌then◌else◌}
use sisci_perf.Memory.{Array, null}
use sisci_perf.Protocol.{OrderType, CommandType, DeliveryStatus, Delivery, delivery_of}

-- The set of flags of SCICreateSegment.
pub record Flags : Type 0 where
  pub auto_id : Bool
  pub dma_global : Bool
  pub broadcast : Bool

-- A call that leaves the program, with the arguments that matter. Handles are numbers.
pub data Call : Type 0 where
  create_segment : (id size : ℕ) → Flags → Call
  prepare_segment set_segment_available remove_segment : (handle : ℕ) → Call
  create_interrupt remove_interrupt : ℕ → Call
  create_data_interrupt remove_data_interrupt : ℕ → Call
  query_node_id : Call
  trigger_data_interrupt : Delivery → Call
  pthread_create : (segment initiator_node_id : ℕ) → Call
  pthread_cancel pthread_join : (thread : ℕ) → Call
  allocate : (elements : ℕ) → Call  -- malloc and reallocarray
  kill_main : Call  -- kill(main_pid, SIGTERM)
  initialize open_adapter create_order_interrupt connect_delivery : Call
  disconnect_delivery remove_order_interrupt close terminate : Call

-- `ok` is SCI_ERR_OK, a result of 0, or a pointer that is not null. `value` is the handle or the
-- thread, or the queried number; `number` is what comes back through an in-out number.
pub record Reply : Type 0 where
  pub ok : Bool
  pub value : ℕ
  pub number : ℕ

-- What is not under the repository: its answers may depend on every call before (newest first).
pub record Environment : Type 0 where
  pub reply : List Call → Call → Reply
  pub local_segment_id : ℕ → ℕ  -- SCIGetLocalSegmentId

-- A pair of arrays and their count: ordered_interrupts, ordered_interrupt_nos and
-- ordered_interrupts_count, and the same three for the data interrupts.
pub record Table : Type 0 where
  pub handles : Array
  pub nos : Array
  pub count : ℕ

pub record Peer : Type 0 where
  pub initiator_id : ℕ
  pub ordered_segments : Array
  pub ordered_segments_count : ℕ
  pub ordered_data_interrupts : Table
  pub ordered_interrupts : Table
  pub ping_pong_thread : ℕ  -- 0 where no thread runs
  pub log : List Call  -- the calls made so far, newest first

pub data CallbackAction : Type 0 where
  callback_continue callback_cancel : CallbackAction

pub data Run (A : Type 0) : Type 0 where
  done : A → Peer → Run A
  exited : Peer → Run A  -- exit(EXIT_FAILURE)
  fault : Run A  -- undefined behaviour

abbrev pub M : Type 0 → Type 0
M A = Peer → Run A

abbrev pub pure : {A : Type 0} → A → M A
pure a s = done a s

abbrev pub exit_failure : {A : Type 0} → M A
exit_failure s = exited s

abbrev pub and_then : {A B : Type 0} → Run A → (A → M B) → Run B
and_then (done a s) k = k a s
and_then (exited s) k = exited s
and_then fault k = fault

infixl 5 ◌>>=◌ ◌>>◌
abbrev pub ◌>>=◌ : {A B : Type 0} → M A → (A → M B) → M B
◌>>=◌ m k s = and_then (m s) k

abbrev pub ◌>>◌ : {A B : Type 0} → M A → M B → M B
m >> k = m >>= λ _. k

abbrev pub gets : {A : Type 0} → (Peer → A) → M A
gets f s = done (f s) s

abbrev pub modify : (Peer → Peer) → M (Unit {0})
modify f s = done tt (f s)

abbrev pub or_fault : {A : Type 0} → Option A → M A
or_fault none s = fault
or_fault (some a) s = done a s

abbrev pub logged : Call → Peer → Peer
logged c s = record s { log = c ∷ s.log }

module _ (env : Environment) where
  -- One call, and its answer.
  abbrev pub ask : Call → M Reply
  ask c s = done (env.reply s.log c) (logged c s)

  -- SEOE of lib/sisci_glob_defs.h: exit unless the call succeeds.
  unfoldable pub seoe : Call → M Reply
  seoe c = do r ← ask c; if r.ok then pure r else exit_failure

  -- lib/print_node_id.c
  unfoldable pub get_node_id : M ℕ
  get_node_id = do r ← ask query_node_id; if r.ok then pure r.value else pure 0

  unfoldable pub delivery_notification : DeliveryStatus → CommandType → OrderType → ℕ → M (Unit {0})
  unfolding seoe get_node_id
  delivery_notification status command_type delivery_type id = do
    node ← get_node_id
    let delivery : Delivery = delivery_of status command_type delivery_type id node
    seoe (trigger_data_interrupt delivery)
    pure tt

-- The hypothesis of the theorems on success: no call fails, and the adapter keeps its node id.
pub record Obliging (env : Environment) : Type 0 where
  pub succeeds : (log : List Call) (c : Call) → (env.reply log c).ok ≡ true
  pub local_node : ℕ
  pub node_id : (log : List Call) → (env.reply log query_node_id).value ≡ local_node

-- The globals as the program starts.
abbrev pub start : ℕ → Peer
start initiator_id = record {
  initiator_id = initiator_id;
  ordered_segments = null;
  ordered_segments_count = 0;
  ordered_data_interrupts = record { handles = null; nos = null; count = 0 };
  ordered_interrupts = record { handles = null; nos = null; count = 0 };
  ping_pong_thread = 0;
  log = [];
}
