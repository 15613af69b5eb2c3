-- ===== src/Peer/Registry.antt =====
-- What a peer promises, without arrays and counts: the entries that are alive in each of its three
-- tables, oldest first, and the deliveries it sends.
use sisci_perf.Common.{
  ℕ, suc, ◌+◌, ◌≡◌, refl, Bool, true, false, List, [], ◌∷◌, ◌++◌, map, arith, ◌==◌, if◌then◌else◌,
  length, keep_if, Bool-cases, inl, inr, ap₂, ◌∙◌,
}
use sisci_perf.Memory.{Array, Holds, Reads}
use sisci_perf.Protocol.{
  OrderType, interrupt, data_interrupt, ping_pong_segment, other_order, CommandType, DeliveryStatus,
  Delivery, delivery_of,
}
use sisci_perf.Peer.World.{
  Environment, Obliging, Peer, Table, Call, remove_segment, remove_interrupt, remove_data_interrupt,
  query_node_id, trigger_data_interrupt, done, delivery_notification, logged,
}
use sisci_perf.Peer.Orders.{segment_key}
use sisci_perf.Peer.Tables.{Entry, handles, numbers, kept, removals}

pub record Registry : Type 0 where
  pub segments : List Entry
  pub interrupts : List Entry
  pub data_interrupts : List Entry
  pub thread : ℕ

pub record TableIs (t : Table) (es : List Entry) : Type 0 where
  pub handles_hold : Holds t.handles 0 (handles es)
  pub nos_hold : Holds t.nos 0 (numbers es)
  pub counted : t.count ≡ length es

-- The state of a peer stands for the registry. The id of a segment is what SISCI says it is.
pub record Refines (env : Environment) (s : Peer) (r : Registry) : Type 0 where
  pub segments_hold : Holds s.ordered_segments 0 (handles r.segments)
  pub segments_ids : numbers r.segments ≡ map env.local_segment_id (handles r.segments)
  pub segments_counted : s.ordered_segments_count ≡ length r.segments
  pub interrupts_are : TableIs s.ordered_interrupts r.interrupts
  pub data_interrupts_are : TableIs s.ordered_data_interrupts r.data_interrupts
  pub thread_is : s.ping_pong_thread ≡ r.thread

-- The deliveries that have been sent, newest first.
abbrev pub deliveries : List Call → List Delivery
deliveries [] = []
deliveries (trigger_data_interrupt d ∷ log) = d ∷ deliveries log
deliveries (c ∷ log) = deliveries log

-- The calls that take something down again, newest first.
abbrev pub is_removal : Call → Bool
is_removal (remove_segment h) = true
is_removal (remove_interrupt h) = true
is_removal (remove_data_interrupt h) = true
is_removal c = false

abbrev pub takedowns : List Call → List Call
takedowns = keep_if is_removal

-- The call that takes an entry of a table down.
abbrev pub remover : OrderType → ℕ → Call
remover interrupt = remove_interrupt
remover data_interrupt = remove_data_interrupt
remover t = remove_segment

-- The registry once an order to create has been carried out.
abbrev pub registered : OrderType → Entry → (thread : ℕ) → Registry → Registry
registered interrupt e thread r = record r { interrupts = r.interrupts ++ e ∷ [] }
registered data_interrupt e thread r = record r { data_interrupts = r.data_interrupts ++ e ∷ [] }
registered (other_order n) e thread r = r
registered ping_pong_segment e thread r = record r {
  segments = r.segments ++ e ∷ [];
  thread = thread;
}
registered _ e thread r = record r { segments = r.segments ++ e ∷ [] }

-- The registry once an order to destroy has been carried out.
abbrev pub unregistered : OrderType → ℕ → Registry → Registry
unregistered interrupt id r = record r { interrupts = kept id r.interrupts }
unregistered data_interrupt id r = record r { data_interrupts = kept id r.data_interrupts }
unregistered (other_order n) id r = r
unregistered ping_pong_segment id r = record r { segments = kept id r.segments; thread = 0 }
unregistered _ id r = record r { segments = kept id r.segments }

-- The table that orders of a type are about.
abbrev pub entries : OrderType → Registry → List Entry
entries interrupt r = r.interrupts
entries data_interrupt r = r.data_interrupts
entries _ r = r.segments

module _ (env : Environment) (obliging : Obliging env) where
  abbrev pub sent : DeliveryStatus → CommandType → OrderType → ℕ → Delivery
  sent status c t id = delivery_of status c t id obliging.local_node

  -- The state once a delivery has been sent.
  abbrev pub announced : DeliveryStatus → CommandType → OrderType → ℕ → Peer → Peer
  announced status c t id s =
      logged (trigger_data_interrupt (sent status c t id)) (logged query_node_id s)

  pub notification-ok :
      (status : DeliveryStatus) (c : CommandType) (t : OrderType) (id : ℕ) (s : Peer)
      → delivery_notification env status c t id s ≡ done tt (announced status c t id s)
  unfolding delivery_notification
  notification-ok status c t id s = ground (
    arith,
    obliging.succeeds s.log query_node_id,
    obliging.node_id s.log,
    obliging.succeeds (query_node_id ∷ s.log) (trigger_data_interrupt (sent status c t id)),
  )

-- How many entries go by a number.
abbrev pub count : ℕ → List Entry → ℕ
count id [] = 0
count id (e ∷ es) = if e.no == id then suc (count id es) else count id es

pub count-kept : (id : ℕ) (es : List Entry) → length (kept id es) + count id es ≡ length es
count-kept id [] = omega arith
count-kept id (e ∷ es) = ground (arith, count-kept id es)

is_removal-remover : (t : OrderType) (h : ℕ) → is_removal (remover t h) ≡ true
is_removal-remover interrupt h = refl
is_removal-remover data_interrupt h = refl
is_removal-remover _ h = refl

deliveries-remover :
    (t : OrderType) (h : ℕ) (log : List Call) → deliveries (remover t h ∷ log) ≡ deliveries log
deliveries-remover interrupt h log = refl
deliveries-remover data_interrupt h log = refl
deliveries-remover _ h log = refl

pub takedowns-removals :
    (t : OrderType) (id : ℕ) (es : List Entry) (log : List Call)
    → takedowns (removals (remover t) id es log) ≡ removals (remover t) id es (takedowns log)
takedowns-removals t id [] log = refl
takedowns-removals t id (e ∷ es) log = elim (Bool-cases (e.no == id)) [
  | inl hit ↦
      rw hit
        (takedowns-removals t id es (remover t e.handle ∷ log) ∙ rw (is_removal-remover t e.handle))
  | inr miss ↦ rw miss (takedowns-removals t id es log)
]

pub deliveries-removals :
    (t : OrderType) (id : ℕ) (es : List Entry) (log : List Call)
    → deliveries (removals (remover t) id es log) ≡ deliveries log
deliveries-removals t id [] log = refl
deliveries-removals t id (e ∷ es) log = elim (Bool-cases (e.no == id)) [
  | inl hit ↦
      rw hit
        (deliveries-removals t id es (remover t e.handle ∷ log) ∙ deliveries-remover t e.handle log)
  | inr miss ↦ rw miss (deliveries-removals t id es log)
]

pub Reads-segment_key :
    (env : Environment) (a : Array) (i : ℕ) (hs : List ℕ)
    → Holds a i hs
    → Reads (segment_key env a) i (map env.local_segment_id hs)
Reads-segment_key env a i [] h = tt
Reads-segment_key env a i (x ∷ hs) h =
    (rw (h.0, segment_key), Reads-segment_key env a (suc i) hs h.1)

pub kept-ids :
    (f : ℕ → ℕ) (id : ℕ) (es : List Entry)
    → numbers es ≡ map f (handles es)
    → numbers (kept id es) ≡ map f (handles (kept id es))
kept-ids f id [] e = refl
kept-ids f id (x ∷ es) e =
    let first : x.no ≡ f x.handle = cc in
    let rest : numbers es ≡ map f (handles es) = cc in
    elim (Bool-cases (x.no == id)) [
      | inl hit ↦ rw hit (kept-ids f id es rest)
      | inr miss ↦ rw miss (ap₂ ◌∷◌ first (kept-ids f id es rest))
    ]

-- The registry once the ping-pong thread is gone.
pub Refines-stopped :
    (env : Environment) (s : Peer) (r : Registry) (log : List Call)
    → Refines env s r
    → Refines env (record s { ping_pong_thread = 0; log = log }) (record r { thread = 0 })
Refines-stopped env s r log is = record {
  segments_hold = is.segments_hold;
  segments_ids = is.segments_ids;
  segments_counted = is.segments_counted;
  interrupts_are = is.interrupts_are;
  data_interrupts_are = is.data_interrupts_are;
  thread_is = refl;
}
