-- ===== src/Peer/Callback.antt =====
-- Theorems on order_callback of peer/peer_main.c: a step of the peer is a step of its registry.
use sisci_perf.Common.{
  ℕ, suc, ◌≤◌, ◌<◌, ◌≡◌, Option, some, none, leb, inl, inr, refl, Bool, true, false, List, [], ◌∷◌,
  arith, length, ◌==◌, if◌then◌else◌, ◌∙◌, ap, Bool-cases,
}
use sisci_perf.Protocol.{
  ping_pong_segment, IsKnown, CommandType, destroy, create, other_command, success, Order, uint_mod,
}
use sisci_perf.Peer.World.{
  Environment, Obliging, Peer, Call, kill_main, Run, done, fault, or_fault, ◌>>=◌, CallbackAction,
  callback_continue, start,
}
use sisci_perf.Peer.Tables.{Entry}
use sisci_perf.Peer.Orders.{obey, kill_unless, read_order, order_callback, shut_down}
use sisci_perf.Peer.Registry.{
  Registry, Refines, entries, count, registered, unregistered, deliveries, sent,
}
use sisci_perf.Peer.Create.{handle_create_order-Refines}
use sisci_perf.Peer.Teardown.{shut_down-Refines}
use sisci_perf.Peer.Destroy.{handle_destroy_order-Refines}

-- What the peer relies on in an order, by its command: a type with a name, room for one more or
-- exactly one entry to destroy, and no second ping-pong thread.
abbrev pub Admissible : CommandType → Order → Registry → Type 0
Admissible create o r =
    IsKnown o.order_type
    × (suc (length (entries o.order_type r)) < uint_mod)
    × (o.order_type ≡ ping_pong_segment → r.thread ≡ 0)
Admissible destroy o r =
    IsKnown o.order_type
    × (length (entries o.order_type r) < uint_mod)
    × (count o.id (entries o.order_type r) ≡ 1)
Admissible (other_command n) o r = ⊥

-- The registry's own step, and the number that the delivery carries.
abbrev pub Steps : CommandType → Order → Registry → Registry → ℕ → Type 0
Steps create o r r' id =
    (e : Entry) × (thread : ℕ) × (r' ≡ registered o.order_type e thread r) × (id ≡ e.no)
Steps destroy o r r' id = (r' ≡ unregistered o.order_type o.id r) × (id ≡ o.id)
Steps (other_command n) o r r' id = ⊥

-- The calls that the checks of a callback make before it dispatches.
abbrev pub complaints : Bool → Bool → List Call → List Call
complaints status_ok length_ok log =
    let l₁ = if status_ok then log else kill_main ∷ log in if length_ok then l₁ else kill_main ∷ l₁

-- The registry of a peer that has just started.
abbrev pub empty : Registry
empty = record { segments = []; interrupts = []; data_interrupts = []; thread = 0 }

pub start-Refines : (env : Environment) (id : ℕ) → Refines env (start id) empty
start-Refines env id = record {
  segments_hold = tt;
  segments_ids = refl;
  segments_counted = refl;
  interrupts_are = record { handles_hold = tt; nos_hold = tt; counted = refl };
  data_interrupts_are = record { handles_hold = tt; nos_hold = tt; counted = refl };
  thread_is = refl;
}

order_callback-read :
    (env : Environment) (content : Option Order) (bytes : ℕ) (status_ok : Bool) (s : Peer)
    → order_callback env content bytes status_ok s
      ≡ (or_fault (read_order content bytes) >>= λ o. obey env o.command_type o)
          (record s { log = complaints status_ok (bytes == 24) s.log })
unfolding order_callback kill_unless
order_callback-read env content bytes true s = elim (Bool-cases (bytes == 24)) [
  | inl fine ↦ rw fine
  | inr wrong ↦ rw wrong
]
order_callback-read env content bytes false s = elim (Bool-cases (bytes == 24)) [
  | inl fine ↦ rw fine
  | inr wrong ↦ rw wrong
]

-- An order that can be read is obeyed.
pub order_callback_lem :
    (env : Environment) (o : Order) (bytes : ℕ) (status_ok : Bool) (s : Peer)
    → 24 ≤ bytes
    → order_callback env (some o) bytes status_ok s
      ≡ obey env o.command_type o (record s { log = complaints status_ok (bytes == 24) s.log })
order_callback_lem env o bytes status_ok s whole =
    let enough : leb 24 bytes ≡ true = ground arith in
    order_callback-read env (some o) bytes status_ok s ∙ rw enough

order_callback-faults :
    (env : Environment) (content : Option Order) (bytes : ℕ) (status_ok : Bool) (s : Peer)
    → read_order content bytes ≡ none
    → order_callback env content bytes status_ok s ≡ fault
order_callback-faults env content bytes status_ok s unread =
    order_callback-read env content bytes status_ok s ∙ rw unread

deliveries-complaints :
    (a b : Bool) (log : List Call) → deliveries (complaints a b log) ≡ deliveries log
deliveries-complaints true true log = refl
deliveries-complaints true false log = refl
deliveries-complaints false true log = refl
deliveries-complaints false false log = refl

Refines-log :
    (env : Environment) (s : Peer) (r : Registry) (log : List Call)
    → Refines env s r
    → Refines env (record s { log = log }) r
Refines-log env s r log is = record {
  segments_hold = is.segments_hold;
  segments_ids = is.segments_ids;
  segments_counted = is.segments_counted;
  interrupts_are = is.interrupts_are;
  data_interrupts_are = is.data_interrupts_are;
  thread_is = is.thread_is;
}

module _ (env : Environment) (obliging : Obliging env) where
  -- What a run that carries an order out has done.
  abbrev pub Obeys : CommandType → Order → Run CallbackAction → Peer → Registry → Type 0
  Obeys c o run s r =
      (s' : Peer) × (r' : Registry) × (id : ℕ) × (run ≡ done callback_continue s')
      × Refines env s' r'
      × Steps c o r r' id
      × (deliveries s'.log ≡ sent env obliging success c o.order_type id ∷ deliveries s.log)

  obey-Obeys :
      (c : CommandType) (o : Order) (s : Peer) (r : Registry)
      → Refines env s r
      → Admissible c o r
      → Obeys c o (obey env c o s) s r
  unfolding obey
  obey-Obeys create o s r is ok =
      let c =
        handle_create_order-Refines env obliging o s r ok.0 is ok.1
          (λ pp. is.thread_is ∙ ok.2 pp) in
      let thread = c.0.ping_pong_thread in
      (c.0, registered o.order_type c.1 thread r, c.1.no, c.2, c.3, (c.1, thread, refl, refl), c.4)
  obey-Obeys destroy o s r is ok =
      let d = handle_destroy_order-Refines env obliging o s r ok.0 is ok.1 ok.2 in
      (d.0, unregistered o.order_type o.id r, o.id, d.1, d.2, (refl, refl), d.4)
  obey-Obeys (other_command n) o s r is ok = absurd ok

  pub obeyed-Obeys :
      (o : Order) (bytes : ℕ) (status_ok : Bool) (s : Peer) (r : Registry)
      → 24 ≤ bytes
      → Refines env s r
      → Admissible o.command_type o r
      → Obeys o.command_type o (order_callback env (some o) bytes status_ok s) s r
  obeyed-Obeys o bytes status_ok s r whole is ok =
      let log = complaints status_ok (bytes == 24) s.log in
      let b =
        obey-Obeys o.command_type o (record s { log = log }) r (Refines-log env s r log is) ok in
      (
        b.0,
        b.1,
        b.2,
        order_callback_lem env o bytes status_ok s whole ∙ b.3,
        b.4,
        b.5,
        b.6
            ∙ ap (λ l. sent env obliging success o.command_type o.order_type b.2 ∷ l)
                (deliveries-complaints status_ok (bytes == 24) s.log),
      )

  -- Where no call fails, the callback simulates the registry: from a peer that stands for a
  -- registry, an admissible order that the data holds in its 24 bytes or more leads to a peer that
  -- stands for the registry after the same step, with one delivery, a success of the order's
  -- command and type that carries the new entry's number or the destroyed one's. The checks of
  -- status and length tell the main thread to terminate but do not return: such an order is obeyed
  -- with a wrong status or length too; data of less than 24 bytes is read behind its end, and data
  -- that holds no order is read as one, which is undefined, whatever the status.
  pub order_callback-Obeys :
      (o : Order) (content : Option Order) (bytes short : ℕ) (status_ok : Bool) (s : Peer)
      → (r : Registry) → 24 ≤ bytes
      → short < 24
      → Refines env s r
      → Admissible o.command_type o r
      → Obeys o.command_type o (order_callback env (some o) bytes status_ok s) s r
        × (order_callback env content short status_ok s ≡ fault)
        × (order_callback env none bytes status_ok s ≡ fault)
  order_callback-Obeys o content bytes short status_ok s r whole part is ok =
      let too_few : leb 24 short ≡ false = ground arith in
      let enough : leb 24 bytes ≡ true = ground arith in
      (
        obeyed-Obeys o bytes status_ok s r whole is ok,
        order_callback-faults env content short status_ok s (rw too_few),
        order_callback-faults env none bytes status_ok s (rw enough),
      )

  -- A peer's life: it starts, and is sent whole orders that are admissible for what it holds.
  pub data Reached (initiator : ℕ) : Peer → ℕ → Type 0 where
    boots : Reached initiator (start initiator) 0
    obeys :
        {s s' : Peer} {n : ℕ}
        → Reached initiator s n
        → (o : Order) (bytes : ℕ) (status_ok : Bool) (r : Registry) → 24 ≤ bytes
        → Refines env s r
        → Admissible o.command_type o r
        → order_callback env (some o) bytes status_ok s ≡ done callback_continue s'
        → Reached initiator s' (suc n)

-- Any state that a callback has reached, from the theorem on its run.
same_end :
    {run : Run CallbackAction} {s s' : Peer} {a b : CallbackAction}
    → run ≡ done a s
    → run ≡ done b s'
    → s ≡ s'
same_end p q = cc

module _ (env : Environment) (obliging : Obliging env) where
  -- Throughout a peer's life its arrays and counts stand for a registry, it has sent exactly one
  -- delivery for each order, and a termination signal would be carried through to the end.
  pub Reached-IsSound :
      (initiator n : ℕ) (s : Peer)
      → Reached env obliging initiator s n
      → (r : Registry) × Refines env s r
        × (length (deliveries s.log) ≡ n)
        × ((s' : Peer) × (shut_down env s ≡ done tt s'))
  Reached-IsSound initiator n s boots = (
    empty,
    start-Refines env initiator,
    refl,
    (_, shut_down-Refines env obliging s empty (start-Refines env initiator)),
  )
  Reached-IsSound initiator n s' (obeys {s} {n = m} before o bytes status_ok r whole is ok e) =
      let b = obeyed-Obeys env obliging o bytes status_ok s r whole is ok in
      let same = same_end b.3 e in
      let now : Refines env s' b.1 = rw same at b.4 in
      let sent_before = (Reached-IsSound initiator m s before).2 in
      (
        b.1,
        now,
        omega
            (arith, ap (λ (p : Peer). length (deliveries p.log)) same, ap length b.6, sent_before),
        (_, shut_down-Refines env obliging s' b.1 now),
      )
