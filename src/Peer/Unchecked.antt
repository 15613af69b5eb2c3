-- ===== src/Peer/Unchecked.antt =====
-- Two steps of peer/peer_main.c that report a failed allocation and go on.
use sisci_perf.Common.{ℕ, suc, ◌≤◌, ◌<◌, ◌≡◌, refl, Bool, true, false, List, ◌∷◌, arith, length}
use sisci_perf.Memory.{Array, null, fresh, set_out, get_elem?, Holds}
use sisci_perf.Protocol.{
  OrderType, segment, global_dma_segment, ping_pong_segment, broadcast_segment,
  global_dma_broadcast_segment, other_order, IsKnown, interrupt, data_interrupt, Order, uint_mod,
  Delivery,
}
use sisci_perf.Peer.World.{
  Environment, Peer, Table, Call, allocate, create_segment, create_interrupt, create_data_interrupt,
  remove_segment, remove_interrupt, trigger_data_interrupt, kill_main, done, fault, callback_cancel,
  logged, seoe,
}
use sisci_perf.Peer.Tables.{Entry, handles, kept, compact-table, removals, seoe-ok}
use sisci_perf.Peer.Orders.{
  dec, inc, realloc, create_flags, create_entry, create_interrupt_order,
  create_data_interrupt_order, create_segment_order, create_by, handle_create_order,
  destroy_interrupt_order, destroy_by, handle_destroy_order, destroy_nos, destroy_handles,
  destroy_entry, finish, shut_down,
}
use sisci_perf.Peer.Registry.{Registry, TableIs, Refines, count, count-kept}
use sisci_perf.Peer.Shortage.{table_count, given_up, give_up_lem, shorter_fails, shorter_works}
use sisci_perf.Peer.Teardown.{torn_down, remove_all-table, remove_all_overrun}

-- The call that asks SISCI for what an order is about.
abbrev pub creation : OrderType → Order → Call
creation interrupt order = create_interrupt order.id
creation data_interrupt order = create_data_interrupt order.id
creation t order = create_segment order.id order.size (create_flags t)

module _ (env : Environment) where
  realloc_fails :
      (a : Array) (n : ℕ) (s : Peer)
      → (env.reply s.log (allocate n)).ok ≡ false
      → realloc env a n s ≡ done null (logged kill_main (logged (allocate n) s))
  unfolding realloc
  realloc_fails a n s e = rw e

  create_entry_null :
      (creates : ℕ → Call) (t : Table) (id : ℕ) (s : Peer)
      → (env.reply s.log (allocate (inc t.count))).ok ≡ false
      → ((log : List Call) → (env.reply log (creates id)).ok ≡ true)
      → create_entry env creates t id s ≡ fault
  unfolding create_entry realloc seoe
  create_entry_null creates t id s e ok =
      let n = inc t.count in
      let l : List Call = allocate n ∷ kill_main ∷ allocate n ∷ s.log in
      ground (arith, ok l, ok (kill_main ∷ l))

  create_segment_null :
      (t : OrderType) (order : Order) (s : Peer)
      → order.order_type ≡ t
      → (env.reply s.log (allocate (inc s.ordered_segments_count))).ok ≡ false
      → ((log : List Call)
          → (env.reply log (create_segment order.id order.size (create_flags t))).ok ≡ true)
      → create_segment_order env order s ≡ fault
  unfolding create_segment_order
  create_segment_null t order s t' e ok =
      let n = inc s.ordered_segments_count in
      let s₁ = logged kill_main (logged (allocate n) s) in
      let c = create_segment order.id order.size (create_flags t) in
      rw (
        realloc_fails s.ordered_segments n s e,
        t',
        seoe-ok env c s₁ (ok s₁.log),
        set_out null s.ordered_segments_count _ (omega arith),
      )

  create_by_null :
      (t : OrderType) (order : Order) (s : Peer)
      → order.order_type ≡ t
      → IsKnown t
      → (env.reply s.log (allocate (inc (table_count t s)))).ok ≡ false
      → ((log : List Call) → (env.reply log (creation t order)).ok ≡ true)
      → create_by env t order s ≡ fault
  unfolding create_by create_interrupt_order create_data_interrupt_order
  create_by_null interrupt order s t k e ok =
      rw (create_entry_null create_interrupt s.ordered_interrupts order.id s e ok)
  create_by_null data_interrupt order s t k e ok =
      rw (create_entry_null create_data_interrupt s.ordered_data_interrupts order.id s e ok)
  create_by_null (other_order n) order s t k e ok = absurd k
  create_by_null ping_pong_segment order s t k e ok = create_segment_null _ order s t e ok
  create_by_null segment order s t k e ok = create_segment_null _ order s t e ok
  create_by_null global_dma_segment order s t k e ok = create_segment_null _ order s t e ok
  create_by_null broadcast_segment order s t k e ok = create_segment_null _ order s t e ok
  create_by_null global_dma_broadcast_segment order s t k e ok =
      create_segment_null _ order s t e ok

  -- If reallocarray fails for the first array that an order to create makes longer, the handler
  -- goes on after it has told the main thread to terminate, and writes the new handle through the
  -- null pointer, provided that SISCI makes what was asked for.
  pub handle_create_order_no_memory :
      (order : Order) (s : Peer)
      → IsKnown order.order_type
      → (env.reply s.log (allocate (inc (table_count order.order_type s)))).ok ≡ false
      → ((log : List Call) → (env.reply log (creation order.order_type order)).ok ≡ true)
      → handle_create_order env order s ≡ fault
  unfolding handle_create_order
  handle_create_order_no_memory order s = create_by_null order.order_type order s refl

-- A call of malloc or reallocarray.
abbrev pub is_allocate : Call → Bool
is_allocate (allocate n) = true
is_allocate c = false

module _ (env : Environment)
    (others : (log : List Call) (c : Call)
      → is_allocate c ≡ false
      → (env.reply log c).ok ≡ true) where
  destroy_entry_halfway :
      (kind : OrderType) (remove : ℕ → Call) (t : Table) (id : ℕ) (es : List Entry) (s : Peer)
      → ((h : ℕ) → is_allocate (remove h) ≡ false)
      → TableIs t es
      → length es < uint_mod
      → 1 < length es
      → count id es ≡ 1
      → (env.reply s.log (allocate (dec t.count))).ok ≡ true
      → (env.reply
          (removals remove id es (allocate (dec t.count) ∷ s.log))
          (allocate (dec t.count))).ok
        ≡ false
      → (t' : Table) × (log : List Call) × (destroy_entry env kind remove t id s
          ≡ done (t', callback_cancel) (record s { log = log }))
        × Holds t'.handles 0 (handles (kept id es))
        × (t'.count ≡ suc (length (kept id es)))
        × (t'.handles.cap ≤ length (kept id es))
  unfolding destroy_entry destroy_handles destroy_nos
  destroy_entry_halfway kind remove t id es s plain is le more one first second =
      let n = dec t.count in
      let l₁ : List Call = allocate n ∷ s.log in
      let l₂ : List Call = removals remove id es l₁ in
      let fits : n ≡ length (kept id es) = omega (arith, count-kept id es, is.counted) in
      let hs =
        compact-table env (get_elem? t.nos) remove id t.handles
          (λ log h. others log (remove h) (plain h)) es t.count (fresh n) (record s { log = l₁ })
          is.counted is.nos_hold is.handles_hold (omega arith) in
      let notifies =
        λ (log : List Call) (d : Delivery). others log (trigger_data_interrupt d) refl in
      (
        record t { handles = hs.0 },
        given_up env notifies kind id (allocate n ∷ l₂),
        rw (
          shorter_works env t.count s first,
          hs.1,
          shorter_fails env notifies t.count (record s { log = l₂ }) second
              (omega (arith, is.counted)),
          give_up_lem env notifies kind id (record s { log = allocate n ∷ l₂ }),
        ),
        hs.2,
        omega (arith, count-kept id es, is.counted),
        omega (arith, hs.3),
      )

  -- An order to destroy an interrupt whose second malloc fails leaves the table of interrupts with
  -- the shorter array and the old count. The main thread, which is told to terminate, then reads
  -- behind the end of that array, though no other call fails.
  pub destroy_interrupt_halfway :
      (order : Order) (s : Peer) (r : Registry)
      → order.order_type ≡ interrupt
      → Refines env s r
      → length r.interrupts < uint_mod
      → 1 < length r.interrupts
      → count order.id r.interrupts ≡ 1
      → let n = dec s.ordered_interrupts.count in
        (env.reply s.log (allocate n)).ok ≡ true
        → (env.reply
            (removals remove_interrupt order.id r.interrupts (allocate n ∷ s.log))
            (allocate n)).ok
          ≡ false
        → (s' : Peer) × (handle_destroy_order env order s ≡ done callback_cancel s')
          × (shut_down env s' ≡ fault)
  unfolding handle_destroy_order destroy_by destroy_interrupt_order finish shut_down
  destroy_interrupt_halfway order s r t is le more one first second =
      let d =
        destroy_entry_halfway interrupt remove_interrupt s.ordered_interrupts order.id r.interrupts
          s (λ h. refl) is.interrupts_are le more one first second in
      let s' = record s { ordered_interrupts = d.0; log = d.1 } in
      (
        s',
        rw (t, d.2),
        rw (
          remove_all-table env remove_segment (λ log h. others log (remove_segment h) refl)
              s.ordered_segments r.segments s.ordered_segments_count s' is.segments_hold
              is.segments_counted,
          remove_all_overrun env remove_interrupt (λ log h. others log (remove_interrupt h) refl)
              d.0.handles (kept order.id r.interrupts) d.0.count
              (record s' { log = torn_down remove_segment (handles r.segments) d.1 }) d.3 d.4 d.5,
        ),
      )
