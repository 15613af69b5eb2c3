-- ===== src/Peer/Teardown.antt =====
-- Theorems on what `main` of peer/peer_main.c does after the termination signal, and on a peer's
-- life from its start.
use sisci_perf.Common.{
  ℕ, suc, ◌+◌, ◌≤◌, ◌≡◌, refl, true, List, [], ◌∷◌, arith, length, ◌∙◌, sym, length-map,
}
use sisci_perf.Memory.{Array, Holds}
use sisci_perf.Peer.World.{
  Environment, Obliging, Peer, Call, remove_segment, remove_interrupt, remove_data_interrupt,
  disconnect_delivery, remove_order_interrupt, close, terminate, done, fault, logged,
}
use sisci_perf.Peer.Tables.{Entry, handles, seoe-ok}
use sisci_perf.Peer.Orders.{remove_all, shut_down}
use sisci_perf.Peer.Registry.{Registry, Refines}

-- The log once the handles have been removed, first to last.
abbrev pub torn_down : (ℕ → Call) → List ℕ → List Call → List Call
torn_down remove [] log = log
torn_down remove (h ∷ hs) log = torn_down remove hs (remove h ∷ log)

module _ (env : Environment) (remove : ℕ → Call)
    (removes : (log : List Call) (h : ℕ) → (env.reply log (remove h)).ok ≡ true) where
  remove_all_lem :
      (a : Array) (hs : List ℕ) (i : ℕ) (s : Peer)
      → Holds a i hs
      → remove_all env remove a (length hs) i s
        ≡ done tt (record s { log = torn_down remove hs s.log })
  unfolding remove_all
  remove_all_lem a [] i s h = refl
  remove_all_lem a (x ∷ hs) i s h =
      rw (h.0, seoe-ok env (remove x) s (removes s.log x))
        (remove_all_lem a hs (suc i) (logged (remove x) s) h.1)

  pub remove_all-table :
      (a : Array) (es : List Entry) (n : ℕ) (s : Peer)
      → Holds a 0 (handles es)
      → n ≡ length es
      → remove_all env remove a n 0 s
        ≡ done tt (record s { log = torn_down remove (handles es) s.log })
  remove_all-table a es n s h e =
      let e' : n ≡ length (handles es) = e ∙ sym (length-map _ es) in
      rw e' (remove_all_lem a (handles es) 0 s h)

  remove_all_beyond :
      (a : Array) (hs : List ℕ) (i : ℕ) (s : Peer)
      → Holds a i hs
      → a.cap ≤ i + length hs
      → remove_all env remove a (suc (length hs)) i s ≡ fault
  unfolding remove_all
  remove_all_beyond a [] i s h le = ground arith
  remove_all_beyond a (x ∷ hs) i s h le =
      rw (h.0, seoe-ok env (remove x) s (removes s.log x))
        (remove_all_beyond a hs (suc i) (logged (remove x) s) h.1 (omega arith))

  -- A count that is one more than what the array has room for.
  pub remove_all_overrun :
      (a : Array) (es : List Entry) (n : ℕ) (s : Peer)
      → Holds a 0 (handles es)
      → n ≡ suc (length es)
      → a.cap ≤ length es
      → remove_all env remove a n 0 s ≡ fault
  remove_all_overrun a es n s h e le =
      let e' : n ≡ suc (length (handles es)) =
        omega (arith, length-map {0, 0} (λ (x : Entry). x.handle) es) in
      rw e' (
        remove_all_beyond a (handles es) 0 s h
          (omega (arith, length-map {0, 0} (λ (x : Entry). x.handle) es)))

module _ (env : Environment) (obliging : Obliging env) where
  -- Where no call fails, a peer that is told to terminate removes exactly the handles of its
  -- registry, each once: the segments, then the interrupts, then the data interrupts, each table
  -- from the oldest entry on. Then it disconnects from the initiator, removes its own order
  -- interrupt and closes.
  pub shut_down-Refines :
      (s : Peer) (r : Registry)
      → Refines env s r
      → shut_down env s
        ≡ done tt (record s {
          log =
              terminate
              ∷ close
              ∷ remove_order_interrupt
              ∷ disconnect_delivery
              ∷ torn_down remove_data_interrupt (handles r.data_interrupts) (
                  torn_down remove_interrupt
                    (handles r.interrupts)
                    (torn_down remove_segment (handles r.segments) s.log));
        })
  unfolding shut_down
  shut_down-Refines s r is =
      let l₁ = torn_down remove_segment (handles r.segments) s.log in
      let l₂ = torn_down remove_interrupt (handles r.interrupts) l₁ in
      let l₃ = torn_down remove_data_interrupt (handles r.data_interrupts) l₂ in
      let l₄ : List Call = disconnect_delivery ∷ l₃ in
      let l₅ : List Call = remove_order_interrupt ∷ l₄ in
      rw (
        remove_all-table env remove_segment (λ log h. obliging.succeeds log (remove_segment h))
            s.ordered_segments r.segments s.ordered_segments_count s is.segments_hold
            is.segments_counted,
        remove_all-table env remove_interrupt (λ log h. obliging.succeeds log (remove_interrupt h))
            s.ordered_interrupts.handles r.interrupts s.ordered_interrupts.count
            (record s { log = l₁ }) is.interrupts_are.handles_hold is.interrupts_are.counted,
        remove_all-table env remove_data_interrupt
            (λ log h. obliging.succeeds log (remove_data_interrupt h))
            s.ordered_data_interrupts.handles r.data_interrupts s.ordered_data_interrupts.count
            (record s { log = l₂ }) is.data_interrupts_are.handles_hold
            is.data_interrupts_are.counted,
        seoe-ok env disconnect_delivery (record s { log = l₃ })
            (obliging.succeeds l₃ disconnect_delivery),
        seoe-ok env remove_order_interrupt (record s { log = l₄ })
            (obliging.succeeds l₄ remove_order_interrupt),
        seoe-ok env close (record s { log = l₅ }) (obliging.succeeds l₅ close),
      )
