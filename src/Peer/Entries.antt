-- ===== src/Peer/Entries.antt =====
-- One entry more or less in a table of interrupts of peer/peer_main.c, where no call fails.
use sisci_perf.Common.{
  ℕ, suc, ◌<◌, ◌≡◌, List, [], ◌∷◌, ◌++◌, arith, length, ◌∙◌, length-append, some, sym, length-map,
  map-append, ◌≤◌,
}
use sisci_perf.Memory.{
  Array, resize, set, get_elem?, set_in, get_elem?-set_self, Holds, Holds-resize, Holds-set_last,
  fresh,
}
use sisci_perf.Protocol.{OrderType, uint_mod}
use sisci_perf.Peer.World.{
  Environment, Obliging, Peer, Table, Call, Reply, allocate, done, callback_continue, logged,
}
use sisci_perf.Peer.Tables.{
  Entry, handles, numbers, seoe-ok, kept, removals, compact-table, compact_nos-table,
}
use sisci_perf.Peer.Orders.{
  inc, realloc, create_entry, dec, shorter, destroy_nos, destroy_handles, destroy_entry,
}
use sisci_perf.Peer.Registry.{TableIs, count, count-kept}
use sisci_perf.Peer.Shortage.{shorter_works}

-- The entry that an answer makes.
abbrev pub answered : Reply → Entry
answered r = record { handle = r.value; no = r.number }

module _ (env : Environment) (obliging : Obliging env) where
  pub realloc-ok :
      (a : Array) (n : ℕ) (s : Peer) → realloc env a n s ≡ done (resize a n) (logged (allocate n) s)
  unfolding realloc
  realloc-ok a n s = ground (arith, obliging.succeeds s.log (allocate n))

  -- The array with room for one more, and the element written there.
  pub pushed :
      (a : Array) (xs : List ℕ) (n v : ℕ)
      → Holds a 0 xs
      → n ≡ length xs
      → suc (length xs) < uint_mod
      → (b : Array) × (set (resize a (inc n)) n v ≡ some b)
        × Holds b 0 (xs ++ v ∷ [])
        × (get_elem? b n ≡ some v)
  pushed a xs n v h e le =
      let w = set_in (resize a (inc n)) n v (omega arith) in
      (
        w.0,
        w.1,
        Holds-set_last (resize a (inc n)) w.0 0 n v xs (omega arith) w.1
            (Holds-resize a (inc n) 0 xs (omega arith) h),
        get_elem?-set_self (resize a (inc n)) w.0 n v w.1,
      )

  pub create_entry-ok :
      (creates : ℕ → Call) (t : Table) (id : ℕ) (es : List Entry) (s : Peer)
      → TableIs t es
      → suc (length es) < uint_mod
      → let log = allocate (inc t.count) ∷ allocate (inc t.count) ∷ s.log in
        let r = env.reply log (creates id) in
        (t' : Table) × (create_entry env creates t id s
          ≡ done (t', r.number) (record s { log = creates id ∷ log }))
        × TableIs t' (es ++ answered r ∷ [])
  unfolding create_entry
  create_entry-ok creates t id es s is le =
      let n = inc t.count in
      let log = allocate n ∷ allocate n ∷ s.log in
      let r = env.reply log (creates id) in
      let hs =
        pushed t.handles (handles es) t.count r.value is.handles_hold
          (is.counted ∙ sym (length-map _ es)) (rw length-map le) in
      let ns =
        pushed t.nos (numbers es) t.count r.number is.nos_hold (is.counted ∙ sym (length-map _ es))
          (rw length-map le) in
      (
        record { handles = hs.0; nos = ns.0; count = n },
        rw (
          realloc-ok t.handles n s,
          realloc-ok t.nos n (logged (allocate n) s),
          seoe-ok env (creates id) (record s { log = log }) (obliging.succeeds log (creates id)),
          hs.1,
          ns.1,
        ),
        record {
          handles_hold = rw map-append hs.2;
          nos_hold = rw map-append ns.2;
          counted = omega (arith, length-append es (answered r ∷ []), is.counted);
        },
      )

  pub shorter-ok :
      (n : ℕ) (s : Peer)
      → shorter env n s ≡ done (some (fresh (dec n))) (logged (allocate (dec n)) s)
  shorter-ok n s = shorter_works env n s (obliging.succeeds s.log (allocate (dec n)))

  -- A table in which one entry goes by the number loses that entry.
  pub destroy_entry-ok :
      (kind : OrderType) (remove : ℕ → Call) (t : Table) (id : ℕ) (es : List Entry) (s : Peer)
      → TableIs t es
      → length es < uint_mod
      → count id es ≡ 1
      → let n = dec t.count in
        (t' : Table) × (destroy_entry env kind remove t id s
          ≡ done
              (t', callback_continue)
              (record s { log = allocate n ∷ removals remove id es (allocate n ∷ s.log) }))
        × TableIs t' (kept id es)
  unfolding destroy_entry destroy_handles destroy_nos
  destroy_entry-ok kind remove t id es s is le one =
      let n = dec t.count in
      let l₁ : List Call = allocate n ∷ s.log in
      let l₂ : List Call = removals remove id es l₁ in
      let room : length (kept id es) ≤ n = omega (arith, count-kept id es, is.counted) in
      let hs =
        compact-table env (get_elem? t.nos) remove id t.handles
          (λ log h. obliging.succeeds log (remove h)) es t.count (fresh n) (record s { log = l₁ })
          is.counted is.nos_hold is.handles_hold room in
      let ns =
        compact_nos-table id t.nos es t.count (fresh n) (record s { log = allocate n ∷ l₂ })
          is.counted is.nos_hold room in
      (
        record { handles = hs.0; nos = ns.0; count = n },
        rw (
          shorter-ok t.count s,
          destroy_handles,
          hs.1,
          shorter-ok t.count (record s { log = l₂ }),
          destroy_nos,
          ns.1,
        ),
        record {
          handles_hold = hs.2;
          nos_hold = ns.2;
          counted = omega (arith, count-kept id es, is.counted);
        },
      )
