-- ===== src/Peer/Tables.antt =====
-- The loops of peer/peer_main.c that copy a table into a shorter one without the entry that is
-- destroyed. The table of segments finds an id by SCIGetLocalSegmentId, the others in an array.
use sisci_perf.Common.{
  ℕ, zero, suc, ◌+◌, ◌≤◌, ◌<◌, ◌≡◌, refl, true, false, not, Option, some, List, [], ◌∷◌, ◌++◌, map,
  arith, dec_lt, ◌==◌, if◌then◌else◌, length, keep_if, Bool-cases, inl, inr, append_assoc,
  append-nil, length-append, ◌∙◌,
}
use sisci_perf.Memory.{Array, get_elem?, set, Holds, Reads, set_out, set_in, Holds-set_last}
use sisci_perf.Peer.World.{
  Environment, Peer, Call, done, fault, M, pure, ◌>>=◌, ◌>>◌, or_fault, seoe, logged,
}

module _ (env : Environment) where
  -- `rounds` is what is left of `i < count`.
  unfoldable pub compact :
      (key : ℕ → Option ℕ) (remove : ℕ → Call) (id : ℕ) (old : Array)
      → (rounds i j : ℕ) → Array
      → M Array
  compact key remove id old zero i j new = pure new
  compact key remove id old (suc r) i j new = do
    k ← or_fault (key i)
    h ← or_fault (get_elem? old i)
    if k == id
        then seoe env (remove h) >> compact key remove id old r (suc i) j new
        else or_fault (set new j h) >>= compact key remove id old r (suc i) (suc j)

-- The second loop of a table with an array of numbers.
unfoldable pub compact_nos : (id : ℕ) (nos : Array) → (rounds i j : ℕ) → Array → M Array
compact_nos id nos zero i j new = pure new
compact_nos id nos (suc r) i j new = do
  k ← or_fault (get_elem? nos i)
  if k == id
      then compact_nos id nos r (suc i) j new
      else or_fault (set new j k) >>= compact_nos id nos r (suc i) (suc j)

-- An entry of a table as the rest of the program sees it: a handle and the number it goes by.
pub record Entry : Type 0 where
  pub handle : ℕ
  pub no : ℕ

abbrev pub handles : List Entry → List ℕ
handles = map λ e. e.handle

abbrev pub numbers : List Entry → List ℕ
numbers = map λ e. e.no

-- The entries that do not go by the number.
abbrev pub kept : ℕ → List Entry → List Entry
kept id = keep_if λ e. not (e.no == id)

-- The log after the entries that go by the number have been removed, in order.
abbrev pub removals : (ℕ → Call) → ℕ → List Entry → List Call → List Call
removals remove id [] log = log
removals remove id (e ∷ es) log =
    removals remove id es (if e.no == id then remove e.handle ∷ log else log)

pub seoe-ok :
    (env : Environment) (c : Call) (s : Peer)
    → (env.reply s.log c).ok ≡ true
    → seoe env c s ≡ done (env.reply s.log c) (logged c s)
unfolding seoe
seoe-ok env c s h = ground arith

module _ (env : Environment) (key : ℕ → Option ℕ) (remove : ℕ → Call) (id : ℕ) (old : Array)
    (removes : (log : List Call) (h : ℕ) → (env.reply log (remove h)).ok ≡ true) where
  compact-nil :
      (i j : ℕ) (new : Array) (s : Peer) → compact env key remove id old 0 i j new s ≡ done new s
  unfolding compact
  compact-nil i j new s = refl

  compact-hit :
      (r i j : ℕ) (new : Array) (s : Peer) {k h : ℕ}
      → key i ≡ some k
      → get_elem? old i ≡ some h
      → (k == id) ≡ true
      → compact env key remove id old (suc r) i j new s
        ≡ compact env key remove id old r (suc i) j new (logged (remove h) s)
  unfolding compact
  compact-hit r i j new s {h} ek eh t = rw (ek, eh, t, seoe-ok env (remove h) s (removes s.log h))

  compact-keep :
      (r i j : ℕ) (new : Array) (s : Peer) {k h : ℕ}
      → key i ≡ some k
      → get_elem? old i ≡ some h
      → (k == id) ≡ false
      → compact env key remove id old (suc r) i j new s
        ≡ (or_fault (set new j h) >>= compact env key remove id old r (suc i) (suc j)) s
  unfolding compact
  compact-keep r i j new s ek eh t = rw (ek, eh, t)

  -- With room for what stays, the loop copies it in order behind what the new array holds, and has
  -- removed the rest.
  compact_lem :
      (es : List Entry) (i j : ℕ) (new : Array) (ys : List ℕ) (s : Peer)
      → Reads key i (numbers es)
      → Holds old i (handles es)
      → Holds new 0 ys
      → 0 + length ys ≡ j
      → j + length (kept id es) ≤ new.cap
      → (new' : Array) × (compact env key remove id old (length es) i j new s
          ≡ done new' (record s { log = removals remove id es s.log }))
        × Holds new' 0 (ys ++ handles (kept id es))
        × (new'.cap ≡ new.cap)
  compact_lem [] i j new ys s ks hs ny len room =
      (new, compact-nil i j new s, rw append-nil ny, refl)
  compact_lem (e ∷ es) i j new ys s ks hs ny len room = elim (Bool-cases (e.no == id)) [
    | inl hit ↦
        let rest =
          compact_lem es (suc i) j new ys (logged (remove e.handle) s) ks.1 hs.1 ny len
            (rw hit at room) in
        rw hit (rest.0, compact-hit (length es) i j new s ks.0 hs.0 hit ∙ rest.1, rest.2, rest.3)
    | inr miss ↦
        let room' : suc j + length (kept id es) ≤ new.cap =
          omega (arith, let r : j + suc (length (kept id es)) ≤ new.cap = rw miss at room in r) in
        let w = set_in new j e.handle (omega arith) in
        let rest =
          compact_lem es (suc i) (suc j) w.0 (ys ++ e.handle ∷ []) s ks.1 hs.1
            (Holds-set_last new w.0 0 j e.handle ys len w.1 ny)
            (omega (arith, length-append ys (e.handle ∷ []))) (rw w.2 room') in
        rw miss (
          rest.0,
          compact-keep (length es) i j new s ks.0 hs.0 miss ∙ rw w.1 rest.1,
          rw append_assoc at rest.2,
          rest.3 ∙ w.2,
        )
  ]

  -- The loop as the callers run it: from the start, into a new array, over the whole table.
  pub compact-table :
      (es : List Entry) (n : ℕ) (new : Array) (s : Peer)
      → n ≡ length es
      → Reads key 0 (numbers es)
      → Holds old 0 (handles es)
      → length (kept id es) ≤ new.cap
      → (new' : Array) × (compact env key remove id old n 0 0 new s
          ≡ done new' (record s { log = removals remove id es s.log }))
        × Holds new' 0 (handles (kept id es))
        × (new'.cap ≡ new.cap)
  compact-table es n new s e ks hs room =
      let c = compact_lem es 0 0 new [] s ks hs tt refl (omega arith) in (c.0, rw e c.1, c.2, c.3)

  -- Without room for what stays, the loop writes behind the end of the new array.
  compact_overflow :
      (es : List Entry) (i j : ℕ) (new : Array) (s : Peer)
      → Reads key i (numbers es)
      → Holds old i (handles es)
      → j ≤ new.cap
      → new.cap < j + length (kept id es)
      → compact env key remove id old (length es) i j new s ≡ fault
  compact_overflow [] i j new s ks hs le over = absurd (omega arith)
  compact_overflow (e ∷ es) i j new s ks hs le over = elim (Bool-cases (e.no == id)) [
    | inl hit ↦
        compact-hit (length es) i j new s ks.0 hs.0 hit
        ∙ compact_overflow es (suc i) j new (logged (remove e.handle) s) ks.1 hs.1 le
            (rw hit at over)
    | inr miss ↦
        let over' : new.cap < j + suc (length (kept id es)) = rw miss at over in
        compact-keep (length es) i j new s ks.0 hs.0 miss ∙ elim (dec_lt j new.cap) [
          | yes lt ↦
              let w = set_in new j e.handle lt in
              rw w.1 (
                compact_overflow es (suc i) (suc j) w.0 s ks.1 hs.1 (omega (arith, w.2))
                  (omega (arith, w.2, over')))
          | no ge ↦ rw (set_out new j e.handle (omega arith))
        ]
  ]

  pub compact_overflow-table :
      (es : List Entry) (n : ℕ) (new : Array) (s : Peer)
      → n ≡ length es
      → Reads key 0 (numbers es)
      → Holds old 0 (handles es)
      → new.cap < length (kept id es)
      → compact env key remove id old n 0 0 new s ≡ fault
  compact_overflow-table es n new s e ks hs over =
      rw e (compact_overflow es 0 0 new s ks hs (omega arith) (omega arith))

-- The loop over the numbers keeps the same entries as the loop over the handles.
compact_nos_lem :
    (id : ℕ) (nos : Array) (es : List Entry) (i j : ℕ) (new : Array) (ys : List ℕ) (s : Peer)
    → Holds nos i (numbers es)
    → Holds new 0 ys
    → 0 + length ys ≡ j
    → j + length (kept id es) ≤ new.cap
    → (new' : Array) × (compact_nos id nos (length es) i j new s ≡ done new' s)
      × Holds new' 0 (ys ++ numbers (kept id es))
unfolding compact_nos
compact_nos_lem id nos [] i j new ys s ks ny len room = (new, refl, rw append-nil ny)
compact_nos_lem id nos (e ∷ es) i j new ys s ks ny len room = elim (Bool-cases (e.no == id)) [
  | inl hit ↦
      let rest = compact_nos_lem id nos es (suc i) j new ys s ks.1 ny len (rw hit at room) in
      rw (ks.0, hit) (rest.0, rest.1, rest.2)
  | inr miss ↦
      let room' : j + suc (length (kept id es)) ≤ new.cap = rw miss at room in
      let w = set_in new j e.no (omega (arith, room')) in
      let rest =
        compact_nos_lem id nos es (suc i) (suc j) w.0 (ys ++ e.no ∷ []) s ks.1
          (Holds-set_last new w.0 0 j e.no ys len w.1 ny)
          (omega (arith, length-append ys (e.no ∷ []))) (omega (arith, w.2, room')) in
      rw (ks.0, miss) (rest.0, rw w.1 rest.1, rw append_assoc at rest.2)
]

pub compact_nos-table :
    (id : ℕ) (nos : Array) (es : List Entry) (n : ℕ) (new : Array) (s : Peer)
    → n ≡ length es
    → Holds nos 0 (numbers es)
    → length (kept id es) ≤ new.cap
    → (new' : Array) × (compact_nos id nos n 0 0 new s ≡ done new' s)
      × Holds new' 0 (numbers (kept id es))
compact_nos-table id nos es n new s e ks room =
    let c = compact_nos_lem id nos es 0 0 new [] s ks tt refl (omega arith) in (c.0, rw e c.1, c.2)

-- Over an empty table neither loop makes a round.
pub compact_none :
    (env : Environment) (key : ℕ → Option ℕ) (remove : ℕ → Call) (id : ℕ) (old : Array) (n : ℕ)
    (new : Array) (s : Peer)
    → n ≡ 0
    → compact env key remove id old n 0 0 new s ≡ done new s
unfolding compact
compact_none env key remove id old n new s z = rw z

pub compact_nos_none :
    (id : ℕ) (nos : Array) (n : ℕ) (new : Array) (s : Peer)
    → n ≡ 0
    → compact_nos id nos n 0 0 new s ≡ done new s
unfolding compact_nos
compact_nos_none id nos n new s z = rw z
