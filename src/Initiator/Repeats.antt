-- ===== src/Initiator/Repeats.antt =====
-- The rules of `Ends` for parts of a run and for its loops.
use sisci_perf.Common.{
  ℕ, zero, suc, ◌+◌, ◌*◌, ◌≤◌, ◌<◌, ◌≡◌, ◌⊎◌, inl, inr, refl, sym, subst, ap, true, false, List, [],
  ◌∷◌, arith, leb, Bool-cases, dec_lt,
}
use sisci_perf.Initiator.Service.{PeerService}
use sisci_perf.Initiator.World.{hold_all, Action, remote_segment, start_sequence, needs}
use sisci_perf.Initiator.Host.{
  SequenceStatus, sequence_ok, sequence_pending, sequence_refused, Adapter, Host, Mishap, bad_id,
  Outcome, returned, stopped, unfinished, undefined, after, return, Program, ◌>>=◌, ◌>>◌,
  get_remote_segment_id, started, start_until_ok, doubling, counting,
}
use sisci_perf.Initiator.Ends.{refused, Ends, Meets, bind_meets}

after-return :
    {S B : Type 0} (r : Outcome S (Unit {0})) (k : Unit {0} → Program S B)
    → after (after r (λ _. return tt)) k ≡ after r k
after-return (returned a w) k = refl
after-return (stopped w) k = refl
after-return (unfinished w) k = refl
after-return (undefined r) k = refl

-- The rounds of `doubling`.
unfoldable pub doublings : (fuel last size : ℕ) → ℕ
doublings zero last size = 0
doublings (suc fuel) last size = elim (leb size last) [
  | true ↦ suc (doublings fuel last (size * 2))
  | false ↦ 0
]

doublings_more :
    (fuel last size : ℕ)
    → leb size last ≡ true
    → doublings (suc fuel) last size ≡ suc (doublings fuel last (size * 2))
unfolding doublings
doublings_more fuel last size e =
    ap (λ b. elim b [ true ↦ suc (doublings fuel last (size * 2)) | false ↦ 0 ]) e

doublings_over : (fuel last size : ℕ) → leb size last ≡ false → doublings (suc fuel) last size ≡ 0
unfolding doublings
doublings_over fuel last size e =
    ap (λ b. elim b [ true ↦ suc (doublings fuel last (size * 2)) | false ↦ 0 ]) e

pub earlier : (n m : ℕ) → n < suc m → (n < m) ⊎ (n ≡ m)
earlier n m lt = elim (dec_lt n m) [ yes l ↦ inl l | no g ↦ inr (omega arith) ]

-- Only the log has grown.
abbrev pub Logged : {S : Type 0} → Host S → Host S → Type 0
Logged w w' = (log : List Action) × (w' ≡ record w { log = log })

module _ (P : PeerService) where
  -- A part that opens and closes nothing.
  pub quietly :
      {adapter : Adapter} {U : Mishap → Type 0} {B : Type 0} {Q : B → Host P.State → Type 0}
      {w : Host P.State} (m : Program P.State (Unit {0}))
      → (k : Unit {0} → Program P.State B) → Meets adapter U m w (λ _ w'. Logged w w')
      → ((log : List Action) → Meets adapter U (k tt) (record w { log = log }) Q)
      → Meets adapter U (m >>= k) w Q
  quietly {adapter = adapter} {U = U} {Q = Q} m k h then =
      bind_meets h (λ a w' l. subst (λ v. Meets adapter U (k tt) v Q) (sym l.1) (then l.0))

  -- A handle that is asked for its id when it is not open any more.
  pub dead :
      {adapter : Adapter} {U : Mishap → Type 0} {B : Type 0} {Q : B → Host P.State → Type 0}
      {w : Host P.State}
      → (i : ℕ) (k : ℕ → Program P.State B) → hold_all (remote_segment i ∷ []) w.held ≡ false
      → U (bad_id i)
      → Meets adapter U (get_remote_segment_id P adapter i >>= k) w Q
  unfolding get_remote_segment_id ◌>>=◌
  dead i k closed u = record { ends = rw closed u }

  -- A part that has no defined way to its end.
  pub never :
      {adapter : Adapter} {U : Mishap → Type 0} {A B : Type 0} {Q : B → Host P.State → Type 0}
      → {w : Host P.State} (m : Program P.State A) (k : A → Program P.State B)
      → Meets adapter U m w (λ _ _. ⊥)
      → Meets adapter U (m >>= k) w Q
  never m k h = bind_meets h (λ a w' impossible. absurd impossible)

  -- The first round of a loop, where that is all that matters, or all that there is.
  pub counting_first :
      {adapter : Adapter} {U : Mishap → Type 0} {Q : Unit {0} → Host P.State → Type 0}
      {w : Host P.State}
      → (r from : ℕ) (body : ℕ → Program P.State (Unit {0}))
      → Meets adapter U (body from) w (λ _ _. ⊥)
      → Meets adapter U (counting P adapter (suc r) from body) w Q
  unfolding counting
  counting_first r from body h = never _ _ h

  -- The first round apart from the others.
  pub counting_rest :
      {adapter : Adapter} {U : Mishap → Type 0} {Q : Unit {0} → Host P.State → Type 0}
      {I : Host P.State → Type 0} {w : Host P.State}
      → (r from : ℕ) (body : ℕ → Program P.State (Unit {0}))
      → Meets adapter U (body from) w (λ _. I)
      → ((v : Host P.State) → I v → Meets adapter U (counting P adapter r (suc from) body) v Q)
      → Meets adapter U (counting P adapter (suc r) from body) w Q
  unfolding counting
  counting_rest r from body first then = bind_meets first (λ _ v i. then v i)

  pub counting_once :
      {adapter : Adapter} {U : Mishap → Type 0} {Q : Unit {0} → Host P.State → Type 0}
      {w : Host P.State}
      → (from : ℕ) (body : ℕ → Program P.State (Unit {0}))
        (k : Unit {0} → Program P.State (Unit {0}))
      → Meets adapter U (body from >>= k) w Q
      → Meets adapter U (counting P adapter 1 from body >>= k) w Q
  unfolding counting ◌>>=◌
  counting_once {w = w} from body k h = record { ends = rw (after-return (body from w) k) h.ends }

  started_meets :
      (adapter : Adapter) (U : Mishap → Type 0) (w : Host P.State) (s : SequenceStatus)
      (attempt : ℕ) (again : Program P.State (Unit {0}))
      → (adapter.status attempt w.log ≡ s)
      → (s ≡ sequence_pending → Ends adapter U (λ _ w'. Logged w w') (again w))
      → Ends adapter U (λ _ w'. Logged w w') (started P adapter s again w)
  started_meets adapter U w sequence_ok attempt again e then = (w.log, refl)
  started_meets adapter U w sequence_pending attempt again e then = then refl
  started_meets adapter U w sequence_refused attempt again e then = refused attempt e

  start_lem :
      (adapter : Adapter) (U : Mishap → Type 0) (i fuel attempt : ℕ) (w : Host P.State)
      → hold_all (needs (start_sequence i)) w.held ≡ true
      → attempt + fuel ≡ adapter.patience
      → ((n : ℕ) → n < attempt → adapter.status n w.log ≡ sequence_pending)
      → Ends adapter U (λ _ w'. Logged w w') (start_until_ok P adapter fuel attempt i w)
  unfolding start_until_ok
  start_lem adapter U i zero attempt w held e before = λ n lt. before n (omega arith)
  start_lem adapter U i (suc fuel) attempt w held e before = rw held (
      started_meets adapter U w (adapter.status attempt w.log) attempt
        (start_until_ok P adapter fuel (suc attempt) i) refl
        (λ now.
          start_lem adapter U i fuel (suc attempt) w held (omega arith)
            (λ n lt. elim (earlier n attempt lt) [ inl b ↦ before n b | inr e' ↦ rw (e', now) ])))

  pub start_until_ok_meets :
      {adapter : Adapter} {U : Mishap → Type 0} (i : ℕ) {w : Host P.State}
      → hold_all (needs (start_sequence i)) w.held ≡ true
      → Meets adapter U (start_until_ok P adapter adapter.patience 0 i) w (λ _ w'. Logged w w')
  start_until_ok_meets {adapter = adapter} {U = U} i {w} held = record {
    ends =
        start_lem adapter U i adapter.patience 0 w held (omega arith)
          (λ n lt. absurd (omega arith));
  }

  -- Enough fuel: each round at least adds one to the size.
  pub doubling_meets :
      {adapter : Adapter} {U : Mishap → Type 0} (IsSize : ℕ → Type 0)
      (I : ℕ → Host P.State → Type 0) (fuel last size : ℕ)
      → (body : ℕ → Program P.State (Unit {0}))
      → ((r n : ℕ) (w' : Host P.State)
          → n ≤ last
          → 0 < n
          → IsSize n
          → I r w'
          → Meets adapter U (body n) w' (λ _. I (suc r)))
      → ((n : ℕ) → IsSize n → IsSize (n * 2))
      → 0 < size
      → 0 < fuel
      → last + 1 < size + fuel
      → IsSize size
      → (r : ℕ) (w : Host P.State) → I r w
      → Meets adapter U
          (doubling P adapter fuel last size body)
          w
          (λ _. I (r + doublings fuel last size))
  unfolding doubling
  doubling_meets {adapter = adapter} {U = U} IsSize I zero last size body each twice pos some'
        enough is r w i =
      absurd (omega arith)
  doubling_meets {adapter = adapter} {U = U} IsSize I (suc fuel) last size body each twice pos some'
        enough is r w i =
      elim (Bool-cases (leb size last)) [
        | inl more ↦
            let le : size ≤ last = ground arith in
            let n = r + suc (doublings fuel last (size * 2)) in
            let round : Meets adapter U (body size >> doubling P adapter fuel last (size * 2) body)
                w (λ _. I n) =
              bind_meets (each r size w le pos is i) (λ _ w' i'.
                subst
                  (λ m.
                    Meets adapter U (doubling P adapter fuel last (size * 2) body) w' (λ _. I m))
                  (omega arith)
                  (doubling_meets IsSize I fuel last (size * 2) body each twice (omega arith)
                    (omega arith) (omega arith) (twice size is) (suc r) w' i')) in
            record { ends = rw (more, doublings_more fuel last size more) round.ends }
        | inr over ↦
            let stay : r + 0 ≡ r = omega arith in
            record { ends = rw (over, doublings_over fuel last size over, stay) i }
      ]

  -- Rounds that open and close nothing.
  pub doubling_quietly :
      {adapter : Adapter} {U : Mishap → Type 0} (fuel last size : ℕ)
      (body : ℕ → Program P.State (Unit {0}))
      → (w : Host P.State)
      → ((n : ℕ) (log : List Action)
          → Meets adapter U (body n) (record w { log = log }) (λ _ w'. Logged w w'))
      → 0 < size
      → 0 < fuel
      → last + 1 < size + fuel
      → Meets adapter U (doubling P adapter fuel last size body) w (λ _ w'. Logged w w')
  doubling_quietly {adapter = adapter} {U = U} fuel last size body w each pos some' enough =
      doubling_meets (λ n. Unit {0}) (λ _. Logged w) fuel last size body
        (λ r n w' le pos' known l.
          subst (λ v. Meets adapter U (body n) v (λ _. Logged w)) (sym l.1) (each n l.0))
        (λ n known. tt) pos some' enough tt 0 w (w.log, refl)

  pub counting_meets :
      {adapter : Adapter} {U : Mishap → Type 0} (I : ℕ → Host P.State → Type 0) (rounds from : ℕ)
      (body : ℕ → Program P.State (Unit {0}))
      → ((i : ℕ) (w : Host P.State)
          → i < from + rounds
          → I i w
          → Meets adapter U (body i) w (λ _. I (suc i)))
      → (w : Host P.State) → I from w
      → Meets adapter U (counting P adapter rounds from body) w (λ _. I (from + rounds))
  unfolding counting
  counting_meets {adapter = adapter} {U = U} I zero from body each w i = record {
    ends = subst (λ n. I n w) (omega arith) i;
  }
  counting_meets {adapter = adapter} {U = U} I (suc r) from body each w i =
      bind_meets (each from w (omega arith) i) (λ _ w' i'.
        subst (λ n. Meets adapter U (counting P adapter r (suc from) body) w' (λ _. I n))
          (omega arith)
          (counting_meets I r (suc from) body (λ j v lt. each j v (omega arith)) w' i'))
