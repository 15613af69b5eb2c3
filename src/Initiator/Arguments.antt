-- ===== src/Initiator/Arguments.antt =====
-- What the initiator's arguments have to be.
use sisci_perf.Common.{
  ℕ, suc, ◌<◌, ◌≤◌, ◌≡◌, refl, ap, subst, ◌||◌, not, Option, none, some, List, [], ◌∷◌, arith,
  length, ltb, ◌==◌, if◌then◌else◌, Bool-cases, inl, inr,
}
use sisci_perf.Protocol.{uint_mod}
use sisci_perf.Peer.Boot.{Parsed}
use sisci_perf.Initiator.Main.{
  max_peers, read_number, then_also, with_ids, read_ids, read_peers, read_arguments,
}

abbrev pub AllFit : List ℕ → Type 0
AllFit [] = Unit {0}
AllFit (id ∷ ids) = (id < uint_mod) × AllFit ids

-- What main goes on with.
pub record Accepted (num_peers : ℕ) (ids : List ℕ) : Type 0 where
  pub some_peer : 0 < num_peers
  pub in_arrays : num_peers ≤ max_peers
  pub one_each : length ids ≡ num_peers
  pub fit : AllFit ids

read_number-bounds :
    (strtol : List ℕ → Parsed) (low n : ℕ) (arg : List ℕ)
    → read_number strtol low arg ≡ some n
    → (low ≤ n) × (n < uint_mod)
unfolding read_number
read_number-bounds strtol low n arg e = ground arith

read_ids-AllFit :
    (strtol : List ℕ → Parsed) (args : List (List ℕ)) (ids : List ℕ)
    → read_ids strtol args ≡ some ids
    → (length ids ≡ length args) × AllFit ids
unfolding read_ids
read_ids-AllFit strtol [] ids e =
    let i : [] ≡ ids = cc in subst (λ l. (length l ≡ 0) × AllFit l) i (refl, tt)
read_ids-AllFit strtol (arg ∷ args) ids e =
    split (read_number strtol 0 arg) (read_ids strtol args) refl refl e
      (λ rest er. read_ids-AllFit strtol args rest er)
  where
    split :
        (n : Option ℕ) (r : Option (List ℕ))
        → read_number strtol 0 arg ≡ n
        → read_ids strtol args ≡ r
        → then_also n r ≡ some ids
        → ((rest : List ℕ)
            → read_ids strtol args ≡ some rest
            → (length rest ≡ length args) × AllFit rest)
        → (length ids ≡ suc (length args)) × AllFit ids
    split none r en er e' all = absurd (cc)
    split (some n) none en er e' all = absurd (cc)
    split (some n) (some rest) en er e' all =
        let i : n ∷ rest ≡ ids = cc in
        let b = read_number-bounds strtol 0 n arg en in
        let f = all rest er in
        subst (λ l. (length l ≡ suc (length args)) × AllFit l) i (ap suc f.0, (b.1, f.1))

read_peers-Accepted :
    (strtol : List ℕ → Parsed) (args : List (List ℕ)) (n num_peers : ℕ) (r : Option (List ℕ))
    (ids : List ℕ)
    → 0 < n
    → read_ids strtol args ≡ r
    → (if ltb max_peers n || not (length args == n) then none else with_ids n r)
      ≡ some (num_peers, ids)
    → Accepted num_peers ids
read_peers-Accepted strtol args n num_peers none ids pos er e =
    elim (Bool-cases (ltb max_peers n || not (length args == n))) [
      | inl bad ↦ absurd (let c = rw bad at e in cc)
      | inr good ↦ absurd (let c = rw good at e in cc)
    ]
read_peers-Accepted strtol args n num_peers (some l) ids pos er e =
    elim (Bool-cases (ltb max_peers n || not (length args == n))) [
      | inl bad ↦ absurd (let c = rw bad at e in cc)
      | inr good ↦
          let c : Path (Option (ℕ × List ℕ)) (some (n, l)) (some (num_peers, ids)) = rw good at e in
          let en : n ≡ num_peers = cc in
          let el : l ≡ ids = cc in
          let f = read_ids-AllFit strtol args l er in
          let fit : AllFit ids = subst AllFit el f.1 in
          let same : length ids ≡ length args = subst (λ k. length k ≡ length args) el f.0 in
          let le : n ≤ max_peers = ground arith in
          let counted : length args ≡ n = ground arith in
          record {
            some_peer = omega arith;
            in_arrays = omega arith;
            one_each = omega arith;
            fit = fit;
          }
    ]

-- Arguments that main accepts give at least one peer and at most MAX_PEERS, the length of the
-- experiments' arrays, and exactly one id for each, which fits an unsigned int.
pub read_arguments-Accepted :
    (strtol : List ℕ → Parsed) (argv : List (List ℕ)) (num_peers : ℕ) (ids : List ℕ)
    → read_arguments strtol argv ≡ some (num_peers, ids)
    → Accepted num_peers ids
unfolding read_arguments read_peers
read_arguments-Accepted strtol [] num_peers ids e = absurd (cc)
read_arguments-Accepted strtol (name ∷ []) num_peers ids e = absurd (cc)
read_arguments-Accepted strtol (name ∷ first ∷ []) num_peers ids e = absurd (cc)
read_arguments-Accepted strtol (name ∷ first ∷ arg ∷ args) num_peers ids e =
    split (read_number strtol 1 first) refl e
  where
    split :
        (n : Option ℕ)
        → read_number strtol 1 first ≡ n
        → read_peers strtol n (arg ∷ args) ≡ some (num_peers, ids)
        → Accepted num_peers ids
    split none en e' = absurd (cc)
    split (some n) en e' =
        let b = read_number-bounds strtol 1 n first en in
        read_peers-Accepted strtol (arg ∷ args) n num_peers (read_ids strtol (arg ∷ args)) ids b.0
          refl e'
