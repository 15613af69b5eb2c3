-- ===== src/PingPong/Stations.antt =====
-- Where the thread of a ping-pong can stand, what it holds there, and that its steps keep to it.
use sisci_perf.Common.{
  ℕ, ◌≡◌, inl, inr, refl, sym, subst, ap, Bool, true, false, some, List, [], ◌∷◌, Bool-cases,
}
use sisci_perf.PingPong.Thread.{
  ThreadAt, copying, mapping, awaiting, connecting, mapping_remote, creating_sequence,
  starting_sequence, pushing, switching, bouncing, removing_sequence, unmapping, unmapping_remote,
  disconnecting, gone, exited, astray, misused, Handle, map, remote_segment, remote_map, sequence,
  Store, segment_id, clear_counter, initiator_ready, Thread, close, poll, thread_at,
}

abbrev pub everything : List Handle
everything = sequence ∷ remote_map ∷ remote_segment ∷ map ∷ []

-- What holds of the thread where it stands.
abbrev pub Fits : (number : ℕ) → ThreadAt → Thread → Type 0
Fits number copying t = t.held ≡ []
Fits number mapping t = t.held ≡ []
Fits number awaiting t = t.held ≡ map ∷ []
Fits number connecting t = (t.held ≡ map ∷ []) × (t.ready ≡ true)
Fits number mapping_remote t = (t.held ≡ remote_segment ∷ map ∷ []) × (t.connected_to ≡ some number)
Fits number creating_sequence t =
    (t.held ≡ remote_map ∷ remote_segment ∷ map ∷ []) × (t.connected_to ≡ some number)
Fits number starting_sequence t = (t.held ≡ everything) × (t.connected_to ≡ some number)
Fits number pushing t = (t.held ≡ everything) × (t.connected_to ≡ some number)
Fits number switching t = (t.held ≡ everything) × (t.connected_to ≡ some number)
Fits number bouncing t = (t.held ≡ everything) × (t.connected_to ≡ some number)
Fits number removing_sequence t = t.held ≡ everything
Fits number unmapping t = t.held ≡ remote_map ∷ remote_segment ∷ map ∷ []
Fits number unmapping_remote t = t.held ≡ remote_map ∷ remote_segment ∷ []
Fits number disconnecting t = t.held ≡ remote_segment ∷ []
Fits number (gone true) t = t.held ≡ []
Fits number (gone false) t = Unit {0}
Fits number exited t = Unit {0}
Fits number astray t = t.in_block ≡ false
Fits number misused t = ⊥

-- The initiator's stores land in order.
pub data InOrder (number : ℕ) : List Store → (id : ℕ) → (ready : Bool) → Type 0 where
  all_coming : InOrder number (segment_id number ∷ clear_counter ∷ initiator_ready ∷ []) 0 false
  id_there : InOrder number (clear_counter ∷ initiator_ready ∷ []) number false
  cleared : InOrder number (initiator_ready ∷ []) number false
  all_there : InOrder number [] number true

InOrder-ready :
    (number id : ℕ) (coming : List Store) (ready : Bool)
    → InOrder number coming id ready
    → ready ≡ true
    → id ≡ number
InOrder-ready number _ _ _ all_coming e = cc
InOrder-ready number _ _ _ id_there e = cc
InOrder-ready number _ _ _ cleared e = cc
InOrder-ready number _ _ _ all_there e = refl

pub record Sound (number : ℕ) (t : Thread) : Type 0 where
  pub fits : Fits number t.at t
  pub in_order : InOrder number t.coming t.id t.ready

pub kept :
    (number : ℕ) (at : ThreadAt) (t : Thread)
    → t.at ≡ at
    → Fits number at t
    → InOrder number t.coming t.id t.ready
    → Sound number t
kept number at t e fits in_order = record {
  fits = subst (λ at. Fits number at t) (sym e) fits;
  in_order = in_order;
}

poll-Sound :
    (number : ℕ) (is_ready ok : Bool) (t : Thread)
    → t.at ≡ awaiting
    → t.ready ≡ is_ready
    → Fits number awaiting t
    → InOrder number t.coming t.id t.ready
    → Sound number (poll is_ready ok t)
unfolding poll
poll-Sound number true ok t e there fits in_order = record {
  fits = (fits, there);
  in_order = in_order;
}
poll-Sound number false true t e there fits in_order = kept number awaiting t e fits in_order
poll-Sound number false false t e there fits in_order = record { fits = tt; in_order = in_order }

pub thread_at-Sound :
    (number : ℕ) (at : ThreadAt) (ok : Bool) (t : Thread)
    → t.at ≡ at
    → Fits number at t
    → InOrder number t.coming t.id t.ready
    → Sound number (thread_at at ok t)
unfolding thread_at close
thread_at-Sound number copying ok t e fits in_order = elim (Bool-cases t.in_block) [
  | inl inside ↦ rw inside (record { fits = fits; in_order = in_order })
  | inr left ↦ rw left (record { fits = refl; in_order = in_order })
]
thread_at-Sound number awaiting ok t e fits in_order =
    poll-Sound number t.ready ok t e refl fits in_order
thread_at-Sound number mapping true t e fits in_order = record {
  fits = rw fits;
  in_order = in_order;
}
thread_at-Sound number connecting true t e fits in_order = record {
  fits = (rw fits.0, ap some (InOrder-ready number _ _ _ in_order fits.1));
  in_order = in_order;
}
thread_at-Sound number mapping_remote true t e fits in_order = record {
  fits = (rw fits.0, fits.1);
  in_order = in_order;
}
thread_at-Sound number creating_sequence true t e fits in_order = record {
  fits = (rw fits.0, fits.1);
  in_order = in_order;
}
thread_at-Sound number starting_sequence true t e fits in_order = record {
  fits = fits;
  in_order = in_order;
}
thread_at-Sound number mapping false t e fits in_order = record { fits = tt; in_order = in_order }
thread_at-Sound number connecting false t e fits in_order = record {
  fits = tt;
  in_order = in_order;
}
thread_at-Sound number mapping_remote false t e fits in_order = record {
  fits = tt;
  in_order = in_order;
}
thread_at-Sound number creating_sequence false t e fits in_order = record {
  fits = tt;
  in_order = in_order;
}
thread_at-Sound number starting_sequence false t e fits in_order = record {
  fits = tt;
  in_order = in_order;
}
thread_at-Sound number pushing ok t e fits in_order = record { fits = fits; in_order = in_order }
thread_at-Sound number switching ok t e fits in_order = record { fits = fits; in_order = in_order }
thread_at-Sound number bouncing ok t e fits in_order = kept number bouncing t e fits in_order
thread_at-Sound number (gone true) ok t e fits in_order = kept number (gone true) t e fits in_order
thread_at-Sound number (gone false) ok t e fits in_order =
    kept number (gone false) t e fits in_order
thread_at-Sound number exited ok t e fits in_order = kept number exited t e fits in_order
thread_at-Sound number astray ok t e fits in_order = kept number astray t e fits in_order
thread_at-Sound number misused ok t e fits in_order = absurd fits
thread_at-Sound number removing_sequence true t e fits in_order =
    rw fits (record { fits = refl; in_order = in_order })
thread_at-Sound number removing_sequence false t e fits in_order =
    rw fits (record { fits = tt; in_order = in_order })
thread_at-Sound number unmapping true t e fits in_order =
    rw fits (record { fits = refl; in_order = in_order })
thread_at-Sound number unmapping false t e fits in_order =
    rw fits (record { fits = tt; in_order = in_order })
thread_at-Sound number unmapping_remote true t e fits in_order =
    rw fits (record { fits = refl; in_order = in_order })
thread_at-Sound number unmapping_remote false t e fits in_order =
    rw fits (record { fits = tt; in_order = in_order })
thread_at-Sound number disconnecting true t e fits in_order =
    rw fits (record { fits = refl; in_order = in_order })
thread_at-Sound number disconnecting false t e fits in_order =
    rw fits (record { fits = tt; in_order = in_order })
