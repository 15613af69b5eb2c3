-- ===== src/PingPong/Holding.antt =====
-- What the thread of a ping-pong holds, through every run.
use sisci_perf.Common.{ℕ, ◌≡◌, refl, ◌∙◌, Bool, true, false, List, [], ◌∷◌}
use sisci_perf.PingPong.Thread.{
  ThreadAt, copying, mapping, awaiting, connecting, mapping_remote, creating_sequence,
  starting_sequence, pushing, switching, bouncing, removing_sequence, unmapping, unmapping_remote,
  disconnecting, gone, exited, astray, misused, Store, segment_id, clear_counter, initiator_ready,
  Thread, land, cancel_at, cancel_if, Run, creates, steps, leaves, stores, cancels, acts,
}
use sisci_perf.PingPong.Stations.{
  Fits, InOrder, all_coming, id_there, cleared, all_there, Sound, kept, thread_at-Sound,
}

-- What does not touch what the thread holds does not touch this.
Fits-same :
    (number : ℕ) (at : ThreadAt) (t u : Thread)
    → u.held ≡ t.held
    → u.connected_to ≡ t.connected_to
    → (t.ready ≡ true → u.ready ≡ true)
    → (t.in_block ≡ false → u.in_block ≡ false)
    → Fits number at t
    → Fits number at u
Fits-same number copying t u held connected ready block fits = held ∙ fits
Fits-same number mapping t u held connected ready block fits = held ∙ fits
Fits-same number awaiting t u held connected ready block fits = held ∙ fits
Fits-same number removing_sequence t u held connected ready block fits = held ∙ fits
Fits-same number unmapping t u held connected ready block fits = held ∙ fits
Fits-same number unmapping_remote t u held connected ready block fits = held ∙ fits
Fits-same number disconnecting t u held connected ready block fits = held ∙ fits
Fits-same number (gone true) t u held connected ready block fits = held ∙ fits
Fits-same number mapping_remote t u held connected ready block fits =
    (held ∙ fits.0, connected ∙ fits.1)
Fits-same number creating_sequence t u held connected ready block fits =
    (held ∙ fits.0, connected ∙ fits.1)
Fits-same number starting_sequence t u held connected ready block fits =
    (held ∙ fits.0, connected ∙ fits.1)
Fits-same number pushing t u held connected ready block fits = (held ∙ fits.0, connected ∙ fits.1)
Fits-same number switching t u held connected ready block fits = (held ∙ fits.0, connected ∙ fits.1)
Fits-same number bouncing t u held connected ready block fits = (held ∙ fits.0, connected ∙ fits.1)
Fits-same number connecting t u held connected ready block fits = (held ∙ fits.0, ready fits.1)
Fits-same number (gone false) t u held connected ready block fits = tt
Fits-same number exited t u held connected ready block fits = tt
Fits-same number astray t u held connected ready block fits = block fits
Fits-same number misused t u held connected ready block fits = absurd fits

abbrev id_after : Store → ℕ → ℕ
id_after (segment_id n) id = n
id_after clear_counter id = id
id_after initiator_ready id = id

abbrev ready_after : Store → Bool → Bool
ready_after (segment_id n) ready = ready
ready_after clear_counter ready = ready
ready_after initiator_ready ready = true

InOrder-next :
    (number : ℕ) (c : Store) (rest : List Store) (id : ℕ) (ready : Bool)
    → InOrder number (c ∷ rest) id ready
    → InOrder number rest (id_after c id) (ready_after c ready)
InOrder-next number _ _ _ _ all_coming = id_there
InOrder-next number _ _ _ _ id_there = cleared
InOrder-next number _ _ _ _ cleared = all_there

land-Sound :
    (number : ℕ) (coming : List Store) (t : Thread)
    → t.coming ≡ coming
    → Sound number t
    → Sound number (land coming t)
unfolding land
land-Sound number [] t e sound = sound
land-Sound number (segment_id n ∷ rest) t e sound = record {
  fits = Fits-same number t.at t _ refl refl (λ r. r) (λ b. b) sound.fits;
  in_order = InOrder-next number (segment_id n) rest t.id t.ready (rw e at sound.in_order);
}
land-Sound number (clear_counter ∷ rest) t e sound = record {
  fits = Fits-same number t.at t _ refl refl (λ r. r) (λ b. b) sound.fits;
  in_order = InOrder-next number clear_counter rest t.id t.ready (rw e at sound.in_order);
}
land-Sound number (initiator_ready ∷ rest) t e sound = record {
  fits = Fits-same number t.at t _ refl refl (λ r. refl) (λ b. b) sound.fits;
  in_order = InOrder-next number initiator_ready rest t.id t.ready (rw e at sound.in_order);
}

cancel_at-Sound :
    (number : ℕ) (at : ThreadAt) (t : Thread)
    → t.at ≡ at
    → Fits number at t
    → InOrder number t.coming t.id t.ready
    → Sound number (cancel_at at t)
unfolding cancel_at
cancel_at-Sound number bouncing t e fits in_order = record { fits = fits.0; in_order = in_order }
cancel_at-Sound number mapping t e fits in_order = record { fits = tt; in_order = in_order }
cancel_at-Sound number awaiting t e fits in_order = record { fits = tt; in_order = in_order }
cancel_at-Sound number connecting t e fits in_order = record { fits = tt; in_order = in_order }
cancel_at-Sound number mapping_remote t e fits in_order = record { fits = tt; in_order = in_order }
cancel_at-Sound number creating_sequence t e fits in_order = record {
  fits = tt;
  in_order = in_order;
}
cancel_at-Sound number starting_sequence t e fits in_order = record {
  fits = tt;
  in_order = in_order;
}
cancel_at-Sound number copying t e fits in_order = kept number copying t e fits in_order
cancel_at-Sound number pushing t e fits in_order = kept number pushing t e fits in_order
cancel_at-Sound number switching t e fits in_order = kept number switching t e fits in_order
cancel_at-Sound number removing_sequence t e fits in_order =
    kept number removing_sequence t e fits in_order
cancel_at-Sound number unmapping t e fits in_order = kept number unmapping t e fits in_order
cancel_at-Sound number unmapping_remote t e fits in_order =
    kept number unmapping_remote t e fits in_order
cancel_at-Sound number disconnecting t e fits in_order = kept number disconnecting t e fits in_order
cancel_at-Sound number (gone b) t e fits in_order = kept number (gone b) t e fits in_order
cancel_at-Sound number exited t e fits in_order = kept number exited t e fits in_order
cancel_at-Sound number astray t e fits in_order = kept number astray t e fits in_order
cancel_at-Sound number misused t e fits in_order = absurd fits

cancel_if-Sound :
    (number : ℕ) (cancelled : Bool) (t : Thread)
    → Sound number t
    → Sound number (cancel_if cancelled t)
unfolding cancel_if
cancel_if-Sound number true t sound = cancel_at-Sound number t.at t refl sound.fits sound.in_order
cancel_if-Sound number false t sound = sound

pub Run-Sound : (number : ℕ) (t : Thread) → Run number t → Sound number t
Run-Sound number _ creates = record { fits = refl; in_order = all_coming }
Run-Sound number _ (steps {t} ok before) =
    let sound = Run-Sound number t before in
    thread_at-Sound number t.at ok t refl sound.fits sound.in_order
Run-Sound number _ (leaves {t} before) =
    let sound = Run-Sound number t before in
    record {
      fits = Fits-same number t.at t _ refl refl (λ r. r) (λ b. refl) sound.fits;
      in_order = sound.in_order;
    }
Run-Sound number _ (stores {t} before) =
    land-Sound number t.coming t refl (Run-Sound number t before)
Run-Sound number _ (cancels {t} before) =
    let sound = Run-Sound number t before in
    record {
      fits = Fits-same number t.at t _ refl refl (λ r. r) (λ b. b) sound.fits;
      in_order = sound.in_order;
    }
Run-Sound number _ (acts {t} before) =
    cancel_if-Sound number t.cancelled t (Run-Sound number t before)
