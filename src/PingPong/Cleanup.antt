-- ===== src/PingPong/Cleanup.antt =====
-- Theorems on the thread of a ping-pong around its loop.
use sisci_perf.Common.{ℕ, ◌≡◌, Bool, true, false, some, List, [], ◌∷◌, refl}
use sisci_perf.PingPong.Thread.{
  ThreadAt, copying, mapping, awaiting, connecting, mapping_remote, creating_sequence,
  starting_sequence, pushing, switching, bouncing, removing_sequence, unmapping, unmapping_remote,
  disconnecting, gone, exited, astray, misused, Handle, map, remote_segment, remote_map, Thread,
  thread_at, thread_step, leave_block, cancel, cancel_at, cancel_if, take_effect, Run, steps,
  leaves, cancels, acts,
}
use sisci_perf.PingPong.Stations.{everything, Fits}
use sisci_perf.PingPong.Holding.{Run-Sound}

-- What there is to say of the thread once it can be cancelled for good.
abbrev pub Outcome : (number : ℕ) → ThreadAt → Thread → Type 0
Outcome number bouncing t = (t.held ≡ everything) × (t.connected_to ≡ some number)
Outcome number (gone true) t = t.held ≡ []
Outcome number astray t = t.in_block ≡ false
Outcome number misused t = ⊥
Outcome number _ t = Unit {0}

Sound-Outcome : (number : ℕ) (at : ThreadAt) (t : Thread) → Fits number at t → Outcome number at t
Sound-Outcome number copying t fits = tt
Sound-Outcome number mapping t fits = tt
Sound-Outcome number awaiting t fits = tt
Sound-Outcome number connecting t fits = tt
Sound-Outcome number mapping_remote t fits = tt
Sound-Outcome number creating_sequence t fits = tt
Sound-Outcome number starting_sequence t fits = tt
Sound-Outcome number pushing t fits = tt
Sound-Outcome number switching t fits = tt
Sound-Outcome number bouncing t fits = fits
Sound-Outcome number removing_sequence t fits = tt
Sound-Outcome number unmapping t fits = tt
Sound-Outcome number unmapping_remote t fits = tt
Sound-Outcome number disconnecting t fits = tt
Sound-Outcome number (gone true) t fits = fits
Sound-Outcome number (gone false) t fits = tt
Sound-Outcome number exited t fits = tt
Sound-Outcome number astray t fits = fits
Sound-Outcome number misused t fits = fits

-- In every order of the thread's steps, the initiator's stores, the handler's leaving the block and
-- a request to cancel: in its loop the thread holds its mapping, the segment that goes by the
-- initiator's number, the mapping of that and a sequence; cancelled there it closes them all, and
-- never one that is not open; and it goes astray only if the handler has left the block before.
pub Run-Outcome : (number : ℕ) (t : Thread) → Run number t → Outcome number t.at t
Run-Outcome number t run = Sound-Outcome number t.at t (Run-Sound number t run).fits

-- Cancelled now, the thread is gone, and no step of it closes what it held.
abbrev pub Leaves : (number : ℕ) (t : Thread) (ok : Bool) → List Handle → Type 0
Leaves number t ok held =
    Run number (take_effect (cancel t))
    × ((take_effect (cancel t)).at ≡ gone false)
    × ((take_effect (cancel t)).held ≡ held)
    × (thread_step ok (take_effect (cancel t)) ≡ take_effect (cancel t))

-- What can go wrong before the cleanup is pushed.
abbrev pub Hazard : (number : ℕ) → ThreadAt → Thread → (ok : Bool) → Type 0
Hazard number copying t ok =
    Run number (thread_step ok (leave_block t)) × ((thread_step ok (leave_block t)).at ≡ astray)
Hazard number mapping t ok = Leaves number t ok []
Hazard number awaiting t ok = Leaves number t ok (map ∷ [])
Hazard number connecting t ok = Leaves number t ok (map ∷ [])
Hazard number mapping_remote t ok = Leaves number t ok (remote_segment ∷ map ∷ [])
Hazard number creating_sequence t ok = Leaves number t ok (remote_map ∷ remote_segment ∷ map ∷ [])
Hazard number starting_sequence t ok = Leaves number t ok everything
Hazard number _ t ok = Unit {0}

Fits-Hazard :
    (number : ℕ) (at : ThreadAt) (t : Thread) (ok : Bool)
    → t.at ≡ at
    → Run number t
    → Fits number at t
    → Hazard number at t ok
unfolding thread_at cancel_if cancel_at
Fits-Hazard number copying t ok e run fits = (steps ok (leaves run), rw e)
Fits-Hazard number mapping t ok e run fits = (acts (cancels run), rw e, rw e fits, rw e)
Fits-Hazard number awaiting t ok e run fits = (acts (cancels run), rw e, rw e fits, rw e)
Fits-Hazard number connecting t ok e run fits = (acts (cancels run), rw e, rw e fits.0, rw e)
Fits-Hazard number mapping_remote t ok e run fits = (acts (cancels run), rw e, rw e fits.0, rw e)
Fits-Hazard number creating_sequence t ok e run fits = (acts (cancels run), rw e, rw e fits.0, rw e)
Fits-Hazard number starting_sequence t ok e run fits = (acts (cancels run), rw e, rw e fits.0, rw e)
Fits-Hazard number pushing t ok e run fits = tt
Fits-Hazard number switching t ok e run fits = tt
Fits-Hazard number bouncing t ok e run fits = tt
Fits-Hazard number removing_sequence t ok e run fits = tt
Fits-Hazard number unmapping t ok e run fits = tt
Fits-Hazard number unmapping_remote t ok e run fits = tt
Fits-Hazard number disconnecting t ok e run fits = tt
Fits-Hazard number (gone b) t ok e run fits = tt
Fits-Hazard number exited t ok e run fits = tt
Fits-Hazard number astray t ok e run fits = tt
Fits-Hazard number misused t ok e run fits = tt

-- Whenever the thread has not copied its arguments yet, it goes astray if the handler that has
-- started it leaves the block first; and at every call before it pushes its cleanup, a request to
-- cancel that takes effect there ends it with everything it has opened so far left open: nothing at
-- the first, then its mapping, the segment, that one's mapping, and the sequence.
pub Run-Hazard : (number : ℕ) (t : Thread) (ok : Bool) → Run number t → Hazard number t.at t ok
Run-Hazard number t ok run = Fits-Hazard number t.at t ok refl run (Run-Sound number t run).fits
