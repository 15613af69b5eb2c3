-- ===== src/Signal.antt =====
-- lib/block_for_termination_signal.c: waiting for SIGINT, SIGTERM or SIGTSTP, as steps between
-- which signals arrive. The kernel's part is POSIX's: sigprocmask blocks a signal for the calling
-- thread, and sigsuspend takes that mask away and waits in one step. A signal for the process goes
-- to any thread that does not block it: it stays pending only if there is no other thread, as the
-- callback threads of the peer's SISCI.
pub mod Examples
use sisci_perf.Common.{
  ℕ, zero, suc, ◌||◌, ◌&&◌, ◌≡◌, ◌⊎◌, inl, inr, refl, Bool, true, false, if◌then◌else◌,
}

pub data TerminationSignal : Type 0 where
  sigint sigterm sigtstp : TerminationSignal

-- Where the function stands: before each sigaction, before SIG_BLOCK, at the test, before and
-- in sigsuspend, before SIG_UNBLOCK, and behind it.
pub data At : Type 0 where
  install_int install_term install_tstp blocking testing entering suspended unblocking returned : At

-- `pending` is a signal that is blocked; of several, one is enough for the function. `received` is
-- whether signal_received is set, `arrived` whether a signal has come with its handler installed.
-- `killed` is the default action of a signal without a handler.
pub record Waiting : Type 0 where
  pub at : At
  pub pending : Bool
  pub received : Bool
  pub arrived : Bool
  pub killed : Bool

abbrev pub called : Waiting
called = record {
  at = install_int;
  pending = false;
  received = false;
  arrived = false;
  killed = false;
}

abbrev pub has_handler : At → TerminationSignal → Bool
has_handler install_int s = false
has_handler install_term sigint = true
has_handler install_term s = false
has_handler install_tstp sigtstp = false
has_handler install_tstp s = true
has_handler _ s = true

-- The handler runs, wherever the function stands, or the signal kills.
unfoldable pub noted : At → TerminationSignal → Waiting → Waiting
noted at s w =
    if has_handler at s
    then record w { received = true; arrived = true }
    else record w { killed = true }

-- A signal that comes to the thread of the function: it is left pending, wakes sigsuspend, or is
-- handled at once.
unfoldable pub taken : At → TerminationSignal → Waiting → Waiting
unfolding noted
taken testing s w = record w { pending = true; arrived = true }
taken entering s w = record w { pending = true; arrived = true }
taken unblocking s w = record w { pending = true; arrived = true }
taken suspended s w = record w { at = testing; received = true; arrived = true }
taken at s w = noted at s w

-- A signal arrives. Where another thread takes it, the function does not wake.
unfoldable pub arrive : At → (elsewhere : Bool) → TerminationSignal → Waiting → Waiting
unfolding noted taken
arrive at elsewhere s w = if elsewhere then noted at s w else taken at s w

-- The function's next step. sigsuspend handles a pending signal and returns; without one it waits.
unfoldable pub step_at : At → Waiting → Waiting
step_at install_int w = record w { at = install_term }
step_at install_term w = record w { at = install_tstp }
step_at install_tstp w = record w { at = blocking }
step_at blocking w = record w { at = testing }
step_at testing w = if w.received then record w { at = unblocking } else record w { at = entering }
step_at entering w =
    if w.pending
    then record w { at = testing; pending = false; received = true }
    else record w { at = suspended }
step_at suspended w = w
step_at unblocking w =
    if w.pending
    then record w { at = returned; pending = false; received = true }
    else record w { at = returned }
step_at returned w = w

abbrev pub step : Waiting → Waiting
step w = step_at w.at w

-- `others` is whether the process has other threads.
pub data Reached (others : Bool) : Waiting → Type 0 where
  begins : Reached others called
  steps : {w : Waiting} → Reached others w → Reached others (step w)
  receives :
      {w : Waiting}
      → (elsewhere : Bool) (s : TerminationSignal) → Reached others w
      → Reached others (arrive w.at (others && elsewhere) s w)

-- What is known at each place.
abbrev MindsEntering : (others pending received arrived : Bool) → Type 0
MindsEntering true pending received arrived = arrived ≡ received || pending
MindsEntering false pending received arrived = (received ≡ false) × (arrived ≡ pending)

abbrev MindsSuspended : (others pending received arrived : Bool) → Type 0
MindsSuspended true pending received arrived = (pending ≡ false) × (arrived ≡ received)
MindsSuspended false pending received arrived =
    (pending ≡ false) × (received ≡ false) × (arrived ≡ false)

abbrev Minds : (others : Bool) → At → (pending received arrived : Bool) → Type 0
Minds others testing pending received arrived = arrived ≡ received || pending
Minds others entering pending received arrived = MindsEntering others pending received arrived
Minds others suspended pending received arrived = MindsSuspended others pending received arrived
Minds others unblocking pending received arrived = (received ≡ true) × (arrived ≡ true)
Minds others returned pending received arrived = (received ≡ true) × (arrived ≡ true)
Minds others at pending received arrived = (pending ≡ false) × (arrived ≡ received)

abbrev IsMinded : Bool → Waiting → Type 0
IsMinded others w = Minds others w.at w.pending w.received w.arrived

abbrev waiting_at : At → (pending received arrived killed : Bool) → Waiting
waiting_at at p r a k = record { at = at; pending = p; received = r; arrived = a; killed = k }

step-Minds :
    (o : Bool) (at : At) (p r a k : Bool)
    → Minds o at p r a
    → IsMinded o (step_at at (waiting_at at p r a k))
unfolding step_at
step-Minds o install_int p r a k m = m
step-Minds o install_term p r a k m = m
step-Minds o install_tstp p r a k m = m
step-Minds o blocking true r a k m = let clash = m.0 in cc
step-Minds o blocking false true a k m = m.1
step-Minds o blocking false false a k m = m.1
step-Minds o testing p true a k m = (refl, m)
step-Minds true testing p false a k m = m
step-Minds false testing p false a k m = (refl, m)
step-Minds true entering true true a k m = m
step-Minds true entering true false a k m = m
step-Minds true entering false true a k m = (refl, m)
step-Minds true entering false false a k m = (refl, m)
step-Minds false entering true r a k m = m.1
step-Minds false entering false r a k m = (refl, m.0, m.1)
step-Minds o suspended p r a k m = m
step-Minds o unblocking true r a k m = (refl, m.1)
step-Minds o unblocking false r a k m = m
step-Minds o returned p r a k m = m

noted-Minds :
    (at : At) (s : TerminationSignal) (p r a k : Bool)
    → Minds true at p r a
    → IsMinded true (noted at s (waiting_at at p r a k))
unfolding noted
noted-Minds install_int s p r a k m = m
noted-Minds install_term sigint p r a k m = (m.0, refl)
noted-Minds install_term sigterm p r a k m = m
noted-Minds install_term sigtstp p r a k m = m
noted-Minds install_tstp sigint p r a k m = (m.0, refl)
noted-Minds install_tstp sigterm p r a k m = (m.0, refl)
noted-Minds install_tstp sigtstp p r a k m = m
noted-Minds blocking s p r a k m = (m.0, refl)
noted-Minds testing s p r a k m = refl
noted-Minds entering s p r a k m = refl
noted-Minds suspended s p r a k m = (m.0, refl)
noted-Minds unblocking s p r a k m = (refl, refl)
noted-Minds returned s p r a k m = (refl, refl)

taken-Minds :
    (o : Bool) (at : At) (s : TerminationSignal) (p r a k : Bool)
    → Minds o at p r a
    → IsMinded o (taken at s (waiting_at at p r a k))
unfolding taken noted
taken-Minds o install_int s p r a k m = m
taken-Minds o install_term sigint p r a k m = (m.0, refl)
taken-Minds o install_term sigterm p r a k m = m
taken-Minds o install_term sigtstp p r a k m = m
taken-Minds o install_tstp sigint p r a k m = (m.0, refl)
taken-Minds o install_tstp sigterm p r a k m = (m.0, refl)
taken-Minds o install_tstp sigtstp p r a k m = m
taken-Minds o blocking s p r a k m = (m.0, refl)
taken-Minds o testing s p true a k m = refl
taken-Minds o testing s p false a k m = refl
taken-Minds true entering s p true a k m = refl
taken-Minds true entering s p false a k m = refl
taken-Minds false entering s p r a k m = (m.0, refl)
taken-Minds o suspended s p r a k m = refl
taken-Minds o unblocking s p r a k m = (m.0, refl)
taken-Minds o returned s p r a k m = (refl, refl)

arrive-Minds :
    (o elsewhere : Bool) (w : Waiting) (s : TerminationSignal)
    → IsMinded o w
    → IsMinded o (arrive w.at (o && elsewhere) s w)
unfolding arrive
arrive-Minds true true w s m = noted-Minds w.at s w.pending w.received w.arrived w.killed m
arrive-Minds true false w s m = taken-Minds true w.at s w.pending w.received w.arrived w.killed m
arrive-Minds false e w s m = taken-Minds false w.at s w.pending w.received w.arrived w.killed m

Reached-IsMinded : (o : Bool) (w : Waiting) → Reached o w → IsMinded o w
Reached-IsMinded o _ begins = (refl, refl)
Reached-IsMinded o _ (steps {w} before) =
    step-Minds o w.at w.pending w.received w.arrived w.killed (Reached-IsMinded o w before)
Reached-IsMinded o _ (receives {w} elsewhere s before) =
    arrive-Minds o elsewhere w s (Reached-IsMinded o w before)

abbrev pub run : ℕ → Waiting → Waiting
run zero w = w
run (suc n) w = run n (step w)

-- Where a signal leads.
abbrev pub Comes : (others : Bool) → At → Type 0
Comes others at = (at ≡ returned) ⊎ ((others ≡ true) × (at ≡ suspended))

run-Minds :
    (o : Bool) (at : At) (p r k : Bool)
    → Minds o at p r true
    → Comes o (run 7 (waiting_at at p r true k)).at
unfolding step_at
run-Minds o install_int true r k m = let clash = m.0 in cc
run-Minds o install_int false true k m = inl refl
run-Minds o install_int false false k m = let clash = m.1 in cc
run-Minds o install_term true r k m = let clash = m.0 in cc
run-Minds o install_term false true k m = inl refl
run-Minds o install_term false false k m = let clash = m.1 in cc
run-Minds o install_tstp true r k m = let clash = m.0 in cc
run-Minds o install_tstp false true k m = inl refl
run-Minds o install_tstp false false k m = let clash = m.1 in cc
run-Minds o blocking true r k m = let clash = m.0 in cc
run-Minds o blocking false true k m = inl refl
run-Minds o blocking false false k m = let clash = m.1 in cc
run-Minds o testing true true k m = inl refl
run-Minds o testing false true k m = inl refl
run-Minds o testing true false k m = inl refl
run-Minds o testing false false k m = cc
run-Minds o entering true r k m = inl refl
run-Minds true entering false r k m = inr (refl, refl)
run-Minds false entering false r k m = let clash = m.1 in cc
run-Minds true suspended p r k m = inr (refl, refl)
run-Minds false suspended p r k m = let clash = m.2 in cc
run-Minds o unblocking true r k m = inl refl
run-Minds o unblocking false r k m = inl refl
run-Minds o returned p r k m = inl refl

run-arrived :
    (o : Bool) (at : At) (p r a k : Bool)
    → Minds o at p r a
    → a ≡ true
    → Comes o (run 7 (waiting_at at p r a k)).at
run-arrived o at p r true k m e = run-Minds o at p r k m
run-arrived o at p r false k m e = cc

-- Once a termination signal has arrived with its handler installed, whenever that was, the function
-- has returned after seven more of its own steps; only in a process with other threads, one of which
-- may take the signal, it may sleep in sigsuspend instead.
pub Reached-returns :
    (others : Bool) (w : Waiting)
    → Reached others w
    → w.arrived ≡ true
    → ((run 7 w).at ≡ returned) ⊎ ((others ≡ true) × ((run 7 w).at ≡ suspended))
Reached-returns others w reached come =
    let m = Reached-IsMinded others w reached in
    run-arrived others w.at w.pending w.received w.arrived w.killed m come

ends :
    (o : Bool) (at : At) (p r a : Bool) → Minds o at p r a → at ≡ returned → (r ≡ true) × (a ≡ true)
ends o returned p r a m e = m
ends o unblocking p r a m e = m
ends o suspended p r a m e = cc
ends o entering p r a m e = cc
ends o testing p r a m e = cc
ends o blocking p r a m e = cc
ends o install_tstp p r a m e = cc
ends o install_term p r a m e = cc
ends o install_int p r a m e = cc

-- The function never returns without cause, with other threads or without: where it has, a
-- termination signal has arrived and is noted.
pub Reached-caused :
    (others : Bool) (w : Waiting)
    → Reached others w
    → w.at ≡ returned
    → (w.received ≡ true) × (w.arrived ≡ true)
Reached-caused others w reached e =
    ends others w.at w.pending w.received w.arrived (Reached-IsMinded others w reached) e
