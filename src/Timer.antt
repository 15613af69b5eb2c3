-- ===== src/Timer.antt =====
-- The timer of lib/common_read_write_functions.c, with what sigaction and setitimer do of POSIX.
pub mod Examples
use sisci_perf.Common.{ℕ, ◌≡◌, ◌⊎◌, Bool, true, false, Option, none, some, ◌==◌, if◌then◌else◌}

-- sa_handler: the default action, which kills, or timer_handler.
pub data Handler : Type 0 where
  sig_dfl timer_handler : Handler

-- `sa`, `it_value` and `it_interval` are the globals, the last two the fields of `timer`; `action`
-- is what the kernel has for SIGALRM, `armed` the seconds of a timer that runs, `reload` those of
-- its next run, or 0.
pub record Timer : Type 0 where
  pub timer_expired : Bool
  pub sa : Handler
  pub it_value : ℕ
  pub it_interval : ℕ
  pub action : Handler
  pub armed : Option ℕ
  pub reload : ℕ
  pub killed : Bool

-- As the program starts: the globals are 0.
abbrev pub at_start : Timer
at_start = record {
  timer_expired = false;
  sa = sig_dfl;
  it_value = 0;
  it_interval = 0;
  action = sig_dfl;
  armed = none;
  reload = 0;
  killed = false;
}

-- `ok` is what the call of sigaction or setitimer returns; `none` is exit(EXIT_FAILURE).
unfoldable pub init_timer : (seconds : ℕ) (ok : Bool) → Timer → Option Timer
init_timer seconds ok t =
    if ok
    then some (record t { sa = timer_handler; action = timer_handler; it_value = seconds })
    else none

-- A timer of 0 seconds is switched off.
abbrev pub running_for : ℕ → Option ℕ
running_for seconds = if seconds == 0 then none else some seconds

unfoldable pub start_timer : (ok : Bool) → Timer → Option Timer
start_timer ok t =
    if ok
    then some
        (record t { timer_expired = false; armed = running_for t.it_value; reload = t.it_interval })
    else none

unfoldable pub destroy_timer : (ok : Bool) → Timer → Option Timer
destroy_timer ok t = if ok then some (record t { sa = sig_dfl; action = sig_dfl }) else none

unfoldable pub handle : Handler → Timer → Timer
handle timer_handler t = record t { timer_expired = true }
handle sig_dfl t = record t { killed = true }

-- The kernel runs the timer again for `reload` seconds, if they are not 0, and delivers SIGALRM.
unfoldable pub fire : Option ℕ → Timer → Timer
unfolding handle
fire none t = t
fire (some seconds) t = handle t.action (record t { armed = running_for t.reload })

-- The seconds have passed; a timer that does not run does nothing.
abbrev pub alarm : Timer → Timer
alarm t = fire t.armed t

-- What a program can come to with these functions, in whatever order it calls them and the timer
-- fires, for as long as it is not killed.
pub data Reached : Timer → Type 0 where
  begins : Reached at_start
  inits :
      {t t' : Timer}
      → (seconds : ℕ) (ok : Bool) → Reached t
      → t.killed ≡ false
      → init_timer seconds ok t ≡ some t'
      → Reached t'
  starts :
      {t t' : Timer}
      → (ok : Bool) → Reached t
      → t.killed ≡ false
      → start_timer ok t ≡ some t'
      → Reached t'
  destroys :
      {t t' : Timer}
      → (ok : Bool) → Reached t
      → t.killed ≡ false
      → destroy_timer ok t ≡ some t'
      → Reached t'
  alarms : {t : Timer} → Reached t → t.killed ≡ false → Reached (alarm t)

-- It runs once, not again and again; the flag is set only while it does not run; and the process is
-- killed only if the handler is not there.
pub record Once (t : Timer) : Type 0 where
  pub no_interval : t.it_interval ≡ 0
  pub no_reload : t.reload ≡ 0
  pub over : (t.timer_expired ≡ false) ⊎ (t.armed ≡ none)
  pub unhandled : (t.killed ≡ false) ⊎ (t.action ≡ sig_dfl)
