-- ===== src/Standalone.antt =====
-- What the programs of standalone/ share: the calls of SISCI under the macro SEOE of their headers
-- (standalone/memcpy/common.h, standalone/ping-pong-common.h), and the ways a program can end.
pub mod MemcpyServer
pub mod PingPong
pub mod Examples
use sisci_perf.Common.{
  ℕ, ◌≡◌, refl, Bool, true, false, List, [], ◌∷◌, ◌++◌, if◌then◌else◌, append-nil, append_assoc,
  sym,
}

-- The calls of SISCI, with the arguments that tell them apart.
pub data Call : Type 0 where
  initialize open_sd close_sd terminate : Call
  create_segment : (id size : ℕ) → Call
  prepare_segment set_available set_unavailable remove_segment : Call
  map_local unmap_local : Call
  connect_segment : (node id : ℕ) → Call
  map_remote : (size : ℕ) → Call
  unmap_remote disconnect create_sequence remove_sequence : Call
  set_mem_copy_function : (function : ℕ) → Call

-- A program's own state and the calls it has made.
pub record Process (D : Type 0) : Type 0 where
  pub own : D
  pub calls : List Call

-- main has returned a status; the process has left through exit(EXIT_FAILURE), or has run out of
-- what C defines; the fuel of a loop is used up.
pub data End (S : Type 0) : Type 0 where
  returned : (status : ℕ) → S → End S
  goes_on : S → End S
  exited : S → End S
  undefined : S → End S
  unfinished : S → End S

-- What follows is done if nothing has ended the program.
unfoldable pub and_then : {S : Type 0} → End S → (S → End S) → End S
and_then (goes_on s) next = next s
and_then (returned status s) next = returned status s
and_then (exited s) next = exited s
and_then (undefined s) next = undefined s
and_then (unfinished s) next = unfinished s

abbrev pub with_call : {D : Type 0} → Call → Process D → Process D
with_call c s = record s { calls = s.calls ++ c ∷ [] }

module _ (succeeds : Call → Bool) where
  -- SEOE: exit on error.
  unfoldable pub seoe : {D : Type 0} → Call → Process D → End (Process D)
  seoe c s = if succeeds c then goes_on (with_call c s) else exited (with_call c s)

  unfoldable pub seoe_all : {D : Type 0} → List Call → Process D → End (Process D)
  unfolding seoe and_then
  seoe_all [] s = goes_on s
  seoe_all (c ∷ cs) s = and_then (seoe c s) (seoe_all cs)

  -- A call whose error makes main return 1.
  unfoldable pub or_return_1 : {D : Type 0} → Call → Process D → End (Process D)
  or_return_1 c s = if succeeds c then goes_on (with_call c s) else returned 1 (with_call c s)

pub seoe_all_ok :
    {D : Type 0} (succeeds : Call → Bool) (cs : List Call) (s : Process D)
    → ((c : Call) → succeeds c ≡ true)
    → seoe_all succeeds cs s ≡ goes_on (record s { calls = s.calls ++ cs })
unfolding seoe_all seoe and_then
seoe_all_ok succeeds [] s ok = rw append-nil
seoe_all_ok succeeds (c ∷ cs) s ok =
    rw (ok c, seoe_all_ok succeeds cs (with_call c s) ok, append_assoc s.calls (c ∷ []) cs)
