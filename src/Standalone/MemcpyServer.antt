-- ===== src/Standalone/MemcpyServer.antt =====
-- standalone/memcpy/server.c: the segment that the memcpy client writes to.
use sisci_perf.Common.{
  ℕ, ◌≡◌, refl, ◌∙◌, Bool, true, false, not, List, [], ◌∷◌, ◌++◌, ◌==◌, if◌then◌else◌, append-nil,
  append_assoc,
}
use sisci_perf.Standalone.{
  Call, initialize, open_sd, close_sd, terminate, create_segment, prepare_segment, set_available,
  set_unavailable, remove_segment, Process, End, returned, goes_on, exited, unfinished, and_then,
  with_call, seoe_all, seoe_all_ok,
}
use sisci_perf.Memcpy.Client.{segment_id}

-- What SCIWaitForLocalSegmentEvent comes back with, or that it failed.
pub data Event : Type 0 where
  connect operational disconnect lost not_operational failed : Event

-- `printed` are the reasons on the way.
pub record Server : Type 0 where
  pub printed : List Event

abbrev pub printing : Event → Process Server → Process Server
printing e s = record s { own = record { printed = s.own.printed ++ e ∷ [] } }

-- The do-while loop; it still waits when there are no more events.
unfoldable pub wait_for_events : List Event → Process Server → End (Process Server)
wait_for_events [] s = unfinished s
wait_for_events (failed ∷ events) s = returned 1 s
wait_for_events (connect ∷ events) s = wait_for_events events (printing connect s)
wait_for_events (operational ∷ events) s = wait_for_events events (printing operational s)
wait_for_events (e ∷ events) s = goes_on (printing e s)

abbrev pub make_available : ℕ → List Call
make_available segment_size =
    initialize
    ∷ open_sd
    ∷ create_segment segment_id segment_size
    ∷ prepare_segment
    ∷ set_available
    ∷ []

abbrev pub take_away : List Call
take_away = set_unavailable ∷ remove_segment ∷ close_sd ∷ []

-- The calls' outcomes, and the events, are SISCI's.
unfoldable pub server_main :
    (succeeds : Call → Bool) (events : List Event) (argc segment_size : ℕ) → End (Process Server)
unfolding and_then seoe_all wait_for_events
server_main succeeds events argc segment_size =
    let start : Process Server = record { own = record { printed = [] }; calls = [] } in
    if not (argc == 2)
    then exited start
    else and_then (seoe_all succeeds (make_available segment_size) start) λ s.
      and_then (wait_for_events events s)
        λ s. and_then (seoe_all succeeds take_away s) λ s. returned 0 (with_call terminate s)

abbrev pub keeps_waiting : Event → Bool
keeps_waiting connect = true
keeps_waiting operational = true
keeps_waiting _ = false

abbrev pub all_keep : List Event → Bool
all_keep [] = true
all_keep (e ∷ events) = if keeps_waiting e then all_keep events else false

abbrev pub first_ends : List Event → Bool
first_ends [] = true
first_ends (e ∷ events) = not (keeps_waiting e)

-- Where the server is when the events `on` are followed by `rest`.
abbrev pub ended : ℕ → List Event → List Event → End (Process Server)
ended size on [] =
    unfinished (record { own = record { printed = on }; calls = make_available size })
ended size on (failed ∷ rest) =
    returned 1 (record { own = record { printed = on }; calls = make_available size })
ended size on (e ∷ rest) = returned 0 (record {
  own = record { printed = on ++ e ∷ [] };
  calls = make_available size ++ take_away ++ terminate ∷ [];
})

wait_for_events-on :
    (on rest printed : List Event) (calls : List Call)
    → all_keep on ≡ true
    → wait_for_events (on ++ rest) (record { own = record { printed = printed }; calls = calls })
      ≡ wait_for_events rest (record { own = record { printed = printed ++ on }; calls = calls })
unfolding wait_for_events
wait_for_events-on [] rest printed calls ok = rw append-nil
wait_for_events-on (connect ∷ on) rest printed calls ok =
    wait_for_events-on on rest (printed ++ connect ∷ []) calls ok ∙ rw append_assoc
wait_for_events-on (operational ∷ on) rest printed calls ok =
    wait_for_events-on on rest (printed ++ operational ∷ []) calls ok ∙ rw append_assoc
wait_for_events-on (disconnect ∷ on) rest printed calls ok = cc
wait_for_events-on (lost ∷ on) rest printed calls ok = cc
wait_for_events-on (not_operational ∷ on) rest printed calls ok = cc
wait_for_events-on (failed ∷ on) rest printed calls ok = cc

module _ (succeeds : Call → Bool) (ok : (c : Call) → succeeds c ≡ true) where
  taken_away :
      (size : ℕ) (printed : List Event)
      → (let s : Process Server = record {
        own = record { printed = printed };
        calls = make_available size;
      } in
          and_then (seoe_all succeeds take_away s) (λ s. returned 0 (with_call terminate s))
          ≡ returned 0 (record s { calls = make_available size ++ take_away ++ terminate ∷ [] }))
  unfolding and_then
  taken_away size printed = rw (
      seoe_all_ok {D = Server} succeeds take_away
        (record { own = record { printed = printed }; calls = make_available size }) ok)

  at_end :
      (size : ℕ) (on rest : List Event)
      → first_ends rest ≡ true
      → and_then
          (wait_for_events rest
            (record { own = record { printed = on }; calls = make_available size }))
          (λ s. and_then (seoe_all succeeds take_away s) (λ s. returned 0 (with_call terminate s)))
        ≡ ended size on rest
  unfolding wait_for_events and_then
  at_end size on [] first = refl
  at_end size on (failed ∷ rest) first = refl
  at_end size on (disconnect ∷ rest) first = taken_away size (on ++ disconnect ∷ [])
  at_end size on (lost ∷ rest) first = taken_away size (on ++ lost ∷ [])
  at_end size on (not_operational ∷ rest) first = taken_away size (on ++ not_operational ∷ [])
  at_end size on (connect ∷ rest) first = cc
  at_end size on (operational ∷ rest) first = cc

-- While clients connect and the link comes up the server waits; the first event of another kind
-- makes it take its segment away and give back what it opened; a wait that fails makes it return 1
-- with the segment and the descriptor still there; without such an event it waits on. This is so
-- when no other call fails.
pub server_main-ended :
    (succeeds : Call → Bool) (segment_size : ℕ) (on rest : List Event)
    → ((c : Call) → succeeds c ≡ true)
    → all_keep on ≡ true
    → first_ends rest ≡ true
    → server_main succeeds (on ++ rest) 2 segment_size ≡ ended segment_size on rest
unfolding server_main and_then
server_main-ended succeeds size on rest ok all first =
    rw
      (
        seoe_all_ok {D = Server} succeeds (make_available size)
            (record { own = record { printed = [] }; calls = [] }) ok,
        wait_for_events-on on rest [] (make_available size) all,
      )
      (at_end succeeds ok size on rest first)
