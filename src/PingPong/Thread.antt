-- ===== src/PingPong/Thread.antt =====
-- ping_pong_thread_start of peer/ping_pong_thread.c around its loop: what it is passed, what it maps
-- and connects, and how it is cancelled, as steps that interleave with those of the handler that
-- starts it, of the initiator's stores and of the request to cancel it.
use sisci_perf.Common.{ℕ, Bool, true, false, ◌||◌, Option, none, some, List, [], ◌∷◌, if◌then◌else◌}

-- Where the thread stands: at the copy of its arguments; at a call of SISCI; at
-- pthread_cleanup_push and pthread_setcanceltype; in its loop; at a call of
-- ping_pong_thread_cleanup; behind all of it, cancelled in the loop or before; nowhere, since the
-- process has exited, or the thread has read arguments, or used a handle, that were not there.
pub data ThreadAt : Type 0 where
  copying : ThreadAt
  mapping awaiting connecting mapping_remote creating_sequence starting_sequence : ThreadAt
  pushing switching bouncing : ThreadAt
  removing_sequence unmapping unmapping_remote disconnecting : ThreadAt
  gone : (from_loop : Bool) → ThreadAt
  exited astray misused : ThreadAt

pub data Handle : Type 0 where
  map remote_segment remote_map sequence : Handle

-- The stores of ping_pong_pio.c into the peer's segment.
pub data Store : Type 0 where
  segment_id : ℕ → Store
  clear_counter initiator_ready : Store

-- `in_block` says whether the handler is still in the block of `args`; `ready` and `id` are what the
-- segment holds.
pub record Thread : Type 0 where
  pub at : ThreadAt
  pub in_block : Bool
  pub held : List Handle
  pub connected_to : Option ℕ
  pub asynchronous : Bool
  pub cancelled : Bool
  pub ready : Bool
  pub id : ℕ
  pub coming : List Store

-- The thread has been created; the initiator's segment goes by `number`.
abbrev pub new_thread : (number : ℕ) → Thread
new_thread number = record {
  at = copying;
  in_block = true;
  held = [];
  connected_to = none;
  asynchronous = false;
  cancelled = false;
  ready = false;
  id = 0;
  coming = segment_id number ∷ clear_counter ∷ initiator_ready ∷ [];
}

abbrev pub go : ThreadAt → Thread → Thread
go at t = record t { at = at }

abbrev pub opened : ThreadAt → Handle → Thread → Thread
opened at h t = record t { at = at; held = h ∷ t.held }

abbrev pub same : Handle → Handle → Bool
same map map = true
same remote_segment remote_segment = true
same remote_map remote_map = true
same sequence sequence = true
same h g = false

abbrev pub holds : Handle → List Handle → Bool
holds h [] = false
holds h (g ∷ held) = same h g || holds h held

abbrev pub without : Handle → List Handle → List Handle
without h [] = []
without h (g ∷ held) = if same h g then held else g ∷ without h held

-- A call of the cleanup under SEOE, which has to be given a handle that is open.
unfoldable pub close : Handle → (next : ThreadAt) → (ok : Bool) → Thread → Thread
close h next ok t =
    if holds h t.held
    then (if ok then record t { at = next; held = without h t.held } else go exited t)
    else go misused t

-- `while (!buffer->initiator_ready)` around SCICacheSync.
unfoldable pub poll : (is_ready ok : Bool) → Thread → Thread
poll true ok t = go connecting t
poll false true t = t
poll false false t = go exited t

-- A step of the thread; `ok` is the outcome of a call, and a call that fails ends the process.
unfoldable pub thread_at : ThreadAt → (ok : Bool) → Thread → Thread
unfolding close poll
thread_at copying ok t = if t.in_block then go mapping t else go astray t
thread_at mapping ok t = if ok then opened awaiting map t else go exited t
thread_at awaiting ok t = poll t.ready ok t
thread_at connecting ok t =
    if ok
    then record t { at = mapping_remote; held = remote_segment ∷ t.held; connected_to = some t.id }
    else go exited t
thread_at mapping_remote ok t = if ok then opened creating_sequence remote_map t else go exited t
thread_at creating_sequence ok t = if ok then opened starting_sequence sequence t else go exited t
thread_at starting_sequence ok t = if ok then go pushing t else go exited t
thread_at pushing ok t = go switching t
thread_at switching ok t = record t { at = bouncing; asynchronous = true }
thread_at bouncing ok t = t
thread_at removing_sequence ok t = close sequence unmapping ok t
thread_at unmapping ok t = close map unmapping_remote ok t
thread_at unmapping_remote ok t = close remote_map disconnecting ok t
thread_at disconnecting ok t = close remote_segment (gone true) ok t
thread_at (gone from_loop) ok t = t
thread_at exited ok t = t
thread_at astray ok t = t
thread_at misused ok t = t

abbrev pub thread_step : (ok : Bool) → Thread → Thread
thread_step ok t = thread_at t.at ok t

-- The handler goes on behind pthread_create, out of the block.
abbrev pub leave_block : Thread → Thread
leave_block t = record t { in_block = false }

unfoldable pub land : List Store → Thread → Thread
land [] t = t
land (segment_id n ∷ rest) t = record t { id = n; coming = rest }
land (clear_counter ∷ rest) t = record t { coming = rest }
land (initiator_ready ∷ rest) t = record t { ready = true; coming = rest }

abbrev pub store_arrives : Thread → Thread
store_arrives t = land t.coming t

-- pthread_cancel.
abbrev pub cancel : Thread → Thread
cancel t = record t { cancelled = true }

-- Where the request takes effect: of the deferred type, in a call that is a cancellation point, as
-- each call of SISCI may be; of the asynchronous type, at once, with the cleanup.
unfoldable pub cancel_at : ThreadAt → Thread → Thread
cancel_at mapping t = go (gone false) t
cancel_at awaiting t = go (gone false) t
cancel_at connecting t = go (gone false) t
cancel_at mapping_remote t = go (gone false) t
cancel_at creating_sequence t = go (gone false) t
cancel_at starting_sequence t = go (gone false) t
cancel_at bouncing t = go removing_sequence t
cancel_at at t = t

unfoldable pub cancel_if : (cancelled : Bool) → Thread → Thread
unfolding cancel_at
cancel_if true t = cancel_at t.at t
cancel_if false t = t

abbrev pub take_effect : Thread → Thread
take_effect t = cancel_if t.cancelled t

-- Any order of all these steps.
pub data Run (number : ℕ) : Thread → Type 0 where
  creates : Run number (new_thread number)
  steps : {t : Thread} → (ok : Bool) → Run number t → Run number (thread_step ok t)
  leaves : {t : Thread} → Run number t → Run number (leave_block t)
  stores : {t : Thread} → Run number t → Run number (store_arrives t)
  cancels : {t : Thread} → Run number t → Run number (cancel t)
  acts : {t : Thread} → Run number t → Run number (take_effect t)
