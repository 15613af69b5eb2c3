-- ===== src/Standalone/PingPong/Mains.antt =====
-- The calls of main in standalone/ping-pong-client.c and standalone/ping-pong-server.c around their
-- loops, which may end or not.
use sisci_perf.Common.{
  ℕ, zero, suc, ◌≡◌, refl, Bool, true, not, List, [], ◌∷◌, ◌++◌, ◌==◌, if◌then◌else◌, append_assoc,
  ap, ◌∙◌,
}
use sisci_perf.Standalone.{
  Call, initialize, open_sd, terminate, create_segment, prepare_segment, set_available,
  set_unavailable, remove_segment, map_local, unmap_local, connect_segment, map_remote,
  unmap_remote, disconnect, create_sequence, remove_sequence, Process, End, returned, goes_on,
  exited, unfinished, and_then, with_call, seoe_all, seoe_all_ok, or_return_1,
}

abbrev pub segment_size : ℕ
segment_size = 16777216

abbrev pub server_segment_id : ℕ
server_segment_id = 42

abbrev pub client_segment_id : ℕ
client_segment_id = 43

-- How an attempt to connect comes out.
pub data Attempt : Type 0 where
  connected no_such_segment other_error : Attempt

-- Nothing but the calls is of interest here.
abbrev pub begun : Process (Unit {0})
begun = record { own = tt; calls = [] }

abbrev own_segment : ℕ → List Call
own_segment id =
    initialize ∷ open_sd ∷ create_segment id segment_size ∷ prepare_segment ∷ set_available ∷ []

-- Both programs end like this; neither calls SCIClose.
abbrev give_back : List Call
give_back =
    remove_sequence ∷ unmap_local ∷ unmap_remote ∷ disconnect ∷ set_unavailable ∷ remove_segment
    ∷ []

module _ (succeeds : Call → Bool) where
  abbrev end_of : Process (Unit {0}) → End (Process (Unit {0}))
  end_of s = and_then (seoe_all succeeds give_back s) (λ s. returned 0 (with_call terminate s))

  -- main of the client; `loops` says whether its loop ends.
  unfoldable pub ping_pong_client :
      (loops : Bool) (argc remote_node_id : ℕ) → End (Process (Unit {0}))
  unfolding and_then seoe_all or_return_1
  ping_pong_client loops argc remote_node_id =
      if not (argc == 3)
      then exited begun
      else and_then (seoe_all succeeds (own_segment client_segment_id) begun) λ s.
        and_then (or_return_1 succeeds map_local s) λ s.
          and_then (seoe_all succeeds (connect_segment remote_node_id server_segment_id ∷ []) s)
            λ s. and_then (or_return_1 succeeds (map_remote segment_size) s) λ s.
              and_then (seoe_all succeeds (create_sequence ∷ []) s)
                λ s. if loops then end_of s else unfinished s

  -- The do-while loop around SCIConnectSegment: it goes on after any other error than
  -- SCI_ERR_NO_SUCH_SEGMENT. `attempts` are the outcomes, one after the other.
  unfoldable pub connect_until :
      (remote_node_id : ℕ) → List Attempt → Process (Unit {0}) → End (Process (Unit {0}))
  connect_until node [] s = unfinished s
  connect_until node (no_such_segment ∷ attempts) s =
      connect_until node attempts (with_call (connect_segment node client_segment_id) s)
  connect_until node (connected ∷ attempts) s =
      goes_on (with_call (connect_segment node client_segment_id) s)
  connect_until node (other_error ∷ attempts) s =
      goes_on (with_call (connect_segment node client_segment_id) s)

  -- main of the server; map_remote fails on a segment that is not connected.
  unfoldable pub ping_pong_server :
      (attempts : List Attempt) (loops : Bool) (argc remote_node_id : ℕ) → End (Process (Unit {0}))
  unfolding and_then seoe_all or_return_1 connect_until
  ping_pong_server attempts loops argc remote_node_id =
      if not (argc == 3)
      then exited begun
      else and_then (seoe_all succeeds (own_segment server_segment_id) begun) λ s.
        and_then (or_return_1 succeeds map_local s) λ s.
          and_then (connect_until remote_node_id attempts s) λ s.
            and_then (or_return_1 succeeds (map_remote segment_size) s) λ s.
              and_then (seoe_all succeeds (create_sequence ∷ []) s)
                λ s. if loops then end_of s else unfinished s

-- How often the server has tried when it is connected after k refusals.
abbrev pub tries : (k : ℕ) → Call → List Call
tries zero c = c ∷ []
tries (suc k) c = c ∷ tries k c

abbrev pub refused : ℕ → List Attempt → List Attempt
refused zero attempts = attempts
refused (suc k) attempts = no_such_segment ∷ refused k attempts

abbrev pub server_calls : (k remote_node_id : ℕ) → List Call
server_calls k node =
    ((own_segment server_segment_id ++ map_local ∷ [])
      ++ tries k (connect_segment node client_segment_id))
    ++ map_remote segment_size ∷ create_sequence ∷ give_back
    ++ terminate ∷ []

connect_until-refused :
    (succeeds : Call → Bool) (k node : ℕ) (attempts : List Attempt) (calls : List Call)
    → connect_until succeeds node
        (refused k (connected ∷ attempts))
        (record { own = tt; calls = calls })
      ≡ goes_on
          (record { own = tt; calls = calls ++ tries k (connect_segment node client_segment_id) })
unfolding connect_until
connect_until-refused succeeds zero node attempts calls = refl
connect_until-refused succeeds (suc k) node attempts calls =
    connect_until-refused succeeds k node attempts
      (calls ++ connect_segment node client_segment_id ∷ [])
    ∙ rw append_assoc

-- While the client's segment is missing the server tries again, as often as it takes; when it is
-- connected, and no other call fails, it serves, and once its loops end it returns 0, having given
-- back all that it opened but the descriptor of SCIOpen.
pub ping_pong_server-connects :
    (succeeds : Call → Bool) (k remote_node_id : ℕ) (attempts : List Attempt)
    → ((c : Call) → succeeds c ≡ true)
    → ping_pong_server succeeds (refused k (connected ∷ attempts)) true 3 remote_node_id
      ≡ returned 0 (record { own = tt; calls = server_calls k remote_node_id })
unfolding ping_pong_server and_then or_return_1
ping_pong_server-connects succeeds k node attempts ok =
    let opened = own_segment server_segment_id ++ map_local ∷ [] in
    let tried = opened ++ tries k (connect_segment node client_segment_id) in
    let mapped = tried ++ map_remote segment_size ∷ [] in
    let sequenced = mapped ++ create_sequence ∷ [] in
    rw
      (
        seoe_all_ok succeeds (own_segment server_segment_id) begun ok,
        ok map_local,
        connect_until-refused succeeds k node attempts opened,
        ok (map_remote segment_size),
        seoe_all_ok {D = Unit {0}} succeeds (create_sequence ∷ [])
            (record { own = tt; calls = mapped }) ok,
        seoe_all_ok {D = Unit {0}} succeeds give_back (record { own = tt; calls = sequenced }) ok,
      )
      (ap (λ calls. returned 0 (record { own = tt; calls = calls ++ terminate ∷ [] }))
        (append_assoc mapped (create_sequence ∷ []) give_back
          ∙ append_assoc tried (map_remote segment_size ∷ []) (create_sequence ∷ give_back)))
