-- ===== src/Initiator/Main.antt =====
-- initiator/initiator_main.c: the arguments, the greetings of the peers, and the experiments that are
-- switched on, one after the other.
use sisci_perf.Common.{
  ℕ, zero, suc, ◌-◌, ◌/◌, Bool, ◌&&◌, ◌||◌, not, Option, none, some, List, [], ◌∷◌, ◌++◌, length,
  ltb, leb, ◌==◌, if◌then◌else◌,
}
use sisci_perf.Protocol.{create, data_interrupt, Delivery, uint_mod}
use sisci_perf.Peer.Boot.{Parsed, is_empty}
use sisci_perf.Initiator.Service.{PeerService}
use sisci_perf.Initiator.World.{
  initialize, open_adapter, close_adapter, terminate, create_delivery_interrupt,
  remove_delivery_interrupt, connect_order, disconnect_order, Resource, adapter_open,
  delivery_interrupt, order_interrupt, hold_all,
}
use sisci_perf.Initiator.Host.{
  Adapter, Host, Program, undefined, main_closed, after, ◌>>=◌, ◌>>◌, return, returned, stopped,
  same_command, same_type, seoe_each, receive, counting,
}
use sisci_perf.Initiator.Segments.{
  run_single_segment_experiment_pio, run_var_size_experiment_pio, run_var_size_segments_experiment,
}
use sisci_perf.Initiator.Transfers.{
  run_single_segment_experiment_dma, run_var_size_experiment_dma, run_experiment_dma_vec,
}
use sisci_perf.Initiator.Signals.{
  run_experiment_interrupt, run_experiment_data_interrupt, run_ping_pong_experiment_pio,
}
use sisci_perf.Initiator.BroadcastDma.{run_broadcast_dma_experiment}
use sisci_perf.Initiator.Scaled.{
  run_scale_up_segment_experiment_pio, run_scale_out_segment_experiment_pio,
  run_scale_up_out_segment_experiment_pio, run_broadcast_pio_experiment,
  run_single_segment_experiment_interleaved_dma,
}

-- MAX_PEERS of initiator/initiator_main.h.
abbrev pub max_peers : ℕ
max_peers = 8

-- An argument, a number of at least `low` that fits an unsigned int. The strings are without their
-- final 0.
unfoldable pub read_number : (strtol : List ℕ → Parsed) (low : ℕ) (arg : List ℕ) → Option ℕ
read_number strtol low arg =
    let p = strtol arg in
    if is_empty arg || p.has_rest
    then none
    else if (p.negative && ltb 0 p.value) || ltb p.value low || leb uint_mod p.value
    then none
    else some p.value

abbrev pub also : ℕ → Option (List ℕ) → Option (List ℕ)
also id none = none
also id (some ids) = some (id ∷ ids)

abbrev pub then_also : Option ℕ → Option (List ℕ) → Option (List ℕ)
then_also none rest = none
then_also (some id) rest = also id rest

unfoldable pub read_ids : (strtol : List ℕ → Parsed) → List (List ℕ) → Option (List ℕ)
read_ids strtol [] = some []
read_ids strtol (arg ∷ args) = then_also (read_number strtol 0 arg) (read_ids strtol args)

abbrev pub with_ids : ℕ → Option (List ℕ) → Option (ℕ × List ℕ)
with_ids num_peers none = none
with_ids num_peers (some ids) = some (num_peers, ids)

-- The number of peers and their ids, from the arguments behind the first.
unfoldable pub read_peers :
    (strtol : List ℕ → Parsed) → Option ℕ → List (List ℕ) → Option (ℕ × List ℕ)
read_peers strtol none args = none
read_peers strtol (some num_peers) args =
    if ltb max_peers num_peers || not (length args == num_peers)
    then none
    else with_ids num_peers (read_ids strtol args)

-- `none` is where main prints its usage or an error, and exits.
unfoldable pub read_arguments : (strtol : List ℕ → Parsed) → List (List ℕ) → Option (ℕ × List ℕ)
read_arguments strtol (name ∷ first ∷ arg ∷ args) =
    read_peers strtol (read_number strtol 1 first) (arg ∷ args)
read_arguments strtol argv = none

-- The macros SISCI_PERF_… that choose the experiments.
pub record Switches : Type 0 where
  pub pio : Bool
  pub dma : Bool
  pub scale_up : Bool
  pub scale_out : Bool
  pub scale_up_out : Bool
  pub var_size : Bool
  pub var_size_dma : Bool
  pub dma_vec : Bool
  pub int : Bool
  pub data_int : Bool
  pub ping_pong_pio : Bool
  pub broadcast_pio : Bool
  pub var_size_segments : Bool
  pub interleaved_dmas : Bool
  pub broadcast_dma : Bool

-- DIS_DMA_MAX_VECLEN and DIS_BROADCAST_NODEID_GROUP_ALL of SISCI, and what stands where two orders
-- have no size written.
pub record Surroundings : Type 0 where
  pub veclen : ℕ
  pub broadcast_node : ℕ
  pub stack₁ : ℕ
  pub stack₂ : ℕ

-- scale_up_order_interrupts: one half of the segments is at the first peer, one at the last.
unfoldable pub scale_up_peer : (num_peers i : ℕ) → ℕ
scale_up_peer num_peers i = if ltb i (num_peers / 2) then 0 else num_peers - 1

-- What a delivery has to be to count as a greeting.
unfoldable pub greets : Delivery → Bool
unfolding same_command same_type
greets d = same_command d.command_type create || same_type d.delivery_type data_interrupt

-- The handles of main that an experiment with these peers works through.
abbrev pub orders_to : List ℕ → List Resource
orders_to [] = []
orders_to (p ∷ ps) = order_interrupt p ∷ orders_to ps

abbrev pub handles_for : List ℕ → List Resource
handles_for peers = adapter_open ∷ delivery_interrupt ∷ orders_to peers

abbrev pub first_peer : List ℕ
first_peer = 0 ∷ []

-- The peers up to a number.
abbrev pub all_peers : ℕ → List ℕ
all_peers zero = []
all_peers (suc n) = n ∷ all_peers n

module _ (P : PeerService) (adapter : Adapter) where
  abbrev pub left : Host P.State → Unit {0} → Program P.State (Unit {0})
  left w done' w' = returned tt (record w' { held = w.held; lost = w'.held ++ w'.lost })

  -- A call of an experiment, with variables of its own. It is given the descriptor, the delivery
  -- interrupt and the order interrupts of some peers; none of them is closed inside.
  unfoldable pub enter : List ℕ → Program P.State (Unit {0}) → Program P.State (Unit {0})
  enter peers m w =
      if hold_all (handles_for peers) w.held
      then after (m (record w { held = [] })) (left w)
      else undefined main_closed

  unfoldable pub when : Bool → Program P.State (Unit {0}) → Program P.State (Unit {0})
  when on m = if on then m else return tt

  unfoldable pub greeted : ℕ → Program P.State (Unit {0})
  greeted i = do
    d ← receive P adapter
    if greets d then seoe_each P adapter (connect_order i d.node_id d.id ∷ []) else stopped

  unfoldable pub scale_up_both : (num_peers : ℕ) → Program P.State (Unit {0})
  scale_up_both n = do
    enter (0 ∷ (n - 1) ∷ []) (run_scale_up_segment_experiment_pio P adapter n (scale_up_peer n))
    enter first_peer (run_scale_up_segment_experiment_pio P adapter n (λ i. 0))

  unfoldable pub run_experiments :
      Switches → Surroundings → (num_peers : ℕ) → Program P.State (Unit {0})
  run_experiments on s n = do
    when on.pio (enter first_peer (run_single_segment_experiment_pio P adapter 0))
    when on.dma (enter first_peer (run_single_segment_experiment_dma P adapter 0))
    when on.scale_up (scale_up_both n)
    when on.scale_out (enter (all_peers n) (run_scale_out_segment_experiment_pio P adapter n))
    when on.scale_up_out (enter (all_peers n) (run_scale_up_out_segment_experiment_pio P adapter n))
    when on.var_size (enter first_peer (run_var_size_experiment_pio P adapter 0))
    when on.var_size_dma (enter first_peer (run_var_size_experiment_dma P adapter 0))
    when on.dma_vec (enter first_peer (run_experiment_dma_vec P adapter s.veclen 0))
    when on.int (enter first_peer (run_experiment_interrupt P adapter s.stack₁ 0))
    when on.data_int (enter first_peer (run_experiment_data_interrupt P adapter s.stack₂ 0))
    when on.ping_pong_pio (enter first_peer (run_ping_pong_experiment_pio P adapter 0))
    when on.broadcast_pio
        (enter (all_peers n) (run_broadcast_pio_experiment P adapter s.broadcast_node n))
    when on.var_size_segments (enter first_peer (run_var_size_segments_experiment P adapter 0))
    when on.interleaved_dmas
        (enter (all_peers n) (run_single_segment_experiment_interleaved_dma P adapter n))
    when on.broadcast_dma
        (enter (all_peers n) (run_broadcast_dma_experiment P adapter s.broadcast_node n))

  -- main, behind its arguments. SCIClose and SCITerminate end it.
  unfoldable pub run_main : Switches → Surroundings → (num_peers : ℕ) → Program P.State (Unit {0})
  run_main on s n = do
    seoe_each P adapter (initialize ∷ open_adapter ∷ create_delivery_interrupt ∷ [])
    counting P adapter n 0 greeted
    run_experiments on s n
    seoe_each P adapter (remove_delivery_interrupt ∷ [])
    counting P adapter n 0 (λ i. seoe_each P adapter (disconnect_order i ∷ []))
    seoe_each P adapter (close_adapter ∷ terminate ∷ [])

-- The whole of main; arguments that it refuses stop it.
unfoldable pub main_of :
    (P : PeerService) (adapter : Adapter)
    → Switches
    → Surroundings
    → Option (ℕ × List ℕ)
    → Program P.State (Unit {0})
main_of P adapter on s none = stopped
main_of P adapter on s (some peers) = run_main P adapter on s peers.0
