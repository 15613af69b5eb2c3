-- ===== src/Lib.antt =====
-- sisci-perf measures remote memory access over SISCI: `initiator/` runs the experiments on one
-- node, and orders the segments and interrupts it needs from `peer/` processes on the other nodes
-- with the messages of `lib/protocol.h`. `lib/` also holds the timed loops that make the transfers.
-- `standalone/memcpy/` compares ways of copying into a mapped remote segment, and the two ping-pong
-- programs of `standalone/` bounce a counter between two nodes.
--
-- Protocol: lib/protocol.h, the orders and deliveries.
-- Memory: the heap arrays of peer/peer_main.c, with the cells that are never written.
-- Peer: peer/peer_main.c, with get_node_id of lib/print_node_id.c and SEOE of
--   lib/sisci_glob_defs.h. Peer.World has the globals (`Peer`), the calls that leave the program
--   and the monad of a callback; Peer.Boot the start of main, Peer.Tables the loops of
--   handle_destroy_order, and Peer.Orders the handlers, order_callback and the part of main behind
--   the termination signal. Peer.Registry is the abstract view: which entries are alive in each
--   table, and which deliveries are sent.
--   Peer.Entries, Create, Destroy, Teardown and Callback are on runs in which no call fails; Faults,
--   Underflow, Shortage and Unchecked on the others. SISCI, pthreads, malloc, reallocarray and kill
--   are the parameter `Environment`, whose answers may depend on every call before.
-- Memcpy: standalone/memcpy/client.c. Cursor has the buffers and pointers; Chunks, Tuned, Blocks and
--   Avx2 the copying routines, by the vocabulary they copy with. Memcpy.Client has
--   run_benchmark and the loops of main; under it, Program is main itself, Measures one measurement,
--   Sweeps the loops over sizes, Due and Reach the printed lines, and Outcome the whole. The lines are
--   without their times.
-- Standalone: SEOE and the ways to end of the programs of standalone/; MemcpyServer is
--   standalone/memcpy/server.c, PingPong the loops of ping-pong-client.c and ping-pong-server.c as
--   steps with the words on their way, PingPong.Mains the calls around them.
-- Pio: lib/common_read_write_functions.h, the loops that run until the timer fires. Pio.Meter has
--   their state, Pio.Loops the loops, Pio.Counted the reasoning on `while (!timer_expired)`, the
--   others what the loops do. The flag of the timer's handler is `clock`, the value of its n-th
--   read, and SISCI's answers are the parameter `Outside`.
-- PingPong: ping_pong_pio of lib/common_read_write_functions.h and the thread of
--   peer/ping_pong_thread.c. Steps has the steps of each and the bytes on their way. Thread has what
--   surrounds the thread's loop: its arguments, its calls, and how it is cancelled.
-- Initiator: initiator/, from its arguments to its end. World lists the calls of SISCI with the
--   handles that each works through, opens and closes; Host has the state of a run (peers,
--   deliveries, open handles, log) and SEOE, orders and loops; Segments, Transfers, Signals and
--   Scaled and BroadcastDma have the experiments, DmaVec the vectors, Main the arguments and main. A
--   timed loop is one call here. Service is the interface between the two sides: what an order does
--   to a peer. Peer.Serving fills it with the peer's callback, so that System is about both programs.
--   Ends, Rules, Repeats and Joining are the reasoning: Meets says what a run that returns leaves, and
--   that a run that does not return was stopped by a call that failed or a sequence that did not start.
-- Timer: lib/common_read_write_functions.c.
-- Signal: lib/block_for_termination_signal.c, with the arrival of signals as steps, at the thread of
--   the function or at another one.
--
-- Numbers are natural numbers. Counts and numbers of `unsigned int` wrap at 2^32 where the peer
-- changes them; sizes, addresses and the loops' counters do not wrap. Loops are structural in the
-- rounds that are left, or run on fuel: a fuel of one more than the bytes, words or reads of the
-- flag that are left is enough, since each round uses one up at least; an `int` that doubles from 8
-- has 28 rounds at most, so that a fuel of 32 is enough for the sweeps of the memcpy client, where
-- leaving `int` is `undefined`. The pointers of the memcpy client are offsets into two separate
-- memories; where a routine needs aligned addresses, the addresses at which the buffers begin are
-- parameters, and a misaligned access is `none`.
--
-- Not modelled: printing and the measured times (StartTimer and StopTimer), strtol, atoi, malloc
-- and SISCI themselves, the tools, the charts, and what the ping-pong server copies besides its
-- counter. What a call with a closed handle does is not followed: such a call is `undefined` here,
-- while in the recorded run charts/6peer.log the experiments that ask a closed segment for its id
-- go on behind that. The handles of main are checked where an experiment is entered, those of an
-- experiment at each call. The busy waits of the ping-pong programs read words that are not
-- volatile: a round of them may go by the word that was read before. A new segment is taken to be
-- cleared, and what one side stores into a segment of the other to arrive in order. An order is
-- carried out by the peer before its delivery is waited for; a peer whose behaviour becomes
-- undefined is not followed, and one that sends no delivery is waited for. An attempt to start a
-- sequence is repeated `patience` times at most; a run that would go on is unfinished. The main
-- thread of a peer is not run beside its callbacks: kill(main_pid, SIGTERM) is a call in the log.
pub mod Common
pub mod Memory
pub mod Protocol
pub mod Initiator
pub mod Memcpy
pub mod Peer
pub mod PingPong
pub mod Pio
pub mod Signal
pub mod Standalone
pub mod Timer
