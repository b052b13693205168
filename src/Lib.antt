-- ===== src/Lib.antt =====
-- TAS: TCP as a service. Applications exchange bytes with peers through circular buffers that they
-- share with TAS. The fast path (tas/fast) handles the packets of open connections and the notices of
-- applications; everything rare goes to the slow path (tas/slow). A proxy (proxy) carries the
-- control messages of applications in virtual machines.
--
-- The parts and their files:
--   Fast/Flow          include/tas_memif.h, the state of a flow
--   Fast/Seq           tas/fast/tcp_common.h, windows of sequence numbers
--   Fast/Options       tas/fast/tcp_common.h, the parser of TCP options
--   Fast/Buffer        tas/fast/fast_flows.c, copies to and from the circular buffers
--   Fast/Segment       tas/fast/fast_flows.c, flow_tx_segment and flow_tx_segment_gre
--   Fast/Step          what a step of the fast path reads and does besides the flow
--   Fast/Transmit      tas/fast/fast_flows.c, the handlers of the transmit side
--   Fast/Receive       tas/fast/fast_flows.c, the stages of fast_flows_packet
--   Fast/Packet        tas/fast/fast_flows.c, fast_flows_packet and its acknowledgements, whole
--   Fast/Classify      tas/fast/fast_flows.c, the flow lookup and the checks of headers
--   Fast/Qman          tas/fast/qman.c, the scheduler of transmissions: flows and machines
--   Slow/Congestion    tas/slow/cc.c, congestion control and the detection of stuck connections
--   Slow/Packetmem     tas/slow/packetmem.c, the free blocks of packet memory
--   Slow/Arp           tas/slow/arp.c, the ARP cache; System runs it with its timers
--   Slow/Routing       tas/slow/routing.c, the routes
--   Slow/Nicif         tas/slow/nicif.c, flow identifiers, the flow hash table, connections' flows
--   Slow/Tcp           tas/slow/tcp.c, local ports, the states of a connection, listeners, the table
--   Utils/Timeout      lib/utils/timeout.c, the timeouts of the slow path
--   Proxy/Ring         proxy/shmring.c, the message ring between a guest and the host
-- A definition has the name of the C function that it translates, or of what it does for a part of
-- one. A file's children hold the proofs. Base holds what the modules share.
--
-- A handler is a function of the flow, which it runs on under the flow's lock, and of the memory where
-- it copies. It returns the new flow with a list of effects: queues set, notifications for the
-- application, packets sent. An abort of the process is a result of its own. A goto of the receive
-- handler is a case of Stage. Machine words are natural numbers with the wrap of C written out.
--
-- The option loop runs on fuel, one unit for a round. The option bytes are at most 40, and a round
-- moves ahead by one or more, so 41 units are enough where no option has length 0. The lookup goes
-- through 4 buckets, as in the source.
--
-- The queue manager's lists are linked by indices, as in the source, with `none` for the end. Its loops
-- run on fuel, one unit for a round, and what is said of them holds on any fuel; the order of the list
-- without limit is said for fuel for as many rounds as chunks are asked for. The search of the skip list
-- has fuel for every flow queue and one more round. A poll of congestion control has the 128 rounds of the
-- source. The assertions of the queue manager on its lists' flags are left out. A failed
-- assertion of congestion control, an abort and a division by 0 are `none`; whether a request for a
-- retransmission finds room in the queue to the fast path is an input of the poll.
--
-- The slow path's operations return the new state with a list of effects too. A route is followed on
-- fuel, for two rounds where every next hop is near; the search for a port has fuel for the 57344
-- ephemeral ports; the loop that moves entries of the flow hash table needs at most 17 rounds, since its
-- empty slot is at most 19 buckets from the hash and comes nearer in each. Random numbers, the checksum
-- of a connection's addresses and whether malloc has memory are arguments. Life cycles (the ARP
-- cache, flow identifiers, a connection, a listener) are runs of a list of events.
--
-- A time that util_timeout_arm does not take (2^27 microseconds or more) aborts the operations that arm it.
-- The effects of a connection on the table of connections and on the list of congestion control are
-- carried out in its runs, with their aborts.
--
-- A manager of timeouts has its two linked lists as lists. A poll of it calls the handler, a parameter, for
-- up to 64 timeouts, as in the source.
--
-- Not modelled: the tunnels of the slow path's handshake (VIRTUOSO_GRE is 0) and its option parser;
-- checksums, tracing, debug output, prefetching, the device, and statistics that are off
-- by default. Whether congestion is signalled is a parameter, since the source computes it in floating
-- point. Build options are those of the default build (ALLOW_FUTURE_ACKS, FLEXNIC_PL_OOO_RECV).
pub mod Base
pub mod Fast
pub mod Proxy
pub mod Slow
pub mod Utils
