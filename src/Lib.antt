-- ===== src/Lib.antt =====
-- Models of the hm-platform libraries, with the theorems that make them correct. hm-platform is a
-- set of C libraries for an RTSP media server: hmlib (event loops, containers, base64), hmnet and
-- hmshare (network I/O over the event loops), hmrtspsvr (the server), and parsers and bindings around
-- them. Modelled are the parts below, each in a file of its own with child modules for its lemmas.
--
-- Base: what the models share. Names of the libraries, lists over native numbers (Base/Lists), tests
-- on numbers and the chain of calls that may abort (Base/Tests): a failed assertion, BUG or an access
-- out of bounds is the result `none`.
--
-- Ports: the allocator of RTP/RTCP ports, hm-libs/hmrtspsvr/src/utils/ports.c. The allocator's record
-- is PortsCtl, its bitmap a list of bytes, one for each bit; set_range, set_reserved, get_one, put_one, get_pair,
-- put_pair and get_range are the functions __jpf_ports_* of those names, and Ports/Runs has the calls
-- of the entry points, each of which holds the lock. The loops of get_one and get_pair count down
-- from the size of the range, as in the code, so no fuel is added.
--
-- NetBuf: the ring of I/O blocks between a connection and its socket,
-- hm-libs/hmnet/src/hm_netbuf.c. net_buf_alloc, net_buf_write (with append and fill_next) and
-- net_buf_flush are hm_net_buf_alloc, __hm_net_buf_write and hm_net_buf_flush. The worker that sends
-- bytes is a parameter, assumed to take no more bytes than it is given. The loop of the flush runs on
-- fuel, the number of blocks and one more.
--
-- Defrag: the reassembly of packets from fragments, hm-libs/hmshare/src/hm_fragments.c. The table of
-- packets in progress is a list of PacketFrags; defrag, cached, enqueue and linearize are the functions
-- hm_net_packet_* of those names, and expire is the timer's callback, which names its entry by identity
-- where the code has its address. g_malloc is a parameter, assumed as glib documents it: NULL
-- for no bytes, and else as many as asked for, of arbitrary contents (glib aborts when memory is short).
-- Counters wrap at 32 and 64 bits; a copy position beyond 31 bits is `none`.
--
-- Event: reference-counted events and the event loop, hm-libs/hmlib/src/hm_event.c. EventLoop holds
-- the loop's record and the memory of the events; attach, remove, add_events, remove_events and quit
-- are the calls of other threads, which hand the loop operations through its queue (push), and
-- exec_operation is one round of hm_event_loop_exec_operations, so calls of other threads may stand
-- between two rounds. Event/Runs lets calls and the loop's moves follow each other in any order. libev
-- is a parameter. There is one loop, no callback's body, no floating-point time and no wakeup pipe.
--
-- Sched: the distribution of event sources over event loops, hm-libs/hmlib/src/hm_sched.c. sched_new,
-- sched_add and sched_remove are hm_sched_*, find_best_loop is hm_find_best_loop. The event loops are
-- a record of operations that is a parameter, of which attaching and detaching may abort. Weights wrap
-- at 32 bits. A source's entry names its loop by index.
--
-- BufferQueue: the queue of media buffers that one producer fills and several consumers read,
-- hm-libs/hmrtspsvr/src/utils/bufferqueue.c. producer_put, producer_reset_queue, consumer_new,
-- consumer_move, consumer_get, consumer_kill and the others are the functions bq_* of those names. A
-- link of the queue is named by its element's serial number, and a link that is not in the queue is
-- freed memory. BufferQueue/Runs lets producer and consumers call in any order. The search and removal
-- of elements that all have seen runs on fuel, the number of elements and one more. Counters wrap at 64
-- bits. Producers shared by key and the callbacks of waiting descriptors are left out.
--
-- LinkedList: doubly linked lists, hm-libs/hmlib/src/hm_list.c, over a heap of links with addresses for
-- pointers; list_add, list_remove and the others are hm_list_* of those names. A use of NULL or of freed
-- memory is `none`. The walks run on fuel, one more than the number of addresses that were given out,
-- which is enough as a list has no address twice. Allocation never fails, and gives an address that was
-- never given out before. hm_list_foreach is left out.
--
-- Queue: queues on these lists, hm-libs/hmlib/src/hm_queue.c; queue_push_tail and the others are
-- hm_queue_*. Counts wrap at 32 bits. Queue/Runs has sequences of calls.
--
-- RtspOutput: what the server sends to an RTSP client, hm-libs/hmrtspsvr/src/rtsp/rtsp.c. write_bytes,
-- write_data, would_block and client_write are rtsp_client_* of those names. The socket is a parameter:
-- its answers to the calls of send are a list, behind whose end it takes no more, so that no fuel is
-- needed. Calls are whole, as the lock makes them, but for RtspOutput/Stalls. The client's sessions and
-- its parser are left out, and so is what becomes of the sessions of a client that is killed.
--
-- Base64: hm-libs/hmlib/src/hm_base64.c. base64_encode and base64_decode return the bytes that the
-- code writes into the buffer it allocates; a write of the encoder behind its buffer is `none`.
--
-- The parts that interact through these: a connection's writes end in the ring (NetBuf), datagrams
-- pass Defrag on their way up, the event loop keeps its operations in a Queue over a LinkedList, sessions draw port pairs (Ports), and watches put their events on loops
-- through Sched.
--
-- Not modelled: 3rdparty/ and hm-libs/hmxml, hm-libs/mxml (copies of other projects' libraries);
-- hm-libs/hmrtspparser (taken from GStreamer); allocation, threads and sockets (calls of the operating
-- system); media and RTP handling of hm-libs/hmrtspsvr (taken from another server).
pub mod Base
pub mod Ports
pub mod NetBuf
pub mod Base64
pub mod Sched
pub mod Defrag
pub mod Event
pub mod BufferQueue
pub mod LinkedList
pub mod Queue
pub mod RtspOutput
