-- ===== src/Lib.antt =====
-- gcluster: nodes of a cluster that hold one session with each other node, over a connection which
-- either of the two may have opened. This library models the package net, which keeps the sessions,
-- and the agent above it, and proves what makes them correct.
--
-- The parts, and the files that model them:
-- - Common: numbers, byte strings (Go's string and []byte), association lists for sync.Map, results
--   for Go's errors, and channels that are closed as a signal.
-- - Net/Error, Net/Const, Net/ProtoType, Net/Packet: net/error.go, net/const.go, net/proto_type.go,
--   net/packet.go. An int8 is an integer whose range is a hypothesis; the head of a packet is its six
--   bytes, big endian.
-- - Net/Config: the init methods of SessionConfig (net/session.go), HandshakeConfig
--   (net/handshake.go) and ServiceConfig (net/service.go). The methods change the configuration in
--   place; here they return the new one.
-- - Net/PacketQueue: gmpsc.Queue, which is not part of the repository, as a record of operations.
--   IsFifo states the laws that the code relies on; theorems on the queue's contents have them as a
--   hypothesis.
-- - Net/Session: the record session and its methods of net/session.go that touch nothing else
--   (send, sendDirect, keepActive, refreshActiveTime, inactive, SessionPendingPacket).
--   Net/Session/Wakeup models sendDirect against SessionPendingPacket as single atomic operations.
-- - Net/Service: the record Service with two heaps, of sessions and of establishments: a pointer is
--   an index. Net/Service/Lifecycle has the session's methods that call back into the service (start,
--   close, closeBaseLocked, tick), the handlers of net/session_packet_handler.go, sessionMap.close of
--   net/net.go and Service.Close. Calls on connections, on gnet sessions, on the timer system and on
--   the session handler are recorded in the field effects, the latest first. Net/Service/Ticks has
--   onSessionTicker and loop, and Net/Service/Draining what loop does to the sessions.
-- - Net/Handshake: the registry of messages, readProto, writeProto, the writers of the five messages and
--   readHandshakeProto of net/handshake.go, with the coding of a message as a parameter (IsCodec
--   states what it must keep).
-- - Net/SessionIo: SessionReadPacket and SessionWritePacket of net/session_io.go. Net/BufferIo has
--   what they use and is not part of the repository, gutils' FixedBuffer and gnet's ConnReader and
--   ConnWriter, as a record of operations; IsBuffer, IsReader and IsWriter state the laws that the
--   code relies on. Output is the writing half, Rounds to Parsing are on reading, Flushing to Delivery
--   on writing, and Sequences, Fifo and Transport on the two ends of a connection together.
-- - Net/TimerHeap: TimerHeap of net/timer_heap.go. A pointer to a timer is a number; HeapOps is gutils'
--   heap, whose laws IsHeap states; the system's timer is a state that fires and leaves a tick. Net/
--   TimerHeap/Steps has the calls, the ticks and the rounds of update in any order. The whole loop of
--   update takes what a callback and the other goroutines do to the heap after each round as an
--   argument, where the callback returns.
-- - Cluster: AgentConfig, CreateAgent, ConnectNode and Send2Node of cluster.go; the centre of
--   center/center.go is a parameter.
-- - Net/Establishment: establishing and establishment of net/service_establish.go; Outcome is the
--   switch of establishEnd.
-- - Net/Prog: goroutines as trees of atomic steps on the shared memory and of questions to the world
--   outside (the clock, dialling, reading and writing a handshake message). An interleaving runs any
--   number of them, and starts more at any time. The world outside answers anything.
-- - Net/Establish: Connect, onPassiveConn and what they run. What the code does while it holds the
--   mutex of an establishment is one step; so is the end of an attempt, which creates the session.
--   Establish/Interleaved and Establish/Accepting prove for each goroutine that it touches
--   establishments by their methods only; Establish/Waiting has what follows for every interleaving.
-- - Net/Examples: concrete services, sessions and runs, on which the theorems are applied.
--
-- Times, durations and sizes are integers; differences of times wrap around at 64 bits. Comparisons
-- of strings are those of their bytes. What a call of time.Now, of the timer system or of gnet
-- returns is an argument of the operation.
--
-- Fuel: SessionPendingPacket is a loop on fuel. One round is enough where a packet is queued and two
-- where none is, since the channel of the signal holds at most one. The loop of the service is on
-- fuel too: a round for each node that waits, and one more, are enough. readFull and writeFull take
-- two rounds for each byte and one more: a round in two moves a byte, the other refills the buffer or
-- writes it out. writeFromBuffer takes a round for each byte in the buffer. While the clock stands
-- still the loop of TimerHeap.update takes at most a round for each unit of time since each of its
-- timers was due, and one more, if what callbacks and other goroutines do to the heap between the
-- rounds makes no more rounds necessary.
--
-- Not modelled: the accept loop, options and logging, the pool of byte slices, deadlines and failing
-- writes of the handshake, callbacks of timers that do not return, and the code generated from
-- protos.proto. The goroutines exchange handshake messages as values: their bytes are in
-- Net/Handshake.
pub mod Common
pub mod Net
pub mod Cluster
