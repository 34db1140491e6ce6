-- ===== src/Lib.antt =====
-- network_poller: an event loop over epoll, and TCP connections that run on it. These modules model
-- the C++ code under core/ and state what it guarantees.
--
-- The parts, from the bottom up, and the files that model them:
--
-- Buffer: the byte buffer of core/base/buffer. `Buffer` has the two 32-bit indices and the vector;
-- each member function is a function of the same name in snake case. An access outside the vector
-- is `none`. Counts are reduced modulo 2 ^ 32 or 2 ^ 64 where the code converts them.
--
-- Channel: EventChannel and the masks of core/net/event/event_channel.cpp and event.cpp. A channel
-- is a record with its own address, as the poller and epoll refer to it by that. HandleEvent is
-- `handle_event`, over any state on which the four callbacks work.
--
-- Poller: Poller and EpollPoller of core/net/poller and core/net/poller_impl. Poller/Epoll.antt
-- states what epoll_ctl(2) promises; the kernel is a parameter, and a call can fail.
--
-- Loop: EventLoop of core/net/event/event_loop.cpp. `World` holds the loop's members, the poller,
-- the channel objects by address, and in `rest` whatever the owners of the channels keep. Loop/Defs
-- has the calls by which a channel reaches epoll, Loop/Run the loop itself: its rounds, its tasks and
-- what other threads do between two tests of the quit flag. The lock-free queue and the eventfd are
-- parameters, in Loop/External.antt.
--
-- Connection: TcpConnection of core/net/tcp/tcp_connection.cpp, on a loop whose `rest` is the
-- connection. The four handlers and the functors that the loop runs for it are functions into
-- `Result`; what `write` and `readv` return is an argument, and the user's callbacks are functions
-- that may do anything or fail. Connection/Sending.antt has the sending side,
-- and in Connection/Delivery.antt the calls of SendInLoop and WriteHandler follow each other in any order.
--
-- Pool: EventLoopThreadPool of core/net/event/event_loop_thread_pool.cpp, with loops by address.
--
-- Server: TcpServer of core/net/tcp/tcp_server.cpp: its map of connections, the callbacks that it sets
-- on them, and what it puts in which loop's queue. Server/Accepted.antt joins it to the acceptor's rounds.
--
-- Server/System: the server together with its connections, the pollers' maps of its loops and the
-- loops' queues. A move is what the acceptor, a loop, epoll or a user may do next, and moves come in
-- any order, so the loops interleave freely; a loop takes the oldest functor of its queue. The queue is a
-- `moodycamel::ReaderWriterQueue`, for one producing thread that never changes, so the system keeps the
-- producer of each queue, and `produce` by a second thread has no defined outcome. Of a connection it
-- keeps the state and the channel's status and mask, and Server/System/Views.antt relates these to the
-- connection above. The moves that are allowed, in Server/System/Invariant.antt, say what the other
-- parties see to: Start runs on the thread of the server's loop, and so do Shutdown, ForceClose and the
-- close of a connection, so that each queue has one producer; `accept` returns a descriptor that is not
-- open; a new object has an address of its own; and CloseHandler is called for registered channels only.
-- So the close of a connection of a worker loop is no allowed move, nor is a second CloseHandler, which
-- ReadHandler can make after a message callback that closed the connection: Server/System/Refused.antt
-- is about these two. Callbacks are left out there, and so is StartRead after a close, which
-- Connection/Revived.antt is about. `drain` recurses on fuel, and the number of queued functors is
-- enough.
--
-- Acceptor: TcpAcceptor of core/net/tcp/tcp_acceptor.cpp. The process's descriptor table is a parameter,
-- in Acceptor/Files.antt: a new descriptor is the lowest that is free.
--
-- Connector: TcpConnector of core/net/tcp/tcp_connector.cpp, on a loop whose `rest` is the connector.
-- What socket, connect and SO_ERROR return is an argument, an `Attempt`.
--
-- Client: TcpClient of core/net/tcp/tcp_client.cpp. Its connector is an interface, `ConnectorCalls`,
-- which Client/Connecting.antt fills with the connector above.
--
-- Thread: EncThread of core/thread and EventLoopThread of core/net/event/event_loop_thread.cpp. The
-- owner and the new thread each have a step relation, one step for each hold of a mutex or shared
-- access, and a task or another thread may call Quit of the loop while it is there; what can be reached
-- interleaves them in any order. Thread/Base.antt has the functions
-- of EncThread that a loop thread does not use.
--
-- Socket: core/net/socket: the options and outcomes of socket_utility.cpp, and the addresses of
-- socket_addr.cpp with their texts. The system calls and the address conversions of the C library are
-- parameters, in Socket/External.antt.
--
-- Result.antt is the outcome of code that may stop at an `assert` or step outside defined behaviour;
-- the model is that of a build with assertions. Prelude.antt passes on the library's names, and has
-- the Boolean tests and the list lemmas over the native numbers. Examples holds concrete instances of
-- the parameters and the theorems at concrete states.
--
-- Loops: `read_loop` recurses on the list of what `readv` returns, `while_not_quit` on the list of
-- rounds, each of which is one return of epoll_wait, and `collect` and `handle_each` on the events
-- of one return; so no fuel runs out. A list of rounds that is used up without a Quit leaves the loop
-- running, and the result says so.
--
-- `accept_loop` recurses on the list of what awaits AcceptHandle; a list that is used up leaves the
-- loop running, and the result says so.
--
-- Not modelled: the logger of core/base/log, which only writes, and the third-party libraries.
pub mod Prelude
pub mod Buffer
pub mod Result
pub mod Channel
pub mod Poller
pub mod Loop
pub mod Connection
pub mod Pool
pub mod Server
pub mod Thread
pub mod Acceptor
pub mod Connector
pub mod Client
pub mod Socket
pub mod Examples
