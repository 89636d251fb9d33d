-- ===== src/Lib.antt =====
-- potato: a small C++ network library. A `TcpServer` accepts connections, an `EventLoop` waits for
-- events in each thread, and a `TcpConnection` moves bytes between its socket and two buffers.
--
-- Files, with the code that each is about:
--
-- - Base: numbers, lists, tests and faults that the other files share. Base/Int has the integers
--   and their two's complement, Base/Decimal the decimal digits.
-- - Buffer, Buffer/Ints: potato/net/Buffer.h and Buffer.cpp. The record `Buffer` is the vector and
--   the two indices; each method is the function of its name in snake case, from the buffer to its
--   result and the buffer after it. Buffer/Queue is the abstract view, a queue of bytes.
--   Buffer/Contents, Space, Write, Read, Wire, RoundTrip and Refine hold proofs.
-- - Endian: potato/utils/Endian.h. Endian/Little is a machine of one byte order.
-- - IoWatcher, IoWatcher/Dispatch: potato/net/IOWatcher.h and IOWatcher.cpp, for Linux. Each call
--   takes an event and the kernel's interest list, and gives both back. IoWatcher/Kernel is an
--   instance of epoll.
-- - IpAddress: potato/net/IpAddress.h and IpAddress.cpp.
-- - Socket: potato/net/Socket.h and Socket.cpp.
-- - SocketCommon: potato/net/SocketCommon.h and SocketCommon.cpp, with the guard of a socket in
--   potato/utils/ScopeGuard.h and `createWakeupSocket` of potato/net/EventLoop.cpp. The record
--   `Process` has the descriptors that were given and closed and what the kernel was told.
--   SocketCommon/Guards is about `socketPair` on Windows.
-- - Acceptor: potato/net/Acceptor.h and Acceptor.cpp, for Linux. The record `World` is the acceptor
--   with the connections that its callback got and the descriptors that the process was given and
--   has closed. It uses Socket and IoWatcher. Acceptor/Ledger counts the descriptors, Replies says
--   what the kernel's replies bring, Rounds is about one round of `handleAccept`, Loop about the
--   whole of it, Life about an acceptor from its constructor to its destructor.
-- - SpinLock: the spin lock of potato/thread/Mutex.h, as a step relation. Threads run operations on
--   a shared value; the steps of a thread are those of the guard's constructor, of `lock`, of the
--   operation (a read and a write) and of `unlock`. SpinLock/Exclusion is about who stands behind
--   the lock, SpinLock/Serial about the value; SpinLock/Schedule runs threads in a given order.
-- - TcpConnection: potato/net/TcpConnection.h and TcpConnection.cpp. The record `World` is the
--   connection and what its calls reach. It uses Buffer, IoWatcher and Socket. TcpConnection/Live
--   says what an open connection is; Stream is about `write`, Flushing and Drain about
--   `handleWriteEvent`, Receive and Arrivals about `handleReadEvent`, Closing about the end of a
--   connection. TcpConnection/Calls has the calls that any thread may make, through the queue of an
--   EventLoop whose functions are those of the connection; Outbox is the abstract view of what a
--   connection owes when threads write to it, Handing has the steps, Delivery the proof. Fate,
--   Endings, Turns and Once follow a server's connection that threads write to and close, with a
--   kernel that may fail; Completing is about a callback that closes its connection; Overtaken is
--   about a write that waits in the queue while its connection changes hands, Racing about a call
--   of another thread that the end of its connection overtakes.
-- - EventLoopPool: potato/net/EventLoopPool.h and EventLoopPool.cpp. EventLoopPool/RoundRobin is
--   about `start` and `getNextLoop`, EventLoopPool/Stopping has the destructor.
-- - EventLoop: the queue of functions and the wakeup of a loop, in potato/net/EventLoop.h and
--   EventLoop.cpp. EventLoop/Running has the constructor, `startLoop` and the destructor; a round
--   of `startLoop` has two functions: what `handleIOEvent` and other threads do before the queue is
--   taken, and what other threads do after. EventLoop/Order is about the queue, EventLoop/Rounds
--   about one round, EventLoop/Life about a loop from its constructor to its destructor.
-- - TcpServer: the pool of connections in potato/net/TcpServer.h and TcpServer.cpp. Each call is
--   what it does where no other thread runs. TcpServer/Pool is about the numbers of its
--   connections, TcpServer/Lending about lending them. TcpServer/Service has `newConnection` and
--   `destroyConnection`, which join the pool, the loops and the connections: its record `Server`
--   has a TcpConnection world for each index. TcpServer/Turnover follows one connection,
--   TcpServer/Peers a whole server whose peers come and go, with the proof in Peers/Reception.
--   TcpServer/Sections has the parts of `borrowConnection` and `returnConnection` that run under
--   the spin lock, for threads that take it in any order; what the test without the lock reads is
--   left open. TcpServer/Front has the constructor, the setters, `start`, and the acceptor with
--   `newConnection` as its callback; Opening is about the connections that come, Whole about a
--   server from its constructor on, Deleting about its destructor.
-- - Timestamp, Date: potato/time/Timestamp.h, Timestamp.cpp, Date.h and Date.cpp. Date/Calendar is
--   about the lengths of months, Date/Shift about dates that are moved, compared and subtracted.
--   Date/Fields has the fields of a date and the dates made of fields. Timestamp/Text has the
--   clock, and the texts of times and dates.
-- - StringSlice: potato/utils/StringSlice.h, with `split` in StringSlice/Split and `find` of a byte
--   in StringSlice/Find. StringSlice/FindSlice has `find` of a slice, with its table: Borders is
--   about beginnings of the pattern, Table about the entries, Next about one step, Fill and Search
--   about the two loops. StringSlice/Trim is about `trim`, StringSlice/Same about `==`.
--
-- Conventions. A program that stops is a `Fault`: an assertion that fails (assertions are enabled),
-- a null pointer that is read, an index out of range, a vector that throws `length_error`, a call
-- of `abort`, a loop that does not end. A `size_t` is a natural number below 2 ^ 64, with its
-- wrap-around where a sum can pass it; a `std::vector<char>` holds at most 2 ^ 63 - 1 bytes. A
-- decimal number is printed with fuel for 20 digits, which is enough for 64 bits. Memory is
-- otherwise never short.
--
-- What is not under potato/ is a parameter: the system's byte order, epoll, the system calls of
-- sockets, the text forms of addresses, the clock, the local time and what the formatting library
-- makes of an integer. Each law that is asked of them is what their documentation says, and the
-- tests have an instance. The callbacks of a connection are functions on the whole state, which may
-- call the connection again.
--
-- Not modelled: the functions of potato/net/SocketCommon.cpp that only pass their arguments on to
-- the system call of their name, its table of error texts, the logger, which only does input and
-- output, and the wrappers of std::mutex. The orders in which threads run are modelled for the spin
-- lock, for the threads of the pool that add their loops, for the pool's destructor, which finds
-- each thread at the test of its loop, before its queue is taken or in its queue, and for threads
-- that write to a connection or close it, whose calls are single steps between those of its loop,
-- or two steps with the end of the connection in between. The steps of the threads at the spin lock
-- happen in one order: the weaker orders of the memory model are not modelled, and whether a thread
-- that spins ever gets the lock is not said. In TcpServer a new connection is taken up by its loop
-- before the next call of the server, each connection has its own interest list, and
-- `destroyConnection` runs on that loop's thread.
--
-- The loops of StringSlice are recursions on the number of rounds that are left, which is the
-- length of the slice; the inner loop of the search for a slice has fuel for one round more than
-- the bytes matched so far, of which each round gives up at least one, and running out of it would
-- be a fault. The loop that reads the wakeup socket has fuel for one read more than there are
-- bytes, and each read but the last takes four; the loop of `startLoop` is a recursion on its
-- rounds, and a fault if they are used up before it is stopped. The loop of `handleAccept` is a
-- recursion on the kernel's replies in its rounds, and a fault if they are used up. The loop of
-- `handleReadEvent` is a recursion on the replies of the successive reads: in edge-triggered mode
-- it ends with the first reply that has no bytes.
pub mod Acceptor
pub mod Base
pub mod Buffer
pub mod Date
pub mod Endian
pub mod EventLoop
pub mod EventLoopPool
pub mod IoWatcher
pub mod IpAddress
pub mod Socket
pub mod SocketCommon
pub mod SpinLock
pub mod StringSlice
pub mod TcpConnection
pub mod TcpServer
pub mod Timestamp
