-- ===== src/Lib.antt =====
-- raft_server: a model of the Raft server of this repository, with the theorems that hold of it.
--
-- The program is one process per node. `main.cpp` starts a leader, joins a node to a leader, or
-- reloads a log. `eventloop/` runs the callbacks of the channels that epoll reports. `net/Conn.cpp`
-- reads and writes the bytes of a connection, `mod/Mod.cpp` cuts them into messages, and
-- `mod/ModApi.hpp` has a handler for each message, which acts on the server of `nanoraft/` through
-- its connection. `easytimer/` makes the timers that send heartbeats and start elections.
--
-- Which file models which part:
--   Prelude, Map   lists, 32 and 64 bit words, `int`, results, and `std::map` in order of its keys
--   Env            protobuf, leveldb and the memory behind a buffer, as parameters
--   Protocol       the messages of protocol/proto/api.proto
--   State          the server (nanoraft/RaftServer.h), its connections (net/Conn.h), timers and the
--                  kernel's side: what send(2) answers, the bytes it took, the fds that were closed
--   Eventloop      Channel and EPoller::UpdateChannel, with the calls of epoll_ctl as a list; Poll: from
--                  what epoll_wait gives to the loop
--   Nanoraft       Log: the log in memory and in leveldb; Peers: the proxies and LoadEntries;
--                  Broadcast: roles, terms and what goes to the proxies; Commit: the commit index;
--                  Comparator: IndexComparator, the order of the keys of the log in leveldb
--   Net            Send: SendHandShakeQ, SendAppendEntries, HandlePreSendMsg, SendCallback;
--                  Server: the calls of Conn that act on the server; Connect: accept and connect;
--                  Calls: those that only pass something on; Socket: SocketWrapper; Alike and
--                  WellFormed: what connections keep;
--                  Events: RecvCallback, HandleEvent and EventLoop::Loop
--   Mod            Api: the handlers; Arrived: HandleArrivedMsg
--   Easytimer, Main   the timers, and the commands start, join and restart with their arguments
--   Exception      log/Exception.cpp, a call stack as text
--   Progress       what no event takes back
--   Durable        the term in memory and in leveldb
--   NullFree       that no process reads through a null pointer
--   Recovery       the log that a restart reads, with what leveldb promises as a record
--   Replication    an entry on its way from a leader through the bytes of a connection to a follower
--   Redis          a second program over the same event loop. Channel, Message and HoldBack:
--                  eventloop/RedisChannel; Timer: timer/Timer.cpp, which takes expired users out of
--                  redis; Logger: log/Logger.cpp, which finds what was begun and not done; Async:
--                  what hiredis keeps, a list of the commands that it took
--   Tests          concrete runs
--
-- A step of the program is a function from the server to a `Result`: the server after it, or a
-- fault, which is undefined behaviour of the source at that place (an index past the end, a null
-- pointer, erase(end()), a buffer that is overrun, an object used after its end) or exit(1). What
-- the kernel answers (accept4, recv, connect, send, the events of a poll) is an argument, so the
-- theorems hold for every order of events. Weak pointers are identities of connections that are
-- looked up among those that the server owns, and keys of proxies.
--
-- Words are natural numbers with the wrap-around of `uint32_t` and `uint64_t` written out, and
-- `int` is a sign and a number. A buffer is the list of the bytes below its size, and a post or a
-- recv that leaves the 1440 bytes is the fault `overflow`. The loop of HandleArrivedMsg is on fuel:
-- one more than the bytes of the input, and each round takes six bytes at least. The loop over the
-- hold-back queue is on one more than the queue's entries, and each round that goes on takes one out.
-- The loop of SocketWrapper is on fuel, too, since it need not end.
--
-- Not modelled: what only prints, the clock, threads (the process has one), signals, the wait of
-- epoll, and what hiredis does with a command. SyncServer, which owns the redis timers, is not in
-- the repository. memcpy of overlapping ranges is taken to move them. Logger reads test.log, which
-- no part writes: its lines are taken to be those that the redis timer prints with `pre:` and
-- `done:`, each on its own line.
pub mod Prelude
pub mod Map
pub mod Protocol
pub mod Env
pub mod Eventloop
pub mod Nanoraft
pub mod State
pub mod Net
pub mod Easytimer
pub mod Mod
pub mod Main
pub mod Progress
pub mod Tests
pub mod Durable
pub mod Recovery
pub mod Redis
pub mod Replication
pub mod Exception
pub mod NullFree
