-- ===== src/Lib.antt =====
-- A model of online-chat-proj: an echo server on epoll, a thread pool, and a client of a database.
--
-- The parts and how they interact. apps/test-main.cpp makes an EventLoop and a Server on it and
-- starts the loop. EventLoop::start asks Epoll::wait for the connections that are ready, and runs
-- their receive or send callback. Server::Server opens the listening Socket, hands it to
-- Epoll::updateConnection, and binds acceptCallback to it; acceptCallback does the same for each
-- client, with recvCallback and sendCallback. Epoll holds the map from descriptors to Connections.
-- ThreadPool and GaussConnector stand by themselves.
--
-- Files and sources, by paths from the repository's root:
--   Os              the calls of the C library and of the kernel, as a parameter: the record Kernel
--                   over a type W of states. Os/Laws states what the manual promises of them.
--   Log             src/log/util.cpp: errif
--   InetAddress     src/InetAddress.cpp; InetAddress/Port is about the port on a machine whose htons
--                   is undone by an ntohs
--   Connection      src/Connection.cpp: the members as a record, each method as a function of it
--   Machine         the state of a run: W, the heap of Connections (an address leads to an object,
--                   or to none once it is deleted), and the members of Epoll; M is the monad of
--                   runs, which return, end the process, fault, or run out of fuel.
--                   Machine/Object has the laws of a live object.
--   Socket          src/Socket.cpp: the constructors, bind, listen, accept
--   Epoll           src/Epoll.cpp: updateConnection, wait, and the binding of callbacks
--   EventLoop       src/EventLoop.cpp: start as `start`, a round at a time
--   Server          src/Server.cpp: the constructor, acceptCallback, recvCallback, sendCallback;
--                   a std::function is a handler's name with the address that std::bind captured.
--                   Server/Visits says how clients come one after the other, Server/Rounds and
--                   Server/Session are about the rounds of the loop meanwhile, Main/Service about
--                   the whole program. Server/Create/Fails is about a start that fails,
--                   Server/Overread about messages that fill the receive buffer, Server/Refused about
--                   rounds in which accept fails.
--   Reactor         the loop with any number of clients as an abstract system: each client is in a
--                   phase, and a turn admits, hears, answers or passes over one, or makes nothing of
--                   a failed accept but a connection that stays. Reactor/View says how the memory
--                   of a run stands for the clients; Reactor/Put, Reactor/Collect, Reactor/Event,
--                   Reactor/Refuse, Reactor/Dispatch and Reactor/Loop follow the loop from a live
--                   object to the rounds; EventLoop/Dispatch is about the events that a round hands
--                   on. Reactor/Lawful says what a system that obeys Os/Laws watches for the clients,
--                   Reactor/Lawful/Steps how that changes, and Reactor/Lawful/Next and
--                   Reactor/Lawful/Reports which turns and rounds its reports lead to.
--   Main            apps/test-main.cpp. Main/Start is about its start, Main/Crowd about the program
--                   with the clients of Reactor, and Main/Lawful about the same on a system that
--                   obeys Os/Laws.
--   Fuel            how much fuel the receive loop needs: Fuel/Enough for one loop, Fuel/Total for a run
--                   of Main
--   Safety          the objects and callbacks that a run of Main uses: one file for each part of
--                   the program, put together in Safety/Program
--   Bounds          the buffers that a run of Main uses. A policy says what is asked of the content of
--                   a receive buffer and which faults are allowed; Bounds/Policies has the two in use,
--                   Bounds/Calls, Bounds/Receive and Bounds/Loop go through the program under any,
--                   Bounds/Settles says how a run can end, and Bounds/Program puts it together with
--                   Fuel and Safety. ServerApp/Total and ClientApp/Total are the same for the programs
--                   under apps/
--   ThreadPool      src/threadpool/ThreadPool.cpp and inc/threadpool/ThreadPool.hpp: what a thread
--                   does under the mutex is one step of the relation Step; Reach is a schedule. The
--                   wake-ups of notify_one are any sleeping worker, and spurious wake-ups occur.
--   GaussConnector  src/opengauss/GaussConnector.cpp: the library libpq is the parameter Libpq. The
--                   template insert of inc/opengauss/GaussConnector.hpp flows off its end without a
--                   value, which is a fault. GaussConnector/Calls and GaussConnector/Messages are
--                   about sequences of commands.
--   ServerApp       apps/server.cpp: a second server, with its own epoll loop, which prints a message
--                   and drops the client; it opens a GaussConnector first. ServerApp/Deeds says
--                   what each event leads to, ServerApp/Rounds what clients that come one after the
--                   other make of it; ServerApp/Start is about the start, ServerApp/Course about the
--                   program whatever happens, ServerApp/Overread about messages that fill the buffer
--   ClientApp       apps/client.cpp: the client, over a second parameter Console for the calls that
--                   only it makes (connect, fgets, and send, which may end the process by SIGPIPE). ClientApp/Talks says how its rounds go on,
--                   ClientApp/Course what becomes of the program
--   Chat            one round of ClientApp against the callbacks of Server, each on a system of its own
--   Examples        a small system to run the code on, and the theorems at concrete inputs
--
-- Bounds. The endless loops of EventLoop::start and of the two programs under apps/ are taken for a
-- number n of rounds, for every n. A receive loop is on fuel; more fuel than the room in the buffer
-- (2048 bytes; 1024 in apps/server.cpp and apps/client.cpp) is enough where no error but "would
-- block" occurs, and a run without enough fuel is out of fuel and never said to return. Bytes are
-- numbers and `int` is ℤ: the lengths that occur stay within a buffer, so they do not overflow.
--
-- Not modelled. apps/main.cpp, which is empty. The futures of ThreadPool::enqueue, whose code does
-- not compile when it is used, and what a task computes. The headers and libraries of libpq and
-- openssl, which belong to other projects. Signals, but for the SIGPIPE of the client's send: a
-- write of the reactor to a client that is gone is taken to return. The length that accept writes
-- back: it stays that of a sockaddr_in, which is what accept returns for the sockets of the program.
-- The memory between two objects: a read or write beyond a buffer is a fault, with no further
-- behaviour.
pub mod Base
pub mod Os
pub mod InetAddress
pub mod Connection
pub mod Machine
pub mod Log
pub mod Socket
pub mod Epoll
pub mod EventLoop
pub mod Server
pub mod Safety
pub mod Main
mod Examples
pub mod ThreadPool
pub mod GaussConnector
pub mod ServerApp
pub mod ClientApp
pub mod Fuel
pub mod Reactor
pub mod Bounds
pub mod Chat
