-- ===== src/Lib.antt =====
-- The epoll server of this repository, and its client.
--
-- The program. A server listens on a socket (server/socket/socketBase.cpp) with three threads: one
-- accepts clients and removes those that hang up, one receives, one sends. What is received goes to
-- taskController::onRecv (server/taskController.cpp), which puts requests together from the pieces
-- that the transport makes of them and gives each whole request to a pool of threads
-- (server/threadPool/threadpool.cpp). A thread of the pool runs onTaskProcessor, which parses the
-- request (protocol/protocol.cpp), makes the response, logs it in hexadecimal (utility/hexChar.c) and
-- puts it into the client's list of data to send; the sending thread takes it from there. The client
-- (client/socketClient.cpp, client/clientMain.cpp) makes one request, sends it and collects the
-- response.
--
-- The model.
--   Prelude         the library names in use, Boolean tests on numbers, C's int, maps, and Outcome:
--                   a result, a fault (an access outside an object, or an exception), or stuck
--                   (waiting, or out of fuel)
--   Memory          memcpy, memset, new char[n] and std::string::resize on lists of bytes with
--                   bounds, and the four bytes of an unsigned int, lowest first
--   Protocol        class protocol: makeAPIRequest is make_api_request, and so on; NULL is `none`, a
--                   pointer into a buffer the bytes from there on, and an argument passed by
--                   reference a field of RequestOut or ResponseOut. Protocol/Frames has the layouts,
--                   Protocol/Codec requests and request frames as one type
--   TaskController  makeNewTask is receive (one activation) and make_new_task (with its calls to
--                   itself); m_recvList is recv_list, and the calls of threadPool::addTask are
--                   added. Processing has onTaskProcessor, Interleaving many clients at once,
--                   Reception the path from the events of epoll to the tasks, AnyBytes and Totality
--                   chunks of any bytes, and CutHeader and Malformed what goes wrong
--   HexChar         CharToHex is char_to_hex, HexToChar is hex_to_char
--   Socket          class socketBase; the body of each thread's loop for one event is a function from
--                   the state to the state and the calls made of the kernel, whose answers are
--                   arguments. Ops and Queues have the interleavings of these, Loops, Receiving and
--                   Threads the loops of the threads, Events what one event does to the queues,
--                   Writing and HangUps what these threads do to each client's, Listening the start, Addresses the classes socketUnix, socketIPv4 and socketIPv6
--   ThreadPool      class threadPool; threadfun is thread_step, one section between lock and unlock
--                   a step, and run is any interleaving of steps and of added tasks. Custody and
--                   Given have where each task is, Numbers the tasks as numbers, Progress the turns
--                   that a worker needs, Draining those that bring the pool to rest, Races and Slow
--                   where the bounds fail and Races/Stranded where a task is left behind, Instance
--                   the one pool of the program
--   System          the parts together: the tasks that makeNewTask makes are those that the workers
--                   process with onTaskProcessor, on the one socket; a move is a step of one of the
--                   threads, and run is any interleaving of moves. Changes, Moves and Reception have
--                   what each move does, Serving the induction, Service and Answered what
--                   comes of it, and Startup the state that main leaves. Desk is the abstract
--                   specification, a step relation on a multiset of requests and a box for each
--                   client, with what holds in all its runs below it; Refinement, Batches and
--                   Simulation show that moves are its steps, Refined what comes of that. Ordered
--                   and InOrder have one worker alone. Runs, Leads, Finishing and Finished have the
--                   moves with which the server finishes, and Clients a client from its request to
--                   what it logs
--   Client          doConnect is do_connect, createClient is create_client; the answers of the
--                   kernel are arguments. Counting has the steps in which clients count their message
--                   ids at the same time, and Fleet the clients that main starts, in any interleaving of
--                   these steps
--   Server          main of server/server.cpp
--   RoundTrip       the request of createClient, and its way through one server's parts and back
--   Tests           the theorems and the functions at concrete inputs
--
-- Bounds and fuel. An unsigned int is a number with `% 2 ^ 32` where the source adds, an unsigned short
-- one with `% 2 ^ 16`, a size_t one with `% 2 ^ 64`. make_new_task gets one activation more than bytes
-- were received, which is enough since every call to itself leaves fewer bytes unless a length of 0 is
-- announced; the theorems on it say that it returns. hex_to_char gets one round for each character and
-- three more. All other functions are structural.
--
-- Not modelled: the logging library and its macro, the sleeps that stand in for the work of the two
-- APIs, freed memory, what the kernel does with the bytes of a send (the code ignores its answer),
-- and the guards against a null argument of a thread's function.
pub mod Prelude
pub mod Memory
pub mod Protocol
pub mod TaskController
pub mod HexChar
pub mod Socket
pub mod ThreadPool
pub mod Client
pub mod Server
pub mod System
pub mod RoundTrip
pub mod Tests
