-- ===== src/Lib.antt =====
-- Mini RPC, remote calls over TCP with length-prefixed frames (2026-06-23_cpp_learning_projects), and the
-- CUDA kernels of the repository: flash attention
-- (2026-06-25_cpu_only_inference_and_practical_kernel/practical_kernel), softmax
-- (2026.6.27 demo项目 打卡/softmax-profile-card) and the bandwidth benchmarks
-- (2026_6_25_topo_slowrank_bandwidth/bandwidth-roofline-mini).
--
-- Mini RPC and its model
--
-- The paths of this part start in 2026-06-23_cpp_learning_projects.
--
-- A call is an `RpcMessage` (Message.antt: include/minirpc/message.hpp, src/message.cpp). The codec
-- writes it in the wire format of protobuf and reads it back (Wire.antt: src/protobuf_wire.cpp). A
-- frame is such an encoding behind its length in four bytes (Framing.antt:
-- include/minirpc/framing.hpp). A session owns one connection: it reads frames, hands messages to
-- its message handler, queues frames for the socket and tells each write handler how its frame fared
-- (Session.antt: include/minirpc/session.hpp, src/session.cpp). The sessions run on an event loop
-- (EventLoop.antt: include/minirpc/event_loop.hpp, src/event_loop.cpp). A client has one session and a
-- table of pending calls (Client.antt: include/minirpc/client.hpp, src/client.cpp); a server has a
-- listener and a session for each connection (Server.antt: include/minirpc/server.hpp,
-- src/server.cpp). The demo server answers requests (Demo.antt: examples/server_main.cpp).
--
-- Connection.antt puts two sessions at the ends of one connection: a step relation in which each end
-- sends messages, closes, runs the tasks that were posted to its loop, or dispatches events, in any
-- order and with any answers of the system. It assumes of TCP that the bytes that one socket takes
-- arrive at the other in their order, and leaves open when, and in which pieces. Connection/Turns.antt
-- holds what the loops do by themselves: `epoll` reports what the mask registered last has
-- (Session/Polling.antt), and `recv` gives pieces of 1 to 8192 bytes, as many as the buffer of
-- `async_read` holds. Demo/Serving.antt puts
-- the demo server at one end, with the handlers that its `main` installs: after the loop has
-- dispatched events, the handler answers the messages that the session has handed on. Its answers are
-- posted as tasks, and nothing of the loop runs in between. Each request has a time of its own, the 25
-- bytes that `std::ctime` writes. Demo/Replies.antt describes the answers without the code. Demo/Talk.antt runs one call from the
-- welcome to the answer. Demo/Caller.antt is examples/client_main.cpp: its calls, the count of its
-- responses and the end of its `main`, after a wait in which any number of them have come.
--
-- Each part is a module that holds the state as a record and one function for each operation, under
-- the name that it has in the source; the modules below it hold what is proved. Base.antt and the
-- modules below it are the shared helpers.
--
-- The kernels and their model
--
-- Attention.antt holds what the two attention kernels share, Attention/Simple.antt is
-- flash_attention_simple_stand.cu and Attention/Tiled.antt is tiled_flash_attention_stand_hpc.cu, each
-- from the update by a key up to `solve`; Attention/Formula.antt defines attention without any of the
-- code. Softmax.antt is kernels/softmax_naive.cu and kernels/softmax_block.cu, Softmax/Bench.antt what
-- src/softmax_bench.cu makes of the second. Reduction.antt is src/reduction.cu. VectorAdd.antt is
-- src/vector_add.cu, with the options that both benchmarks read.
--
-- A kernel is a function of arrays, and an array a function from its index; what a launch leaves in
-- its output is a function of what the output held before. The type of floats and its operations are
-- a record, `Floats`, that every kernel takes as a parameter. Nothing is assumed of them, so a theorem
-- without further hypotheses holds with all rounding, if the compiler evaluates the expressions as they
-- are written; the theorems on exact arithmetic name the laws that they need. `Collects` says which values a reduction combines and how often, whatever the bracketing.
--
-- Between two barriers the threads of a block write different cells, so they are taken one after the
-- other; the rounds of a reduction in shared memory or in a warp happen in all threads at once. The
-- intrinsics of a warp are those of the CUDA language. In the softmax block kernel no barrier stands
-- between the reads of the maximum and the write of the first sum into its cell: which threads read
-- late is an argument, `late`.
--
-- A launch that the device refuses leaves the output as it was: blocks of more than 1024 threads, and
-- grids of 2^31 blocks or more, or of more than 65535 in the second and third dimension. Sizes of
-- grids are cut to an `int` as in the source. Where an index or a counter may overflow an `int`,
-- `ints_fit` is false and an argument, `undefined`, is what the launch leaves.
--
-- How the code is read
--
-- Unsigned integers are natural numbers with the wrap-around written out, `int32_t` is a signed
-- integer, a `std::string` or a buffer is the list of its bytes. `std::unordered_map` is an
-- association list. A `std::function` is a number that names the callable, and `none` if it is empty;
-- the calls of such functions, and those of the system, are recorded in their order.
--
-- What the system answers is an argument: `Receives`, `Sends`, `Accepts`, `Attempt` and `Wait` are the
-- results that `recv`, `send`, `accept4`, `connect` and `epoll_wait` give in turn, in any order and
-- with any `errno`. Where a theorem needs `send` to take no more bytes than it was given, it says so.
-- A program on the event loop is a parameter, with the hypothesis that what it does to the task queue
-- is to post.
--
-- Loops and fuel
--
-- `write_varint` recurses on the accessibility of its value, and the loops over system calls on the
-- list of answers. `decode` has the length of its input as fuel, and a round takes one byte at least;
-- that it never runs out is among the results. The second loop of `async_read` has one round more
-- than the length of the buffer as fuel, and a frame takes four bytes at least. A loop with a stride
-- has its bound as fuel, and a round takes one step at least; the loops that halve a stride have the
-- first stride, or the number of threads, as fuel.
--
-- What is not modelled
--
-- Threads: every operation is one step, so the mutexes and atomics have no counterpart; `send`,
-- `close` and `post`, which other threads may call, meet the loop in the order in which their tasks
-- are posted. Failures of `epoll_ctl` and `fcntl` in `Session` and `TcpServer`, and exceptions out of
-- handlers. Destructors. Name resolution, the arguments of the demo's `main` functions, its printing,
-- and how long its client waits.
--
-- Of the kernels: devices on which the lanes
-- of a warp do not run in step, and the fusing of a product and a sum by the compiler. The rest of the
-- `main` functions of the benchmarks, which measures and prints, and the scripts around them.
-- tiled_flash_att_mine.cu, which ends inside its kernel.
pub mod Base
pub mod Message
pub mod Wire
pub mod Framing
pub mod Session
pub mod EventLoop
pub mod Client
pub mod Server
pub mod Connection
pub mod Demo
pub mod Floats
pub mod Attention
pub mod Softmax
pub mod Reduction
pub mod VectorAdd
