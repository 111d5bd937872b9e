-- ===== src/Lib.antt =====
-- A pipeline that passes data buffers of a shared memory segment through a chain of modules, each
-- a thread of a server with a child process of its own, with the parts that it stands on: the ring
-- buffer, the shared segment and the table of processes.
--
-- The parts, and where they are modelled:
-- RingBuffer.antt: misc/src/ring_buffer.c, `ring_buffer_create`, `ring_buffer_push` and
-- `ring_buffer_pop` (create, push = insert then post, pop = wait then extract).
-- RingBuffer/Invariant has the representation invariant, RingBuffer/Fifo the view as a queue,
-- RingBuffer/Threads the steps of several threads at once: one for each critical section under the
-- mutex, and one for each call on the semaphore.
-- SharedMemory.antt: shmem/include/shmem/shared_memory_map.h (the layout, with `size_t` arithmetic
-- modulo 2 ^ 64) and shmem/src/shared_memory.c (SharedMemory/Segment for creating, mapping and
-- removing the segment, SharedMemory/Environment for handing its name and size to a child).
-- ProcessManager.antt: pmngr/src/process_mngr.c, the table of children (`process_subsystem_init`,
-- `process_start`, `process_kill_all` and so on). The static variables are the record Manager.
-- Pipeline.antt: pipeline/src/pipeline_server.c and pipeline/src/pipeline_client.c. The three
-- thread methods are step functions over a program counter (Pipeline/Threads), the child's loop
-- likewise (Pipeline/Child); Pipeline/System has a chain of modules in which any thread or child
-- may make the next step. Pipeline/Pool is what the threads need of the pool of free buffers,
-- which RingBuffer fills; Pipeline/Setup is `pipeline_thread` and the default configuration,
-- Pipeline/Configuration the loop of `model_read_configuration_` over the descriptions in a file,
-- Pipeline/Startup `pipeline_init`, `pipeline_destroy` and `pipeline_process_init` with the
-- segment and the environment.
-- LinkedList.antt: misc/include/misc/list.h, on a heap of `next` and `prev` pointers; the circular
-- lists are refined to sequences (LinkedList/Sequence says what the operations promise,
-- LinkedList/Refinement that they keep it). Collections.antt has the counted lists of structs that
-- messenger/src/messenger.c and tcp/src/tcp_process.c each keep of their connections:
-- `connection_add`, `connection_delete`, `connection_get` and the loop that empties the list.
-- Gvcp.antt: capture/src/gvcp.c and capture/include/capture/gvcp.h, the packets by which a
-- camera's registers are read and written (Gvcp/Bytes, Gvcp/Register) and the sequences of them
-- (Gvcp/Sequence): `gvcp_init`, `gvcp_watchdog`, `gvcp_start`, `gvcp_stop` and the reads of
-- parameters; and what is read from the answer to a discovery (Gvcp/Discovery). What will come in
-- on the command socket is a list that the wait for an acknowledgement uses up; making the epoll
-- descriptor is taken to succeed. Of the variants for several cameras those are modelled that the
-- preprocessor keeps.
-- Gvsp.antt: capture/include/capture/gvsp.h and the thread `gvsp_thread` of capture/src/camera.c,
-- which puts the packets of a stream together to frames. Gvsp/Groups says what the frames should
-- be.
-- Messenger.antt: messenger/src/messenger.c: making connections (Messenger/Connect, on
-- Collections), reading and extracting messages (Messenger/Receive), parsing them
-- (Messenger/Parse), the client's commands (Messenger/Client) and the server: its socket, the loop
-- over the events of all connections, `server_create` and `server_destroy` (Messenger/Server).
-- Tcp.antt: tcp/src/tcp_process.c, the sockets (Tcp/Sockets) and what the server does with the
-- bytes of one connection (Tcp/Lines), the loop over all connections on Collections (Tcp/Server),
-- and a round of the client's loop (Tcp/Client). The callbacks are parameters.
-- Devices.antt: capture/src/device.c, the answers to a discovery and the devices that are made of
-- them; the names that `getnameinfo` gives are a parameter. Interfaces.antt:
-- capture/src/interface.c, the interfaces on Collections and the sockets that a discovery is sent
-- from. Camera.antt: the rest of capture/src/camera.c, `gige_camera_init`, `gige_camera_destroy`
-- and `gige_camera_test`, on the sequences of Gvcp.
-- CommandServer.antt: command_server/src/command_server.c, its queue on RingBuffer and its thread.
-- Api.antt: api/src/api.c, api/include/api/api.h and api/src/api_parser.c, the texts of the
-- commands, the template that the server matches them with (written out as a function on lists of
-- character codes, with the match that POSIX prescribes) and the answers. `apiParseReply` is not
-- modelled.
-- FileReader.antt: filereader/src/filelist.c, the parts of file names, the sorted list
-- (FileReader/Sort) and reading a directory (FileReader/Listing), and filereader/src/filereader.c,
-- the program over such a list (FileReader/Convert). `qsort`, `sscanf`, what is at a path and
-- whether an image can be read and written are parameters.
--
-- A call that may block answers `blocked`, a call that would be undefined (an index outside of an
-- array, a `NULL` pointer, an `int` out of range) answers `fault`. A failed `shm_open`, `mmap`,
-- `fork`, `sem_init` and so on is an argument that says what the call answers. A semaphore is its
-- count. The loops are recursions on a list or on the number of rounds left, so no fuel is chosen,
-- but for `follow`, which walks along `next` pointers: there the number of modules is enough,
-- since a chain that does not turn back on itself is not longer; and but for emptying and
-- searching a counted list, where one round more than there are structs is enough; likewise for
-- the answers on an interface.
--
-- The bounds `NI_MAXHOST` and `NI_MAXSERV` are those of the C library, 1025 and 32.
--
-- Not modelled: messages on stdout and stderr, freeing memory, `pthread_join` (but that a thread
-- may not end before it, in Messenger/Server), `waitpid`, the modules' `argv`, and parsing a
-- configuration file. A semaphore call that is interrupted by a signal is not modelled either. A
-- process's name is not cut at 79 bytes (`start`), and of the tcp server the exit on a failed
-- `select` and descriptors beyond `FD_SETSIZE` are left out: `FD_SET` of one of these is
-- undefined. What is proved of the tcp server rests on callbacks that return whatever the request.
-- Of the messenger the threads of the client and the proxy are left out; capture/src/source.c does
-- not compile.
pub mod Common
pub mod RingBuffer
pub mod LinkedList
pub mod Collections
pub mod SharedMemory
pub mod ProcessManager
pub mod Pipeline
pub mod Gvcp
pub mod Gvsp
pub mod Devices
pub mod Interfaces
pub mod Camera
pub mod Messenger
pub mod Tcp
pub mod CommandServer
pub mod Api
pub mod FileReader
