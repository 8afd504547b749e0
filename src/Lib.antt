-- ===== src/Lib.antt =====
-- protobuf_sandbox: a server that takes protobuf commands from a socket, and its JSON
-- configuration.
--
-- The parts and their files. `CommandProcessor` reads its configuration with the JSON helpers,
-- opens a `LinuxSocket`, and hands it to a `SocketTransport`. The transport's thread reads from
-- the socket, cuts the bytes into commands, and calls the processor back, which queues them;
-- `processCommands` answers them over the same socket.
--  * Json models src/CNT_JSON.c over `struct cJSON` (src/cJSON.h), in Json/Node. Json/Getters has
--    `doesAttributeExist`, `getAttributeValue_*`, `getAttributeDefault_*` and `getID`;
--    Json/Setters has `setAttributeValue_*` and `incrAttributeValue_*`; Json/Merge has
--    `mergeJSONObjects` and `copyItem`; Json/Diff has `diffJSONObjects`; Json/Rpc has
--    `createRPCObj`, `createRPC_RespObj` and `addParamsMap`; Json/Access has `getKey`, `getItem`,
--    `asString`, `asDouble` and `asInt`; Json/Convert has `MapToJSON_*` and `JSONToMap_*`, with
--    the streams of numbers in Prelude/Decimal; Json/Files has `writeJSONToFile` and
--    `readJSONFromFile`; Json/Hash has `createStringHash`. The files below them hold the proofs;
--    Json/Typed is about objects whose items hold what their type says.
--  * Socket models src/LinuxSocket.cpp (`init`, `ListenForClient`, `sendData`, `readBlock`,
--    `ResetConnection`, `CloseConnection`, `reconnect`) over src/ISocket.h, and Socket/ReadLine
--    its `readLine`. Socket/Descriptors has the descriptors that these operations and the
--    destructor open and close, in the order of the system calls.
--  * Transport models src/SocketTransport.cpp (`update_rx`, `StartComm`, `StopComm`), and
--    Transport/Thread its `thread_func` and the forwarding calls; Transport/Uses is about what
--    the thread does to its socket, and Command/Stream takes its byte stream to the processor's
--    queue.
--  * Command models src/CommandProcessor.cpp, Command/Serve the main loop of src/server.cpp over
--    it, Command/Messages the messages of src/payload.proto, and Command/Says what a response says
--    to the method of its command. Command/Threads takes the
--    transport's thread, the worker and the main thread apart into the steps between which
--    another thread can run, and a schedule is a list of such moves; Command/Threads/Steps has
--    them as a step relation, by whose cases the invariants are proved, Command/Threads/Breaks
--    the moves that are undefined behaviour, Command/Points the coordinates behind them, and
--    Command/Threads/Session the composition of `init`, `Start`, the transport and a schedule.
--  * Server models the `main` of src/server.cpp over Command, and Client src/client.cpp over
--    Socket; Client/Connect is about how far its `main` comes.
--  * Callback models src/Callback.h, with Command/Calls for the callback of the processor, and
--    Logger the lines of src/Logger.h.
--  * Prelude holds what these share, with postconditions on `Run` in Prelude/Postcondition, and
--    Tests concrete parameters and inputs.
--
-- State is passed explicitly: an operation takes the object's members as a record and returns
-- them with its result. A pointer to an item is the item with its children and the siblings
-- behind it; the setters return the structure as it is left. Undefined behaviour (NULL or a
-- deleted item used, an `int` sum out of range, an index out of range) is the result `fault` of
-- `Run`. What the system calls answer is an argument of each operation, and a run of the
-- receiving thread is a list of such inputs.
--
-- Parameters: `FloatTests` is the arithmetic of doubles and the streams of `diffJSONObjects`,
-- `CJsonLib` is what the code calls of the cJSON library (src/cJSON.c), with the behaviour that
-- its header documents, `Floats` the machine's doubles, which are bit patterns, `Printer` the
-- library's printer and parser, and `Protobuf` the classes generated from src/payload.proto.
--
-- Bounds: an `int` fits 32 bits (`fits_int`). The loop over newlines takes a round of fuel for
-- each byte of the buffer, as each round cuts off a byte at least. The loops of
-- `mergeJSONObjects` and `diffJSONObjects` take fuel because they need not end: each round goes
-- on to the next child or stays where it is. `readLine` goes as far as the answers to `read` in
-- its list.
--
-- Not modelled: races for members that are used without a lock, such as `m_ClientSock`, as the moves
-- of a schedule come one after the other, with each locked section a part of one of them; when lines
-- are logged, sleeps, the build statistics, and `what` of `cJSONException`, whose pointer dangles;
-- src/cJSON.c, a copy of another project's library.
pub mod Prelude
pub mod Callback
pub mod Logger
pub mod Json
pub mod Socket
pub mod Transport
pub mod Command
pub mod Client
pub mod Server
mod Tests
