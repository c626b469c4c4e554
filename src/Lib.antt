-- ===== src/Lib.antt =====
-- muqiu: verification of a C++ server framework.
--
-- The program is a framework of fibers: a scheduler runs fibers and functions on threads
-- (src/Scheduler.cc), an IOManager (src/IoManager.cc) adds a table of watched descriptors and is at
-- the same time a TimerManager (src/timer.cc); sockets, HTTP messages and servlets stand on it, and
-- a ByteArray (src/bytearray.cc) and the URL codec (src/util.cc) serve them.
--
-- Common         tests on native numbers, lists measured by native numbers, laws of bits.
-- ByteArray      src/bytearray.cc, include/bytearray.h, include/ntmlgb.h. State holds the buffer and
--                the calls that move bytes and the cursor (write, read, read const, setPosition,
--                clear, addCapacity, toString), Fixed writeFint* and readFint*, Zigzag and Varint
--                writeInt32 to readUint64, Strings writeString* and readString*. Overwrite, Valid,
--                Writing, Growing, Write, Reading, Read, Position, Stream and VarintLaws hold the
--                proofs.
--                Buffers and Windows hold the iovec windows, getReadBuffers and getWriteBuffers.
-- Timer          src/timer.cc, include/timer.h. Manager holds every operation, with the names of the
--                source in lower case; Order, Steps and Expired hold the proofs.
-- Url            src/util.cc: UrlEncode and UrlDecode in Codec, their tables in Tables; Reserved says
--                which characters an encoded text leaves out.
-- Trim           src/util.cc: Trim, TrimLeft and TrimRight.
-- IoManager      src/IoManager.cc, include/IoManager.h. Events holds contextResize, addEvent, delEvent,
--                cancelEvent and triggerEvent, Cancel holds cancelAll and the body of the loop of idle
--                over reported events, Idle holds a round of idle with its timeout and the due timers;
--                Counting, Validity, Cleared, Reach and Round hold the proofs.
-- Scheduler      src/Scheduler.cc, include/Scheduler.h. Queue holds schedule, start and stop, Picking
--                the search of the task list in run, Running the rounds of run as steps of a thread;
--                Counts and Steps hold the proofs.
-- Fd             src/fdmanager.cc, include/fdmanager.h. Context holds FdCtx, Manager holds FdManager,
--                Lookup the proofs.
-- Stream         src/stream.cc. FixSize holds the loops of readFixSize and writeFixSize, Ending the
--                proofs of when they end.
-- SocketStream   src/socket_stream.cc. Calls holds read and write, on memory and on a ByteArray by its
--                windows; Receive holds the proofs.
-- HttpSession    src/http_session.cc, with HttpRequestParser::execute of src/http_parser.cc. Receive
--                holds recvRequest over the reads of a stream and its readFixSize; Contract says what is
--                relied on of the socket, Incoming, Body and Answer hold the proofs. Send holds
--                sendResponse, the text of a response through writeFixSize; Sent holds the proofs.
-- Servlet        src/servlet.cc, include/servlet.h. Dispatch holds the operations of ServletDispatch,
--                Keeping and History the proofs.
-- Http           src/http.cc, include/http.h. Method and Status hold the tables of methods and of
--                status codes, MethodLaws the proofs. Params holds PARSE_PARAM and initParam, ParamLaws
--                the proofs. Dump holds dump of a request and of a response; Fields is a reader of such
--                a text, Decimal, FirstLine and DumpLaws hold the proofs.
-- Hook           src/hook.cc. Io holds do_io, Connect connect_with_timeout, Closing socket and close,
--                Flags fcntl of flags, ioctl(FIONBIO) and setsockopt of timeouts, on the descriptors of
--                Fd. Waiting says what other fibers may do in between, Retry, Sockets, View, and the
--                lower halves of Connect and Closing hold the proofs. Closing uses the table of IoManager.
-- Address        src/address.cc. Lookup holds lookUp and its callers, Names the proofs; Prefix holds
--                CountBytes and its proofs.
-- Socket         src/socket.cc, include/socket.h. State holds newSock, bind, connect, reconnect, listen
--                and close over the calls of the system, Owning the proofs.
-- Log            src/Log.cc. Pattern holds LogFormatter::init, PatternLaws the proofs.
--
-- How the state corresponds to the code:
-- - The list of nodes of a ByteArray is cut at m_cur into the nodes before it and those from it on.
--   Every run through it is structural recursion on that list, so no fuel is needed. The loops of
--   writeUint32 and writeUint64 run on the room that their local array has left, 5 and 10 bytes, and
--   those of readUint32 and readUint64 on the number of rounds until i reaches 32 and 64, 5 and 10.
-- - The set of timers is the list of its elements in the order of the comparator. The clock and the
--   address of a new object are arguments.
-- - The flags of a descriptor are a record of two Booleans. epoll_ctl is a parameter that says
--   whether a call fails. Functions, fibers and schedulers are numbers, and what is scheduled is a
--   list in the order of the calls.
-- - A loop of Stream runs on fuel. That of writeFixSize is its length and one more, which is enough,
--   since a round ends the loop or moves a byte. That of readFixSize is an argument, since the code
--   need not end. recvRequest runs on fuel too; 2 ^ 63, and more than the bytes that the peer sends,
--   is enough, since a length of a body is below that.
-- - do_io runs on fuel for the calls that a signal interrupts and for the waits; how often the kernel
--   answers so before it gives a result is its patience, and more fuel than that is enough. What
--   happens while a fiber is swapped out, by other fibers, the clock and the kernel, is a parameter.
-- - The wait of a round of idle runs on fuel for the interrupts of epoll_wait; more than the kernel
--   makes in a row is enough.
-- - PARSE_PARAM and the pattern of a formatter run on one more than the length of their text, which is
--   enough, since every round takes a character. A number is printed on its own value as fuel.
-- - The headers of a message that is printed are the list of the entries of m_headers in the order in
--   which the map gives them. A peer reads a text line by line up to an empty line.
-- - A run of threads of the scheduler is a sequence of steps, one for each section of run under its
--   lock and one for each change of a fiber; what a fiber does is the choice of the step. Counting a
--   thread out of m_activeThreadCount is a step of its own, and so is what is done with its fiber then.
-- - A step of Reach on the table of IoManager is one call that reads no null scheduler. A report of
--   epoll_wait is handled in a step of its own, so that the calls of other threads may stand between
--   the two. A round of idle has its events handled with no call of another thread in between.
-- - A size_t of a buffer is a number without a bound, since memory is far below 2 ^ 64 bytes; only the
--   difference in the const read of a ByteArray may wrap, and does. A uint64_t of a timer and the
--   integers of the codecs wrap at their width; where zigzag overflows a signed type, which C++ leaves
--   undefined, it is taken to wrap. readFixSize and writeFixSize return their length as an int, so a
--   length of 2 ^ 31 and more comes back as another number.
--
-- Not modelled: locks, log lines, floats and files of ByteArray, tickle, sleep, usleep and nanosleep,
-- levels and appenders of the logger, the configuration, masks and texts of addresses, generated
-- parsers and the kernel (they are parameters), the maps of headers, parameters and cookies, whose
-- comparator is no order, and the parts of the framework that have no module here.
pub mod Common
pub mod Address
pub mod ByteArray
pub mod Fd
pub mod Hook
pub mod Http
pub mod HttpSession
pub mod IoManager
pub mod Log
pub mod Scheduler
pub mod Servlet
pub mod Socket
pub mod SocketStream
pub mod Stream
pub mod Timer
pub mod Trim
pub mod Url
