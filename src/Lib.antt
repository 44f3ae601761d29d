-- ===== src/Lib.antt =====
-- The radio interface layer of Android's telephony stack: the AT side of the reference
-- implementation and its request handlers, the record streams of librilutils and the event loop of libril, modelled from the
-- C and C++ sources.
--
-- The parts and how they interact:
--   * reference-ril/at_tok.c splits an AT response line into tokens. AtTok has every function: the
--     cursor `char **p_cur` is an argument and a result, a `char *` that may be NULL is an option,
--     and text is the list of its bytes. Libc has the C library functions that it calls (strchr,
--     strsep, strtol, strtoul, isspace) in the "C" locale with a 64-bit `long`.
--   * reference-ril/misc.c has strStartsWith, in AtChannel/Lines with the tables of final responses.
--   * reference-ril/atchannel.c is the AT channel. AtChannel/LineReader has `readline` with its static
--     buffer as memory and an index; AtChannel/Write has writeline and writeCtrlZ; AtChannel/Reader
--     has the reader thread (processLine, readerLoop), with the file's static variables as a record;
--     AtChannel/Command has the command thread. A wait frees the mutex: what the other threads do
--     until it returns is a list of events. A call returns, is blocked (in a wait with no event left or
--     in a write that does not come back), or reads through NULL, each a value of its own (`Run`). A
--     command of another thread that finds one pending is an event; what follows when a third one then
--     starts on the cleared response is not followed, and that too is a value of its own.
--   * reference-ril/reference-ril.c answers the requests. ReferenceRil has its parsers of AT response
--     lines, on AtTok: lines of calls, SIM responses and technologies, and ReferenceRil/Registration
--     has those of the registration state, with the array that it allocates. The caller's structure
--     is an argument and a result. ReferenceRil/SimStatus has the SIM status, which it asks for by a
--     command of AtChannel/Command, and the radio state with the notices it sends.
--     ReferenceRil/Requests has what the request handlers share: the state that they change as a
--     record, an answer (`RIL_onRequestComplete`) as an entry of a list, and a handler's commands by
--     what follows each, so a handler is a function of the events to come on the channel; it returns,
--     waits for ever, or faults, and a command that reads through NULL is a fault of its handler.
--     Requests/Radio, Calling, CurrentCalls, Messages, Card, Network,
--     Operator, DataCalls and Cdma have the handlers (`requestRadioPower` is `request_radio_power`), and
--     Requests/Dispatch has `onRequest` with the guards on the radio's state.
--     ReferenceRil/Unsolicited has `onUnsolicited`, the handler that the reader thread calls.
--   * librilutils/record_stream.c is a stream of length-prefixed records. RecordStream has its buffer
--     as memory with two indices; RecordStream/Spec says what it promises, with no buffer.
--   * libril/ril_event.cpp is the event loop of the daemon. EventLoop has its timers (with
--     EventLoop/Times for the arithmetic on `struct timeval`), its table of watched descriptors and
--     its pending list; events are numbers that a heap gives a value, a circular list is the list of
--     its members, and select and the clock are arguments of each turn.
--   * libril/ril.cpp stands between the framework and the vendor's library. Dispatcher/Requests has
--     the pending requests, which a RIL_Token names by its address; Dispatcher/WakeLock the wake lock
--     and its timers, which it hands to EventLoop; Dispatcher/Unsolicited the unsolicited messages
--     and the NITZ time kept for a later client. What calloc returns is an argument. Mutexes
--     make each of these functions one step, and an interleaving is a list of steps; only
--     `userTimerCallback` takes none, and its call of the callback, its test of the last timer and its
--     `free` are a step each, with the steps of other threads between them. A function that has read
--     the pointer to the last timer while that test or that `free` runs is not modelled, nor one that
--     sets `userParam` between its read and the callback. The histories
--     of the wake lock are those of RIL version 13 or later in which every allocation succeeds; the
--     event loop in them moves due timers to its pending list and calls them back, without the events
--     of descriptors.
--   * libril/RilSapSocket.cpp, with libril/rilSocketQueue.h, has the SAP sockets and their requests:
--     SapSocket, over a memory of requests and headers in which a freed one is missing.
--   * Memory has the laws of reads and writes in a buffer, which both readers use.
--
-- System calls are arguments: read(2) is a function of the count asked for, or a list of such for
-- the calls to come, and write(2) is a list of what each call will do. Loops over these lists recur
-- on the list, so no fuel is chosen; a list that ends stands for a call that never comes back. The
-- buffer size of `readline` is a parameter, of which MAX_AT_RESPONSE is one value.
--
-- The fuel of the conversions %d and %x in Libc is a number of digits, 20 and 8, that no `int` exceeds.
--
-- Not modelled: the requests of reference-ril/reference-ril.c for the SIM's card status, for logical
-- channels that are opened or used, for data calls that are set up, and those that set the preferred
-- network type, of the cell information, the hardware and the capabilities; its start; thread creation, the absolute time of a time-out (a time-out is an event), sleeping,
-- logging, freeing of memory (a use of freed memory shows as a read through NULL), the rest of
-- libril/ (the HIDL services convert to types that are generated outside the repository), rild/ (system
-- calls), and the declarations under include/.
pub mod Base
pub mod Libc
pub mod Memory
pub mod AtTok
pub mod RecordStream
pub mod AtChannel
pub mod EventLoop
pub mod ReferenceRil
pub mod Dispatcher
pub mod SapSocket
mod Tests
