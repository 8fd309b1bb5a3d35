-- ===== src/Lib.antt =====
-- The Serial API Multiplexer: one process that shares a SmartMesh manager ("Picard"), which sits on
-- a serial port, among several TCP clients.
--
-- The parts and how they interact. Bytes of the serial port go through the HDLC decoder
-- (serial_mux/HDLC.cpp), which hands whole frames to the Serial API protocol
-- (serial_mux/BasePicard.cpp): it does the hello exchange, acknowledges notifications and passes
-- notifications and command responses to the client manager (serial_mux/BoostClientManager.cpp).
-- Bytes of a client go through the mux message parser (serial_mux/MuxMessageParser.cpp) to the
-- client (serial_mux/BoostClient.cpp), which does its hello and then queues its commands with the
-- client manager. That sends one command at a time, waits for the response and writes it to the
-- client; a notification goes to each client whose subscription (serial_mux/Subscriber.cpp, wire
-- format in serial_mux/Common.cpp) has its type. serial_mux/serial_mux.cpp puts the parts together
-- and tears them down when the connection is reset.
--
-- Which file models which part.
--   Hdlc: HDLC.h and HDLC.cpp. `Chdlc` is the class CHDLC; `add_byte` is CHDLC::addByte, which
--     returns the frames that the handler gets; `encode_hdlc` is encodeHDLC. Hdlc/Table holds the
--     table _fcstab; `feed` is the loop over the bytes of a read in PicardBoost.cpp.
--   Mux: MuxMessageParser.h and MuxMessageParser.cpp. `parse` is CMuxParser::parse, with the loop
--     of CMuxParser::read on fuel: one more than the bytes held, and every call that returns true
--     takes some out.
--   Common: Common.h, Common.cpp, Version.h and Version.cpp. Two reads that C++ leaves undefined
--     (behind a vector's end, a shift by 32 or more) return `none`.
--   Subscriber: Subscriber.h and Subscriber.cpp.
--   Picard: BasePicard.h and BasePicard.cpp. `frame_complete` is CBasePicardIO::frameComplete; a
--     step returns the new state and the events it causes, in order. `read_bytes` puts it behind
--     the HDLC decoder, as PicardBoost.cpp does. Picard/Port has the rest of PicardBoost.cpp: the
--     read with its time limit, the UDP framing; and the loop of CBasePicardIO::threadMain.
--     Picard/Overlap has the reads and their completion handlers as steps of two threads.
--   Queue: ext-tools/LogUtilities/SyncQueue.h. `timedPop` is two functions, before and behind its
--     wait, so that the steps of other threads can come between them.
--   Client: BoostClient.h and BoostClient.cpp. A handler returns the client and its requests of
--     the client manager, the socket and the timer, in order. Client/States has one handler call
--     as a `Happening`; any list of them is a life of the client.
--   Manager: BoostClientManager.h and BoostClientManager.cpp. The objects of the clients stand in
--     a store, and a pointer is a number. Manager/Loop has commandLoop as steps between its waits,
--     commandComplete and handleNotif. Manager/Commands follows one command through its waits,
--     with anything that other threads do in them.
--   Listener: BoostClientListener.h and BoostClientListener.cpp.
--   Server: serial_mux.cpp, the parts put together; Server/Loop has its steps: what one thread
--     does without a wait, taken in any order.
--   Main: serial_mux.cpp, `main`, the rounds of serial_mux_loop and serial_mux_stop.
--   Clr: ClientListener.cpp, the hello of the .NET variant's listener; Clr/Clients: ClientManager.cpp,
--     its list of clients and the queue of their commands.
--   Options: hexToBin of SerialMuxOptions.cpp. Options/Config and Options/Parse have
--     SerialMuxOptions.h and parseConfiguration; boost.program_options is the parameter
--     `ProgramOptions`, with what is documented of its `store`.
--   Log: ext-tools/LogUtilities/BoostLog.h and BoostLog.cpp. The file system is a parameter, the
--     record `Files`, with the laws of remove and rename.
--   Prelude: Boolean tests, lists and bits over the native numbers.
-- The files without a folder are those of serial_mux/.
--
-- Numbers. A byte is a number below 256; a uint16_t or an int keeps its wrap-around as `% 2 ^ w`,
-- and an int that holds a filter is its 32-bit pattern. Where the code stores a sum in a byte, the
-- model has `% 256`. The number of attempts of a command is the manager's `retries`, so following
-- it through that many waits is enough.
--
-- What is not modelled: what boost does behind a socket, a port, a timer, a thread or a lock (its
-- completions are arguments and steps); the text of log lines; what
-- boost.program_options does with a text; the rest of the .NET variant, which is not in
-- the build files and lacks headers, and the Windows service, a third party's library.
pub mod Prelude
pub mod Hdlc
pub mod Mux
pub mod Common
pub mod Subscriber
pub mod Picard
pub mod Queue
pub mod Client
pub mod Manager
pub mod Options
pub mod Log
pub mod Main
pub mod Clr
pub mod Listener
pub mod Server
