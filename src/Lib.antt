-- ===== src/Lib.antt =====
-- sponsoryeet: skips sponsored segments of the YouTube video that a Chromecast on the local network
-- plays. It finds the device by multicast DNS, keeps a TLS connection to it on which it exchanges
-- protocol buffer messages, follows the play position, downloads the segments to skip for each
-- video, and tells the device to seek past them.
--
-- The parts, and the files that model them:
--   * Util: stringSplit of util.h. Extract: regexExtract and extractNumber of util.h.
--   * Mdns/Packet: queryHeader, queryFooter, sendRequest and parsePacket of mdns.h.
--     Mdns/Query: openSocket, sendData, query and findChromecast.
--   * Cast/Message: class CastMessage of castchannel.h. Cast/Protobuf: the interface to its base class.
--   * State: globals.h and the variables of namespace cc in chromecast.h, in one record, the interfaces
--     to the system, to doubles and to regular expressions, and the actions on variables and world.
--   * Connection: struct Connection of connection.h. Connection/Download: downloadFile.
--   * Chromecast: sendMessage, sendSimple, seek, sendSimpleMedia and loadMedia of chromecast.h.
--   * Sponsor: splitToDouble and downloadSegments of sponsor.h.
--   * Loop/Position: currentPosition, secondsUntilNextSegment and currentSegmentEnd of loop.h.
--     Loop/Seek: maybeSeek. Loop/Handle: handleMessage. Loop/Serve: loop.
--     Loop/Progress: printTimestamp and printProgress, as the text that they print.
--     Loop/Watch: what is watched, as an abstract machine that the program is shown to go through.
--   * Ssl: resolveSymbols, libraryInit, attemptOpen and initialize of ssl.cc. Ssl/Calls: the functions that
--     call through a pointer.
--   * Options: the options of main.cc and the set of categories, which Options/NameSet reads as a set
--     without order and repetition.
--   * Program: the rest of main. The signal handler is the call that tells whether it has run.
--     Program/Watched, Unchanged, Released and Quit are about the program as a whole.
--   * Prelude: library names passed on, Boolean tests, and lemmas on lists, texts and integers.
--   * Tests: the parameters at concrete values, runs, and the theorems at concrete inputs.
--
-- A std::string or a byte vector is a list of numbers, each a byte below 256. uint8_t and uint32_t
-- arithmetic keeps its wrap-around; request numbers and times are natural numbers. double is a
-- parameter with the operations that the code uses, and the proofs use of it that < is irreflexive
-- and transitive, which holds of not-a-number too, and two facts about -1. The system, the network
-- calls, the SSL library, the dynamic linker, the terminal, std::regex and strtod are parameters
-- without laws, but for what single theorems suppose: that dlopen adds a
-- handle to those that are open and dlclose of an open one takes it off, that each call that makes a
-- context, handle or socket has one that frees it, if it is in use, while no other call changes which
-- are in use (State/Bag), that the terminal's attributes are what was last set, that recvfrom
-- writes no more bytes than it is given room for, that SSL_read has a largest read, and that calls
-- leave errno as it is. The protocol buffer base class (ec_protobuf.h, a copy of another project's
-- library) is a parameter whose laws state the documented format: fields in order, ZigZag as the
-- double of a number that is not negative, empty texts left out, texts that are not UTF-8 refused.
-- The evaluation order of the + in out_content, which the language leaves open, is a parameter
-- too.
--
-- Fuel: stringSplit has one round more than the text has bytes, which is enough. The loop of
-- parsePacket has its fuel as an argument, since it does not end on every packet; where it does, as
-- many rounds as the packet has bytes are enough, and for a packet that is read, one more than its
-- labels. splitToDouble has one round more than the text has bytes, as each round consumes a byte.
-- The loops of query, of loop and of main have their rounds as an argument: they wait for the network,
-- so that no number is enough.
--
-- Not modelled: ec_protobuf.h, as said above, and all printing but the progress display.
pub mod Prelude
pub mod Util
pub mod Mdns
pub mod Cast
pub mod State
pub mod Connection
pub mod Chromecast
pub mod Extract
pub mod Sponsor
pub mod Loop
pub mod Tests
pub mod Ssl
pub mod Options
pub mod Program
