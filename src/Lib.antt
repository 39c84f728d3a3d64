-- ===== src/Lib.antt =====
-- The core of kfcrash, a crash reporter for Apple platforms, in C: which monitors watch for crashes
-- and how an exception is let through, the codec that reports and state files are written and read
-- with, and the monitor that keeps count of launches and crashes.
--
-- Monitors (Sources/KFCCore). A monitor is a table of callbacks, `KFCrashMonitorAPI`. The registry
-- keeps up to 100 of them and switches them on; the handler gives each exception a context, decides
-- what may still be done about it, and passes it to the registry, where every monitor adds to it.
--   Monitor/Api: the callbacks as an interface over the state of the rest of the program, with the
--     laws the registry relies on (KFCrashMonitorAPI.h, KFCrashMonitorContext.h and
--     KFCrashExceptionHandlingRequirements.h).
--   Monitor/Registry: KFCrashMonitorRegistry.c, `kfccmr_addMonitor` and the others, on the list of
--     slots; proofs in Slots (the list), Enabling (activation), Events (the pass over an event).
--   Monitor/Handler: KFCrashMonitor.c, `notifyException`, `handleException` and the operations on the
--     list; proofs in Decision (what a context asks for) and Table (the threads that are busy).
--   Monitor/Switches: concrete monitors for the tests.
-- The operations of the handler run one after another here, in any order; what two threads could do
-- to each other between two atomic accesses is not modelled. Of a monitor it is not assumed that it
-- does what it is told, and the event callback may change a context's requirements and suspended
-- threads. `ksid_generate`, the suspension of
-- threads and the debugger test are callbacks of the interface.
--
-- JSON (Sources/KFCCore/KFCJSONCodec.c and .h).
--   Json/Escape, Json/Number, Json/Encode: `appendEscapedString`, the formatting of numbers, and the
--     encoder over a function that takes the text, `addJSONData` of the source. A call is a function
--     on `KSJSONEncodeContext`; its result `none` is an access outside `isObject`. Encode/Trees has
--     the text of a whole value, written down without the encoder, and Encode/Sequences any order of
--     calls.
--   Json/Decode/Text, Json/Decode/Scalars, Json/Decode: `decodeString`, numbers and words, and
--     `decodeElement` with `ksjson_decode`, over the callbacks of the client. Decode/Total shows that
--     the rounds given are enough, Decode/Kept what a client may rely on, and Decode/Reading what the
--     decoder makes of the texts of the encoder.
--   Json/Events: callbacks that keep a log.
--   Json/Insertion: `ksjson_addJSONElement`, the encoder as a client of the decoder; proofs in
--     Insertion/Direct and Insertion/Closing.
-- `decodeElement` calls itself and loops; in the model each call and each turn of a loop takes one
-- of `rounds_for s` = 2 * length s + 2 rounds. Bytes are numbers below 256, and the input is what lies
-- between `bufferPtr` and `bufferEnd`, with the one byte behind it where the source reads that.
-- `double` is a type of its own with the C library's printing and scanning as a parameter. Not
-- modelled: `ksjson_addJSONFromFile`, whose callbacks move the text under the decoder.
--
-- Application state (Sources/KFCrash/Monitors/KFCrashMonitor_AppState.c and .h).
--   Sessions/State, Sessions/Storage, Sessions/Notify: the globals, the state file as a client of the
--     codec, and one function for each notification; proofs in Storage/Laws, Storage/Loading,
--     Notify/Totals and Notify/Counts.
-- The clock is a sequence of readings; each `getCurrentTime` takes the next. The file system at a path
-- is a parameter, and so are `ksfu_readEntireFile` and `ksfu_writeBytesToFD`. An `int` is its 32 bits,
-- and counts wrap around where C leaves it open.
--
-- Strings (Sources/KFCCore/KFCString.c).
--   CString/Utf8, CString/Hex, CString/Order: the test for a text in memory, the hexadecimal value in
--     a string, with `strnstr` as on Apple platforms, and the comparison. Memory is the list of its
--     bytes; as many rounds as there are bytes are enough, for each takes a byte at least.
--
-- Report store (Sources/KFCrash/KFCrashReportStoreC.c).
--   Reports/Ids, Reports/Names, Reports/Store: the counter of identifiers, the names of files, and the
--     operations on the directory; proofs in Names/RoundTrip, Store/Sorting, Store/Listing and
--     Store/Pruning.
-- The directory, `ksfu_makePath` and the other file operations are a parameter; an `int64_t` is its 64
-- bits; `snprintf`, `sscanf` and `qsort` are written out for the formats and the comparison that are used.
-- `kscrf_fixupCrashReport` is an argument of `read_report`, and the mutex only keeps the operations
-- apart. A format with a conversion of its own in the application's name is taken to match nothing.
--
-- Report fixer (Sources/KFCrash/KFCrashReportFixer.c and Sources/KFCCore/KFCDate.c).
--   Fixer/Dates, Fixer/Context, Fixer/Rewriting: dates as texts, the stack of names with the paths and
--     the version, and the callbacks that encode what is decoded; proofs in Rewriting/InStep,
--     Rewriting/Bounds and Rewriting/Paths.
-- The clock and `gmtime_r` are a parameter, with one reading for a fixup. A NULL that reaches `strncmp`,
-- and an access outside `isObject`, end a fixup with a fault of its own.
--
-- User data (Sources/KFCrash/KFCrashUserData.c).
--   UserData/Breadcrumbs, UserData/Keys: the array of breadcrumbs that is written round and round, and
--     the array of custom keys; proofs in Breadcrumbs/Recent, Keys/Updating and Keys/Lookup.
-- The time of a breadcrumb is an argument. Each string is kept without its terminator.
--
-- Files (Sources/KFCCore/KFCFileUtils.c and .h).
--   Files: the mmap writer, whose `position` is the length of what it holds, and
--     `applyTruncationMarker` of Sources/KFCrash/KFCrashReportC.c; proofs in Files/Truncated.
-- A size is below 2^31, so that the cast of the rest to `int` keeps its value; `msync` is left out.
--
-- Not modelled: signals, Mach ports, exception hooks, stack walking and symbols, the Objective-C
-- runtime, files and logging, which are platform calls for the most part; the report writer; the Objective-C and Swift layers above the C core.
pub mod Prelude
pub mod Monitor
pub mod Json
pub mod Sessions
pub mod CString
pub mod Reports
pub mod Fixer
pub mod UserData
pub mod Files
