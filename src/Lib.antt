-- ===== src/Lib.antt =====
-- hubaBox (hubabox-proj/) is a file hub for a local network. An administrator signs in with a
-- password, uploads, imports and removes files, and switches a read-only library on and off; guests
-- open the library with an access code, download files and chat. The Go packages under
-- hubabox-proj/internal/ share a SQLite database, a data folder and the clock; the package server
-- puts middleware and handlers before them.
--
-- How the library models this. The state that operations share is the record World of World.antt:
-- the tables kv, sessions and library_chat_messages, the files on disk, the clock in nanoseconds,
-- and a schedule of faults. A function that reads or changes it is an action, World to a result and
-- a World; every statement and every file operation takes one entry of the schedule and fails if it
-- is true, so that a theorem over all states covers every pattern of failures. Random bytes are
-- arguments. Each definition names its Go function in the comment above it.
--
-- Files and the code they model:
--
--   * Base.antt and Base/: tests on numbers, lists, and Go's results with an error. Text.antt and
--     Text/: strings as lists of code points, an invalid byte being a unit of its own, with the
--     functions of strings, unicode, strconv, sort and net/url that the code calls, and maps with
--     text keys. FilePath.antt and FilePath/: path/filepath on Unix.
--   * Files.antt, Files/: hubabox-proj/internal/files/path.go and SanitizeName, and list.go in
--     Files/Listing. Files/Paths has the safe paths, Files/Stable the converse, Files/Contained and
--     Files/Exact the joins with the hub's folder.
--   * Upload.antt, Upload/: SaveUpload, SaveUploadLimited, OpenRead and Remove of
--     hubabox-proj/internal/files/files.go. Import.antt, Import/:
--     hubabox-proj/internal/files/import.go.
--   * Importer.antt, Importer/: hubabox-proj/internal/importer/importer.go, with Importer/Eligible
--     for eligible.go beside it. Importer/Scan has the two imports and their report,
--     Importer/Entries the list for the picker, Importer/Supervisor the goroutine that keeps a
--     watch loop as a step relation, Importer/Watch that loop over its events.
--   * World.antt, World/: the tables of hubabox-proj/internal/db/migrate.go, statements on kv, and
--     operations on files.
--   * RateLimit.antt, RateLimit/: hubabox-proj/internal/server/ratelimit.go.
--   * Auth.antt, Auth/: hubabox-proj/internal/auth/auth.go, over a parameter for bcrypt.
--   * Library.antt, Library/: hubabox-proj/internal/library/library.go and nick.go.
--   * Chat.antt, Chat/: hubabox-proj/internal/librarychat/messages.go and cleanup.go. Voice.antt,
--     Voice/: sniff.go and voice_mime.go beside them.
--   * FileMeta.antt, FileMeta/: hubabox-proj/internal/filemeta/.
--   * Server.antt and Server/: hubabox-proj/internal/server/middleware.go and server.go.
--     Server/Routes has the table of Handler, Server/Accounts setup, login and logout,
--     Server/FileForms uploads and deletions, Server/LibraryForms the forms of the library,
--     Server/ImportForms those of the import folder. Server/Downloads has the downloads and
--     previews of hubabox-proj/internal/server/library_handlers.go, Server/Insight the rows and
--     details of filelist.go and file_insight.go, Server/ChatForms the chat of
--     library_chat_handlers.go with its voice clips in Server/VoiceNotes, Server/LibraryPage the
--     page of the library with its cookie of the last visit, Server/Flash the messages of the file
--     page, Server/Headers the headers of every answer and the token of the forms.
--   * LanShare.antt, LanShare/: hubabox-proj/internal/lanshare/lanshare.go and status.go, and
--     probe_unix.go in LanShare/Samba; the forms of integrations_handlers.go beside it are in
--     Server/ShareForms.
--   * NetUtil.antt, NetUtil/: hubabox-proj/internal/netutil/lanip.go.
--   * Tests.antt, Tests/: runs at concrete inputs, and each theorem applied to one.
--
-- How the parts interact: a request passes the guards that Server/Routes lists before its handler,
-- which call Auth and Library; the handlers of Server/Accounts and Server/FileForms call Auth and
-- Upload; Upload calls Files for the place of a name; Import picks a free name and goes through
-- Upload; Chat takes names of voice files that Voice recognises; the watch loop of the importer
-- scans through Import; a download opens what an upload has stored.
--
-- Bounds and fuel. Numbers are natural numbers. Times are nanoseconds that do not reach the bounds
-- of an int64, and sizes are below 2^63, as the code's own bounds are far below it. The scan for
-- "ftyp" runs with fuel 32, and at most 31 offsets fit into its 128 bytes; Itoa runs with fuel one
-- more than the number, which has no more digits than that; the loop of UniqueDestName counts down
-- from its own bound. Sizes are printed with one decimal as exact quotients, which a float64 holds
-- for sizes below 2^53. All other loops are recursion on a list.
--
-- What is not modelled: the templates of the pages, and the page of the files, which fills one from
-- parts that are modelled; the programs that the LAN share starts and its probe on Windows, the
-- invite origin, mDNS, printers, the configuration and the start of the process; the spelling of
-- dates, which is a parameter; folders, which exist as soon as a file in them is written; symbolic
-- links on the way of a path; changes of the import folder while it is read. TLS and the routing of
-- chi are outside the repository; the routing is written down as the code uses it. A page's own
-- CSRF cookie is not part of the responses; Server/Headers has the function that makes it.
pub mod Base
pub mod Text
pub mod FilePath
pub mod Files
pub mod RateLimit
pub mod World
pub mod Auth
pub mod Library
pub mod Upload
pub mod Chat
pub mod FileMeta
pub mod Import
pub mod Importer
pub mod LanShare
pub mod NetUtil
pub mod Server
pub mod Tests
pub mod Voice
