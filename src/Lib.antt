-- ===== src/Lib.antt =====
-- MedgeNet: a server that replaces the online service of a game (server/, in Go). Clients speak FESL,
-- a packet protocol over TCP, to log in, manage personas and friend lists; they store and fetch
-- ghost files from a file locker over HTTP; both services share one SQLite database.
--
-- Which file models which part:
--   Prelude      bytes, lists and int64 values over native numbers; tests into Bool
--   Text         Go's strings, strconv and unicode/utf8 functions that the server calls
--   Exec         functions that change state and may fail or panic, and the rules for invariants
--   Env          config.Config (server/config/config.go) and what comes from outside: clock, random
--                bytes, failing statements, SHA-256 and HMAC, reading and printing of floats
--   Float, Int64 Go's float64 with its comparisons, and arithmetic of int64 that wraps
--   Calendar     server/storage/storage.go: periodCutoff, over dates of the Gregorian calendar
--   Packet       server/fesl/packet.go: Encode, Decode, ParamsMap
--   Password     server/storage/storage.go: hashPassword, verifyPassword, pbkdf2SHA256
--   Store        server/storage/storage.go: accounts, personas, login tokens, friends; Store.Stats,
--                Store.Historical and Store.Rank: statistics, historical runs and leaderboards
--   Fesl         server/fesl/server.go and server/fesl/associations.go: sessions, the checks on names,
--                the handlers, dispatch and the loop that reads a connection; Fesl.Rank:
--                server/fesl/rank.go, the statistics handlers
--   Locker       server/locker/server.go and server/locker/xml.go: identifiers, HTTP requests in a
--                byte stream, responses, listings and their XML; Locker.Requests: handleRequest over
--                the ghost directory of Locker.Files; Locker.Connection: handleConnection
--   Loop         the loop that both servers read a connection with
--   Identifiers  the checks on names of the two services, compared
--   Tests        runs on small inputs, and every theorem at a concrete state
--
-- How the parts interact: `Fesl.Connection` decodes packets with `Packet`, hands each to the
-- `dispatch` of `Fesl.Dispatch`, and writes the reply. A handler is a function on `World`, the session
-- and the database, in the monad of `Exec`: an error keeps what was written before it, and a panic
-- ends the process. A store function runs one step for each SQL statement of the source; any
-- statement may fail before it changes anything, as `Env.fault` says.
--
-- Strings are lists of bytes, int and int64 are integers whose range stands in the conditions or is
-- written out (`parse_int` clamps, as strconv.ParseInt does; sums of sizes wrap). The loop that
-- takes messages off a buffer runs on fuel, one more than the bytes in it; a packet takes at least
-- twelve bytes and an HTTP request at least four, so the loop always ends by itself. The loop
-- that fits a leaderboard into a packet runs on fuel, the number of rows, of which each round drops
-- one.
--
-- Tables are lists of rows, oldest first; where SQL leaves the order of rows open, as for times that
-- tie, the model has one order. A value of a statistic is the 64 bits of a float64.
--
-- The ghost directory is a list of files by name; a call of the system may fail at any tick, and a
-- write that fails may leave a part of the file. JSON, URLs and CRC-32 are parameters, `LockerEnv`.
--
-- Properties of calls that hold of what is built from calls that have them are an interface,
-- `Exec.Closed`: an invariant (`Keeps`) and a call that always ends without an error (`Answers`)
-- fill it, as does one that never panics (`Ends`), and the statistics functions that only read are
-- shown once to have all three. `Loop.Chunks` has
-- another, `Stream`, which the packets of fesl and the requests of the locker fill.
--
-- Not modelled: the listings of storage.go that only read (SearchPersonas, HistoricalPlayers,
-- HistoricalAccountLinks, HistoricalLinkCandidates, LoginTokenHashPrefix); reading the
-- configuration; files outside the ghost directory; log lines; sockets; the start-up code; the
-- foreign keys of the schema, which are a condition where they matter; the C++ client.
pub mod Prelude
pub mod Text
pub mod Exec
pub mod Env
pub mod Float
pub mod Loop
pub mod Int64
pub mod Calendar
pub mod Packet
pub mod Password
pub mod Store
pub mod Fesl
pub mod Locker
pub mod Identifiers
pub mod Tests
