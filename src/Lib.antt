-- ===== src/Lib.antt =====
-- jackrabbit sends commands to runners. The server keeps runners, commands, logs and metrics in
-- PostgreSQL, takes requests over HTTP, and pushes commands to each runner over an event stream;
-- workers clean up after lost runners and old logs.
--
-- The parts, and the files that model them:
--
-- Base, Table, Dict: Go's and SQL's data. Base has Boolean tests, signed integers and lists. Table has
--   a table as the list of its rows in insertion order, with SELECT, UPDATE, ORDER BY and primary keys.
--   Dict is Go's map from strings.
-- Models, Results: server/internal/models/models.go, and the errors of the store.
-- Db: server/internal/store/postgres/store.go over the tables of server/migrations. Db/State has the
--   tables and the keys; Db/Runners, Db/Commands, Db/Logs, Db/Metrics, Db/Rollups, Db/Policies and
--   Db/Notify have one function for each method, of the method's name in snake case (ClaimNextCommand is
--   claim_next_command). A function takes the database, and what the method reads of the clock or
--   draws at random, to the result and the database after it. A statement is atomic; the rows that
--   other transactions hold locked are a field. The children prove what the methods do.
-- Server/Store: the interface of server/internal/store/interface.go as a record over any state, and
--   the PostgreSQL store as a value of it. The handlers and the workers are written over the record.
-- Server/Http, Server/Handlers: server/internal/api/handlers. A body comes decoded, or as none where
--   it does not decode; a response is its status and its body before it is encoded.
-- Server/Hub: server/internal/api/sse/hub.go. A method holds the mutex, so that a history of the hub is
--   a list of calls and receives.
-- Server/Dispatch: how a command reaches a stream, by handleNotification of server/cmd/server/main.go
--   and by Stream and flushQueuedCommands of server/internal/api/sse/handler.go. Each is a step of its own,
--   in which its calls follow one another: Stream starts the flush as a goroutine, which may come at any
--   time after the channel is registered.
-- Server/Reaper, Server/Retention, Server/Rollup: one run of each worker in server/internal/workers.
-- Server/Config, Client/Config: server/internal/config and client/internal/config, over the environment
--   as a function.
-- Client: client/internal. Client/Lines and Client/Executor model runner/executor.go, Client/Lifecycle
--   runner/lifecycle.go, Client/Listener the text of the event stream (FormatSSE of the server's
--   sse/hub.go, and readEvents of runner/sse.go), Client/Connection the loop of runner/sse.go that
--   connects and waits, Client/Startup New and Start of runner/lifecycle.go, Client/Program runRunner of
--   client/cmd/runner/main.go, and Client/Shipping the buffers of shipper/logs.go and
--   shipper/metrics.go, with Client/Shipping/Stored and Client/Shipping/Streamed what becomes of them at
--   the server. What goroutines do is a list of steps.
-- Sdk: sdk/go/client.go. Sdk has doRequest, Sdk/Requests a function for each method that makes one
--   request, Sdk/Streams and Sdk/Logs the loops of WatchCommands and WatchLogs.
-- Strconv, Duration, Web: what the programs use of Go's strconv, time and net/http.
-- Examples: the theorems and the functions at concrete inputs.
--
-- Times are nanoseconds, identifiers are the numbers that UUIDs spell, and floating point numbers are
-- their bits. The ranges of INT columns are written out. A call of the store fails by what its
-- statement does, not by a lost connection. Loops are over lists: of rows, of lines, or of the turns
-- that a loop without end has taken, each with what the world does in it. Only the printing of a
-- number in decimal has fuel, the number and one, which is more than its digits.
--
-- What the repository does not contain is a parameter: the text of a UUID (pgtype), the collation of
-- an ORDER BY on text, date_trunc and AVG, the order in which the query of a page comes upon the rows,
-- and what PostgreSQL does with a statement that was pasted together (the record Engine of Db/Notify),
-- JSON in the event stream and in the SDK, the network (the record Network of Sdk), the processes of a
-- runner, and the server's answers to a shipper. RollupMetrics makes two statements; no other
-- transaction is taken to come between them. A line of output is taken to be text in UTF-8, and the
-- bytes that are not are not modelled; a NUL character in the texts of a log or of a registration is
-- refused, in other columns it is not modelled. Not modelled: the loop of startListenNotify, the
-- middleware, the routing by chi and the wiring of the server, tickers and heartbeats, the generated
-- client and the clients in other languages, and what only does I/O.
pub mod Base
pub mod Table
pub mod Dict
pub mod Strconv
pub mod Duration
pub mod Web
pub mod Models
pub mod Results
pub mod Db
pub mod Server
pub mod Examples
pub mod Client
pub mod Sdk
