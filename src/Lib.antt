-- ===== src/Lib.antt =====
-- go-acp-server: a server of the Agent Client Protocol, JSON-RPC 2.0 with one message per line.
--
-- `Serve` (server.go) reads lines. A line is an answer of the client to one of the server's own
-- requests, a notification, or a request, for which a goroutine is started. The handlers
-- (request_handlers.go) keep the sessions; a prompt hands over to an executor that the caller of
-- `NewServer` gives, with a writer for updates (session_updates.go), tools that call the client back
-- (tool_invoker.go) and metadata in its context (session_context.go). Goroutines meet in the maps
-- that the server's mutexes guard, in channels, in contexts and in the one buffered writer.
--
-- Files and the code that they model:
--   Base        names of the library passed on, Boolean tests, lists, association lists (Base/Dict)
--   Go          what the code uses of Go: text, numbers, filepath, sort, the line scanner of bufio,
--               errors, and `Host`, a parameter
--   Json        values of encoding/json, and decoding into Go types (Json/Decode)
--   Protocol    protocol.go; the answers' JSON is in Protocol/Replies
--   Server      the state of `Server` and its lines. Server/Proc has goroutines as trees of actions
--               (a critical section, a write, a wait on a channel and a context, the random source,
--               the clock), Server/Cancel the cancel flags, cancel functions and contexts,
--               Server/Pending `callClient` and `handleClientResponse`, Server/Answers `writeResult`
--               and `writeError`. Server/Owes, Server/Writes and Server/Alone say what a tree writes
--               and what it does when it runs alone; Server/Quiet uses them.
--   Updates     session_updates.go, with `promptUpdateWriter` in Updates/Writer
--   Tools       tool_invoker.go: the tools and their infos, the arguments (Tools/Args), the calls
--               (Tools/Invoke)
--   Prompt      `handlePrompt` and `emitSessionContextUpdates` of request_handlers.go, and
--               session_context.go (Prompt/Context); an executor's turn is in Prompt/Executor
--   Config      what `NewServer` is given, and `decodeParams`
--   Handlers    the other handlers of request_handlers.go, with the sessions' in Handlers/Sessions;
--               Handlers/Direct has the requests that are answered without asking the client
--   Serve       the loop of `Serve`, `rpcWriter` and the schedules; Serve/Accounts says which lines
--               ask for an answer
--   Connections connections/: `Endpoint` and the whole of `Serve`, from its reader to its result, in
--               Connections/Endpoint, calls that overlap in Connections/Lock, http.go in
--               Connections/Http, websocket.go in Connections/WebSocket; Connections/Framing is
--               about texts made of lines
--   Acptest     acptest/driver.go: messages and id keys (Acptest/Payload), the state and its critical
--               sections (Acptest/Driver), the methods and the read loop as trees of actions
--               (Acptest/Calls), schedules (Acptest/System), one call of `Do` and its answer
--               (Acptest/Answered), `parseTurn` (Acptest/Turn) and `Format` (Acptest/Format)
--   Invariants  invariants of the state over all schedules: Invariants/Rules and Invariants/Sections
--               reduce one to the critical sections, which every handler is made of, and
--               Invariants/System to the schedules; Invariants/Directories and
--               Invariants/Correlation are two of them
--   Tests       concrete inputs
--
-- State: a map is an association list, a mutex's critical section is one action that maps the state
-- to the next, a channel of capacity one is the entry of its request id. A context is a number with
-- the contexts that are done listed; all are children of context 0, which `Serve` is called with, as
-- no others are made. A schedule is a list of events: a line is read, a goroutine does one action,
-- a context ends; each event says what the world answers, failing writes included. Schedules are
-- arbitrary, so all interleavings of critical sections are among them. A context may end at any
-- event, so also where the program would not end it: what holds for all schedules holds for the
-- program's, and no property says that a context comes to its end.
--
-- Bounds and fuel: the request counter wraps at 2 ^ 64. No handler needs fuel: the executor is a tree
-- that is well-founded but arbitrary, so a turn of its takes finitely many actions. The decimal
-- digits of n take fuel n + 1, and each digit divides n by ten.
--
-- Connections: a reader is the text that it gives until its end, with an error there. The schedule of
-- `Serve` is that of the server with its lines taken from the scanner; `none` stands for a call that
-- has not returned. A pipe's write waits until all of it is read, so a bridge whose second goroutine
-- has stopped before the last line does not return. The driver of acptest/ runs against any lines
-- whatever; a channel of capacity one is named by its key and by the number of lines before it. A
-- write of the driver waits, without a timer, until the server has read the line: such a wait is a
-- schedule that does not run the write.
--
-- Not modelled: the syntax of JSON texts, the texts of Go's own errors, floating point numbers and
-- dates, which are the fields of `Host` (and of `Float64` for the driver's ids) and of which the
-- definitions assume nothing; the log; panics of the executor; the goroutines that `NewDriver` starts
-- as far as they only join pipes, and the scanner of the driver's read loop, whose lines are the
-- schedule's; the parts of a character that a limit on bytes cuts; a slice that is nil, which the
-- source marshals as null and which here is an empty one.
mod Base
pub mod Go
pub mod Json
pub mod Protocol
pub mod Server
pub mod Updates
pub mod Tools
pub mod Prompt
pub mod Config
pub mod Handlers
pub mod Serve
pub mod Acptest
pub mod Connections
pub mod Invariants
pub mod Tests
