-- ===== src/Lib.antt =====
-- redeo is a framework for servers that speak the redis protocol. This library models its Go code
-- and proves properties of the model.
--
-- A connection has a reader (`bufioR`), a writer (`bufioW`) and a loop (`pipeline`, `serveClient`)
-- that peeks at the next command, looks its handler up, reads the command, calls the handler and
-- flushes the replies. Handlers append to the writer. The broker of pubsub.go appends to the
-- writers of several connections.
--
-- Base, Monad: the shared lists, numbers (int64 with its wrap-around) and the outcome of stateful
-- code: a value, a returned error, a panic, or the end of the fuel.
-- Io: readers and writers behind the buffers are parameters (`IoReader`, `IoWriter`), and so are
-- the limits of the runtime. `IsStream` and `IsSink` state what is documented of them.
-- io.ReadAtLeast and io.LimitedReader of the standard library are written out.
-- Errors: resp/resp.go. Decimal: strconv.FormatInt of the standard library.
-- Reader, Replies, BulkReader, Line: resp/bufio.go, `bufioR`, `bulkReader` and `bufioLn`. One
-- function for each method; state is the record `BufioR` with the whole array, stale bytes
-- included.
-- Writer: resp/bufio.go, `bufioW`, and `WriteCmd` of resp/request.go. Spare capacity is part of the
-- state.
-- Argument: resp/util.go. Command, CommandStream: resp/command.go. Request: resp/request.go.
-- Wire: the protocol's messages, independently of the code.
-- Server: server.go and client.go. Pools and Server/Clients: the pools of client.go, with the
-- choices of a sync.Pool as arguments. Handlers: redeo.go. Info: info.go and info/values.go, the
-- counters and the client table. PubSub: pubsub.go.
-- Value: resp/value.go, `Append`, over a data type of Go values. Scan: resp/scan.go, over a data
-- type of variables, and `NullString` of resp/resp.go; floats are a parameter.
-- Registry: info/info.go and info/values.go, sections in a store that pointers name;
-- Registry/Defaults is `initDefaults` and the sorted list of clients of info.go, and the handler
-- `Info` of redeo.go.
-- ClientPool: client/conn.go and client/pool.go, over a pool of network connections that is a
-- parameter. Recorder: redeotest/redeotest.go, the recorder and its parser of replies.
-- Tests: a connection made of lists, and the theorems at small inputs.
--
-- Fuel: a loop that reads until it has enough takes `rounds` of the runtime as its fuel. Theorems
-- that need more than one round say how many are enough. A reader is valid up to an array of 2^62
-- bytes, so that sums of indices stay in int64.
--
-- Not modelled: goroutines, the accept loop and deadlines of server.go; the times of info.go and
-- what prints them; Scannable types other than NullString; config.go, a record of durations, and
-- cmd/; AppendErrorf, Quoted and the conversions of arguments to numbers, which are calls of the
-- standard library. The mutexes are not modelled: each operation of a writer holds its own from the
-- first line to the last. In the registry `FetchSection` and `Replace` are taken apart into the
-- steps between which other goroutines may run.
pub mod Base
pub mod Monad
pub mod Errors
pub mod Io
pub mod Reader
pub mod Replies
pub mod BulkReader
pub mod Command
pub mod CommandStream
pub mod Request
pub mod Value
pub mod Recorder
pub mod Scan
pub mod Writer
pub mod Decimal
pub mod Line
pub mod Argument
pub mod Wire
pub mod Info
pub mod Registry
pub mod Pools
pub mod ClientPool
pub mod Server
pub mod Handlers
pub mod PubSub
pub mod Tests
