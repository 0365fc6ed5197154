-- ===== src/Lib.antt =====
-- The Go services of Streamlation: the API that registers translation sessions, the workers that take
-- their ingestion jobs, and the packages between them. A session is validated by the API, stored in
-- PostgreSQL, announced over Redis and queued in a Redis list; a worker pops the job, loads the session
-- and runs its pipeline, whose events reach the browser over a WebSocket.
--
-- Parts and files:
-- - Prelude: bytes and texts, decimal numbers, big-endian words, integers, results, lists and tests.
-- - Net: a connection as its peer's bytes, what a read meets behind them, what is written, and the
--   errors that writing and setting a deadline give. It stands for packages net, bufio and io.
-- - Session: packages/go/backend/session/session.go.
-- - Postgres: packages/go/backend/postgres. Connect is parseConfig and NewClient; Param is encodeParam,
--   with a lexer of PostgreSQL's literals in Param.Lexer as what a
--   statement of the store means; Query is prepareQuery,
--   readDollarTag and isDollarTagChar; Row is parseRowDescription, parseDataRow, parseCommandComplete,
--   parseErrorResponse and handleAuthentication; Client is startup, writeStartup, readMessage,
--   writeQuery, simpleQuery, discardUntilReady, Exec, QueryRow and Query; Scan is assignValues and
--   simpleRows; Store is store.go over the interface `executor`, which the client fills.
-- - Redis: packages/go/backend/redis/client.go. Resp is writeCommand, readReply and readLine; Client is
--   Do, ensureConn, reset, resolveAddr and shouldReset; Client.Subscription is Subscribe and PubSub.run.
-- - Queue: packages/go/backend/queue/queue.go over the Redis client.
-- - Api: apps/api/cmd/server. Input is normalizeAndValidateSession and Handlers the handlers of
--   session.go over SessionStore, IngestionEnqueuer and StatusPublisher; WebSocket is the frames and
--   websocketReadLoop of status.go, and in Handshake its sessionStatusHandler,
--   with what a browser gets of it in Answers.
-- - Ingestion: packages/go/backend/ingestion and apps/worker/cmd/ingestion. File, Rtmp and Hls are the
--   sources of file.go, rtmp.go and hls.go; Emitter is the numbering, offering and counting of chunks
--   that the last two share; Hls.Playlist is parsePlaylist and parseDuration; Ingestor is ingestor.go
--   and Jobs is worker.go; Composed puts the ingestor's sources to work.
-- - Status: packages/go/backend/status: the publisher and the subscriber over the Redis client, and the
--   goroutine, the channels and the reader of a stream as steps.
-- - Worker: apps/worker/cmd/worker/main.go: handleJob, publish and getWorkerConcurrency, and in Dispatch
--   the steps of Run and processJobs.
-- - Pipeline: packages/go/backend/pipeline: pipeline.go, and testable_runner.go in Testable.
-- - Output: packages/go/backend/output/stub_generator.go.
-- - Tests: the definitions run on concrete inputs, and the theorems at inputs that meet their
--   hypotheses.
--
-- State: a client is its connection, and an operation is a function on the connection; the clients'
-- mutexes make each operation one step. Errors are constructors, one for each place of the source that
-- makes one, without the texts. Fuel bounds the loops over messages, replies, frames and characters:
-- each round takes a byte at least, so the input's length and one is enough, and theorems show that no
-- loop runs out of it (in discardPayload each round takes a byte of the payload's length). The loops of
-- the sources, which run until their context ends, are taken for any number of rounds.
--
-- Goroutines: a source's goroutine is a function of what surrounds it, a world that decides when the
-- context ends, which chunks the channel takes and what is downloaded. Where goroutines meet, in
-- Worker.Dispatch and Status, the model is a relation of steps, and a theorem holds for every order of
-- them. Histories (the jobs popped, handled and dropped, the events taken) are kept in the state.
--
-- Parameters: SHA-1, base64, url.Parse, url.ParseRequestURI, filepath.Clean, strconv.ParseFloat,
-- the JSON codec, the dialer, the HTTP client, the stores and queues behind the API's interfaces,
-- the components of the testable runner, and when contexts end. Limits: lengths that a process
-- cannot allocate, which panic below the bound of an int; letters outside ASCII that fold to `s` in
-- the check of the answer to SUBSCRIBE; subtitle times from 2 ^ 17 minutes on, for which float64 is
-- not exact; reads that block for ever, on a connection to which the server sends nothing and which has
-- no deadline (the input of a connection ends in an error); and the timestamps of status events.
--
-- Not modelled: the stubs of media, recognition, translation and synthesis, which stand in for programs
-- outside the repository, the dependency container, process wiring, logging and the web front end.
pub mod Prelude
pub mod Net
pub mod Session
pub mod Postgres
pub mod Redis
pub mod Queue
pub mod Api
pub mod Ingestion
pub mod Status
pub mod Worker
pub mod Pipeline
pub mod Output
pub mod Tests
