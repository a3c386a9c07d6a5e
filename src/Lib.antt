-- ===== src/Lib.antt =====
-- entropy-service: a server that streams random bytes from deterministic generators which it reseeds
-- from an entropy device, and a client that fetches and examines them.
--
-- The parts and their files. Paths are from the root of the repository.
--   Prelude         shared names, Boolean tests, lists, integers, 64-bit words, whole `float64`
--                   numbers and results.
--   Metrics         cmd/entropy-server/internal/metrics/metrics.go: the process-wide counters.
--   Budget          cmd/entropy-server/ws_budget.go and http_budget.go: `Budget` is the state of both
--                   admission budgets, `ws_admit` and `http_admit` are their `admit`, `Ticket` with
--                   `release` the closure that an admission returns. `History` takes either admission
--                   function through the record `Admission`.
--   Drbg            cmd/entropy-server/internal/drbg: `Generator` holds the constructors and methods
--                   of `DRBG` under their names, `Cipher` what is used of the cipher packages,
--                   `Connection` the private generator of a connection, `Metadata` the snapshot and
--                   the headers.
--   Request         the query parsers of cmd/entropy-server/entropy-server.go and ws_byte_format.go, and
--                   the preferences cookie.
--   Config          cmd/entropy-server/internal/config/config.go: `validate` is `Validate`.
--   Source          cmd/entropy-server/entropy_source.go: opening and selecting the entropy device.
--   Rdrand          cmd/entropy-server/internal/rdrand: mixing CPU words into the bytes of a source.
--   Reseed          `reseedLoop` of cmd/entropy-server/entropy-server.go.
--   Handler         the byte routes of cmd/entropy-server/entropy-server.go and http_stream.go: they
--                   parse a request, ask a budget for admission, read a generator, and release.
--                   `Handler.Frame` writes the frames of ws_byte_format.go.
--   Startup         `main` of cmd/entropy-server/entropy-server.go from its options to the root
--                   generator, with `NewMixer` and `NewCPUMixer` of internal/rdrand.
--   Upload          cmd/entropy-server/upload.go: the analysis of a body, and the route around it.
--   Words           cmd/entropy-server/words.go and the word routes of entropy-server.go.
--   Sound           cmd/entropy-server/sound.go: options, synthesis, WAV file and route.
--   StatusWriter    cmd/entropy-server/request_logging.go.
--   Images          the heat map, the random image and the QR route of entropy-server.go.
--   Activity        cmd/entropy-server/activity_peaks.go: the largest observed rates.
--   Observability   cmd/entropy-server/observability.go: readiness, health and metrics.
--   Lifecycle       cmd/entropy-server/lifecycle.go: a shutdown that waits for its handlers, and
--                   the cleanup that waits for the reader of a WebSocket.
--   Client          cmd/entropy-client/internal/stats/stream.go, internal/diag,
--                   internal/client, monitor.go, entropy-client.go and lifecycle.go: the streaming
--                   statistics, the counts behind the diagnostics, the frames of a stream in reused
--                   buffers, the monitor that runs beside the goroutine that reads them, the fetch and
--                   the socket test, and `run` with its options.
--   Tests           concrete runs.
--
-- How it is modelled. A method that holds a mutex is one step: a function from state to state. Where
-- calls interleave, the model is a sequence of steps: `Budget.History` and `Drbg.Instances` run any
-- list of events, and `Lifecycle` and `Client.Monitor.Stream` are step relations. The routes are
-- modelled one request at a time. An error is a value of `Outcome`. Bytes are numbers; unsigned
-- 64-bit counters wrap around at 2 ^ 64, and `int` and `int64` are integers whose sums stay in range
-- by the guards that are modelled. The whole numbers that the client sums as `float64` are rounded as
-- `Prelude.Float` says. The clock, the context's cancellation, the pieces in which a body or a copy
-- comes, and the results of the operating system are arguments.
--
-- Packages are parameters: SHA-512, ChaCha20 and AES-CTR are the record `Cipher`, with their documented
-- behaviour in `Documented`; JSON and base64 of the cookie are `CookieCodec`; `strconv.Atoi`, package
-- os, the CPU instructions, SHA-256 and other floating-point numbers are arguments of the functions
-- that use them.
--
-- Loops are recursive in the list that they read. The one loop of the program on fuel is the mixer's,
-- whose fuel is the number of bytes of its buffer; each round takes eight of them, so it does not run
-- out. The rounding of a sum tries up to 971 doublings of its last digit, which reach 2 ^ 1024.
--
-- Not modelled: floating-point arithmetic but those sums, and the figures that are computed from
-- it; the encoders of images, QR codes, hexadecimal, base64 and JSON; sockets, dialing, listeners
-- and TLS; the flags of the command line; pages, banners and the rendering of the client; and the
-- server's `main` after its root generator, which registers the routes and waits for a signal. They
-- are input and output, calls of packages, or arithmetic without a model here.
pub mod Activity
pub mod Budget
pub mod Client
pub mod Config
pub mod Drbg
pub mod Handler
pub mod Images
pub mod Lifecycle
pub mod Metrics
pub mod Observability
pub mod Prelude
pub mod Rdrand
pub mod Request
pub mod Reseed
pub mod Sound
pub mod Source
pub mod Startup
pub mod StatusWriter
pub mod Tests
pub mod Upload
pub mod Words
