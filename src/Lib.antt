-- ===== src/Lib.antt =====
-- Verification library of orcacommon, the shared Go packages of a web backend.
--
-- A Go string is a list of bytes (Common/Text), an int64 a signed number with its wrap-around
-- written out (Common/Word), a request and a response writer are records (Common/Http): the status
-- that is sent first stays, and a header that is set later does not reach the client. A handler may
-- change a state, so that a middleware that does not call the next handler leaves the state alone.
-- A function that returns an error gives an Option or a result type of its own; the log, and the
-- text of an error where no property reads it, are left out. Time is a number of nanoseconds. Time,
-- randomness and the answers of other systems are arguments.
--
-- The parts, and the files that model them:
--
-- EphemeralAuth, of ephemeralauth/: tokens that live up to three minutes and are bound to a guest
-- session. Base64 is helpers.go. Token is token.go (DeriveKey, NewIssuer, Issue, Verify,
-- HashContext) with TTL and Issuer of config.go; Redaction is its LogValue. Guest is guest.go, the
-- signed session cookie. ClientIp is clientIP of issuance.go, Issuance the rest of that file and
-- botverifier.go. Protect is middleware.go. Turnstile is turnstile.go. External holds what the
-- package calls: SHA-256 and HMAC, and the library golang-jwt, as parameters with the laws that
-- their documentation states; JSON keeps valid UTF-8 only, so that the claims that it keeps are a
-- parameter too. Lifecycle follows a token from its issuance to its use.
--
-- LiteSpa, of litespaserver/: the server of a single-page app on a CDN. Csp is csp.go; Dao is
-- dao.go, with the table as an association list, of which reads and writes may fail each; Fetch is fetcher.go, with the CDN as
-- a function of the URL; Static is static.go; Cache the bounded maps of static.go and serve.go, in
-- which any entry may be the one that is evicted; Version is version.go; Server is serve.go: the
-- handler in Server itself, NewServer and the owner's operations in Server/Setup. The server uses
-- EphemeralAuth: its guest middleware wraps ServeRoot, and PublicAuthHandler and
-- PublicAuthMiddleware are the handlers of Issuance and Protect. Server/Reference tells what is to
-- be answered without caches, and Server/Reachable which states a server gets into.
--
-- Email, of email/mailgun.go: the checks on a message, the form that is sent, and the answer. A form
-- is the list of its parts; writing it down as a multipart body is left out.
--
-- Migrate, of postgres/migrate.go: Migrate/Dir is embedDir, versionPrefix and quoteIdent,
-- Migrate/Lock acquireAdvisoryLock, Migrate/Run runMigrations. The database and the library Atlas
-- are parameters that change a state, and Migrate/Revisions is pgRevisions, the table of the
-- migrations that were applied, as a list of rows. The release of the lock may fail; that the lock
-- belongs to one connection of the pool is not modelled, and Migrate/Run/Release has a log of the
-- calls instead. The loop that waits for the lock runs on 62 rounds of fuel:
-- the deadline is 30 seconds after the start and a round takes half a second at least, so the round
-- after the 61st is past the deadline. All other recursion is structural.
--
-- DbConfig, of postgres/dbconfig.go: the URL of a database; DbConfig/Log is LogValue.
--
-- EmbeddedPg, of utils/embedded_pg.go: the processes of an embedded PostgreSQL server. PidFile is
-- what is read of postmaster.pid, of /proc and of the output of ps; Process has CheckPIDFile,
-- ReuseEmbeddedPG, KillEmbeddedPG and the rest over a record of system calls, which change a world,
-- with a log of what is done to processes and directories. Its loop has the 20 rounds of the source.
--
-- Pool, of postgres/pool.go. Registry is the map of pools: Registry/Threads has resolvePool,
-- ClosePoolWithKey and gracefulShutdown as program counters and one step of a goroutine, where a step
-- is what happens under one lock or in one call, and Reached is what any order of steps comes to.
-- Registry/Alone is what one goroutine after the other does, with a specification in Alone/Spec.
-- Stop is stopWithForceKill; the number of ticks that its loop receives before the deadline is an
-- answer of the system, so that no fuel is needed. Connect is the function Connect: Connect/Embedded
-- the start of an embedded server, Connect/Open the branches, the pool and openCloudSQL. Options is
-- parseEmbeddedOptions and the URLs, Dsn the connection strings and ensureDatabaseExists. Connect
-- uses Stop, Stop uses EmbeddedPg; the registry has a creation as a step with any outcome.
--
-- Convert, of utils/convert.go: StructToMapLC, over a type of the values that reflection sees.
--
-- Network, of utils/network.go, has the questions about a request and the JSON response; a free port
-- is an answer of the system in Connect. Logging, of utils/slog_handler.go, is the handler that splits
-- records by their level.
--
-- Requests to a server come one after the other, so that the joining of concurrent fetches
-- (singleflight) and the mutexes of the server are not modelled. Not modelled either: the conversions
-- by encoding/json in utils/convert.go, the Windows stubs, the settings of HTTP clients, and cmd/ and
-- tests/, which are glue.
pub mod Common
pub mod EphemeralAuth
pub mod LiteSpa
pub mod Email
pub mod Migrate
pub mod DbConfig
pub mod EmbeddedPg
pub mod Pool
pub mod Convert
pub mod Network
pub mod Logging
