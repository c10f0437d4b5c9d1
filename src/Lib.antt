-- ===== src/Lib.antt =====
-- passwd-pot is a set of honeypots that pretend to be POP3, FTP, HTTP and PostgreSQL servers, capture
-- the user names and passwords that clients try, and report each as an event. Events go by HTTP to
-- a relay or straight to an API gateway, whose handlers record them in a database and resolve the
-- addresses of the sender and of the pot to rows of locations.
--
-- The parts, with the files of the repository that they stand for:
--
-- - Common: Go's strings as lists of bytes, `strings.Split`, `Trim` and the like at the arguments
--   that the program gives them, decimal numbers, maps, and results. Text is bytes; `int` and `int64`
--   are ℤ and the ids of rows ℕ.
-- - Api (api/types.go): the event and the response to a batch; Api.Time (api/event.go): its instant
--   in JSON and as a value of a database.
-- - Pot: the actions of a connection handler (`Act`: writes, `go sendEvent`, the deferred close),
--   how it ends (`End`, a panic included), the address of a sender (Pot.Address), and the pots.
-- - Pot.Pop (cmd/pop/pop.go), Pot.Ftp (cmd/ftp/ftp.go), Pot.Http (cmd/http/http.go): `sendEvent`,
--   the parsing of commands or credentials, and the handlers. The POP3 handler reads a stream of
--   bytes. The FTP handler makes a new buffered reader for each command, so its input is the list of
--   what the reads of the connection return. Writes of the FTP pot may fail at any round.
-- - Psql (cmd/psql): ReadBuf and WriteBuf (cmd/psql/buf.go) with the wrap-around of the 32-bit and
--   16-bit fields, and Handler (cmd/psql/psql.go). The scratch space of a handler holds any bytes
--   when a message is begun (`Scratch`).
-- - Senders: the `sendEvent` of the four pots side by side.
-- - Cache (cache/cache.go), over an interface for the concurrent map of a third-party package;
--   Cache.Memory fills the interface. Cache.Race has the steps of a look-up and of other goroutines
--   of one cache: the map's operations are atomic, and `IterBuffered` is one look at all keys.
-- - Resolver (resolver/resolve.go, resolver/types.go): `Resolve`, `ResolveEvent` and `resolveAddr`.
--   The state is the cache that all clients share and the history of calls to the database and to
--   the geo service, whose answers are functions of that history (`Env`). Resolver.Table is one.
--   Resolver.Clients lets clients with and without a cache take turns, each call being one step.
--   Resolver.Options has the constructor. Resolver.Service (resolver/geoipc.go) is the client of the
--   geo service.
-- - Recorder (event/event.go): `RecordEvent`, and `RecordBatchEvents` as the steps of a transaction,
--   each of which may fail. Recorder.Columns has an interface for the tables, the columns of the
--   statements and the view of schema/psql/schema_psql.sql, Recorder.Reading `GetEvent`, and
--   Recorder.Agree and Recorder.Copying the rows of a batch, where a step that gives an error aborts
--   the transaction, and a commit that gives one may be done or not; Recorder.Memory and
--   Recorder.Committed fill the interfaces.
-- - Database (potdb/db.go): the pool (Database.Pool), the dialect, the numbering of placeholders, and
--   `Insert`.
-- - Proxy (cmd/proxy.go): `ServeHTTP` and `Drain` over an interface for the queue on disk;
--   Proxy.Fifo fills it. Proxy.Rounds has the loop of `Drain` as single steps, since a request can
--   come in between two of its rounds, the timer of `start`, and the signals. Proxy.Process is the
--   process around it: its start, the goroutine of the signals, and the exit.
-- - ApiClient (api/event.go): the HTTP client and its tries, over an interface for the retries of a
--   third-party package; ApiClient.Patient fills it.
-- - Listen (cmd/listen/listner.go, cmd/work/work.go): the goroutine that accepts connections and the
--   loop that starts handlers, as steps on an unbuffered channel.
-- - Log (log/log.go): the level of a logger and what each of its methods writes to which backend.
--   Log.Setup (cmd/setup.go) is `setupLogger`.
-- - Lambda (aws/lambda/events.go, aws/lambda/geolookup.go): the handlers behind the gateway, with
--   the global that a failed setup leaves. Lambda.Stores lets the handlers and the resolver share
--   the tables of one database; Lambda.Shared fills its interface. Lambda.ReadBack, Located, Traced
--   and BatchLocated follow what is taken to the reader. Lambda.Boot has the globals that `init` and
--   `setup` fill, and the guards of the handlers.
-- - Potter (cmd/potter.go): which pots are started, and at which addresses; Potter.Client: the client
--   of a dry run and the choice of the client; Potter.Group: the goroutines of the pots and the
--   wait group.
-- - Capture (cmd/potter.go): `Send` between a pot and the relay. The handler and the goroutines of its
--   events take turns; each event is posted and comes to ServeHTTP in one step, which reads it whole;
--   a post that fails, which loses its event, is left out. JSON is an
--   interface (`Codec`), since it changes bytes that are no UTF-8 and cuts times to milliseconds.
--   Capture.Guesses, Capture.Login, Capture.Rows, Capture.Readers: from a client of a pot to the relay,
--   on to the table of events, and to `GetEvent`.
--
-- Loops that the source bounds by their input run on fuel: a line for each byte and one more in the
-- POP3 pot, a command for each read and one more in the FTP pot, a message or an SSL request for
-- each byte and one more in the PostgreSQL pot, an item for each that is in the queue and one more
-- in `Drain`, a placeholder for each byte and one more in `replaceParams`. Each round of them takes
-- one of what is counted, so that this is enough.
--
-- Not modelled: the flags and the configuration file of the command line, and the streaming
-- commands, which the source comments out. The HTTP requests, the tables of the database, the
-- JSON and gzip codecs, base64, the database drivers, the queue, the concurrent map and the retry
-- policy are parameters. In the models of the handlers, the goroutines that send events are
-- actions in the order of their start.
mod Common
pub mod Api
pub mod Pot
pub mod Psql
pub mod Senders
pub mod Cache
pub mod Resolver
pub mod Recorder
pub mod Database
pub mod Proxy
pub mod ApiClient
pub mod Log
pub mod Listen
pub mod Lambda
pub mod Potter
pub mod Capture
