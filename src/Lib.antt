-- ===== src/Lib.antt =====
-- TeleCollection keeps files in Telegram channels: a folder is a broadcast channel whose title carries
-- the marker "[TC]", a file is a message of it with a document, and a database beside it is an index.
--
-- Go's values. A string is the list of its bytes. An error is the constant text of its message, and
-- with %w the error that it wraps. A function that returns (value, error) is an action: a function on
-- the state behind it into a result, which is a value, an error or a panic. int64 and time.Duration are
-- integers; where the code can overflow the wrap-around is written out. A method that returns a value
-- beside an error has a pair of the value and an optional error as its result.
--
-- - Prelude: numbers, lists, results and actions, with the rules for what an action keeps (Keeps) and
--   for what holds where it returns a value (Yields).
-- - Retry: internal/telegram/retry/retry.go, and the middleware of internal/telegram/client/client.go.
--   The call, the context and the clock are an environment on a state. The loop runs on the number of
--   attempts that it has left, the one bound that the code has.
-- - Strings: what the program uses of package strings. Case mapping and trimming outside ASCII are the
--   parameter Unicode.
-- - Telegram: the shapes of the replies that the program looks into, and the calls of the client as
--   functions on a state, which are parameters: that client is not part of this repository.
-- - Dialogs, Folders, Fileops, Upload: the packages of internal/telegram of the same names.
--   DisplayName loops on a fuel of one more than the bytes of the lowered title, of which each round
--   takes four; a slice out of range is a panic.
-- - Store: internal/store. Store/Engine is the database: tables in the order of their ids, counters,
--   the statements of the SQL texts, and a script that says which statements fail. Store/Sqlite and
--   Store/Postgres are the two drivers' methods, statement by statement. Store/Contract says what a
--   client may rely on: two maps, and what each method does to them. Store/Opening is the Open of both
--   drivers with internal/store/migrate, and Store/Suite the tests of internal/store/storetest.
-- - Index, Drive: internal/index and internal/drive. A drive operation runs on the pair of the Telegram
--   side and the database; its theorems hold for every store that keeps the contract. Drive/Naming is
--   about the rows of folders.
-- - Auth: internal/telegram/auth/flow.go. Each critical section of the mutex is a function on the Flow;
--   Auth/Steps interleaves those of the goroutines and of the requests, for fewer than 2^64 attempts,
--   the range of the generation counter. Auth/Attempts and Auth/Channels interleave in more detail: the
--   goroutine of an attempt, from its launch to its send to `done`, the requests, select by select, and
--   every channel between them with its buffer. A close of a request channel and the write of the state
--   before it are one step. gotd may call the authenticator at any time, and return anything.
-- - Crypto, Session: internal/crypto and internal/telegram/session. The ciphers are parameters. A disk
--   is its files, a script that says which calls fail, and the files after each call, which are what a
--   crash there leaves behind; StoreSession is the calls that it makes.
-- - Client: internal/telegram/client/client.go, New.
-- - Transfer, Download: internal/transfer and internal/telegram/download. The state has the side of the
--   caller (reader, writer, callback) and that of Telegram (client, clock, context); the uploader and the
--   downloader are parameters that are given Read or Write, and the retries are those of Retry.
-- - Http: internal/httpapi. A handler is an action on the response and the state of the services;
--   Http/Response is the response, Http/Requests how the file endpoints read a request, Http/AuthRoutes
--   and Http/DriveRoutes the handlers, Http/Router the middleware and the routes, and Http/Mounted puts
--   Drive behind them. Http/Blurring has the services with another text in each error. SHA-256, hex,
--   JSON, forms and numbers in queries are parameters, and what chi answers where no route fits.
-- - Fileops/Nonce: the loop of cryptoRandInt64, by the rounds that it is allowed.
-- - Config: internal/config; the environment is a function, empty where a variable is not set.
-- - Daemon: cmd/telecollectiond, over http.ListenAndServe as a parameter, and internal/version.
-- - Examples: concrete parameters for the tests, which stand in modules named Tests.
--
-- Not modelled: what only hands on to a driver or to gotd, such as Close and Run. Contexts appear
-- where the code itself looks at them. The numbers and names that are formatted into a message are
-- left out of it. SQL transactions of other processes do not interleave with an operation. A column
-- type that refuses a value, such as TEXT of Postgres a NUL or bytes that are not UTF-8, makes its
-- statement fail, as the script of faults lets any statement; the 32 bits of chunk_count in Postgres
-- are modelled.
mod Prelude
mod Examples
pub mod Retry
pub mod Strings
pub mod Store
pub mod Telegram
pub mod Dialogs
pub mod Folders
pub mod Drive
pub mod Upload
pub mod Fileops
pub mod Index
pub mod Auth
pub mod Http
pub mod Config
pub mod Crypto
pub mod Session
pub mod Client
pub mod Transfer
pub mod Download
pub mod Daemon
