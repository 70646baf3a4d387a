-- ===== src/Lib.antt =====
-- A model of the RGB multisig hub, a server at which the cosigners of an RGB wallet post operations
-- (transfers, issuances, ...), vote on them, and mark them as processed.
--
-- The program. src/main.rs routes HTTP requests to the handlers of src/routes.rs, after src/auth.rs has
-- found out who makes them. A handler reads and writes the tables of a database through the methods of
-- src/database/mod.rs (entities in src/database/entities) and the files of a directory through
-- src/utils.rs. src/startup.rs makes the state that the handlers share. Errors are those of
-- src/error.rs.
--
-- The modules.
--   Base          names of the library, Boolean tests, lemmas on lists and on lists as tables
--   Text          split, replace and parse of Rust on native strings, and the decimal digits of a
--                 number with their round trips (Decimal)
--   Errors        the error types of src/error.rs and the HTTP status of an API error, the responses to
--                 them (Response) and their form (Rendering)
--   Operations    the enums of src/routes.rs, OperationType::try_from with its numbers (Numbers), and
--                 get_threshold_for_operation of src/utils.rs
--   World         the tables and the files as one state (Tables), the code outside the repository as
--                 a record of functions with the laws that are relied on (Outside), the actions on the
--                 state with values, errors, panics and transactions (Monad), and rules to reason about
--                 them: what a success has done (Inversion), what a run does when its steps are known
--                 (Forward), what holds after a run if something held before (Triples), which actions
--                 change no table or change them wholly or not at all (Atomic), which keep a part of them
--                 (Keeps), and which do not panic (Panics)
--   Migration     the schema of migration/src/m20251201_150154_init_db.rs, the columns and the relations
--                 of src/database/entities (Entities), and what a foreign key asks of the tables
--                 (References)
--   Database      the methods of AppDatabase, by what they do (Rows, Insert, Update, Find), and what
--                 their answers and effects mean (Reads, Answers, Latest, Effects)
--   Files         compute_file_id and persist_temp_file of src/utils.rs, and the upload of a file
--   State         AppState of src/startup.rs
--   Startup       start_daemon of src/startup.rs, what a start has done (Outcomes, Writes, Starting), and
--                 the hub that a first start makes (Configured); the version of rgb-lib (Version) and
--                 which ones are supported (Supported); the arguments, the configuration and the
--                 launch of src/main.rs (Arguments), and what follows from a success (Accepted, Launched)
--   Auth          the middleware of src/auth.rs and whom it lets through (Tokens), and the check of the
--                 root key (RootKey)
--   Hex           hex_str_to_vec of src/utils.rs and the pairs that it decodes (Pairs)
--   Multipart     the forms that axum hands to the handlers
--   Votes         the count of the responses and the decision in respond_to_operation
--   Routes        the handlers of src/routes.rs: Addresses, Transfers, Processed, Post (Form, Save),
--                 Respond, and Lookup for those that only read; Reads, FormReads, Atomicity, Ranges,
--                 BumpAnswers, FirstAnswer and Refusals prove what those that write do, RespondForms what is read
--                 from the form of a response, and Voters, Entries, Shown,
--                 Credits, Responders and Posters what a lookup shows
--   Hub           the consistency of the tables (Settled), the effect of each handler that writes to the
--                 operations and the entries of the cosigners (Created, Posting, Responding, Recorded, Recording,
--                 Marking), that each keeps the tables consistent (PostKeeps, RespondKeeps, Responses)
--                 and takes nothing back (Progress), the requests of src/main.rs (Requests), what
--                 follows for every sequence of requests (Reach, Verdicts), that a response does not panic
--                 (Panics, Unbroken), what a mark answers (MarkAnswers), and the way of a request through
--                 the router and the middleware (Gate), for those who are not cosigners (Guests). The
--                 tables that voting does not read are left alone by most requests (SideTables, Aside,
--                 Uploads), which, by an induction on the requests (Induction), is what later requests
--                 rely on (Reservations, Answers). What the foreign keys ask (Integrity) is kept by each
--                 write (IntegrityRows, IntegrityWrites), each handler (IntegrityKeeps, IntegrityRequests) and each call
--                 (Received, References)
--   Tests         a hub of three cosigners (Setup), runs of it (Runs), and the theorems at these runs
--                 (Witnesses, Doors, Launch, Calls, Conclusions, Lookups)
--
-- How state and code correspond.
--   * A handler is a function from the world to an outcome (a value, an error or a panic) and the world
--     after. The write handlers hold the write lock from start to end, so each runs alone; a request that
--     only reads is taken to run between two others.
--   * A table is a list whose order means nothing: a query sees the rows in the order that
--     `Env.scan` gives. A call of another library has a number, the tick, and may fail, or answer
--     otherwise, at every tick. A transaction whose body or commit does not succeed leaves the tables as
--     they were when it began. Files are not rolled back. A directory
--     is no file of the model, which answers a request for one as if it were missing. Hash maps are association lists.
--   * A temporary file, which is removed with its handle, is a value. Files, the fields of forms and the
--     text of the root key are lists of bytes; other texts are strings.
--   * The machine at launch (the port, the configuration file and its contents) is the parameter
--     `Startup.Arguments.Host`. The root key stands beside the parameters of the start.
--   * An insert or an update does not look at the foreign keys, as Migration declares them and SQLite
--     enforces them: the model allows more. What it allows is never asked for, by Hub.References.
--   * Integers are natural numbers. The `u8` counts of the votes wrap as in a release build. The keys
--     of rows are positive; a negative index in a request fits no row, as an unused one does. Timestamps
--     are as the clock gives them.
--   * The loop of compute_file_id runs on fuel, one more than the bytes of the file: each read that is
--     not the last yields a byte or more. Other loops are recursions on their lists.
--
-- Not modelled. Axum, SeaORM, SQLite, Tokio, Biscuit and the hash are parameters. The logs, the limits
-- and the shutdown in src/main.rs, the encoding of responses as JSON, the texts of AppError, which end
-- the program, no_cancel of src/utils.rs, which runs a future to its end, adjust_canonicalization, which
-- prints a path, and the command line of the migration are left out. An upper limit of 255 cosigners,
-- which the startup does not check, is a condition of what follows from the votes: Votes.Overflow is
-- about more.
pub mod Base
pub mod Text
pub mod Errors
pub mod Operations
pub mod World
pub mod Migration
pub mod Database
pub mod Files
pub mod State
pub mod Startup
pub mod Auth
pub mod Hex
pub mod Multipart
pub mod Votes
pub mod Routes
pub mod Hub
pub mod Tests
