-- ===== src/Lib.antt =====
-- packrune, an artifact repository server: a model of the program's core and what it promises.
--
-- The program keeps the bytes of packages in a backend (internal/storage), addressed by their
-- SHA-256 digest (internal/storage/cas), and what a client sees in two tables, repositories and
-- artifacts (internal/repo). A row of artifacts binds a path of a repository to a digest; group
-- repositories answer from their members. The format handlers translate the protocol of a package
-- manager into calls of these three: Docker, Go modules, Helm, Maven, npm and PyPI (internal/format). Garbage collection (cmd/packrune/gc.go)
-- deletes the blobs of the backend that no row refers to. Beside them stand the users and their access
-- tokens (internal/auth), the webhooks with the worker that retries deliveries (internal/webhook), the
-- audit log (internal/audit), and the management API over all of these (internal/api). Before the server
-- starts, the configuration is loaded (internal/config), and the migrations bring the schema of the database
-- up to date (internal/db).
--
-- Prelude, Action: bytes and texts as lists of numbers with the functions of package strings, and
--   functions that return an error and change a state on the way: what was written before the error
--   stays written.
-- Database: the statements of database/sql on the tables of a component, with a list that says which of
--   them fail.
-- Storage: `Backend` is the interface of internal/storage/storage.go over any state, and
--   Storage/Contract what the layers above rely on. Storage/Disk is package os: a list of files,
--   and a list of the faults of the calls to come, so that a theorem for every disk covers every
--   failure, in any order. Storage/Fs and Storage/Fs/Listing are internal/storage/fs/fs.go;
--   Storage/Cas is internal/storage/cas/cas.go.
-- Repo: Repo/Tables is internal/repo/repo.go and the tables of migrations/0001_initial.up.sql, with
--   faults as the disk has them; Repo/Store, Repo/Resolve and Repo/Listing are
--   internal/repo/store.go. Repo/Rows, Repo/Resolve and Repo/Listing/Shadowing state what the
--   operations do in terms of the rows at a path.
-- Docker: Docker/Route is route.go with the syntax checks of upload.go and blob.go; Docker/World the
--   state, the requests and the responses; Docker/Upload is upload.go; Docker/Proxy is proxy.go;
--   Docker/Handler is blob.go and manifest.go; Docker/Serve is handler.go and the listings of
--   manifest.go, all in internal/format/docker.
-- Format: what the handlers but that of Docker share, the store of a body at a path and the fetch from an
--   upstream; Format/Stored says that what is stored is found, Format/Calm that it stays while other things
--   are stored; Format/Registry is internal/format/registry.go.
-- Gomod: Gomod/Route is route.go, Gomod/Handler is handler.go and proxy.go, both in
--   internal/format/gomod.
-- Npm: Npm/Route is route.go, Npm/Packument is packument.go, Npm/Handler is handler.go and proxy.go, all
--   in internal/format/npm. A map of the source is a list of entries, in the order it is ranged over.
-- Maven: Maven/Path and Maven/Metadata are the paths and the version document, Maven/Handler the requests, of
--   handler.go and proxy.go in internal/format/maven. Maven/Metadata/Versions says what the document lists.
-- Pypi: Pypi/Name is the normalisation, Pypi/Page the pages of the index and Pypi/Handler the requests, of
--   handler.go and proxy.go in internal/format/pypi.
-- Helm: Helm/Chart is chart.go and index.go, Helm/Handler is handler.go and proxy.go, in internal/format/helm.
-- Numbers, Config: strconv.ParseInt, and internal/config/config.go.
-- Sql: db.go, and Sql/Migrate is migrate.go, both in internal/db. A schema is the rows of schema_migrations
--   and the list of the bodies that were executed and committed.
-- Restore: cmd/packrune/restore.go, over the disk of Storage/Disk.
-- Auth: Auth/Tables are the tables of migrations/0001_initial.up.sql, Auth/Secrets is token.go and
--   password.go, Auth/Service is auth.go and service_db.go, all in internal/auth; Auth/Rows, Auth/Sessions,
--   Auth/Accounts and Auth/Passwords are about them.
-- Webhook: Webhook/Tables are the tables of migrations/0002_webhooks.up.sql, Webhook/Service is webhook.go
--   and Webhook/Worker is worker.go, both in internal/webhook. The goroutines that Fire starts run one after
--   the other, and the worker runs over a list of ticks, each with the answers of the subscribers.
-- Audit: audit.go and store.go of internal/audit.
-- Api: the files of internal/api, with the requests and the answers in Api/Messages. The one database
--   is the tables of each component; a route is a constructor with what the handler takes from the URL
--   and the body. The writer of the audit log and the webhooks are configured, as serve.go does it.
-- Gc: the sweep of cmd/packrune/gc.go; Gc/Safety says what it relies on, and Gc/Files that the
--   filesystem backend grants it; Gc/DryRun is about the flag --dry-run.
-- Examples: the theorems at concrete inputs.
--
-- Parameters, being of packages outside the repository: crypto/sha256 (a hash of 32 bytes),
-- crypto/rand, uuid and the clock, the name that os.CreateTemp finds, the LIKE patterns and the
-- orders of the database engine, encoding/json, encoding/base64, bcrypt, HMAC-SHA256, and the HTTP
-- client. Two blobs of one digest are not excluded: the theorems speak of contents of a digest, and of the very bytes where no blob was
-- there before.
--
-- Loops run over a list, but for that of the sweep over the pages of a listing: it takes the number
-- of pages that are read, and answers nothing if there are more; and that of the worker, which runs over
-- the ticks it is given. Not modelled: the HTTP server with its
-- middleware and the embedded assets, the opening of connections, the command lines, the dispatch of serve.go,
-- backups and the checks of doctor.go, which are input and output for the most part; of the API the version,
-- which answers constants; what the body of a migration does to the other tables; texts that are not ASCII
-- where case matters; times that only are stored, log lines, the messages of
-- errors, and two requests or goroutines at a time.
pub mod Prelude
pub mod Action
pub mod Storage
pub mod Repo
pub mod Docker
pub mod Examples
pub mod Api
pub mod Audit
pub mod Auth
pub mod Config
pub mod Database
pub mod Format
pub mod Gc
pub mod Gomod
pub mod Helm
pub mod Maven
pub mod Npm
pub mod Numbers
pub mod Pypi
pub mod Restore
pub mod Sql
pub mod Webhook
