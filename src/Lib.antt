-- ===== src/Lib.antt =====
-- Evidra GitOps: a service that keeps an immutable timeline of deployment events and projects it to
-- changes, one for each deployment operation.
--
-- A CloudEvents request is parsed to stored events (internal/cloudevents); the repository
-- (internal/store) keeps them under their ids and answers timeline queries page by page; the service
-- (internal/app) projects events to changes and lists them; the API (internal/api) checks who asks
-- and calls the service. The collector (internal/ingest/argo) brings the events of Argo CD applications
-- to the repository and keeps a cursor for each application; the adapters of webhooks
-- (internal/providers) make events of pushes and pull requests; the exporter (internal/export) writes the
-- events of an export to a file.
--
-- Files:
--   Base, Base/*           lists, texts, integers, association lists and sorting, with their laws
--   Value                  what encoding/json makes of a document: `interface{}`
--   Result                 the errors that the program tells apart, and `do` for error returns
--   Event                  internal/cloudevents: StoredEvent, ExtensionString, ExtensionBool
--   Event/Platform         what Go's standard library does, as parameters of the model
--   Event/Hash             ComputeIntegrityHash
--   Event/Parse            ParseRequest, parseBatch, rawToStoredEvent, Validate
--   Store, Store/*         internal/store/store.go: MemoryRepository with every operation; Cursor and
--                          Query have QueryTimeline, Exports the export jobs; Ingest, History, Order,
--                          Timeline and Pages hold the proofs
--   Sql, Sql/*             internal/store/sql.go: the columns of an event (Columns), the queries it
--                          writes for PostgreSQL and SQLite (Statement), events (Events) and export
--                          jobs (Exports); Bound and Injection are about the text of a query,
--                          Committed about what an ingest sends to the database
--   Changes, Changes/*     internal/app/changes.go: deriveChangeIdentity (Identity), the statuses
--                          (Status), approvals and correlation (Evidence), buildChangesByID and
--                          finalizeChange (Build), filterChanges and the cursors (Filter)
--   App, App/*             internal/app/service.go: ParseSubject, and CreateExport (Exporting);
--                          internal/app/changes.go: the cached change queries and the methods of
--                          Service (Queries). Repository, Cache and Exporter are records of operations;
--                          Memory fills Repository with the memory repository, Listing is a client that
--                          follows the cursors of ListChanges; Interleaved has the steps of the calls
--                          on the cache, which take turns with those of others
--   Api, Api/*             internal/api: authRateLimiter (Limiter), requestRemoteIP (Remote),
--                          authorization (Auth), withAuthDefaults and extractClaimRoles (Defaults),
--                          rolesFromJWT (Jwt) and the cache of its keys (Jwks), and
--                          the handlers: handleEvents (Events), handlers_changes.go (Changes),
--                          handlers_query.go (Reads) and handlers_exports.go (Exports), behind what they
--                          share (Guard)
--   Export, Export/*       internal/export/fs.go: CreateEvidencePack and derivePrimaryChange
--   Argo, Argo/*           internal/ingest/argo: the cursors of the collector and their file (Checkpoint),
--                          NormalizeSourceEvent (Normalize), the polling loop (Collector) and the handler
--                          of the informer (Collector/Object), and the events of an Application that the
--                          client fetches (Client)
--   Ingest, Ingest/*       internal/ingest/registry.go; internal/providers/shared (Shared)
--   Providers, Providers/* internal/providers/github, gitlab and bitbucket: adapters and parsers;
--                          internal/providers/kubernetes: the collector of events (Kubernetes)
--   Config, Config/*       internal/config/config.go: Validate, Summary, ParseTrustedProxies
--   Tests, Tests/*         the theorems at concrete inputs
--
-- State is passed explicitly: an operation takes the state and the times that it reads from the clock,
-- and returns its results with the new state. A lock that an operation holds throughout is left out. A
-- map of Go is an association list; where the program walks a map, the list's order stands for the
-- order of the walk. A text is a sequence of code points, so it stands for valid UTF-8 only, and lower
-- case is that of ASCII. A time is the number of nanoseconds since 1 January of the year 1, the zero
-- time of Go. Of a JSON number only its digits are kept.
--
-- encoding/json, crypto/sha256, crypto/hmac, encoding/hex, encoding/base64, the formats of package time
-- and the cache of github.com/hashicorp/golang-lru are parameters. Where a theorem needs that a decoder
-- reads what the encoder writes, it says so with `Platform.IsLawful` or `Platform.ReadsMaps`; what is
-- needed of the cache is `Given.IsCache`. What the file of the checkpoint needs of the disk is
-- `Restart.IsFaithful`. The database is a parameter too, an
-- `Engine` that answers a statement and its bound values. Of github.com/golang-jwt/jwt,
-- `Sound.ChecksSignatures` says that it checks signatures; of JSON, `Platform.EncodesAll` that maps are
-- encoded, and `Stored.IsEncoding` what the Kubernetes collector needs.
--
-- The only fuel is that of a client that follows cursors (`fetch_all` for events, `follow` for
-- changes): one round more than there are events or changes that pass the filters is enough.
--
-- Not modelled: the database behind database/sql, the clients of Argo CD and Kubernetes, the reading of
-- the configuration by viper, start-up, metrics, tracing, the audit log, the inside of golang-jwt, the
-- demo and the user interface. Most of them are input and output, or glue around
-- libraries.
pub mod Base
pub mod Value
pub mod Result
pub mod Event
pub mod Store
pub mod Sql
pub mod Changes
pub mod App
pub mod Api
pub mod Export
pub mod Argo
pub mod Ingest
pub mod Config
pub mod Providers
pub mod Tests
