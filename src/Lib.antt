-- ===== src/Lib.antt =====
-- Verification library of sekai-master-api, a Go service that keeps game master data of several
-- regions in PostgreSQL and serves it over HTTP.
--
-- The parts and their files:
--
-- * Masterdata models internal/domain/masterdata. Json has the values that decoding yields and, as
--   the record Runtime, what is used of the standard library and not written out (floats, `%v`,
--   SHA-256). RecordKey is record_key.go (CompositeRecordKey, EncodeCompositeKey, RecordID,
--   RecordKey; BlockSortKey in RecordKey/SortKey, the keys of JSON bodies in
--   RecordKey/Raw, where a Decoder stands for the decoding of JSON). Projection is projection.go, with the columns in
--   Projection/Columns and, as the record Floats, the conversions of floats and JSON. Index is
--   index.go: Index/Table has the index table and its versions, Index/Paths the paths, Index/Keys the keys of records and lookups.
-- * Storage models internal/storage: Keyer is master_data_record_keys.go, the keys of one entity's
--   records in turn; Blocks is master_data_blocks.go, without the decoding.
-- * Repository models internal/repository: Lease is master_data_sync_lease_repository.go, Status
--   is Save and SeedPending of master_data_sync_status_repository.go. Each SQL statement is one
--   atomic step on the table; a Link says what becomes of a statement, its answer lost included.
--   Status/Steps has the steps of any number of processes on both tables. Refs is the git smart
--   HTTP part of master_data_github_repository.go: pkt-lines, advertised refs and their choice.
-- * Usecase models internal/usecase/master_data_sync_usecase.go: Region has the shortcuts of
--   `regionSyncTask`, Region/Full the full synchronisation and syncRegion, SaveStatus saveStatus,
--   CurrentEvent and EventTime CurrentEventUntil with its timestamps. Job is the job around the
--   regions' runs (syncLeased, syncClaimed, finishSyncJob), Workers the admission of the threads that
--   run jobs (tryAdmitSyncWorker, CloseAdmission, Wait, StartSync, sync) as a step relation on their
--   atomic actions, StatusQueries the reads of the status store (InterruptedRegions,
--   RecoverInterruptedSync, loadStatusMap, DashboardStatus and others). EventHub is
--   master_data_event_hub.go: a run is a list of calls, and a panic is `none`. A World holds the
--   answers of the collaborators in one run, the n-th reading of the context and the n-th call of
--   Save for each n, and a State lists the effects so far. A nil store of the regions' data is a
--   World without cache: the store of a loaded region panics there, and the process ends.
-- * Http models internal/transport/http: Pagination and Spoilers are PaginateItems and the spoiler
--   filter of handlers/shared with the hints of cachehint, ResponseCache is responsecache/entry.go
--   and the fill and handle of responsecache/middleware.go over a store that is a parameter.
-- * Prelude has lists and their stable sort, byte texts, decimal printing, length-prefixed framing
--   and splitting.
--
-- The use case gives a run the token of the lease that the lease repository issued, the status
-- repository refuses a save with an older token, and the store keys, indexes and blocks the files
-- that the run loaded. A handler's hint, such as the spoiler filter's, bounds how long the response
-- cache keeps its answer.
--
-- Texts are lists of bytes, holders and lease names are strings. Go's strings.ToLower is modelled
-- on ASCII letters, so is strings.EqualFold; strings.TrimSpace is exact on UTF-8. Times, counts and
-- tokens are natural numbers. Decimal printing runs on fuel, one more than the number, which is
-- more than it has digits; every other loop is structural.
--
-- Reading pages runs on fuel, one more than the list has items, since each page with a next one
-- has an item; parsing the advertised refs runs on the length of the body, since each packet takes
-- four bytes. A nil map is an empty record; the column of a projection identifies the two zeros of
-- a float. The keys of the response cache are taken to differ where the requests, the regions'
-- revisions or the builds do, so that one key stands for one request at one revision.
--
-- Not modelled: the handlers' filters and presentation, routing, authentication, configuration,
-- logging and metrics, which do input and output; the SQL of the data store and of the list queries
-- of the history, the downloads from GitHub and the version payloads, which are left for later; the
-- regions of one job side by side (they run in turn here) and the timing of the lease's heartbeat
-- (any calls on the lease table may come in between). Log lines and the step counters of progress
-- events are left out.
pub mod Prelude
pub mod Masterdata
pub mod Storage
pub mod Repository
pub mod Usecase
pub mod Http
