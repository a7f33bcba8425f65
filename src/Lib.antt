-- ===== src/Lib.antt =====
-- IMTegrale: the synchronisation core, the import of marks and the GPA simulations of the backend
-- (backend/app). Students synchronise their marks from an external site; the backend admits the
-- requests, runs them as durable jobs, repeats them on a schedule, and lets a student simulate a
-- grade point average.
--
-- Parts and files
--   Prelude, Query: shared names, Boolean tests, and a table as a list of rows with the queries
--     that the source puts to SQLAlchemy (select, order_by, update, delete), and their lemmas.
--   Models, Store: the rows and their updates, from models.py and models_operations.py.
--   Events: record_event of services/events.py, the journal that the other operations write.
--   Jobs: services/jobs.py, the queue of durable jobs. Jobs/Lease has claim_job, finish_job and the
--     recovery of expired leases, Outbox the same for notifications, Renewal the renewal of a
--     request by its worker, Calendar enqueue_due_calendar_jobs, Cleanup cleanup_durable_state; their
--     siblings prove.
--   SyncControl: services/sync_control.py, the admission of synchronisation requests. Reserve has
--     reserve_sync_request, Finish finalize_sync_request, Start the first transaction of
--     execute_sync_request of services/sync.py; the other children prove.
--   Runtime: the transactions of both as steps on one database, in any order, and what holds in every
--     database that they reach. All other code is one more step: it inserts accounts without
--     requests, deletes rows, and changes no column of a job or a request and no slot.
--   Modes, Availability: sync_modes.py, services/autonomous_sync_availability.py and
--     services/autonomous_sync_schedule.py, which say who may synchronise without a session.
--   Schedule: services/sync_schedule.py, when an account is synchronised automatically.
--   Gateway: services/pass_gateway.py, which lets one operation at a time reach PASS. Guards and
--     Reserve have reserve_pass_operation, Complete complete_pass_operation, Quota quota_snapshot; the other
--     children prove.
--   Credentials: services/imt_sync_credentials.py, the sealed passwords of autonomous
--     synchronisation. Operations has the code; Lifecycle and Generations prove.
--   Import: apply_pass_entries of services/sync.py, which makes the notes of an account what PASS
--     shows. Entries and Apply have the code; Loop, Mirror, Again, Frame and Outcome prove.
--   Simulations: services/simulations.py, scenarios with a three-way merge against the academic
--     data and a version number as an optimistic lock. Scenario and Editing have the operations.
--   Limiter: LoginRateLimiter of security.py, a sliding window of login attempts per key.
--   SecretFrames: crypto/secret_frames.py, the padded frames around passwords and sessions.
--   Tests: concrete databases and the theorems applied to them.
--
-- How the code is modelled
--   A function that ends in a commit is one step on the state that it reads and writes; a raised
--   exception is a value, and its transaction leaves the state as it was. reserve_sync_request,
--   which reads before its conditional UPDATE and again after one that changed no row, takes what
--   other transactions commit in between as arguments. SKIP LOCKED is a predicate on the rows that
--   others hold. Rows that ORDER BY leaves level keep the order of the table.
--   Identifiers, digests and texts that are only compared are numbers; new ones are arguments.
--   Instants are microseconds on the native numbers; a test of `now - d` is written as a sum.
--   The sealing of a password and the store of PASS sessions are parameters of the credentials.
--   The codec of texts and the source of random bytes are parameters, with the laws of IsPlatform.
--   The time zone is a parameter with two laws: 08:00 exists on every day, and an instant whose
--   local clock shows at most 08:00 of a day is not after that opening. Credits and grade points
--   are counted in hundredths.
--   What Python's texts and floats do in an import is a parameter; scores are stored in hundredths
--   and coefficients in thousandths. The new notes of an import are numbered upwards.
--   The entries of a saved scenario stand in the order of their positions, as the relation reads
--   them back. Upper case and the names of copies are parameters.
--   Loops are recursive on lists. next_business_time keeps its eight rounds and is proved never to
--   need more.
--
-- Not modelled: HTTP, HTML and PDF handling, cryptography and the front end, which are outside a
--   model of the state; the HTTP traffic between the reservation and the completion of a PASS
--   operation; the PASS sessions, the leaderboard, the calendars, the averages, which are floats,
--   and the administration.
pub mod Prelude
pub mod Query
pub mod Models
pub mod Modes
pub mod Availability
pub mod Schedule
pub mod Events
pub mod Store
pub mod Jobs
pub mod SyncControl
pub mod Limiter
pub mod Credentials
pub mod Gateway
pub mod Import
pub mod SecretFrames
pub mod Simulations
pub mod Runtime
mod Tests
