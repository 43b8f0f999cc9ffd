-- ===== src/Lib.antt =====
-- The core of the syllabus bot's backend: the training queue, from a professor's request for a model
-- to the version that serves a course, and the parts around it that keep state of their own.
--
-- A course has one model request (backend/app/db_model_requests.py) and a queue of training runs
-- (backend/app/db_training_runs.py). Workers on the cluster claim a run under a lease, report the
-- job that they submitted, and report how it ended (backend/app/training_queue_routes.py). A
-- success is registered as a model version (backend/app/db_models.py), which an admin publishes.
-- An admin may retire a run that nobody reports on and queue another (backend/app/
-- training_retry.py). Every route checks its course id first (backend/app/course_id.py).
--
-- What a model is trained on comes from a syllabus: question slots are handed out to its facts
-- (backend/app/seed_allocation.py), and the approved records are split into training and validation
-- (backend/app/seed_split.py). A trained version is served while a GPU session runs (backend/app/
-- db_serving_sessions.py). Students join with a classroom code, staff with one-time invitations
-- (backend/app/db_invitations.py, backend/app/student_invite_routes.py), behind a limiter of failed
-- attempts (backend/app/auth/rate_limit.py), and every generation waits its turn in one queue
-- (backend/app/generation_queue.py).
--
-- Where things are:
--   Prelude: library names, Boolean tests, lists, Python's strip. Table: rows of an SQL table, with
--     SELECT, UPDATE, INSERT and ORDER BY LIMIT 1 as functions on lists, and their laws.
--   CourseId: is_valid_course_id of course_id.py; CourseId/Slug describes what it accepts.
--   Training/Run, Database, Error: the rows, the records read from them, and what operations raise.
--   Training/Runs, Patch, Claims, RetryBlock: the functions of db_training_runs.py.
--   Training/Requests: db_model_requests.py. Training/Registry: db_models.py.
--   Training/Retry: training_retry.py. Training/Worker, Registration, Complete and VersionKey:
--     the routes of training_queue_routes.py, function by function; Training/PublishRoute: the
--     publication route, with backend/app/model_publication.py. Training/AdminPatch: the route of
--     backend/app/db_routes.py by which an admin patches a run.
--   Training/Ensures: what holds of every value that an operation returns.
--   Training/Sound: the invariant of the queue, the state diagram of a run, and histories of
--     operations. Training/Lease, Stale, Overruled, Replaced, Publication, Registered and
--     Stranded: claims, retries, late reports, publications, registrations and releases.
--   RateLimit: backend/app/auth/rate_limit.py, the sliding window before logins and classroom
--     codes, which stands apart from the queue; RateLimit/Window and RateLimit/Failures are about it.
--   Generation: backend/app/generation_queue.py, the bounded queue in front of every generation.
--     Generation/System: the requests around it, one event for each segment of `slot` between two
--     awaits; its children show what holds after any events (Orderly, Events) and who gets a turn
--     (Turns).
--   Invitations: backend/app/db_invitations.py, with Tokens and Changes; Invitations/Routes:
--     backend/app/student_invite_routes.py. Dead, Redemption, Once and Replacement are about them.
--   Allocation: backend/app/seed_allocation.py, which hands out question slots to the facts of a
--     syllabus; Desired, Passes and Choice follow the file, Bounds, Chunks, Within, Finish and
--     Styles are about it.
--   Serving: backend/app/db_serving_sessions.py; Serving/Refinement, ReadBack, Current and Stopped
--     are about it.
--   Split: the split of backend/app/seed_split.py; Split/Groups, Parts and Kept are about it.
--   The modules named Examples, below each part: the theorems at concrete databases and queues.
--
-- How the code corresponds: a table is the list of its rows; an operation takes the database and
-- returns a result beside the new database, or raises and returns none, since each route is one
-- transaction that is rolled back. A conditional INSERT or UPDATE is a test and a change of the
-- rows. Times are natural numbers of microseconds. A state column holds one of the six known
-- states or another text. Optional texts are cleaned on reading, as optional_string does.
--
-- What the code takes from elsewhere is a parameter: the clock, floats (FloatOps), generated run
-- ids, the database's collation order on texts, the rows that other transactions have locked, the
-- digits of Python's \d, what is known of the prepared files on disk, the answer of the serving
-- service, and the shuffle of a list (a permutation). The printing of a version number takes
-- fuel, one more than the number, which has no more digits than that; a pass of the allocation
-- takes one more than the target, since every turn but the last hands out a slot; nothing else
-- runs on fuel. A sound queue is one whose rows have unique keys and where no course has two
-- outstanding runs (IsSound).
--
-- A history of the queue is serial: one transaction after another, each seeing what those before it
-- committed. An admin's patch can write any state and any job over a run; the theorems on histories
-- are about those whose patches set no job to null and move no run that has ended to another state,
-- other than from failed to succeeded (patches_keep_order), since the route tests neither.
--
-- Not modelled: transactions of the queue that overlap under the database driver's default
-- isolation, but for the rows that a claim skips because they are locked; worker tokens, downloads
-- of datasets and the wording of messages; the provenance document of a version and the fields of a
-- completion that are only stored; the deadline and the polling inside a wait of the generation
-- queue, for which an event says when and why the wait ends, and its HTTP answers; listings for
-- display, the foreign keys to users, and the accounts, passwords and cookies around invitations;
-- the report on skipped and capped facts; the rendering of training records and the files that are
-- written. Left out whole: the frontend, the clients of models, retrieval, seed generation and the
-- cluster's own scripts.
pub mod Allocation
pub mod CourseId
pub mod Generation
pub mod Invitations
pub mod Prelude
pub mod RateLimit
pub mod Serving
pub mod Split
pub mod Table
pub mod Training
