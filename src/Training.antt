-- ===== src/Training.antt =====
-- Training runs, model requests and the model registry of a course: the tables, the repository
-- operations, the worker's routes and the admin's retry.
pub mod Run
pub mod Error
pub mod Database
pub mod Runs
pub mod Patch
pub mod Claims
pub mod RetryBlock
pub mod Requests
pub mod VersionKey
pub mod Registry
pub mod Retry
pub mod Worker
pub mod AdminPatch
pub mod Registration
pub mod Complete
pub mod Ensures
pub mod Sound
pub mod Lease
pub mod Publication
pub mod Stale
pub mod Overruled
pub mod Replaced
pub mod Registered
pub mod Examples
pub mod PublishRoute
pub mod Stranded
