-- ===== src/Training/RetryBlock.antt =====
-- backend/app/db_training_runs.py: why a run may not be superseded by an admin's retry.
use css360_syllabus_bot.Prelude.{
  ℕ, ◌+◌, ◌-◌, Bool, true, not, ◌&&◌, ◌||◌, String, Option, none, some, leb, ◌==◌, string_eq, strip,
  if◌then◌else◌,
}
use css360_syllabus_bot.Training.Run.{RunState, submitted_stale_after, Claim, RunRecord}
use css360_syllabus_bot.Training.Error.{RetryBlock}

-- str(value or "").strip()
unfoldable pub text_of : Option String → String
text_of none = ""
text_of (some value) = strip value

-- A claim that is missing, or whose expiry has passed.
unfoldable pub claim_has_expired : Option Claim → ℕ → Bool
claim_has_expired none now = true
claim_has_expired (some claim) now = leb claim.expires_at now

-- Refused by a worker, or pinned to data that is no longer on disk.
unfoldable pub queued_run_is_stale : RunRecord → Option String → Bool
unfolding text_of
queued_run_is_stale run current_dataset_sha256 =
    let pinned = text_of run.dataset_sha256 in
    let current = text_of current_dataset_sha256 in
    not (text_of run.error == "")
    || (not (pinned == "") && not (current == "") && not (pinned == current))

-- The run's row has not been touched for `submitted_stale_after`.
unfoldable pub is_silent : RunRecord → ℕ → Bool
is_silent run now = leb (run.updated_at + submitted_stale_after) now

abbrev pub block_live : RunRecord → ℕ → Option RetryBlock
block_live run now =
    if is_silent run now
    then none
    else some (RetryBlock.reported_recently (now - run.updated_at) run.job_id)

abbrev pub expiry_of : Option Claim → Option ℕ
expiry_of none = none
expiry_of (some claim) = some claim.expires_at

unfoldable pub block_in : RunState → RunRecord → ℕ → Option String → Option RetryBlock
unfolding queued_run_is_stale is_silent claim_has_expired
block_in RunState.failed run now sha = none
block_in RunState.queued run now sha =
    if queued_run_is_stale run sha then none else some RetryBlock.already_queued
block_in RunState.submitted run now sha = block_live run now
block_in RunState.training run now sha = block_live run now
block_in RunState.succeeded run now sha = some RetryBlock.already_succeeded
block_in RunState.claimed run now sha =
    if claim_has_expired run.claim now
    then none
    else some (RetryBlock.held_until (expiry_of run.claim))
block_in (RunState.unrecognised state) run now sha = some (RetryBlock.unrecognised_state state)

unfoldable pub training_run_retry_block : RunRecord → ℕ → Option String → Option RetryBlock
unfolding block_in
training_run_retry_block run now current_dataset_sha256 =
    block_in run.state run now current_dataset_sha256
