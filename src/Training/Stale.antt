-- ===== src/Training/Stale.antt =====
-- When an admin may retire a run, stated apart from the code's tests.
use css360_syllabus_bot.Prelude.{
  ℕ, ◌+◌, ◌≤◌, ◌≡◌, ◌≢◌, ◌⊎◌, ◌↔◌, inl, inr, refl, true, false, String, Option, none, some, leb,
  arith, ◌==◌, string_eq, eq_iff, Bool-cases,
}
use css360_syllabus_bot.Training.Run.{
  RunState, submitted_stale_after, Claim, TrainingRun, RunRecord, optional_string, map_claim,
  map_training_run,
}
use css360_syllabus_bot.Training.Claims.{is_claimable}
use css360_syllabus_bot.Training.RetryBlock.{
  text_of, claim_has_expired, queued_run_is_stale, is_silent, block_live, block_in,
  training_run_retry_block,
}

-- The run was pinned to data that has changed since.
abbrev pub IsDrifted : RunRecord → Option String → Type 0
IsDrifted run sha =
    (text_of run.dataset_sha256 ≢ "")
    × (text_of sha ≢ "")
    × (text_of run.dataset_sha256 ≢ text_of sha)

-- The worker that holds the run has died, or has refused it, or nothing was heard of it for six hours.
pub data IsStale (run : RunRecord) (now : ℕ) (sha : Option String) : Type 0 where
  has_failed : run.state ≡ RunState.failed → IsStale run now sha
  was_refused : run.state ≡ RunState.queued → text_of run.error ≢ "" → IsStale run now sha
  has_drifted : run.state ≡ RunState.queued → IsDrifted run sha → IsStale run now sha
  has_no_lease : run.state ≡ RunState.claimed → run.claim ≡ none → IsStale run now sha
  has_lapsed :
      (claim : Claim)
      → run.state ≡ RunState.claimed
      → run.claim ≡ some claim
      → claim.expires_at ≤ now
      → IsStale run now sha
  is_quiet :
      (run.state ≡ RunState.submitted) ⊎ (run.state ≡ RunState.training)
      → run.updated_at + submitted_stale_after ≤ now
      → IsStale run now sha

apart : (a b : String) → (a == b) ≡ false → a ≢ b
apart a b h e = cc (h, (eq_iff a b).1 e)

tests_apart : (a b : String) → a ≢ b → (a == b) ≡ false
tests_apart a b h = elim (Bool-cases (a == b)) [
  | inl same ↦ absurd (h ((eq_iff a b).0 same))
  | inr other ↦ other
]

queued-IsStale :
    (run : RunRecord) (now : ℕ) (sha : Option String)
    → run.state ≡ RunState.queued
    → queued_run_is_stale run sha ≡ true
    → IsStale run now sha
unfolding queued_run_is_stale
queued-IsStale run now sha h stale = elim (Bool-cases (text_of run.error == "")) [
  | inr e ↦ was_refused h (apart (text_of run.error) "" e)
  | inl e ↦ has_drifted h (
    apart (text_of run.dataset_sha256) "" (ground arith),
    apart (text_of sha) "" (ground arith),
    apart (text_of run.dataset_sha256) (text_of sha) (ground arith),
  )
]

lapsed-IsStale :
    (run : RunRecord) (now : ℕ) (sha : Option String) (claim : Option Claim)
    → run.claim ≡ claim
    → run.state ≡ RunState.claimed
    → claim_has_expired claim now ≡ true
    → IsStale run now sha
unfolding claim_has_expired
lapsed-IsStale run now sha none c h expired = has_no_lease h c
lapsed-IsStale run now sha (some claim) c h expired = has_lapsed claim h c (ground arith)

heard_long_ago :
    (run : RunRecord) (now : ℕ)
    → block_live run now ≡ none
    → run.updated_at + submitted_stale_after ≤ now
unfolding is_silent
heard_long_ago run now h = ground arith

not_blocked_live :
    (run : RunRecord) (now : ℕ)
    → run.updated_at + submitted_stale_after ≤ now
    → block_live run now ≡ none
unfolding is_silent
not_blocked_live run now h = ground arith

refused-stale :
    (run : RunRecord) (sha : Option String)
    → text_of run.error ≢ ""
    → queued_run_is_stale run sha ≡ true
unfolding queued_run_is_stale
refused-stale run sha e = rw (tests_apart (text_of run.error) "" e) refl

drifted-stale :
    (run : RunRecord) (sha : Option String) → IsDrifted run sha → queued_run_is_stale run sha ≡ true
unfolding queued_run_is_stale
drifted-stale run sha (a, b, c) = ground (
  arith,
  tests_apart (text_of run.dataset_sha256) "" a,
  tests_apart (text_of sha) "" b,
  tests_apart (text_of run.dataset_sha256) (text_of sha) c,
)

has_lapsed-true :
    (claim : Claim) (now : ℕ) → claim.expires_at ≤ now → leb claim.expires_at now ≡ true
has_lapsed-true claim now l = ground arith

unblocked :
    (run : RunRecord) (now : ℕ) (sha : Option String) (state : RunState)
    → run.state ≡ state
    → block_in state run now sha ≡ none
    → IsStale run now sha
unfolding block_in
unblocked run now sha RunState.failed h b = has_failed h
unblocked run now sha RunState.queued h b = queued-IsStale run now sha h (ground arith)
unblocked run now sha RunState.claimed h b =
    lapsed-IsStale run now sha run.claim refl h (ground arith)
unblocked run now sha RunState.submitted h b = is_quiet (inl h) (heard_long_ago run now b)
unblocked run now sha RunState.training h b = is_quiet (inr h) (heard_long_ago run now b)
unblocked run now sha RunState.succeeded h b = cc
unblocked run now sha (RunState.unrecognised s) h b = cc

stale-unblocked :
    (run : RunRecord) (now : ℕ) (sha : Option String)
    → IsStale run now sha
    → block_in run.state run now sha ≡ none
unfolding block_in
stale-unblocked run now sha (has_failed h) = rw h refl
stale-unblocked run now sha (was_refused h e) = rw (h, refused-stale run sha e) refl
stale-unblocked run now sha (has_drifted h d) = rw (h, drifted-stale run sha d) refl
stale-unblocked run now sha (has_no_lease h c) = rw (h, c) refl
stale-unblocked run now sha (has_lapsed claim h c l) = rw (h, c, has_lapsed-true claim now l) refl
stale-unblocked run now sha (is_quiet (inl h) l) = rw h (not_blocked_live run now l)
stale-unblocked run now sha (is_quiet (inr h) l) = rw h (not_blocked_live run now l)

-- A retry is let through for exactly the stale runs.
pub retry_block_exact :
    (run : RunRecord) (now : ℕ) (sha : Option String)
    → (training_run_retry_block run now sha ≡ none) ↔ IsStale run now sha
unfolding training_run_retry_block
retry_block_exact run now sha = (unblocked run now sha run.state refl, stale-unblocked run now sha)

held_expiry :
    (owner : Option String) (claimed_at expires_at : Option ℕ) (claim : Claim)
    → map_claim owner claimed_at expires_at ≡ some claim
    → expires_at ≡ some claim.expires_at
unfolding map_claim
held_expiry none claimed_at expires_at claim h = cc
held_expiry (some o) none expires_at claim h = cc
held_expiry (some o) (some c) none claim h = cc
held_expiry (some o) (some c) (some e) claim h = ground arith

-- A claimed run that no job was submitted for, and whose row names its holder and times, may be retried exactly
-- when another worker may claim it: the two never disagree on whether its lease has ended.
pub lease_agreed :
    (row : TrainingRun) (now : ℕ) (sha : Option String) (claim : Claim)
    → row.state ≡ RunState.claimed
    → row.job_id ≡ none
    → (map_training_run row).claim ≡ some claim
    → (is_claimable now none row ≡ true)
      ↔ (training_run_retry_block (map_training_run row) now sha ≡ none)
unfolding training_run_retry_block is_claimable map_training_run map_claim block_in
lease_agreed row now sha claim taken jobless held =
    let expiry =
      held_expiry (optional_string row.claim_owner) row.claim_claimed_at row.claim_expires_at claim
        held in
    (
      λ h. ground (arith, taken, jobless, held, expiry),
      λ h. ground (arith, taken, jobless, held, expiry),
    )
