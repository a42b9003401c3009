-- ===== src/Fleet/Attempts.antt =====
-- Attempt identifiers, and the checks of attempt results in internal/fleet/validate.go.
pub mod Ids
use k8s.Prelude.{
  ℕ, ◌+◌, Bool, true, false, ◌&&◌, ◌||◌, not, ◌∷◌, ◌++◌, Option, none, some, if◌then◌else◌, length,
}
use k8s.Prelude.Int.{ℤ, pos, ltb_ℤ, leb_ℤ, is_neg}
use k8s.Prelude.Text.{Str, lit, str_eq, is_empty, has_prefix, has_suffix}
use k8s.Prelude.Decimal.{decimal, itoa, pad_zeros}
use k8s.Prelude.Base64
use k8s.Errors.{Checked, ok, err, contract, ◌>>=◌, ◌>>◌, fail_if}
use k8s.Fleet.Types.{
  Time, is_zero_time, before, Float64, end_of, BundleRun, AttemptTimings, AttemptError,
  AttemptOutput, AttemptResult, attempt_succeeded, attempt_failed, attempt_skipped_terminal_exists,
  attempt_platform_mismatch,
}
use k8s.Fleet.Validate.{at, validate_id, validate_s3_json_uri, validate_bundle_run}

-- `%02d` of an attempt: a minus sign takes one of the two places.
unfoldable pub two_digits : ℤ → Str
unfolding decimal pad_zeros
two_digits (pos n) = pad_zeros 2 (decimal n)
two_digits (ℤ.negsuc n) = b'-' ∷ decimal (n + 1)

unfoldable pub format_attempt_id : Str → ℤ → ℤ → Str
unfolding two_digits
format_attempt_id run_id child_id attempt =
    run_id ++ (lit "-child-" ++ (itoa child_id ++ (lit "-attempt-" ++ two_digits attempt)))

unfoldable pub valid_attempt_status : Str → Bool
valid_attempt_status status =
    str_eq status attempt_succeeded
    || (str_eq status attempt_failed
        || (str_eq status attempt_skipped_terminal_exists
            || str_eq status attempt_platform_mismatch))

abbrev pub is_one_of : Str → Str → Str → Str → Bool
is_one_of a b c s = str_eq s a || (str_eq s b || str_eq s c)

-- Go's `!=` on two Booleans.
abbrev pub differ : Bool → Bool → Bool
differ true b = not b
differ false b = b

unfoldable pub validate_attempt_error : AttemptError → Str → Checked
validate_attempt_error e path = do
  fail_if (is_empty e.code || is_empty e.message) (at path " requires code and message")
  if is_empty e.scope && (is_empty e.retry && not e.retryable) then ok tt else do
    fail_if (is_empty e.scope || is_empty e.retry)
        (at path " SporeVM classification requires scope and retry")
    fail_if (not (is_one_of (lit "after_fix") (lit "transient") (lit "unknown") e.retry))
        (at path ".retry has unsupported value")
    fail_if (differ e.retryable (str_eq e.retry (lit "transient")))
        (at path ".retryable does not match retry")

unfoldable pub validate_base64_preview : Str → ℤ → Str → Checked
validate_base64_preview value total path =
    if is_empty value then ok tt else elim (Base64.decode value) [
      | none ↦ err (at path " must be base64")
      | some bytes ↦
          fail_if (ltb_ℤ total (pos (length bytes))) (at path " must not exceed total output bytes")
    ]

unfoldable pub validate_output : AttemptOutput → Str → Checked
validate_output o path = do
  fail_if (is_neg o.stdout_bytes) (at path ".stdoutBytes must be >= 0")
  fail_if (is_neg o.stderr_bytes) (at path ".stderrBytes must be >= 0")
  fail_if (is_empty o.stdout_preview_base64 && o.stdout_truncated)
      (at path ".stdoutTruncated requires stdoutPreviewBase64")
  fail_if (is_empty o.stderr_preview_base64 && o.stderr_truncated)
      (at path ".stderrTruncated requires stderrPreviewBase64")
  validate_base64_preview o.stdout_preview_base64 o.stdout_bytes
      (path ++ lit ".stdoutPreviewBase64")
  validate_base64_preview o.stderr_preview_base64 o.stderr_bytes
      (path ++ lit ".stderrPreviewBase64")

unfoldable pub validate_timings : AttemptTimings → Str → Checked
validate_timings t path = do
  fail_if (is_neg t.artifact_pull) (at path ".artifactPull must be >= 0")
  fail_if (is_neg t.materialization) (at path ".materialization must be >= 0")
  fail_if (is_neg t.resume) (at path ".resume must be >= 0")
  fail_if (is_neg t.guest_ready) (at path ".guestReady must be >= 0")
  fail_if (is_neg t.result_commit) (at path ".resultCommit must be >= 0")
  fail_if (is_neg t.local_child) (at path ".localChild must be >= 0")

-- `r.Error == nil || r.Error.Code == "" || r.Error.Message == ""`.
abbrev lacks_error : Option AttemptError → Bool
lacks_error none = true
lacks_error (some e) = is_empty e.code || is_empty e.message

abbrev validate_some_output : Option AttemptOutput → Checked
validate_some_output none = ok tt
validate_some_output (some o) = validate_output o (lit "attemptResult.output")

abbrev validate_some_error : Option AttemptError → Checked
validate_some_error none = ok tt
validate_some_error (some e) = validate_attempt_error e (lit "attemptResult.error")

abbrev pub needs_terminal : Str → Bool
needs_terminal s = str_eq s attempt_succeeded || str_eq s attempt_skipped_terminal_exists

abbrev pub needs_error : Str → Bool
needs_error s = str_eq s attempt_failed || str_eq s attempt_platform_mismatch

unfoldable pub validate_result : AttemptResult → BundleRun → Checked
validate_result r run = do
  validate_bundle_run run
  fail_if (not (str_eq r.run_id run.run_id))
      (contract (lit "attemptResult.runID does not match run.runID"))
  fail_if (not (str_eq r.bundle_digest run.bundle.digest))
      (contract (lit "attemptResult.bundleDigest does not match run bundle digest"))
  fail_if (ltb_ℤ r.child_id run.children.start || leb_ℤ (end_of run.children) r.child_id)
      (contract (lit "attemptResult.childID is outside the run"))
  validate_id r.attempt_id (lit "attemptResult.attemptID")
  validate_id r.agent_id (lit "attemptResult.agentID")
  validate_id r.shard_id (lit "attemptResult.shardID")
  fail_if (not (valid_attempt_status r.status))
      (contract (lit "attemptResult.status has unsupported value"))
  fail_if (is_zero_time r.started_at) (contract (lit "attemptResult.startedAt must not be zero"))
  fail_if (is_zero_time r.finished_at) (contract (lit "attemptResult.finishedAt must not be zero"))
  fail_if (before r.finished_at r.started_at)
      (contract (lit "attemptResult.finishedAt must not be before startedAt"))
  validate_timings r.timings_ms (lit "attemptResult.timingsMs")
  fail_if (r.terminal && is_empty r.result_uri)
      (contract (lit "attemptResult.resultURI must be set for terminal results"))
  if is_empty r.result_uri
      then ok tt
      else validate_s3_json_uri r.result_uri (lit "attemptResult.resultURI")
  validate_some_output r.output
  fail_if (needs_terminal r.status && not r.terminal)
      (contract (lit "attemptResult.status requires terminal=true"))
  fail_if (needs_error r.status && lacks_error r.error)
      (contract (lit "attemptResult.error requires code and message"))
  validate_some_error r.error
