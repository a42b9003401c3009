-- ===== src/Fleet/Validate.antt =====
-- The contract checks of internal/fleet/validate.go, each with its messages and in its order.
pub mod Spec
pub mod Runs
use k8s.Prelude.{
  ℕ, ◌+◌, Bool, true, false, ◌&&◌, ◌||◌, not, List, [], ◌∷◌, ◌++◌, Option, none, some, ltb,
  if◌then◌else◌, length,
}
use k8s.Prelude.Int.{ℤ, pos, ltb_ℤ, leb_ℤ, is_neg}
use Prim.Native.String.{String}
use k8s.Prelude.Text.{Str, lit, str_eq, is_empty, has_prefix, has_suffix}
use k8s.Prelude.Decimal.{decimal, itoa, pad_zeros}
use k8s.Prelude.Base64
use k8s.Errors.{Error, Checked, Result, ok, err, contract, ◌>>=◌, ◌>>◌, fail_if}
use k8s.Fleet.Types.{
  Time, is_zero_time, before, Float64, Bundle, ChildRange, end_of, HostClass, host_class_equal,
  CommandSpec, PrepareSpec, children_range, Run, PreparedBundle, BundleRun, Pressure,
  pressure_normal, pressure_warning, pressure_critical, critical, AgentStatus, CacheStatus,
  ShardLease, lease_range, Execution, RetryPolicy, SideEffects,
}
use k8s.Fleet.Patterns.{id_pattern, digest_pattern, valid_memory_value, bucket_and_key}

-- `contractError(path + text)`.
abbrev pub at : Str → String → Error
at path text = contract (path ++ lit text)

unfoldable pub validate_id : Str → Str → Checked
validate_id value path = fail_if (not (id_pattern value)) (at path " must be a stable lowercase id")

unfoldable pub validate_digest : Str → Str → Checked
validate_digest value path =
    fail_if (not (digest_pattern value)) (at path " must be a sha256 digest")

unfoldable pub validate_s3_prefix : Str → Str → Checked
validate_s3_prefix value path = do
  fail_if (not (has_prefix value (lit "s3://")) || not (has_suffix value (lit "/")))
      (at path " must be an s3 prefix URI ending in /")
  fail_if (not (bucket_and_key value)) (at path " must be an s3 prefix URI ending in /")

unfoldable pub validate_s3_json_uri : Str → Str → Checked
validate_s3_json_uri value path = do
  fail_if (not (has_prefix value (lit "s3://")) || not (has_suffix value (lit ".json")))
      (at path " must be an s3 JSON URI")
  fail_if (not (bucket_and_key value)) (at path " must be an s3 JSON URI")

unfoldable pub valid_pressure : Str → Bool
valid_pressure level =
    str_eq level pressure_normal
    || (str_eq level pressure_warning || str_eq level pressure_critical)

-- The loop over the arguments, from index `i`.
unfoldable pub validate_args : Str → ℕ → List Str → Checked
validate_args path i [] = ok tt
validate_args path i (arg ∷ args) =
    let rest = validate_args path (i + 1) args in
    do
      fail_if (is_empty arg)
          (contract (path ++ (lit ".command[" ++ (decimal i ++ lit "] must not be empty"))))
      rest

abbrev no_args : List Str → Bool
no_args [] = true
no_args (arg ∷ args) = false

unfoldable pub validate_command : CommandSpec → Str → Checked
validate_command c path = do
  fail_if (no_args c.command) (at path ".command must not be empty")
  validate_args path 0 c.command

unfoldable pub validate_prepare : PrepareSpec → Str → Checked
validate_prepare p path = do
  validate_command (record { command = p.command }) path
  fail_if (not (is_empty p.memory) && not (valid_memory_value p.memory))
      (at path ".memory must be a SporeVM memory value like 512mb or 2gb")
  if is_empty p.capture_signal && is_empty p.ready_marker then ok tt else do
    fail_if (is_empty p.capture_signal)
        (at path ".captureSignal is required when readyMarker is set")
    fail_if (is_empty p.ready_marker) (at path ".readyMarker is required when captureSignal is set")
    fail_if (not (str_eq p.capture_signal (lit "USR1"))) (at path ".captureSignal must be USR1")

unfoldable pub validate_range : ChildRange → Str → Checked
validate_range r path = do
  fail_if (is_neg r.start) (at path ".start must be >= 0")
  fail_if (ltb_ℤ r.count (pos 1)) (at path ".count must be >= 1")

unfoldable pub validate_host_class : HostClass → Str → Checked
validate_host_class h path = do
  validate_id h.id (path ++ lit ".id")
  fail_if (not (str_eq h.spore_platform_version (lit "v0")))
      (at path ".sporePlatformVersion must be v0")
  fail_if (not (str_eq h.architecture (lit "aarch64"))) (at path ".architecture must be aarch64")
  fail_if (not (str_eq h.backend (lit "kvm"))) (at path ".backend must be kvm")
  fail_if (is_empty h.cpu_profile) (at path ".cpuProfile must not be empty")
  fail_if (is_empty h.device_model) (at path ".deviceModel must not be empty")

-- The checks that Run.Validate and BundleRun.Validate end with, in the same words.
unfoldable pub validate_policies : Execution → RetryPolicy → SideEffects → Str → Checked
validate_policies e p s store = do
  fail_if (ltb_ℤ e.max_in_flight_per_agent (pos 1))
      (contract (lit "execution.maxInFlightPerAgent must be >= 1"))
  fail_if (ltb_ℤ p.max_attempts_per_child (pos 1))
      (contract (lit "retryPolicy.maxAttemptsPerChild must be >= 1"))
  fail_if p.rerun_committed_children
      (contract (lit "retryPolicy.rerunCommittedChildren must be false"))
  fail_if (not s.idempotency_required)
      (contract (lit "sideEffects.idempotencyRequired must be true"))
  validate_s3_prefix store (lit "resultStore")

unfoldable pub validate_run : Run → Checked
validate_run r = do
  validate_id r.run_id (lit "runID")
  fail_if (is_empty r.source.image) (contract (lit "source.image must not be empty"))
  fail_if (not (str_eq r.source.platform (lit "linux/arm64")))
      (contract (lit "source.platform must be linux/arm64"))
  validate_prepare r.prepare (lit "prepare")
  fail_if (ltb_ℤ r.fork.count (pos 1)) (contract (lit "fork.count must be >= 1"))
  validate_range (children_range r.children) (lit "children")
  fail_if (ltb_ℤ r.fork.count (end_of (children_range r.children)))
      (contract (lit "children range must fit fork.count"))
  validate_command (record { command = r.children.command }) (lit "children")
  validate_policies r.execution r.retry_policy r.side_effects r.result_store

unfoldable pub validate_bundle_run : BundleRun → Checked
validate_bundle_run r = do
  validate_id r.run_id (lit "runID")
  fail_if (is_empty r.bundle.uri) (contract (lit "bundle.uri must not be empty"))
  validate_digest r.bundle.digest (lit "bundle.digest")
  validate_range r.children (lit "children")
  if no_args r.child_command
      then ok tt
      else validate_command (record { command = r.child_command }) (lit "childCommand")
  validate_host_class r.host_class (lit "hostClass")
  validate_policies r.execution r.retry_policy r.side_effects r.result_store

-- Run.Compile: the bundle run that a prepared source run is admitted as.
abbrev pub compiled : Run → PreparedBundle → BundleRun
compiled r p = record {
  run_id = r.run_id;
  bundle = p.bundle;
  children = children_range r.children;
  child_command = r.children.command;
  host_class = p.host_class;
  execution = r.execution;
  retry_policy = r.retry_policy;
  side_effects = r.side_effects;
  result_store = r.result_store;
}

unfoldable pub compile : Run → PreparedBundle → Result BundleRun
compile r p = do
  validate_run r
  fail_if (is_empty p.bundle.uri) (contract (lit "prepared.bundle.uri must not be empty"))
  validate_digest p.bundle.digest (lit "prepared.bundle.digest")
  fail_if (ltb_ℤ p.child_count (end_of (children_range r.children)))
      (contract (lit "prepared.childCount must cover children range"))
  validate_host_class p.host_class (lit "prepared.hostClass")
  validate_bundle_run (compiled r p)
  ok (compiled r p)

unfoldable pub validate_pressure : Pressure → Str → Checked
validate_pressure p path = do
  fail_if (not (valid_pressure p.disk)) (at path ".disk has unsupported value")
  fail_if (not (valid_pressure p.memory)) (at path ".memory has unsupported value")

abbrev cache_is_neg : CacheStatus → Bool
cache_is_neg c =
    is_neg c.bundle_cache_bytes
    || (is_neg c.rootfs_cache_bytes
        || (is_neg c.bundle_cache_entries || is_neg c.rootfs_cache_entries))

unfoldable pub validate_agent_status : AgentStatus → Checked
validate_agent_status s = do
  validate_id s.agent_id (lit "agentID")
  validate_id s.cell_id (lit "cellID")
  fail_if (is_zero_time s.observed_at) (contract (lit "observedAt must not be zero"))
  validate_host_class s.host_class (lit "hostClass")
  fail_if (ltb_ℤ s.execution_slots.total (pos 1))
      (contract (lit "executionSlots.total must be >= 1"))
  fail_if (is_neg s.execution_slots.available)
      (contract (lit "executionSlots.available must be >= 0"))
  fail_if (ltb_ℤ s.execution_slots.total s.execution_slots.available)
      (contract (lit "executionSlots.available cannot exceed total"))
  fail_if (cache_is_neg s.cache) (contract (lit "cache values must be >= 0"))
  validate_pressure s.pressure (lit "pressure")
  fail_if (s.healthy && critical s.pressure)
      (contract (lit "agent cannot be healthy under critical pressure"))

unfoldable pub validate_lease : ShardLease → BundleRun → Checked
validate_lease l run = do
  validate_bundle_run run
  fail_if (not (str_eq l.run_id run.run_id))
      (contract (lit "shardLease.runID does not match run.runID"))
  fail_if (not (str_eq l.bundle_digest run.bundle.digest))
      (contract (lit "shardLease.bundleDigest does not match run bundle digest"))
  validate_id l.shard_id (lit "shardLease.shardID")
  validate_range (lease_range l) (lit "shardLease.children")
  fail_if
      (ltb_ℤ l.child_start run.children.start
        || ltb_ℤ (end_of run.children) (end_of (lease_range l)))
      (contract (lit "shardLease child range is outside the run"))
  fail_if (ltb_ℤ l.attempt_budget (pos 1)) (contract (lit "shardLease.attemptBudget must be >= 1"))
  fail_if (ltb_ℤ run.retry_policy.max_attempts_per_child l.attempt_budget)
      (contract (lit "shardLease.attemptBudget exceeds run retry budget"))
  fail_if (not (str_eq l.host_class_id run.host_class.id))
      (contract (lit "shardLease.hostClassID does not match run host class"))
  validate_id l.agent_id (lit "shardLease.agentID")
