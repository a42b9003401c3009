-- ===== src/Fleet/Runtime.antt =====
-- internal/fleet/runtime.go: the coordinator of one cell. What it calls (the clock, the context, the bundle
-- inspector, the result reader, the agents' executors) is not in this package: it is an `Env`, whose calls
-- read and change an unknown world. Counters of documents in memory are natural numbers.
pub mod Lease
pub mod Timings
pub mod Coordinator
pub mod Recording
pub mod Scan
pub mod Completion
pub mod Delivery
pub mod Budget
pub mod Percentiles
use k8s.Prelude.{
  ℕ, zero, suc, ◌+◌, ◌-◌, Bool, true, false, ◌&&◌, ◌||◌, not, List, [], ◌∷◌, Option, none, some,
  if◌then◌else◌, length, ltb, ◌==◌,
}
use k8s.Prelude.Int.{ℤ, pos, pos_part, neg_part, add_int, ltb_ℤ, eq_ℤ}
use k8s.Prelude.IntMap.{IntMap, put, has}
use k8s.Prelude.Text.{Str, lit, str_eq, is_empty, is_some}
use k8s.Errors.{
  Error, Mismatch, Result, Checked, ok, err, coordinator_not_configured, bundle_metadata_mismatch,
  agent_executor_missing, lease_incomplete, platform_mismatch, ◌>>=◌, ◌>>◌, fail_if,
}
use k8s.Fleet.Types.{
  Time, ChildRange, end_of, host_class_equal, BundleRun, AgentStatus, ShardLease, lease_range,
  AttemptResult, Plan, BundleInspection, ShardExecutionRequest, RuntimeSummary, attempt_succeeded,
  attempt_failed, attempt_skipped_terminal_exists, attempt_platform_mismatch,
}
use k8s.Fleet.Validate.{validate_bundle_run}
use k8s.Fleet.Plan.{empty_plan, build_single_agent_sequential_plan}

-- The interfaces BundleInspector, TerminalResultReader and ShardExecutor, `ctx.Err()` and the clock.
pub record Env : Type 1 where
  pub World : Type 0
  pub Executor : Type 0
  pub now : World → Time × World
  pub ctx_err : World → Option Error × World
  pub inspect_run_bundle : BundleRun → World → Result BundleInspection × World
  pub terminal_result : BundleRun → ℤ → World → Result (Option AttemptResult) × World
  pub run_shard :
      Executor → ShardExecutionRequest → World → (List AttemptResult × Option Error) × World

pub record RuntimeState : Type 0 where
  pub run : BundleRun
  pub plan : Plan
  pub started_at : Time
  pub terminal : IntMap AttemptResult
  pub attempt_count : ℕ
  pub platform_mismatches : ℕ
  pub non_terminal_failures : ℕ
  pub lease_errors : ℕ

unfoldable pub new_runtime_state : BundleRun → Plan → Time → RuntimeState
new_runtime_state run plan started_at = record {
  run = run;
  plan = plan;
  started_at = started_at;
  terminal = [];
  attempt_count = 0;
  platform_mismatches = 0;
  non_terminal_failures = 0;
  lease_errors = 0;
}

unfoldable pub terminal_known : ℤ → RuntimeState → Bool
terminal_known child_id s = has child_id s.terminal

unfoldable pub record_existing_terminal : ℤ → AttemptResult → RuntimeState → RuntimeState
record_existing_terminal child_id r s = if has child_id s.terminal then s else record s {
  terminal =
      put child_id
        (if is_empty r.status then record r { status = attempt_skipped_terminal_exists } else r)
        s.terminal;
}

-- One result of the loop in recordResults.
unfoldable pub record_result : AttemptResult → RuntimeState → RuntimeState
record_result r s =
    if is_empty r.attempt_id
    then s
    else let counted : RuntimeState = record s {
      attempt_count = s.attempt_count + 1;
      platform_mismatches =
          (if str_eq r.status attempt_platform_mismatch
            then s.platform_mismatches + 1
            else s.platform_mismatches);
      non_terminal_failures =
          (if str_eq r.status attempt_failed && not r.terminal
            then s.non_terminal_failures + 1
            else s.non_terminal_failures);
    } in
      if not r.terminal
      then counted
      else if has r.child_id s.terminal && str_eq r.status attempt_skipped_terminal_exists
      then counted
      else record counted { terminal = put r.child_id r s.terminal }

unfoldable pub record_results : List AttemptResult → RuntimeState → RuntimeState
record_results [] s = s
record_results (r ∷ rs) s = record_results rs (record_result r s)

unfoldable pub has_platform_mismatch : List AttemptResult → Bool
has_platform_mismatch [] = false
has_platform_mismatch (r ∷ rs) =
    str_eq r.status attempt_platform_mismatch || has_platform_mismatch rs

-- BundleInspection.Validate.
unfoldable pub validate_inspection : BundleInspection → BundleRun → Checked
validate_inspection i run = do
  fail_if (not (str_eq i.bundle_digest run.bundle.digest))
      (bundle_metadata_mismatch (Mismatch.digest i.bundle_digest run.bundle.digest))
  fail_if (ltb_ℤ i.child_count (end_of run.children))
      (bundle_metadata_mismatch (Mismatch.child_count i.child_count (end_of run.children)))
  fail_if (not (is_empty i.host_class.id) && not (host_class_equal i.host_class run.host_class))
      (bundle_metadata_mismatch (Mismatch.host_class i.host_class.id run.host_class.id))

-- How often `for i := start; i < end; i++` goes round.
abbrev pub rounds : ℤ → ℤ → ℕ
rounds start end = (pos_part end + neg_part start) - (pos_part start + neg_part end)

abbrev pub count_status : Str → IntMap AttemptResult → ℕ
count_status status [] = 0
count_status status ((k, r) ∷ m) =
    if str_eq r.status status then suc (count_status status m) else count_status status m

-- runtimeState.summary.
unfoldable pub summary : Time → Option Error → RuntimeState → RuntimeSummary
summary finished_at run_err s = record {
  run_id = s.run.run_id;
  state =
      (if is_some run_err
          || (not (eq_ℤ (pos (length s.terminal)) s.run.children.count)
              || (ltb 0 (count_status attempt_failed s.terminal) || ltb 0 s.platform_mismatches))
        then lit "failed"
        else lit "succeeded");
  child_count = s.run.children.count;
  shard_count = s.plan.summary.shard_count;
  assigned_children = s.plan.summary.assigned_children;
  assigned_shards = s.plan.summary.assigned_shards;
  attempt_count = pos s.attempt_count;
  completed_children = pos (length s.terminal);
  succeeded_children = pos (count_status attempt_succeeded s.terminal);
  failed_children = pos (count_status attempt_failed s.terminal);
  skipped_terminal_children = pos (count_status attempt_skipped_terminal_exists s.terminal);
  platform_mismatches = pos s.platform_mismatches;
  non_terminal_failures = pos s.non_terminal_failures;
  lease_errors = pos s.lease_errors;
  started_at = s.started_at;
  finished_at = finished_at;
}
