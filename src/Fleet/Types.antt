-- ===== src/Fleet/Types.antt =====
-- The documents of the fleet contract: internal/fleet/types.go. A field has the source's type: `int` and
-- `int64` are integers of 64 bits, `string` is a list of bytes, and a pointer is an option. A `float64` is
-- finite (JSON has no other), so it is an integer count of the least positive double, and `time.Time` is
-- the nanoseconds since the zero time.
use k8s.Prelude.{Bool, ◌&&◌, ◌||◌, List, Option}
use k8s.Prelude.Int.{ℤ, pos, add_int, ltb_ℤ, eq_ℤ}
use k8s.Prelude.Text.{Str, lit, str_eq}

abbrev pub Float64 : Type 0
Float64 = ℤ

abbrev pub Time : Type 0
Time = ℤ

abbrev pub is_zero_time : Time → Bool
is_zero_time t = eq_ℤ t (pos 0)

-- `t.Before(u)`.
abbrev pub before : Time → Time → Bool
before t u = ltb_ℤ t u

pub record Bundle : Type 0 where
  pub uri : Str
  pub digest : Str

pub record ChildRange : Type 0 where
  pub start : ℤ
  pub count : ℤ

-- The exclusive end, which wraps where the sum leaves 64 bits.
unfoldable pub end_of : ChildRange → ℤ
end_of r = add_int r.start r.count

pub record HostClass : Type 0 where
  pub id : Str
  pub spore_platform_version : Str
  pub architecture : Str
  pub backend : Str
  pub cpu_profile : Str
  pub device_model : Str

unfoldable pub host_class_equal : HostClass → HostClass → Bool
host_class_equal h o =
    str_eq h.id o.id
    && (str_eq h.spore_platform_version o.spore_platform_version
        && (str_eq h.architecture o.architecture
            && (str_eq h.backend o.backend
                && (str_eq h.cpu_profile o.cpu_profile && str_eq h.device_model o.device_model))))

pub record Execution : Type 0 where
  pub max_in_flight_per_agent : ℤ

pub record RetryPolicy : Type 0 where
  pub max_attempts_per_child : ℤ
  pub rerun_committed_children : Bool

pub record SideEffects : Type 0 where
  pub idempotency_required : Bool

pub record RunSource : Type 0 where
  pub image : Str
  pub platform : Str

pub record CommandSpec : Type 0 where
  pub command : List Str

pub record PrepareSpec : Type 0 where
  pub command : List Str
  pub capture_signal : Str
  pub ready_marker : Str
  pub memory : Str

pub record ForkSpec : Type 0 where
  pub count : ℤ

pub record RunChildren : Type 0 where
  pub start : ℤ
  pub count : ℤ
  pub command : List Str

unfoldable pub children_range : RunChildren → ChildRange
children_range c = record { start = c.start; count = c.count }

pub record Run : Type 0 where
  pub run_id : Str
  pub source : RunSource
  pub prepare : PrepareSpec
  pub fork : ForkSpec
  pub children : RunChildren
  pub execution : Execution
  pub retry_policy : RetryPolicy
  pub side_effects : SideEffects
  pub result_store : Str

pub record PreparedLocalBundle : Type 0 where
  pub parent_dir : Str
  pub children_dir : Str
  pub bundle_dir : Str

pub record PrepareTimings : Type 0 where
  pub run_save : Float64
  pub fork : Float64
  pub pack : Float64
  pub inspect_bundle : Float64

pub record PreparedBundle : Type 0 where
  pub bundle : Bundle
  pub child_count : ℤ
  pub host_class : HostClass
  pub local : Option PreparedLocalBundle
  pub timings_ms : PrepareTimings

pub record BundleRun : Type 0 where
  pub run_id : Str
  pub bundle : Bundle
  pub children : ChildRange
  pub child_command : List Str
  pub host_class : HostClass
  pub execution : Execution
  pub retry_policy : RetryPolicy
  pub side_effects : SideEffects
  pub result_store : Str

pub record ExecutionSlots : Type 0 where
  pub total : ℤ
  pub available : ℤ

pub record CacheStatus : Type 0 where
  pub bundle_cache_bytes : ℤ
  pub rootfs_cache_bytes : ℤ
  pub bundle_cache_entries : ℤ
  pub rootfs_cache_entries : ℤ

abbrev pub pressure_normal : Str
pressure_normal = lit "normal"

abbrev pub pressure_warning : Str
pressure_warning = lit "warning"

abbrev pub pressure_critical : Str
pressure_critical = lit "critical"

pub record Pressure : Type 0 where
  pub disk : Str
  pub memory : Str

unfoldable pub critical : Pressure → Bool
critical p = str_eq p.disk pressure_critical || str_eq p.memory pressure_critical

pub record AgentStatus : Type 0 where
  pub agent_id : Str
  pub cell_id : Str
  pub observed_at : Time
  pub host_class : HostClass
  pub execution_slots : ExecutionSlots
  pub cache : CacheStatus
  pub pressure : Pressure
  pub healthy : Bool

pub record ShardLease : Type 0 where
  pub run_id : Str
  pub bundle_digest : Str
  pub shard_id : Str
  pub child_start : ℤ
  pub child_count : ℤ
  pub attempt_budget : ℤ
  pub host_class_id : Str
  pub agent_id : Str

unfoldable pub lease_range : ShardLease → ChildRange
lease_range l = record { start = l.child_start; count = l.child_count }

abbrev pub attempt_succeeded : Str
attempt_succeeded = lit "succeeded"

abbrev pub attempt_failed : Str
attempt_failed = lit "failed"

abbrev pub attempt_skipped_terminal_exists : Str
attempt_skipped_terminal_exists = lit "skipped-terminal-exists"

abbrev pub attempt_platform_mismatch : Str
attempt_platform_mismatch = lit "platform-mismatch"

pub record AttemptTimings : Type 0 where
  pub artifact_pull : Float64
  pub materialization : Float64
  pub resume : Float64
  pub guest_ready : Float64
  pub result_commit : Float64
  pub local_child : Float64

pub record AttemptError : Type 0 where
  pub code : Str
  pub message : Str
  pub scope : Str
  pub retry : Str
  pub retryable : Bool

pub record AttemptOutput : Type 0 where
  pub stdout_bytes : ℤ
  pub stderr_bytes : ℤ
  pub stdout_preview_base64 : Str
  pub stderr_preview_base64 : Str
  pub stdout_truncated : Bool
  pub stderr_truncated : Bool

pub record AttemptResult : Type 0 where
  pub run_id : Str
  pub bundle_digest : Str
  pub child_id : ℤ
  pub attempt_id : Str
  pub agent_id : Str
  pub shard_id : Str
  pub status : Str
  pub started_at : Time
  pub finished_at : Time
  pub timings_ms : AttemptTimings
  pub terminal : Bool
  pub result_uri : Str
  pub output : Option AttemptOutput
  pub error : Option AttemptError

pub record PlanSummary : Type 0 where
  pub run_id : Str
  pub state : Str
  pub child_count : ℤ
  pub shard_count : ℤ
  pub assigned_children : ℤ
  pub assigned_shards : ℤ
  pub agent_count : ℤ
  pub healthy_agents : ℤ
  pub compatible_agents : ℤ
  pub available_child_slots : ℤ

pub record Plan : Type 0 where
  pub summary : PlanSummary
  pub lease : ShardLease

pub record BundleInspection : Type 0 where
  pub bundle_digest : Str
  pub child_count : ℤ
  pub host_class : HostClass

pub record ShardExecutionRequest : Type 0 where
  pub run : BundleRun
  pub lease : ShardLease
  pub attempt : ℤ
  pub local : Option PreparedLocalBundle

pub record RuntimePrepareSummary : Type 0 where
  pub agent_id : Str
  pub bundle_digest : Str
  pub child_count : ℤ
  pub timings_ms : PrepareTimings

pub record RuntimeSummary : Type 0 where
  pub run_id : Str
  pub state : Str
  pub child_count : ℤ
  pub shard_count : ℤ
  pub assigned_children : ℤ
  pub assigned_shards : ℤ
  pub attempt_count : ℤ
  pub completed_children : ℤ
  pub succeeded_children : ℤ
  pub failed_children : ℤ
  pub skipped_terminal_children : ℤ
  pub platform_mismatches : ℤ
  pub non_terminal_failures : ℤ
  pub lease_errors : ℤ
  pub started_at : Time
  pub finished_at : Time

pub record RuntimePercentiles : Type 0 where
  pub p50 : Float64
  pub p95 : Float64
  pub p99 : Float64

pub record RuntimeStagePercentiles : Type 0 where
  pub artifact_pull : RuntimePercentiles
  pub materialization : RuntimePercentiles
  pub resume : RuntimePercentiles
  pub guest_ready : RuntimePercentiles
  pub result_commit : RuntimePercentiles

pub record RuntimeTimingSummary : Type 0 where
  pub child_ready_ms : RuntimePercentiles
  pub stage_percentiles_ms : RuntimeStagePercentiles
