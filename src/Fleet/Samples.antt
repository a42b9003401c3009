-- ===== src/Fleet/Samples.antt =====
-- Sample documents, and a small world, for the examples: a run of two children, an inventory of three
-- agents, and an executor that fails at first and delivers both children when it is called again.
use k8s.Prelude.{◌+◌, ◌*◌, ◌/◌, ℕ, zero, suc, true, false, List, [], ◌∷◌, Option, none, some}
use k8s.Prelude.Int.{ℤ, pos, ◌+ℤ◌}
use k8s.Prelude.Text.{Str, lit}
use k8s.Errors.{Error, external, ok}
use k8s.Fleet.Types.{
  HostClass, BundleRun, Run, PreparedBundle, AgentStatus, AttemptResult, AttemptTimings,
  ShardExecutionRequest, pressure_normal, attempt_succeeded,
}
use k8s.Fleet.Attempts.{format_attempt_id}
use k8s.Fleet.Runtime.{Env}
use k8s.Fleet.Runtime.Lease.{Coordinator}
use k8s.Fleet.Runtime.Timings.{FloatOps}

abbrev pub digest : Str
digest = lit "sha256:0123456789abcdef0123456789abcdef0123456789abcdef0123456789abcdef"

abbrev pub host_class : HostClass
host_class = record {
  id = lit "arm-kvm";
  spore_platform_version = lit "v0";
  architecture = lit "aarch64";
  backend = lit "kvm";
  cpu_profile = lit "graviton";
  device_model = lit "virtio";
}

abbrev pub run : BundleRun
run = record {
  run_id = lit "run-1";
  bundle = record { uri = lit "s3://b/o"; digest = digest };
  children = record { start = pos 0; count = pos 2 };
  child_command = [];
  host_class = host_class;
  execution = record { max_in_flight_per_agent = pos 4 };
  retry_policy = record { max_attempts_per_child = pos 2; rerun_committed_children = false };
  side_effects = record { idempotency_required = true };
  result_store = lit "s3://bucket/results/";
}

abbrev pub source_run : Run
source_run = record {
  run_id = lit "run-1";
  source = record { image = lit "alpine"; platform = lit "linux/arm64" };
  prepare = record {
    command = lit "warm" ∷ [];
    capture_signal = lit "USR1";
    ready_marker = lit "READY";
    memory = lit "512mib";
  };
  fork = record { count = pos 3 };
  children = record { start = pos 1; count = pos 2; command = lit "work" ∷ [] };
  execution = record { max_in_flight_per_agent = pos 4 };
  retry_policy = record { max_attempts_per_child = pos 2; rerun_committed_children = false };
  side_effects = record { idempotency_required = true };
  result_store = lit "s3://bucket/results/";
}

abbrev pub prepared : PreparedBundle
prepared = record {
  bundle = record { uri = lit "s3://b/o"; digest = digest };
  child_count = pos 3;
  host_class = host_class;
  local = none;
  timings_ms = record { run_save = pos 0; fork = pos 0; pack = pos 0; inspect_bundle = pos 0 };
}

abbrev pub agent : Str → ℕ → AgentStatus
agent id available = record {
  agent_id = id;
  cell_id = lit "cell-1";
  observed_at = pos 1;
  host_class = host_class;
  execution_slots = record { total = pos 4; available = pos available };
  cache = record {
    bundle_cache_bytes = pos 0;
    rootfs_cache_bytes = pos 0;
    bundle_cache_entries = pos 0;
    rootfs_cache_entries = pos 0;
  };
  pressure = record { disk = pressure_normal; memory = pressure_normal };
  healthy = true;
}

abbrev pub agent_a : AgentStatus
agent_a = agent (lit "agent-a") 1

abbrev pub agent_b : AgentStatus
agent_b = agent (lit "agent-b") 4

abbrev pub agent_c : AgentStatus
agent_c = agent (lit "agent-c") 1

abbrev pub inventory : List AgentStatus
inventory = agent_b ∷ agent_c ∷ agent_a ∷ []

abbrev pub timings : AttemptTimings
timings = record {
  artifact_pull = pos 1;
  materialization = pos 2;
  resume = pos 3;
  guest_ready = pos 4;
  result_commit = pos 5;
  local_child = pos 6;
}

abbrev pub success : BundleRun → ℤ → ℤ → AttemptResult
success r child attempt = record {
  run_id = r.run_id;
  bundle_digest = r.bundle.digest;
  child_id = child;
  attempt_id = format_attempt_id r.run_id child attempt;
  agent_id = lit "agent-b";
  shard_id = lit "run-1-shard-0000";
  status = attempt_succeeded;
  started_at = pos 10;
  finished_at = pos 20;
  timings_ms = timings;
  terminal = true;
  result_uri = lit "s3://bucket/results/r.json";
  output = none;
  error = none;
}

-- The second call delivers both children.
abbrev shard_results : ShardExecutionRequest → ℕ → List AttemptResult × Option Error
shard_results request zero = ([], some (external (lit "connection reset")))
shard_results request (suc n) = (
  success request.run (pos 0) request.attempt ∷ success request.run (pos 1) request.attempt ∷ [],
  none,
)

-- The world is the number of calls of the executor so far.
abbrev pub env : Env
env = record {
  World = ℕ;
  Executor = Unit;
  now = λ w. (pos 5, w);
  ctx_err = λ w. (none, w);
  inspect_run_bundle = λ r w. (
    ok (record { bundle_digest = r.bundle.digest; child_count = pos 2; host_class = r.host_class }),
    w,
  );
  terminal_result = λ r child w. (ok none, w);
  run_shard = λ e request w. (shard_results request w, suc w);
}

abbrev pub coordinator : Coordinator env
coordinator = record {
  agents = inventory;
  executors = (lit "agent-a", tt) ∷ (lit "agent-b", tt) ∷ (lit "agent-c", tt) ∷ [];
}

abbrev pub float_ops : FloatOps
float_ops = record {
  add_float = λ a b. a +ℤ b;
  duration_of_ms = λ a. a;
  ms_of_duration = λ a. a;
  rank = λ p n. (p * n + 99) / 100;
}
