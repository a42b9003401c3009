-- ===== src/Agent/Shard.antt =====
-- Runner.RunChild and Runner.RunShard of internal/agent/runtime.go, and the adapter of
-- internal/agent/coordinator_adapter.go. The workers of a shard share the world: each job is run to its end before
-- the next one is taken.
pub mod Slots
pub mod Slice
use k8s.Prelude.{
  ℕ, zero, suc, Bool, false, ◌||◌, List, [], ◌∷◌, ◌++◌, Option, none, some, if◌then◌else◌,
}
use k8s.Prelude.Int.{ℤ, pos, pos_part, ltb_ℤ, ◌+ℤ◌, sub_ℤ}
use k8s.Prelude.Text.{Str, is_some}
use k8s.Errors.{
  Error, Checked, Result, ok, err, invalid_lease, spore_client_not_configured, join_errors,
}
use k8s.Fleet.Types.{
  HostClass, BundleRun, BundleInspection, ShardLease, lease_range, end_of, Pressure, AttemptResult,
  ShardExecutionRequest, PreparedLocalBundle,
}
use k8s.Fleet.Validate.{validate_lease}
use k8s.Fleet.Plan.{shard_slot_demand}
use k8s.Agent.Io.{Effect, lift, ◌>>=◌}
use k8s.Agent.Slots.{admit_shard}
use k8s.Agent.Attempt.{RunChildRequest, validate_run_child_request, no_timings}
use k8s.Agent.Machine.Documents.{digest_string}
use k8s.Agent.Client.{SporeClient, Config, Node}
use k8s.Agent.AttemptRecord.{Ending, bundle_source}
use k8s.Agent.Child.{attempt_child}
use k8s.Agent.Handlers.{set_agent, release_slot}

-- The zero value of fleet.AttemptResult.
abbrev pub zero_result : AttemptResult
zero_result = record {
  run_id = [];
  bundle_digest = [];
  child_id = pos 0;
  attempt_id = [];
  agent_id = [];
  shard_id = [];
  status = [];
  started_at = pos 0;
  finished_at = pos 0;
  timings_ms = no_timings;
  terminal = false;
  result_uri = [];
  output = none;
  error = none;
}

pub record RunShardRequest : Type 0 where
  pub run : BundleRun
  pub lease : ShardLease
  pub attempt : ℤ
  pub pressure : Pressure
  pub region : Str
  pub allow_metadata_only_rootfs : Bool
  pub backend : Str
  pub local_children_dir : Str

abbrev pub child_request : RunShardRequest → ℤ → RunChildRequest
child_request req child = record {
  run = req.run;
  lease = req.lease;
  child_id = child;
  attempt = req.attempt;
  pressure = req.pressure;
  region = req.region;
  allow_metadata_only_rootfs = req.allow_metadata_only_rootfs;
  backend = req.backend;
  local_children_dir = req.local_children_dir;
}

-- The ids from one on.
unfoldable pub ids_from : ℤ → ℕ → List ℤ
ids_from start zero = []
ids_from start (suc n) = start ∷ ids_from (start +ℤ pos 1) n

-- `for childID := start; childID < end; childID++`.
unfoldable pub child_ids : ShardLease → List ℤ
child_ids lease =
    ids_from lease.child_start (pos_part (sub_ℤ (end_of (lease_range lease)) lease.child_start))

-- The lease that a shard is admitted as: its slots are those that may run at once.
abbrev pub demand_lease : RunShardRequest → ShardLease
demand_lease req = record req.lease { child_count = shard_slot_demand req.run req.lease }

abbrev pub Batch : Type 0
Batch = List AttemptResult × List Error

-- `make([]fleet.AttemptResult, n)`.
abbrev pub zeros : ℕ → List AttemptResult
zeros zero = []
zeros (suc n) = zero_result ∷ zeros n

-- The write of an element of a slice; the index is below its length wherever the code writes.
abbrev pub set_at : ℕ → AttemptResult → List AttemptResult → List AttemptResult
set_at i x [] = []
set_at zero x (y ∷ ys) = x ∷ ys
set_at (suc i) x (y ∷ ys) = y ∷ set_at i x ys

abbrev pub noted : ℕ → AttemptResult × Checked → Batch → Batch
noted i (r, ok _) (rs, es) = (set_at i r rs, es)
noted i (r, err e) (rs, es) = (set_at i r rs, es ++ (e ∷ []))

module _ {W : Type 0} (config : Config W) (message : Error → Str) where
  abbrev valid_child : RunChildRequest → Checked
  valid_child req =
      validate_run_child_request (is_some config.client) (is_some config.results) config.work_root
        req

  -- Runner.runChild.
  unfoldable pub run_child : RunChildRequest → Node W → Ending W
  run_child req n = elim (valid_child req) [
    | err e ↦ ((zero_result, err e), n)
    | ok _ ↦ attempt_child config message req n
  ]

  abbrev one_slot : RunChildRequest → ShardLease
  one_slot req = record req.lease { child_start = req.child_id; child_count = pos 1 }

  abbrev pub admit_lease : ShardLease → Pressure → Effect (Node W) ℕ
  admit_lease lease p n = (
    (admit_shard lease p n.agent.slots).0,
    set_agent
        (record { slots = (admit_shard lease p n.agent.slots).1; sandboxes = n.agent.sandboxes }) n,
  )

  abbrev child_admitted : RunChildRequest → Result ℕ × Node W → Ending W
  child_admitted req (err e, n) = ((zero_result, err e), n)
  child_admitted req (ok slot, n) = ((run_child req n).0, release_slot slot (run_child req n).1)

  -- Runner.RunChild.
  unfoldable pub run_child_admitted : RunChildRequest → Node W → Ending W
  run_child_admitted req n = elim (valid_child req) [
    | err e ↦ ((zero_result, err e), n)
    | ok _ ↦ child_admitted req (admit_lease (one_slot req) req.pressure n)
  ]

  module _ (ctx_err : W → Option Error) where
    -- The jobs in their order: each result is written at its index, and a context that has ended
    -- leaves the slice as it is.
    unfoldable pub run_jobs : RunShardRequest → List ℤ → Batch → Node W → Batch × Node W
    run_jobs req [] b n = (b, n)
    run_jobs req (child ∷ children) b n = elim (ctx_err n.world) [
      | some e ↦ ((b.0, b.1 ++ (e ∷ [])), n)
      | none ↦
          let ended = run_child (child_request req child) n in
          run_jobs req children (noted (pos_part (sub_ℤ child req.lease.child_start)) ended.0 b)
            ended.1
    ]

    abbrev pub jobs_done : ℕ → Batch × Node W → (List AttemptResult × Checked) × Node W
    jobs_done slot ((rs, es), n) = ((rs, join_errors es), release_slot slot n)

    abbrev shard_admitted :
        RunShardRequest → Result ℕ × Node W → (List AttemptResult × Checked) × Node W
    shard_admitted req (err e, n) = (([], err e), n)
    shard_admitted req (ok slot, n) =
        jobs_done slot
          (run_jobs req (child_ids req.lease) (zeros (pos_part req.lease.child_count), []) n)

    -- Runner.RunShard.
    unfoldable pub run_shard_lease :
        RunShardRequest → Node W → (List AttemptResult × Checked) × Node W
    run_shard_lease req n = elim (validate_lease req.lease req.run) [
      | err e ↦ (([], err e), n)
      | ok _ ↦
          if ltb_ℤ req.attempt (pos 1) || ltb_ℤ req.lease.attempt_budget req.attempt
          then (([], err invalid_lease), n)
          else shard_admitted req (admit_lease (demand_lease req) req.pressure n)
    ]

    abbrev local_dir : Option PreparedLocalBundle → Str
    local_dir none = []
    local_dir (some l) = l.children_dir

    -- RunnerShardExecutor.RunShard of the adapter.
    unfoldable pub execute_lease :
        Pressure
        → Str
        → Bool
        → Str
        → ShardExecutionRequest
        → Node W
        → (List AttemptResult × Checked) × Node W
    execute_lease pressure region allow backend req = run_shard_lease (record {
      run = req.run;
      lease = req.lease;
      attempt = req.attempt;
      pressure = pressure;
      region = region;
      allow_metadata_only_rootfs = allow;
      backend = backend;
      local_children_dir = local_dir req.local;
    })

abbrev zero_host_class : HostClass
zero_host_class = record {
  id = [];
  spore_platform_version = [];
  architecture = [];
  backend = [];
  cpu_profile = [];
  device_model = [];
}

-- RunBundleInspector.InspectRunBundle.
unfoldable pub inspect_run_bundle :
    {W : Type 0} → Option (SporeClient W) → BundleRun → Effect W BundleInspection
inspect_run_bundle none run = lift (err spore_client_not_configured)
inspect_run_bundle (some c) run =
    c.inspect_bundle (record {
      source = bundle_source run;
      child_id = [];
      child_range = some (record { start = run.children.start; stop = end_of run.children });
    })
    >>= λ r. lift (
        ok (record {
          bundle_digest = digest_string r.bundle_digest;
          child_count = r.child_count;
          host_class = zero_host_class;
        }))
