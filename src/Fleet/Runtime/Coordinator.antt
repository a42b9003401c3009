-- ===== src/Fleet/Runtime/Coordinator.antt =====
-- Coordinator.Run of internal/fleet/runtime.go: admission, plan, execution and report. Beside what Go
-- returns it gives the runtime state that the report was made of, and the world.
use k8s.Prelude.{◌+◌, Option, none, some}
use k8s.Errors.{Error, ok, err}
use k8s.Fleet.Types.{
  Time, BundleRun, Plan, RuntimeSummary, RuntimePrepareSummary, RuntimeTimingSummary,
}
use k8s.Fleet.Validate.{validate_bundle_run}
use k8s.Fleet.Plan.{empty_plan, build_single_agent_sequential_plan}
use k8s.Fleet.Runtime.{Env, RuntimeState, new_runtime_state, validate_inspection, summary}
use k8s.Fleet.Runtime.Lease.{Coordinator, run_lease}
use k8s.Fleet.Runtime.Timings.{FloatOps, timing_summary}

-- The summary is absent where Go leaves the zero value: where no lease was run.
pub record RuntimeReport : Type 0 where
  pub plan : Plan
  pub summary : Option RuntimeSummary
  pub timings : Option RuntimeTimingSummary
  pub prepare : Option RuntimePrepareSummary

abbrev pub count_lease_error : Option Error → RuntimeState → RuntimeState
count_lease_error none s = s
count_lease_error (some e) s = record s { lease_errors = s.lease_errors + 1 }

module _ (env : Env) (f : FloatOps) where
  open env use {World, now, inspect_run_bundle}

  pub record Outcome : Type 0 where
    pub report : RuntimeReport
    pub error : Option Error
    pub state : Option RuntimeState

  abbrev refused : Plan → Error → Outcome
  refused plan e = record {
    report = record { plan = plan; summary = none; timings = none; prepare = none };
    error = some e;
    state = none;
  }

  -- From the admitted plan on.
  unfoldable pub run_planned : Coordinator env → BundleRun → Plan → Time → World → Outcome × World
  run_planned c run plan started_at w =
      let (run_err, s, w') =
        run_lease env c.executors run plan.lease (new_runtime_state run plan started_at) w in
      let s' = count_lease_error run_err s in
      let (finished_at, w'') = now w' in
      (
        record {
          report = record {
            plan = plan;
            summary = some (summary finished_at run_err s');
            timings = timing_summary f started_at s'.terminal;
            prepare = none;
          };
          error = run_err;
          state = some s';
        },
        w'',
      )

  abbrev pub run_admitted :
      Coordinator env → BundleRun → Time → Plan × Option Error → World → Outcome × World
  run_admitted c run started_at (plan, some e) w = (refused plan e, w)
  run_admitted c run started_at (plan, none) w = run_planned c run plan started_at w

  unfoldable pub coordinator_run : Coordinator env → BundleRun → World → Outcome × World
  coordinator_run c run w =
      let (started_at, w₁) = now w in
      elim (validate_bundle_run run) [
        | err e ↦ (refused empty_plan e, w₁)
        | ok _ ↦
            let (inspected, w₂) = inspect_run_bundle run w₁ in
            elim inspected [
              | err e ↦ (refused empty_plan e, w₂)
              | ok inspection ↦ elim (validate_inspection inspection run) [
                | err e ↦ (refused empty_plan e, w₂)
                | ok _ ↦
                    run_admitted c run started_at (build_single_agent_sequential_plan run c.agents)
                      w₂
              ]
            ]
      ]
