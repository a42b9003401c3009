-- ===== src/Fleet/Runtime/Delivery.antt =====
-- The end of a run: Coordinator.Run of internal/fleet/runtime.go.
use k8s.Prelude.{ℕ, ◌+◌, ◌^◌, ◌<◌, ◌≡◌, refl, ◌∙◌, Option, none, some, arith, inl, inr}
use k8s.Prelude.Int.{pos}
use k8s.Errors.{Error, ok, Result-cases}
use k8s.Fleet.Types.{BundleRun, Plan, Time}
use k8s.Fleet.Validate.{validate_bundle_run}
use k8s.Fleet.Validate.Spec.{validate_bundle_run_iff}
use k8s.Fleet.Plan.{build_single_agent_sequential_plan}
use k8s.Fleet.Plan.Choice.{Chosen, CoversRun, build_plan-Chosen}
use k8s.Fleet.Runtime.{Env, RuntimeState, new_runtime_state, validate_inspection}
use k8s.Fleet.Runtime.Lease.{Coordinator, run_lease}
use k8s.Fleet.Runtime.Timings.{FloatOps}
use k8s.Fleet.Runtime.Coordinator.{
  Outcome, count_lease_error, run_planned, run_admitted, coordinator_run,
}
use k8s.Fleet.Runtime.Scan.{AllKnown}
use k8s.Fleet.Runtime.Completion.{IsPlain, run_lease-AllKnown}

-- The numbers of a run, where the end of its range does not overflow.
pub record PlainRun (run : BundleRun) (start count budget : ℕ) : Type 0 where
  pub start_eq : run.children.start ≡ pos start
  pub count_eq : run.children.count ≡ pos count
  pub budget_eq : run.retry_policy.max_attempts_per_child ≡ pos budget
  pub end_fits : start + count < 2 ^ 63
  pub budget_fits : budget < 2 ^ 63

covering_lease-IsPlain :
    (run : BundleRun) (plan : Plan) (start count budget : ℕ)
    → validate_bundle_run run ≡ ok tt
    → PlainRun run start count budget
    → CoversRun run plan.lease
    → IsPlain plan.lease start count budget
covering_lease-IsPlain run plan start count budget valid p c = record {
  start_eq = c.start ∙ p.start_eq;
  count_eq = c.count ∙ p.count_eq;
  budget_eq = c.budget ∙ p.budget_eq;
  end_fits = p.end_fits;
  budget_fits = p.budget_fits;
  some_attempt =
      ground (arith, ((validate_bundle_run_iff run).0 valid).policies.attempts, p.budget_eq);
}

count_lease_error-terminal :
    (e : Option Error) (s : RuntimeState) → (count_lease_error e s).terminal ≡ s.terminal
count_lease_error-terminal none s = refl
count_lease_error-terminal (some e) s = refl

module _ (env : Env) (f : FloatOps) where
  open env use {World, now, inspect_run_bundle}

  -- The run was admitted and inspected, its plan leases it to the least fitting agent, and the final state
  -- knows a terminal result for each of its children.
  pub record Delivered (c : Coordinator env) (run : BundleRun) (start count : ℕ) (o : Outcome env f)
      : Type 0 where
    pub admitted : validate_bundle_run run ≡ ok tt
    pub chosen : Chosen run c.agents o.report.plan.lease
    pub state : RuntimeState
    pub kept : o.state ≡ some state
    pub known : AllKnown start count state

  module _ (c : Coordinator env) (run : BundleRun) (start count budget : ℕ)
      (plain : PlainRun run start count budget) where
    -- An outcome that is an error, or that delivers the run.
    Delivers : Outcome env f → Type 0
    Delivers o = o.error ≡ none → Delivered c run start count o

    run_planned-Delivers :
        (plan : Plan) (started_at : Time) (w : World)
        → validate_bundle_run run ≡ ok tt
        → build_single_agent_sequential_plan run c.agents ≡ (plan, none)
        → Delivers (run_planned env f c run plan started_at w).0
    unfolding run_planned Delivers
    run_planned-Delivers plan started_at w valid planned done =
        let chosen = build_plan-Chosen run c.agents plan planned in
        let r =
          run_lease env c.executors run plan.lease (new_runtime_state run plan started_at) w in
        record {
          admitted = valid;
          chosen = chosen;
          state = count_lease_error r.0 r.1;
          kept = refl;
          known = rw done (
              run_lease-AllKnown env run plan.lease start count budget
                (covering_lease-IsPlain run plan start count budget valid plain chosen.covers)
                c.executors (new_runtime_state run plan started_at) w done);
        }

    run_admitted-Delivers :
        (built : Plan × Option Error) (started_at : Time) (w : World)
        → validate_bundle_run run ≡ ok tt
        → build_single_agent_sequential_plan run c.agents ≡ built
        → Delivers (run_admitted env f c run started_at built w).0
    unfolding Delivers
    run_admitted-Delivers (plan, none) started_at w valid planned done =
        run_planned-Delivers plan started_at w valid planned done
    run_admitted-Delivers (plan, some e) started_at w valid planned done = absurd cc

    -- A call of Coordinator.Run that ends without an error admitted the run, its plan leases the
    -- whole run to a fitting agent of the inventory with the least id among the fitting ones, and
    -- its final state knows a terminal result for each child, if the numbers of the run are not
    -- negative and its end and its budget fit 63 bits.
    pub coordinator_run-Delivered :
        (w : World)
        → (coordinator_run env f c run w).0.error ≡ none
        → Delivered c run start count (coordinator_run env f c run w).0
    unfolding coordinator_run Delivers
    coordinator_run-Delivered w = elim (Result-cases (validate_bundle_run run)) [
      | inl (e, bad) ↦ rw (bad, coordinator_run) (λ done. absurd cc)
      | inr (_, valid) ↦ elim (Result-cases (inspect_run_bundle run (now w).1).0) [
        | inl (e, bad) ↦ rw (valid, bad, coordinator_run) (λ done. absurd cc)
        | inr (i, read) ↦ elim (Result-cases (validate_inspection i run)) [
          | inl (e, bad) ↦ rw (valid, read, bad, coordinator_run) (λ done. absurd cc)
          | inr (_, same) ↦
              rw (valid, read, same, coordinator_run)
                (run_admitted-Delivers (build_single_agent_sequential_plan run c.agents) (now w).0
                  (inspect_run_bundle run (now w).1).1 valid refl)
        ]
      ]
    ]
