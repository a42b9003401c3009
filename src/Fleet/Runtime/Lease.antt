-- ===== src/Fleet/Runtime/Lease.antt =====
-- The execution of one lease and of one run: runLease, leaseHasPendingChildren, NewCoordinator and
-- Coordinator.Run of internal/fleet/runtime.go. A function takes the runtime state and the world, and
-- returns both beside its result.
use k8s.Prelude.{ℕ, zero, suc, Bool, true, false, List, [], ◌∷◌, Option, none, some, if◌then◌else◌}
use k8s.Prelude.Int.{ℤ, pos, pos_part, add_int, eq_ℤ}
use k8s.Prelude.Text.{Str, str_eq}
use k8s.Errors.{
  Error, Result, ok, err, coordinator_not_configured, agent_executor_missing, lease_incomplete,
  platform_mismatch,
}
use k8s.Fleet.Types.{
  end_of, BundleRun, AgentStatus, ShardLease, lease_range, AttemptResult, ShardExecutionRequest,
}
use k8s.Fleet.Runtime.{
  Env, RuntimeState, terminal_known, record_existing_terminal, record_results,
  has_platform_mismatch, rounds,
}

-- How one round of the loop over the attempts ends: a return with an error or nil, or the next round.
pub data Next : Type 0 where
  stop : Option Error → Next
  again : Next

pub record Coordinator (env : Env) : Type 0 where
  pub agents : List AgentStatus
  pub executors : List (Str × env.Executor)

module _ (env : Env) where
  open env use {World, Executor, now, ctx_err, inspect_run_bundle, terminal_result, run_shard}

  unfoldable pub copy_executors : List (Str × Option Executor) → Option (List (Str × Executor))
  copy_executors [] = some []
  copy_executors ((id, none) ∷ es) = none
  copy_executors ((id, some e) ∷ es) = elim (copy_executors es) [
    | none ↦ none
    | some copied ↦ some ((id, e) ∷ copied)
  ]

  -- NewCoordinator: the flags say whether the inspector and the reader are not nil.
  unfoldable pub new_coordinator :
      List AgentStatus → Bool → Bool → List (Str × Option Executor) → Result (Coordinator env)
  new_coordinator agents false has_terminal es = err coordinator_not_configured
  new_coordinator agents true false es = err coordinator_not_configured
  new_coordinator agents true true [] = err coordinator_not_configured
  new_coordinator agents true true (e ∷ es) = elim (copy_executors (e ∷ es)) [
    | none ↦ err coordinator_not_configured
    | some copied ↦ ok (record { agents = agents; executors = copied })
  ]

  unfoldable pub executor_of : Str → List (Str × Executor) → Option Executor
  executor_of id [] = none
  executor_of id ((j, e) ∷ es) = if str_eq j id then some e else executor_of id es

  -- The loop of leaseHasPendingChildren: the rounds left, the child, and `pending` so far.
  unfoldable pub scan_children :
      BundleRun → ℕ → ℤ → Bool → RuntimeState → World → Result Bool × RuntimeState × World
  scan_children run zero child_id pending s w = (ok pending, s, w)
  scan_children run (suc n) child_id pending s w = elim (terminal_known child_id s) [
    | true ↦ scan_children run n (add_int child_id (pos 1)) pending s w
    | false ↦
        let (found, w') = terminal_result run child_id w in
        elim found [
          | err e ↦ (err e, s, w')
          | ok none ↦ scan_children run n (add_int child_id (pos 1)) true s w'
          | ok (some r) ↦
              scan_children run n (add_int child_id (pos 1)) pending
                (record_existing_terminal child_id r s) w'
        ]
  ]

  unfoldable pub lease_has_pending_children :
      BundleRun → ShardLease → RuntimeState → World → Result Bool × RuntimeState × World
  lease_has_pending_children run lease s w =
      scan_children run (rounds lease.child_start (end_of (lease_range lease))) lease.child_start
        false s w

  -- What follows RunShard in a round.
  unfoldable pub after_shard :
      BundleRun
      → ShardLease
      → ℤ
      → List AttemptResult
      → Option Error
      → RuntimeState
      → World
      → Next × RuntimeState × World
  after_shard run lease attempt results run_err s w =
      if has_platform_mismatch results
      then (stop (some (platform_mismatch lease.shard_id)), s, w)
      else let (pending, s', w') = lease_has_pending_children run lease s w in
        elim pending [
          | err e ↦ (stop (some e), s', w')
          | ok false ↦ (stop none, s', w')
          | ok true ↦
              if eq_ℤ attempt lease.attempt_budget
              then (
                stop (elim run_err [
                  | none ↦ some (lease_incomplete lease.shard_id)
                  | some e ↦ some e
                ]),
                s',
                w',
              )
              else (again, s', w')
        ]

  -- From the first check of the pending children on.
  unfoldable pub start_round :
      BundleRun → ShardLease → Executor → ℤ → RuntimeState → World → Next × RuntimeState × World
  start_round run lease executor attempt s w =
      let (pending, s', w') = lease_has_pending_children run lease s w in
      elim pending [
        | err e ↦ (stop (some e), s', w')
        | ok false ↦ (stop none, s', w')
        | ok true ↦
            let request : ShardExecutionRequest = record {
              run = run;
              lease = lease;
              attempt = attempt;
              local = none;
            } in
            let ((results, run_err), w'') = run_shard executor request w' in
            after_shard run lease attempt results run_err (record_results results s') w''
      ]

  unfoldable pub attempt_round :
      BundleRun → ShardLease → Executor → ℤ → RuntimeState → World → Next × RuntimeState × World
  attempt_round run lease executor attempt s w =
      let (cancelled, w') = ctx_err w in
      elim cancelled [
        | some e ↦ (stop (some e), s, w')
        | none ↦ start_round run lease executor attempt s w'
      ]

  -- The loop over the attempts, by the rounds left until the budget.
  unfoldable pub attempts :
      BundleRun
      → ShardLease
      → Executor
      → ℕ
      → ℤ
      → RuntimeState
      → World
      → Option Error × RuntimeState × World
  attempts run lease executor zero attempt s w = (none, s, w)
  attempts run lease executor (suc n) attempt s w =
      let (next, s', w') = attempt_round run lease executor attempt s w in
      elim next [
        | stop result ↦ (result, s', w')
        | again ↦ attempts run lease executor n (add_int attempt (pos 1)) s' w'
      ]

  unfoldable pub run_lease :
      List (Str × Executor)
      → BundleRun
      → ShardLease
      → RuntimeState
      → World
      → Option Error × RuntimeState × World
  run_lease executors run lease s w = elim (executor_of lease.agent_id executors) [
    | none ↦ (some (agent_executor_missing lease.agent_id), s, w)
    | some executor ↦ attempts run lease executor (pos_part lease.attempt_budget) (pos 1) s w
  ]
