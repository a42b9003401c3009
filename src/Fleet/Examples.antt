-- ===== src/Fleet/Examples.antt =====
-- Concrete runs of the code of internal/fleet, on the sample documents.
use mathlib.Core.List.{Mem, Pairwise, not-mem-nil, mem-cons}
use mathlib.Core.List.Permᴰ
use mathlib.Core.Logic.Or
use k8s.Prelude.{
  ℕ, zero, suc, ◌/◌, ◌+◌, ◌*◌, ◌≤◌, ◌≡◌, ◌≢◌, ◌↔◌, refl, sym, subst, true, false, List, [], ◌∷◌,
  Option, none, arith, all, length, All,
}
use k8s.Prelude.Int.{◌≤ℤ◌, pos, add_int, ◌+ℤ◌, wrap_int}
use k8s.Prelude.IntMap.{get, put}
use k8s.Prelude.Text.{
  Str, lit, str_eq, is_empty, str_lt, strip_prefix, has_prefix, trim_prefix, has_suffix, split_once,
  eq→str_eq,
}
use k8s.Prelude.Decimal.{digits_rev, rev_onto, decimal, itoa, zeros, pad_zeros}
use k8s.Errors.{Error, ok}
use k8s.Fleet.Types.{
  AttemptResult, ShardLease, end_of, host_class_equal, critical, lease_range, AgentStatus, Plan,
  Float64,
}
use k8s.Fleet.Patterns.{
  is_lower_alnum, is_id_char, id_pattern, is_hex, digest_pattern, bucket_and_key,
}
use k8s.Fleet.Validate.{
  validate_id, validate_digest, validate_s3_prefix, valid_pressure, validate_args, validate_command,
  validate_range, validate_host_class, validate_policies, validate_bundle_run, validate_pressure,
  validate_agent_status, validate_lease,
}
use k8s.Fleet.Plan.{
  required_in_flight_slots, id_lt, insert_agent, sort_agents, is_compatible, offered, scan_agent,
  scan_agents, candidate_agents, first_candidate_with_capacity, shard_id_of, planned_lease, choose,
  build_single_agent_sequential_plan,
}
use k8s.Fleet.Plan.Order.{HasDistinctIds, build_plan-perm}
use k8s.Fleet.Plan.Choice.{Chosen, build_plan-Chosen}
use k8s.Fleet.Plan.Refusals.{build_plan-error, expected_error}
use k8s.Fleet.Plan.Leases.{build_plan-lease_iff}
use k8s.Fleet.Attempts.{format_attempt_id, two_digits}
use k8s.Fleet.Runtime.{
  RuntimeState, new_runtime_state, terminal_known, record_result, record_results,
  has_platform_mismatch, validate_inspection,
}
use k8s.Fleet.Runtime.Lease.{
  executor_of, scan_children, lease_has_pending_children, after_shard, start_round, attempt_round,
  attempts, run_lease,
}
use k8s.Fleet.Runtime.Coordinator.{run_planned, coordinator_run}
use k8s.Fleet.Runtime.Recording.{entry_after_all, get-record_results}
use k8s.Fleet.Runtime.Scan.{AllKnown}
use k8s.Fleet.Runtime.Completion.{IsPlain, run_lease-AllKnown}
use k8s.Fleet.Runtime.Delivery.{PlainRun, Delivered, coordinator_run-Delivered}
use k8s.Fleet.Runtime.Budget.{IsCount, run_lease-calls}
use k8s.Fleet.Runtime.Percentiles.{runtime_percentiles_ordered}
use k8s.Fleet.Runtime.Timings.{runtime_percentiles}
use k8s.Fleet.Samples.{
  success, run, agent, agent_a, agent_b, agent_c, inventory, env, coordinator, float_ops,
}

pub run_valid : validate_bundle_run run ≡ ok tt
unfolding validate_bundle_run validate_id validate_digest validate_s3_prefix validate_args
    validate_command validate_range validate_host_class validate_policies id_pattern digest_pattern
    is_id_char is_lower_alnum is_hex all lit bucket_and_key has_prefix strip_prefix trim_prefix
    split_once has_suffix is_empty str_eq
run_valid = refl

agent_valid :
    (id : Str) → id_pattern id ≡ true → (n : ℕ) → n ≤ 4 → validate_agent_status (agent id n) ≡ ok tt
unfolding validate_agent_status validate_pressure valid_pressure critical validate_id
    validate_host_class id_pattern is_id_char is_lower_alnum all lit is_empty str_eq
agent_valid id h n k = ground arith

inventory_valid : All (λ a. validate_agent_status a ≡ ok tt) inventory
unfolding id_pattern is_id_char is_lower_alnum all lit
inventory_valid = (
  agent_valid (lit "agent-b") refl 4 (omega arith),
  (
    agent_valid (lit "agent-c") refl 1 (omega arith),
    (agent_valid (lit "agent-a") refl 1 (omega arith), tt),
  ),
)

abbrev pub plan : Plan
plan = (build_single_agent_sequential_plan run inventory).0

pub plan_built : (build_single_agent_sequential_plan run inventory).1 ≡ none
unfolding build_single_agent_sequential_plan validate_bundle_run validate_id validate_digest
    validate_s3_prefix validate_args validate_command validate_range validate_host_class
    validate_policies id_pattern digest_pattern is_id_char is_lower_alnum is_hex all lit
    bucket_and_key has_prefix strip_prefix trim_prefix split_once has_suffix is_empty str_eq
    candidate_agents scan_agents scan_agent sort_agents insert_agent id_lt str_lt
    validate_agent_status validate_pressure valid_pressure critical is_compatible offered
    host_class_equal required_in_flight_slots choose first_candidate_with_capacity ◌+ℤ◌
plan_built = refl

build_plan-Chosen_example : Chosen run inventory plan.lease
build_plan-Chosen_example = build_plan-Chosen run inventory plan (λ i. (plan, plan_built i))

build_plan-error_example :
    (build_single_agent_sequential_plan run inventory).1 ≡ expected_error run inventory
build_plan-error_example = build_plan-error run inventory run_valid inventory_valid

distinct_prop : (a b : AgentStatus) → IsProp (a.agent_id ≢ b.agent_id)
distinct_prop a b = hlevel

differs-cons :
    (a b : AgentStatus) (l : List AgentStatus)
    → str_eq a.agent_id b.agent_id ≡ false
    → ((c : AgentStatus) → Mem c l → a.agent_id ≢ c.agent_id)
    → (c : AgentStatus) → Mem c (b ∷ l)
    → a.agent_id ≢ c.agent_id
differs-cons a b l h k c m =
    Or.elim (distinct_prop a c) (mem-cons.0 m)
      (λ same.
        subst (λ x. a.agent_id ≢ x.agent_id) (sym same)
          (λ e. cc (h, eq→str_eq a.agent_id b.agent_id e)))
      (k c)

inventory_distinct : HasDistinctIds inventory
unfolding lit str_eq
inventory_distinct =
    Pairwise.cons
      (differs-cons agent_b agent_c (agent_a ∷ []) refl
        (differs-cons agent_b agent_a [] refl (λ a m. absurd (not-mem-nil m))))
      (Pairwise.cons (differs-cons agent_c agent_a [] refl (λ a m. absurd (not-mem-nil m)))
        (Pairwise.cons (λ a m. absurd (not-mem-nil m)) Pairwise.nil))

build_plan-perm_example :
    build_single_agent_sequential_plan run inventory
    ≡ build_single_agent_sequential_plan run (agent_c ∷ agent_b ∷ agent_a ∷ [])
build_plan-perm_example = build_plan-perm run (Permᴰ.swap refl refl) inventory_distinct

build_plan-lease_example : (validate_lease plan.lease run ≡ ok tt) ↔ (length run.run_id ≤ 117)
build_plan-lease_example =
    build_plan-lease_iff run inventory plan run_valid (λ i. (plan, plan_built i))

run_plain : PlainRun run 0 2 2
run_plain = record {
  start_eq = refl;
  count_eq = refl;
  budget_eq = refl;
  end_fits = omega arith;
  budget_fits = omega arith;
}

run_done : (coordinator_run env float_ops coordinator run 0).0.error ≡ none
unfolding coordinator_run validate_inspection run_planned planned_lease shard_id_of
    new_runtime_state build_single_agent_sequential_plan validate_bundle_run validate_id
    validate_digest validate_s3_prefix validate_args validate_command validate_range
    validate_host_class validate_policies id_pattern digest_pattern is_id_char is_lower_alnum is_hex
    all lit bucket_and_key has_prefix strip_prefix trim_prefix split_once has_suffix is_empty str_eq
    candidate_agents scan_agents scan_agent sort_agents insert_agent id_lt str_lt
    validate_agent_status validate_pressure valid_pressure critical is_compatible offered
    host_class_equal required_in_flight_slots choose first_candidate_with_capacity ◌+ℤ◌ run_lease
    executor_of attempts attempt_round start_round lease_has_pending_children scan_children
    terminal_known record_results record_result has_platform_mismatch after_shard get put end_of
    lease_range add_int wrap_int format_attempt_id two_digits decimal digits_rev rev_onto itoa zeros
    pad_zeros
run_done = refl

coordinator_run-Delivered_example :
    Delivered env float_ops coordinator run 0 2 (coordinator_run env float_ops coordinator run 0).0
coordinator_run-Delivered_example =
    coordinator_run-Delivered env float_ops coordinator run 0 2 2 run_plain 0 run_done

abbrev lease : ShardLease
lease = record {
  run_id = lit "run-1";
  bundle_digest = run.bundle.digest;
  shard_id = lit "run-1-shard-0000";
  child_start = pos 0;
  child_count = pos 2;
  attempt_budget = pos 2;
  host_class_id = run.host_class.id;
  agent_id = lit "agent-b";
}

abbrev start_state : RuntimeState
start_state = new_runtime_state run plan (pos 5)

lease-IsPlain : IsPlain lease 0 2 2
lease-IsPlain = record {
  start_eq = refl;
  count_eq = refl;
  budget_eq = refl;
  end_fits = omega arith;
  budget_fits = omega arith;
  some_attempt = omega arith;
}

lease_done : (run_lease env coordinator.executors run lease start_state 0).0 ≡ none
unfolding new_runtime_state run_lease executor_of attempts attempt_round start_round
    lease_has_pending_children scan_children terminal_known record_results record_result
    has_platform_mismatch after_shard get put end_of lease_range add_int wrap_int format_attempt_id
    two_digits decimal digits_rev rev_onto itoa zeros pad_zeros is_empty lit str_eq ◌+ℤ◌
lease_done = refl

run_lease-AllKnown_example :
    AllKnown 0 2 (run_lease env coordinator.executors run lease start_state 0).1
run_lease-AllKnown_example =
    run_lease-AllKnown env run lease 0 2 2 lease-IsPlain coordinator.executors start_state 0
      lease_done

calls_counted : IsCount env (λ w. w)
calls_counted = record {
  of_ctx = λ w. refl;
  of_read = λ r child w. refl;
  of_shard = λ e request w. omega arith;
}

run_lease-calls_example : (run_lease env coordinator.executors run lease start_state 0).2 ≤ 0 + 2
run_lease-calls_example =
    run_lease-calls env (λ w. w) calls_counted coordinator.executors run lease start_state 0

abbrev results : List AttemptResult
results = success run (pos 0) (pos 1) ∷ success run (pos 1) (pos 1) ∷ []

get-record_results_example :
    get (pos 1) (record_results results start_state).terminal
    ≡ entry_after_all (pos 1) results (get (pos 1) start_state.terminal)
get-record_results_example = get-record_results (pos 1) results start_state

abbrev no_error : Option Error
no_error = none

abbrev ready_times : List Float64
ready_times = pos 30 ∷ pos 10 ∷ pos 20 ∷ []

times_mono : (p q n : ℕ) → p ≤ q → p * n ≤ q * n
times_mono p q zero h = omega arith
times_mono p q (suc n) h = omega (arith, times_mono p q n h)

rank_mono : (p q n : ℕ) → p ≤ q → (p * n + 99) / 100 ≤ (q * n + 99) / 100
rank_mono p q n h = omega (arith, times_mono p q n h)

runtime_percentiles_ordered_example :
    ((runtime_percentiles float_ops ready_times).p50
      ≤ℤ (runtime_percentiles float_ops ready_times).p95)
    × ((runtime_percentiles float_ops ready_times).p95
        ≤ℤ (runtime_percentiles float_ops ready_times).p99)
runtime_percentiles_ordered_example = runtime_percentiles_ordered float_ops ready_times rank_mono
