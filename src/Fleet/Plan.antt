-- ===== src/Fleet/Plan.antt =====
-- internal/fleet/coordinator.go: the choice of one agent for a whole run. Go's `sort.Slice` is an
-- insertion sort by agent id; where two agents share an id the order that Go leaves open is theirs in the
-- input. Counts of agents in memory do not wrap; a sum of their slots may.
pub mod Order
pub mod Sorting
pub mod Candidates
pub mod Choice
pub mod Refusals
pub mod Leases
use k8s.Prelude.{
  ℕ, Bool, true, false, ◌&&◌, ◌||◌, not, List, [], ◌∷◌, ◌++◌, Option, none, some, if◌then◌else◌,
  length,
}
use k8s.Prelude.Int.{ℤ, pos, add_int, ◌+ℤ◌, ltb_ℤ, leb_ℤ, eq_ℤ, min_ℤ}
use k8s.Prelude.Text.{Str, lit, str_lt}
use k8s.Prelude.Decimal.{decimal, pad_zeros}
use k8s.Errors.{Error, Result, ok, err, no_compatible_agents, insufficient_capacity}
use k8s.Fleet.Types.{
  host_class_equal, Execution, BundleRun, critical, AgentStatus, ShardLease, PlanSummary, Plan,
}
use k8s.Fleet.Validate.{validate_bundle_run, validate_agent_status}

pub record Candidate : Type 0 where
  pub status : AgentStatus
  pub remaining : ℤ

unfoldable pub required_in_flight_slots : ℤ → Execution → ℤ
required_in_flight_slots child_count e = min_ℤ child_count e.max_in_flight_per_agent

unfoldable pub shard_slot_demand : BundleRun → ShardLease → ℤ
unfolding required_in_flight_slots
shard_slot_demand run lease = required_in_flight_slots lease.child_count run.execution

-- sorted[i].AgentID < sorted[j].AgentID
unfoldable pub id_lt : AgentStatus → AgentStatus → Bool
id_lt a b = str_lt a.agent_id b.agent_id

unfoldable pub insert_agent : AgentStatus → List AgentStatus → List AgentStatus
insert_agent a [] = a ∷ []
insert_agent a (b ∷ bs) = if id_lt b a then b ∷ insert_agent a bs else a ∷ b ∷ bs

unfoldable pub sort_agents : List AgentStatus → List AgentStatus
sort_agents [] = []
sort_agents (a ∷ others) = insert_agent a (sort_agents others)

abbrev pub count_if : Bool → ℤ → ℤ
count_if b n = if b then n +ℤ pos 1 else n

unfoldable pub is_compatible : BundleRun → AgentStatus → Bool
is_compatible run a =
    a.healthy && (not (critical a.pressure) && host_class_equal a.host_class run.host_class)

unfoldable pub offered : BundleRun → AgentStatus → ℤ
offered run a = min_ℤ a.execution_slots.available run.execution.max_in_flight_per_agent

-- What the loop of candidateAgents carries: the candidates so far, in order, and the summary.
pub record Scan : Type 0 where
  pub candidates : List Candidate
  pub summary : PlanSummary

-- One agent that passed its checks.
unfoldable pub scan_agent : BundleRun → Scan → AgentStatus → Scan
scan_agent run s a =
    let seen = record s.summary { healthy_agents = count_if a.healthy s.summary.healthy_agents } in
    if not (is_compatible run a) then record s { summary = seen } else record {
      candidates =
          (if ltb_ℤ (pos 0) (offered run a)
            then s.candidates ++ (record { status = a; remaining = offered run a }) ∷ []
            else s.candidates);
      summary = record seen {
        compatible_agents = seen.compatible_agents +ℤ pos 1;
        available_child_slots = add_int seen.available_child_slots (offered run a);
      };
    }

-- The loop: an agent that is not valid ends it with that agent's error.
unfoldable pub scan_agents : BundleRun → Scan → List AgentStatus → Scan × Option Error
scan_agents run s [] = (s, none)
scan_agents run s (a ∷ agents) =
    let rest = scan_agents run (scan_agent run s a) agents in
    elim (validate_agent_status a) [ ok _ ↦ rest | err e ↦ (s, some e) ]

abbrev empty_summary : PlanSummary
empty_summary = record {
  run_id = [];
  state = [];
  child_count = pos 0;
  shard_count = pos 0;
  assigned_children = pos 0;
  assigned_shards = pos 0;
  agent_count = pos 0;
  healthy_agents = pos 0;
  compatible_agents = pos 0;
  available_child_slots = pos 0;
}

-- The summary over that many agents before the loop.
abbrev pub start_scan : ℕ → Scan
start_scan n = record { candidates = []; summary = record empty_summary { agent_count = pos n } }

-- The outcome of the loop: no candidates with an error.
abbrev pub finish_scan : Scan × Option Error → Result (List Candidate) × PlanSummary
finish_scan (s, some e) = (err e, s.summary)
finish_scan (s, none) = (
  (if eq_ℤ s.summary.compatible_agents (pos 0) then err no_compatible_agents else ok s.candidates),
  s.summary,
)

unfoldable pub candidate_agents :
    BundleRun → List AgentStatus → Result (List Candidate) × PlanSummary
candidate_agents run agents =
    finish_scan (scan_agents run (start_scan (length agents)) (sort_agents agents))

-- The first candidate itself, in place of its index.
unfoldable pub first_candidate_with_capacity : List Candidate → ℤ → Option Candidate
first_candidate_with_capacity [] required = none
first_candidate_with_capacity (c ∷ cs) required =
    if leb_ℤ required c.remaining then some c else first_candidate_with_capacity cs required

unfoldable pub best_from : ℤ → List Candidate → ℤ
best_from best [] = best
best_from best (c ∷ cs) = best_from (if ltb_ℤ best c.remaining then c.remaining else best) cs

unfoldable pub best_candidate_capacity : List Candidate → ℤ
unfolding best_from
best_candidate_capacity cs = best_from (pos 0) cs

-- The zero values that Go returns beside an error.
abbrev pub no_lease : ShardLease
no_lease = record {
  run_id = [];
  bundle_digest = [];
  shard_id = [];
  child_start = pos 0;
  child_count = pos 0;
  attempt_budget = pos 0;
  host_class_id = [];
  agent_id = [];
}

abbrev pub empty_plan : Plan
empty_plan = record { summary = empty_summary; lease = no_lease }

-- fmt.Sprintf("%s-shard-%04d", runID, 0)
unfoldable pub shard_id_of : Str → Str
unfolding decimal pad_zeros
shard_id_of run_id = run_id ++ (lit "-shard-" ++ pad_zeros 4 (decimal 0))

unfoldable pub planned_lease : BundleRun → Candidate → ShardLease
planned_lease run c = record {
  run_id = run.run_id;
  bundle_digest = run.bundle.digest;
  shard_id = shard_id_of run.run_id;
  child_start = run.children.start;
  child_count = run.children.count;
  attempt_budget = run.retry_policy.max_attempts_per_child;
  host_class_id = run.host_class.id;
  agent_id = c.status.agent_id;
}

abbrev pub refused_summary : BundleRun → PlanSummary → PlanSummary
refused_summary run s = record s {
  run_id = run.run_id;
  state = lit "refused";
  child_count = run.children.count;
  shard_count = pos 1;
}

abbrev pub planned_summary : BundleRun → PlanSummary → PlanSummary
planned_summary run s = record (refused_summary run s) {
  assigned_shards = pos 1;
  assigned_children = run.children.count;
  state = lit "planned";
}

-- The choice among the candidates.
unfoldable pub choose : BundleRun → PlanSummary → List Candidate → Plan × Option Error
choose run s cs =
    let required = required_in_flight_slots run.children.count run.execution in
    elim (first_candidate_with_capacity cs required) [
      | none ↦ (
        record { summary = refused_summary run s; lease = no_lease },
        some (insufficient_capacity required (best_candidate_capacity cs)),
      )
      | some c ↦ (record { summary = planned_summary run s; lease = planned_lease run c }, none)
    ]

abbrev pub plan_of : BundleRun → Result (List Candidate) × PlanSummary → Plan × Option Error
plan_of run (err e, s) = (record { summary = refused_summary run s; lease = no_lease }, some e)
plan_of run (ok cs, s) = choose run s cs

unfoldable pub build_single_agent_sequential_plan :
    BundleRun → List AgentStatus → Plan × Option Error
build_single_agent_sequential_plan run agents = elim (validate_bundle_run run) [
  | err e ↦ (empty_plan, some e)
  | ok _ ↦ plan_of run (candidate_agents run agents)
]
