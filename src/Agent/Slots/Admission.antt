-- ===== src/Agent/Slots/Admission.antt =====
-- The admission of shards in internal/agent/runtime.go, and the leases of the plan in
-- internal/fleet/coordinator.go.
use mathlib.Core.List.{Mem}
use k8s.Prelude.{◌≡◌, ◌↔◌, sym, ap, false, none, length, List, arith}
use k8s.Prelude.Int.{pos, min_ℤ, ◌≤ℤ◌}
use k8s.Prelude.Text.{lit}
use k8s.Errors.{ok}
use k8s.Fleet.Types.{Pressure, critical, ShardLease, BundleRun, AgentStatus, Plan}
use k8s.Fleet.Validate.{validate_pressure, validate_bundle_run}
use k8s.Fleet.Validate.Spec.{validate_bundle_run_iff}
use k8s.Fleet.Plan.{shard_slot_demand, required_in_flight_slots, build_single_agent_sequential_plan}
use k8s.Fleet.Plan.Choice.{Chosen, build_plan-Chosen}
use k8s.Agent.Slots.{available, try_acquire, Slots, admit_shard}

-- A shard is admitted, with the next release closure, exactly if it asks for a slot at least, the
-- pressure is known and not critical, and the slots it asks for are available.
pub admit_shard_iff :
    (lease : ShardLease) (p : Pressure) (s : Slots)
    → ((admit_shard lease p s).0 ≡ ok (length s.grants)) ↔ (
        (pos 1 ≤ℤ lease.child_count)
        × (validate_pressure p (lit "pressure") ≡ ok tt)
        × (critical p ≡ false)
        × (lease.child_count ≤ℤ available s.limiter))
unfolding admit_shard try_acquire
admit_shard_iff lease p s = ground arith

-- The lease with the slots that RunShard asks for.
abbrev pub slot_lease : BundleRun → ShardLease → ShardLease
slot_lease run lease = record lease { child_count = shard_slot_demand run lease }

demand_covered :
    (run : BundleRun) (agents : List AgentStatus) (lease : ShardLease)
    (chosen : Chosen run agents lease)
    → shard_slot_demand run lease ≡ min_ℤ run.children.count run.execution.max_in_flight_per_agent
unfolding shard_slot_demand required_in_flight_slots
demand_covered run agents lease chosen =
    ap (λ n. min_ℤ n run.execution.max_in_flight_per_agent) chosen.covers.count

-- For an admitted run, the agent that a plan leases to admits the lease with the slots that
-- RunShard asks for, if its limiter has at least the slots that every listed status with its id
-- reported, and its pressure is known and not critical.
pub planned_lease-admitted :
    (run : BundleRun) (agents : List AgentStatus) (plan : Plan) (p : Pressure) (s : Slots)
    → validate_bundle_run run ≡ ok tt
    → build_single_agent_sequential_plan run agents ≡ (plan, none)
    → validate_pressure p (lit "pressure") ≡ ok tt
    → critical p ≡ false
    → ((a : AgentStatus)
        → Mem a agents
        → a.agent_id ≡ plan.lease.agent_id
        → a.execution_slots.available ≤ℤ available s.limiter)
    → (admit_shard (slot_lease run plan.lease) p s).0 ≡ ok (length s.grants)
planned_lease-admitted run agents plan p s valid planned known calm reported =
    let chosen = build_plan-Chosen run agents plan planned in
    let v = (validate_bundle_run_iff run).0 valid in
    let demand = demand_covered run agents plan.lease chosen in
    (admit_shard_iff (slot_lease run plan.lease) p s).1 (
      ground (arith, demand, v.children.count, v.policies.in_flight),
      known,
      calm,
      ground (arith, demand, chosen.fit.room, reported chosen.agent chosen.listed (sym chosen.id)),
    )
