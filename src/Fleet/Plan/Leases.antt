-- ===== src/Fleet/Plan/Leases.antt =====
-- Whether the agents admit the lease of a plan: ShardLease.Validate of internal/fleet/validate.go on what
-- internal/fleet/coordinator.go builds.
use k8s.Prelude.{
  ◌+◌, ◌≤◌, ◌≡◌, ◌↔◌, refl, sym, ap, subst, ◌∙◌, true, List, ◌++◌, none, arith, length, leb, all,
}
use k8s.Prelude.Text.{Str, lit, eq→str_eq}
use k8s.Prelude.Decimal.{decimal, pad_zeros}
use k8s.Errors.{ok}
use k8s.Fleet.Types.{AgentStatus, BundleRun, ShardLease, Plan, lease_range, end_of}
use k8s.Fleet.Patterns.{id_pattern, is_id_char}
use k8s.Fleet.Patterns.Ids.{id_pattern-append}
use k8s.Fleet.Validate.{validate_id, validate_bundle_run, validate_agent_status, validate_lease}
use k8s.Fleet.Validate.Spec.{validate_id_iff, validate_bundle_run_iff, validate_range_iff, IsRange}
use k8s.Fleet.Plan.{shard_id_of, build_single_agent_sequential_plan}
use k8s.Fleet.Plan.Choice.{CoversRun, build_plan-Chosen}

shard_suffix : (lit "-shard-" ++ pad_zeros 4 (decimal 0)) ≡ lit "-shard-0000"
unfolding lit pad_zeros decimal
shard_suffix = refl

shard_suffix_chars : all is_id_char (lit "-shard-0000") ≡ true
unfolding all is_id_char lit
shard_suffix_chars = refl

shard_suffix_length : length (lit "-shard-0000") ≡ 11
unfolding lit
shard_suffix_length = refl

-- The shard's id is an identifier exactly if the run's leaves room for its eleven characters.
id_pattern-shard_id_of :
    (run_id : Str)
    → id_pattern run_id ≡ true
    → id_pattern (shard_id_of run_id) ≡ leb (length run_id + 11) 128
unfolding shard_id_of
id_pattern-shard_id_of run_id h =
    ap (λ t. id_pattern (run_id ++ t)) shard_suffix
    ∙ id_pattern-append run_id (lit "-shard-0000") h shard_suffix_chars
    ∙ ap (λ n. leb (length run_id + n) 128) shard_suffix_length

valid_agent-id : (a : AgentStatus) → validate_agent_status a ≡ ok tt → id_pattern a.agent_id ≡ true
unfolding validate_agent_status
valid_agent-id a h = ground (arith, validate_id_iff a.agent_id (lit "agentID"))

covers_range :
    (run : BundleRun) (lease : ShardLease) → CoversRun run lease → lease_range lease ≡ run.children
unfolding lease_range
covers_range run lease c = ground (arith, c.start, c.count)

validate_covering_lease :
    (run : BundleRun) (lease : ShardLease)
    → validate_bundle_run run ≡ ok tt
    → CoversRun run lease
    → id_pattern lease.agent_id ≡ true
    → validate_lease lease run ≡ validate_id lease.shard_id (lit "shardLease.shardID")
unfolding validate_lease
validate_covering_lease run lease h c a =
    let v = (validate_bundle_run_iff run).0 h in
    ground (
      arith,
      h,
      eq→str_eq lease.run_id run.run_id c.run_id,
      eq→str_eq lease.bundle_digest run.bundle.digest c.digest,
      eq→str_eq lease.host_class_id run.host_class.id c.host_class,
      (validate_range_iff (lease_range lease) (lit "shardLease.children")).1
          (subst IsRange (sym (covers_range run lease c)) v.children),
      ap end_of (covers_range run lease c),
      v.policies.attempts,
      (validate_id_iff lease.agent_id (lit "shardLease.agentID")).1 a,
    )

-- For an admitted run, the lease of a plan passes ShardLease.Validate exactly if the run's id has
-- at most 117 characters.
pub build_plan-lease_iff :
    (run : BundleRun) (agents : List AgentStatus) (plan : Plan)
    → validate_bundle_run run ≡ ok tt
    → build_single_agent_sequential_plan run agents ≡ (plan, none)
    → (validate_lease plan.lease run ≡ ok tt) ↔ (length run.run_id ≤ 117)
build_plan-lease_iff run agents plan h built =
    let c = build_plan-Chosen run agents plan built in
    ground (
      arith,
      validate_covering_lease run plan.lease h c.covers
          (ap id_pattern c.id ∙ valid_agent-id c.agent c.fit.valid),
      validate_id_iff plan.lease.shard_id (lit "shardLease.shardID"),
      ap id_pattern c.covers.shard_id,
      id_pattern-shard_id_of run.run_id ((validate_bundle_run_iff run).0 h).run_id,
    )
