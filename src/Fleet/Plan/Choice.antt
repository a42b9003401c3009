-- ===== src/Fleet/Plan/Choice.antt =====
-- Which agent a plan chooses (internal/fleet/coordinator.go).
use mathlib.Core.List.{
  Mem, Pairwise-cons, mem-append, mem-cons, not-mem-nil, Pairwise-append, mem-cons_self,
}
use mathlib.Core.List.Perm
use mathlib.Core.Logic.Or
use k8s.Prelude.{
  ◌≡◌, ◌↔◌, refl, sym, subst, some, none, inl, inr, Option-cases, true, false, List, [], ◌∷◌, arith,
  length, All,
}
use k8s.Prelude.Int.{ℤ, min_ℤ, ◌≤ℤ◌}
use k8s.Prelude.Text.{str_lt, str_eq_iff}
use k8s.Prelude.TextOrder.{str_lt_irrefl}
use k8s.Errors.{ok}
use k8s.Fleet.Types.{
  AgentStatus, BundleRun, ShardLease, Plan, HostClass, host_class_equal, critical,
}
use k8s.Fleet.Validate.{validate_bundle_run, validate_agent_status}
use k8s.Fleet.Validate.Spec.{validate_bundle_run_iff}
use k8s.Fleet.Plan.{
  Candidate, Scan, id_lt, sort_agents, is_compatible, offered, scan_agents,
  first_candidate_with_capacity, required_in_flight_slots, candidate_agents, choose, start_scan,
  planned_lease, shard_id_of, build_single_agent_sequential_plan,
}
use k8s.Fleet.Plan.Sorting.{InOrder, sort_agents-InOrder, sort_agents-perm_self, not_before-prop}
use k8s.Fleet.Plan.Candidates.{HasRoom, Found, scan_agents_lem, first_candidate-Found}

-- An agent that can take the run: valid, healthy, under no critical pressure, of the run's host class, and
-- with slots for all children that may run at once.
pub record IsFit (run : BundleRun) (a : AgentStatus) : Type 0 where
  pub valid : validate_agent_status a ≡ ok tt
  pub healthy : a.healthy ≡ true
  pub calm : critical a.pressure ≡ false
  pub same_class : a.host_class ≡ run.host_class
  pub room :
      min_ℤ run.children.count run.execution.max_in_flight_per_agent ≤ℤ a.execution_slots.available

pub host_class_equal_iff : (h o : HostClass) → (host_class_equal h o ≡ true) ↔ (h ≡ o)
unfolding host_class_equal
host_class_equal_iff h o = ground (
  arith,
  str_eq_iff h.id o.id,
  str_eq_iff h.spore_platform_version o.spore_platform_version,
  str_eq_iff h.architecture o.architecture,
  str_eq_iff h.backend o.backend,
  str_eq_iff h.cpu_profile o.cpu_profile,
  str_eq_iff h.device_model o.device_model,
)

abbrev required : BundleRun → ℤ
required run = required_in_flight_slots run.children.count run.execution

IsFit-iff :
    (run : BundleRun) (a : AgentStatus)
    → validate_bundle_run run ≡ ok tt
    → validate_agent_status a ≡ ok tt
    → HasRoom run (required run) a ↔ IsFit run a
unfolding required_in_flight_slots is_compatible offered
IsFit-iff run a h k =
    let v = (validate_bundle_run_iff run).0 h in
    ground (
      arith,
      host_class_equal_iff a.host_class run.host_class,
      v.children.count,
      v.policies.in_flight,
    )

-- What the lease of a plan hands out: the whole run, its budget and its host class.
pub record CoversRun (run : BundleRun) (lease : ShardLease) : Type 0 where
  pub run_id : lease.run_id ≡ run.run_id
  pub digest : lease.bundle_digest ≡ run.bundle.digest
  pub shard_id : lease.shard_id ≡ shard_id_of run.run_id
  pub start : lease.child_start ≡ run.children.start
  pub count : lease.child_count ≡ run.children.count
  pub budget : lease.attempt_budget ≡ run.retry_policy.max_attempts_per_child
  pub host_class : lease.host_class_id ≡ run.host_class.id

planned_lease-CoversRun : (run : BundleRun) (c : Candidate) → CoversRun run (planned_lease run c)
unfolding planned_lease
planned_lease-CoversRun run c = record {
  run_id = refl;
  digest = refl;
  shard_id = refl;
  start = refl;
  count = refl;
  budget = refl;
  host_class = refl;
}

id_lt_irrefl : (a : AgentStatus) → id_lt a a ≡ false
unfolding id_lt
id_lt_irrefl a = str_lt_irrefl a.agent_id

-- A plan without an error comes from a loop without an error and its first candidate with capacity.
record Built (run : BundleRun) (agents : List AgentStatus) (plan : Plan) : Type 0 where
  admitted : validate_bundle_run run ≡ ok tt
  scan : Scan
  scanned : scan_agents run (start_scan (length agents)) (sort_agents agents) ≡ (scan, none)
  candidate : Candidate
  first : first_candidate_with_capacity scan.candidates (required run) ≡ some candidate
  lease : plan.lease ≡ planned_lease run candidate

build-Built :
    (run : BundleRun) (agents : List AgentStatus) (plan : Plan)
    → build_single_agent_sequential_plan run agents ≡ (plan, none)
    → Built run agents plan
unfolding build_single_agent_sequential_plan candidate_agents choose
build-Built run agents plan h =
    elim (Option-cases (
      first_candidate_with_capacity
        (scan_agents run (start_scan (length agents)) (sort_agents agents)).0.candidates
        (required run))) [
          | inl e ↦ absurd (ground (arith, e, h))
          | inr (c, e) ↦ record {
            admitted = ground (arith, h);
            scan = (scan_agents run (start_scan (length agents)) (sort_agents agents)).0;
            scanned = ground (arith, h);
            candidate = c;
            first = e;
            lease = ground (arith, h, e);
          }
        ]

valid-prop : (a : AgentStatus) → IsProp (validate_agent_status a ≡ ok tt)
valid-prop a = hlevel

All-mem :
    {P : AgentStatus → Type 0} (p : (a : AgentStatus) → IsProp (P a)) (l : List AgentStatus)
    → All P l
    → (a : AgentStatus) → Mem a l
    → P a
All-mem p [] h a m = absurd (not-mem-nil m)
All-mem {P} p (b ∷ l) h a m =
    Or.elim (p a) (mem-cons.0 m) (λ e. subst P (sym e) h.0) (All-mem p l h.1 a)

-- In a sorted list no agent with room has a lesser id than the first that is found.
Found-least :
    (run : BundleRun) (n : ℤ) (l : List AgentStatus) (c : Candidate)
    → InOrder l
    → Found run n l c
    → (b : AgentStatus) → HasRoom run n b
    → Mem b l
    → id_lt b c.status ≡ false
Found-least run n l c o f b room m =
    let at_split = subst InOrder f.splits o in
    Or.elim (not_before-prop c.status b) (mem-append.0 (subst (Mem b) f.splits m))
      (λ early. absurd (All-mem (λ a. hlevel) f.before f.none_before b early room))
      λ late.
        Or.elim (not_before-prop c.status b) (mem-cons.0 late)
          (λ same. subst (λ x. id_lt x c.status ≡ false) (sym same) (id_lt_irrefl c.status))
          ((Pairwise-cons.0
              ((Pairwise-append not_before-prop {l₁ = f.before} {l₂ = c.status ∷ f.after}).0
                at_split).1).0
            b)

pub record Chosen (run : BundleRun) (agents : List AgentStatus) (lease : ShardLease) : Type 0 where
  pub agent : AgentStatus
  pub listed : Mem agent agents
  pub fit : IsFit run agent
  pub id : lease.agent_id ≡ agent.agent_id
  pub covers : CoversRun run lease
  pub least :
      (b : AgentStatus) → Mem b agents → IsFit run b → str_lt b.agent_id agent.agent_id ≡ false

-- A plan without an error leases the whole run to one listed agent that can take it (valid,
-- healthy, under no critical pressure, of the same host class, and with room), and no listed agent
-- that can take it has a lesser id.
pub build_plan-Chosen :
    (run : BundleRun) (agents : List AgentStatus) (plan : Plan)
    → build_single_agent_sequential_plan run agents ≡ (plan, none)
    → Chosen run agents plan.lease
unfolding id_lt
build_plan-Chosen run agents plan h =
    let b = build-Built run agents plan h in
    let (candidates, valid) =
      scan_agents_lem run (sort_agents agents) (start_scan (length agents)) b.scan b.scanned in
    let f =
      first_candidate-Found run (required run) (sort_agents agents) b.candidate
        (rw candidates at b.first) in
    let within : Mem b.candidate.status (sort_agents agents) =
      subst (Mem b.candidate.status) (sym f.splits) (mem-append.1 (Or.inr mem-cons_self)) in
    record {
      agent = b.candidate.status;
      listed = (Perm.mem_iff (sort_agents-perm_self agents)).0 within;
      fit =
          (IsFit-iff run b.candidate.status b.admitted
              (All-mem valid-prop (sort_agents agents) valid b.candidate.status within)).0
            f.room;
      id = rw b.lease (unfold planned_lease in refl);
      covers = rw b.lease (planned_lease-CoversRun run b.candidate);
      least = λ other m fits.
          Found-least run (required run) (sort_agents agents) b.candidate
            (sort_agents-InOrder agents) f other
            ((IsFit-iff run other b.admitted fits.valid).1 fits)
            ((Perm.mem_iff (sort_agents-perm_self agents)).1 m);
    }
