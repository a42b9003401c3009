-- ===== src/Agent/ChildExamples.antt =====
-- A concrete attempt of internal/agent/runtime.go at a child that was prepared on the node.
use k8s.Prelude.{◌≡◌, refl, ap, subst, false, List, [], ◌∷◌, Option, none, some, ◌⊎◌}
use k8s.Prelude.Int.{pos}
use k8s.Prelude.Text.{Str, lit, str_eq, is_empty}
use k8s.Errors.{Error, ok, err}
use k8s.Fleet.Types.{AttemptResult}
use k8s.Fleet.Samples.{run}
use k8s.Agent.Machine.{terminal_event, find_terminal, terminal, validate_event, validate_outcome}
use k8s.Agent.Attempt.{RunChildRequest, classify, completed_result, settle}
use k8s.Agent.Client.{ResultStore}
use k8s.Agent.AttemptRecord.{record_attempt, observe_attempt, recorded}
use k8s.Agent.Child.{
  attempt_child, with_existing, run_missing, run_local, run_in, resumed, execute_child, conclude,
  with_terminal, with_output, settled_as, finish_attempt, committed_as, validate_prepared_child_dir,
}
use k8s.Agent.Output.{attempt_output_from_events, see_events, see_event, stream_of}
use k8s.Agent.Child.Recorded.{attempt_child-Stored}
use k8s.Agent.Sandboxes.{shard_begins, run_ends, moves}
use k8s.Agent.Handlers.Refinement.{alone}
use k8s.Agent.Shard.{RunShardRequest, admit_lease, demand_lease, run_shard_lease}
use k8s.Agent.Shard.Slots.{run_shard_lease-moves}
use k8s.Agent.Shard.Slice.{FillsSlice, run_shard_lease-results}
use k8s.Agent.Toy.{Toy, toy_config, toy_results}
use k8s.Agent.NodeExamples.{quiet}
use k8s.Agent.StoreExamples.{node}

abbrev request : RunChildRequest
request = record {
  run = run;
  lease = record {
    run_id = run.run_id;
    bundle_digest = run.bundle.digest;
    shard_id = lit "run-1-shard-0000";
    child_start = pos 0;
    child_count = pos 2;
    attempt_budget = pos 2;
    host_class_id = run.host_class.id;
    agent_id = lit "agent-b";
  };
  child_id = pos 1;
  attempt = pos 1;
  pressure = quiet;
  region = [];
  allow_metadata_only_rootfs = false;
  backend = lit "kvm";
  local_children_dir = lit "/work/run-1/children";
}

-- The texts of errors.
abbrev silent : Error → Str
silent e = []

-- The last write holds the result.
abbrev Stored : AttemptResult → Toy → Type 0
Stored r w = (rest : List AttemptResult) × (w.stored ≡ r ∷ rest)

abbrev result : AttemptResult
result = (attempt_child toy_config silent request node).0.0

ended_well : (attempt_child toy_config silent request node).0.1 ≡ ok tt
unfolding attempt_child with_existing run_missing run_local run_in resumed execute_child conclude
    with_terminal with_output settled_as finish_attempt committed_as record_attempt observe_attempt
    validate_prepared_child_dir terminal_event find_terminal terminal validate_event
    validate_outcome attempt_output_from_events classify completed_result settle is_empty lit str_eq
    see_events see_event stream_of recorded
ended_well = refl

same_store : (s : ResultStore Toy) → some toy_results ≡ some s → toy_results ≡ s
same_store s h = ap (λ o. elim o [ none ↦ toy_results | some x ↦ x ]) h

attempt_child-Stored_example : Stored result (attempt_child toy_config silent request node).1.world
attempt_child-Stored_example =
    attempt_child-Stored toy_config silent Stored
      (λ s r a w there h.
        subst (λ t. Stored a (t.write_attempt_result r a w).1) (same_store s there)
          (w.stored, refl))
      (λ sink m r w there h. absurd cc) (λ path r w h. h) (λ path r w h. h) request node result
      (ap (λ e. (result, e)) ended_well)

-- The context does not end.
abbrev not_ended : Toy → Option Error
not_ended w = none

abbrev shard_request : RunShardRequest
shard_request = record {
  run = run;
  lease = request.lease;
  attempt = pos 1;
  pressure = quiet;
  region = [];
  allow_metadata_only_rootfs = false;
  backend = lit "kvm";
  local_children_dir = lit "/work/run-1/children";
}

run_shard_lease-moves_example :
    (moves (shard_begins (demand_lease shard_request) quiet ∷ run_ends 0 ∷ []) (alone node.agent)
      ≡ alone (run_shard_lease toy_config silent not_ended shard_request node).1.agent)
    ⊎ (((run_shard_lease toy_config silent not_ended shard_request node).1 ≡ node)
        × ((e : Error) × ((run_shard_lease toy_config silent not_ended shard_request node).0
              ≡ ([], err e))))
run_shard_lease-moves_example = run_shard_lease-moves toy_config silent not_ended shard_request node

run_shard_lease-results_example :
    FillsSlice toy_config silent not_ended shard_request 0 2
      (admit_lease toy_config silent (demand_lease shard_request) quiet node).1
      (run_shard_lease toy_config silent not_ended shard_request node).0
    ⊎ ((e : Error) × ((run_shard_lease toy_config silent not_ended shard_request node).0
          ≡ ([], err e)))
run_shard_lease-results_example =
    run_shard_lease-results toy_config silent not_ended shard_request node 0 2 refl refl
