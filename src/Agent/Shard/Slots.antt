-- ===== src/Agent/Shard/Slots.antt =====
-- What RunShard of internal/agent/runtime.go leaves of the agent.
use k8s.Prelude.{◌≡◌, refl, ◌||◌, List, [], ◌∷◌, Option, arith, Bool-cases, ◌⊎◌, inl, inr}
use k8s.Prelude.Int.{ℤ, pos, ltb_ℤ, pos_part, sub_ℤ}
use k8s.Prelude.Text.{Str}
use k8s.Errors.{Error, err, Result-cases, invalid_lease}
use k8s.Fleet.Types.{Pressure, ShardLease}
use k8s.Fleet.Validate.{validate_lease}
use k8s.Agent.Slots.{Slots, try_acquire, admit_shard}
use k8s.Agent.Sandboxes.{shard_begins, run_ends, take_op, move, moves}
use k8s.Agent.Client.{Config, Node}
use k8s.Agent.Handlers.{set_agent}
use k8s.Agent.Handlers.Refinement.{alone}
use k8s.Agent.Child.Frame.{attempt_child-Same}
use k8s.Agent.Shard.{
  RunShardRequest, child_request, child_ids, Batch, noted, zeros, run_child, run_jobs,
  run_shard_lease, demand_lease,
}

-- An admission that fails leaves the slots as they are.
admit_shard_refused :
    (lease : ShardLease) (p : Pressure) (s : Slots) (e : Error)
    → (admit_shard lease p s).0 ≡ err e
    → (admit_shard lease p s).1 ≡ s
unfolding admit_shard try_acquire
admit_shard_refused lease p s e h = ground (arith, h)

module _ {W : Type 0} (config : Config W) (message : Error → Str) where
  run_child-Same : (req : _) (n : Node W) → (run_child config message req n).1.agent ≡ n.agent
  unfolding run_child
  run_child-Same req n = ground (arith, attempt_child-Same config message req n)

  module _ (ctx_err : W → Option Error) where
    jobs-Same :
        (req : RunShardRequest) (children : List ℤ) (b : Batch) (n : Node W)
        → (run_jobs config message ctx_err req children b n).1.agent ≡ n.agent
    unfolding run_jobs
    jobs-Same req [] b n = refl
    jobs-Same req (child ∷ children) b n =
        let ended = run_child config message (child_request req child) n in
        let b' = noted (pos_part (sub_ℤ child req.lease.child_start)) ended.0 b in
        ground
          (arith, jobs-Same req children b' ended.1, run_child-Same (child_request req child) n)

    -- A call of RunShard, whose jobs run to their end one after the other, leaves the slots and
    -- the sandboxes as its two steps do, the admission and the call of its release closure; or it
    -- changes nothing, and returns no result and an error.
    pub run_shard_lease-moves :
        (req : RunShardRequest) (n : Node W)
        → (moves (shard_begins (demand_lease req) req.pressure ∷ run_ends 0 ∷ []) (alone n.agent)
            ≡ alone (run_shard_lease config message ctx_err req n).1.agent)
          ⊎ (((run_shard_lease config message ctx_err req n).1 ≡ n)
              × ((e : Error) × ((run_shard_lease config message ctx_err req n).0 ≡ ([], err e))))
    unfolding moves move run_shard_lease take_op
    run_shard_lease-moves req n =
        let lease = demand_lease req in
        elim (Result-cases (validate_lease req.lease req.run)) [
          | inl (e, bad) ↦ inr (ground (arith, bad), (e, ground (arith, bad)))
          | inr (_, good) ↦
              elim (Bool-cases
                (ltb_ℤ req.attempt (pos 1) || ltb_ℤ req.lease.attempt_budget req.attempt)) [
                  | inl outside ↦ inr (
                    ground (arith, good, outside),
                    (invalid_lease, ground (arith, good, outside)),
                  )
                  | inr inside ↦
                      elim (Result-cases (admit_shard lease req.pressure n.agent.slots).0) [
                        | inl (e, refused) ↦ inr (
                          ground (
                            arith,
                            good,
                            inside,
                            refused,
                            admit_shard_refused lease req.pressure n.agent.slots e refused,
                          ),
                          (e, ground (arith, good, inside, refused)),
                        )
                        | inr (slot, admitted) ↦
                            let s : Node W =
                              set_agent
                                (record {
                                  slots = (admit_shard lease req.pressure n.agent.slots).1;
                                  sandboxes = n.agent.sandboxes;
                                })
                                n in
                            inl (
                              ground (
                                arith,
                                good,
                                inside,
                                admitted,
                                jobs-Same req (child_ids req.lease)
                                    (zeros (pos_part req.lease.child_count), []) s,
                              ))
                      ]
                ]
        ]
