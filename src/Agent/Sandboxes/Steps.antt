-- ===== src/Agent/Sandboxes/Steps.antt =====
-- Each step of the interactive work of internal/agent/interactive.go keeps who owns what.
use k8s.Prelude.{ℕ, ◌≡◌, refl, List, [], ◌∷◌, Option, none, some, arith, Option-cases, inl, inr}
use k8s.Prelude.Text.{Str}
use k8s.Prelude.StrMap.{find_key}
use k8s.Errors.{Checked, ok, err}
use k8s.Agent.Slots.{release}
use k8s.Agent.Sandboxes.{
  Op, running, admitted, creating, removing, Work, Created, no_template, restored, cleaned_up,
  cleanup_failed, WorkEvent, shard_begins, run_begins, run_ends, create_begins, create_reserves,
  create_ends, remove_begins, remove_ends, take_op, end_run, reserve_op, end_creation, end_removal,
  removal, if_valid, move, moves, reserve_sandbox, sandbox_release, activate_sandbox,
  clear_sandbox_reservation, finish_creation, finish_removal,
}
use k8s.Agent.Sandboxes.Invariant.{
  IsWork, admit_one-IsWork, admit_shard-IsWork, end-Balanced, activate-Balanced, drop-Balanced,
  reserve-Balanced, mark-Balanced,
}
use k8s.Agent.Interactive.{validate_run_request, validate_create_request}
use k8s.Agent.Machine.Requests.{validate_remove_vm_request}
use k8s.Agent.Sandboxes.Counts.{sum_ops, sum_ops-take_op, op_holds, op_owns}

if_valid-IsWork :
    (c : Checked) (w next : Work) → IsWork w → IsWork next → IsWork (if_valid c w next)
if_valid-IsWork (ok _) w next b b' = b'
if_valid-IsWork (err e) w next b b' = b

end_run-IsWork :
    (w : Work) (i : ℕ) (t : Option (Op × List Op))
    → take_op i w.ops ≡ t
    → IsWork w
    → IsWork (end_run w t)
unfolding release
end_run-IsWork w i none at b = b
end_run-IsWork w i (some (running j, rest)) at b =
    end-Balanced w.agent.sandboxes w.ops rest w.agent.slots.grants i j (running j) b at (λ k. refl)
      (λ name. refl)
end_run-IsWork w i (some (admitted n j, rest)) at b = b
end_run-IsWork w i (some (creating n j, rest)) at b = b
end_run-IsWork w i (some (removing n got, rest)) at b = b

reserve_op-IsWork :
    (w : Work) (i : ℕ) (t : Option (Op × List Op))
    → take_op i w.ops ≡ t
    → IsWork w
    → IsWork (reserve_op w t)
unfolding release reserve_sandbox
reserve_op-IsWork w i none at b = b
reserve_op-IsWork w i (some (running j, rest)) at b = b
reserve_op-IsWork w i (some (admitted n j, rest)) at b =
    elim (Option-cases (find_key n w.agent.sandboxes)) [
      | inl free ↦
          rw (free, reserve_sandbox)
            (reserve-Balanced w.agent.sandboxes w.ops rest w.agent.slots.grants i j n b at free)
      | inr (v, taken) ↦
          rw (taken, reserve_sandbox)
            (end-Balanced w.agent.sandboxes w.ops rest w.agent.slots.grants i j (admitted n j) b at
              (λ k. refl) (λ name. refl))
    ]
reserve_op-IsWork w i (some (creating n j, rest)) at b = b
reserve_op-IsWork w i (some (removing n got, rest)) at b = b

end_creation-IsWork :
    (outcome : Created) (w : Work) (i : ℕ) (t : Option (Op × List Op))
    → take_op i w.ops ≡ t
    → IsWork w
    → IsWork (end_creation outcome w t)
unfolding release finish_creation activate_sandbox clear_sandbox_reservation
end_creation-IsWork outcome w i none at b = b
end_creation-IsWork outcome w i (some (running j, rest)) at b = b
end_creation-IsWork outcome w i (some (admitted n j, rest)) at b = b
end_creation-IsWork no_template w i (some (creating n j, rest)) at b =
    drop-Balanced w.agent.sandboxes w.ops rest w.agent.slots.grants i j n (creating n j) b at
      (λ k. refl) (λ name. refl)
end_creation-IsWork cleaned_up w i (some (creating n j, rest)) at b =
    drop-Balanced w.agent.sandboxes w.ops rest w.agent.slots.grants i j n (creating n j) b at
      (λ k. refl) (λ name. refl)
end_creation-IsWork restored w i (some (creating n j, rest)) at b =
    activate-Balanced w.agent.sandboxes w.ops rest w.agent.slots.grants i j n (creating n j) b at
      (λ k. refl) (λ name. refl)
end_creation-IsWork cleanup_failed w i (some (creating n j, rest)) at b =
    activate-Balanced w.agent.sandboxes w.ops rest w.agent.slots.grants i j n (creating n j) b at
      (λ k. refl) (λ name. refl)
end_creation-IsWork outcome w i (some (removing n got, rest)) at b = b

end_removal-IsWork :
    (result : Checked) (w : Work) (i : ℕ) (t : Option (Op × List Op))
    → take_op i w.ops ≡ t
    → IsWork w
    → IsWork (end_removal result w t)
unfolding release finish_removal activate_sandbox
end_removal-IsWork result w i none at b = b
end_removal-IsWork result w i (some (running j, rest)) at b = b
end_removal-IsWork result w i (some (admitted n j, rest)) at b = b
end_removal-IsWork result w i (some (creating n j, rest)) at b = b
end_removal-IsWork result w i (some (removing n none, rest)) at b = record {
  slots = λ k.
      ground (arith, b.slots k, sum_ops-take_op (op_holds k) i w.ops (removing n none) rest at);
  busy = λ name.
      ground (arith, b.busy name, sum_ops-take_op (op_owns name) i w.ops (removing n none) rest at);
  named = b.named;
}
end_removal-IsWork (ok _) w i (some (removing n (some j), rest)) at b =
    drop-Balanced w.agent.sandboxes w.ops rest w.agent.slots.grants i j n (removing n (some j)) b at
      (λ k. refl) (λ name. refl)
end_removal-IsWork (err e) w i (some (removing n (some j), rest)) at b =
    activate-Balanced w.agent.sandboxes w.ops rest w.agent.slots.grants i j n (removing n (some j))
      b at (λ k. refl) (λ name. refl)

removal-IsWork :
    (n : Str) (w : Work) (v : Option (Option ℕ))
    → find_key n w.agent.sandboxes ≡ v
    → IsWork w
    → IsWork (removal n w (sandbox_release n w.agent.sandboxes))
unfolding sandbox_release sum_ops
removal-IsWork n w none e b =
    rw (e, sandbox_release)
      (record {
        slots = λ k. ground (arith, b.slots k);
        busy = λ name. ground (arith, b.busy name);
        named = b.named;
      })
removal-IsWork n w (some none) e b = rw (e, sandbox_release) b
removal-IsWork n w (some (some j)) e b =
    rw (e, sandbox_release) (mark-Balanced w.agent.sandboxes w.ops w.agent.slots.grants j n b e)

move-IsWork : (e : WorkEvent) (w : Work) → IsWork w → IsWork (move e w)
unfolding move
move-IsWork (shard_begins lease p) w b =
    admit_shard-IsWork running w p (λ j k. refl) (λ j name. refl) b lease
move-IsWork (run_begins req p) w b =
    if_valid-IsWork (validate_run_request req) w _ b
      (admit_one-IsWork running w p (λ j k. refl) (λ j name. refl) b)
move-IsWork (run_ends i) w b = end_run-IsWork w i (take_op i w.ops) refl b
move-IsWork (create_begins req p) w b =
    if_valid-IsWork (validate_create_request req) w _ b
      (admit_one-IsWork (admitted req.name) w p (λ j k. refl) (λ j name. refl) b)
move-IsWork (create_reserves i) w b = reserve_op-IsWork w i (take_op i w.ops) refl b
move-IsWork (create_ends i outcome) w b = end_creation-IsWork outcome w i (take_op i w.ops) refl b
move-IsWork (remove_begins req) w b =
    if_valid-IsWork (validate_remove_vm_request req) w _ b
      (removal-IsWork req.name w (find_key req.name w.agent.sandboxes) refl b)
move-IsWork (remove_ends i result) w b = end_removal-IsWork result w i (take_op i w.ops) refl b

-- Over any interleaving of the steps of shards, runs, and creations and removals of sandboxes,
-- each release closure not yet called is held by exactly one sandbox or operation, each busy name
-- is owned by exactly one creation or removal, and each name stands once.
pub moves-IsWork : (es : List WorkEvent) (w : Work) → IsWork w → IsWork (moves es w)
unfolding moves
moves-IsWork [] w b = b
moves-IsWork (e ∷ es) w b = moves-IsWork es (move e w) (move-IsWork e w b)
