-- ===== src/Agent/Sandboxes/Capacity.antt =====
-- The slots of an agent under its interactive work, internal/agent/interactive.go: how many sandboxes and
-- operations they bound, and that they all come back.
use k8s.Prelude.{
  ℕ, ◌≤◌, ◌≡◌, refl, List, [], ◌∷◌, ◌++◌, Option, none, some, arith, length, Bool-cases, inl, inr,
}
use k8s.Prelude.Int.{pos}
use k8s.Prelude.Text.{Str, lit}
use k8s.Prelude.StrMap.{total}
use k8s.Errors.{Checked, Result, ok, err, Result-cases}
use k8s.Fleet.Types.{Pressure, critical}
use k8s.Fleet.Validate.{validate_pressure}
use k8s.Agent.Slots.{SlotLimiter, new_slot_limiter, Slots, available}
use k8s.Agent.Slots.Invariant.{
  IsSlots, granted-IsSlots, admit_shard-IsSlots, release-IsSlots, available_once_released,
  new_slot_limiter-IsSlots,
}
use k8s.Agent.Interactive.{validate_run_request, validate_create_request}
use k8s.Agent.Machine.Requests.{validate_remove_vm_request}
use k8s.Agent.Sandboxes.{
  SandboxMap, Op, running, admitted, creating, removing, Work, Created, no_template, restored,
  cleaned_up, cleanup_failed, WorkEvent, shard_begins, run_begins, run_ends, create_begins,
  create_reserves, create_ends, remove_begins, remove_ends, take_op, end_run, reserve_op,
  end_creation, end_removal, removal, if_valid, move, moves, reserve_sandbox, begin_op,
  finish_creation, finish_removal, admit_one,
}
use k8s.Agent.Sandboxes.Counts.{open_at, sum_ops}
use k8s.Agent.Sandboxes.Invariant.{IsWork}
use k8s.Agent.Sandboxes.Steps.{moves-IsWork}
use k8s.Agent.Sandboxes.Holders.{
  held_by_sandboxes, held_by_ops, occurrences, occurrences-append, sandboxes_occurrences,
  ops_occurrences, holders≤held, none_open→done,
}

-- A new agent with a limiter.
abbrev pub new_agent : SlotLimiter → Work
new_agent l = record {
  agent = record { slots = record { limiter = l; grants = [] }; sandboxes = [] };
  ops = [];
}

module _ (n : ℕ) where
  admit_one-IsSlots : (p : Pressure) (s : Slots) → IsSlots n s → IsSlots n (admit_one p s).1
  unfolding admit_one
  admit_one-IsSlots p s v = elim (Result-cases (validate_pressure p (lit "pressure"))) [
    | inl (e, bad) ↦ rw (bad, admit_one) v
    | inr (_, good) ↦ elim (Bool-cases (critical p)) [
      | inl unsafe ↦ rw (good, unsafe, admit_one) v
      | inr safe ↦ rw (good, safe, admit_one) (granted-IsSlots n (pos 1) s v)
    ]
  ]

  started-IsSlots :
      (f : ℕ → Op) (w : Work) (r : Result ℕ × Slots)
      → IsSlots n w.agent.slots
      → IsSlots n r.1
      → IsSlots n (begin_op f w r).agent.slots
  started-IsSlots f w (err e, s) v v' = v
  started-IsSlots f w (ok k, s) v v' = v'

  if_valid-IsSlots :
      (c : Checked) (w next : Work)
      → IsSlots n w.agent.slots
      → IsSlots n next.agent.slots
      → IsSlots n (if_valid c w next).agent.slots
  if_valid-IsSlots (ok _) w next v v' = v'
  if_valid-IsSlots (err e) w next v v' = v

  end_run-IsSlots :
      (w : Work) (t : Option (Op × List Op))
      → IsSlots n w.agent.slots
      → IsSlots n (end_run w t).agent.slots
  end_run-IsSlots w none v = v
  end_run-IsSlots w (some (running k, rest)) v = release-IsSlots n k w.agent.slots v
  end_run-IsSlots w (some (admitted name k, rest)) v = v
  end_run-IsSlots w (some (creating name k, rest)) v = v
  end_run-IsSlots w (some (removing name got, rest)) v = v

  reserve_op-IsSlots :
      (w : Work) (t : Option (Op × List Op))
      → IsSlots n w.agent.slots
      → IsSlots n (reserve_op w t).agent.slots
  reserve_op-IsSlots w none v = v
  reserve_op-IsSlots w (some (running k, rest)) v = v
  reserve_op-IsSlots w (some (admitted name k, rest)) v =
      elim (Result-cases (reserve_sandbox name w.agent.sandboxes)) [
        | inl (e, refused) ↦ rw (refused) (release-IsSlots n k w.agent.slots v)
        | inr (m, free) ↦ rw (free) v
      ]
  reserve_op-IsSlots w (some (creating name k, rest)) v = v
  reserve_op-IsSlots w (some (removing name got, rest)) v = v

  end_creation-IsSlots :
      (outcome : Created) (w : Work) (t : Option (Op × List Op))
      → IsSlots n w.agent.slots
      → IsSlots n (end_creation outcome w t).agent.slots
  unfolding finish_creation
  end_creation-IsSlots outcome w none v = v
  end_creation-IsSlots outcome w (some (running k, rest)) v = v
  end_creation-IsSlots outcome w (some (admitted name k, rest)) v = v
  end_creation-IsSlots no_template w (some (creating name k, rest)) v =
      release-IsSlots n k w.agent.slots v
  end_creation-IsSlots restored w (some (creating name k, rest)) v = v
  end_creation-IsSlots cleaned_up w (some (creating name k, rest)) v =
      release-IsSlots n k w.agent.slots v
  end_creation-IsSlots cleanup_failed w (some (creating name k, rest)) v = v
  end_creation-IsSlots outcome w (some (removing name got, rest)) v = v

  end_removal-IsSlots :
      (result : Checked) (w : Work) (t : Option (Op × List Op))
      → IsSlots n w.agent.slots
      → IsSlots n (end_removal result w t).agent.slots
  unfolding finish_removal
  end_removal-IsSlots result w none v = v
  end_removal-IsSlots result w (some (running k, rest)) v = v
  end_removal-IsSlots result w (some (admitted name k, rest)) v = v
  end_removal-IsSlots result w (some (creating name k, rest)) v = v
  end_removal-IsSlots result w (some (removing name none, rest)) v = v
  end_removal-IsSlots (ok _) w (some (removing name (some k), rest)) v =
      release-IsSlots n k w.agent.slots v
  end_removal-IsSlots (err e) w (some (removing name (some k), rest)) v = v

  removal-IsSlots :
      (name : Str) (w : Work) (r : Result (Option ℕ) × SandboxMap)
      → IsSlots n w.agent.slots
      → IsSlots n (removal name w r).agent.slots
  removal-IsSlots name w (err e, m) v = v
  removal-IsSlots name w (ok got, m) v = v

  move-IsSlots :
      (e : WorkEvent) (w : Work) → IsSlots n w.agent.slots → IsSlots n (move e w).agent.slots
  unfolding move
  move-IsSlots (shard_begins lease p) w v =
      started-IsSlots running w _ v (admit_shard-IsSlots n lease p w.agent.slots v)
  move-IsSlots (run_begins req p) w v =
      if_valid-IsSlots (validate_run_request req) w _ v
        (started-IsSlots running w _ v (admit_one-IsSlots p w.agent.slots v))
  move-IsSlots (run_ends i) w v = end_run-IsSlots w (take_op i w.ops) v
  move-IsSlots (create_begins req p) w v =
      if_valid-IsSlots (validate_create_request req) w _ v
        (started-IsSlots (admitted req.name) w _ v (admit_one-IsSlots p w.agent.slots v))
  move-IsSlots (create_reserves i) w v = reserve_op-IsSlots w (take_op i w.ops) v
  move-IsSlots (create_ends i outcome) w v = end_creation-IsSlots outcome w (take_op i w.ops) v
  move-IsSlots (remove_begins req) w v =
      if_valid-IsSlots (validate_remove_vm_request req) w _ v (removal-IsSlots req.name w _ v)
  move-IsSlots (remove_ends i result) w v = end_removal-IsSlots result w (take_op i w.ops) v

  moves-IsSlots :
      (es : List WorkEvent) (w : Work)
      → IsSlots n w.agent.slots
      → IsSlots n (moves es w).agent.slots
  unfolding moves
  moves-IsSlots [] w v = v
  moves-IsSlots (e ∷ es) w v = moves-IsSlots es (move e w) (move-IsSlots e w v)

pub new_agent-IsWork : (l : SlotLimiter) → IsWork (new_agent l)
unfolding total sum_ops open_at
new_agent-IsWork l = record { slots = λ k. refl; busy = λ name. refl; named = λ name. omega arith }

-- Who holds a slot.
abbrev pub holders : Work → List ℕ
holders w = held_by_sandboxes w.agent.sandboxes ++ held_by_ops w.ops

holders_counted :
    (w : Work) (k : ℕ) → IsWork w → occurrences k (holders w) ≡ open_at k w.agent.slots.grants
holders_counted w k b = omega (
  arith,
  occurrences-append k (held_by_sandboxes w.agent.sandboxes) (held_by_ops w.ops),
  sandboxes_occurrences k w.agent.sandboxes,
  ops_occurrences k w.ops,
  b.slots k,
)

-- Whatever a new agent with a number of slots is asked to do, and in whatever interleaving, its
-- active sandboxes and the operations that hold a slot are together at most that number.
pub sandboxes_fit :
    (n : ℕ) (l : SlotLimiter) (es : List WorkEvent)
    → new_slot_limiter (pos n) ≡ ok l
    → length (holders (moves es (new_agent l))) ≤ n
sandboxes_fit n l es h =
    let w = moves es (new_agent l) in
    let v = moves-IsSlots n es (new_agent l) (new_slot_limiter-IsSlots n l h) in
    let b = moves-IsWork es (new_agent l) (new_agent-IsWork l) in
    omega (
      arith,
      v.fits,
      holders≤held (holders w) w.agent.slots.grants v.amounts (λ k. holders_counted w k b),
    )

-- Whatever a new agent has been asked to do, once no operation is in flight and no sandbox is
-- left, all of its slots are available again.
pub slots_come_back :
    (n : ℕ) (l : SlotLimiter) (es : List WorkEvent)
    → new_slot_limiter (pos n) ≡ ok l
    → (moves es (new_agent l)).ops ≡ []
    → (moves es (new_agent l)).agent.sandboxes ≡ []
    → available (moves es (new_agent l)).agent.slots.limiter ≡ pos n
unfolding total sum_ops
slots_come_back n l es h quiet empty =
    let w = moves es (new_agent l) in
    let v = moves-IsSlots n es (new_agent l) (new_slot_limiter-IsSlots n l h) in
    let b = moves-IsWork es (new_agent l) (new_agent-IsWork l) in
    available_once_released n w.agent.slots v
      (none_open→done w.agent.slots.grants (λ k. ground (arith, b.slots k, quiet, empty)))
