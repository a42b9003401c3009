-- ===== src/Agent/Sandboxes.antt =====
-- The sandboxes that an agent owns and the interactive work in flight, in internal/agent/interactive.go:
-- `Runner.sandboxes` maps a name to the release closure of its slot, or to `none` while the sandbox is created
-- or removed. Each mutex makes one operation one step; a goroutine's local variables between two of them are
-- an operation in flight, so interleavings are the sequences of steps.
pub mod Counts
pub mod Invariant
pub mod Steps
pub mod Holders
pub mod Capacity
use k8s.Prelude.{ℕ, zero, suc, List, [], ◌∷◌, ◌++◌, Option, none, some, if◌then◌else◌}
use k8s.Prelude.Int.{pos}
use k8s.Prelude.Text.{Str, lit}
use k8s.Prelude.StrMap.{StrMap, find_key, store, remove}
use k8s.Errors.{
  Error, Checked, Result, ok, err, invalid_pressure, unsafe_pressure, invalid_spore_request,
  sandbox_exists, sandbox_busy,
}
use k8s.Fleet.Types.{Pressure, critical, ShardLease}
use k8s.Fleet.Validate.{validate_pressure}
use k8s.Agent.Slots.{Slots, granted, try_acquire, release, admit_shard}
use k8s.Agent.Machine.Requests.{RemoveVmRequest, validate_remove_vm_request}
use k8s.Agent.Interactive.{
  SandboxCreateRequest, RunRequest, validate_run_request, validate_create_request,
}

-- Runner.admitOne: the position of the release closure, or why the work is refused.
unfoldable pub admit_one : Pressure → Slots → Result ℕ × Slots
admit_one pressure s = elim (validate_pressure pressure (lit "pressure")) [
  | err e ↦ (err (invalid_pressure e), s)
  | ok _ ↦
      if critical pressure
      then (err unsafe_pressure, s)
      else granted (pos 1) s (try_acquire (pos 1) s.limiter)
]

abbrev pub SandboxMap : Type 0
SandboxMap = StrMap (Option ℕ)

-- Runner.reserveSandbox.
unfoldable pub reserve_sandbox : Str → SandboxMap → Result SandboxMap
reserve_sandbox name m = elim (find_key name m) [
  | some _ ↦ err (sandbox_exists name)
  | none ↦ ok (store name none m)
]

-- Runner.clearSandboxReservation.
unfoldable pub clear_sandbox_reservation : Str → SandboxMap → SandboxMap
clear_sandbox_reservation name m = remove name m

-- Runner.activateSandbox.
unfoldable pub activate_sandbox : Str → ℕ → SandboxMap → SandboxMap
activate_sandbox name k m = store name (some k) m

abbrev not_owned : Error
not_owned = invalid_spore_request (lit "sandbox is not owned by this agent")

-- Runner.sandboxReady.
unfoldable pub sandbox_ready : Str → SandboxMap → Checked
sandbox_ready name m = elim (find_key name m) [
  | none ↦ err not_owned
  | some none ↦ err (sandbox_busy name)
  | some (some k) ↦ ok tt
]

-- Runner.sandboxRelease: the closure of a sandbox that is tracked, which is marked busy.
unfoldable pub sandbox_release : Str → SandboxMap → Result (Option ℕ) × SandboxMap
sandbox_release name m = elim (find_key name m) [
  | none ↦ (ok none, m)
  | some none ↦ (err (sandbox_busy name), m)
  | some (some k) ↦ (ok (some k), store name none m)
]

pub record Agent : Type 0 where
  pub slots : Slots
  pub sandboxes : SandboxMap

-- What a goroutine holds between two steps: a shard's or a run's slot, the slot of a creation before and
-- behind its reservation, and what a removal got.
pub data Op : Type 0 where
  running : ℕ → Op
  admitted : Str → ℕ → Op
  creating : Str → ℕ → Op
  removing : Str → Option ℕ → Op

pub record Work : Type 0 where
  pub agent : Agent
  pub ops : List Op

-- How a creation went behind its reservation: no template, restored, or not restored with the machine
-- removed or not.
pub data Created : Type 0 where
  no_template : Created
  restored : Created
  cleaned_up : Created
  cleanup_failed : Created

pub data WorkEvent : Type 0 where
  shard_begins : ShardLease → Pressure → WorkEvent
  run_begins : RunRequest → Pressure → WorkEvent
  run_ends : ℕ → WorkEvent
  create_begins : SandboxCreateRequest → Pressure → WorkEvent
  create_reserves : ℕ → WorkEvent
  create_ends : ℕ → Created → WorkEvent
  remove_begins : RemoveVmRequest → WorkEvent
  remove_ends : ℕ → Checked → WorkEvent

-- The operation at a position, and the others.
unfoldable pub take_op : ℕ → List Op → Option (Op × List Op)
take_op i [] = none
take_op zero (o ∷ os) = some (o, os)
take_op (suc i) (o ∷ os) = elim (take_op i os) [ none ↦ none | some (p, rest) ↦ some (p, o ∷ rest) ]

abbrev begin_op : (ℕ → Op) → Work → Result ℕ × Slots → Work
begin_op f w (err e, s) = w
begin_op f w (ok k, s) = record {
  agent = record { slots = s; sandboxes = w.agent.sandboxes };
  ops = f k ∷ w.ops;
}

abbrev pub let_go : ℕ → Agent → Agent
let_go k a = record a { slots = release k a.slots }

abbrev pub with_sandboxes : SandboxMap → Agent → Agent
with_sandboxes m a = record a { sandboxes = m }

abbrev reserved : Str → ℕ → Agent → List Op → Result SandboxMap → Work
reserved name k a rest (err e) = record { agent = let_go k a; ops = rest }
reserved name k a rest (ok m) = record { agent = with_sandboxes m a; ops = creating name k ∷ rest }

-- The end of CreateSandbox: the sandbox is activated with its slot, or its reservation and its slot go.
unfoldable pub finish_creation : Str → ℕ → Created → Agent → Agent
finish_creation name k restored a = with_sandboxes (activate_sandbox name k a.sandboxes) a
finish_creation name k cleanup_failed a = with_sandboxes (activate_sandbox name k a.sandboxes) a
finish_creation name k no_template a =
    let_go k (with_sandboxes (clear_sandbox_reservation name a.sandboxes) a)
finish_creation name k cleaned_up a =
    let_go k (with_sandboxes (clear_sandbox_reservation name a.sandboxes) a)

abbrev removal : Str → Work → Result (Option ℕ) × SandboxMap → Work
removal name w (err e, m) = w
removal name w (ok got, m) = record {
  agent = with_sandboxes m w.agent;
  ops = removing name got ∷ w.ops;
}

-- The end of RemoveSandbox, by the result of removing the machine: a tracked sandbox is activated again or
-- leaves the map, and then its slot goes.
unfoldable pub finish_removal : Str → Option ℕ → Checked → Agent → Agent
finish_removal name none result a = a
finish_removal name (some k) (err e) a = with_sandboxes (activate_sandbox name k a.sandboxes) a
finish_removal name (some k) (ok _) a = let_go k (with_sandboxes (remove name a.sandboxes) a)

abbrev end_run : Work → Option (Op × List Op) → Work
end_run w (some (running k, rest)) = record { agent = let_go k w.agent; ops = rest }
end_run w _ = w

abbrev reserve_op : Work → Option (Op × List Op) → Work
reserve_op w (some (admitted name k, rest)) =
    reserved name k w.agent rest (reserve_sandbox name w.agent.sandboxes)
reserve_op w _ = w

abbrev end_creation : Created → Work → Option (Op × List Op) → Work
end_creation outcome w (some (creating name k, rest)) = record {
  agent = finish_creation name k outcome w.agent;
  ops = rest;
}
end_creation outcome w _ = w

abbrev end_removal : Checked → Work → Option (Op × List Op) → Work
end_removal result w (some (removing name got, rest)) = record {
  agent = finish_removal name got result w.agent;
  ops = rest;
}
end_removal result w _ = w

abbrev if_valid : Checked → Work → Work → Work
if_valid (ok _) w next = next
if_valid (err e) w next = w

unfoldable pub move : WorkEvent → Work → Work
move (shard_begins lease pressure) w = begin_op running w (admit_shard lease pressure w.agent.slots)
move (run_begins req pressure) w =
    if_valid (validate_run_request req) w (begin_op running w (admit_one pressure w.agent.slots))
move (run_ends i) w = end_run w (take_op i w.ops)
move (create_begins req pressure) w =
    if_valid (validate_create_request req) w
      (begin_op (admitted req.name) w (admit_one pressure w.agent.slots))
move (create_reserves i) w = reserve_op w (take_op i w.ops)
move (create_ends i outcome) w = end_creation outcome w (take_op i w.ops)
move (remove_begins req) w =
    if_valid (validate_remove_vm_request req) w
      (removal req.name w (sandbox_release req.name w.agent.sandboxes))
move (remove_ends i result) w = end_removal result w (take_op i w.ops)

unfoldable pub moves : List WorkEvent → Work → Work
moves [] w = w
moves (e ∷ es) w = moves es (move e w)
