-- ===== src/Agent/Examples.antt =====
-- Concrete runs of the code of internal/agent.
use mathlib.Core.List.{Mem, mem-cons, not-mem-nil}
use mathlib.Core.Logic.Or
use k8s.Fleet.Examples.{run_valid, plan, plan_built}
use k8s.Prelude.{
  ℕ, ◌^◌, ◌<◌, ◌≡◌, refl, ap, sym, subst, ◌∙◌, true, false, List, [], ◌∷◌, none, some, arith,
  length,
}
use k8s.Prelude.Int.{pos, ◌+ℤ◌, sub_ℤ, add_int, wrap_int, leb_ℤ, ◌≤ℤ◌}
use k8s.Prelude.Text.{Str, lit, str_eq, is_empty}
use k8s.Prelude.Base64
use k8s.Errors.{Error, ok, MachineErrorBody, machine_error}
use k8s.Fleet.Types.{
  Pressure, pressure_normal, critical, ShardLease, AttemptOutput, AttemptResult, AgentStatus,
}
use k8s.Fleet.Validate.{validate_pressure, valid_pressure}
use k8s.Fleet.Attempts.{validate_attempt_error}
use k8s.Fleet.Samples.{run, success, inventory, agent_a, agent_b, agent_c}
use k8s.Agent.Slots.{Slots, available, admit_shard, Event, admit, call_release, steps}
use k8s.Agent.Slots.Invariant.{IsSlots, held, steps-IsSlots}
use k8s.Agent.Slots.Admission.{slot_lease, planned_lease-admitted}
use k8s.Agent.Machine.{RunEvent, terminal, validate_event, validate_outcome, validate_machine_error}
use k8s.Agent.Output.{
  append_output_preview, stream_of, see, see_event, see_events, output_of,
  attempt_output_from_events,
}
use k8s.Agent.Output.Preview.{stream_bytes}
use k8s.Agent.Output.Summary.{Summarises, attempt_output-Summarises}
use k8s.Agent.Attempt.{as_machine_error, attempt_error, Settled, classify}
use k8s.Agent.Attempt.Outcome.{attempt_error-valid, IsSettled, classify-IsSettled}

abbrev calm : Pressure
calm = record { disk = pressure_normal; memory = pressure_normal }

abbrev lease : ℕ → ShardLease
lease n = record {
  run_id = run.run_id;
  bundle_digest = run.bundle.digest;
  shard_id = lit "run-1-shard-0000";
  child_start = pos 0;
  child_count = pos n;
  attempt_budget = pos 2;
  host_class_id = run.host_class.id;
  agent_id = lit "agent-b";
}

abbrev fresh : Slots
fresh = record { limiter = record { total = pos 4; used = pos 0 }; grants = [] }

fresh-IsSlots : IsSlots 4 fresh
unfolding held
fresh-IsSlots = record { total_eq = refl; used_eq = refl; fits = omega arith; amounts = tt }

abbrev work : List Event
work = admit (lease 3) calm ∷ call_release 0 ∷ admit (lease 2) calm ∷ call_release 0 ∷ []

steps-IsSlots_example : IsSlots 4 (steps work fresh)
steps-IsSlots_example = steps-IsSlots 4 work fresh fresh-IsSlots

abbrev busy : Slots
busy = record {
  limiter = record { total = pos 4; used = pos 3 };
  grants = record { amount = pos 3; done = false } ∷ [];
}

abbrev idle : Slots
idle = record {
  limiter = record { total = pos 4; used = pos 0 };
  grants = record { amount = pos 3; done = true } ∷ [];
}

idle-IsSlots : IsSlots 4 idle
unfolding held
idle-IsSlots = record {
  total_eq = refl;
  used_eq = refl;
  fits = omega arith;
  amounts = (omega arith, tt);
}

abbrev event : Str → Str → RunEvent
event name payload = record {
  schema = lit "spore.automation.event.v1";
  schema_version = pos 1;
  event = name;
  outcome = [];
  command = lit "run";
  requested_backend = [];
  backend = none;
  offset = 0;
  byte_count = pos 0;
  data_base64 = payload;
  exit_code = none;
  vcpus = 0;
  memory_bytes = 0;
  max_memory_bytes = 0;
  captured = false;
  capture_path = none;
  timings = none;
  error = none;
}

abbrev completion_base : RunEvent
completion_base = event (lit "completion") []

abbrev completion : RunEvent
completion = record completion_base { outcome = lit "completed"; exit_code = some (pos 0) }

abbrev events : List RunEvent
events =
    event (lit "output") (lit "aGk=")
    ∷ event (lit "stderr") (lit "bm8h")
    ∷ event (lit "stdout") (lit "IQ==")
    ∷ completion
    ∷ []

abbrev output : AttemptOutput
output = record {
  stdout_bytes = pos 3;
  stderr_bytes = pos 3;
  stdout_preview_base64 = lit "aGkh";
  stderr_preview_base64 = lit "bm8h";
  stdout_truncated = false;
  stderr_truncated = false;
}

events_output : attempt_output_from_events events ≡ ok (some output)
unfolding attempt_output_from_events see_events see_event see stream_of output_of
    append_output_preview Base64.decode Base64.encode lit str_eq is_empty add_int wrap_int ◌+ℤ◌
events_output = refl

stdout_small : length (stream_bytes (lit "stdout") events) < 2 ^ 63
unfolding stream_bytes stream_of Base64.decode lit str_eq is_empty
stdout_small = omega arith

stderr_small : length (stream_bytes (lit "stderr") events) < 2 ^ 63
unfolding stream_bytes stream_of Base64.decode lit str_eq is_empty
stderr_small = omega arith

attempt_output-Summarises_example : Summarises events output
attempt_output-Summarises_example =
    attempt_output-Summarises events output stdout_small stderr_small events_output

abbrev message : Error → Str
message x = lit "error"

message_nonempty : (x : Error) → is_empty (message x) ≡ false
unfolding is_empty lit
message_nonempty x = refl

abbrev body : MachineErrorBody
body = record {
  code = lit "host.unsupported";
  message = [];
  retry = lit "after_fix";
  retryable = false;
  scope = lit "host";
  exit_code = pos 1;
  source = [];
}

body_valid : validate_machine_error body ≡ ok tt
unfolding validate_machine_error is_empty lit str_eq
body_valid = refl

found-valid :
    (m : MachineErrorBody × Str)
    → as_machine_error (machine_error body []) ≡ some m
    → validate_machine_error m.0 ≡ ok tt
unfolding as_machine_error
found-valid m h = ap (λ b. validate_machine_error b) (sym (first_of h)) ∙ body_valid
  where
    first_of : some (body, []) ≡ some m → body ≡ m.0
    first_of e = cc

attempt_error-valid_example :
    validate_attempt_error (attempt_error message (machine_error body [])) (lit "error") ≡ ok tt
attempt_error-valid_example =
    attempt_error-valid message message_nonempty (machine_error body []) (lit "error") found-valid

completion_valid : validate_event completion ≡ ok tt
unfolding validate_event validate_outcome terminal is_empty lit str_eq
completion_valid = refl

completion_ends : terminal completion ≡ true
unfolding terminal lit str_eq
completion_ends = refl

abbrev delivered : AttemptResult
delivered = success run (pos 1) (pos 1)

abbrev started : AttemptResult
started = record delivered { terminal = false; result_uri = [] }

classify-IsSettled_example :
    (s : Settled) × (classify message run started completion none ≡ some s) × IsSettled run s
classify-IsSettled_example =
    classify-IsSettled message message_nonempty run started completion none completion_valid
      completion_ends refl tt

abbrev free : Slots
free = record { limiter = record { total = pos 4; used = pos 0 }; grants = [] }

calm_known : validate_pressure calm (lit "pressure") ≡ ok tt
unfolding validate_pressure valid_pressure lit str_eq
calm_known = refl

calm_quiet : critical calm ≡ false
unfolding critical lit str_eq
calm_quiet = refl

abbrev AtMostFour : AgentStatus → Type 0
AtMostFour a = leb_ℤ a.execution_slots.available (pos 4) ≡ true

four_prop : (a : AgentStatus) → IsProp (AtMostFour a)
four_prop a = hlevel

four-cons :
    (a b : AgentStatus) (l : List AgentStatus)
    → AtMostFour b
    → (Mem a l → AtMostFour a)
    → Mem a (b ∷ l)
    → AtMostFour a
four-cons a b l h k m =
    Or.elim (four_prop a) (mem-cons.0 m) (λ same. subst AtMostFour (sym same) h) k

inventory_small : (a : AgentStatus) → Mem a inventory → AtMostFour a
inventory_small a = four-cons a agent_b (agent_c ∷ agent_a ∷ []) refl (
    four-cons a agent_c (agent_a ∷ []) refl
      (four-cons a agent_a [] refl (λ nothing. absurd (not-mem-nil nothing))))

slots_reported :
    (a : AgentStatus)
    → Mem a inventory
    → a.agent_id ≡ plan.lease.agent_id
    → a.execution_slots.available ≤ℤ available free.limiter
unfolding available sub_ℤ
slots_reported a m e = ground (arith, inventory_small a m)

planned_lease-admitted_example :
    (admit_shard (slot_lease run plan.lease) calm free).0 ≡ ok (length free.grants)
planned_lease-admitted_example =
    planned_lease-admitted run inventory plan calm free run_valid (λ i. (plan, plan_built i))
      calm_known calm_quiet slots_reported
