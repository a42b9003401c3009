-- ===== src/Agent/NodeExamples.antt =====
-- Concrete runs of the interactive work, the templates and the preparation of internal/agent.
use k8s.Prelude.{
  ℕ, ◌≤◌, ◌≡◌, ◌∙◌, refl, ap, Bool, true, false, List, [], ◌∷◌, ◌++◌, none, some, length,
}
use k8s.Prelude.Int.{pos, ◌+ℤ◌, sub_ℤ}
use k8s.Prelude.Text.{Str, lit, str_eq, is_empty, strip_prefix}
use k8s.Prelude.StrMap.{find_key, store, remove}
use k8s.Errors.{ok}
use k8s.Fleet.Types.{Pressure, pressure_normal, critical}
use k8s.Fleet.Validate.{validate_pressure, valid_pressure}
use k8s.Agent.Slots.{Grant, SlotLimiter, new_slot_limiter, available, try_acquire, release, fire}
use k8s.Agent.Machine.Requests.{validate_remove_vm_request}
use k8s.Agent.Interactive.{
  SandboxCreateRequest, validate_create_request, validate_pinned_image, cut, contains_byte,
  is_hex_digit, hex_decodes,
}
use k8s.Agent.Sandboxes.{
  SandboxMap, Op, admitted, creating, removing, Work, WorkEvent, create_begins, create_reserves,
  create_ends, restored, remove_begins, remove_ends, move, moves, admit_one, reserve_sandbox,
  activate_sandbox, sandbox_release, finish_creation, finish_removal, take_op,
}
use k8s.Agent.Sandboxes.Invariant.{IsWork}
use k8s.Agent.Sandboxes.Steps.{moves-IsWork}
use k8s.Agent.Sandboxes.Capacity.{
  new_agent, new_agent-IsWork, holders, sandboxes_fit, slots_come_back,
}
use k8s.Agent.Toy.{entry_name}

abbrev pub quiet : Pressure
quiet = record { disk = pressure_normal; memory = pressure_normal }

abbrev pub image : Str
image = lit "registry/base@sha256:" ++ entry_name

abbrev pub create_request : SandboxCreateRequest
create_request = record { name = lit "box"; image = image; memory = [] }

abbrev pub two_slots : SlotLimiter
two_slots = record { total = pos 2; used = pos 0 }

-- A sandbox is created and removed while another of its name is refused.
abbrev busy_day : List WorkEvent
busy_day =
    create_begins create_request quiet
    ∷ create_begins create_request quiet
    ∷ create_reserves 0
    ∷ create_reserves 1
    ∷ create_ends 0 restored
    ∷ remove_begins (record { name = lit "box" })
    ∷ remove_ends 0 (ok tt)
    ∷ []

moves-IsWork_example : IsWork (moves busy_day (new_agent two_slots))
moves-IsWork_example = moves-IsWork busy_day (new_agent two_slots) (new_agent-IsWork two_slots)

two_slots_new : new_slot_limiter (pos 2) ≡ ok two_slots
unfolding new_slot_limiter
two_slots_new = refl

sandboxes_fit_example : length (holders (moves busy_day (new_agent two_slots))) ≤ 2
sandboxes_fit_example = sandboxes_fit 2 two_slots busy_day two_slots_new

step_to :
    (e : WorkEvent) (es : List WorkEvent) (w v z : Work)
    → move e w ≡ v
    → moves es v ≡ z
    → moves (e ∷ es) w ≡ z
unfolding moves
step_to e es w v z h k = ap (moves es) h ∙ k

abbrev at_work : ℕ → List Grant → SandboxMap → List Op → Work
at_work used grants sandboxes ops = record {
  agent = record {
    slots = record { limiter = record { total = pos 2; used = pos used }; grants = grants };
    sandboxes = sandboxes;
  };
  ops = ops;
}

abbrev grant : Bool → Grant
grant done = record { amount = pos 1; done = done }

abbrev box : Str
box = lit "box"

abbrev two_grants : List Grant
two_grants = grant false ∷ grant false ∷ []

abbrev admitted_one : Work
admitted_one = at_work 1 (grant false ∷ []) [] (admitted box 0 ∷ [])

abbrev admitted_two : Work
admitted_two = at_work 2 two_grants [] (admitted box 1 ∷ admitted box 0 ∷ [])

abbrev reserved_one : Work
reserved_one = at_work 2 two_grants ((box, none) ∷ []) (creating box 1 ∷ admitted box 0 ∷ [])

abbrev refused_other : Work
refused_other = at_work 1 (grant true ∷ grant false ∷ []) ((box, none) ∷ []) (creating box 1 ∷ [])

abbrev active_one : Work
active_one = at_work 1 (grant true ∷ grant false ∷ []) ((box, some 1) ∷ []) []

abbrev removing_one : Work
removing_one =
    at_work 1 (grant true ∷ grant false ∷ []) ((box, none) ∷ []) (removing box (some 1) ∷ [])

abbrev day_over : Work
day_over = at_work 0 (grant true ∷ grant true ∷ []) [] []

image_pinned : validate_create_request create_request ≡ ok tt
unfolding validate_create_request validate_pinned_image cut strip_prefix contains_byte hex_decodes
    is_hex_digit is_empty lit
image_pinned = refl

first_admitted : move (create_begins create_request quiet) (new_agent two_slots) ≡ admitted_one
unfolding move admit_one validate_pressure valid_pressure critical try_acquire available sub_ℤ ◌+ℤ◌
    str_eq lit
first_admitted = rw (image_pinned, move) refl

second_admitted : move (create_begins create_request quiet) admitted_one ≡ admitted_two
unfolding move admit_one validate_pressure valid_pressure critical try_acquire available sub_ℤ ◌+ℤ◌
    str_eq lit
second_admitted = rw (image_pinned, move) refl

first_reserved : move (create_reserves 0) admitted_two ≡ reserved_one
unfolding move take_op reserve_sandbox find_key store
first_reserved = refl

second_refused : move (create_reserves 1) reserved_one ≡ refused_other
unfolding move take_op reserve_sandbox find_key store release fire sub_ℤ str_eq lit
second_refused = refl

box_restored : move (create_ends 0 restored) refused_other ≡ active_one
unfolding move take_op finish_creation activate_sandbox store str_eq lit
box_restored = refl

box_removing : move (remove_begins (record { name = box })) active_one ≡ removing_one
unfolding move validate_remove_vm_request sandbox_release find_key store str_eq is_empty lit
box_removing = refl

box_removed : move (remove_ends 0 (ok tt)) removing_one ≡ day_over
unfolding move take_op finish_removal remove release fire sub_ℤ str_eq lit
box_removed = refl

done_with : (w : Work) → moves [] w ≡ w
unfolding moves
done_with w = refl

day_ends : moves busy_day (new_agent two_slots) ≡ day_over
day_ends = step_to _ _ _ admitted_one _ first_admitted (
    step_to _ _ _ admitted_two _ second_admitted (
      step_to _ _ _ reserved_one _ first_reserved (
        step_to _ _ _ refused_other _ second_refused (
          step_to _ _ _ active_one _ box_restored (
            step_to _ _ _ removing_one _ box_removing
              (step_to _ _ _ day_over _ box_removed (done_with day_over)))))))

slots_come_back_example :
    available (moves busy_day (new_agent two_slots)).agent.slots.limiter ≡ pos 2
slots_come_back_example =
    slots_come_back 2 two_slots busy_day two_slots_new (ap (λ w. w.ops) day_ends)
      (ap (λ w. w.agent.sandboxes) day_ends)
