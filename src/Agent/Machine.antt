-- ===== src/Agent/Machine.antt =====
-- The run events and the errors of the virtual machine's command: internal/agent/machine.go. `uint64` and
-- `uint32` fields are natural numbers. The text of an error leaves out the values that Go prints into it.
pub mod Stream
pub mod Requests
pub mod Documents
pub mod HostInfo
use k8s.Prelude.{
  ℕ, Bool, true, false, ◌&&◌, ◌||◌, not, List, [], ◌∷◌, Option, none, some, if◌then◌else◌,
}
use k8s.Prelude.Int.{ℤ, pos, eq_ℤ}
use k8s.Prelude.Text.{Str, lit, str_eq, is_empty, is_some}
use k8s.Errors.{
  Error, Checked, Result, ok, err, MachineErrorBody, invalid_machine_output, no_terminal_event,
  ◌>>=◌, ◌>>◌, fail_if,
}

pub record RunEventTimings : Type 0 where
  pub start_ms : ℕ
  pub vsock_connect_ms : ℕ
  pub exec_response_ms : ℕ
  pub probe_duration_ms : ℕ

pub record RunEvent : Type 0 where
  pub schema : Str
  pub schema_version : ℤ
  pub event : Str
  pub outcome : Str
  pub command : Str
  pub requested_backend : Str
  pub backend : Option Str
  pub offset : ℕ
  pub byte_count : ℤ
  pub data_base64 : Str
  pub exit_code : Option ℤ
  pub vcpus : ℕ
  pub memory_bytes : ℕ
  pub max_memory_bytes : ℕ
  pub captured : Bool
  pub capture_path : Option Str
  pub timings : Option RunEventTimings
  pub error : Option MachineErrorBody

-- The classification of a machine error: MachineErrorBody.Validate.
abbrev retry_known : Str → Bool
retry_known r =
    str_eq r (lit "after_fix") || (str_eq r (lit "transient") || str_eq r (lit "unknown"))

abbrev same : Bool → Bool → Bool
same true b = b
same false b = not b

unfoldable pub validate_machine_error : MachineErrorBody → Checked
validate_machine_error e = do
  fail_if (is_empty e.code || (is_empty e.scope || is_empty e.retry))
      (invalid_machine_output (lit "machine error is missing code, scope, or retry classification"))
  fail_if (not (retry_known e.retry)) (invalid_machine_output (lit "machine error retry"))
  fail_if (not (same e.retryable (str_eq e.retry (lit "transient"))))
      (invalid_machine_output (lit "machine error retryable does not match retry classification"))

-- RunEvent.Terminal.
unfoldable pub terminal : RunEvent → Bool
terminal e = str_eq e.event (lit "completion")

abbrev pub check_failure : MachineErrorBody → ℤ → Checked
check_failure body code = do
  validate_machine_error body
  fail_if (not (eq_ℤ body.exit_code code))
      (invalid_machine_output (lit "completion exit_code does not match error exit_code"))

abbrev pub check_error : Option MachineErrorBody → ℤ → Checked
check_error none code = err (invalid_machine_output (lit "completion event is missing error"))
check_error (some body) code = check_failure body code

-- The switch over the outcome, behind the exit code.
unfoldable pub validate_outcome : Str → Option MachineErrorBody → Option ℤ → Checked
validate_outcome outcome error none =
    err (invalid_machine_output (lit "completion event is missing exit_code"))
validate_outcome outcome error (some code) =
    if str_eq outcome (lit "completed")
    then fail_if (is_some error) (invalid_machine_output (lit "completed event contains error"))
    else if str_eq outcome (lit "failed") || str_eq outcome (lit "canceled")
    then check_error error code
    else if is_empty outcome
    then err (invalid_machine_output (lit "completion event is missing outcome"))
    else err (invalid_machine_output (lit "completion event outcome"))

-- RunEvent.Validate.
unfoldable pub validate_event : RunEvent → Checked
validate_event e = do
  fail_if
      (not (str_eq e.schema (lit "spore.automation.event.v1"))
        || not (eq_ℤ e.schema_version (pos 1)))
      (invalid_machine_output (lit "run event schema"))
  fail_if (is_empty e.event || is_empty e.command)
      (invalid_machine_output (lit "run event is missing event or command"))
  if terminal e
      then validate_outcome e.outcome e.error e.exit_code
      else fail_if (not (is_empty e.outcome) || is_some e.error)
          (invalid_machine_output (lit "non-terminal run event contains terminal outcome fields"))

-- TerminalEvent: the loop, with the terminal event found so far. A terminal event that is the last ends it.
unfoldable pub find_terminal : Option RunEvent → List RunEvent → Result RunEvent
find_terminal none [] = err no_terminal_event
find_terminal (some t) [] = ok t
find_terminal found (e ∷ es) = elim (terminal e) [
  | false ↦ find_terminal found es
  | true ↦ elim found [
    | some t ↦ err (invalid_machine_output (lit "run event stream has multiple terminal events"))
    | none ↦ elim es [
      | [] ↦ ok e
      | _ ∷ _ ↦ err (invalid_machine_output (lit "run event stream continues after completion"))
    ]
  ]
]

unfoldable pub terminal_event : List RunEvent → Result RunEvent
terminal_event events = find_terminal none events
