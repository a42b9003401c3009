-- ===== src/Agent/Attempt.antt =====
-- One child attempt in internal/agent/runtime.go: its request, what it reports of errors, and how the terminal
-- event of its run decides its result. The text of an error (`err.Error()`) is an argument.
pub mod Outcome
use k8s.Prelude.{
  ℕ, Bool, true, false, ◌&&◌, ◌||◌, not, List, [], ◌∷◌, ◌++◌, Option, none, some, if◌then◌else◌,
}
use k8s.Prelude.Int.{ℤ, pos, ltb_ℤ, leb_ℤ, eq_ℤ}
use k8s.Prelude.Text.{Str, lit, str_eq, is_empty}
use k8s.Prelude.Decimal.{itoa}
use k8s.Errors.{
  Error, Checked, Result, ok, err, MachineErrorBody, invalid_machine_output, no_terminal_event,
  canceled, deadline_exceeded, machine_error, joined, spore_client_not_configured,
  result_store_not_configured, work_root_not_configured, child_outside_lease, invalid_lease, ◌>>=◌,
  ◌>>◌, fail_if,
}
use k8s.Fleet.Types.{
  Time, BundleRun, ShardLease, lease_range, end_of, Pressure, AttemptResult, AttemptError,
  AttemptTimings, attempt_succeeded, attempt_failed, attempt_platform_mismatch,
}
use k8s.Fleet.Validate.{validate_lease}
use k8s.Fleet.Attempts.{format_attempt_id}
use k8s.Agent.Machine.{RunEvent}

-- TerminalResultURI and AttemptResultURI of internal/agent/result_store.go.
unfoldable pub terminal_result_uri : BundleRun → ℤ → Str
terminal_result_uri run child =
    run.result_store ++ (lit "children/" ++ (itoa child ++ lit "/terminal.json"))

unfoldable pub attempt_result_uri : BundleRun → ℤ → Str → Str
attempt_result_uri run child attempt_id =
    run.result_store
    ++ (lit "children/" ++ (itoa child ++ (lit "/attempts/" ++ (attempt_id ++ lit ".json"))))

pub record RunChildRequest : Type 0 where
  pub run : BundleRun
  pub lease : ShardLease
  pub child_id : ℤ
  pub attempt : ℤ
  pub pressure : Pressure
  pub region : Str
  pub allow_metadata_only_rootfs : Bool
  pub backend : Str
  pub local_children_dir : Str

-- The flags say whether the client and the result store are not nil.
unfoldable pub validate_run_child_request : Bool → Bool → Str → RunChildRequest → Checked
validate_run_child_request has_client has_results work_root req = do
  fail_if (not has_client) spore_client_not_configured
  fail_if (not has_results) result_store_not_configured
  fail_if (is_empty work_root) work_root_not_configured
  validate_lease req.lease req.run
  fail_if
      (ltb_ℤ req.child_id req.lease.child_start
        || leb_ℤ (end_of (lease_range req.lease)) req.child_id)
      child_outside_lease
  fail_if (ltb_ℤ req.attempt (pos 1) || ltb_ℤ req.lease.attempt_budget req.attempt) invalid_lease

abbrev pub no_timings : AttemptTimings
no_timings = record {
  artifact_pull = pos 0;
  materialization = pos 0;
  resume = pos 0;
  guest_ready = pos 0;
  result_commit = pos 0;
  local_child = pos 0;
}

-- The result that runChild starts from.
unfoldable pub first_result : RunChildRequest → Time → AttemptResult
first_result req started_at = record {
  run_id = req.run.run_id;
  bundle_digest = req.run.bundle.digest;
  child_id = req.child_id;
  attempt_id = format_attempt_id req.run.run_id req.child_id req.attempt;
  agent_id = req.lease.agent_id;
  shard_id = req.lease.shard_id;
  status = attempt_failed;
  started_at = started_at;
  finished_at = started_at;
  timings_ms = no_timings;
  terminal = false;
  result_uri = [];
  output = none;
  error = none;
}

unfoldable pub machine_error_is_platform_mismatch : MachineErrorBody → Bool
machine_error_is_platform_mismatch body =
    str_eq body.code (lit "host.unsupported")
    || (str_eq body.code (lit "object.invalid") && str_eq body.source (lit "PlatformMismatch"))

-- `errors.As` and `errors.Is`, which look into joined errors.
unfoldable pub as_machine_error : Error → Option (MachineErrorBody × Str)
as_machine_error (machine_error body stderr) = some (body, stderr)
as_machine_error (joined a b) = elim (as_machine_error a) [
  | some m ↦ some m
  | none ↦ as_machine_error b
]
as_machine_error _ = none

unfoldable pub is_canceled : Error → Bool
is_canceled canceled = true
is_canceled (joined a b) = is_canceled a || is_canceled b
is_canceled _ = false

unfoldable pub is_deadline : Error → Bool
is_deadline deadline_exceeded = true
is_deadline (joined a b) = is_deadline a || is_deadline b
is_deadline _ = false

unfoldable pub is_invalid_output : Error → Bool
is_invalid_output no_terminal_event = true
is_invalid_output (invalid_machine_output t) = true
is_invalid_output (joined a b) = is_invalid_output a || is_invalid_output b
is_invalid_output _ = false

abbrev pub plain_error : Str → Str → AttemptError
plain_error code text = record {
  code = code;
  message = text;
  scope = [];
  retry = [];
  retryable = false;
}

-- The result and whether it is to be committed, behind the switch over the outcome.
abbrev pub Settled : Type 0
Settled = AttemptResult × Bool

abbrev exit_code_of : Option ℤ → ℤ
exit_code_of none = pos 0
exit_code_of (some code) = code

abbrev pub exited_well : Option ℤ → Bool
exited_well none = false
exited_well (some code) = eq_ℤ code (pos 0)

unfoldable pub completed_result : BundleRun → AttemptResult → RunEvent → AttemptResult
completed_result run r e =
    let there : AttemptResult = record r {
      terminal = true;
      result_uri = terminal_result_uri run r.child_id;
    } in
    if exited_well e.exit_code then record there { status = attempt_succeeded } else record there {
      status = attempt_failed;
      error = some (
          plain_error (lit "runtime.execution_failed")
            (lit "guest exited with code " ++ itoa (exit_code_of e.exit_code)));
    }

module _ (message : Error → Str) where
  unfoldable pub error_of_machine : MachineErrorBody → Str → AttemptError
  error_of_machine body stderr = record {
    code = (if is_empty body.code then lit "spore.error" else body.code);
    message = (if is_empty body.message then message (machine_error body stderr) else body.message);
    scope = body.scope;
    retry = body.retry;
    retryable = body.retryable;
  }

  abbrev error_code : Error → Str
  error_code e =
      if is_canceled e
      then lit "agent.canceled"
      else if is_deadline e
      then lit "agent.deadline_exceeded"
      else if is_invalid_output e
      then lit "runtime.invalid_output"
      else lit "agent.error"

  -- attemptError, of an error that is not nil.
  unfoldable pub attempt_error : Error → AttemptError
  attempt_error e = elim (as_machine_error e) [
    | some m ↦ error_of_machine m.0 m.1
    | none ↦ plain_error (error_code e) (message e)
  ]

  abbrev with_machine_error : AttemptResult → Option MachineErrorBody → AttemptResult
  with_machine_error r none = r
  with_machine_error r (some body) = record r {
    error = some (error_of_machine body []);
    status =
        (if machine_error_is_platform_mismatch body
          then attempt_platform_mismatch
          else attempt_failed);
  }

  unfoldable pub failed_result : AttemptResult → RunEvent → AttemptResult
  failed_result r e = with_machine_error (record r { status = attempt_failed }) e.error

  -- An error of the run that the terminal event does not explain.
  unfoldable pub settle : Option Error → Settled → Settled
  settle none s = s
  settle (some x) (r, commit) = elim r.error [
    | some e ↦ (r, commit)
    | none ↦ (
      record r {
        status = attempt_failed;
        terminal = false;
        result_uri = [];
        error = some (attempt_error x);
      },
      false,
    )
  ]

  -- From the terminal event to the result; nothing for an outcome that is not supported.
  unfoldable pub classify : BundleRun → AttemptResult → RunEvent → Option Error → Option Settled
  classify run r e resume_err =
      if str_eq e.outcome (lit "completed")
      then some (settle resume_err (completed_result run r e, true))
      else if str_eq e.outcome (lit "failed") || str_eq e.outcome (lit "canceled")
      then some (settle resume_err (failed_result r e, false))
      else none
