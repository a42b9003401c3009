-- ===== src/Agent/Attempt/Outcome.antt =====
-- The outcome of a terminal event of internal/agent/machine.go, and the contract of
-- internal/fleet/validate.go.
use k8s.Prelude.{
  ◌≡◌, ◌⊎◌, refl, sym, true, false, ◌||◌, [], ◌++◌, Option, none, some, arith, Bool-cases,
  Option-cases, inl, inr,
}
use k8s.Prelude.Text.{Str, lit, str_eq, is_empty}
use k8s.Errors.{Error, ok, MachineErrorBody, machine_error}
use k8s.Fleet.Types.{
  BundleRun, AttemptResult, AttemptError, attempt_succeeded, attempt_failed,
  attempt_platform_mismatch,
}
use k8s.Fleet.Attempts.{validate_attempt_error, needs_terminal, needs_error}
use k8s.Agent.Machine.{RunEvent, terminal, validate_machine_error, validate_outcome, validate_event}
use k8s.Agent.Attempt.{
  terminal_result_uri, machine_error_is_platform_mismatch, as_machine_error, plain_error,
  error_of_machine, error_code, attempt_error, Settled, exited_well, completed_result,
  failed_result, settle, classify,
}

-- What RunEvent.Validate leaves of a completion: its exit code and outcome, and a classified error exactly if
-- it did not complete.
abbrev Completed : RunEvent → Type 0
Completed e = (str_eq e.outcome (lit "completed") ≡ true) × (e.error ≡ none)

abbrev Broken : RunEvent → Type 0
Broken e =
    (str_eq e.outcome (lit "completed") ≡ false)
    × ((str_eq e.outcome (lit "failed") || str_eq e.outcome (lit "canceled")) ≡ true)
    × ((body : MachineErrorBody) × (e.error ≡ some body) × (validate_machine_error body ≡ ok tt))

outcome_cases :
    (e : RunEvent) → validate_outcome e.outcome e.error e.exit_code ≡ ok tt → Completed e ⊎ Broken e
unfolding validate_outcome
outcome_cases e h = elim (Option-cases e.exit_code) [
  | inl no_code ↦ absurd (ground (arith, no_code, h))
  | inr (code, at_code) ↦ elim (Bool-cases (str_eq e.outcome (lit "completed"))) [
    | inl completed ↦ elim (Option-cases e.error) [
      | inl no_error ↦ inl (completed, no_error)
      | inr (body, at_body) ↦ absurd (ground (arith, at_code, completed, at_body, h))
    ]
    | inr other ↦
        elim (Bool-cases (str_eq e.outcome (lit "failed") || str_eq e.outcome (lit "canceled"))) [
          | inr unknown ↦ absurd (ground (arith, at_code, other, unknown, h))
          | inl broken ↦ elim (Option-cases e.error) [
            | inl no_error ↦ absurd (ground (arith, at_code, other, broken, no_error, h))
            | inr (body, at_body) ↦
                inr (
                  other,
                  broken,
                  (body, at_body, ground (arith, at_code, other, broken, at_body, h)),
                )
          ]
        ]
  ]
]

event_cases : (e : RunEvent) → validate_event e ≡ ok tt → terminal e ≡ true → Completed e ⊎ Broken e
unfolding validate_event
event_cases e h t = outcome_cases e (ground (arith, t, h))

plain_error-valid :
    (code text path : Str)
    → is_empty code ≡ false
    → is_empty text ≡ false
    → validate_attempt_error (plain_error code text) path ≡ ok tt
unfolding validate_attempt_error is_empty
plain_error-valid code text path h k = rw (h, k, validate_attempt_error) refl

module _ (message : Error → Str) (says : (x : Error) → is_empty (message x) ≡ false) where
  error_of_machine-valid :
      (body : MachineErrorBody) (stderr path : Str)
      → validate_machine_error body ≡ ok tt
      → validate_attempt_error (error_of_machine message body stderr) path ≡ ok tt
  unfolding validate_attempt_error validate_machine_error error_of_machine
  error_of_machine-valid body stderr path h = ground (arith, says (machine_error body stderr))

  code_nonempty : (x : Error) → is_empty (error_code message x) ≡ false
  unfolding is_empty lit
  code_nonempty x = ground arith

  -- What the agent reports of an error passes AttemptError.Validate, if error texts are not empty
  -- and the machine error it wraps, if any, is classified.
  pub attempt_error-valid :
      (x : Error) (path : Str)
      → ((m : MachineErrorBody × Str)
          → as_machine_error x ≡ some m
          → validate_machine_error m.0 ≡ ok tt)
      → validate_attempt_error (attempt_error message x) path ≡ ok tt
  unfolding attempt_error
  attempt_error-valid x path classified = elim (Option-cases (as_machine_error x)) [
    | inl plain ↦
        rw (plain, attempt_error)
          (plain_error-valid (error_code message x) (message x) path (code_nonempty x) (says x))
    | inr (m, found) ↦
        rw (found, attempt_error) (error_of_machine-valid m.0 m.1 path (classified m found))
  ]

-- A result that passes the contract's checks of its status: a success is terminal and points at the terminal
-- object, it is committed exactly if it is terminal, and a failure has an error that passes its check.
pub record IsSettled (run : BundleRun) (s : Settled) : Type 0 where
  pub committed : s.1 ≡ s.0.terminal
  pub uri : s.0.terminal ≡ true → s.0.result_uri ≡ terminal_result_uri run s.0.child_id
  pub success : needs_terminal s.0.status ≡ true → s.0.terminal ≡ true
  pub failure :
      needs_error s.0.status ≡ true
      → (e : AttemptError) × (s.0.error ≡ some e)
        × ((path : Str) → validate_attempt_error e path ≡ ok tt)

statuses :
    (needs_error attempt_succeeded ≡ false)
    × (needs_terminal attempt_failed ≡ false)
    × (needs_terminal attempt_platform_mismatch ≡ false)
unfolding str_eq lit
statuses = (refl, refl, refl)

exit_text : (t : Str) → is_empty (lit "guest exited with code " ++ t) ≡ false
unfolding is_empty lit
exit_text t = refl

exit_code_text : is_empty (lit "runtime.execution_failed") ≡ false
unfolding is_empty lit
exit_code_text = refl

completed-IsSettled :
    (run : BundleRun) (r : AttemptResult) (e : RunEvent)
    → IsSettled run (completed_result run r e, true)
unfolding completed_result
completed-IsSettled run r e = elim (Bool-cases (exited_well e.exit_code)) [
  | inl well ↦
      rw (well, completed_result)
        (record {
          committed = refl;
          uri = λ h. refl;
          success = λ h. refl;
          failure = λ h. absurd (cc (h, statuses.0));
        })
  | inr badly ↦
      rw (badly, completed_result)
        (record {
          committed = refl;
          uri = λ h. refl;
          success = λ h. refl;
          failure = λ h. (
            _,
            refl,
            λ path.
                plain_error-valid (lit "runtime.execution_failed") _ path exit_code_text
                  (exit_text _),
          );
        })
]

module _ (message : Error → Str) (says : (x : Error) → is_empty (message x) ≡ false) where
  failed-IsSettled :
      (run : BundleRun) (r : AttemptResult) (e : RunEvent) (body : MachineErrorBody)
      → r.terminal ≡ false
      → e.error ≡ some body
      → validate_machine_error body ≡ ok tt
      → IsSettled run (failed_result message r e, false)
  unfolding failed_result
  failed-IsSettled run r e body fresh at_body valid =
      rw (at_body, failed_result)
        (record {
          committed = sym fresh;
          uri = λ h. absurd (cc (h, fresh));
          success = λ h. absurd (elim (Bool-cases (machine_error_is_platform_mismatch body)) [
            | inl m ↦ ground (arith, m, h, statuses)
            | inr m ↦ ground (arith, m, h, statuses)
          ]);
          failure = λ h. (_, refl, λ path. error_of_machine-valid message says body [] path valid);
        })

  -- A run error that the terminal event does not explain, and that wraps classified machine errors only.
  abbrev pub Classified : Option Error → Type 0
  Classified none = Unit
  Classified (some x) =
      (m : MachineErrorBody × Str)
      → as_machine_error x ≡ some m
      → validate_machine_error m.0 ≡ ok tt

  settle-IsSettled :
      (run : BundleRun) (x : Option Error) (s : Settled)
      → Classified x
      → IsSettled run s
      → IsSettled run (settle message x s)
  unfolding settle
  settle-IsSettled run none s known v = v
  settle-IsSettled run (some x) (r, commit) known v = elim (Option-cases r.error) [
    | inr (e, explained) ↦ rw (explained, settle) v
    | inl silent ↦
        rw (silent, settle)
          (record {
            committed = refl;
            uri = λ h. absurd cc;
            success = λ h. absurd (cc (h, statuses.1));
            failure = λ h. (_, refl, λ path. attempt_error-valid message says x path known);
          })
  ]

  -- A completion event that passes its check gives a result from one that is not terminal yet,
  -- whatever classified error the run ended with, if error texts are not empty: it is committed
  -- exactly if it is terminal, a terminal one points at the child's terminal object, a success is
  -- terminal, and a failure has an error that passes the contract's check.
  pub classify-IsSettled :
      (run : BundleRun) (r : AttemptResult) (e : RunEvent) (x : Option Error)
      → validate_event e ≡ ok tt
      → terminal e ≡ true
      → r.terminal ≡ false
      → Classified x
      → (s : Settled) × (classify message run r e x ≡ some s) × IsSettled run s
  unfolding classify
  classify-IsSettled run r e x valid ended fresh known = elim (event_cases e valid ended) [
    | inl (completed, silent) ↦
        rw (completed, classify)
          (_, refl, settle-IsSettled run x _ known (completed-IsSettled run r e))
    | inr (other, broken, (body, at_body, body_valid)) ↦
        rw (other, broken, classify)
          (
            _,
            refl,
            settle-IsSettled run x _ known (failed-IsSettled run r e body fresh at_body body_valid),
          )
  ]
