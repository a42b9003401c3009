-- ===== src/Agent/Handlers.antt =====
-- The interactive handlers of internal/agent/interactive.go as one goroutine runs them: Runner.Run,
-- Runner.CreateSandbox, Runner.ExecSandbox and Runner.RemoveSandbox. The partial response that Go returns
-- beside an error, and the spans of the agent's clock, are left out.
pub mod Refinement
use k8s.Prelude.{ℕ, zero, suc, Bool, true, false, List, [], Option, none, some, if◌then◌else◌}
use k8s.Prelude.Text.{Str, lit}
use k8s.Prelude.StrMap.{remove}
use k8s.Errors.{Error, Checked, Result, ok, err, joined}
use k8s.Fleet.Types.{Pressure}
use k8s.Agent.Io.{Effect, pure, lift, read, change, deferring, outcome, ◌>>=◌, ◌>>◌}
use k8s.Agent.Machine.{RunEvent, RunEventTimings, terminal_event}
use k8s.Agent.Machine.Documents.{NamedLifecycleResult, NamedLifecycleTiming, validate_restored}
use k8s.Agent.Machine.Requests.{
  RunFromRequest, RestoreNamedRequest, ExecRequest, RemoveVmRequest, validate_exec_request,
  validate_remove_vm_request,
}
use k8s.Agent.Interactive.{
  RunRequest, RunResponse, RunTimings, SandboxCreateRequest, SandboxCreateResponse, SandboxTimings,
  TemplateStatus, validate_run_request, validate_create_request, memory_of,
}
use k8s.Agent.Sandboxes.{
  Agent, admit_one, reserve_sandbox, clear_sandbox_reservation, activate_sandbox, sandbox_ready,
  sandbox_release, let_go, with_sandboxes,
}
use k8s.Agent.Client.{SporeClient, Ran, Config, Node}
use k8s.Agent.Host.{with_client}
use k8s.Agent.Templates.{Leased, ensure_boot_template, release_boot_template}

abbrev pub set_agent : {W : Type 0} → Agent → Node W → Node W
set_agent a n = record n { agent = a }

abbrev pub release_slot : {W : Type 0} → ℕ → Node W → Node W
release_slot k n = set_agent (let_go k n.agent) n

abbrev pub admit : {W : Type 0} → Pressure → Effect (Node W) ℕ
admit p n = (
  (admit_one p n.agent.slots).0,
  set_agent (record { slots = (admit_one p n.agent.slots).1; sandboxes = n.agent.sandboxes }) n,
)

abbrev no_run_timings : RunTimings
no_run_timings = record {
  runtime_start = 0;
  runtime_vsock_connect = 0;
  runtime_exec_response = 0;
  runtime_probe = 0;
}

abbrev run_timings : Option RunEventTimings → RunTimings
run_timings none = no_run_timings
run_timings (some t) = record {
  runtime_start = t.start_ms;
  runtime_vsock_connect = t.vsock_connect_ms;
  runtime_exec_response = t.exec_response_ms;
  runtime_probe = t.probe_duration_ms;
}

abbrev no_restore_timings : SandboxTimings
no_restore_timings = record {
  restore_prepare = 0;
  restore_spawn_monitor = 0;
  restore_wait_exec_ready = 0;
  restore_spore_total = 0;
}

-- The timing is there, since the document has been checked.
abbrev restore_timings : Option NamedLifecycleTiming → SandboxTimings
restore_timings none = no_restore_timings
restore_timings (some t) = record {
  restore_prepare = t.prepare_ms;
  restore_spawn_monitor = t.spawn_monitor_ms;
  restore_wait_exec_ready = t.wait_exec_ready_ms;
  restore_spore_total = t.total_ms;
}

abbrev pub activate : {W : Type 0} → Str → ℕ → Node W → Node W
activate name k n = set_agent (with_sandboxes (activate_sandbox name k n.agent.sandboxes) n.agent) n

module _ {W : Type 0} (config : Config W) where
  abbrev execute : RunRequest → Leased → Effect (Node W) RunResponse
  execute req leased = do
    ran ← with_client config (λ c. c.run_from (record {
      spore_dir = leased.1.0;
      backend = config.backend;
      generation_path = [];
      command = req.command;
    }))
    lift ran.1
    terminal ← lift (terminal_event ran.0)
    pure (record {
      run_id = req.run_id;
      template = leased.0;
      timings = run_timings terminal.timings;
      events = ran.0;
    })

  abbrev pub run_prepared : RunRequest → Effect (Node W) RunResponse
  run_prepared req = do
    leased ← ensure_boot_template config req.image (memory_of req.memory)
    deferring (release_boot_template leased.1.1) (execute req leased)

  -- Runner.Run.
  unfoldable pub run : RunRequest → Pressure → Effect (Node W) RunResponse
  run req pressure = do
    lift (validate_run_request req)
    slot ← admit pressure
    deferring (release_slot slot) (run_prepared req)

  -- What a creation returns, and whether its reservation is kept.
  abbrev pub CreationEnd : Type 0
  CreationEnd = Bool × Result SandboxCreateResponse

  abbrev failing_with : Str → ℕ → Error → Checked × Node W → CreationEnd × Node W
  failing_with name slot cause (ok _, n) = ((false, err cause), n)
  failing_with name slot cause (err e, n) = ((true, err (joined cause e)), activate name slot n)

  -- Runner.failSandboxCreation.
  unfoldable pub fail_sandbox_creation : Str → ℕ → Error → Node W → CreationEnd × Node W
  fail_sandbox_creation name slot cause n =
      failing_with name slot cause
        (with_client config (λ c. c.remove_vm (record { name = name })) n)

  abbrev restored_as :
      SandboxCreateRequest
      → ℕ
      → TemplateStatus
      → Result NamedLifecycleResult × Node W
      → CreationEnd × Node W
  restored_as req slot template (err e, n) = fail_sandbox_creation req.name slot e n
  restored_as req slot template (ok r, n) = elim (validate_restored req.name r) [
    | err e ↦ fail_sandbox_creation req.name slot e n
    | ok _ ↦ (
      (
        true,
        ok (record { name = req.name; template = template; timings = restore_timings r.timing }),
      ),
      activate req.name slot n,
    )
  ]

  abbrev pub with_template :
      SandboxCreateRequest → ℕ → Result Leased × Node W → CreationEnd × Node W
  with_template req slot (err e, n) = ((false, err e), n)
  with_template req slot (ok leased, n) =
      let back = restored_as req slot leased.0 (
        with_client config
          (λ c. c.restore_named (record {
            spore_dir = leased.1.0;
            backend = config.backend;
            generation_path = [];
            name = req.name;
          }))
          n) in
      (back.0, release_boot_template leased.1.1 back.1)

  -- The deferred function: without its reservation, a creation gives its slot back.
  abbrev pub let_reservation_go :
      Str → ℕ → CreationEnd × Node W → Result SandboxCreateResponse × Node W
  let_reservation_go name slot ((true, r), n) = (r, n)
  let_reservation_go name slot ((false, r), n) = (
    r,
    release_slot slot
        (set_agent (with_sandboxes (clear_sandbox_reservation name n.agent.sandboxes) n.agent) n),
  )

  abbrev pub create_reserved : SandboxCreateRequest → ℕ → Effect (Node W) SandboxCreateResponse
  create_reserved req slot n =
      let_reservation_go req.name slot
        (with_template req slot (ensure_boot_template config req.image (memory_of req.memory) n))

  abbrev pub create_admitted : SandboxCreateRequest → ℕ → Effect (Node W) SandboxCreateResponse
  create_admitted req slot n = elim (reserve_sandbox req.name n.agent.sandboxes) [
    | err e ↦ (err e, release_slot slot n)
    | ok m ↦ create_reserved req slot (set_agent (with_sandboxes m n.agent) n)
  ]

  -- Runner.CreateSandbox.
  unfoldable pub create_sandbox :
      SandboxCreateRequest → Pressure → Effect (Node W) SandboxCreateResponse
  create_sandbox req pressure = do
    lift (validate_create_request req)
    slot ← admit pressure
    create_admitted req slot

  -- Runner.ExecSandbox.
  unfoldable pub exec_sandbox : ExecRequest → Effect (Node W) Ran
  exec_sandbox req = do
    lift (validate_exec_request req)
    (λ n. (sandbox_ready req.name n.agent.sandboxes, n))
    with_client config (λ c. c.exec req)

  -- Whether the machine is gone, for a sandbox that is not tracked and for one with its closure.
  abbrev pub removed : Str → Option ℕ → Checked × Node W → Checked × Node W
  removed name none (r, n) = (r, n)
  removed name (some k) (err e, n) = (err e, activate name k n)
  removed name (some k) (ok _, n) =
      (ok tt, release_slot k (set_agent (with_sandboxes (remove name n.agent.sandboxes) n.agent) n))

  -- Runner.RemoveSandbox.
  unfoldable pub remove_sandbox : RemoveVmRequest → Effect (Node W) (Unit {0})
  remove_sandbox req = do
    lift (validate_remove_vm_request req)
    got ← (λ n. (
      (sandbox_release req.name n.agent.sandboxes).0,
      set_agent (with_sandboxes (sandbox_release req.name n.agent.sandboxes).1 n.agent) n,
    ))
    (λ n. removed req.name got (with_client config (λ c. c.remove_vm req) n))
