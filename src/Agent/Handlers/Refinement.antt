-- ===== src/Agent/Handlers/Refinement.antt =====
-- The handlers of internal/agent/interactive.go beside the steps into which their mutexes divide them.
use k8s.Prelude.{
  ℕ, ◌≡◌, refl, ap, sym, ◌∙◌, true, false, List, [], ◌∷◌, Option, none, some, arith, ◌⊎◌, inl, inr,
}
use k8s.Prelude.Text.{Str}
use k8s.Errors.{Error, Checked, Result, ok, err, Result-cases}
use k8s.Fleet.Types.{Pressure}
use k8s.Agent.Slots.{Slots, try_acquire}
use k8s.Agent.Machine.Documents.{NamedLifecycleResult, validate_restored}
use k8s.Agent.Machine.Requests.{RemoveVmRequest, validate_remove_vm_request}
use k8s.Agent.Interactive.{
  RunRequest, SandboxCreateRequest, SandboxCreateResponse, TemplateStatus, validate_run_request,
  validate_create_request, memory_of,
}
use k8s.Agent.Sandboxes.{
  Agent, SandboxMap, Work, admit_one, reserve_sandbox, sandbox_release, with_sandboxes, Created,
  no_template, restored, cleaned_up, cleanup_failed, finish_creation, finish_removal, WorkEvent,
  run_begins, run_ends, create_begins, create_reserves, create_ends, remove_begins, remove_ends,
  take_op, move, moves,
}
use k8s.Agent.Client.{Config, Node}
use k8s.Agent.Host.{with_client}
use k8s.Agent.Templates.{Leased, ensure_boot_template, release_boot_template}
use k8s.Agent.Templates.Frame.{ensure-Keeps, with_client-Keeps}
use k8s.Agent.Handlers.{
  run, run_prepared, CreationEnd, failing_with, fail_sandbox_creation, restored_as, with_template,
  let_reservation_go, create_sandbox, remove_sandbox, removed, set_agent,
}

abbrev pub alone : Agent → Work
alone a = record { agent = a; ops = [] }

-- An admission that fails leaves the slots as they are.
admit_one_refused :
    (p : Pressure) (s : Slots) (e : Error) → (admit_one p s).0 ≡ err e → (admit_one p s).1 ≡ s
unfolding admit_one try_acquire
admit_one_refused p s e h = ground (arith, h)

sandbox_release_refused :
    (name : Str) (m : SandboxMap) (e : Error)
    → (sandbox_release name m).0 ≡ err e
    → (sandbox_release name m).1 ≡ m
unfolding sandbox_release
sandbox_release_refused name m e h = ground (arith, h)

module _ {W : Type 0} (config : Config W) where
  -- How a creation went: what its end made of the agent, and that it only then returned a response.
  abbrev Ended : Str → ℕ → Agent → CreationEnd config × Node W → Type 0
  Ended name slot a kn =
      (outcome : Created) × ((finish_creation name slot outcome a
          ≡ (let_reservation_go config name slot kn).1.agent)
        × ((r : SandboxCreateResponse) → kn.0.1 ≡ ok r → outcome ≡ restored))

  failing-Ended :
      (name : Str) (slot : ℕ) (cause : Error) (a : Agent) (r : Checked × Node W)
      → r.1.agent ≡ a
      → Ended name slot a (failing_with config name slot cause r)
  unfolding finish_creation
  failing-Ended name slot cause a (ok _, n) h =
      (cleaned_up, (ap (finish_creation name slot cleaned_up) (sym h), λ r k. absurd cc))
  failing-Ended name slot cause a (err e, n) h =
      (cleanup_failed, (ap (finish_creation name slot cleanup_failed) (sym h), λ r k. absurd cc))

  failed-Ended :
      (name : Str) (slot : ℕ) (cause : Error) (a : Agent) (n : Node W)
      → n.agent ≡ a
      → Ended name slot a (fail_sandbox_creation config name slot cause n)
  unfolding fail_sandbox_creation
  failed-Ended name slot cause a n h =
      failing-Ended name slot cause a _
        (with_client-Keeps config (λ c. c.remove_vm (record { name = name })) n ∙ h)

  restored-Ended :
      (req : SandboxCreateRequest) (slot : ℕ) (t : TemplateStatus) (a : Agent)
      (r : Result NamedLifecycleResult × Node W)
      → r.1.agent ≡ a
      → Ended req.name slot a (restored_as config req slot t r)
  unfolding finish_creation
  restored-Ended req slot t a (err e, n) h = failed-Ended req.name slot e a n h
  restored-Ended req slot t a (ok d, n) h = elim (Result-cases (validate_restored req.name d)) [
    | inl (e, bad) ↦ rw (bad, restored_as) (failed-Ended req.name slot e a n h)
    | inr (_, good) ↦
        rw (good, restored_as)
          (restored, (ap (finish_creation req.name slot restored) (sym h), λ r k. refl))
  ]

  -- The release of the template's lease leaves the agent.
  released-agent :
      (name : Str) (slot lease : ℕ) (kn : CreationEnd config × Node W)
      → (let_reservation_go config name slot kn).1.agent
        ≡ (let_reservation_go config name slot (kn.0, release_boot_template lease kn.1)).1.agent
  unfolding release_boot_template
  released-agent name slot lease ((true, r), n) = refl
  released-agent name slot lease ((false, r), n) = refl

  template-Ended :
      (req : SandboxCreateRequest) (slot : ℕ) (a : Agent) (r : Result Leased × Node W)
      → r.1.agent ≡ a
      → Ended req.name slot a (with_template config req slot r)
  unfolding finish_creation release_boot_template
  template-Ended req slot a (err e, n) h =
      (no_template, (ap (finish_creation req.name slot no_template) (sym h), λ r k. absurd cc))
  template-Ended req slot a (ok leased, n) h =
      let called =
        with_client config
          (λ c. c.restore_named (record {
            spore_dir = leased.1.0;
            backend = config.backend;
            generation_path = [];
            name = req.name;
          }))
          n in
      let done = restored-Ended req slot leased.0 a called (with_client-Keeps config _ n ∙ h) in
      (
        done.0,
        (
          done.1.0
              ∙ released-agent req.name slot leased.1.1
                  (restored_as config req slot leased.0 called),
          done.1.1,
        ),
      )

  -- The steps of a run of CreateSandbox, the last with the outcome.
  abbrev pub creation_steps : SandboxCreateRequest → Pressure → Created → List WorkEvent
  creation_steps req p outcome =
      create_begins req p ∷ create_reserves 0 ∷ create_ends 0 outcome ∷ []

  create_sandbox-steps :
      (req : SandboxCreateRequest) (p : Pressure) (n : Node W)
      → (outcome : Created) × ((moves (creation_steps req p outcome) (alone n.agent)
            ≡ alone (create_sandbox config req p n).1.agent)
          × ((r : SandboxCreateResponse)
              → (create_sandbox config req p n).0 ≡ ok r
              → outcome ≡ restored))
  unfolding moves move create_sandbox take_op
  create_sandbox-steps req p n = elim (Result-cases (validate_create_request req)) [
    | inl (e, bad) ↦ (no_template, (ground (arith, bad), λ r k. ground (arith, bad, k)))
    | inr (_, good) ↦ elim (Result-cases (admit_one p n.agent.slots).0) [
      | inl (e, refused) ↦ (
        no_template,
        (
          ground (arith, good, refused, admit_one_refused p n.agent.slots e refused),
          λ r k. ground (arith, good, refused, k),
        ),
      )
      | inr (slot, admitted) ↦ elim (Result-cases (reserve_sandbox req.name n.agent.sandboxes)) [
        | inl (e, taken) ↦ (
          no_template,
          (ground (arith, good, admitted, taken), λ r k. ground (arith, good, admitted, taken, k)),
        )
        | inr (m, free) ↦
            let a : Agent = record { slots = (admit_one p n.agent.slots).1; sandboxes = m } in
            let s : Node W = set_agent a n in
            let called = ensure_boot_template config req.image (memory_of req.memory) s in
            let done =
              template-Ended req slot a called
                (ensure-Keeps config req.image (memory_of req.memory) s) in
            (
              done.0,
              (
                ground (arith, good, admitted, free, done.1.0),
                λ r k. done.1.1 r (ground (arith, good, admitted, free, k)),
              ),
            )
      ]
    ]
  ]

  -- CreateSandbox, run alone, leaves the slots and the sandboxes as its three steps do, with some
  -- outcome of the last: that of a restored sandbox, or else an error is returned.
  pub create_sandbox-moves :
      (req : SandboxCreateRequest) (p : Pressure) (n : Node W)
      → (outcome : Created) × (moves (creation_steps req p outcome) (alone n.agent)
          ≡ alone (create_sandbox config req p n).1.agent)
        × ((outcome ≡ restored) ⊎ ((e : Error) × ((create_sandbox config req p n).0 ≡ err e)))
  create_sandbox-moves req p n =
      let steps = create_sandbox-steps req p n in
      (
        steps.0,
        steps.1.0,
        elim (Result-cases (create_sandbox config req p n).0) [
          | inl failed ↦ inr failed
          | inr (r, good) ↦ inl (steps.1.1 r good)
        ],
      )

  run_admitted-agent :
      (req : RunRequest) (n : Node W) → (run_prepared config req n).1.agent ≡ n.agent
  unfolding release_boot_template
  run_admitted-agent req n = ground (arith, ensure-Keeps config req.image (memory_of req.memory) n)

  -- Run, run alone, leaves the slots and the sandboxes as its two steps do, however it returns.
  pub run-moves :
      (req : RunRequest) (p : Pressure) (n : Node W)
      → moves (run_begins req p ∷ run_ends 0 ∷ []) (alone n.agent)
        ≡ alone (run config req p n).1.agent
  unfolding moves move run take_op
  run-moves req p n = elim (Result-cases (validate_run_request req)) [
    | inl (e, bad) ↦ ground (arith, bad)
    | inr (_, good) ↦ elim (Result-cases (admit_one p n.agent.slots).0) [
      | inl (e, refused) ↦
          ground (arith, good, refused, admit_one_refused p n.agent.slots e refused)
      | inr (slot, admitted) ↦
          let a : Agent = record {
            slots = (admit_one p n.agent.slots).1;
            sandboxes = n.agent.sandboxes;
          } in
          ground (arith, good, admitted, run_admitted-agent req (set_agent a n))
    ]
  ]

  removed-agent :
      (name : Str) (got : Option ℕ) (r : Checked × Node W)
      → (removed config name got r).1.agent ≡ finish_removal name got r.0 r.1.agent
  unfolding finish_removal
  removed-agent name none (r, n) = refl
  removed-agent name (some k) (ok _, n) = refl
  removed-agent name (some k) (err e, n) = refl

  -- RemoveSandbox, run alone, leaves the slots and the sandboxes as its two steps do, with the
  -- result that the removal of the machine has.
  pub remove_sandbox-moves :
      (req : RemoveVmRequest) (n : Node W)
      → (result : Checked) × (moves (remove_begins req ∷ remove_ends 0 result ∷ []) (alone n.agent)
          ≡ alone (remove_sandbox config req n).1.agent)
  unfolding moves move remove_sandbox take_op
  remove_sandbox-moves req n = elim (Result-cases (validate_remove_vm_request req)) [
    | inl (e, bad) ↦ (ok tt, ground (arith, bad))
    | inr (_, good) ↦ elim (Result-cases (sandbox_release req.name n.agent.sandboxes).0) [
      | inl (e, busy) ↦ (
        ok tt,
        ground (arith, good, busy, sandbox_release_refused req.name n.agent.sandboxes e busy),
      )
      | inr (got, taken) ↦
          let a = with_sandboxes (sandbox_release req.name n.agent.sandboxes).1 n.agent in
          let called = with_client config (λ c. c.remove_vm req) (set_agent a n) in
          (
            called.0,
            ground (
              arith,
              good,
              taken,
              removed-agent req.name got called,
              with_client-Keeps config (λ c. c.remove_vm req) (set_agent a n),
            ),
          )
    ]
  ]
