-- ===== src/Agent/Templates/Frame.antt =====
-- What the boot templates of internal/agent/interactive.go leave of the agent's slots and sandboxes.
use k8s.Prelude.{◌≡◌, refl, Option, none, some, arith, Bool-cases, Option-cases, inl, inr}
use k8s.Prelude.Text.{Str}
use k8s.Errors.{Checked, ok, err, Result-cases}
use k8s.Agent.Io.{Effect}
use k8s.Agent.Io.Frame.{Keeps}
use k8s.Agent.Sandboxes.{Agent}
use k8s.Agent.Client.{
  SporeClient, FileInfo, BootTemplateRuntimeIdentity, BootTemplateKey, Config, Node, on_world,
  set_world,
}
use k8s.Agent.Host.{with_client, host_class, remove_saved_spore}
use k8s.Agent.Templates.{
  identity_or, learn_identity, boot_template_identity, cleaned, cleanup_template_build,
  build_template, build_missing, ensure_boot_template, key, entry_dir, template_dir, template_root,
  lease_boot_template, same_executable,
}

abbrev pub agent_of : {W : Type 0} → Node W → Agent
agent_of n = n.agent

module _ {W : Type 0} (config : Config W) where
  pub with_client-Keeps :
      {A : Type 0} (g : SporeClient W → Effect W A)
      → Keeps (agent_of {W = W}) (with_client config g)
  with_client-Keeps g n = ground arith

  host_class-Keeps : (backend : Str) → Keeps (agent_of {W = W}) (host_class config backend)
  unfolding host_class
  host_class-Keeps backend n = ground arith

  saved-Keeps : (dir : Str) → Keeps (agent_of {W = W}) (remove_saved_spore config dir)
  unfolding remove_saved_spore
  saved-Keeps dir n = ground arith

  learn-Keeps : (path : Str) → Keeps (agent_of {W = W}) (learn_identity config path)
  learn-Keeps path n =
      let h = on_world (config.files.hash_file path) n in
      let v = with_client config (λ c. c.version) h.1 in
      ground (arith, host_class-Keeps config.backend v.1, with_client-Keeps (λ c. c.version) h.1)

  identity_or-Keeps :
      (path : Str) (info : FileInfo) (cached : Option BootTemplateRuntimeIdentity)
      → Keeps (agent_of {W = W}) (identity_or config path info cached)
  identity_or-Keeps path info none n = learn-Keeps path n
  identity_or-Keeps path info (some i) n = elim (Bool-cases (same_executable i.executable info)) [
    | inl e ↦ rw e refl
    | inr e ↦ rw e (learn-Keeps path n)
  ]

  identity-Keeps : Keeps (agent_of {W = W}) (boot_template_identity config)
  unfolding boot_template_identity
  identity-Keeps n = elim (Option-cases config.client) [
    | inl none_there ↦ ground (arith, none_there)
    | inr (c, there) ↦ elim (Result-cases (c.executable n.world).0) [
      | inl (x, bad) ↦ ground (arith, there, bad)
      | inr (path, found) ↦
          let stat = config.files.stat path (c.executable n.world).1 in
          elim (Result-cases stat.0) [
            | inl (x, bad) ↦ ground (arith, there, found, bad)
            | inr (info, seen) ↦ ground (
              arith,
              there,
              found,
              seen,
              identity_or-Keeps path info n.template_identity (set_world stat.1 n),
            )
          ]
    ]
  ]

  cleaned-agent : (dir : Str) (r : Checked × Node W) → (cleaned config dir r).agent ≡ r.1.agent
  cleaned-agent dir (err e, n) = refl
  cleaned-agent dir (ok _, n) = refl

  cleanup-agent :
      (dir template : Str) (n : Node W)
      → (cleanup_template_build config dir template n).agent ≡ n.agent
  unfolding cleanup_template_build
  cleanup-agent dir template n =
      ground
        (arith, cleaned-agent dir (remove_saved_spore config template n), saved-Keeps template n)

  build-Keeps :
      (k : BootTemplateKey) (dir : Str) → Keeps (agent_of {W = W}) (build_template config k dir)
  unfolding build_template lease_boot_template
  build-Keeps k dir n = ground arith

  missing-Keeps : (k : BootTemplateKey) → Keeps (agent_of {W = W}) (build_missing config k)
  missing-Keeps k n =
      let a = on_world (config.files.remove_all (entry_dir config k)) n in
      let b = on_world (config.files.mkdir_all (template_root config)) a.1 in
      let c = on_world (config.files.mkdir_temp (template_root config)) b.1 in
      elim (Result-cases c.0) [
        | inl (x, bad) ↦ ground (arith, bad)
        | inr (dir, made) ↦
            let d = build_template config k dir c.1 in
            ground
              (arith, made, cleanup-agent dir (template_dir config dir) d.1, build-Keeps k dir c.1)
      ]

  -- ensureBootTemplate leaves the slots and the sandboxes as they are.
  pub ensure-Keeps :
      (image memory : Str) → Keeps (agent_of {W = W}) (ensure_boot_template config image memory)
  unfolding ensure_boot_template lease_boot_template
  ensure-Keeps image memory n = elim (Result-cases (boot_template_identity config n).0) [
    | inl (x, bad) ↦ ground (arith, bad, identity-Keeps n)
    | inr (i, known) ↦
        let s = (boot_template_identity config n).1 in
        ground (arith, known, identity-Keeps n, missing-Keeps (key i config.backend image memory) s)
  ]
