-- ===== src/Agent/Templates/Reconcile/Uses.antt =====
-- The look-up of the machine's identity in internal/agent/interactive.go leaves the uses of the templates as
-- they are.
use k8s.Prelude.{refl, Option, none, some, arith, Bool-cases, Option-cases, inl, inr}
use k8s.Prelude.Int.{ℤ}
use k8s.Prelude.Text.{Str}
use k8s.Prelude.StrMap.{StrMap}
use k8s.Errors.{Result-cases}
use k8s.Agent.Io.{Effect}
use k8s.Agent.Io.Frame.{Keeps}
use k8s.Agent.Client.{
  SporeClient, FileInfo, BootTemplateRuntimeIdentity, Config, Node, on_world, set_world,
}
use k8s.Agent.Host.{with_client, host_class}
use k8s.Agent.Templates.{identity_or, learn_identity, boot_template_identity, same_executable}

abbrev pub used_of : {W : Type 0} → Node W → StrMap ℤ
used_of n = n.template_uses

module _ {W : Type 0} (config : Config W) where
  with_client_uses :
      {A : Type 0} (g : SporeClient W → Effect W A) → Keeps (used_of {W = W}) (with_client config g)
  with_client_uses g n = ground arith

  host_class_uses : (backend : Str) → Keeps (used_of {W = W}) (host_class config backend)
  unfolding host_class
  host_class_uses backend n = ground arith

  learn_uses : (path : Str) → Keeps (used_of {W = W}) (learn_identity config path)
  learn_uses path n =
      let h = on_world (config.files.hash_file path) n in
      let v = with_client config (λ c. c.version) h.1 in
      ground (arith, host_class_uses config.backend v.1, with_client_uses (λ c. c.version) h.1)

  identity_or_uses :
      (path : Str) (info : FileInfo) (cached : Option BootTemplateRuntimeIdentity)
      → Keeps (used_of {W = W}) (identity_or config path info cached)
  identity_or_uses path info none n = learn_uses path n
  identity_or_uses path info (some i) n = elim (Bool-cases (same_executable i.executable info)) [
    | inl e ↦ rw e refl
    | inr e ↦ rw e (learn_uses path n)
  ]

  pub identity_uses : Keeps (used_of {W = W}) (boot_template_identity config)
  unfolding boot_template_identity
  identity_uses n = elim (Option-cases config.client) [
    | inl none_there ↦ ground (arith, none_there)
    | inr (c, there) ↦ elim (Result-cases (c.executable n.world).0) [
      | inl (x, bad) ↦ ground (arith, there, bad)
      | inr (path, found) ↦
          let stat = config.files.stat path (c.executable n.world).1 in
          elim (Result-cases stat.0) [
            | inl (x, bad) ↦ ground (arith, there, found, bad)
            | inr (info, seen) ↦ ground (
              arith,
              there,
              found,
              seen,
              identity_or_uses path info n.template_identity (set_world stat.1 n),
            )
          ]
    ]
  ]
