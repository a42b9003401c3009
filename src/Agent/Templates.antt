-- ===== src/Agent/Templates.antt =====
-- The boot templates of internal/agent/interactive.go: their key, the identity of the machine's executable,
-- the build of a template that is not there, and the leases of their users. `templateMu` makes each of
-- these one step.
pub mod Reconcile
pub mod Leases
pub mod Frame
use k8s.Prelude.{
  ℕ, zero, suc, Bool, true, false, ◌&&◌, ◌||◌, not, List, [], ◌∷◌, ◌++◌, Option, none, some,
  if◌then◌else◌, length, ◌==◌,
}
use k8s.Prelude.Int.{ℤ, pos, negsuc, ◌+ℤ◌, sub_ℤ, eq_ℤ}
use k8s.Prelude.Text.{Str, lit, str_eq, is_empty}
use k8s.Prelude.StrMap.{StrMap, find_key, store, remove}
use k8s.Errors.{
  Error, Checked, Result, ok, err, invalid_machine_output, spore_client_not_configured,
  work_root_not_configured, fail_if,
}
use k8s.Agent.Io.{Effect, pure, lift, read, change, deferring, ◌>>=◌, ◌>>◌}
use k8s.Agent.Attempt.{exited_well}
use k8s.Agent.Machine.{RunEvent, terminal_event}
use k8s.Agent.Machine.Requests.{RunCaptureRequest}
use k8s.Agent.Interactive.{TemplateStatus}
use k8s.Agent.Client.{
  SporeClient, FileInfo, BootTemplateRuntimeIdentity, BootTemplateKey, TemplateLease, Config, Node,
  on_world,
}
use k8s.Agent.Host.{with_client, host_class, remove_saved_spore}

-- bootTemplateRuntimeIdentity.key.
unfoldable pub key : BootTemplateRuntimeIdentity → Str → Str → Str → BootTemplateKey
key i backend image memory = record {
  schema = lit "sporevm-k8s.boot-template.v2";
  image = image;
  memory = memory;
  backend = backend;
  version = i.version;
  digest = i.digest;
  host_class = i.host_class;
}

unfoldable pub same_executable : FileInfo → FileInfo → Bool
same_executable a b =
    (a.file == b.file)
    && (eq_ℤ a.size b.size && (eq_ℤ a.mod_time b.mod_time && eq_ℤ a.change_time b.change_time))

-- The count of a directory's users, which is zero where the map has none.
abbrev pub uses_of : Str → StrMap ℤ → ℤ
uses_of dir m = elim (find_key dir m) [ none ↦ pos 0 | some n ↦ n ]

-- Runner.leaseBootTemplate: the position of its release closure.
unfoldable pub lease_boot_template : {W : Type 0} → Str → Node W → ℕ × Node W
lease_boot_template dir n = (
  length n.template_leases,
  record n {
    template_uses = store dir (uses_of dir n.template_uses +ℤ pos 1) n.template_uses;
    template_leases = n.template_leases ++ (record { template_dir = dir; done = false } ∷ []);
  },
)

-- What a call of the closure at a position gives back: nothing after the first call.
unfoldable pub fire_lease : ℕ → List TemplateLease → Option Str × List TemplateLease
fire_lease k [] = (none, [])
fire_lease zero (l ∷ ls) =
    if l.done then (none, l ∷ ls) else (some l.template_dir, record l { done = true } ∷ ls)
fire_lease (suc k) (l ∷ ls) = ((fire_lease k ls).0, l ∷ (fire_lease k ls).1)

unfoldable pub use_less : Str → StrMap ℤ → StrMap ℤ
use_less dir m =
    if eq_ℤ (sub_ℤ (uses_of dir m) (pos 1)) (pos 0)
    then remove dir m
    else store dir (sub_ℤ (uses_of dir m) (pos 1)) m

abbrev pub give_use_back : Option Str → StrMap ℤ → StrMap ℤ
give_use_back none m = m
give_use_back (some dir) m = use_less dir m

unfoldable pub release_boot_template : {W : Type 0} → ℕ → Node W → Node W
release_boot_template k n = record n {
  template_uses = give_use_back (fire_lease k n.template_leases).0 n.template_uses;
  template_leases = (fire_lease k n.template_leases).1;
}

abbrev pub Leased : Type 0
Leased = TemplateStatus × (Str × ℕ)

module _ {W : Type 0} (config : Config W) where
  -- bootTemplateReady.
  unfoldable pub boot_template_ready : Str → Node W → Bool
  boot_template_ready path n =
      config.files.is_file (config.files.join (path ∷ lit "manifest.json" ∷ [])) n.world

  abbrev learn_identity : Str → Effect (Node W) BootTemplateRuntimeIdentity
  learn_identity path = do
    hashed ← on_world (config.files.hash_file path)
    version ← with_client config (λ c. c.version)
    class ← host_class config config.backend
    let identity : BootTemplateRuntimeIdentity = record {
      version = version;
      digest = hashed.0;
      host_class = class;
      executable = hashed.1;
    }
    change (λ n. record n { template_identity = some identity })
    pure identity

  abbrev identity_or :
      Str
      → FileInfo
      → Option BootTemplateRuntimeIdentity
      → Effect (Node W) BootTemplateRuntimeIdentity
  identity_or path info none = learn_identity path
  identity_or path info (some cached) =
      if same_executable cached.executable info then pure cached else learn_identity path

  -- Runner.bootTemplateIdentity.
  unfoldable pub boot_template_identity : Effect (Node W) BootTemplateRuntimeIdentity
  boot_template_identity = do
    path ← (elim config.client [
      | none ↦ lift (err spore_client_not_configured)
      | some c ↦
          if is_empty config.work_root
          then lift (err work_root_not_configured)
          else on_world c.executable
    ])
    info ← on_world (config.files.stat path)
    cached ← read (λ n. n.template_identity)
    identity_or path info cached

  abbrev cleaned : Str → Checked × Node W → Node W
  cleaned tmp_dir (err e, n) = n
  cleaned tmp_dir (ok _, n) = (on_world (config.files.remove_all tmp_dir) n).1

  -- Runner.cleanupTemplateBuild.
  unfoldable pub cleanup_template_build : Str → Str → Node W → Node W
  cleanup_template_build tmp_dir template_dir n =
      if boot_template_ready template_dir n
      then cleaned tmp_dir (remove_saved_spore config template_dir n)
      else cleaned tmp_dir (ok tt, n)

  abbrev pub template_root : Str
  template_root = config.files.join (config.work_root ∷ lit "templates" ∷ [])

  abbrev pub entry_dir : BootTemplateKey → Str
  entry_dir k = config.files.join (template_root ∷ config.files.key_digest k ∷ [])

  abbrev pub template_dir : Str → Str
  template_dir entry = config.files.join (entry ∷ lit "parent.spore" ∷ [])

  abbrev template_status : BootTemplateKey → Bool → TemplateStatus
  template_status k hit = record {
    id = lit "sha256:" ++ config.files.key_digest k;
    cache_hit = hit;
  }

  abbrev captured_well : RunEvent → Bool
  captured_well e = str_eq e.outcome (lit "completed") && (exited_well e.exit_code && e.captured)

  -- The part of ensureBootTemplate that builds a template in a temporary directory.
  unfoldable pub build_template : BootTemplateKey → Str → Effect (Node W) Leased
  build_template k tmp_dir = do
    ran ← with_client config (λ c. c.run_capture (record {
      image = k.image;
      capture_dir = template_dir tmp_dir;
      capture_signal = [];
      ready_marker = [];
      backend = config.backend;
      memory = k.memory;
      command = lit "/bin/true" ∷ [];
    }))
    lift ran.1
    terminal ← lift (terminal_event ran.0)
    lift (
        fail_if (not (captured_well terminal))
          (invalid_machine_output (lit "boot template capture did not exit successfully")))
    ready ← read (boot_template_ready (template_dir tmp_dir))
    lift (
        fail_if (not ready)
          (invalid_machine_output (lit "boot template capture did not produce manifest.json")))
    on_world (
        config.files.write_file (config.files.join (tmp_dir ∷ lit "template.json" ∷ []))
          (config.files.key_text k))
    on_world (config.files.rename tmp_dir (entry_dir k))
    lease ← (λ n. (
      ok (lease_boot_template (template_dir (entry_dir k)) n).0,
      (lease_boot_template (template_dir (entry_dir k)) n).1,
    ))
    pure (template_status k false, (template_dir (entry_dir k), lease))

  abbrev build_missing : BootTemplateKey → Effect (Node W) Leased
  build_missing k = do
    on_world (config.files.remove_all (entry_dir k))
    on_world (config.files.mkdir_all template_root)
    tmp_dir ← on_world (config.files.mkdir_temp template_root)
    deferring (cleanup_template_build tmp_dir (template_dir tmp_dir)) (build_template k tmp_dir)

  abbrev lease_there : BootTemplateKey → Effect (Node W) Leased
  lease_there k n = (
    ok (
      template_status k true,
      (template_dir (entry_dir k), (lease_boot_template (template_dir (entry_dir k)) n).0),
    ),
    (lease_boot_template (template_dir (entry_dir k)) n).1,
  )

  -- Runner.ensureBootTemplate: the template, its directory and its release closure.
  unfoldable pub ensure_boot_template : Str → Str → Effect (Node W) Leased
  ensure_boot_template image memory = do
    identity ← boot_template_identity
    let k = key identity config.backend image memory
    ready ← read (boot_template_ready (template_dir (entry_dir k)))
    if ready then lease_there k else build_missing k
