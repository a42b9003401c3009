-- ===== src/Agent/Templates/Reconcile/Removal.antt =====
-- The removal of one template's directory in internal/agent/template_reconcile.go leaves the uses as they are.
use k8s.Prelude.{◌≡◌, refl, Bool-cases, Option-cases, inl, inr}
use k8s.Prelude.Text.{Str}
use k8s.Errors.{Result-cases}
use k8s.Agent.Client.{Config, Node}
use k8s.Agent.Host.{remove_saved_spore}
use k8s.Agent.Templates.{boot_template_ready}
use k8s.Agent.Templates.Reconcile.{remove_boot_template_entry}

module _ {W : Type 0} (config : Config W) where
  saved_uses :
      (dir : Str) (n : Node W) → (remove_saved_spore config dir n).1.template_uses ≡ n.template_uses
  unfolding remove_saved_spore
  saved_uses dir n = elim (Option-cases config.client) [
    | inl e ↦ rw (e, remove_saved_spore) refl
    | inr (c, e) ↦
        elim (Result-cases (c.remove_saved_spore (record { spore_dir = dir }) n.world).0) [
          | inl (x, bad) ↦ rw (e, bad, remove_saved_spore) refl
          | inr (_, good) ↦ rw (e, good, remove_saved_spore) refl
        ]
  ]

  pub removal_uses :
      (entry template : Str) (n : Node W)
      → (remove_boot_template_entry config entry template n).1.template_uses ≡ n.template_uses
  unfolding remove_boot_template_entry
  removal_uses entry template n = elim (Bool-cases (boot_template_ready config template n)) [
    | inl ready ↦ elim (Result-cases (remove_saved_spore config template n).0) [
      | inl (x, bad) ↦ rw (ready, bad, remove_boot_template_entry) (saved_uses template n)
      | inr (_, good) ↦ rw (ready, good, remove_boot_template_entry) (saved_uses template n)
    ]
    | inr absent ↦ rw (absent, remove_boot_template_entry) refl
  ]
