-- ===== src/Agent/Prepare/Removal.antt =====
-- The loop of releasePreparedRun in internal/agent/runtime.go over the ledger of prepared spores.
use k8s.Prelude.{ℕ, zero, suc, ◌≡◌, some, arith, Bool-cases, Option-cases, inl, inr}
use k8s.Prelude.Text.{Str}
use k8s.Errors.{Error, ok, Result-cases}
use k8s.Agent.Client.{SporeClient, Config, Node}
use k8s.Agent.Host.{remove_saved_spore, remove_prepared_spore, saved_spore_in_use}

module _ {W : Type 0} (config : Config W) (ticks : ℕ) (ended : Error) where
  -- What a removal of this saved spore keeps is kept by the removal that retries.
  module _ (P : W → Type 0) (dir : Str)
      (removal_keeps : (c : SporeClient W) (w : W)
        → config.client ≡ some c
        → P w
        → P (c.remove_saved_spore (record { spore_dir = dir }) w).1) where
    saved-keeps : (n : Node W) → P n.world → P (remove_saved_spore config dir n).1.world
    unfolding remove_saved_spore
    saved-keeps n h = elim (Option-cases config.client) [
      | inl e ↦ rw (e, remove_saved_spore) h
      | inr (c, e) ↦
          elim (Result-cases (c.remove_saved_spore (record { spore_dir = dir }) n.world).0) [
            | inl (x, bad) ↦ rw (e, bad, remove_saved_spore) (removal_keeps c n.world e h)
            | inr (_, good) ↦ rw (e, good, remove_saved_spore) (removal_keeps c n.world e h)
          ]
    ]

    pub prepared-keeps :
        (k : ℕ) (n : Node W) → P n.world → P (remove_prepared_spore config k ended dir n).1.world
    unfolding remove_prepared_spore
    prepared-keeps zero n h = elim (Result-cases (remove_saved_spore config dir n).0) [
      | inl (e, bad) ↦ rw (bad, remove_prepared_spore) (saved-keeps n h)
      | inr (_, good) ↦ rw (good, remove_prepared_spore) (saved-keeps n h)
    ]
    prepared-keeps (suc k) n h = elim (Result-cases (remove_saved_spore config dir n).0) [
      | inl (e, bad) ↦ elim (Bool-cases (saved_spore_in_use e)) [
        | inl busy ↦
            rw (bad, busy, remove_prepared_spore)
              (prepared-keeps k (remove_saved_spore config dir n).1 (saved-keeps n h))
        | inr other ↦ rw (bad, other, remove_prepared_spore) (saved-keeps n h)
      ]
      | inr (_, good) ↦ rw (good, remove_prepared_spore) (saved-keeps n h)
    ]

  module _ (Gone : Str → W → Type 0)
      (removed : (c : SporeClient W) (dir : Str) (w : W)
        → config.client ≡ some c
        → (c.remove_saved_spore (record { spore_dir = dir }) w).0 ≡ ok tt
        → Gone dir (c.remove_saved_spore (record { spore_dir = dir }) w).1) where
    saved-Gone :
        (dir : Str) (n : Node W)
        → (remove_saved_spore config dir n).0 ≡ ok tt
        → Gone dir (remove_saved_spore config dir n).1.world
    unfolding remove_saved_spore
    saved-Gone dir n = elim (Option-cases config.client) [
      | inl e ↦ rw (e, remove_saved_spore) (λ h. absurd cc)
      | inr (c, e) ↦
          elim (Result-cases (c.remove_saved_spore (record { spore_dir = dir }) n.world).0) [
            | inl (x, bad) ↦ rw (e, bad, remove_saved_spore) (λ h. absurd cc)
            | inr (_, good) ↦ rw (e, good, remove_saved_spore) (λ h. removed c dir n.world e good)
          ]
    ]

    pub prepared-Gone :
        (k : ℕ) (dir : Str) (n : Node W)
        → (remove_prepared_spore config k ended dir n).0 ≡ ok tt
        → Gone dir (remove_prepared_spore config k ended dir n).1.world
    unfolding remove_prepared_spore
    prepared-Gone zero dir n = elim (Result-cases (remove_saved_spore config dir n).0) [
      | inl (e, bad) ↦ rw (bad, remove_prepared_spore) (λ h. absurd (ground (arith, h)))
      | inr (_, good) ↦ rw (good, remove_prepared_spore) (λ h. saved-Gone dir n good)
    ]
    prepared-Gone (suc k) dir n = elim (Result-cases (remove_saved_spore config dir n).0) [
      | inl (e, bad) ↦ elim (Bool-cases (saved_spore_in_use e)) [
        | inl busy ↦
            rw (bad, busy, remove_prepared_spore)
              (prepared-Gone k dir (remove_saved_spore config dir n).1)
        | inr other ↦ rw (bad, other, remove_prepared_spore) (λ h. absurd cc)
      ]
      | inr (_, good) ↦ rw (good, remove_prepared_spore) (λ h. saved-Gone dir n good)
    ]
