-- ===== src/Agent/Templates/Reconcile/InUse.antt =====
-- What internal/agent/template_reconcile.go leaves of a template in use.
use k8s.Prelude.{
  ℕ, ◌≡◌, refl, sym, ap, ◌∙◌, Bool, true, false, ◌&&◌, List, [], ◌∷◌, Option, none, some, All,
  All-append, arith, Bool-cases, inl, inr,
}
use k8s.Prelude.Int.{ℤ, pos, negsuc, ltb_ℤ}
use k8s.Prelude.Text.{Str, lit, has_prefix}
use k8s.Errors.{Result, Checked, ok, err, Result-cases}
use k8s.Agent.Client.{BootTemplateRuntimeIdentity, DirEntry, Config, Node}
use k8s.Agent.Templates.{
  template_root, template_dir, boot_template_ready, boot_template_identity, uses_of,
}
use k8s.Agent.Templates.Reconcile.{
  BootTemplateEntry, Sweep, Kind, ignored, abandoned, incomplete, stale, complete, treat, dispose,
  kind_of, sweep_entry, sweep, sort_entries, expire_entry, expire, keeps, clean, identified,
  reconcile_boot_templates, in_use, remove_boot_template_entry, path_of, metadata_path,
  count_removal, count_build, count_removed,
}
use k8s.Agent.Templates.Reconcile.Removal.{removal_uses}
use k8s.Agent.Templates.Reconcile.Newest.{insert_entry-All}
use k8s.Agent.Templates.Reconcile.Uses.{identity_uses}

apart : false ≡ true → ⊥
apart h = absurd cc

module _ {W : Type 0} (config : Config W) where
  -- A template that the loop over the directory has found complete.
  abbrev Found : BootTemplateEntry → Type 0
  Found e =
      (name : Str) × (e.path ≡ path_of config name)
      × (e.template_dir ≡ template_dir config (path_of config name))

  removed-Found :
      (count : Sweep → Sweep) (s : Sweep) (c : Checked)
      → All Found s.complete
      → All Found (count s).complete
      → All Found (count_removal count s c).complete
  removed-Found count s (ok _) h k = k
  removed-Found count s (err e) h k = h

  treat-Found :
      (k : Kind) (name : Str) (s : Sweep) (n : Node W)
      → All Found s.complete
      → All Found (treat config k (path_of config name) s n).0.complete
  treat-Found ignored name s n h = h
  treat-Found abandoned name s n h = removed-Found count_build s _ h h
  treat-Found incomplete name s n h = removed-Found count_removed s _ h h
  treat-Found stale name s n h =
      elim (Bool-cases (in_use config (template_dir config (path_of config name)) n)) [
        | inl used ↦ rw used h
        | inr free ↦ rw free (removed-Found count_removed s _ h h)
      ]
  treat-Found complete name s n h = All-append Found s.complete _ h ((name, refl, refl), tt)

  sweep-Found :
      (i : Option BootTemplateRuntimeIdentity) (es : List DirEntry) (s : Sweep) (n : Node W)
      → All Found s.complete
      → All Found (sweep config i es s n).0.complete
  unfolding sweep sweep_entry
  sweep-Found i [] s n h = h
  sweep-Found i (e ∷ es) s n h =
      sweep-Found i es (sweep_entry config i e s n).0 (sweep_entry config i e s n).1
        (treat-Found (kind_of config i e n) e.name s n h)

  sorted-Found : (l : List BootTemplateEntry) → All Found l → All Found (sort_entries l)
  unfolding sort_entries
  sorted-Found [] h = tt
  sorted-Found (e ∷ l) h = insert_entry-All Found e (sort_entries l) h.0 (sorted-Found l h.1)

  identified-Found :
      (r : Result BootTemplateRuntimeIdentity) → All Found (identified config r).1.complete
  identified-Found (ok i) = tt
  identified-Found (err e) = tt

  module _ (I : W → Type 0) (name : Str) (not_build : has_prefix name (lit ".build-") ≡ false)
      (is_complete : (n : Node W)
        → I n.world
        → (boot_template_ready config (template_dir config (path_of config name)) n
            && config.files.is_file (metadata_path config (path_of config name)) n.world)
          ≡ true)
      (identity_keeps : (n : Node W) → I n.world → I (boot_template_identity config n).1.world)
      (others_keep : (other : Str) (n : Node W)
        → (other ≡ name → ⊥)
        → I n.world
        → I
            (remove_boot_template_entry config
              (path_of config other)
              (template_dir config (path_of config other))
              n).1.world) where
    abbrev template : Str
    template = template_dir config (path_of config name)

    abbrev Kept : Node W → Type 0
    Kept n = (in_use config template n ≡ true) × I n.world

    other-Kept :
        (other : Str) (n : Node W)
        → (other ≡ name → ⊥)
        → Kept n
        → Kept
            (remove_boot_template_entry config
              (path_of config other)
              (template_dir config (path_of config other))
              n).1
    other-Kept other n h v = (
      ap (λ uses. ltb_ℤ (pos 0) (uses_of template uses))
            (removal_uses config (path_of config other) (template_dir config (path_of config other))
              n)
          ∙ v.0,
      others_keep other n h v.1,
    )

    unused_other :
        (other : Str) (n : Node W)
        → in_use config (template_dir config (path_of config other)) n ≡ false
        → Kept n
        → other ≡ name
        → ⊥
    unused_other other n free v same =
        apart
          (sym free ∙ ap (λ o. in_use config (template_dir config (path_of config o)) n) same ∙ v.0)

    incomplete_lem :
        (i : Option BootTemplateRuntimeIdentity) (e : DirEntry) (n : Node W)
        → kind_of config i e n ≡ incomplete
        → (boot_template_ready config (template_dir config (path_of config e.name)) n
            && config.files.is_file (metadata_path config (path_of config e.name)) n.world)
          ≡ false
    unfolding kind_of
    incomplete_lem i e n h = ground (arith, h)

    treat-Kept :
        (k : Kind) (i : Option BootTemplateRuntimeIdentity) (e : DirEntry) (s : Sweep) (n : Node W)
        → kind_of config i e n ≡ k
        → Kept n
        → Kept (treat config k (path_of config e.name) s n).1
    unfolding kind_of
    treat-Kept ignored i e s n h v = v
    treat-Kept abandoned i e s n h v =
        other-Kept e.name n
          (λ same.
            apart (
              sym not_build
              ∙ ap (λ o. has_prefix o (lit ".build-")) (sym same)
              ∙ ground (arith, h)))
          v
    treat-Kept incomplete i e s n h v =
        other-Kept e.name n
          (λ same. apart (
            sym (incomplete_lem i e n h)
            ∙ ap
                (λ o.
                  boot_template_ready config (template_dir config (path_of config o)) n
                  && config.files.is_file (metadata_path config (path_of config o)) n.world)
                same
            ∙ is_complete n v.1))
          v
    treat-Kept stale i e s n h v =
        elim (Bool-cases (in_use config (template_dir config (path_of config e.name)) n)) [
          | inl used ↦ rw used v
          | inr free ↦ rw free (other-Kept e.name n (unused_other e.name n free v) v)
        ]
    treat-Kept complete i e s n h v = v

    sweep-Kept :
        (i : Option BootTemplateRuntimeIdentity) (es : List DirEntry) (s : Sweep) (n : Node W)
        → Kept n
        → Kept (sweep config i es s n).1
    unfolding sweep sweep_entry
    sweep-Kept i [] s n v = v
    sweep-Kept i (e ∷ es) s n v =
        sweep-Kept i es (sweep_entry config i e s n).0 (sweep_entry config i e s n).1
          (treat-Kept (kind_of config i e n) i e s n refl v)

    dispose-Kept :
        (b : Bool) (e : BootTemplateEntry) (s : Sweep) (n : Node W)
        → Found e
        → (b ≡ false → in_use config e.template_dir n ≡ false)
        → Kept n
        → Kept (dispose config b e s n).1
    dispose-Kept true e s n f h v = v
    dispose-Kept false e s n (other, path, dir) h v =
        rw (path, dir)
          (other-Kept other n
            (unused_other other n (ap (λ d. in_use config d n) (sym dir) ∙ h refl) v) v)

    expire-Kept :
        (retain : ℕ) (es : List BootTemplateEntry) (s : Sweep) (n : Node W)
        → All Found es
        → Kept n
        → Kept (expire config retain es s n).1
    unfolding expire expire_entry
    expire-Kept retain [] s n f v = v
    expire-Kept retain (e ∷ es) s n f v =
        expire-Kept retain es (expire_entry config retain e s n).0
          (expire_entry config retain e s n).1 f.1
          (dispose-Kept (keeps config retain s.result.retained_templates e n) e s n f.0
            (λ h. ground (arith, h)) v)

    clean-Kept :
        (retain : ℕ) (es : List DirEntry) (r : Result BootTemplateRuntimeIdentity × Node W)
        → Kept r.1
        → Kept (clean config retain es r).1
    unfolding clean
    clean-Kept retain es (r, n) v =
        let swept = sweep config (identified config r).0 es (identified config r).1 n in
        expire-Kept retain (sort_entries swept.0.complete) swept.0 swept.1
          (sorted-Found swept.0.complete
            (sweep-Found (identified config r).0 es (identified config r).1 n (identified-Found r)))
          (sweep-Kept (identified config r).0 es (identified config r).1 n v)

    identity-Kept : (n : Node W) → Kept n → Kept (boot_template_identity config n).1
    identity-Kept n v = (
      ap (λ uses. ltb_ℤ (pos 0) (uses_of template uses)) (identity_uses config n) ∙ v.0,
      identity_keeps n v.1,
    )

    -- A reconciliation leaves a complete template in use alone: what holds of the world, and is
    -- kept by the look-up of the machine's identity and by the removal of any other entry, still
    -- holds, if it implies that the template's manifest and metadata are files, and its name is
    -- not that of a build.
    pub reconcile-spares :
        (retain : ℤ) (n : Node W)
        → in_use config template n ≡ true
        → I n.world
        → I (reconcile_boot_templates config retain n).1.world
    unfolding reconcile_boot_templates
    reconcile-spares (negsuc k) n u v = v
    reconcile-spares (pos retain) n u v =
        elim (Result-cases (config.files.read_dir (template_root config) n.world)) [
          | inl (e, bad) ↦ rw (bad, reconcile_boot_templates) v
          | inr (none, absent) ↦ rw (absent, reconcile_boot_templates) v
          | inr (some entries, there) ↦
              rw (there, reconcile_boot_templates)
                (clean-Kept retain entries (boot_template_identity config n)
                  (identity-Kept n (u, v))).1
        ]
