-- ===== src/Agent/Templates/Reconcile/Accounting.antt =====
-- What internal/agent/template_reconcile.go counts.
use k8s.Prelude.{
  ℕ, suc, ◌+◌, ◌≤◌, ◌≡◌, refl, ap, Bool, true, false, ◌&&◌, ◌||◌, List, [], ◌∷◌, Option, none, some,
  if◌then◌else◌, length, length-append, arith, Bool-cases, inl, inr,
}
use k8s.Prelude.Int.{pos}
use k8s.Prelude.Text.{Str, lit, has_prefix}
use k8s.Errors.{Checked, Result, ok, err, join_errors_none}
use k8s.Agent.Client.{BootTemplateRuntimeIdentity, DirEntry, Config, Node}
use k8s.Agent.Templates.{template_dir, template_root, boot_template_identity}
use k8s.Agent.Templates.Reconcile.{
  TemplateReconcileResult, BootTemplateEntry, Sweep, Kind, ignored, abandoned, incomplete, stale,
  complete, count_removal, count_removed, treat, dispose, no_sweep, is_boot_template_entry_name,
  insert_entry, sort_entries, kind_of, sweep_entry, sweep, expire_entry, expire, keeps, clean,
  reconcile_boot_templates, in_use, remove_boot_template_entry, count_build, path_of, identified,
}

-- Whether an entry of the directory is a template's or an abandoned build's.
abbrev pub counts : DirEntry → Bool
counts e = e.is_dir && (has_prefix e.name (lit ".build-") || is_boot_template_entry_name e.name)

unfoldable pub number_of : List DirEntry → ℕ
number_of [] = 0
number_of (e ∷ es) = (if counts e then 1 else 0) + number_of es

-- The entries that the loops have settled, and those found complete.
abbrev settled : Sweep → ℕ
settled s =
    s.result.removed_builds
    + s.result.removed_templates
    + s.result.retained_templates
    + s.stale_in_use
    + length s.errors

abbrev seen : Sweep → ℕ
seen s = settled s + length s.complete

counted_settled :
    (count : Sweep → Sweep) (s : Sweep) (c : Checked)
    → settled (count s) ≡ suc (settled s)
    → settled (count_removal count s c) ≡ suc (settled s)
counted_settled count s (ok _) h = h
counted_settled count s (err e) h = omega (arith, length-append s.errors (e ∷ []))

counted_seen :
    (count : Sweep → Sweep) (s : Sweep) (c : Checked)
    → seen (count s) ≡ suc (seen s)
    → seen (count_removal count s c) ≡ suc (seen s)
counted_seen count s (ok _) h = h
counted_seen count s (err e) h = omega (arith, length-append s.errors (e ∷ []))

abbrev weight : Kind → ℕ
weight ignored = 0
weight abandoned = 1
weight incomplete = 1
weight stale = 1
weight complete = 1

module _ {W : Type 0} (config : Config W) where
  kind_weight :
      (i : Option BootTemplateRuntimeIdentity) (e : DirEntry) (n : Node W)
      → weight (kind_of config i e n) ≡ (if counts e then 1 else 0)
  unfolding kind_of
  kind_weight i e n = ground arith

  seen-treat :
      (k : Kind) (entry : Str) (s : Sweep) (n : Node W)
      → seen (treat config k entry s n).0 ≡ seen s + weight k
  seen-treat ignored entry s n = omega arith
  seen-treat abandoned entry s n = omega (
    arith,
    counted_seen count_build s (remove_boot_template_entry config entry _ n).0 (omega arith),
  )
  seen-treat incomplete entry s n = omega (
    arith,
    counted_seen count_removed s (remove_boot_template_entry config entry _ n).0 (omega arith),
  )
  seen-treat stale entry s n = elim (Bool-cases (in_use config (template_dir config entry) n)) [
    | inl used ↦ ground (arith, used)
    | inr free ↦ ground (
      arith,
      free,
      counted_seen count_removed s
          (remove_boot_template_entry config entry (template_dir config entry) n).0 (omega arith),
    )
  ]
  seen-treat complete entry s n = omega (arith, length-append s.complete (_ ∷ []))

  seen-sweep :
      (i : Option BootTemplateRuntimeIdentity) (es : List DirEntry) (s : Sweep) (n : Node W)
      → seen (sweep config i es s n).0 ≡ seen s + number_of es
  unfolding sweep sweep_entry number_of
  seen-sweep i [] s n = omega arith
  seen-sweep i (e ∷ es) s n = omega (
    arith,
    kind_weight i e n,
    seen-treat (kind_of config i e n) (path_of config e.name) s n,
    seen-sweep i es (sweep_entry config i e s n).0 (sweep_entry config i e s n).1,
  )

  settled-dispose :
      (b : Bool) (e : BootTemplateEntry) (s : Sweep) (n : Node W)
      → settled (dispose config b e s n).0 ≡ suc (settled s)
  settled-dispose true e s n = omega arith
  settled-dispose false e s n =
      counted_settled count_removed s (remove_boot_template_entry config e.path e.template_dir n).0
        (omega arith)

  settled-expire :
      (retain : ℕ) (es : List BootTemplateEntry) (s : Sweep) (n : Node W)
      → settled (expire config retain es s n).0 ≡ settled s + length es
  unfolding expire expire_entry
  settled-expire retain [] s n = omega arith
  settled-expire retain (e ∷ es) s n = omega (
    arith,
    settled-dispose (keeps config retain s.result.retained_templates e n) e s n,
    settled-expire retain es (expire_entry config retain e s n).0
        (expire_entry config retain e s n).1,
  )

-- An error is not forgotten.
abbrev Failing : Sweep → Type 0
Failing s = 1 ≤ length s.errors

counted-Failing :
    (count : Sweep → Sweep) (s : Sweep) (c : Checked)
    → Failing (count s)
    → Failing (count_removal count s c)
counted-Failing count s (ok _) h = h
counted-Failing count s (err e) h = omega (arith, length-append s.errors (e ∷ []))

module _ {W : Type 0} (config : Config W) where
  treat-Failing :
      (k : Kind) (entry : Str) (s : Sweep) (n : Node W)
      → Failing s
      → Failing (treat config k entry s n).0
  treat-Failing ignored entry s n h = h
  treat-Failing abandoned entry s n h =
      counted-Failing count_build s (remove_boot_template_entry config entry _ n).0 h
  treat-Failing incomplete entry s n h =
      counted-Failing count_removed s (remove_boot_template_entry config entry _ n).0 h
  treat-Failing stale entry s n h =
      elim (Bool-cases (in_use config (template_dir config entry) n)) [
        | inl used ↦ rw used h
        | inr free ↦
            rw free
              (counted-Failing count_removed s (remove_boot_template_entry config entry _ n).0 h)
      ]
  treat-Failing complete entry s n h = h

  sweep-Failing :
      (i : Option BootTemplateRuntimeIdentity) (es : List DirEntry) (s : Sweep) (n : Node W)
      → Failing s
      → Failing (sweep config i es s n).0
  unfolding sweep sweep_entry
  sweep-Failing i [] s n h = h
  sweep-Failing i (e ∷ es) s n h =
      sweep-Failing i es (sweep_entry config i e s n).0 (sweep_entry config i e s n).1
        (treat-Failing (kind_of config i e n) (path_of config e.name) s n h)

  dispose-Failing :
      (b : Bool) (e : BootTemplateEntry) (s : Sweep) (n : Node W)
      → Failing s
      → Failing (dispose config b e s n).0
  dispose-Failing true e s n h = h
  dispose-Failing false e s n h =
      counted-Failing count_removed s (remove_boot_template_entry config e.path e.template_dir n).0
        h

  expire-Failing :
      (retain : ℕ) (es : List BootTemplateEntry) (s : Sweep) (n : Node W)
      → Failing s
      → Failing (expire config retain es s n).0
  unfolding expire expire_entry
  expire-Failing retain [] s n h = h
  expire-Failing retain (e ∷ es) s n h =
      expire-Failing retain es (expire_entry config retain e s n).0
        (expire_entry config retain e s n).1
        (dispose-Failing (keeps config retain s.result.retained_templates e n) e s n h)

insert_length :
    (a : BootTemplateEntry) (l : List BootTemplateEntry)
    → length (insert_entry a l) ≡ suc (length l)
unfolding insert_entry
insert_length a [] = refl
insert_length a (b ∷ l) = ground (arith, insert_length a l)

sort_length : (l : List BootTemplateEntry) → length (sort_entries l) ≡ length l
unfolding sort_entries
sort_length [] = refl
sort_length (a ∷ l) = ground (arith, sort_length l, insert_length a (sort_entries l))

module _ {W : Type 0} (config : Config W) where
  settled-clean :
      (retain : ℕ) (entries : List DirEntry) (r : Result BootTemplateRuntimeIdentity × Node W)
      → length (clean config retain entries r).0.errors ≡ 0
      → settled (clean config retain entries r).0 ≡ number_of entries
  unfolding clean
  settled-clean retain entries (ok i, n) h =
      let swept = sweep config (some i) entries no_sweep n in
      omega (
        arith,
        seen-sweep config (some i) entries no_sweep n,
        sort_length swept.0.complete,
        settled-expire config retain (sort_entries swept.0.complete) swept.0 swept.1,
      )
  settled-clean retain entries (err e, n) h =
      let s : Sweep = (identified config (err e)).1 in
      let swept = sweep config none entries s n in
      absurd (
        omega (
          arith,
          h,
          expire-Failing config retain (sort_entries swept.0.complete) swept.0 swept.1
              (sweep-Failing config none entries s n (omega arith)),
        ))

  -- A reconciliation without an error, of a directory that can be read, has accounted for each
  -- template and each abandoned build of it once: as removed or as retained.
  pub reconcile-accounts :
      (retain : ℕ) (n : Node W) (entries : List DirEntry) (r : TemplateReconcileResult)
      → config.files.read_dir (template_root config) n.world ≡ ok (some entries)
      → (reconcile_boot_templates config (pos retain) n).0 ≡ (r, ok tt)
      → r.removed_builds + r.removed_templates + r.retained_templates ≡ number_of entries
  unfolding reconcile_boot_templates
  reconcile-accounts retain n entries r there =
      rw (there, reconcile_boot_templates)
        (λ h.
          let c = clean config retain entries (boot_template_identity config n) in
          let none_failed = ap length (join_errors_none c.0.errors (ap (λ x. x.1) h)) in
          ground (
            arith,
            h,
            none_failed,
            settled-clean retain entries (boot_template_identity config n) none_failed,
          ))
