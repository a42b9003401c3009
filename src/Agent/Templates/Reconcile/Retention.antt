-- ===== src/Agent/Templates/Reconcile/Retention.antt =====
-- Which complete templates internal/agent/template_reconcile.go removes and which it retains.
use k8s.Prelude.{
  ℕ, zero, suc, ◌+◌, ◌-◌, ◌≡◌, refl, ap, ◌∙◌, min, Bool, true, false, List, [], ◌∷◌, if◌then◌else◌,
  length, arith, ltb, Bool-cases, inl, inr,
}
use k8s.Prelude.Int.{ℤ, pos, ltb_ℤ}
use k8s.Prelude.StrMap.{StrMap}
use k8s.Errors.{Checked, ok, err}
use k8s.Agent.Client.{Config, Node}
use k8s.Agent.Templates.{uses_of}
use k8s.Agent.Templates.Reconcile.{
  BootTemplateEntry, Sweep, count_removal, count_removed, count_retained,
  remove_boot_template_entry, dispose, expire_entry, expire,
}
use k8s.Agent.Templates.Reconcile.Removal.{removal_uses}

abbrev pub drop : ℕ → List BootTemplateEntry → List BootTemplateEntry
drop zero es = es
drop (suc k) [] = []
drop (suc k) (e ∷ es) = drop k es

abbrev used : StrMap ℤ → BootTemplateEntry → Bool
used uses e = ltb_ℤ (pos 0) (uses_of e.template_dir uses)

-- The templates that no one uses, and the number of those in use.
unfoldable pub unused : StrMap ℤ → List BootTemplateEntry → List BootTemplateEntry
unused uses [] = []
unused uses (e ∷ es) = if used uses e then unused uses es else e ∷ unused uses es

unfoldable pub number_used : StrMap ℤ → List BootTemplateEntry → ℕ
number_used uses [] = 0
number_used uses (e ∷ es) = (if used uses e then 1 else 0) + number_used uses es

retained_again :
    (j k : ℕ) (s : Sweep) → count_retained k (count_retained j s) ≡ count_retained (j + k) s
retained_again j k s =
    ap
      (λ m. record {
        result = record {
          removed_builds = s.result.removed_builds;
          removed_templates = s.result.removed_templates;
          retained_templates = m;
        };
        complete = s.complete;
        stale_in_use = s.stale_in_use;
        errors = s.errors;
      })
      (omega arith)

retained_none : (s : Sweep) (k : ℕ) → k ≡ 0 → s ≡ count_retained k s
retained_none s k h =
    ap
      (λ m. record {
        result = record {
          removed_builds = s.result.removed_builds;
          removed_templates = s.result.removed_templates;
          retained_templates = m;
        };
        complete = s.complete;
        stale_in_use = s.stale_in_use;
        errors = s.errors;
      })
      (omega (arith, h))

counted_retained :
    (s : Sweep) (c : Checked)
    → (count_removal count_removed s c).result.retained_templates ≡ s.result.retained_templates
counted_retained s (ok _) = refl
counted_retained s (err e) = refl

retained_counted :
    (k : ℕ) (s : Sweep) (c : Checked)
    → count_retained k (count_removal count_removed s c)
      ≡ count_removal count_removed (count_retained k s) c
retained_counted k s (ok _) = refl
retained_counted k s (err e) = refl

module _ {W : Type 0} (config : Config W) where
  -- The removal of each of a list of templates.
  unfoldable pub remove_each : List BootTemplateEntry → Sweep → Node W → Sweep × Node W
  remove_each [] s n = (s, n)
  remove_each (e ∷ es) s n =
      remove_each es (dispose config false e s n).0 (dispose config false e s n).1

  -- The complete templates behind the number still to be retained, and how many are retained.
  abbrev pub behind : ℕ → List BootTemplateEntry → Node W → List BootTemplateEntry
  behind free es n = unused n.template_uses (drop free es)

  abbrev pub kept : ℕ → List BootTemplateEntry → Node W → ℕ
  kept free es n = min free (length es) + number_used n.template_uses (drop free es)

  abbrev pub Expired : ℕ → List BootTemplateEntry → Sweep → Node W → Type 0
  Expired retain es s n =
      expire config retain es s n
      ≡ remove_each (behind (retain - s.result.retained_templates) es n)
          (count_retained (kept (retain - s.result.retained_templates) es n) s) n

  abbrev rest_at : ℕ → List BootTemplateEntry → Sweep → Node W → Sweep × Node W
  rest_at free es s n = remove_each (behind free es n) (count_retained (kept free es n) s) n

  counted_again :
      (l : List BootTemplateEntry) (k m : ℕ) (s : Sweep) (n : Node W)
      → k + 1 ≡ m
      → remove_each l (count_retained k (count_retained 1 s)) n
        ≡ remove_each l (count_retained m s) n
  counted_again l k m s n h =
      ap (λ x. remove_each l x n)
        (retained_again 1 k s ∙ ap (λ j. count_retained j s) (omega (arith, h)))

  keep_first :
      (e : BootTemplateEntry) (f : ℕ) (es : List BootTemplateEntry) (s : Sweep) (n : Node W)
      → rest_at f es (count_retained 1 s) n ≡ rest_at (suc f) (e ∷ es) s n
  keep_first e f es s n =
      counted_again (behind f es n) (kept f es n) (kept (suc f) (e ∷ es) n) s n (omega arith)

  keep_used :
      (e : BootTemplateEntry) (es : List BootTemplateEntry) (s : Sweep) (n : Node W)
      → used n.template_uses e ≡ true
      → rest_at 0 es (count_retained 1 s) n ≡ rest_at 0 (e ∷ es) s n
  unfolding unused number_used
  keep_used e es s n h =
      rw (h, unused, number_used)
        (counted_again (unused n.template_uses es) (kept 0 es n) _ s n (omega arith))

  drop_unused :
      (e : BootTemplateEntry) (es : List BootTemplateEntry) (s : Sweep) (n : Node W)
      → used n.template_uses e ≡ false
      → rest_at 0 es (dispose config false e s n).0 (dispose config false e s n).1
        ≡ rest_at 0 (e ∷ es) s n
  unfolding unused number_used remove_each
  drop_unused e es s n h =
      let r = remove_boot_template_entry config e.path e.template_dir n in
      rw (h, unused, number_used)
        (ap
            (λ u.
              remove_each (unused u es)
                (count_retained (min 0 (length es) + number_used u es)
                  (count_removal count_removed s r.0))
                r.1)
            (removal_uses config e.path e.template_dir n)
          ∙ ap (λ x. remove_each (unused n.template_uses es) x r.1)
              (retained_counted (kept 0 es n) s r.0
                ∙ ap (λ j. count_removal count_removed (count_retained j s) r.0) (omega arith)))

  at_free :
      (g h : ℕ) (es : List BootTemplateEntry) (s : Sweep) (n : Node W)
      → g ≡ h
      → rest_at g es s n ≡ rest_at h es s n
  at_free g h es s n e = ap (λ f. rest_at f es s n) e

  rest_at_nil : (g : ℕ) (s : Sweep) (n : Node W) → (s, n) ≡ rest_at g [] s n
  unfolding remove_each unused number_used
  rest_at_nil zero s n = ap (λ x. (x, n)) (retained_none s _ (omega arith))
  rest_at_nil (suc g) s n = ap (λ x. (x, n)) (retained_none s _ (omega arith))

  disposed_retained :
      (e : BootTemplateEntry) (s : Sweep) (n : Node W)
      → (dispose config false e s n).0.result.retained_templates ≡ s.result.retained_templates
  disposed_retained e s n =
      counted_retained s (remove_boot_template_entry config e.path e.template_dir n).0

  -- The loop over the complete templates, newest first, retains as many of the first as are still
  -- to be retained and those behind that are in use, counts them, and removes the others in their
  -- order.
  pub expire_lem :
      (retain : ℕ) (es : List BootTemplateEntry) (s : Sweep) (n : Node W) → Expired retain es s n
  unfolding expire expire_entry remove_each unused number_used
  expire_lem retain [] s n = rest_at_nil (retain - s.result.retained_templates) s n
  expire_lem retain (e ∷ es) s n = elim (Bool-cases (ltb s.result.retained_templates retain)) [
    | inl more ↦
        rw (more, expire_entry)
          (expire_lem retain es (count_retained 1 s) n
            ∙ (keep_first e (retain - (s.result.retained_templates + 1)) es s n
                ∙ at_free (suc (retain - (s.result.retained_templates + 1)))
                    (retain - s.result.retained_templates) (e ∷ es) s n (ground (arith, more))))
    | inr enough ↦ elim (Bool-cases (used n.template_uses e)) [
      | inl busy ↦
          rw (enough, busy, expire_entry)
            (expire_lem retain es (count_retained 1 s) n
              ∙ (at_free (retain - (s.result.retained_templates + 1)) 0 es (count_retained 1 s) n
                    (ground (arith, enough))
                  ∙ (keep_used e es s n busy
                      ∙ at_free 0 (retain - s.result.retained_templates) (e ∷ es) s n
                          (ground (arith, enough)))))
      | inr free ↦
          rw (enough, free, expire_entry)
            (expire_lem retain es (dispose config false e s n).0 (dispose config false e s n).1
              ∙ (at_free (retain - (dispose config false e s n).0.result.retained_templates) 0 es
                    (dispose config false e s n).0 (dispose config false e s n).1
                    (ground (arith, enough, disposed_retained e s n))
                  ∙ (drop_unused e es s n free
                      ∙ at_free 0 (retain - s.result.retained_templates) (e ∷ es) s n
                          (ground (arith, enough)))))
    ]
  ]
