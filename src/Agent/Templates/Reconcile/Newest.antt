-- ===== src/Agent/Templates/Reconcile/Newest.antt =====
-- The order of the complete templates in internal/agent/template_reconcile.go, and its loop over them.
use mathlib.Core.List.{Perm}
use mathlib.Core.List.Perm
use k8s.Prelude.{
  ℕ, ◌≡◌, refl, sym, ◌∙◌, ◌⊎◌, inl, inr, Bool-cases, true, false, List, [], ◌∷◌, All, arith,
}
use k8s.Prelude.Int.{◌<ℤ◌, eq_ℤ, eq_ℤ_iff}
use k8s.Prelude.Text.{str_lt}
use k8s.Prelude.TextOrder.{str_lt_asymm, str_not_lt_trans}
use k8s.Errors.{Result}
use k8s.Agent.Client.{BootTemplateRuntimeIdentity, DirEntry, Config, Node}
use k8s.Agent.Templates.Reconcile.{
  BootTemplateEntry, Sweep, before_entry, insert_entry, sort_entries, identified, sweep, expire,
  clean,
}
use k8s.Agent.Templates.Reconcile.Retention.{Expired, expire_lem}

-- The first is newer, or of the same time and not of a lesser path.
abbrev pub NotOlder : BootTemplateEntry → BootTemplateEntry → Type 0
NotOlder a b =
    (b.modified_ns <ℤ a.modified_ns)
    ⊎ ((b.modified_ns ≡ a.modified_ns) × (str_lt a.path b.path ≡ false))

abbrev pub NewestFirst : List BootTemplateEntry → Type 0
NewestFirst [] = Unit
NewestFirst (a ∷ l) = All (NotOlder a) l × NewestFirst l

before-NotOlder : (a b : BootTemplateEntry) → before_entry b a ≡ true → NotOlder b a
unfolding before_entry
before-NotOlder a b h = elim (Bool-cases (eq_ℤ b.modified_ns a.modified_ns)) [
  | inl same ↦ inr (
    sym ((eq_ℤ_iff b.modified_ns a.modified_ns).0 same),
    str_lt_asymm a.path b.path (ground (arith, h, same)),
  )
  | inr apart ↦ inl (ground (arith, h, apart))
]

behind-NotOlder : (a b : BootTemplateEntry) → before_entry b a ≡ false → NotOlder a b
unfolding before_entry
behind-NotOlder a b h = elim (Bool-cases (eq_ℤ b.modified_ns a.modified_ns)) [
  | inl same ↦ inr ((eq_ℤ_iff b.modified_ns a.modified_ns).0 same, ground (arith, h, same))
  | inr apart ↦ inl (ground (arith, h, apart))
]

NotOlder-trans : (a b c : BootTemplateEntry) → NotOlder a b → NotOlder b c → NotOlder a c
NotOlder-trans a b c (inl h) (inl k) = inl (omega (arith, h, k))
NotOlder-trans a b c (inl h) (inr (same, k)) = inl (ground (arith, h, same))
NotOlder-trans a b c (inr (same, h)) (inl k) = inl (ground (arith, k, same))
NotOlder-trans a b c (inr (e, h)) (inr (f, k)) =
    inr (f ∙ e, str_not_lt_trans c.path b.path a.path k h)

All_weaken :
    (a b : BootTemplateEntry) (l : List BootTemplateEntry)
    → NotOlder a b
    → All (NotOlder b) l
    → All (NotOlder a) l
All_weaken a b [] h v = tt
All_weaken a b (c ∷ l) h v = (NotOlder-trans a b c h v.0, All_weaken a b l h v.1)

pub insert_entry-All :
    (P : BootTemplateEntry → Type 0) (a : BootTemplateEntry) (l : List BootTemplateEntry)
    → P a
    → All P l
    → All P (insert_entry a l)
unfolding insert_entry
insert_entry-All P a [] h v = (h, tt)
insert_entry-All P a (b ∷ l) h v = elim (Bool-cases (before_entry b a)) [
  | inl e ↦ rw (e, insert_entry) (v.0, insert_entry-All P a l h v.1)
  | inr e ↦ rw (e, insert_entry) (h, v)
]

insert_entry-NewestFirst :
    (a : BootTemplateEntry) (l : List BootTemplateEntry)
    → NewestFirst l
    → NewestFirst (insert_entry a l)
unfolding insert_entry
insert_entry-NewestFirst a [] v = (tt, tt)
insert_entry-NewestFirst a (b ∷ l) v = elim (Bool-cases (before_entry b a)) [
  | inl e ↦
      rw (e, insert_entry)
        (
          insert_entry-All (NotOlder b) a l (before-NotOlder a b e) v.0,
          insert_entry-NewestFirst a l v.1,
        )
  | inr e ↦
      rw (e, insert_entry)
        ((behind-NotOlder a b e, All_weaken a b l (behind-NotOlder a b e) v.0), v)
]

sort_entries-NewestFirst : (l : List BootTemplateEntry) → NewestFirst (sort_entries l)
unfolding sort_entries
sort_entries-NewestFirst [] = tt
sort_entries-NewestFirst (a ∷ l) =
    insert_entry-NewestFirst a (sort_entries l) (sort_entries-NewestFirst l)

insert_entry-perm :
    (a : BootTemplateEntry) (l : List BootTemplateEntry) → Perm (insert_entry a l) (a ∷ l)
unfolding insert_entry
insert_entry-perm a [] = Perm.rfl
insert_entry-perm a (b ∷ l) = elim (Bool-cases (before_entry b a)) [
  | inl e ↦
      rw (e, insert_entry) (Perm.trans (Perm.cons b (insert_entry-perm a l)) (Perm.swap a b l))
  | inr e ↦ rw (e, insert_entry) Perm.rfl
]

sort_entries-perm : (l : List BootTemplateEntry) → Perm (sort_entries l) l
unfolding sort_entries
sort_entries-perm [] = Perm.rfl
sort_entries-perm (a ∷ l) =
    Perm.trans (insert_entry-perm a (sort_entries l)) (Perm.cons a (sort_entries-perm l))

module _ {W : Type 0} (config : Config W) where
  -- What the loop over the directory has found, and the state behind it.
  abbrev pub swept : List DirEntry → Result BootTemplateRuntimeIdentity → Node W → Sweep × Node W
  swept entries identity n =
      sweep config (identified config identity).0 entries (identified config identity).1 n

  -- Behind the loop over the directory, a reconciliation goes over the complete templates that it
  -- has found newest first, those of the same time by their path from the last: it retains as many
  -- of the first as are still to be retained and those behind that are in use, counts them, and
  -- removes the others in their order.
  pub expire-removes :
      (retain : ℕ) (entries : List DirEntry) (identity : Result BootTemplateRuntimeIdentity)
      (n : Node W)
      → (sorted : List BootTemplateEntry) × Perm sorted (swept entries identity n).0.complete
        × NewestFirst sorted
        × (clean config retain entries (identity, n)
            ≡ expire config retain sorted (swept entries identity n).0 (swept entries identity n).1)
        × Expired config retain sorted (swept entries identity n).0 (swept entries identity n).1
  unfolding clean
  expire-removes retain entries identity n =
      let (s, n') = swept entries identity n in
      (
        sort_entries s.complete,
        sort_entries-perm s.complete,
        sort_entries-NewestFirst s.complete,
        refl,
        expire_lem config retain (sort_entries s.complete) s n',
      )
