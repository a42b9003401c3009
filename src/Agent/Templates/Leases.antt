-- ===== src/Agent/Templates/Leases.antt =====
-- The uses of boot templates in internal/agent/interactive.go.
use k8s.Prelude.{
  ℕ, zero, suc, ◌+◌, ◌≤◌, ◌≡◌, refl, false, ◌&&◌, not, List, [], ◌∷◌, ◌++◌, Option, none, some,
  if◌then◌else◌, arith, Bool-cases, Option-cases, inl, inr,
}
use k8s.Prelude.Int.{ℤ, pos, ◌+ℤ◌, sub_ℤ, eq_ℤ}
use k8s.Prelude.Text.{Str, str_eq, str_eq_iff, str_eq_refl}
use k8s.Prelude.StrMap.{
  StrMap, store, named, find_key-store, find_key-remove, named-store, named-remove,
}
use k8s.Agent.Client.{TemplateLease, Node}
use k8s.Agent.Templates.{
  uses_of, lease_boot_template, fire_lease, use_less, give_use_back, release_boot_template,
}

-- The leases of a directory whose release closure has not been called.
unfoldable pub open_leases : Str → List TemplateLease → ℕ
open_leases dir [] = 0
open_leases dir (l ∷ ls) =
    (if not l.done && str_eq l.template_dir dir then 1 else 0) + open_leases dir ls

-- The count of a directory's users is the number of its open leases, and a directory stands once.
pub record IsLeased (uses : StrMap ℤ) (ls : List TemplateLease) : Type 0 where
  pub counted : (dir : Str) → uses_of dir uses ≡ pos (open_leases dir ls)
  pub once : (dir : Str) → named dir uses ≤ 1

open_leases-append :
    (dir other : Str) (ls : List TemplateLease)
    → open_leases dir (ls ++ (record { template_dir = other; done = false } ∷ []))
      ≡ open_leases dir ls + (if str_eq other dir then 1 else 0)
unfolding open_leases
open_leases-append dir other [] = ground arith
open_leases-append dir other (l ∷ ls) = ground (arith, open_leases-append dir other ls)

pub data Lease : Type 0 where
  take_use : Str → Lease
  give_use_up : ℕ → Lease

unfoldable pub use_step : {W : Type 0} → Lease → Node W → Node W
use_step (take_use dir) n = (lease_boot_template dir n).1
use_step (give_use_up k) n = release_boot_template k n

unfoldable pub use_steps : {W : Type 0} → List Lease → Node W → Node W
use_steps [] n = n
use_steps (x ∷ xs) n = use_steps xs (use_step x n)

lease-keeps_IsLeased :
    (other : Str) (uses : StrMap ℤ) (ls : List TemplateLease)
    → IsLeased uses ls
    → IsLeased
        (store other (uses_of other uses +ℤ pos 1) uses)
        (ls ++ (record { template_dir = other; done = false } ∷ []))
unfolding ◌+ℤ◌
lease-keeps_IsLeased other uses ls v = record {
  counted = λ dir. ground (
    arith,
    str_eq_iff other dir,
    v.counted other,
    v.counted dir,
    find_key-store other dir (uses_of other uses +ℤ pos 1) uses,
    open_leases-append dir other ls,
  );
  once = λ dir. named-store other dir (uses_of other uses +ℤ pos 1) uses (v.once dir);
}

-- What a call of a closure does to the open leases of a directory.
abbrev Fired : Str → List TemplateLease → Option Str × List TemplateLease → Type 0
Fired dir ls (none, ls') = open_leases dir ls' ≡ open_leases dir ls
Fired dir ls (some other, ls') =
    (open_leases dir ls ≡ open_leases dir ls' + (if str_eq other dir then 1 else 0))

fired : (dir : Str) (k : ℕ) (ls : List TemplateLease) → Fired dir ls (fire_lease k ls)
unfolding fire_lease open_leases
fired dir k [] = refl
fired dir zero (l ∷ ls) = elim (Bool-cases l.done) [
  | inl done ↦ ground (arith, done)
  | inr fresh ↦ ground (arith, fresh)
]
fired dir (suc k) (l ∷ ls) = elim (Option-cases (fire_lease k ls).0) [
  | inl e ↦ ground (arith, e, fired dir k ls)
  | inr (n, e) ↦ ground (arith, e, fired dir k ls)
]

released-IsLeased :
    (uses : StrMap ℤ) (ls : List TemplateLease) (r : Option Str × List TemplateLease)
    → IsLeased uses ls
    → ((dir : Str) → Fired dir ls r)
    → IsLeased (give_use_back r.0 uses) r.1
unfolding use_less sub_ℤ
released-IsLeased uses ls (none, ls') v f = record {
  counted = λ dir. ground (arith, v.counted dir, f dir);
  once = v.once;
}
released-IsLeased uses ls (some other, ls') v f =
    elim (Bool-cases (eq_ℤ (sub_ℤ (uses_of other uses) (pos 1)) (pos 0))) [
      | inl last ↦
          rw (last, use_less)
            (record {
              counted = λ dir. ground (
                arith,
                last,
                str_eq_iff other dir,
                str_eq_refl other,
                f dir,
                f other,
                v.counted dir,
                v.counted other,
                find_key-remove other dir uses (v.once other),
              );
              once = λ dir. named-remove other dir uses (v.once dir);
            })
      | inr more ↦
          rw (more, use_less)
            (record {
              counted = λ dir. ground (
                arith,
                str_eq_iff other dir,
                str_eq_refl other,
                f dir,
                f other,
                v.counted dir,
                v.counted other,
                find_key-store other dir (sub_ℤ (uses_of other uses) (pos 1)) uses,
              );
              once = λ dir.
                  named-store other dir (sub_ℤ (uses_of other uses) (pos 1)) uses (v.once dir);
            })
    ]

-- Over any sequence of leases and of calls of their release closures, in any order and however
-- often each is called, the count of a template's users is the number of its leases whose closure
-- has not been called.
pub use_steps-IsLeased :
    {W : Type 0} (xs : List Lease) (n : Node W)
    → IsLeased n.template_uses n.template_leases
    → IsLeased (use_steps xs n).template_uses (use_steps xs n).template_leases
unfolding use_steps use_step lease_boot_template release_boot_template
use_steps-IsLeased [] n v = v
use_steps-IsLeased (take_use dir ∷ xs) n v =
    use_steps-IsLeased xs (lease_boot_template dir n).1
      (lease-keeps_IsLeased dir n.template_uses n.template_leases v)
use_steps-IsLeased (give_use_up k ∷ xs) n v = use_steps-IsLeased xs (release_boot_template k n) (
    released-IsLeased n.template_uses n.template_leases (fire_lease k n.template_leases) v
      (λ dir. fired dir k n.template_leases))
