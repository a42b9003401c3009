-- ===== src/Prelude/IntMap.antt =====
-- Go maps with integer keys, as association lists: `get` reads, `put` writes in place or at the end, so a
-- key stands at most once and `length` is Go's `len`.
use mathlib.Core.Path.{◌≡◌, refl}
use mathlib.Core.Bool.{Bool, true, false}
use mathlib.Core.List.{List, [], ◌∷◌}
use mathlib.Core.Option.{Option, none, some}
use Prim.Native.Nat.{suc}
use native.Mathlib.Omega.{arith}
use k8s.Prelude.Tests.{if◌then◌else◌}
use k8s.Prelude.Lists.{length}
use k8s.Prelude.Int.{ℤ, eq_ℤ}

abbrev pub IntMap : Type 0 → Type 0
IntMap V = List (ℤ × V)

module _ {V : Type 0} where
  unfoldable pub get : ℤ → IntMap V → Option V
  get k [] = none
  get k ((j, v) ∷ m) = if eq_ℤ j k then some v else get k m

  unfoldable pub put : ℤ → V → IntMap V → IntMap V
  put k v [] = (k, v) ∷ []
  put k v ((j, u) ∷ m) = if eq_ℤ j k then (k, v) ∷ m else (j, u) ∷ put k v m

  abbrev pub has : ℤ → IntMap V → Bool
  has k m = elim (get k m) [ none ↦ false | some _ ↦ true ]

  pub get-put :
      (k j : ℤ) (v : V) (m : IntMap V) → get j (put k v m) ≡ (if eq_ℤ k j then some v else get j m)
  unfolding get put
  get-put k j v [] = refl
  get-put k j v ((i, u) ∷ m) = ground (arith, get-put k j v m)

  pub length-put :
      (k : ℤ) (v : V) (m : IntMap V)
      → length (put k v m) ≡ (if has k m then length m else suc (length m))
  unfolding get put
  length-put k v [] = refl
  length-put k v ((i, u) ∷ m) = ground (arith, length-put k v m)
