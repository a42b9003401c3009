-- ===== src/Prelude/StrMap.antt =====
-- Go maps with string keys, as association lists: `find_key` reads, `store` writes in place or at the end and
-- `remove` is Go's `delete`, so a key stands at most once.
use Prim.Native.Nat.{ℕ, ◌+◌, ◌≤◌}
use mathlib.Core.Path.{◌≡◌, refl}
use mathlib.Core.Logic.{inl, inr}
use mathlib.Core.List.{List, [], ◌∷◌}
use mathlib.Core.Option.{Option, none, some}
use native.Mathlib.Omega.{arith}
use k8s.Prelude.Tests.{if◌then◌else◌, Option-cases}
use k8s.Prelude.Text.{Str, str_eq, str_eq_iff}

abbrev pub StrMap : Type 0 → Type 0
StrMap V = List (Str × V)

module _ {V : Type 0} where
  unfoldable pub find_key : Str → StrMap V → Option V
  find_key n [] = none
  find_key n ((j, v) ∷ m) = if str_eq j n then some v else find_key n m

  unfoldable pub store : Str → V → StrMap V → StrMap V
  store n v [] = (n, v) ∷ []
  store n v ((j, u) ∷ m) = if str_eq j n then (n, v) ∷ m else (j, u) ∷ store n v m

  unfoldable pub remove : Str → StrMap V → StrMap V
  remove n [] = []
  remove n ((j, u) ∷ m) = if str_eq j n then m else (j, u) ∷ remove n m

  -- The sum over the entries of what each is worth.
  unfoldable pub total : (Str → V → ℕ) → StrMap V → ℕ
  total f [] = 0
  total f ((j, v) ∷ m) = f j v + total f m

  -- What the entry of a key is worth.
  abbrev pub worth : (Str → V → ℕ) → Str → Option V → ℕ
  worth f n none = 0
  worth f n (some v) = f n v

  pub total-store :
      (f : Str → V → ℕ) (n : Str) (v : V) (m : StrMap V)
      → total f (store n v m) + worth f n (find_key n m) ≡ total f m + f n v
  unfolding total store find_key
  total-store f n v [] = omega arith
  total-store f n v ((j, u) ∷ m) = ground (arith, str_eq_iff j n, total-store f n v m)

  pub total-remove :
      (f : Str → V → ℕ) (n : Str) (m : StrMap V)
      → total f (remove n m) + worth f n (find_key n m) ≡ total f m
  unfolding total remove find_key
  total-remove f n [] = omega arith
  total-remove f n ((j, u) ∷ m) = ground (arith, str_eq_iff j n, total-remove f n m)

  pub worth≤total :
      (f : Str → V → ℕ) (n : Str) (m : StrMap V) → worth f n (find_key n m) ≤ total f m
  unfolding total find_key
  worth≤total f n [] = omega arith
  worth≤total f n ((j, u) ∷ m) = ground (arith, str_eq_iff j n, worth≤total f n m)

  -- How often a key stands.
  abbrev pub named : Str → StrMap V → ℕ
  named n m = total (λ j v. if str_eq j n then 1 else 0) m

  pub find_key-store :
      (n j : Str) (v : V) (m : StrMap V)
      → find_key j (store n v m) ≡ (if str_eq n j then some v else find_key j m)
  unfolding find_key store
  find_key-store n j v [] = refl
  find_key-store n j v ((i, u) ∷ m) =
      ground (arith, str_eq_iff i n, str_eq_iff n j, str_eq_iff i j, find_key-store n j v m)

  pub find_key-none : (n : Str) (m : StrMap V) → named n m ≡ 0 → find_key n m ≡ none
  unfolding find_key total
  find_key-none n [] h = refl
  find_key-none n ((i, u) ∷ m) h = ground (arith, find_key-none n m)

  pub find_key-remove :
      (n j : Str) (m : StrMap V)
      → named n m ≤ 1
      → find_key j (remove n m) ≡ (if str_eq n j then none else find_key j m)
  unfolding find_key remove total
  find_key-remove n j [] h = ground arith
  find_key-remove n j ((i, u) ∷ m) h = ground (
    arith,
    str_eq_iff i n,
    str_eq_iff n j,
    str_eq_iff i j,
    find_key-none n m,
    find_key-remove n j m,
  )

  pub named_none : (n : Str) (m : StrMap V) → find_key n m ≡ none → named n m ≡ 0
  unfolding find_key total
  named_none n [] h = refl
  named_none n ((i, u) ∷ m) h = ground (arith, named_none n m)

  pub named-store : (n j : Str) (v : V) (m : StrMap V) → named j m ≤ 1 → named j (store n v m) ≤ 1
  named-store n j v m h = elim (Option-cases (find_key n m)) [
    | inl e ↦ ground (
      arith,
      e,
      str_eq_iff n j,
      named_none n m e,
      named_none j m,
      total-store (λ i w. if str_eq i j then 1 else 0) n v m,
    )
    | inr (w, e) ↦ ground (arith, e, h, total-store (λ i w. if str_eq i j then 1 else 0) n v m)
  ]

  pub named-remove : (n j : Str) (m : StrMap V) → named j m ≤ 1 → named j (remove n m) ≤ 1
  named-remove n j m h = omega (arith, h, total-remove (λ i w. if str_eq i j then 1 else 0) n m)
