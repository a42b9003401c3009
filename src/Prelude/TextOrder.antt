-- ===== src/Prelude/TextOrder.antt =====
-- The order of strings.
use mathlib.Core.Path.{◌≡◌, refl}
use mathlib.Core.Bool.{true, false}
use mathlib.Core.List.{[], ◌∷◌}
use native.Mathlib.Omega.{arith}
use k8s.Prelude.Text.{Str, str_lt}

pub str_lt_irrefl : (s : Str) → str_lt s s ≡ false
unfolding str_lt
str_lt_irrefl [] = refl
str_lt_irrefl (c ∷ s) = ground (arith, str_lt_irrefl s)

pub str_lt_asymm : (s t : Str) → str_lt s t ≡ true → str_lt t s ≡ false
unfolding str_lt
str_lt_asymm [] [] h = refl
str_lt_asymm [] (d ∷ t) h = refl
str_lt_asymm (c ∷ s) [] h = cc
str_lt_asymm (c ∷ s) (d ∷ t) h = ground (arith, str_lt_asymm s t)

pub str_lt_connected : (s t : Str) → str_lt s t ≡ false → str_lt t s ≡ false → s ≡ t
unfolding str_lt
str_lt_connected [] [] h k = refl
str_lt_connected [] (d ∷ t) h k = cc
str_lt_connected (c ∷ s) [] h k = cc
str_lt_connected (c ∷ s) (d ∷ t) h k = ground (arith, str_lt_connected s t)

-- `not less` is transitive.
pub str_not_lt_trans : (s t u : Str) → str_lt t s ≡ false → str_lt u t ≡ false → str_lt u s ≡ false
unfolding str_lt
str_not_lt_trans [] t [] h k = refl
str_not_lt_trans [] [] (e ∷ u) h k = refl
str_not_lt_trans [] (d ∷ t) (e ∷ u) h k = refl
str_not_lt_trans (c ∷ s) [] u h k = cc
str_not_lt_trans (c ∷ s) (d ∷ t) [] h k = cc
str_not_lt_trans (c ∷ s) (d ∷ t) (e ∷ u) h k = ground (arith, str_not_lt_trans s t u)
