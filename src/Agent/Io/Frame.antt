-- ===== src/Agent/Io/Frame.antt =====
-- A call that leaves a part of the state as it was, and how that passes on to sequences of calls.
use k8s.Prelude.{◌≡◌, refl, ◌∙◌}
use k8s.Errors.{Result, ok, err}
use k8s.Agent.Io.{Effect, then_do, ◌>>=◌, deferring}

module _ {S X : Type 0} (f : S → X) where
  -- The part of the state that `f` reads is as it was, whatever the call returns.
  abbrev pub Keeps : {A : Type 0} → Effect S A → Type 0
  Keeps m = (s : S) → f (m s).1 ≡ f s

  then_do-Keeps :
      {A B : Type 0} (k : A → Effect S B) (r : Result A × S)
      → ((a : A) → Keeps (k a))
      → f (then_do k r).1 ≡ f r.1
  then_do-Keeps k (ok a, s) h = h a s
  then_do-Keeps k (err e, s) h = refl

  pub bind-Keeps :
      {A B : Type 0} (m : Effect S A) (k : A → Effect S B)
      → Keeps m
      → ((a : A) → Keeps (k a))
      → Keeps (m >>= k)
  bind-Keeps m k h g s = then_do-Keeps k (m s) g ∙ h s

  pub deferring-Keeps :
      {A : Type 0} (g : S → S) (m : Effect S A)
      → ((s : S) → f (g s) ≡ f s)
      → Keeps m
      → Keeps (deferring g m)
  deferring-Keeps g m h k s = h (m s).1 ∙ k s
