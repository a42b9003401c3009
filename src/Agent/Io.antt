-- ===== src/Agent/Io.antt =====
-- Go functions of the agent that read and change state and may return an error, as functions from a state to
-- a result and the state behind it. An error does not undo what was done before it.
pub mod Frame
use k8s.Errors.{Error, Result, ok, err}

abbrev pub Effect : Type 0 → Type 0 → Type 0
Effect S A = S → Result A × S

module _ {S A : Type 0} where
  abbrev pub pure : A → Effect S A
  pure a s = (ok a, s)

  -- What a function without state returns.
  abbrev pub lift : Result A → Effect S A
  lift r s = (r, s)

  abbrev pub then_do : {B : Type 0} → (A → Effect S B) → Result A × S → Result B × S
  then_do f (ok a, s) = f a s
  then_do f (err e, s) = (err e, s)

  -- The result of a call, in place of returning at its error.
  abbrev pub outcome : Effect S A → Effect S (Result A)
  outcome m s = (ok (m s).0, (m s).1)

  -- A part of the state.
  abbrev pub read : (S → A) → Effect S A
  read f s = (ok (f s), s)

  -- `defer`: what is done behind a call, however it returns.
  abbrev pub deferring : (S → S) → Effect S A → Effect S A
  deferring f m s = ((m s).0, f (m s).1)

-- A change of the state that cannot fail.
abbrev pub change : {S : Type 0} → (S → S) → Effect S (Unit {0})
change f s = (ok tt, f s)

infixl 5 ◌>>=◌ ◌>>◌
abbrev pub ◌>>=◌ : {S A B : Type 0} → Effect S A → (A → Effect S B) → Effect S B
(m >>= f) s = then_do f (m s)

abbrev pub ◌>>◌ : {S B : Type 0} → Effect S (Unit {0}) → Effect S B → Effect S B
m >> k = m >>= λ _. k
