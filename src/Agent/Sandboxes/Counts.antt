-- ===== src/Agent/Sandboxes/Counts.antt =====
-- What is counted of the sandboxes and the work in flight of internal/agent/interactive.go: who holds a
-- slot's release closure, which names are busy, and which operations own them.
use k8s.Prelude.{
  ℕ, zero, suc, ◌+◌, ◌≤◌, ◌≡◌, refl, Bool, List, [], ◌∷◌, ◌++◌, Option, none, some, if◌then◌else◌,
  ◌==◌, false, arith, length, Option-cases, inl, inr,
}
use k8s.Prelude.Int.{ℤ}
use k8s.Prelude.Text.{Str, str_eq}
use k8s.Prelude.StrMap.{find_key, total}
use k8s.Agent.Slots.{Grant, fire}
use k8s.Agent.Sandboxes.{SandboxMap, Op, running, admitted, creating, removing, take_op}

abbrev pub one_if : Bool → ℕ
one_if b = if b then 1 else 0

-- Whether the closure at a position has not been called.
unfoldable pub open_at : ℕ → List Grant → ℕ
open_at k [] = 0
open_at zero (g ∷ gs) = if g.done then 0 else 1
open_at (suc k) (g ∷ gs) = open_at k gs

-- Whether an entry of the map holds the closure at a position, is busy under a name, has a name.
abbrev pub entry_holds : ℕ → Str → Option ℕ → ℕ
entry_holds k n none = 0
entry_holds k n (some j) = one_if (j == k)

abbrev pub entry_busy : Str → Str → Option ℕ → ℕ
entry_busy name n none = one_if (str_eq n name)
entry_busy name n (some j) = 0

abbrev pub entry_named : Str → Str → Option ℕ → ℕ
entry_named name n v = one_if (str_eq n name)

abbrev pub op_holds : ℕ → Op → ℕ
op_holds k (running j) = one_if (j == k)
op_holds k (admitted n j) = one_if (j == k)
op_holds k (creating n j) = one_if (j == k)
op_holds k (removing n none) = 0
op_holds k (removing n (some j)) = one_if (j == k)

-- Whether an operation owns the busy entry of a name.
abbrev pub op_owns : Str → Op → ℕ
op_owns name (running j) = 0
op_owns name (admitted n j) = 0
op_owns name (creating n j) = one_if (str_eq n name)
op_owns name (removing n none) = 0
op_owns name (removing n (some j)) = one_if (str_eq n name)

unfoldable pub sum_ops : (Op → ℕ) → List Op → ℕ
sum_ops f [] = 0
sum_ops f (o ∷ os) = f o + sum_ops f os

pub sum_ops-take_op :
    (f : Op → ℕ) (i : ℕ) (os : List Op) (o : Op) (rest : List Op)
    → take_op i os ≡ some (o, rest)
    → sum_ops f os ≡ f o + sum_ops f rest
unfolding take_op sum_ops
sum_ops-take_op f i [] o rest = λ h. ground arith
sum_ops-take_op f zero (p ∷ os) o rest = λ h. ground arith
sum_ops-take_op f (suc i) (p ∷ os) o rest = elim (Option-cases (take_op i os)) [
  | inl e ↦ rw (e, take_op) (λ h. ground arith)
  | inr ((q, others), e) ↦ rw (e, take_op) (λ h. ground (arith, sum_ops-take_op f i os q others e))
]

pub open_at_le_one : (k : ℕ) (gs : List Grant) → open_at k gs ≤ 1
unfolding open_at
open_at_le_one k [] = omega arith
open_at_le_one zero (g ∷ gs) = ground arith
open_at_le_one (suc k) (g ∷ gs) = open_at_le_one k gs

pub open_at-append :
    (k : ℕ) (gs : List Grant) (n : ℤ)
    → open_at k (gs ++ (record { amount = n; done = false } ∷ []))
      ≡ open_at k gs + one_if (length gs == k)
unfolding open_at
open_at-append zero [] n = ground arith
open_at-append (suc k) [] n = ground arith
open_at-append zero (g ∷ gs) n = ground arith
open_at-append (suc k) (g ∷ gs) n = ground (arith, open_at-append k gs n)

pub open_at-fire :
    (j k : ℕ) (gs : List Grant) → open_at j (fire k gs).1 ≡ (if k == j then 0 else open_at j gs)
unfolding open_at fire
open_at-fire j k [] = ground arith
open_at-fire zero zero (g ∷ gs) = ground arith
open_at-fire (suc j) zero (g ∷ gs) = ground arith
open_at-fire zero (suc k) (g ∷ gs) = ground arith
open_at-fire (suc j) (suc k) (g ∷ gs) = ground (arith, open_at-fire j k gs)

busy≤named : (name : Str) (m : SandboxMap) → total (entry_busy name) m ≤ total (entry_named name) m
unfolding total
busy≤named name [] = omega arith
busy≤named name ((n, none) ∷ m) = ground (arith, busy≤named name m)
busy≤named name ((n, some j) ∷ m) = ground (arith, busy≤named name m)

-- A name that is busy and stands once is read as busy.
pub find_key_busy :
    (name : Str) (m : SandboxMap)
    → total (entry_named name) m ≤ 1
    → 1 ≤ total (entry_busy name) m
    → find_key name m ≡ some none
unfolding total find_key
find_key_busy name [] once busy = absurd (omega (arith, busy))
find_key_busy name ((n, none) ∷ m) once busy = ground (arith, find_key_busy name m)
find_key_busy name ((n, some j) ∷ m) once busy =
    ground (arith, busy≤named name m, find_key_busy name m)

-- A name that is not read stands nowhere.
pub find_key-none :
    (name : Str) (m : SandboxMap) → find_key name m ≡ none → total (entry_named name) m ≡ 0
unfolding total find_key
find_key-none name [] h = refl
find_key-none name ((n, v) ∷ m) h = ground (arith, find_key-none name m)
