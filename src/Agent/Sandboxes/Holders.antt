-- ===== src/Agent/Sandboxes/Holders.antt =====
-- The holders of release closures in internal/agent/interactive.go are at most as many as the slots that
-- the limiter counts as used.
use k8s.Prelude.{
  ℕ, zero, suc, ◌+◌, ◌≤◌, ◌≡◌, refl, true, List, [], ◌∷◌, ◌++◌, none, some, ◌==◌, ◌∙◌, arith,
  length, All,
}
use k8s.Prelude.Int.{pos, ◌≤ℤ◌}
use k8s.Prelude.StrMap.{total}
use k8s.Agent.Slots.{Grant}
use k8s.Agent.Slots.Invariant.{held}
use k8s.Agent.Sandboxes.{SandboxMap, Op, running, admitted, creating, removing}
use k8s.Agent.Sandboxes.Counts.{open_at, entry_holds, op_holds, sum_ops, one_if}

-- The positions of the closures that sandboxes and operations hold.
unfoldable pub held_by_sandboxes : SandboxMap → List ℕ
held_by_sandboxes [] = []
held_by_sandboxes ((n, none) ∷ m) = held_by_sandboxes m
held_by_sandboxes ((n, some k) ∷ m) = k ∷ held_by_sandboxes m

abbrev op_closures : Op → List ℕ
op_closures (running k) = k ∷ []
op_closures (admitted n k) = k ∷ []
op_closures (creating n k) = k ∷ []
op_closures (removing n none) = []
op_closures (removing n (some k)) = k ∷ []

unfoldable pub held_by_ops : List Op → List ℕ
held_by_ops [] = []
held_by_ops (o ∷ os) = op_closures o ++ held_by_ops os

unfoldable pub occurrences : ℕ → List ℕ → ℕ
occurrences k [] = 0
occurrences k (j ∷ js) = one_if (j == k) + occurrences k js

pub occurrences-append :
    (k : ℕ) (xs ys : List ℕ) → occurrences k (xs ++ ys) ≡ occurrences k xs + occurrences k ys
unfolding occurrences
occurrences-append k [] ys = omega arith
occurrences-append k (x ∷ xs) ys = omega (arith, occurrences-append k xs ys)

pub sandboxes_occurrences :
    (k : ℕ) (m : SandboxMap) → occurrences k (held_by_sandboxes m) ≡ total (entry_holds k) m
unfolding occurrences held_by_sandboxes total
sandboxes_occurrences k [] = refl
sandboxes_occurrences k ((n, none) ∷ m) = omega (arith, sandboxes_occurrences k m)
sandboxes_occurrences k ((n, some j) ∷ m) = omega (arith, sandboxes_occurrences k m)

pub ops_occurrences :
    (k : ℕ) (os : List Op) → occurrences k (held_by_ops os) ≡ sum_ops (op_holds k) os
unfolding occurrences held_by_ops sum_ops
ops_occurrences k [] = refl
ops_occurrences k (running j ∷ os) = omega (arith, ops_occurrences k os)
ops_occurrences k (admitted n j ∷ os) = omega (arith, ops_occurrences k os)
ops_occurrences k (creating n j ∷ os) = omega (arith, ops_occurrences k os)
ops_occurrences k (removing n none ∷ os) = omega (arith, ops_occurrences k os)
ops_occurrences k (removing n (some j) ∷ os) = omega (arith, ops_occurrences k os)

-- The positions behind the first, as positions of the rest.
unfoldable rest_of : List ℕ → List ℕ
rest_of [] = []
rest_of (zero ∷ js) = rest_of js
rest_of (suc j ∷ js) = j ∷ rest_of js

length-rest_of : (js : List ℕ) → length js ≡ occurrences 0 js + length (rest_of js)
unfolding rest_of occurrences
length-rest_of [] = omega arith
length-rest_of (zero ∷ js) = ground (arith, length-rest_of js)
length-rest_of (suc j ∷ js) = ground (arith, length-rest_of js)

occurrences-rest_of : (k : ℕ) (js : List ℕ) → occurrences k (rest_of js) ≡ occurrences (suc k) js
unfolding rest_of occurrences
occurrences-rest_of k [] = refl
occurrences-rest_of k (zero ∷ js) = ground (arith, occurrences-rest_of k js)
occurrences-rest_of k (suc j ∷ js) = ground (arith, occurrences-rest_of k js)

nothing_held : (js : List ℕ) → ((k : ℕ) → occurrences k js ≡ 0) → length js ≡ 0
unfolding occurrences
nothing_held [] h = refl
nothing_held (j ∷ js) h = absurd (ground (arith, h j))

-- Closures that are held once each, and hold a slot at least, are at most as many as the slots.
pub holders≤held :
    (js : List ℕ) (gs : List Grant)
    → All (λ g. pos 1 ≤ℤ g.amount) gs
    → ((k : ℕ) → occurrences k js ≡ open_at k gs)
    → length js ≤ held gs
unfolding open_at held
holders≤held js [] a h = omega (arith, nothing_held js h)
holders≤held js (g ∷ gs) a h = ground (
  arith,
  h 0,
  length-rest_of js,
  a.0,
  holders≤held (rest_of js) gs a.1 (λ k. occurrences-rest_of k js ∙ h (suc k)),
)

-- Where no closure is held, each has been called.
pub none_open→done : (gs : List Grant) → ((k : ℕ) → open_at k gs ≡ 0) → All (λ g. g.done ≡ true) gs
unfolding open_at
none_open→done [] h = tt
none_open→done (g ∷ gs) h = (ground (arith, h 0), none_open→done gs (λ k. h (suc k)))
