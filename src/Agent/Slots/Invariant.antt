-- ===== src/Agent/Slots/Invariant.antt =====
-- The accounting of the slot limiter of internal/agent/runtime.go.
use mathlib.Core.Path.{ap₂}
use k8s.Prelude.{
  ℕ, zero, suc, ◌+◌, ◌≤◌, ◌≡◌, refl, sym, ap, ◌∙◌, true, false, List, [], ◌∷◌, ◌++◌, Option, none,
  some, if◌then◌else◌, arith, All, Bool-cases, Option-cases, inl, inr,
}
use k8s.Prelude.Int.{ℤ, pos, pos_part, ◌+ℤ◌, sub_ℤ, ltb_ℤ, ◌≤ℤ◌}
use k8s.Prelude.Text.{lit}
use k8s.Errors.{ok, Result-cases}
use k8s.Fleet.Types.{Pressure, critical, ShardLease}
use k8s.Fleet.Validate.{validate_pressure}
use k8s.Agent.Slots.{
  SlotLimiter, new_slot_limiter, available, try_acquire, Grant, Slots, admit_shard, granted, fire,
  give_back, release, Event, admit, call_release, step, steps,
}

-- The slots that closures not yet called hold.
unfoldable pub held : List Grant → ℕ
held [] = 0
held (g ∷ gs) = (if g.done then 0 else pos_part g.amount) + held gs

pub record IsSlots (total : ℕ) (s : Slots) : Type 0 where
  pub total_eq : s.limiter.total ≡ pos total
  pub used_eq : s.limiter.used ≡ pos (held s.grants)
  pub fits : held s.grants ≤ total
  pub amounts : All (λ g. pos 1 ≤ℤ g.amount) s.grants

held-append :
    (gs : List Grant) (n : ℤ)
    → held (gs ++ (record { amount = n; done = false } ∷ [])) ≡ held gs + pos_part n
unfolding held
held-append [] n = omega arith
held-append (g ∷ gs) n = omega (arith, held-append gs n)

amounts-append :
    (gs : List Grant) (n : ℤ)
    → pos 1 ≤ℤ n
    → All (λ g. pos 1 ≤ℤ g.amount) gs
    → All (λ g. pos 1 ≤ℤ g.amount) (gs ++ (record { amount = n; done = false } ∷ []))
amounts-append [] n h a = (h, tt)
amounts-append (g ∷ gs) n h a = (a.0, amounts-append gs n h a.1)

pub granted-IsSlots :
    (total : ℕ) (n : ℤ) (s : Slots)
    → IsSlots total s
    → IsSlots total (granted n s (try_acquire n s.limiter)).1
unfolding try_acquire available
granted-IsSlots total n s v = elim (Bool-cases (ltb_ℤ n (pos 1))) [
  | inl few ↦ rw (few, try_acquire) v
  | inr enough ↦ elim (Bool-cases (ltb_ℤ (available s.limiter) n)) [
    | inl short ↦ rw (enough, short, try_acquire) v
    | inr room ↦
        rw (enough, room, try_acquire)
          (record {
            total_eq = v.total_eq;
            used_eq = unfold ◌+ℤ◌ in ground (arith, enough, v.used_eq, held-append s.grants n);
            fits =
                unfold sub_ℤ in
                ground (arith, enough, room, v.total_eq, v.used_eq, held-append s.grants n);
            amounts = amounts-append s.grants n (ground (arith, enough)) v.amounts;
          })
  ]
]

pub admit_shard-IsSlots :
    (total : ℕ) (lease : ShardLease) (p : Pressure) (s : Slots)
    → IsSlots total s
    → IsSlots total (admit_shard lease p s).1
unfolding admit_shard
admit_shard-IsSlots total lease p s v = elim (Bool-cases (ltb_ℤ lease.child_count (pos 1))) [
  | inl few ↦ rw (few, admit_shard) v
  | inr enough ↦ elim (Result-cases (validate_pressure p (lit "pressure"))) [
    | inl (e, bad) ↦ rw (enough, bad, admit_shard) v
    | inr (_, good) ↦ elim (Bool-cases (critical p)) [
      | inl unsafe ↦ rw (enough, good, unsafe, admit_shard) v
      | inr safe ↦
          rw (enough, good, safe, admit_shard) (granted-IsSlots total lease.child_count s v)
    ]
  ]
]

-- What a call of a closure does to the slots that are held.
abbrev Fired : List Grant → Option ℤ × List Grant → Type 0
Fired gs (none, gs') = held gs' ≡ held gs
Fired gs (some n, gs') = (pos 1 ≤ℤ n) × (held gs ≡ held gs' + pos_part n)

fire_held : (k : ℕ) (gs : List Grant) → All (λ g. pos 1 ≤ℤ g.amount) gs → Fired gs (fire k gs)
unfolding fire held
fire_held k [] a = refl
fire_held zero (g ∷ gs) a = elim (Bool-cases g.done) [
  | inl done ↦ ground (arith, done)
  | inr fresh ↦ ground (arith, fresh, a.0)
]
fire_held (suc k) (g ∷ gs) a = elim (Option-cases (fire k gs).0) [
  | inl e ↦ ground (arith, e, fire_held k gs a.1)
  | inr (n, e) ↦ ground (arith, e, fire_held k gs a.1)
]

fire_amounts :
    (k : ℕ) (gs : List Grant)
    → All (λ g. pos 1 ≤ℤ g.amount) gs
    → All (λ g. pos 1 ≤ℤ g.amount) (fire k gs).1
unfolding fire
fire_amounts k [] a = tt
fire_amounts zero (g ∷ gs) a = ground arith
fire_amounts (suc k) (g ∷ gs) a = (a.0, fire_amounts k gs a.1)

given_back-IsSlots :
    (total : ℕ) (s : Slots) (r : Option ℤ × List Grant)
    → IsSlots total s
    → Fired s.grants r
    → All (λ g. pos 1 ≤ℤ g.amount) r.1
    → IsSlots total (record { limiter = give_back s.limiter r.0; grants = r.1 })
given_back-IsSlots total s (none, gs) v f a = record {
  total_eq = v.total_eq;
  used_eq = v.used_eq ∙ ap pos (sym f);
  fits = omega (arith, v.fits, f);
  amounts = a;
}
given_back-IsSlots total s (some n, gs) v f a = record {
  total_eq = v.total_eq;
  used_eq = unfold sub_ℤ in ground (arith, v.used_eq, f);
  fits = omega (arith, v.fits, f);
  amounts = a;
}

pub release-IsSlots : (total k : ℕ) (s : Slots) → IsSlots total s → IsSlots total (release k s)
unfolding release
release-IsSlots total k s v =
    given_back-IsSlots total s (fire k s.grants) v (fire_held k s.grants v.amounts)
      (fire_amounts k s.grants v.amounts)

step-IsSlots : (total : ℕ) (e : Event) (s : Slots) → IsSlots total s → IsSlots total (step e s)
unfolding step
step-IsSlots total (admit lease p) s v = admit_shard-IsSlots total lease p s v
step-IsSlots total (call_release k) s v = release-IsSlots total k s v

-- Over any sequence of admissions and calls of release closures, in any order and however often
-- each is called, the total stays, the used slots are those that closures not yet called hold, and
-- they never exceed the total.
pub steps-IsSlots :
    (total : ℕ) (es : List Event) (s : Slots) → IsSlots total s → IsSlots total (steps es s)
unfolding steps
steps-IsSlots total [] s v = v
steps-IsSlots total (e ∷ es) s v = steps-IsSlots total es (step e s) (step-IsSlots total e s v)

-- A new limiter starts within that accounting.
pub new_slot_limiter-IsSlots :
    (total : ℕ) (l : SlotLimiter)
    → new_slot_limiter (pos total) ≡ ok l
    → IsSlots total (record { limiter = l; grants = [] })
unfolding new_slot_limiter held
new_slot_limiter-IsSlots total l h = record {
  total_eq = ground arith;
  used_eq = ground arith;
  fits = omega arith;
  amounts = tt;
}

fire_again : (k : ℕ) (gs : List Grant) → fire k (fire k gs).1 ≡ (none, (fire k gs).1)
unfolding fire
fire_again k [] = refl
fire_again zero (g ∷ gs) = ground arith
fire_again (suc k) (g ∷ gs) =
    ap₂ (λ a b. (a, g ∷ b)) (ap (λ r. r.0) (fire_again k gs)) (ap (λ r. r.1) (fire_again k gs))

-- A second call of a release closure changes nothing.
pub release_idem : (k : ℕ) (s : Slots) → release k (release k s) ≡ release k s
unfolding release
release_idem k s =
    ap₂ (λ n gs. record { limiter = give_back (release k s).limiter n; grants = gs })
      (ap (λ r. r.0) (fire_again k s.grants)) (ap (λ r. r.1) (fire_again k s.grants))

held_done : (gs : List Grant) → All (λ g. g.done ≡ true) gs → held gs ≡ 0
unfolding held
held_done [] a = refl
held_done (g ∷ gs) a = ground (arith, a.0, held_done gs a.1)

-- When, within the accounting of the limiter, every release closure has been called, all slots are
-- available.
pub available_once_released :
    (total : ℕ) (s : Slots)
    → IsSlots total s
    → All (λ g. g.done ≡ true) s.grants
    → available s.limiter ≡ pos total
unfolding available sub_ℤ
available_once_released total s v a = ground (arith, v.total_eq, v.used_eq, held_done s.grants a)
