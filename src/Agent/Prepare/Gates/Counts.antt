-- ===== src/Agent/Prepare/Gates/Counts.antt =====
-- How the gates of internal/agent/runtime.go and the calls that have them are counted.
use k8s.Prelude.{
  ℕ, zero, suc, ◌+◌, ◌≤◌, ◌≡◌, refl, ap, subst, Bool, true, ◌&&◌, List, [], ◌∷◌, ◌++◌, Option, none,
  some, if◌then◌else◌, length, ◌==◌, ltb, All, arith, Option-cases, inl, inr,
}
use k8s.Prelude.Int.{pos, ◌+ℤ◌, sub_ℤ}
use k8s.Prelude.Text.{Str, str_eq}
use k8s.Prelude.StrMap.{StrMap, find_key}
use k8s.Agent.Sandboxes.Counts.{one_if}
use k8s.Agent.Prepare.Gates.{
  PrepareOperation, change_at, refs_at, has_token, one_more, one_less, with_token, new_gate,
  GateCall, waiting, holding, leaving, take_call,
}

abbrev pub run_of : GateCall → Str
run_of (waiting run k) = run
run_of (holding run k) = run
run_of (leaving run k) = run

abbrev pub gate_of : GateCall → ℕ
gate_of (waiting run k) = k
gate_of (holding run k) = k
gate_of (leaving run k) = k

abbrev pub on_gate : ℕ → GateCall → ℕ
on_gate k c = one_if (gate_of c == k)

abbrev pub holds : ℕ → GateCall → ℕ
holds k (holding run j) = one_if (j == k)
holds k _ = 0

abbrev pub holds_run : Str → GateCall → ℕ
holds_run r (holding run j) = one_if (str_eq run r)
holds_run r _ = 0

unfoldable pub sum_calls : (GateCall → ℕ) → List GateCall → ℕ
sum_calls f [] = 0
sum_calls f (c ∷ cs) = f c + sum_calls f cs

-- The calls that hold the token of a run's gate.
abbrev pub holders_of : Str → List GateCall → ℕ
holders_of run cs = sum_calls (holds_run run) cs

abbrev pub in_range : Option ℕ → ℕ → Bool
in_range none n = true
in_range (some k) n = ltb k n

abbrev pub IsOwned : StrMap ℕ → GateCall → Type 0
IsOwned ops c = find_key (run_of c) ops ≡ some (gate_of c)

pub length-change_at :
    (k : ℕ) (f : PrepareOperation → PrepareOperation) (gs : List PrepareOperation)
    → length (change_at k f gs) ≡ length gs
unfolding change_at
length-change_at k f [] = refl
length-change_at zero f (g ∷ gs) = refl
length-change_at (suc k) f (g ∷ gs) = ap suc (length-change_at k f gs)

pub refs_at-more :
    (j k : ℕ) (gs : List PrepareOperation)
    → refs_at j (change_at k one_more gs)
      ≡ (if (k == j) && ltb k (length gs) then refs_at j gs +ℤ pos 1 else refs_at j gs)
unfolding change_at refs_at
refs_at-more j k [] = ground arith
refs_at-more zero zero (g ∷ gs) = ground arith
refs_at-more zero (suc k) (g ∷ gs) = ground arith
refs_at-more (suc j) zero (g ∷ gs) = ground arith
refs_at-more (suc j) (suc k) (g ∷ gs) = ground (arith, refs_at-more j k gs)

pub refs_at-less :
    (j k : ℕ) (gs : List PrepareOperation)
    → refs_at j (change_at k one_less gs)
      ≡ (if (k == j) && ltb k (length gs) then sub_ℤ (refs_at j gs) (pos 1) else refs_at j gs)
unfolding change_at refs_at
refs_at-less j k [] = ground arith
refs_at-less zero zero (g ∷ gs) = ground arith
refs_at-less zero (suc k) (g ∷ gs) = ground arith
refs_at-less (suc j) zero (g ∷ gs) = ground arith
refs_at-less (suc j) (suc k) (g ∷ gs) = ground (arith, refs_at-less j k gs)

pub refs_at-token :
    (b : Bool) (j k : ℕ) (gs : List PrepareOperation)
    → refs_at j (change_at k (with_token b) gs) ≡ refs_at j gs
unfolding change_at refs_at
refs_at-token b j k [] = refl
refs_at-token b zero zero (g ∷ gs) = refl
refs_at-token b zero (suc k) (g ∷ gs) = refl
refs_at-token b (suc j) zero (g ∷ gs) = refl
refs_at-token b (suc j) (suc k) (g ∷ gs) = refs_at-token b j k gs

pub has_token-more :
    (j k : ℕ) (gs : List PrepareOperation) → has_token j (change_at k one_more gs) ≡ has_token j gs
unfolding change_at has_token
has_token-more j k [] = refl
has_token-more zero zero (g ∷ gs) = refl
has_token-more zero (suc k) (g ∷ gs) = refl
has_token-more (suc j) zero (g ∷ gs) = refl
has_token-more (suc j) (suc k) (g ∷ gs) = has_token-more j k gs

pub has_token-less :
    (j k : ℕ) (gs : List PrepareOperation) → has_token j (change_at k one_less gs) ≡ has_token j gs
unfolding change_at has_token
has_token-less j k [] = refl
has_token-less zero zero (g ∷ gs) = refl
has_token-less zero (suc k) (g ∷ gs) = refl
has_token-less (suc j) zero (g ∷ gs) = refl
has_token-less (suc j) (suc k) (g ∷ gs) = has_token-less j k gs

pub has_token-set :
    (b : Bool) (j k : ℕ) (gs : List PrepareOperation)
    → has_token j (change_at k (with_token b) gs)
      ≡ (if (k == j) && ltb k (length gs) then b else has_token j gs)
unfolding change_at has_token
has_token-set b j k [] = ground arith
has_token-set b zero zero (g ∷ gs) = ground arith
has_token-set b zero (suc k) (g ∷ gs) = ground arith
has_token-set b (suc j) zero (g ∷ gs) = ground arith
has_token-set b (suc j) (suc k) (g ∷ gs) = ground (arith, has_token-set b j k gs)

pub refs_at-append :
    (j : ℕ) (gs : List PrepareOperation)
    → refs_at j (gs ++ (new_gate ∷ [])) ≡ (if length gs == j then pos 1 else refs_at j gs)
unfolding refs_at ◌+ℤ◌
refs_at-append zero [] = ground arith
refs_at-append (suc j) [] = ground arith
refs_at-append zero (g ∷ gs) = ground arith
refs_at-append (suc j) (g ∷ gs) = ground (arith, refs_at-append j gs)

pub has_token-append :
    (j : ℕ) (gs : List PrepareOperation)
    → has_token j (gs ++ (new_gate ∷ [])) ≡ (if length gs == j then true else has_token j gs)
unfolding has_token
has_token-append zero [] = ground arith
has_token-append (suc j) [] = ground arith
has_token-append zero (g ∷ gs) = ground arith
has_token-append (suc j) (g ∷ gs) = ground (arith, has_token-append j gs)

pub refs_at-beyond : (k : ℕ) (gs : List PrepareOperation) → length gs ≤ k → refs_at k gs ≡ pos 0
unfolding refs_at
refs_at-beyond k [] h = refl
refs_at-beyond zero (g ∷ gs) h = absurd (ground (arith, h))
refs_at-beyond (suc k) (g ∷ gs) h = refs_at-beyond k gs (ground (arith, h))

pub sum_calls-take :
    (f : GateCall → ℕ) (i : ℕ) (cs : List GateCall) (c : GateCall) (rest : List GateCall)
    → take_call i cs ≡ some (c, rest)
    → sum_calls f cs ≡ f c + sum_calls f rest
unfolding take_call sum_calls
sum_calls-take f i [] c rest = λ h. ground arith
sum_calls-take f zero (d ∷ cs) c rest = λ h. ground arith
sum_calls-take f (suc i) (d ∷ cs) c rest = elim (Option-cases (take_call i cs)) [
  | inl e ↦ rw (e, take_call) (λ h. ground arith)
  | inr ((q, others), e) ↦ rw (e, take_call) (λ h. ground (arith, sum_calls-take f i cs q others e))
]

pub take-All :
    (P : GateCall → Type 0) (i : ℕ) (cs : List GateCall) (c : GateCall) (rest : List GateCall)
    → take_call i cs ≡ some (c, rest)
    → All P cs
    → P c × All P rest
unfolding take_call
take-All P i [] c rest = λ h. absurd cc
take-All P zero (d ∷ cs) c rest =
    λ h v. subst (λ o. All P (elim o [ none ↦ [] | some x ↦ x.0 ∷ x.1 ])) h v
take-All P (suc i) (d ∷ cs) c rest = elim (Option-cases (take_call i cs)) [
  | inl e ↦ rw (e, take_call) (λ h. absurd cc)
  | inr ((q, others), e) ↦
      rw (e, take_call)
        (λ h v.
          let w = take-All P i cs q others e v.1 in
          subst (λ o. All P (elim o [ none ↦ [] | some x ↦ x.0 ∷ x.1 ])) h (w.0, (v.0, w.1)))
]
