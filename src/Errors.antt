-- ===== src/Errors.antt =====
-- Go's `error` values as data, with the results of functions that return an error or a value. An error
-- that `fmt.Errorf` wraps keeps its sentinel as the constructor and its text as the argument.
use k8s.Prelude.{◌≡◌, refl, ◌⊎◌, inl, inr, Bool, true, false, ◌↔◌, List, [], ◌∷◌, arith}
use k8s.Prelude.Int.{ℤ}
use k8s.Prelude.Text.{Str}

-- How inspected bundle metadata differs from the run.
pub data Mismatch : Type 0 where
  digest : Str → Str → Mismatch
  child_count : ℤ → ℤ → Mismatch
  host_class : Str → Str → Mismatch

-- The body of an error that the virtual machine's command reports (MachineErrorBody of
-- internal/agent/machine.go).
pub record MachineErrorBody : Type 0 where
  pub code : Str
  pub message : Str
  pub retry : Str
  pub retryable : Bool
  pub scope : Str
  pub exit_code : ℤ
  pub source : Str

pub data Error : Type 0 where
  contract : Str → Error
  no_compatible_agents : Error
  insufficient_capacity : ℤ → ℤ → Error
  coordinator_not_configured : Error
  bundle_metadata_mismatch : Mismatch → Error
  agent_executor_missing : Str → Error
  lease_incomplete : Str → Error
  platform_mismatch : Str → Error
  oversubscribed : Error
  unsafe_pressure : Error
  invalid_lease : Error
  invalid_pressure : Error → Error
  invalid_machine_output : Str → Error
  no_terminal_event : Error
  canceled : Error
  deadline_exceeded : Error
  machine_error : MachineErrorBody → Str → Error
  result_exists : Error
  spore_client_not_configured : Error
  result_store_not_configured : Error
  work_root_not_configured : Error
  child_outside_lease : Error
  invalid_spore_request : Str → Error
  mutable_image : Error
  sandbox_exists : Str → Error
  sandbox_busy : Str → Error
  joined : Error → Error → Error
  external : Str → Error

pub data Result {ℓ} (A : Type ℓ) : Type ℓ where
  ok : A → Result A
  err : Error → Result A

-- The `error` results of functions with no other result.
abbrev pub Checked : Type 0
Checked = Result (Unit {0})

infixl 5 ◌>>=◌ ◌>>◌
abbrev pub ◌>>=◌ {ℓ κ} : {A : Type ℓ} {B : Type κ} → Result A → (A → Result B) → Result B
ok a >>= f = f a
err e >>= f = err e

abbrev pub ◌>>◌ {ℓ} : {B : Type ℓ} → Checked → Result B → Result B
m >> k = m >>= λ _. k

-- `if test { return err }`, at the head of what follows.
abbrev pub fail_if : Bool → Error → Checked
fail_if true e = err e
fail_if false e = ok tt

-- A sequence of checks passes exactly if each does.
pub >>-ok_iff : (m k : Checked) → ((m >> k) ≡ ok tt) ↔ ((m ≡ ok tt) × (k ≡ ok tt))
>>-ok_iff (ok tt) k = ground arith
>>-ok_iff (err e) k = ground arith

pub fail_if-ok_iff : (b : Bool) (e : Error) → (fail_if b e ≡ ok tt) ↔ (b ≡ false)
fail_if-ok_iff true e = ground arith
fail_if-ok_iff false e = ground arith

-- To split on a result and keep the equation.
pub Result-cases {ℓ} :
    {A : Type ℓ} (r : Result A) → ((e : Error) × (r ≡ err e)) ⊎ ((a : A) × (r ≡ ok a))
Result-cases (ok a) = inr (a, refl)
Result-cases (err e) = inl (e, refl)

-- errors.Join: nothing where there is no error.
unfoldable pub join_errors : List Error → Checked
join_errors [] = ok tt
join_errors (e ∷ []) = err e
join_errors (e ∷ f ∷ es) = elim (join_errors (f ∷ es)) [ ok _ ↦ err e | err g ↦ err (joined e g) ]

pub join_errors_none : (es : List Error) → join_errors es ≡ ok tt → es ≡ []
unfolding join_errors
join_errors_none [] = λ h. refl
join_errors_none (e ∷ []) = λ h. cc
join_errors_none (e ∷ f ∷ es) = elim (Result-cases (join_errors (f ∷ es))) [
  | inl (g, bad) ↦ rw (bad, join_errors) (λ h. cc)
  | inr (_, good) ↦ rw (good, join_errors) (λ h. cc)
]
