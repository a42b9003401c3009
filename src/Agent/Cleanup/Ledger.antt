-- ===== src/Agent/Cleanup/Ledger.antt =====
-- The ledgers that validateCleanupLedgerPaths of internal/agent/runtime.go accepts.
use k8s.Prelude.{
  ℕ, ◌≡◌, ◌↔◌, ◌<◌, ◌≤◌, ◌^◌, refl, sym, ap, ◌∙◌, true, false, List, [], ◌∷◌, ◌++◌, map, some, all,
  length, arith, Bool-cases, inl, inr, All,
}
use k8s.Prelude.Int.{ℤ, pos, negsuc, leb_ℤ, ◌<ℤ◌}
use k8s.Prelude.Text.{
  Str, lit, str_eq, str_eq_refl, is_empty, has_prefix, trim_prefix, strip_prefix-append,
}
use k8s.Prelude.Decimal.{
  is_digit, decimal, value, pad_zeros, value-decimal, value-pad_zeros, all-decimal, all-pad_zeros,
  length-pad_zeros,
}
use k8s.Errors.{ok}
use k8s.Agent.Cleanup.{
  plain_digits, atoi, child_dir, is_prepared_child_dir, validate_from,
  validate_cleanup_ledger_paths, or_zero,
}

abbrev pub child_path : ℕ → Str
child_path n = lit "children/" ++ child_dir n

-- The children of a ledger, and the parent behind them.
abbrev pub ledger : List ℕ → List Str
ledger ns = map child_path ns ++ (lit "parent.spore" ∷ [])

-- Numbers that ascend from above `previous`.
abbrev pub AscendsFrom : ℤ → List ℕ → Type 0
AscendsFrom previous [] = Unit
AscendsFrom previous (n ∷ ns) = (previous <ℤ pos n) × AscendsFrom (pos n) ns

digits_positive :
    (s : Str) → plain_digits s ≡ true → value s < 2 ^ 63 → atoi s ≡ some (pos (value s))
unfolding atoi plain_digits is_empty all is_digit
digits_positive [] h k = absurd cc
digits_positive (c ∷ s) h k = ground arith

long_nonempty : (s : Str) → 6 ≤ length s → is_empty s ≡ false
unfolding is_empty
long_nonempty [] h = absurd (omega (arith, h))
long_nonempty (c ∷ s) h = refl

child_dir-digits : (n : ℕ) → plain_digits (child_dir n) ≡ true
unfolding child_dir plain_digits
child_dir-digits n = ground (
  arith,
  all-pad_zeros 6 (decimal n) (all-decimal n),
  long_nonempty (pad_zeros 6 (decimal n)) (length-pad_zeros 6 (decimal n)).0,
)

value-child_dir : (n : ℕ) → value (child_dir n) ≡ n
unfolding child_dir
value-child_dir n = value-pad_zeros 6 (decimal n) ∙ value-decimal n

atoi-child_dir : (n : ℕ) → n < 2 ^ 63 → atoi (child_dir n) ≡ some (pos n)
atoi-child_dir n h =
    digits_positive (child_dir n) (child_dir-digits n) (ground (arith, value-child_dir n))
    ∙ ap (λ k. some (pos k)) (value-child_dir n)

is_prepared-child_dir : (n : ℕ) → n < 2 ^ 63 → is_prepared_child_dir (child_dir n) ≡ true
unfolding is_prepared_child_dir
is_prepared-child_dir n h = rw (atoi-child_dir n h) (str_eq_refl (child_dir n))

not_parent : (n : ℕ) → str_eq (child_path n) (lit "parent.spore") ≡ false
unfolding lit str_eq
not_parent n = refl

child_prefix : (n : ℕ) → has_prefix (child_path n) (lit "children/") ≡ true
unfolding has_prefix
child_prefix n = rw (strip_prefix-append (lit "children/") (child_dir n)) refl

child_name : (n : ℕ) → trim_prefix (child_path n) (lit "children/") ≡ child_dir n
unfolding trim_prefix
child_name n = rw (strip_prefix-append (lit "children/") (child_dir n), trim_prefix) refl

parent_last : (previous : ℤ) → validate_from previous (lit "parent.spore" ∷ []) ≡ ok tt
unfolding validate_from
parent_last previous = rw (str_eq_refl (lit "parent.spore"), validate_from) refl

child_first :
    (previous : ℤ) (n : ℕ) (rest : List Str)
    → n < 2 ^ 63
    → leb_ℤ (pos n) previous ≡ false
    → validate_from previous (child_path n ∷ rest) ≡ validate_from (pos n) rest
unfolding validate_from
child_first previous n rest h k =
    rw
      (
        not_parent n,
        child_prefix n,
        child_name n,
        is_prepared-child_dir n h,
        atoi-child_dir n h,
        k,
        validate_from,
      )
      (ap (λ c. validate_from c rest)
        (ap (λ name. or_zero (atoi name)) (child_name n) ∙ ap or_zero (atoi-child_dir n h)))

child_refused :
    (previous : ℤ) (n : ℕ) (rest : List Str)
    → n < 2 ^ 63
    → leb_ℤ (pos n) previous ≡ true
    → validate_from previous (child_path n ∷ rest) ≡ ok tt
    → ⊥
unfolding validate_from
child_refused previous n rest h k =
    rw
      (
        not_parent n,
        child_prefix n,
        child_name n,
        is_prepared-child_dir n h,
        atoi-child_dir n h,
        k,
        validate_from,
      )
      (λ e. cc)

validate_from_iff :
    (previous : ℤ) (ns : List ℕ)
    → All (λ n. n < 2 ^ 63) ns
    → (validate_from previous (ledger ns) ≡ ok tt) ↔ AscendsFrom previous ns
validate_from_iff previous [] a = (λ h. tt, λ h. parent_last previous)
validate_from_iff previous (n ∷ ns) a = elim (Bool-cases (leb_ℤ (pos n) previous)) [
  | inl low ↦ (
    λ h. absurd (child_refused previous n (ledger ns) a.0 low h),
    λ h. absurd (ground (arith, low, h.0)),
  )
  | inr above ↦
      let step = child_first previous n (ledger ns) a.0 above in
      let rest = validate_from_iff (pos n) ns a.1 in
      (λ h. (ground (arith, above), rest.0 (sym step ∙ h)), λ h. step ∙ rest.1 h.1)
]

-- A ledger of children and the parent behind them passes its check exactly if the numbers of the
-- children ascend, for numbers of 63 bits.
pub validate_ledger_iff :
    (ns : List ℕ)
    → All (λ n. n < 2 ^ 63) ns
    → (validate_cleanup_ledger_paths (ledger ns) ≡ ok tt) ↔ AscendsFrom (negsuc 0) ns
unfolding validate_cleanup_ledger_paths
validate_ledger_iff ns a = validate_from_iff (negsuc 0) ns a
