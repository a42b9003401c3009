-- ===== src/Agent/Cleanup.antt =====
-- The ledger of prepared spores that are still to be removed: validateCleanupLedgerPaths and
-- isPreparedChildDir of internal/agent/runtime.go.
pub mod Ledger
use k8s.Prelude.{
  ℕ, zero, suc, Bool, true, false, ◌&&◌, ◌||◌, not, List, [], ◌∷◌, ◌++◌, Option, none, some,
  if◌then◌else◌, all, ltb, ◌^◌, ◌==◌, ◌-◌, ◌+◌,
}
use k8s.Prelude.Int.{ℤ, pos, negsuc, leb_ℤ, is_neg}
use k8s.Prelude.Text.{Str, lit, str_eq, is_empty, has_prefix, trim_prefix}
use k8s.Prelude.Decimal.{is_digit, decimal, value, pad_zeros}
use k8s.Errors.{Error, Checked, Result, ok, err, external, ◌>>=◌, ◌>>◌, fail_if}

-- The digits of a number behind its sign.
unfoldable pub plain_digits : Str → Bool
plain_digits s = not (is_empty s) && all is_digit s

abbrev negated : ℕ → ℤ
negated zero = pos 0
negated (suc n) = negsuc n

abbrev positive : Str → Option ℤ
positive s = if plain_digits s && ltb (value s) (2 ^ 63) then some (pos (value s)) else none

abbrev negative : Str → Option ℤ
negative s = if plain_digits s && ltb (value s) (2 ^ 63 + 1) then some (negated (value s)) else none

-- strconv.Atoi.
unfoldable pub atoi : Str → Option ℤ
atoi [] = none
atoi (c ∷ s) = if c == b'-' then negative s else if c == b'+' then positive s else positive (c ∷ s)

-- fmt.Sprintf("%06d", n) of a number that is not negative.
unfoldable pub child_dir : ℕ → Str
child_dir n = pad_zeros 6 (decimal n)

abbrev is_its_dir : Str → Option ℤ → Bool
is_its_dir name none = false
is_its_dir name (some (pos n)) = str_eq name (child_dir n)
is_its_dir name (some (negsuc n)) = false

unfoldable pub is_prepared_child_dir : Str → Bool
is_prepared_child_dir name = is_its_dir name (atoi name)

-- `childID, _ := strconv.Atoi(name)`.
abbrev pub or_zero : Option ℤ → ℤ
or_zero none = pos 0
or_zero (some n) = n

-- The loop of validateCleanupLedgerPaths, with the child before.
unfoldable pub validate_from : ℤ → List Str → Checked
validate_from previous [] = ok tt
validate_from previous (rel ∷ rest) =
    if str_eq rel (lit "parent.spore")
    then elim rest [
      | [] ↦ ok tt
      | _ ∷ _ ↦ err (external (lit "prepared cleanup ledger parent must be last"))
    ]
    else if not (has_prefix rel (lit "children/"))
        || not (is_prepared_child_dir (trim_prefix rel (lit "children/")))
    then err (external (lit "unsafe prepared cleanup ledger path"))
    else elim (leb_ℤ (or_zero (atoi (trim_prefix rel (lit "children/")))) previous) [
      | true ↦ err (external (lit "prepared cleanup ledger children must be strictly ordered"))
      | false ↦ validate_from (or_zero (atoi (trim_prefix rel (lit "children/")))) rest
    ]

unfoldable pub validate_cleanup_ledger_paths : List Str → Checked
validate_cleanup_ledger_paths pending = validate_from (negsuc 0) pending
