-- ===== src/Fleet/Patterns/Memory.antt =====
-- The memory values of validMemoryValue in internal/fleet/validate.go.
use k8s.Prelude.{
  ℕ, ◌*◌, ◌%◌, ◌^◌, ◌<◌, ◌≡◌, ◌≢◌, ◌↔◌, ◌⊎◌, inl, inr, refl, sym, subst, true, false, List, [], ◌∷◌,
  ◌++◌, some, arith, all, any, All, Bool-cases,
}
use k8s.Prelude.Text.{Str, lit, str_eq, is_empty, str_eq_iff}
use k8s.Prelude.Decimal.{is_digit, value}
use k8s.Fleet.Patterns.{
  valid_amount, unit_multiplier, span_digits, memory_pattern, parse_uint, valid_memory_value, units,
}

-- A text is a memory value exactly if it is a positive number of digits and a unit, whose product fits 64
-- bits and is whole pages of 4096 bytes.
abbrev FitsPages : ℕ → ℕ → Type 0
FitsPages amount multiplier =
    (0 < amount) × (amount * multiplier < 2 ^ 64) × (amount * multiplier % 4096 ≡ 0)

valid_amount-1 :
    (amount : ℕ) → amount < 2 ^ 64 → (valid_amount amount 1 ≡ true) ↔ FitsPages amount 1
unfolding valid_amount
valid_amount-1 amount h = (λ e. ground arith, λ e. ground arith)

valid_amount-kib : (amount : ℕ) → (valid_amount amount 1024 ≡ true) ↔ FitsPages amount 1024
unfolding valid_amount
valid_amount-kib amount = (λ e. ground arith, λ e. ground arith)

valid_amount-mib :
    (amount : ℕ) → (valid_amount amount (1024 * 1024) ≡ true) ↔ FitsPages amount (1024 * 1024)
unfolding valid_amount
valid_amount-mib amount = (λ e. ground arith, λ e. ground arith)

valid_amount-gib :
    (amount : ℕ)
    → (valid_amount amount (1024 * 1024 * 1024) ≡ true) ↔ FitsPages amount (1024 * 1024 * 1024)
unfolding valid_amount
valid_amount-gib amount = (λ e. ground arith, λ e. ground arith)

abbrev Multiplier : ℕ → Type 0
Multiplier m = (m ≡ 1) ⊎ (m ≡ 1024) ⊎ (m ≡ 1024 * 1024) ⊎ (m ≡ 1024 * 1024 * 1024)

unit_multiplier-cases : (unit : Str) → Multiplier (unit_multiplier unit)
unfolding unit_multiplier
unit_multiplier-cases unit = ground arith

valid_amount-unit_multiplier :
    (amount : ℕ) (unit : Str)
    → amount < 2 ^ 64
    → (valid_amount amount (unit_multiplier unit) ≡ true) ↔ FitsPages amount (unit_multiplier unit)
valid_amount-unit_multiplier amount unit h =
    at_multiplier (unit_multiplier unit) (unit_multiplier-cases unit)
  where
    at_multiplier : (m : ℕ) → Multiplier m → (valid_amount amount m ≡ true) ↔ FitsPages amount m
    at_multiplier m (inl e) = rw e (valid_amount-1 amount h)
    at_multiplier m (inr (inl e)) = rw e (valid_amount-kib amount)
    at_multiplier m (inr (inr (inl e))) = rw e (valid_amount-mib amount)
    at_multiplier m (inr (inr (inr e))) = rw e (valid_amount-gib amount)

span_digits_lem :
    (s : Str)
    → (s ≡ (span_digits s).0 ++ (span_digits s).1) × (all is_digit (span_digits s).0 ≡ true)
unfolding span_digits all
span_digits_lem [] = (refl, refl)
span_digits_lem (c ∷ s) = ground (arith, span_digits_lem s)

pub span_digits-append :
    (a b : Str) → all is_digit a ≡ true → span_digits b ≡ ([], b) → span_digits (a ++ b) ≡ (a, b)
unfolding span_digits all
span_digits-append [] b h k = k
span_digits-append (c ∷ a) b h k = ground (arith, span_digits-append a b)

any-str_eq :
    (P : Str → Type 0) (u : Str) (us : List Str) → All P us → any (str_eq u) us ≡ true → P u
unfolding any
any-str_eq P u [] h e = cc
any-str_eq P u (v ∷ us) h e = elim (Bool-cases (str_eq u v)) [
  | inl same ↦ subst P (sym ((str_eq_iff u v).0 same)) h.0
  | inr other ↦ any-str_eq P u us h.1 (ground arith)
]

-- No unit starts with a digit.
span_digits-units : (u : Str) → any (str_eq u) units ≡ true → span_digits u ≡ ([], u)
unfolding span_digits lit is_digit
span_digits-units u h =
    any-str_eq (λ v. span_digits v ≡ ([], v)) u units
      (refl, (refl, (refl, (refl, (refl, (refl, (refl, tt))))))) h

is_empty_iff : (s : Str) → (is_empty s ≡ false) ↔ (s ≢ [])
unfolding is_empty
is_empty_iff [] = ground arith
is_empty_iff (c ∷ s) = ground arith

-- A memory value: digits, a unit, and a number of bytes.
pub record IsMemoryValue (s digits unit : Str) : Type 0 where
  pub splits : s ≡ digits ++ unit
  pub some_digits : digits ≢ []
  pub all_digits : all is_digit digits ≡ true
  pub is_unit : any (str_eq unit) units ≡ true
  pub fits : FitsPages (value digits) (unit_multiplier unit)

valid_memory_value_sound :
    (s : Str) → valid_memory_value s ≡ true → IsMemoryValue s (span_digits s).0 (span_digits s).1
unfolding valid_memory_value memory_pattern parse_uint
valid_memory_value_sound s h = ground (
  arith,
  span_digits_lem s,
  is_empty_iff (span_digits s).0,
  valid_amount-unit_multiplier (value (span_digits s).0) (span_digits s).1,
)

fits_uint64 : (amount m : ℕ) → Multiplier m → FitsPages amount m → amount < 2 ^ 64
fits_uint64 amount m c f = ground arith

memory_pattern-append :
    (s digits unit : Str) → IsMemoryValue s digits unit → memory_pattern s ≡ some (digits, unit)
memory_pattern-append s digits unit v = rw v.splits (
    unfold memory_pattern in
    rw (span_digits-append digits unit v.all_digits (span_digits-units unit v.is_unit))
      (ground (arith, v.is_unit, is_empty_iff digits)))

valid_memory_value_complete :
    (s digits unit : Str) → IsMemoryValue s digits unit → valid_memory_value s ≡ true
unfolding valid_memory_value parse_uint
valid_memory_value_complete s digits unit v = ground (
  arith,
  memory_pattern-append s digits unit v,
  fits_uint64 (value digits) (unit_multiplier unit) (unit_multiplier-cases unit),
  valid_amount-unit_multiplier (value digits) unit,
)

-- The memory check accepts a text exactly if it splits into digits and a unit whose product is
-- positive, fits 64 bits and is a multiple of 4096.
pub valid_memory_value_iff :
    (s : Str)
    → (valid_memory_value s ≡ true) ↔ ((digits : Str) × (unit : Str) × IsMemoryValue s digits unit)
valid_memory_value_iff s = (
  λ h. ((span_digits s).0, (span_digits s).1, valid_memory_value_sound s h),
  λ (digits, unit, v). valid_memory_value_complete s digits unit v,
)
