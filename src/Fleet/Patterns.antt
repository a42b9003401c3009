-- ===== src/Fleet/Patterns.antt =====
-- The texts that the contract accepts: the three patterns of internal/fleet/validate.go, the memory
-- value, and the shape of an S3 URI.
pub mod Ids
pub mod Memory
pub mod S3
use k8s.Prelude.{
  ℕ, ◌+◌, ◌-◌, ◌*◌, ◌/◌, ◌%◌, ◌^◌, Bool, true, false, ◌&&◌, ◌||◌, not, List, [], ◌∷◌, Option, none,
  some, ltb, leb, ◌==◌, if◌then◌else◌, length, all, any,
}
use k8s.Prelude.Text.{
  Str, lit, str_eq, is_empty, strip_prefix, has_prefix, has_suffix, trim_prefix, split_once,
}
use k8s.Prelude.Decimal.{is_digit, value}

unfoldable pub is_lower_alnum : ℕ → Bool
is_lower_alnum c = (leb b'a' c && leb c b'z') || (leb b'0' c && leb c b'9')

unfoldable pub is_id_char : ℕ → Bool
unfolding is_lower_alnum
is_id_char c = is_lower_alnum c || ((c == b'.') || ((c == b'_') || (c == b'-')))

-- ^[a-z0-9][a-z0-9._-]{2,127}$
unfoldable pub id_pattern : Str → Bool
id_pattern [] = false
id_pattern (c ∷ rest) =
    is_lower_alnum c && (all is_id_char rest && (leb 2 (length rest) && leb (length rest) 127))

unfoldable pub is_hex : ℕ → Bool
is_hex c = (leb b'a' c && leb c b'f') || (leb b'0' c && leb c b'9')

-- ^sha256:[a-f0-9]{64}$
unfoldable pub digest_pattern : Str → Bool
digest_pattern s = elim (strip_prefix (lit "sha256:") s) [
  | none ↦ false
  | some rest ↦ all is_hex rest && (length rest == 64)
]

-- The longest run of digits at the head, and what follows it.
unfoldable pub span_digits : Str → Str × Str
span_digits [] = ([], [])
span_digits (c ∷ s) = let (a, b) = span_digits s in if is_digit c then (c ∷ a, b) else ([], c ∷ s)

abbrev pub units : List Str
units = lit "b" ∷ lit "kb" ∷ lit "kib" ∷ lit "mb" ∷ lit "mib" ∷ lit "gb" ∷ lit "gib" ∷ []

-- ^([0-9]+)(b|kb|kib|mb|mib|gb|gib)$, with its two groups. No unit starts with a digit, so the first
-- group is the longest run of digits.
unfoldable pub memory_pattern : Str → Option (Str × Str)
unfolding span_digits
memory_pattern s =
    let (amount, unit) = span_digits s in
    if not (is_empty amount) && any (str_eq unit) units then some (amount, unit) else none

-- strconv.ParseUint(s, 10, 64) on digits: `none` where the value leaves 64 bits.
unfoldable pub parse_uint : Str → Option ℕ
parse_uint s = if ltb (value s) (2 ^ 64) then some (value s) else none

unfoldable pub unit_multiplier : Str → ℕ
unit_multiplier unit =
    if str_eq unit (lit "kb") || str_eq unit (lit "kib")
    then 1024
    else if str_eq unit (lit "mb") || str_eq unit (lit "mib")
    then 1024 * 1024
    else if str_eq unit (lit "gb") || str_eq unit (lit "gib")
    then 1024 * 1024 * 1024
    else 1

abbrev pub max_uint64 : ℕ
max_uint64 = 2 ^ 64 - 1

-- `amount*multiplier` is the product of two uint64, which wraps.
unfoldable pub valid_amount : ℕ → ℕ → Bool
valid_amount amount multiplier =
    if amount == 0
    then false
    else if ltb (max_uint64 / multiplier) amount
    then false
    else (amount * multiplier) % 2 ^ 64 % 4096 == 0

unfoldable pub valid_memory_value : Str → Bool
valid_memory_value s = elim (memory_pattern s) [
  | none ↦ false
  | some (digits, unit) ↦ elim (parse_uint digits) [
    | none ↦ false
    | some amount ↦ valid_amount amount (unit_multiplier unit)
  ]
]

abbrev pub both_parts : Option (Str × Str) → Bool
both_parts none = false
both_parts (some (bucket, key)) = not (is_empty bucket) && not (is_empty key)

-- Both parts of an S3 URI behind its scheme are there and not empty.
unfoldable pub bucket_and_key : Str → Bool
bucket_and_key s = both_parts (split_once b'/' (trim_prefix s (lit "s3://")))
