-- ===== src/Fleet/Patterns/S3.antt =====
-- The URIs of validateS3Prefix and validateS3JSONURI in internal/fleet/validate.go.
use k8s.Prelude.{
  ℕ, ◌≡◌, ◌≢◌, ◌↔◌, ◌⊎◌, inl, inr, refl, sym, ap, subst, ◌∙◌, true, false, ◌&&◌, not, [], ◌∷◌, ◌++◌,
  Option, none, some, arith, ◌==◌, All, Bool-cases, Option-cases, ==→eq, eq→==,
}
use k8s.Prelude.Text.{
  Str, lit, is_empty, strip_prefix, has_prefix, trim_prefix, split_once, strip_prefix→append,
  str_eq, has_suffix, strip_prefix-append,
}
use k8s.Fleet.Patterns.{bucket_and_key, both_parts}

-- A bucket with no slash in it, and a key behind the first slash.
pub record IsS3Uri (s bucket key : Str) : Type 0 where
  pub parts : s ≡ lit "s3://" ++ (bucket ++ (b'/' ∷ key))
  pub has_bucket : bucket ≢ []
  pub no_slash : All (λ c. c ≢ b'/') bucket
  pub has_key : key ≢ []

abbrev SplitAt : ℕ → Str → Option (Str × Str) → Type 0
SplitAt sep s none = Unit
SplitAt sep s (some (a, b)) = (s ≡ a ++ (sep ∷ b)) × All (λ c. c ≢ sep) a

SplitAt-cons :
    (sep c : ℕ) (s : Str) (o : Option (Str × Str))
    → c ≢ sep
    → SplitAt sep s o
    → SplitAt sep (c ∷ s) (elim o [ none ↦ none | some (a, b) ↦ some (c ∷ a, b) ])
SplitAt-cons sep c s none n h = tt
SplitAt-cons sep c s (some (a, b)) n h = (ap (λ t. c ∷ t) h.0, (n, h.1))

split_once_lem : (sep : ℕ) (s : Str) → SplitAt sep s (split_once sep s)
unfolding split_once
split_once_lem sep [] = tt
split_once_lem sep (c ∷ s) = elim (Bool-cases (c == sep)) [
  | inl hit ↦ rw hit (ap (λ d. d ∷ s) (==→eq c sep hit), tt)
  | inr miss ↦ rw miss (
      SplitAt-cons sep c s (split_once sep s) (λ e. cc (miss, eq→== c sep e))
        (split_once_lem sep s))
]

split_once_sound :
    (sep : ℕ) (s a b : Str)
    → split_once sep s ≡ some (a, b)
    → (s ≡ a ++ (sep ∷ b)) × All (λ c. c ≢ sep) a
split_once_sound sep s a b h = subst (SplitAt sep s) h (split_once_lem sep s)

split_once_complete :
    (sep : ℕ) (a b : Str) → All (λ c. c ≢ sep) a → split_once sep (a ++ (sep ∷ b)) ≡ some (a, b)
unfolding split_once
split_once_complete sep [] b h = ground arith
split_once_complete sep (c ∷ a) b h = ground (arith, split_once_complete sep a b h.1)

is_empty_iff : (s : Str) → (is_empty s ≡ false) ↔ (s ≢ [])
unfolding is_empty
is_empty_iff [] = ground arith
is_empty_iff (c ∷ s) = ground arith

trim_prefix-append : (p s : Str) → trim_prefix (p ++ s) p ≡ s
unfolding trim_prefix
trim_prefix-append p s = rw (strip_prefix-append p s, trim_prefix)

append-trim_prefix : (p s : Str) → has_prefix s p ≡ true → s ≡ p ++ trim_prefix s p
unfolding has_prefix trim_prefix
append-trim_prefix p s h = elim (Option-cases (strip_prefix p s)) [
  | inl e ↦ ground (arith, e)
  | inr (rest, e) ↦ ground (arith, e, strip_prefix→append p s rest)
]

pub has_prefix-append : (p s : Str) → has_prefix (p ++ s) p ≡ true
unfolding has_prefix
has_prefix-append p s = rw (strip_prefix-append p s, has_prefix)

bucket_and_key_sound :
    (s : Str)
    → has_prefix s (lit "s3://") ≡ true
    → bucket_and_key s ≡ true
    → (bucket : Str) × (key : Str) × IsS3Uri s bucket key
bucket_and_key_sound s p h = elim (Option-cases (split_once b'/' (trim_prefix s (lit "s3://")))) [
  | inl e ↦ absurd (unfold bucket_and_key in cc (e, h))
  | inr ((bucket, key), e) ↦
      let found = split_once_sound b'/' _ bucket key e in
      let full : (not (is_empty bucket) && not (is_empty key)) ≡ true =
        unfold bucket_and_key in ground (arith, e, h) in
      (
        bucket,
        key,
        record {
          parts = append-trim_prefix (lit "s3://") s p ∙ ap (λ t. lit "s3://" ++ t) found.0;
          has_bucket = (is_empty_iff bucket).0 (ground (arith, full));
          no_slash = found.1;
          has_key = (is_empty_iff key).0 (ground (arith, full));
        },
      )
]

bucket_and_key_complete : (s bucket key : Str) → IsS3Uri s bucket key → bucket_and_key s ≡ true
unfolding bucket_and_key
bucket_and_key_complete s bucket key u = rw u.parts (
    ap (λ t. both_parts (split_once b'/' t)) (trim_prefix-append (lit "s3://") _)
    ∙ ap both_parts (split_once_complete b'/' bucket key u.no_slash)
    ∙ ground (arith, is_empty_iff bucket, is_empty_iff key))

-- A text passes the prefix test and the test for its parts exactly if it is s3://, a bucket with
-- no slash, a slash, and a key, the bucket and the key not empty.
pub bucket_and_key_iff :
    (s : Str)
    → ((has_prefix s (lit "s3://") ≡ true) × (bucket_and_key s ≡ true))
      ↔ ((bucket : Str) × (key : Str) × IsS3Uri s bucket key)
bucket_and_key_iff s = (
  λ (p, h). bucket_and_key_sound s p h,
  λ (bucket, key, u).
      (rw u.parts (has_prefix-append (lit "s3://") _), bucket_and_key_complete s bucket key u),
)

-- A key that ends with a slash: a single slash, or a slash behind some text.
abbrev pub IsDirectory : Str → Type 0
IsDirectory key = (key ≡ lit "/") ⊎ ((stem : Str) × (stem ≢ []) × (key ≡ stem ++ lit "/"))

append_some : (a key : Str) → key ≢ [] → a ++ key ≢ []
append_some [] key h = h
append_some (c ∷ a) key h = λ e. cc

not_empty : (s : Str) → s ≢ [] → str_eq s [] ≡ false
unfolding str_eq
not_empty [] h = absurd (h refl)
not_empty (c ∷ s) h = refl

-- The end of a text is that of its second part.
has_suffix-append :
    (a key : Str) → key ≢ [] → has_suffix (a ++ key) (lit "/") ≡ has_suffix key (lit "/")
unfolding has_suffix str_eq lit
has_suffix-append [] key h = refl
has_suffix-append (c ∷ a) key h =
    ground (arith, not_empty (a ++ key) (append_some a key h), has_suffix-append a key h)

ends-IsDirectory : (key : Str) → has_suffix key (lit "/") ≡ true → IsDirectory key
unfolding has_suffix str_eq lit
ends-IsDirectory [] h = absurd cc
ends-IsDirectory (c ∷ []) h = inl (ground (arith, h))
ends-IsDirectory (c ∷ d ∷ s) h = elim (ends-IsDirectory (d ∷ s) (ground (arith, h))) [
  | inl slash ↦ inr (c ∷ [], (λ e. cc), ap (λ t. c ∷ t) slash)
  | inr (stem, some_text, e) ↦ inr (c ∷ stem, (λ e'. cc), ap (λ t. c ∷ t) e)
]

directory_ends : (key : Str) → IsDirectory key → has_suffix key (lit "/") ≡ true
unfolding has_suffix str_eq lit
directory_ends key (inl slash) = rw slash refl
directory_ends key (inr (stem, some_text, e)) = rw e (has_suffix-append stem (lit "/") (λ e'. cc))

uri_ends :
    (s bucket key : Str) → IsS3Uri s bucket key → has_suffix s (lit "/") ≡ has_suffix key (lit "/")
uri_ends s bucket key v = rw (v.parts) (
    has_suffix-append (lit "s3://") (bucket ++ (b'/' ∷ key))
      (append_some bucket (b'/' ∷ key) (λ e. cc))
    ∙ (has_suffix-append bucket (b'/' ∷ key) (λ e. cc)
        ∙ has_suffix-append (b'/' ∷ []) key v.has_key))

-- A URI of a bucket and a key ends with a slash exactly if its key does.
pub IsDirectory-iff :
    (s bucket key : Str) → IsS3Uri s bucket key → (has_suffix s (lit "/") ≡ true) ↔ IsDirectory key
IsDirectory-iff s bucket key v = (
  (λ h. ends-IsDirectory key (sym (uri_ends s bucket key v) ∙ h)),
  (λ k. uri_ends s bucket key v ∙ directory_ends key k),
)
