-- ===== src/Fleet/Patterns/Ids.antt =====
-- The identifiers of idPattern in internal/fleet/validate.go.
use k8s.Prelude.{
  ℕ, ◌+◌, ◌≤◌, ◌≡◌, ◌≢◌, true, [], ◌∷◌, ◌++◌, arith, leb, length, length-append, all, All,
  all-append,
}
use k8s.Prelude.Text.{Str, lit}
use k8s.Fleet.Patterns.{is_lower_alnum, is_id_char, id_pattern}

is_id_char-ne-slash : (c : ℕ) → is_id_char c ≡ true → c ≢ b'/'
unfolding is_id_char
is_id_char-ne-slash c h = ground arith

-- No directory separator, and neither `.` nor `..`: one name below the directory that it is joined to.
pub record IsSafeSegment (s : Str) : Type 0 where
  pub nonempty : s ≢ []
  pub no_slash : All (λ c. c ≢ b'/') s
  pub not_dot : s ≢ lit "."
  pub not_dot_dot : s ≢ lit ".."

All-id_char-no_slash : (s : Str) → all is_id_char s ≡ true → All (λ c. c ≢ b'/') s
unfolding all
All-id_char-no_slash [] h = tt
All-id_char-no_slash (c ∷ s) h = ground (arith, is_id_char-ne-slash c, All-id_char-no_slash s)

is_lower_alnum-id : (c : ℕ) → is_lower_alnum c ≡ true → (is_id_char c ≡ true) × (c ≢ b'.')
unfolding is_id_char
is_lower_alnum-id c h = ground arith

-- An accepted id is not empty, has no slash, and is neither . nor .. (so that it is a safe path
-- segment).
pub id_pattern-IsSafeSegment : (s : Str) → id_pattern s ≡ true → IsSafeSegment s
unfolding id_pattern lit
id_pattern-IsSafeSegment [] h = cc
id_pattern-IsSafeSegment (c ∷ s) h =
    let head = is_lower_alnum-id c (ground arith) in
    record {
      nonempty = ground arith;
      no_slash = (is_id_char-ne-slash c head.0, All-id_char-no_slash s (ground arith));
      not_dot = ground (arith, head.1);
      not_dot_dot = ground (arith, head.1);
    }

pub id_pattern_bounds : (s : Str) → id_pattern s ≡ true → (3 ≤ length s) × (length s ≤ 128)
unfolding id_pattern
id_pattern_bounds [] h = cc
id_pattern_bounds (c ∷ s) h = ground arith

-- Characters of identifiers may follow an identifier, up to 128 in all.
pub id_pattern-append :
    (s t : Str)
    → id_pattern s ≡ true
    → all is_id_char t ≡ true
    → id_pattern (s ++ t) ≡ leb (length s + length t) 128
unfolding id_pattern
id_pattern-append [] t h k = cc
id_pattern-append (c ∷ s) t h k = ground (arith, all-append is_id_char s t, length-append s t)
