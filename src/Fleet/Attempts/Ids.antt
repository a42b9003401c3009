-- ===== src/Fleet/Attempts/Ids.antt =====
-- The ids that FormatAttemptID of internal/fleet/validate.go makes.
use mathlib.Core.List.{append_cancel_left}
use k8s.Prelude.{
  ℕ, ◌+◌, ◌≤◌, ◌≡◌, refl, sym, ap, ◌∙◌, true, [], ◌∷◌, ◌++◌, arith, length, length-append, leb, all,
  all-append,
}
use k8s.Prelude.Int.{pos}
use k8s.Prelude.Text.{Str, lit}
use k8s.Prelude.Decimal.{
  is_digit, decimal, itoa, pad_zeros, value, value-decimal, decimal-injective, value-pad_zeros,
  all-decimal, all-pad_zeros, decimal_nonempty, length-pad_zeros,
}
use k8s.Errors.{ok}
use k8s.Fleet.Types.{AttemptResult, BundleRun}
use k8s.Fleet.Patterns.{id_pattern, is_id_char, span_digits}
use k8s.Fleet.Patterns.Ids.{id_pattern-append}
use k8s.Fleet.Patterns.Memory.{span_digits-append}
use k8s.Fleet.Validate.Spec.{validate_id_iff, validate_bundle_run_iff}
use k8s.Fleet.Validate.{validate_bundle_run}
use k8s.Fleet.Attempts.{two_digits, format_attempt_id, validate_result}

-- Two texts of digits that another text follows, in front of which stands no digit, are read apart.
digits_apart :
    (s t u v : Str)
    → all is_digit s ≡ true
    → all is_digit t ≡ true
    → span_digits u ≡ ([], u)
    → span_digits v ≡ ([], v)
    → s ++ u ≡ t ++ v
    → (s ≡ t) × (u ≡ v)
digits_apart s t u v hs ht hu hv e =
    let both : ◌≡◌ {A = Str × Str} (s, u) (t, v) =
      sym (span_digits-append s u hs hu) ∙ ap span_digits e ∙ span_digits-append t v ht hv in
    (ap (λ p. p.0) both, ap (λ p. p.1) both)

attempt_separator : (s : Str) → span_digits (lit "-attempt-" ++ s) ≡ ([], lit "-attempt-" ++ s)
unfolding span_digits lit is_digit
attempt_separator s = refl

two_digits-injective : (m n : ℕ) → two_digits (pos m) ≡ two_digits (pos n) → m ≡ n
unfolding two_digits
two_digits-injective m n e =
    sym (value-decimal m)
    ∙ sym (value-pad_zeros 2 (decimal m))
    ∙ ap value e
    ∙ value-pad_zeros 2 (decimal n)
    ∙ value-decimal n

-- Attempt ids of one run that are equal have the same child and the same attempt, for numbers that
-- are not negative.
pub format_attempt_id-injective :
    (run_id : Str) (child child' attempt attempt' : ℕ)
    → format_attempt_id run_id (pos child) (pos attempt)
      ≡ format_attempt_id run_id (pos child') (pos attempt')
    → (child ≡ child') × (attempt ≡ attempt')
unfolding format_attempt_id itoa
format_attempt_id-injective run_id child child' attempt attempt' e =
    let behind = append_cancel_left (lit "-child-") _ _ (append_cancel_left run_id _ _ e) in
    let (children, rest) =
      digits_apart (decimal child) (decimal child') _ _ (all-decimal child) (all-decimal child')
        (attempt_separator (two_digits (pos attempt)))
        (attempt_separator (two_digits (pos attempt'))) behind in
    (
      decimal-injective child child' children,
      two_digits-injective attempt attempt' (append_cancel_left (lit "-attempt-") _ _ rest),
    )

digit-is_id_char : (c : ℕ) → is_digit c ≡ true → is_id_char c ≡ true
unfolding is_digit is_id_char
digit-is_id_char c h = ground arith

digits-id_chars : (s : Str) → all is_digit s ≡ true → all is_id_char s ≡ true
unfolding all
digits-id_chars [] h = refl
digits-id_chars (c ∷ s) h = ground (arith, digit-is_id_char c, digits-id_chars s)

child_chars : all is_id_char (lit "-child-") ≡ true
unfolding all is_id_char lit
child_chars = refl

attempt_chars : all is_id_char (lit "-attempt-") ≡ true
unfolding all is_id_char lit
attempt_chars = refl

separator_lengths : length (lit "-child-") + length (lit "-attempt-") ≡ 16
unfolding lit
separator_lengths = refl

-- What follows the run's id: its characters, and how many there are at least.
suffix_chars :
    (child attempt : ℕ)
    → all is_id_char
        (lit "-child-" ++ (decimal child ++ (lit "-attempt-" ++ two_digits (pos attempt))))
      ≡ true
unfolding two_digits
suffix_chars child attempt = ground (
  arith,
  all-append is_id_char (lit "-child-")
      (decimal child ++ (lit "-attempt-" ++ pad_zeros 2 (decimal attempt))),
  all-append is_id_char (decimal child) (lit "-attempt-" ++ pad_zeros 2 (decimal attempt)),
  all-append is_id_char (lit "-attempt-") (pad_zeros 2 (decimal attempt)),
  child_chars,
  attempt_chars,
  digits-id_chars (decimal child) (all-decimal child),
  digits-id_chars (pad_zeros 2 (decimal attempt))
      (all-pad_zeros 2 (decimal attempt) (all-decimal attempt)),
)

suffix_length :
    (child attempt : ℕ)
    → length (lit "-child-" ++ (decimal child ++ (lit "-attempt-" ++ two_digits (pos attempt))))
      ≡ 16 + length (decimal child) + length (two_digits (pos attempt))
suffix_length child attempt = omega (
  arith,
  separator_lengths,
  length-append (lit "-child-") (decimal child ++ (lit "-attempt-" ++ two_digits (pos attempt))),
  length-append (decimal child) (lit "-attempt-" ++ two_digits (pos attempt)),
  length-append (lit "-attempt-") (two_digits (pos attempt)),
)

-- For a valid run id, and a child and an attempt that are not negative, the attempt's id passes
-- the id check exactly if it has at most 128 characters.
pub id_pattern-format_attempt_id :
    (run_id : Str) (child attempt : ℕ)
    → id_pattern run_id ≡ true
    → id_pattern (format_attempt_id run_id (pos child) (pos attempt))
      ≡ leb (length run_id + (16 + length (decimal child) + length (two_digits (pos attempt)))) 128
unfolding format_attempt_id itoa
id_pattern-format_attempt_id run_id child attempt h =
    id_pattern-append run_id _ h (suffix_chars child attempt)
    ∙ ap (λ n. leb (length run_id + n) 128) (suffix_length child attempt)

two_digits-length : (n : ℕ) → 2 ≤ length (two_digits (pos n))
unfolding two_digits
two_digits-length n = (length-pad_zeros 2 (decimal n)).0

result_ids :
    (r : AttemptResult) (run : BundleRun)
    → validate_result r run ≡ ok tt
    → (validate_bundle_run run ≡ ok tt) × (id_pattern r.attempt_id ≡ true)
unfolding validate_result
result_ids r run h =
    (ground arith, (validate_id_iff r.attempt_id (lit "attemptResult.attemptID")).0 (ground arith))

-- A result that carries its attempt's id, and passes AttemptResult.Validate, is of a run whose id
-- has at most 109 characters.
pub validate_result_long_id :
    (r : AttemptResult) (run : BundleRun) (child attempt : ℕ)
    → r.attempt_id ≡ format_attempt_id run.run_id (pos child) (pos attempt)
    → validate_result r run ≡ ok tt
    → length run.run_id ≤ 109
validate_result_long_id r run child attempt e h =
    let (admitted, id) = result_ids r run h in
    ground (
      arith,
      id,
      ap id_pattern e,
      id_pattern-format_attempt_id run.run_id child attempt
          ((validate_bundle_run_iff run).0 admitted).run_id,
      decimal_nonempty child,
      two_digits-length attempt,
    )
