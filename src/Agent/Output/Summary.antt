-- ===== src/Agent/Output/Summary.antt =====
-- The output summary of internal/agent/runtime.go, the streams it is of, and the contract's check of outputs
-- in internal/fleet/validate.go.
use k8s.Prelude.{
  ℕ, ◌-◌, ◌^◌, ◌≤◌, ◌<◌, ◌≡◌, refl, ap, subst, ◌∙◌, Bool, false, ◌&&◌, not, List, [], ◌∷◌, ◌++◌,
  some, length, All-take, All-append, take, length-take, min, ltb, leb, arith, All, Bool-cases,
  Option-cases, inl, inr,
}
use k8s.Prelude.Int.{ℤ, pos, eq_ℤ, ltb_ℤ, is_neg}
use k8s.Prelude.Text.{Str, lit, str_eq, is_empty}
use k8s.Prelude.Base64
use k8s.Prelude.Base64.{IsByte, decode-IsByte, decode-encode}
use k8s.Errors.{ok, Result-cases}
use k8s.Fleet.Types.{AttemptOutput}
use k8s.Fleet.Attempts.{validate_output, validate_base64_preview}
use k8s.Agent.Machine.{RunEvent}
use k8s.Agent.Output.{
  preview_limit, Seen, see_events, encoded, truncated, output_of, nothing_seen,
  attempt_output_from_events, stream_of,
}
use k8s.Agent.Output.Preview.{Saw, bytes_of, or_empty, stream_bytes, see_events-Saw}

-- A summary of a stream: the number of its bytes, its first 16384 bytes, and whether that is not all.
pub record Sums (stream : Str) (total : ℤ) (preview : Str) (cut : Bool) : Type 0 where
  pub total_eq : total ≡ pos (length stream)
  pub preview_eq : preview ≡ Base64.encode (take preview_limit stream)
  pub cut_eq : cut ≡ ltb preview_limit (length stream)

pub record Summarises (events : List RunEvent) (o : AttemptOutput) : Type 0 where
  pub stdout :
      Sums
        (stream_bytes (lit "stdout") events)
        o.stdout_bytes
        o.stdout_preview_base64
        o.stdout_truncated
  pub stderr :
      Sums
        (stream_bytes (lit "stderr") events)
        o.stderr_bytes
        o.stderr_preview_base64
        o.stderr_truncated

encoded-encode : (p : Str) → encoded p ≡ Base64.encode p
unfolding is_empty Base64.encode
encoded-encode [] = refl
encoded-encode (c ∷ p) = refl

is_empty-length : (p : Str) → is_empty p ≡ leb (length p) 0
unfolding is_empty
is_empty-length [] = refl
is_empty-length (c ∷ p) = ground arith

cut_length :
    (b : Bool) (t l n : ℕ)
    → b ≡ leb t 0
    → t ≡ min n l
    → 1 ≤ n
    → (not b && ltb_ℤ (pos t) (pos l)) ≡ ltb n l
cut_length b t l n h k some_room = ground arith

within_length : (t l n : ℕ) → t ≡ min n l → ltb_ℤ (pos l) (pos t) ≡ false
within_length t l n h = ground arith

truncated-take :
    (p : Str) → truncated (pos (length p)) (take preview_limit p) ≡ ltb preview_limit (length p)
truncated-take p =
    cut_length (is_empty (take preview_limit p)) (length (take preview_limit p)) (length p)
      preview_limit (is_empty-length (take preview_limit p)) (length-take preview_limit p)
      (omega arith)

sums :
    (stream preview : Str) (total : ℤ)
    → total ≡ pos (length stream)
    → preview ≡ take preview_limit stream
    → Sums stream total (encoded preview) (truncated total preview)
sums stream preview total h k = record {
  total_eq = h;
  preview_eq = encoded-encode preview ∙ ap Base64.encode k;
  cut_eq = rw (h, k) (truncated-take stream);
}

output_of-Summarises :
    (events : List RunEvent) (s : Seen) (o : AttemptOutput)
    → Saw (stream_bytes (lit "stdout") events) (stream_bytes (lit "stderr") events) s
    → output_of s ≡ some o
    → Summarises events o
unfolding output_of
output_of-Summarises events s o v h =
    elim (Bool-cases (eq_ℤ s.stdout_bytes (pos 0) && eq_ℤ s.stderr_bytes (pos 0))) [
      | inl nothing ↦ absurd (ground (arith, nothing, h))
      | inr something ↦ subst (Summarises events) (ground (arith, something, h)) (record {
        stdout = sums _ s.stdout_preview s.stdout_bytes v.stdout_bytes v.stdout_preview;
        stderr = sums _ s.stderr_preview s.stderr_bytes v.stderr_bytes v.stderr_preview;
      })
    ]

nothing_seen-Saw : Saw [] [] nothing_seen
nothing_seen-Saw = record {
  stdout_bytes = refl;
  stderr_bytes = refl;
  stdout_preview = refl;
  stderr_preview = refl;
}

-- Where the agent makes a summary of the output, it says of each stream how many bytes its events
-- carry, the first 16384 of them, and whether there are more, if the counts fit 63 bits.
pub attempt_output-Summarises :
    (events : List RunEvent) (o : AttemptOutput)
    → length (stream_bytes (lit "stdout") events) < 2 ^ 63
    → length (stream_bytes (lit "stderr") events) < 2 ^ 63
    → attempt_output_from_events events ≡ ok (some o)
    → Summarises events o
unfolding attempt_output_from_events
attempt_output-Summarises events o small small' h =
    elim (Result-cases (see_events events nothing_seen)) [
      | inl (x, bad) ↦ absurd (ground (arith, bad, h))
      | inr (s, good) ↦
          output_of-Summarises events s o
            (see_events-Saw events [] [] nothing_seen s small small' nothing_seen-Saw good)
            (ground (arith, good, h))
    ]

or_empty-IsByte : (s : Str) → All IsByte (or_empty (Base64.decode s))
or_empty-IsByte s = elim (Option-cases (Base64.decode s)) [
  | inl e ↦ rw e tt
  | inr (out, e) ↦ rw e (decode-IsByte s out e)
]

bytes_of-IsByte : (name : Str) (e : RunEvent) → All IsByte (bytes_of name e)
bytes_of-IsByte name e = elim (Bool-cases (str_eq (stream_of e) name)) [
  | inl h ↦ rw h (or_empty-IsByte e.data_base64)
  | inr h ↦ rw h tt
]

stream_bytes-IsByte : (name : Str) (events : List RunEvent) → All IsByte (stream_bytes name events)
unfolding stream_bytes
stream_bytes-IsByte name [] = tt
stream_bytes-IsByte name (e ∷ es) =
    All-append IsByte (bytes_of name e) _ (bytes_of-IsByte name e) (stream_bytes-IsByte name es)

Sums-valid :
    (stream preview path : Str) (total : ℤ) (cut : Bool)
    → All IsByte stream
    → Sums stream total preview cut
    → validate_base64_preview preview total path ≡ ok tt
unfolding validate_base64_preview
Sums-valid stream preview path total cut bytes v = elim (Bool-cases (is_empty preview)) [
  | inl none_seen ↦ rw (none_seen, validate_base64_preview) refl
  | inr seen ↦
      rw
        (
          seen,
          ap Base64.decode v.preview_eq
              ∙ decode-encode (take preview_limit stream)
                  (All-take IsByte preview_limit stream bytes),
          v.total_eq,
          within_length (length (take preview_limit stream)) (length stream) preview_limit
              (length-take preview_limit stream),
          validate_base64_preview,
        )
        refl
]

encode_nonempty : (c : ℕ) (s : Str) → is_empty (Base64.encode (c ∷ s)) ≡ false
unfolding is_empty Base64.encode
encode_nonempty c [] = refl
encode_nonempty c (d ∷ []) = refl
encode_nonempty c (d ∷ e ∷ s) = refl

preview_nonempty :
    (stream preview : Str) (total : ℤ) (cut : Bool)
    → Sums stream total preview cut
    → (is_empty preview && cut) ≡ false
preview_nonempty [] preview total cut v = rw v.cut_eq (ground arith)
preview_nonempty (c ∷ stream) preview total cut v =
    rw (v.preview_eq, encode_nonempty c (take (preview_limit - 1) stream)) refl

not_neg : (n : ℕ) (a : ℤ) → a ≡ pos n → is_neg a ≡ false
not_neg n a h = ground arith

-- A summary of output that the agent makes passes AttemptOutput.Validate, if the counts fit 63
-- bits.
pub attempt_output-valid :
    (events : List RunEvent) (o : AttemptOutput) (path : Str)
    → length (stream_bytes (lit "stdout") events) < 2 ^ 63
    → length (stream_bytes (lit "stderr") events) < 2 ^ 63
    → attempt_output_from_events events ≡ ok (some o)
    → validate_output o path ≡ ok tt
unfolding validate_output
attempt_output-valid events o path small small' h =
    let v = attempt_output-Summarises events o small small' h in
    let out = stream_bytes-IsByte (lit "stdout") events in
    let error = stream_bytes-IsByte (lit "stderr") events in
    rw
      (
        not_neg _ o.stdout_bytes v.stdout.total_eq,
        not_neg _ o.stderr_bytes v.stderr.total_eq,
        preview_nonempty _ o.stdout_preview_base64 o.stdout_bytes o.stdout_truncated v.stdout,
        preview_nonempty _ o.stderr_preview_base64 o.stderr_bytes o.stderr_truncated v.stderr,
        Sums-valid _ o.stdout_preview_base64 (path ++ lit ".stdoutPreviewBase64") o.stdout_bytes
            o.stdout_truncated out v.stdout,
        Sums-valid _ o.stderr_preview_base64 (path ++ lit ".stderrPreviewBase64") o.stderr_bytes
            o.stderr_truncated error v.stderr,
        validate_output,
      )
      refl
