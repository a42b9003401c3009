-- ===== src/Agent/Output/Preview.antt =====
-- The counts and the previews of the output summary of internal/agent/runtime.go.
use mathlib.Core.List.{append-nil, append_assoc}
use k8s.Prelude.{
  ℕ, ◌-◌, ◌^◌, ◌<◌, ◌≡◌, ◌⊎◌, refl, sym, ap, subst, ◌∙◌, true, false, List, [], ◌∷◌, ◌++◌, Option,
  none, some, if◌then◌else◌, length, length-append, take_all, take-append_short, take-append_long,
  take, length-take, ltb, leb, arith, Bool-cases, Option-cases, inl, inr,
}
use k8s.Prelude.Int.{pos, add_int, add_int_exact}
use k8s.Prelude.Text.{Str, lit, str_eq, str_eq→eq}
use k8s.Prelude.Base64
use k8s.Prelude.Base64.{IsByte, decode-IsByte, decode-encode}
use k8s.Errors.{ok, Result-cases}
use k8s.Agent.Machine.{RunEvent}
use k8s.Agent.Output.{
  preview_limit, append_output_preview, Seen, stream_of, see, is_output, see_event, see_events,
}

-- The bytes of one stream, event by event: `name` is stdout or stderr.
abbrev pub or_empty : Option Str → Str
or_empty none = []
or_empty (some b) = b

abbrev pub bytes_of : Str → RunEvent → Str
bytes_of name e = if str_eq (stream_of e) name then or_empty (Base64.decode e.data_base64) else []

unfoldable pub stream_bytes : Str → List RunEvent → Str
stream_bytes name [] = []
stream_bytes name (e ∷ es) = bytes_of name e ++ stream_bytes name es

-- Appending to a preview of `p` gives the preview of `p` and what is appended.
append_output_preview-take :
    (n : ℕ) (p b : Str) → append_output_preview n (take n p) b ≡ take n (p ++ b)
unfolding append_output_preview
append_output_preview-take n p b = elim (Bool-cases (leb n (length p))) [
  | inl full ↦ ground (arith, full, length-take n p, take-append_short n p b)
  | inr room ↦ elim (Bool-cases (ltb (n - length p) (length b))) [
    | inl cut ↦ ground (arith, room, cut, take_all n p, take-append_long n p b)
    | inr fits ↦
        ground (arith, room, fits, take_all n p, take-append_long n p b, take_all (n - length p) b)
  ]
]

-- The variables of the loop after the bytes `p` of stdout and `q` of stderr.
pub record Saw (p q : Str) (s : Seen) : Type 0 where
  pub stdout_bytes : s.stdout_bytes ≡ pos (length p)
  pub stderr_bytes : s.stderr_bytes ≡ pos (length q)
  pub stdout_preview : s.stdout_preview ≡ take preview_limit p
  pub stderr_preview : s.stderr_preview ≡ take preview_limit q

streams_differ : str_eq (lit "stderr") (lit "stdout") ≡ false
unfolding str_eq lit
streams_differ = refl

add_length :
    (p b : Str)
    → length (p ++ b) < 2 ^ 63
    → add_int (pos (length p)) (pos (length b)) ≡ pos (length (p ++ b))
add_length p b h =
    add_int_exact (length p) (length b) (omega (arith, h, length-append p b))
    ∙ ap pos (sym (length-append p b))

see-Saw_stdout :
    (p q b stream : Str) (s : Seen)
    → str_eq stream (lit "stdout") ≡ true
    → length (p ++ b) < 2 ^ 63
    → Saw p q s
    → Saw (p ++ b) q (see stream b s)
unfolding see
see-Saw_stdout p q b stream s e h v =
    rw (e, see)
      (record {
        stdout_bytes = ap (λ n. add_int n (pos (length b))) v.stdout_bytes ∙ add_length p b h;
        stderr_bytes = v.stderr_bytes;
        stdout_preview =
            ap (λ t. append_output_preview preview_limit t b) v.stdout_preview
            ∙ append_output_preview-take preview_limit p b;
        stderr_preview = v.stderr_preview;
      })

see-Saw_stderr :
    (p q b stream : Str) (s : Seen)
    → str_eq stream (lit "stdout") ≡ false
    → length (q ++ b) < 2 ^ 63
    → Saw p q s
    → Saw p (q ++ b) (see stream b s)
unfolding see
see-Saw_stderr p q b stream s e h v =
    rw (e, see)
      (record {
        stdout_bytes = v.stdout_bytes;
        stderr_bytes = ap (λ n. add_int n (pos (length b))) v.stderr_bytes ∙ add_length q b h;
        stdout_preview = v.stdout_preview;
        stderr_preview =
            ap (λ t. append_output_preview preview_limit t b) v.stderr_preview
            ∙ append_output_preview-take preview_limit q b;
      })

Saw-same : (p q a b : Str) (s : Seen) → a ≡ [] → b ≡ [] → Saw p q s → Saw (p ++ a) (q ++ b) s
Saw-same p q a b s e f v = rw (e, f, append-nil p, append-nil q) v

stdout_only :
    (stream : Str) → str_eq stream (lit "stdout") ≡ true → str_eq stream (lit "stderr") ≡ false
unfolding lit str_eq
stdout_only stream h = ap (λ t. str_eq t (lit "stderr")) (str_eq→eq stream (lit "stdout") h)

bytes_here :
    (name : Str) (e : RunEvent) (b : Str)
    → str_eq (stream_of e) name ≡ true
    → Base64.decode e.data_base64 ≡ some b
    → bytes_of name e ≡ b
bytes_here name e b h k = rw (h, k) refl

bytes_elsewhere :
    (name : Str) (e : RunEvent) → str_eq (stream_of e) name ≡ false → bytes_of name e ≡ []
bytes_elsewhere name e h = rw h refl

pub ok-injective : (s t : Seen) → ok s ≡ ok t → s ≡ t
ok-injective s t h = cc

-- The ways in which a round succeeds.
see_event_cases :
    (e : RunEvent) (s t : Seen)
    → see_event e s ≡ ok t
    → ((is_output e ≡ false) × (s ≡ t))
      ⊎ ((b : Str) × (is_output e ≡ true)
          × (Base64.decode e.data_base64 ≡ some b)
          × (see (stream_of e) b s ≡ t))
unfolding see_event
see_event_cases e s t h = elim (Bool-cases (is_output e)) [
  | inr other ↦ inl (other, ground (arith, other, h))
  | inl output ↦ elim (Option-cases (Base64.decode e.data_base64)) [
    | inl bad ↦ absurd (ground (arith, output, bad, h))
    | inr (b, good) ↦ inr (b, output, good, ground (arith, output, good, h))
  ]
]

-- The round of one event, if it succeeds.
see_event-Saw :
    (p q : Str) (e : RunEvent) (s t : Seen)
    → length (p ++ bytes_of (lit "stdout") e) < 2 ^ 63
    → length (q ++ bytes_of (lit "stderr") e) < 2 ^ 63
    → Saw p q s
    → see_event e s ≡ ok t
    → Saw (p ++ bytes_of (lit "stdout") e) (q ++ bytes_of (lit "stderr") e) t
see_event-Saw p q e s t hp hq v h = elim (see_event_cases e s t h) [
  | inl (other, eq) ↦ subst (Saw _ _) eq (
      Saw-same p q _ _ s (bytes_elsewhere (lit "stdout") e (ground arith))
        (bytes_elsewhere (lit "stderr") e (ground arith)) v)
  | inr (b, output, good, eq) ↦ elim (Bool-cases (str_eq (stream_of e) (lit "stdout"))) [
    | inl out ↦
        let here = bytes_here (lit "stdout") e b out good in
        let there = bytes_elsewhere (lit "stderr") e (stdout_only (stream_of e) out) in
        subst (Saw _ _) eq (
          rw (here, there, append-nil q)
            (see-Saw_stdout p q b (stream_of e) s out
              (subst (λ x. length (p ++ x) < 2 ^ 63) here hp) v))
    | inr not_out ↦
        let here = bytes_here (lit "stderr") e b (ground (arith, output, not_out)) good in
        let there = bytes_elsewhere (lit "stdout") e not_out in
        subst (Saw _ _) eq (
          rw (here, there, append-nil p)
            (see-Saw_stderr p q b (stream_of e) s not_out
              (subst (λ x. length (q ++ x) < 2 ^ 63) here hq) v))
  ]
]

prefix_short : (p a r : Str) → length (p ++ (a ++ r)) < 2 ^ 63 → length (p ++ a) < 2 ^ 63
prefix_short p a r h =
    omega (arith, h, length-append p (a ++ r), length-append a r, length-append p a)

pub see_events-Saw :
    (events : List RunEvent) (p q : Str) (s t : Seen)
    → length (p ++ stream_bytes (lit "stdout") events) < 2 ^ 63
    → length (q ++ stream_bytes (lit "stderr") events) < 2 ^ 63
    → Saw p q s
    → see_events events s ≡ ok t
    → Saw (p ++ stream_bytes (lit "stdout") events) (q ++ stream_bytes (lit "stderr") events) t
unfolding see_events stream_bytes
see_events-Saw [] p q s t hp hq v h =
    Saw-same p q [] [] t refl refl (subst (Saw p q) (ok-injective s t h) v)
see_events-Saw (e ∷ es) p q s t hp hq v h = elim (Result-cases (see_event e s)) [
  | inl (x, bad) ↦ absurd (ground (arith, bad, h))
  | inr (u, good) ↦
      let out = bytes_of (lit "stdout") e in
      let error = bytes_of (lit "stderr") e in
      let rest =
        see_events-Saw es (p ++ out) (q ++ error) u t
          (subst (λ x. length x < 2 ^ 63) (sym (append_assoc p out _)) hp)
          (subst (λ x. length x < 2 ^ 63) (sym (append_assoc q error _)) hq)
          (see_event-Saw p q e s u (prefix_short p out _ hp) (prefix_short q error _ hq) v good)
          (ground (arith, good, h)) in
      subst (λ x. Saw x (q ++ (error ++ stream_bytes (lit "stderr") es)) t) (append_assoc p out _)
        (subst (λ x. Saw ((p ++ out) ++ stream_bytes (lit "stdout") es) x t)
          (append_assoc q error _) rest)
]
