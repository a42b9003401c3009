-- ===== src/Agent/Results/FirstWins.antt =====
-- Commits to the local result store of internal/agent/result_store.go, and what is read back.
use k8s.Prelude.{
  ◌≡◌, refl, ap, ◌∙◌, true, false, List, [], ◌∷◌, Option, none, some, arith, Bool-cases,
  Option-cases, inl, inr,
}
use k8s.Prelude.Text.{Str, str_eq, str_eq→eq, str_eq_refl}
use k8s.Errors.{Error, Result, ok, Result-cases}
use k8s.Fleet.Types.{BundleRun, AttemptResult}
use k8s.Fleet.Attempts.{validate_result}
use k8s.Agent.Attempt.{terminal_result_uri, attempt_result_uri}
use k8s.Agent.Results.{
  Files, lookup, Io, fine, fails_before, fails_after, link, write_json_create_only, commit_checks,
  write_checks, read_checks, decode_terminal_result, commit_terminal_result, write_attempt_result,
  terminal_result, Write, commit, write, after_write, after_writes,
}

-- A document stays where it is.
abbrev pub Kept : Str → AttemptResult → Files → Type 0
Kept path r files = lookup path files ≡ some r

link-Kept :
    (io : Io) (p path : Str) (x r : AttemptResult) (files : Files)
    → Kept path r files
    → Kept path r (link io p x files).1
unfolding link lookup
link-Kept io p path x r files h = elim (Option-cases (lookup p files)) [
  | inr (there, e) ↦ rw (e, link) h
  | inl absent ↦ elim (Bool-cases (str_eq p path)) [
    | inl same ↦ absurd (cc (ap (λ q. lookup q files) (str_eq→eq p path same), absent, h))
    | inr other ↦ rw (absent, other, link) h
  ]
]

write_json-Kept :
    (io : Io) (p path : Str) (x r : AttemptResult) (files : Files)
    → Kept path r files
    → Kept path r (write_json_create_only io p x files).1
unfolding write_json_create_only
write_json-Kept fine p path x r files h = link-Kept fine p path x r files h
write_json-Kept (fails_before e) p path x r files h = h
write_json-Kept (fails_after e) p path x r files h = link-Kept (fails_after e) p path x r files h

link_taken :
    (io : Io) (path : Str) (x r : AttemptResult) (files : Files)
    → Kept path r files
    → (link io path x files).0.0 ≡ false
unfolding link
link_taken io path x r files h = rw (h, link) refl

write_json_taken :
    (io : Io) (path : Str) (x r : AttemptResult) (files : Files)
    → Kept path r files
    → (write_json_create_only io path x files).0.0 ≡ false
unfolding write_json_create_only
write_json_taken fine path x r files h = link_taken fine path x r files h
write_json_taken (fails_before e) path x r files h = refl
write_json_taken (fails_after e) path x r files h = link_taken (fails_after e) path x r files h

link_new :
    (io : Io) (path : Str) (r : AttemptResult) (files : Files)
    → (link io path r files).0.0 ≡ true
    → Kept path r (link io path r files).1
unfolding link lookup
link_new io path r files = elim (Option-cases (lookup path files)) [
  | inr (there, e) ↦ rw (e, link) (λ h. absurd cc)
  | inl absent ↦ rw (absent, link) (λ h. rw (str_eq_refl path) refl)
]

write_json_new :
    (io : Io) (path : Str) (r : AttemptResult) (files : Files)
    → (write_json_create_only io path r files).0.0 ≡ true
    → Kept path r (write_json_create_only io path r files).1
unfolding write_json_create_only
write_json_new fine path r files h = link_new fine path r files h
write_json_new (fails_before e) path r files h = absurd cc
write_json_new (fails_after e) path r files h = link_new (fails_after e) path r files h

module _ (path_for : Str → Result Str) where
  commit-Kept :
      (io : Io) (cancelled : Option Error) (run : BundleRun) (x r : AttemptResult) (path : Str)
      (files : Files)
      → Kept path r files
      → Kept path r (commit_terminal_result path_for io cancelled run x files).1
  unfolding commit_terminal_result
  commit-Kept io cancelled run x r path files h =
      elim (Result-cases (commit_checks cancelled run x)) [
        | inl (e, bad) ↦ rw (bad, commit_terminal_result) h
        | inr (_, good) ↦ elim (Result-cases (path_for (terminal_result_uri run x.child_id))) [
          | inl (e, bad) ↦ rw (good, bad, commit_terminal_result) h
          | inr (p, at_p) ↦
              rw (good, at_p, commit_terminal_result) (write_json-Kept io p path x r files h)
        ]
      ]

  write-Kept :
      (io : Io) (cancelled : Option Error) (run : BundleRun) (x r : AttemptResult) (path : Str)
      (files : Files)
      → Kept path r files
      → Kept path r (write_attempt_result path_for io cancelled run x files).1
  unfolding write_attempt_result
  write-Kept io cancelled run x r path files h =
      elim (Result-cases (write_checks cancelled run x)) [
        | inl (e, bad) ↦ rw (bad, write_attempt_result) h
        | inr (_, good) ↦
            elim (Result-cases (path_for (attempt_result_uri run x.child_id x.attempt_id))) [
              | inl (e, bad) ↦ rw (good, bad, write_attempt_result) h
              | inr (p, at_p) ↦
                  rw (good, at_p, write_attempt_result) (write_json-Kept io p path x r files h)
            ]
      ]

  after_writes-Kept :
      (ws : List (Write path_for)) (path : Str) (r : AttemptResult) (files : Files)
      → Kept path r files
      → Kept path r (after_writes path_for ws files)
  unfolding after_writes after_write
  after_writes-Kept [] path r files h = h
  after_writes-Kept (commit io cancelled run x ∷ ws) path r files h =
      after_writes-Kept ws path r _ (commit-Kept io cancelled run x r path files h)
  after_writes-Kept (write io cancelled run x ∷ ws) path r files h =
      after_writes-Kept ws path r _ (write-Kept io cancelled run x r path files h)

  -- What a commit that was made has checked, and where its document is.
  record Made (run : BundleRun) (r : AttemptResult) (files : Files) : Type 0 where
    path : Str
    at_path : path_for (terminal_result_uri run r.child_id) ≡ ok path
    valid : validate_result r run ≡ ok tt
    ends : r.terminal ≡ true
    there : Kept path r files

  checks_passed :
      (cancelled : Option Error) (run : BundleRun) (r : AttemptResult)
      → commit_checks cancelled run r ≡ ok tt
      → (validate_result r run ≡ ok tt) × (r.terminal ≡ true)
  unfolding commit_checks
  checks_passed (some e) run r h = absurd cc
  checks_passed none run r h = (ground arith, ground arith)

  commit-Made :
      (io : Io) (cancelled : Option Error) (run : BundleRun) (r : AttemptResult) (files : Files)
      → (commit_terminal_result path_for io cancelled run r files).0.0 ≡ true
      → Made run r (commit_terminal_result path_for io cancelled run r files).1
  unfolding commit_terminal_result
  commit-Made io cancelled run r files = elim (Result-cases (commit_checks cancelled run r)) [
    | inl (e, bad) ↦ rw (bad, commit_terminal_result) (λ h. absurd cc)
    | inr (_, good) ↦ elim (Result-cases (path_for (terminal_result_uri run r.child_id))) [
      | inl (e, bad) ↦ rw (good, bad, commit_terminal_result) (λ h. absurd cc)
      | inr (p, at_p) ↦
          rw (good, at_p, commit_terminal_result)
            (λ h. record {
              path = p;
              at_path = at_p;
              valid = (checks_passed cancelled run r good).0;
              ends = (checks_passed cancelled run r good).1;
              there = write_json_new io p r files h;
            })
    ]
  ]

  read_checks_valid :
      (run : BundleRun) (r : AttemptResult)
      → validate_result r run ≡ ok tt
      → read_checks none run r.child_id ≡ ok tt
  unfolding read_checks validate_result
  read_checks_valid run r h = ground arith

  -- After a commit that was made, whatever commits and attempt documents of any runs are written,
  -- TerminalResult reads the committed result for its child, where the call is not cancelled.
  pub committed_result_stays :
      (io : Io) (cancelled : Option Error) (run : BundleRun) (r : AttemptResult)
      (ws : List (Write path_for)) (files : Files)
      → (commit_terminal_result path_for io cancelled run r files).0.0 ≡ true
      → terminal_result path_for none run r.child_id
          (after_writes path_for ws (commit_terminal_result path_for io cancelled run r files).1)
        ≡ ok (some r)
  unfolding terminal_result decode_terminal_result
  committed_result_stays io cancelled run r ws files h =
      let made = commit-Made io cancelled run r files h in
      rw
        (
          read_checks_valid run r made.valid,
          made.at_path,
          after_writes-Kept ws made.path r _ made.there,
          made.valid,
          made.ends,
          terminal_result,
        )
        refl

  commit_taken :
      (io : Io) (cancelled : Option Error) (run : BundleRun) (x r : AttemptResult) (path : Str)
      (files : Files)
      → path_for (terminal_result_uri run x.child_id) ≡ ok path
      → Kept path r files
      → (commit_terminal_result path_for io cancelled run x files).0.0 ≡ false
  unfolding commit_terminal_result
  commit_taken io cancelled run x r path files at_path kept =
      elim (Result-cases (commit_checks cancelled run x)) [
        | inl (e, bad) ↦ rw (bad, commit_terminal_result) refl
        | inr (_, good) ↦
            rw (good, at_path, commit_terminal_result) (write_json_taken io path x r files kept)
      ]

  -- After a commit that was made, whatever is written in between, no other commit for the same
  -- child of the run is made.
  pub commit_once :
      (io io' : Io) (cancelled cancelled' : Option Error) (run : BundleRun) (r x : AttemptResult)
      (ws : List (Write path_for)) (files : Files)
      → (commit_terminal_result path_for io cancelled run r files).0.0 ≡ true
      → x.child_id ≡ r.child_id
      → (commit_terminal_result path_for io' cancelled' run x (
          after_writes path_for ws
            (commit_terminal_result path_for io cancelled run r files).1)).0.0
        ≡ false
  commit_once io io' cancelled cancelled' run r x ws files h same =
      let made = commit-Made io cancelled run r files h in
      commit_taken io' cancelled' run x r made.path _
        (ap (λ c. path_for (terminal_result_uri run c)) same ∙ made.at_path)
        (after_writes-Kept ws made.path r _ made.there)
