-- ===== src/Agent/Child/Recorded.antt =====
-- What an attempt of Runner.runChild in internal/agent/runtime.go leaves in the result store.
use k8s.Prelude.{
  ◌≡◌, ap, subst, Bool, true, false, ◌&&◌, not, Option, none, some, if◌then◌else◌, arith,
  Bool-cases, Option-cases, inl, inr,
}
use k8s.Prelude.Int.{pos, eq_ℤ}
use k8s.Prelude.Text.{Str, str_eq, is_empty}
use k8s.Errors.{Error, Checked, Result, ok, err, Result-cases}
use k8s.Fleet.Types.{BundleRun, AttemptResult, AttemptOutput}
use k8s.Agent.Machine.{RunEvent}
use k8s.Agent.Machine.Documents.{PullResult, digest_string}
use k8s.Agent.Attempt.{RunChildRequest, Settled}
use k8s.Agent.Client.{Ran, ResultStore, AttemptMetrics, Config, Node, set_world}
use k8s.Agent.AttemptRecord.{
  Ending, now, recorded, record_attempt, observe_attempt, fail_attempt_with_cause,
  fail_attempt_from_error, fail_attempt, attempt_metrics,
}
use k8s.Agent.Child.{
  committed_as, finish_attempt, settled_as, with_output, with_terminal, conclude, resumed, run_in,
  run_local, pulled, pull_child, in_directory, emptied, run_pulled, skip_child, run_missing,
  with_existing, attempt_child, validate_prepared_child_dir, prepared_child_dir,
}

module _ {W : Type 0} (config : Config W) (message : Error → Str)
    (Stored : AttemptResult → W → Type 0)
    (written : (s : ResultStore W) (run : BundleRun) (r : AttemptResult) (w : W)
      → config.results ≡ some s
      → (s.write_attempt_result run r w).0 ≡ ok tt
      → Stored r (s.write_attempt_result run r w).1)
    (measured : (sink : AttemptMetrics → W → W) (m : AttemptMetrics) (r : AttemptResult) (w : W)
      → config.metrics ≡ some sink
      → Stored r w
      → Stored r (sink m w))
    (unlinked : (path : Str) (r : AttemptResult) (w : W)
      → Stored r w
      → Stored r (config.files.remove path w))
    (emptied_dir : (path : Str) (r : AttemptResult) (w : W)
      → Stored r w
      → Stored r (config.files.remove_all path w).1) where
  -- An attempt that returned no error is stored.
  abbrev Fine : Ending W → Type 0
  Fine e = (r : AttemptResult) → e.0 ≡ (r, ok tt) → Stored r e.1.world

  either-Fine : (b : Bool) (x y : Ending W) → Fine x → Fine y → Fine (if b then x else y)
  either-Fine true x y h k = h
  either-Fine false x y h k = k

  observed :
      (r r' : AttemptResult) (pull : PullResult) (a b : Bool) (n : Node W)
      → Stored r n.world
      → Stored r (observe_attempt config message r' pull a b n).world
  unfolding observe_attempt
  observed r r' pull a b n h = elim (Option-cases config.metrics) [
    | inl e ↦ rw (e, observe_attempt) h
    | inr (sink, e) ↦
        rw (e, observe_attempt) (measured sink (attempt_metrics r' pull a b) r n.world e h)
  ]

  record-Fine :
      (run : BundleRun) (r : AttemptResult) (pull : PullResult) (a b : Bool) (returned : Checked)
      (failed : Error → Error) (n : Node W)
      → Fine (record_attempt config message run r pull a b returned failed n)
  unfolding record_attempt recorded observe_attempt
  record-Fine run r pull a b returned failed n = elim (Option-cases config.results) [
    | inl e ↦ rw (e, record_attempt) (λ r' h. absurd (ground (arith, h)))
    | inr (s, e) ↦ elim (Result-cases (s.write_attempt_result run r n.world).0) [
      | inl (x, bad) ↦ rw (e, bad, record_attempt) (λ r' h. absurd (ground (arith, h)))
      | inr (_, good) ↦
          rw (e, good, record_attempt)
            (λ r' h.
              subst
                (λ q.
                  Stored q
                    (observe_attempt config message r pull a b
                      (set_world (s.write_attempt_result run r n.world).1 n)).world)
                (ap (λ x. x.0) h)
                (observed r r pull a b (set_world (s.write_attempt_result run r n.world).1 n)
                  (written s run r n.world e good)))
    ]
  ]

  cause-Fine :
      (run : BundleRun) (r : AttemptResult) (status code text : Str) (pull : PullResult)
      (cause : Error) (n : Node W)
      → Fine (fail_attempt_with_cause config message run r status code text pull cause n)
  unfolding fail_attempt_with_cause
  cause-Fine run r status code text pull cause n = record-Fine run _ pull false false _ _ _

  error-Fine :
      (run : BundleRun) (r : AttemptResult) (e : Error) (n : Node W)
      → Fine (fail_attempt_from_error config message run r e n)
  unfolding fail_attempt_from_error
  error-Fine run r e n = cause-Fine run r _ _ _ _ e n

  fail-Fine :
      (run : BundleRun) (r : AttemptResult) (code text : Str) (pull : PullResult) (n : Node W)
      → Fine (fail_attempt config message run r code text pull n)
  unfolding fail_attempt
  fail-Fine run r code text pull n = cause-Fine run r _ code text pull _ n

  committed-Fine :
      (run : BundleRun) (r : AttemptResult) (pull : PullResult) (c : Result Bool × Node W)
      → Fine (committed_as config message run r pull c)
  unfolding committed_as
  committed-Fine run r pull (err e, n) = λ r' h. absurd (ground (arith, h))
  committed-Fine run r pull (ok true, n) = record-Fine run r pull true true _ _ n
  committed-Fine run r pull (ok false, n) = record-Fine run _ pull true false _ _ n

  finish-Fine :
      (run : BundleRun) (s : Settled) (pull : PullResult) (n : Node W)
      → Fine (finish_attempt config message run s pull n)
  unfolding finish_attempt
  finish-Fine run (r, false) pull n = record-Fine run r pull false false _ _ n
  finish-Fine run (r, true) pull n = committed-Fine run _ pull _

  settled-Fine :
      (run : BundleRun) (r : AttemptResult) (pull : PullResult) (outcome : Str) (s : Option Settled)
      (n : Node W)
      → Fine (settled_as config message run r pull outcome s n)
  unfolding settled_as
  settled-Fine run r pull outcome none n = fail-Fine run r _ _ _ n
  settled-Fine run r pull outcome (some (r', commit)) n = finish-Fine run _ pull _

  output-Fine :
      (run : BundleRun) (r : AttemptResult) (pull : PullResult) (t : RunEvent) (ended : Checked)
      (o : Result (Option AttemptOutput)) (n : Node W)
      → Fine (with_output config message run r pull t ended o n)
  unfolding with_output
  output-Fine run r pull t ended (err e) n = error-Fine run r e n
  output-Fine run r pull t ended (ok output) n = settled-Fine run _ pull t.outcome _ n

  terminal-Fine :
      (run : BundleRun) (r : AttemptResult) (pull : PullResult) (ran : Ran) (t : Result RunEvent)
      (n : Node W)
      → Fine (with_terminal config message run r pull ran t n)
  unfolding with_terminal
  terminal-Fine run r pull ran (err e) n = error-Fine run r _ n
  terminal-Fine run r pull ran (ok t) n = output-Fine run _ pull t ran.1 _ n

  resumed-Fine :
      (req : RunChildRequest) (r : AttemptResult) (pull : PullResult) (dir path : Str)
      (c : Checked × Node W)
      → Fine (resumed config message req r pull dir path c)
  unfolding conclude resumed
  resumed-Fine req r pull dir path (err e, n) = fail-Fine req.run r _ _ _ n
  resumed-Fine req r pull dir path (ok _, n) = terminal-Fine req.run _ pull _ _ _

  run_in-Fine :
      (req : RunChildRequest) (r : AttemptResult) (pull : PullResult) (dir : Str) (n : Node W)
      → Fine (run_in config message req r pull dir n)
  unfolding run_in
  run_in-Fine req r pull dir n r' h = unlinked _ r' _ (resumed-Fine req r pull dir _ _ r' h)

  local-Fine :
      (req : RunChildRequest) (r : AttemptResult) (n : Node W)
      → Fine (run_local config message req r n)
  unfolding run_local
  local-Fine req r n =
      elim (Result-cases (
        validate_prepared_child_dir config message (prepared_child_dir config message req)
          (now config message n).1)) [
            | inl (e, bad) ↦ rw (bad, run_local) (fail-Fine req.run r _ _ _ _)
            | inr (_, good) ↦ rw (good, run_local) (run_in-Fine req _ _ _ _)
          ]

  pulled-Fine :
      (req : RunChildRequest) (r : AttemptResult) (dir : Str) (p : Result PullResult × Node W)
      → Fine (pulled config message req r dir p)
  unfolding pulled
  pulled-Fine req r dir (err e, n) = error-Fine req.run r e n
  pulled-Fine req r dir (ok pull, n) =
      elim (Bool-cases (str_eq (digest_string pull.bundle_digest) req.run.bundle.digest)) [
        | inl same ↦ rw (same, pulled) (run_in-Fine req r pull dir n)
        | inr other ↦ rw (other, pulled) (fail-Fine req.run r _ _ pull n)
      ]

  directory-Fine :
      (req : RunChildRequest) (r : AttemptResult) (dir : Str) (c : Checked × Node W)
      → Fine (in_directory config message req r dir c)
  unfolding pull_child in_directory
  directory-Fine req r dir (err e, n) = fail-Fine req.run r _ _ _ n
  directory-Fine req r dir (ok _, n) = pulled-Fine req _ dir _

  emptied-Fine :
      (req : RunChildRequest) (r : AttemptResult) (dir : Str) (c : Checked × Node W)
      → Fine (emptied config message req r dir c)
  unfolding emptied
  emptied-Fine req r dir (err e, n) r' h = fail-Fine req.run r _ _ _ n r' h
  emptied-Fine req r dir (ok _, n) r' h = emptied_dir dir r' _ (directory-Fine req r dir _ r' h)

  missing-Fine :
      (req : RunChildRequest) (r : AttemptResult) (n : Node W)
      → Fine (run_missing config message req r n)
  unfolding run_pulled run_missing
  missing-Fine req r n =
      elim (Bool-cases (not (is_empty req.local_children_dir) && eq_ℤ req.attempt (pos 1))) [
        | inl here ↦ rw (here, run_missing) (local-Fine req r n)
        | inr away ↦ rw (away, run_missing) (emptied-Fine req r _ _)
      ]

  existing-Fine :
      (req : RunChildRequest) (r : AttemptResult) (x : Result (Option AttemptResult)) (n : Node W)
      → Fine (with_existing config message req r x n)
  unfolding skip_child with_existing
  existing-Fine req r (err e) n = λ r' h. absurd (ground (arith, h))
  existing-Fine req r (ok none) n = missing-Fine req r n
  existing-Fine req r (ok (some there)) n =
      either-Fine req.run.retry_policy.rerun_committed_children _ _ (missing-Fine req r n)
        (record-Fine req.run _ _ _ _ _ _ _)

  -- An attempt at a child that returns no error has been recorded: what a write of a result puts
  -- into the store, and the metrics and the removal of the attempt's files keep, holds of its
  -- result.
  pub attempt_child-Stored :
      (req : RunChildRequest) (n : Node W) (r : AttemptResult)
      → (attempt_child config message req n).0 ≡ (r, ok tt)
      → Stored r (attempt_child config message req n).1.world
  unfolding attempt_child
  attempt_child-Stored req n = existing-Fine req _ _ _
