-- ===== src/Agent/Child/Frame.antt =====
-- What an attempt of Runner.runChild in internal/agent/runtime.go leaves of the agent's slots and sandboxes.
use k8s.Prelude.{
  ◌≡◌, refl, ◌∙◌, Bool, true, false, ◌&&◌, not, Option, none, some, if◌then◌else◌, arith,
  Option-cases, inl, inr,
}
use k8s.Prelude.Int.{pos, eq_ℤ}
use k8s.Prelude.Text.{Str, str_eq, is_empty}
use k8s.Errors.{Error, Checked, Result, ok, err, Result-cases}
use k8s.Fleet.Types.{BundleRun, AttemptResult, AttemptOutput}
use k8s.Agent.Io.{Effect}
use k8s.Agent.Machine.{RunEvent}
use k8s.Agent.Machine.Documents.{PullResult, digest_string}
use k8s.Agent.Attempt.{RunChildRequest, Settled}
use k8s.Agent.Sandboxes.{Agent}
use k8s.Agent.Client.{Ran, ResultStore, Config, Node}
use k8s.Agent.Templates.Frame.{with_client-Keeps}
use k8s.Agent.AttemptRecord.{
  Ending, now, in_store, recorded, record_attempt, observe_attempt, fail_attempt_with_cause,
  fail_attempt_from_error, fail_attempt,
}
use k8s.Agent.Child.{
  committed_as, finish_attempt, settled_as, with_output, with_terminal, conclude, execute_child,
  resumed, run_in, run_local, pulled, pull_child, in_directory, emptied, run_pulled, skip_child,
  run_missing, with_existing, attempt_child, validate_prepared_child_dir, prepared_child_dir,
}

module _ {W : Type 0} (config : Config W) (message : Error → Str) where
  -- A call that ends with the agent as it was.
  abbrev Same : Agent → Ending W → Type 0
  Same a e = e.1.agent ≡ a

  either-Same :
      (a : Agent) (b : Bool) (x y : Ending W) → Same a x → Same a y → Same a (if b then x else y)
  either-Same a true x y h k = h
  either-Same a false x y h k = k

  store-Same :
      {A : Type 0} (f : ResultStore W → Effect W A) (n : Node W)
      → (in_store config message f n).1.agent ≡ n.agent
  store-Same f n = elim (Option-cases config.results) [ inl e ↦ rw e refl | inr (s, e) ↦ rw e refl ]

  record-Same :
      (run : BundleRun) (r : AttemptResult) (pull : PullResult) (a b : Bool) (returned : Checked)
      (failed : Error → Error) (n : Node W)
      → Same n.agent (record_attempt config message run r pull a b returned failed n)
  unfolding record_attempt recorded observe_attempt
  record-Same run r pull a b returned failed n =
      ground (arith, store-Same (λ s. s.write_attempt_result run r) n)

  cause-Same :
      (run : BundleRun) (r : AttemptResult) (status code text : Str) (pull : PullResult)
      (cause : Error) (n : Node W)
      → Same n.agent (fail_attempt_with_cause config message run r status code text pull cause n)
  unfolding fail_attempt_with_cause
  cause-Same run r status code text pull cause n = record-Same run _ pull false false _ _ _

  error-Same :
      (run : BundleRun) (r : AttemptResult) (e : Error) (n : Node W)
      → Same n.agent (fail_attempt_from_error config message run r e n)
  unfolding fail_attempt_from_error
  error-Same run r e n = cause-Same run r _ _ _ _ e n

  fail-Same :
      (run : BundleRun) (r : AttemptResult) (code text : Str) (pull : PullResult) (n : Node W)
      → Same n.agent (fail_attempt config message run r code text pull n)
  unfolding fail_attempt
  fail-Same run r code text pull n = cause-Same run r _ code text pull _ n

  committed-Same :
      (run : BundleRun) (r : AttemptResult) (pull : PullResult) (c : Result Bool × Node W)
      → Same c.1.agent (committed_as config message run r pull c)
  unfolding committed_as
  committed-Same run r pull (err e, n) = refl
  committed-Same run r pull (ok true, n) = record-Same run r pull true true _ _ n
  committed-Same run r pull (ok false, n) = record-Same run _ pull true false _ _ n

  finish-Same :
      (run : BundleRun) (s : Settled) (pull : PullResult) (n : Node W)
      → Same n.agent (finish_attempt config message run s pull n)
  unfolding finish_attempt
  finish-Same run (r, false) pull n = record-Same run r pull false false _ _ n
  finish-Same run (r, true) pull n =
      committed-Same run _ pull _ ∙ store-Same (λ s. s.commit_terminal_result run r) _

  settled-Same :
      (run : BundleRun) (r : AttemptResult) (pull : PullResult) (outcome : Str) (s : Option Settled)
      (n : Node W)
      → Same n.agent (settled_as config message run r pull outcome s n)
  unfolding settled_as
  settled-Same run r pull outcome none n = fail-Same run r _ _ _ n
  settled-Same run r pull outcome (some (r', commit)) n = finish-Same run _ pull _

  output-Same :
      (run : BundleRun) (r : AttemptResult) (pull : PullResult) (t : RunEvent) (ended : Checked)
      (o : Result (Option AttemptOutput)) (n : Node W)
      → Same n.agent (with_output config message run r pull t ended o n)
  unfolding with_output
  output-Same run r pull t ended (err e) n = error-Same run r e n
  output-Same run r pull t ended (ok output) n = settled-Same run _ pull t.outcome _ n

  terminal-Same :
      (run : BundleRun) (r : AttemptResult) (pull : PullResult) (ran : Ran) (t : Result RunEvent)
      (n : Node W)
      → Same n.agent (with_terminal config message run r pull ran t n)
  unfolding with_terminal
  terminal-Same run r pull ran (err e) n = error-Same run r _ n
  terminal-Same run r pull ran (ok t) n = output-Same run _ pull t ran.1 _ n

  execute-Same :
      (req : RunChildRequest) (dir backend path : Str) (n : Node W)
      → (execute_child config message req dir backend path n).1.agent ≡ n.agent
  unfolding execute_child
  execute-Same req dir backend path n = ground arith

  resumed-Same :
      (req : RunChildRequest) (r : AttemptResult) (pull : PullResult) (dir path : Str)
      (c : Checked × Node W)
      → Same c.1.agent (resumed config message req r pull dir path c)
  unfolding conclude resumed
  resumed-Same req r pull dir path (err e, n) = fail-Same req.run r _ _ _ n
  resumed-Same req r pull dir path (ok _, n) =
      terminal-Same req.run _ pull _ _ _ ∙ execute-Same req dir _ path _

  run_in-Same :
      (req : RunChildRequest) (r : AttemptResult) (pull : PullResult) (dir : Str) (n : Node W)
      → Same n.agent (run_in config message req r pull dir n)
  unfolding run_in
  run_in-Same req r pull dir n = resumed-Same req r pull dir _ _

  local-Same :
      (req : RunChildRequest) (r : AttemptResult) (n : Node W)
      → Same n.agent (run_local config message req r n)
  unfolding run_local
  local-Same req r n =
      elim (Result-cases (
        validate_prepared_child_dir config message (prepared_child_dir config message req)
          (now config message n).1)) [
            | inl (e, bad) ↦ rw (bad, run_local) (fail-Same req.run r _ _ _ _)
            | inr (_, good) ↦ rw (good, run_local) (run_in-Same req _ _ _ _)
          ]

  pulled-Same :
      (req : RunChildRequest) (r : AttemptResult) (dir : Str) (p : Result PullResult × Node W)
      → Same p.1.agent (pulled config message req r dir p)
  unfolding pulled
  pulled-Same req r dir (err e, n) = error-Same req.run r e n
  pulled-Same req r dir (ok pull, n) =
      either-Same n.agent (not (str_eq (digest_string pull.bundle_digest) req.run.bundle.digest)) _
        _ (fail-Same req.run r _ _ pull n) (run_in-Same req r pull dir n)

  directory-Same :
      (req : RunChildRequest) (r : AttemptResult) (dir : Str) (c : Checked × Node W)
      → Same c.1.agent (in_directory config message req r dir c)
  unfolding pull_child in_directory
  directory-Same req r dir (err e, n) = fail-Same req.run r _ _ _ n
  directory-Same req r dir (ok _, n) = pulled-Same req _ dir _ ∙ with_client-Keeps config _ _

  emptied-Same :
      (req : RunChildRequest) (r : AttemptResult) (dir : Str) (c : Checked × Node W)
      → Same c.1.agent (emptied config message req r dir c)
  unfolding emptied
  emptied-Same req r dir (err e, n) = fail-Same req.run r _ _ _ n
  emptied-Same req r dir (ok _, n) = directory-Same req r dir _

  missing-Same :
      (req : RunChildRequest) (r : AttemptResult) (n : Node W)
      → Same n.agent (run_missing config message req r n)
  unfolding run_pulled run_missing
  missing-Same req r n =
      either-Same n.agent (not (is_empty req.local_children_dir) && eq_ℤ req.attempt (pos 1)) _ _
        (local-Same req r n) (emptied-Same req r _ _)

  existing-Same :
      (req : RunChildRequest) (r : AttemptResult) (x : Result (Option AttemptResult)) (n : Node W)
      → Same n.agent (with_existing config message req r x n)
  unfolding skip_child with_existing
  existing-Same req r (err e) n = refl
  existing-Same req r (ok none) n = missing-Same req r n
  existing-Same req r (ok (some there)) n =
      either-Same n.agent req.run.retry_policy.rerun_committed_children _ _ (missing-Same req r n)
        (record-Same req.run _ _ _ _ _ _ _)

  -- An attempt at a child leaves the agent's slots and sandboxes as they are.
  pub attempt_child-Same :
      (req : RunChildRequest) (n : Node W) → (attempt_child config message req n).1.agent ≡ n.agent
  unfolding attempt_child
  attempt_child-Same req n =
      existing-Same req _ _ _ ∙ store-Same (λ s. s.terminal_result req.run req.child_id) _
