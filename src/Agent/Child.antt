-- ===== src/Agent/Child.antt =====
-- Runner.runChild of internal/agent/runtime.go: one attempt at a child, from the request to the record in the
-- result in the store. The text of an error (`err.Error()`) is an argument; contexts are the world's.
pub mod Frame
pub mod Recorded
use k8s.Prelude.{
  ℕ, zero, suc, Bool, true, false, ◌&&◌, ◌||◌, not, List, [], ◌∷◌, ◌++◌, Option, none, some,
  if◌then◌else◌,
}
use k8s.Prelude.Int.{ℤ, pos, negsuc, wrap_int, sub_ℤ, eq_ℤ}
use k8s.Prelude.Text.{Str, lit, str_eq, is_empty, has_prefix, has_suffix}
use k8s.Prelude.Decimal.{itoa, decimal, pad_zeros}
use k8s.Errors.{
  Error, Checked, Result, ok, err, external, joined, result_exists, result_store_not_configured,
}
use k8s.Fleet.Types.{
  Time, Float64, Bundle, BundleRun, ShardLease, Pressure, AttemptResult, AttemptError,
  AttemptOutput, AttemptTimings, attempt_failed, attempt_platform_mismatch,
  attempt_skipped_terminal_exists,
}
use k8s.Agent.Io.{Effect, lift, deferring, ◌>>=◌, ◌>>◌}
use k8s.Agent.Machine.{RunEvent, RunEventTimings, terminal_event}
use k8s.Agent.Machine.Documents.{PullResult, digest_string}
use k8s.Agent.Machine.Requests.{ResumeRequest, RunFromRequest, PullRequest}
use k8s.Agent.Output.{attempt_output_from_events}
use k8s.Agent.Slots.{admit_shard}
use k8s.Agent.Cleanup.{child_dir}
use k8s.Agent.Attempt.{
  RunChildRequest, validate_run_child_request, first_result, terminal_result_uri, as_machine_error,
  attempt_error, plain_error, machine_error_is_platform_mismatch, classify, Settled,
}
use k8s.Agent.Client.{
  SporeClient, Ran, ResultStore, AttemptMetrics, GenerationPayload, Config, Node, on_world,
  set_world,
}
use k8s.Agent.Host.{with_client}
use k8s.Agent.Handlers.{set_agent, release_slot}
use k8s.Agent.AttemptRecord.{
  bundle_source, generation_payload, prepared_name, with_commit, with_local, with_pull, with_resume,
  with_ready, with_timing, finish_at, Ending, no_pull, now, in_store, record_attempt,
  fail_attempt_from_error, fail_attempt,
}

module _ {W : Type 0} (config : Config W) (message : Error → Str) where
  abbrev not_committed : AttemptResult → AttemptResult
  not_committed r = record r {
    status = attempt_failed;
    terminal = false;
    result_uri = [];
    error =
        some (plain_error (lit "result.terminal_exists") (lit "terminal result already exists"));
  }

  unfoldable pub committed_as :
      BundleRun → AttemptResult → PullResult → Result Bool × Node W → Ending W
  committed_as run r pull (err e, n) = ((r, err e), n)
  committed_as run r pull (ok true, n) =
      record_attempt config message run r pull true true (ok tt) (λ e. e) n
  committed_as run r pull (ok false, n) =
      record_attempt config message run (not_committed r) pull true false (err result_exists)
        (λ e. e) n

  -- The commit of a terminal result, with its span, and the record of the attempt.
  unfoldable pub finish_attempt : BundleRun → Settled → PullResult → Node W → Ending W
  finish_attempt run (r, false) pull n =
      record_attempt config message run r pull false false (ok tt) (λ e. e) n
  finish_attempt run (r, true) pull n =
      let (t, n1) = now config message n in
      let (made, n2) = in_store config message (λ s. s.commit_terminal_result run r) n1 in
      let (t', n3) = now config message n2 in
      committed_as run (with_timing (with_commit (config.clock.elapsed_ms t t')) r) pull (made, n3)

  abbrev with_guest_ready : Option RunEventTimings → AttemptResult → AttemptResult
  with_guest_ready none r = r
  with_guest_ready (some t) r =
      with_timing (with_ready (config.clock.float_of t.exec_response_ms)) r

  abbrev error_of : Checked → Option Error
  error_of (ok _) = none
  error_of (err e) = some e

  unfoldable pub settled_as :
      BundleRun → AttemptResult → PullResult → Str → Option Settled → Node W → Ending W
  settled_as run r pull outcome none n =
      fail_attempt config message run r (lit "runtime.invalid_terminal_event")
        (lit "unsupported terminal outcome " ++ outcome) no_pull n
  settled_as run r pull outcome (some (r', commit)) n =
      let (t, n') = now config message n in finish_attempt run (finish_at t r', commit) pull n'

  unfoldable pub with_output :
      BundleRun
      → AttemptResult
      → PullResult
      → RunEvent
      → Checked
      → Result (Option AttemptOutput)
      → Node W
      → Ending W
  with_output run r pull terminal ended (err e) n = fail_attempt_from_error config message run r e n
  with_output run r pull terminal ended (ok output) n =
      let r' : AttemptResult = record r { output = output } in
      settled_as run r' pull terminal.outcome (classify message run r' terminal (error_of ended)) n

  abbrev first_error : Checked → Error → Error
  first_error (ok _) e = e
  first_error (err x) e = x

  unfoldable pub with_terminal :
      BundleRun → AttemptResult → PullResult → Ran → Result RunEvent → Node W → Ending W
  with_terminal run r pull ran (err e) n =
      fail_attempt_from_error config message run r (first_error ran.1 e) n
  with_terminal run r pull ran (ok terminal) n =
      with_output run (with_guest_ready terminal.timings r) pull terminal ran.1
        (attempt_output_from_events ran.0) n

  -- From what the run printed to the end of the attempt.
  unfoldable pub conclude : BundleRun → AttemptResult → PullResult → Ran → Node W → Ending W
  conclude run r pull ran n = with_terminal run r pull ran (terminal_event ran.0) n

  abbrev ran_of : Result Ran → Ran
  ran_of (ok ran) = ran
  ran_of (err e) = ([], err e)

  -- Runner.executeChild.
  unfoldable pub execute_child : RunChildRequest → Str → Str → Str → Effect (Node W) Ran
  execute_child req spore_dir backend generation_path = elim req.run.child_command [
    | [] ↦ with_client config (λ c.
        c.resume
          (record { spore_dir = spore_dir; backend = backend; generation_path = generation_path }))
    | arg ∷ args ↦ with_client config (λ c. c.run_from (record {
      spore_dir = spore_dir;
      backend = backend;
      generation_path = generation_path;
      command = arg ∷ args;
    }))
  ]

  abbrev generation_path_of : AttemptResult → Str → Str
  generation_path_of r out_dir =
      config.files.join (config.files.dir out_dir ∷ (r.attempt_id ++ lit ".generation.json") ∷ [])

  abbrev backend_of : Str → Str
  backend_of backend = if is_empty backend then config.backend else backend

  unfoldable pub resumed :
      RunChildRequest → AttemptResult → PullResult → Str → Str → Checked × Node W → Ending W
  resumed req r pull out_dir generation_path (err e, n) =
      fail_attempt config message req.run r (lit "agent.generation_failed") (message e) no_pull n
  resumed req r pull out_dir generation_path (ok _, n) =
      let (t, n1) = now config message n in
      let (ran, n2) = execute_child req out_dir (backend_of req.backend) generation_path n1 in
      let (t', n3) = now config message n2 in
      conclude req.run (with_timing (with_resume (config.clock.elapsed_ms t t')) r) pull
        (ran_of ran) n3

  abbrev remove_file : Str → Node W → Node W
  remove_file path n = set_world (config.files.remove path n.world) n

  -- The run of a child's spore, with its generation file for the while.
  unfoldable pub run_in : RunChildRequest → AttemptResult → PullResult → Str → Node W → Ending W
  run_in req r pull out_dir n =
      let path = generation_path_of r out_dir in
      let (ending, n') = resumed req r pull out_dir path (
        on_world
          (config.files.write_file path
            (config.files.generation_text (generation_payload req.run req.child_id)))
          n) in
      (ending, remove_file path n')

  abbrev pub prepared_child_dir : RunChildRequest → Str
  prepared_child_dir req =
      config.files.join (req.local_children_dir ∷ prepared_name req.child_id ∷ [])

  abbrev is_directory : Result Bool → Checked
  is_directory (err e) = err e
  is_directory (ok true) = ok tt
  is_directory (ok false) = err (external (lit "is not a directory"))

  -- validatePreparedChildDir.
  unfoldable pub validate_prepared_child_dir : Str → Node W → Checked
  validate_prepared_child_dir path n = elim (config.files.within config.work_root path) [
    | err e ↦ err e
    | ok _ ↦ is_directory (config.files.stat_dir path n.world)
  ]

  -- The branch for a child that was prepared on this node.
  unfoldable pub run_local : RunChildRequest → AttemptResult → Node W → Ending W
  run_local req r n =
      let (t, n1) = now config message n in
      elim (validate_prepared_child_dir (prepared_child_dir req) n1) [
        | err e ↦
            fail_attempt config message req.run r (lit "agent.local_child_missing") (message e)
              no_pull n1
        | ok _ ↦
            let (t', n2) = now config message n1 in
            run_in req (with_timing (with_local (config.clock.elapsed_ms t t')) r) no_pull
              (prepared_child_dir req) n2
      ]

  -- Runner.childWorkDir.
  unfoldable pub child_work_dir : RunChildRequest → AttemptResult → Str
  child_work_dir req r = config.files.join (
      config.work_root
      ∷ req.run.run_id
      ∷ req.lease.shard_id
      ∷ (lit "child-" ++ itoa req.child_id)
      ∷ (r.attempt_id ++ lit ".spore")
      ∷ [])

  unfoldable pub pulled :
      RunChildRequest → AttemptResult → Str → Result PullResult × Node W → Ending W
  pulled req r out_dir (err e, n) = fail_attempt_from_error config message req.run r e n
  pulled req r out_dir (ok pull, n) =
      if not (str_eq (digest_string pull.bundle_digest) req.run.bundle.digest)
      then fail_attempt config message req.run r (lit "object.invalid")
          (lit "pull result bundle digest did not match run bundle digest") pull n
      else run_in req r pull out_dir n

  unfoldable pub pull_child : RunChildRequest → AttemptResult → Str → Node W → Ending W
  pull_child req r out_dir n =
      let (t, n1) = now config message n in
      let (pull, n2) =
        with_client config
          (λ c. c.pull (record {
            source = bundle_source req.run;
            out_dir = out_dir;
            child_id = itoa req.child_id;
            region = req.region;
            allow_metadata_only_rootfs = req.allow_metadata_only_rootfs;
          }))
          n1 in
      let (t', n3) = now config message n2 in
      pulled req (with_timing (with_pull (config.clock.elapsed_ms t t')) r) out_dir (pull, n3)

  unfoldable pub in_directory : RunChildRequest → AttemptResult → Str → Checked × Node W → Ending W
  in_directory req r out_dir (err e, n) =
      fail_attempt config message req.run r (lit "agent.workdir_failed") (message e) no_pull n
  in_directory req r out_dir (ok _, n) = pull_child req r out_dir n

  unfoldable pub emptied : RunChildRequest → AttemptResult → Str → Checked × Node W → Ending W
  emptied req r out_dir (err e, n) =
      fail_attempt config message req.run r (lit "agent.cleanup_failed") (message e) no_pull n
  emptied req r out_dir (ok _, n) =
      let (ending, n') =
        in_directory req r out_dir
          (on_world (config.files.mkdir_all (config.files.dir out_dir)) n) in
      (ending, (on_world (config.files.remove_all out_dir) n').1)

  -- The branch that pulls the child into a directory of its own, which is removed behind it.
  unfoldable pub run_pulled : RunChildRequest → AttemptResult → Node W → Ending W
  run_pulled req r n =
      emptied req r (child_work_dir req r)
        (on_world (config.files.remove_all (child_work_dir req r)) n)

  abbrev skipped_as : RunChildRequest → AttemptResult → AttemptResult → AttemptResult
  skipped_as req r existing = record r {
    status = attempt_skipped_terminal_exists;
    terminal = true;
    result_uri =
        (if is_empty existing.result_uri
          then terminal_result_uri req.run req.child_id
          else existing.result_uri);
  }

  -- The branch for a child that has a terminal result already.
  unfoldable pub skip_child : RunChildRequest → AttemptResult → AttemptResult → Node W → Ending W
  skip_child req r existing n =
      let (t, n') = now config message n in
      record_attempt config message req.run (finish_at t (skipped_as req r existing)) no_pull false
        false (ok tt) (λ e. e) n'

  unfoldable pub run_missing : RunChildRequest → AttemptResult → Node W → Ending W
  run_missing req r n =
      if not (is_empty req.local_children_dir) && eq_ℤ req.attempt (pos 1)
      then run_local req r n
      else run_pulled req r n

  unfoldable pub with_existing :
      RunChildRequest → AttemptResult → Result (Option AttemptResult) → Node W → Ending W
  with_existing req r (err e) n = ((r, err e), n)
  with_existing req r (ok none) n = run_missing req r n
  with_existing req r (ok (some existing)) n =
      if req.run.retry_policy.rerun_committed_children
      then run_missing req r n
      else skip_child req r existing n

  -- runChild behind the check of the request.
  unfoldable pub attempt_child : RunChildRequest → Node W → Ending W
  attempt_child req n =
      let (t, n1) = now config message n in
      let (existing, n2) =
        in_store config message (λ s. s.terminal_result req.run req.child_id) n1 in
      let (t', n3) = now config message n2 in
      with_existing req
        (with_timing (with_commit (config.clock.elapsed_ms t t')) (first_result req t)) existing n3
