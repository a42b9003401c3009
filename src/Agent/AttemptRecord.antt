-- ===== src/Agent/AttemptRecord.antt =====
-- The record of a child attempt in internal/agent/runtime.go: the attempt document, the metrics, and the attempts that
-- failed, with the source and the generation of a child. The text of an error is an argument.
use k8s.Prelude.{suc, Bool, false, [], ◌++◌, none, some, if◌then◌else◌}
use k8s.Prelude.Int.{ℤ, pos, negsuc, wrap_int, sub_ℤ}
use k8s.Prelude.Text.{Str, lit, str_eq, has_prefix, has_suffix}
use k8s.Prelude.Decimal.{itoa, decimal, pad_zeros}
use k8s.Errors.{Error, Checked, ok, err, external, joined, result_store_not_configured}
use k8s.Fleet.Types.{
  Time, Float64, BundleRun, AttemptResult, AttemptError, AttemptTimings, attempt_failed,
  attempt_platform_mismatch,
}
use k8s.Agent.Io.{Effect, lift}
use k8s.Agent.Machine.Documents.{PullResult}
use k8s.Agent.Cleanup.{child_dir}
use k8s.Agent.Attempt.{
  as_machine_error, attempt_error, plain_error, machine_error_is_platform_mismatch,
}
use k8s.Agent.Client.{
  ResultStore, AttemptMetrics, GenerationPayload, Config, Node, on_world, set_world,
}

-- bundleSource.
unfoldable pub bundle_source : BundleRun → Str
bundle_source run =
    if has_prefix run.bundle.uri (lit "file://")
    then run.bundle.uri
    else if has_suffix run.bundle.uri (lit "@" ++ run.bundle.digest)
    then run.bundle.uri
    else run.bundle.uri ++ lit "@" ++ run.bundle.digest

-- What writeGenerationFile writes.
unfoldable pub generation_payload : BundleRun → ℤ → GenerationPayload
generation_payload run child = record {
  run_id = run.run_id;
  child_id = child;
  parallel_index = wrap_int (sub_ℤ child run.children.start);
  parallel_count = run.children.count;
  fork_index = wrap_int (sub_ℤ child run.children.start);
  fork_count = run.children.count;
  fork_batch_id = run.run_id;
  vm_id = run.run_id ++ lit "-child-" ++ itoa child;
}

-- preparedChildSporeDir's last segment: `%06d`.
abbrev pub prepared_name : ℤ → Str
prepared_name (pos n) = child_dir n
prepared_name (negsuc n) = lit "-" ++ pad_zeros 5 (decimal (suc n))

abbrev pub with_commit : Float64 → AttemptTimings → AttemptTimings
with_commit x t = record t { result_commit = x }

abbrev pub with_local : Float64 → AttemptTimings → AttemptTimings
with_local x t = record t { local_child = x }

abbrev pub with_pull : Float64 → AttemptTimings → AttemptTimings
with_pull x t = record t { artifact_pull = x }

abbrev pub with_resume : Float64 → AttemptTimings → AttemptTimings
with_resume x t = record t { resume = x }

abbrev pub with_ready : Float64 → AttemptTimings → AttemptTimings
with_ready x t = record t { guest_ready = x }

abbrev pub with_timing : (AttemptTimings → AttemptTimings) → AttemptResult → AttemptResult
with_timing f r = record r { timings_ms = f r.timings_ms }

abbrev pub finish_at : Time → AttemptResult → AttemptResult
finish_at t r = record r { finished_at = t }

-- A result and an error, which are both returned.
abbrev pub Ending : Type 0 → Type 0
Ending W = (AttemptResult × Checked) × Node W

-- The platform mismatch of an error that wraps a machine's.
abbrev pub failed_status : Error → Str
failed_status e = elim (as_machine_error e) [
  | none ↦ attempt_failed
  | some m ↦
      if machine_error_is_platform_mismatch m.0 then attempt_platform_mismatch else attempt_failed
]

abbrev pub no_pull : PullResult
no_pull = record {
  schema = [];
  schema_version = pos 0;
  source = [];
  bundle_dir = [];
  out_dir = [];
  bundle_digest = record { algorithm = []; hex = [] };
  materialization = record {
    chunk_count = pos 0;
    materialized_chunk_count = pos 0;
    payload_bytes = pos 0;
    linked_chunk_count = pos 0;
    copied_chunk_count = pos 0;
    cache = record { hit_count = pos 0; miss_count = pos 0; bytes_fetched = pos 0 };
  };
  rootfs = record {
    artifact_count = pos 0;
    payload_bytes = pos 0;
    cache = record { hit_count = pos 0; miss_count = pos 0; bytes_fetched = pos 0 };
  };
  remote = record { cache_hit = false; origin_bytes_read = pos 0; peer_bytes_read = pos 0 };
  children = record { count = pos 0; selected_child = none };
}

unfoldable pub attempt_metrics : AttemptResult → PullResult → Bool → Bool → AttemptMetrics
attempt_metrics r pull attempted successful = record {
  run_id = r.run_id;
  bundle_digest = r.bundle_digest;
  child_id = r.child_id;
  attempt_id = r.attempt_id;
  agent_id = r.agent_id;
  shard_id = r.shard_id;
  status = r.status;
  timings_ms = r.timings_ms;
  origin_bytes_read = pull.remote.origin_bytes_read;
  peer_bytes_read = pull.remote.peer_bytes_read;
  chunk_cache_hits = pull.materialization.cache.hit_count;
  chunk_cache_misses = pull.materialization.cache.miss_count;
  rootfs_cache_hits = pull.rootfs.cache.hit_count;
  rootfs_cache_misses = pull.rootfs.cache.miss_count;
  materialized_chunk_count = pull.materialization.materialized_chunk_count;
  linked_chunk_count = pull.materialization.linked_chunk_count;
  copied_chunk_count = pull.materialization.copied_chunk_count;
  platform_mismatch = str_eq r.status attempt_platform_mismatch;
  terminal_commit_attempted = attempted;
  terminal_commit_successful = successful;
}

module _ {W : Type 0} (config : Config W) (message : Error → Str) where
  abbrev pub now : Node W → Time × Node W
  now n = ((config.clock.now n.world).0, set_world (config.clock.now n.world).1 n)

  abbrev pub in_store : {A : Type 0} → (ResultStore W → Effect W A) → Effect (Node W) A
  in_store f = elim config.results [
    | none ↦ lift (err result_store_not_configured)
    | some s ↦ on_world (f s)
  ]

  -- Runner.observeAttempt.
  unfoldable pub observe_attempt : AttemptResult → PullResult → Bool → Bool → Node W → Node W
  observe_attempt r pull attempted successful n = elim config.metrics [
    | none ↦ n
    | some sink ↦ set_world (sink (attempt_metrics r pull attempted successful) n.world) n
  ]

  -- WriteAttemptResult, and then the metrics or the error of the write.
  unfoldable pub recorded :
      AttemptResult
      → PullResult
      → Bool
      → Bool
      → Checked
      → (Error → Error)
      → Checked × Node W
      → Ending W
  recorded r pull attempted successful returned failed (err e, n) = ((r, err (failed e)), n)
  recorded r pull attempted successful returned failed (ok _, n) =
      ((r, returned), observe_attempt r pull attempted successful n)

  unfoldable pub record_attempt :
      BundleRun
      → AttemptResult
      → PullResult
      → Bool
      → Bool
      → Checked
      → (Error → Error)
      → Node W
      → Ending W
  record_attempt run r pull attempted successful returned failed n =
      recorded r pull attempted successful returned failed
        (in_store (λ s. s.write_attempt_result run r) n)

  abbrev pub failure_of : Str → Str → Error → AttemptError
  failure_of code text cause = elim (as_machine_error cause) [
    | none ↦ plain_error code text
    | some _ ↦ attempt_error message cause
  ]

  abbrev pub failed_as : AttemptResult → Str → Str → Str → Error → Time → AttemptResult
  failed_as r status code text cause t = record r {
    status = status;
    terminal = false;
    finished_at = t;
    error = some (failure_of code text cause);
  }

  -- Runner.failAttemptWithCause, which every caller calls for an attempt that is not terminal.
  unfoldable pub fail_attempt_with_cause :
      BundleRun → AttemptResult → Str → Str → Str → PullResult → Error → Node W → Ending W
  fail_attempt_with_cause run r status code text pull cause n =
      let (t, n') = now n in
      record_attempt run (failed_as r status code text cause t) pull false false (err cause)
        (λ e. joined cause e) n'

  -- Runner.failAttemptFromError.
  unfoldable pub fail_attempt_from_error : BundleRun → AttemptResult → Error → Node W → Ending W
  fail_attempt_from_error run r e =
      fail_attempt_with_cause run r (failed_status e) (attempt_error message e).code
        (attempt_error message e).message no_pull e

  -- Runner.failAttempt and Runner.failAttemptWithPull: the cause is a new error of the text.
  unfoldable pub fail_attempt :
      BundleRun → AttemptResult → Str → Str → PullResult → Node W → Ending W
  fail_attempt run r code text pull =
      fail_attempt_with_cause run r attempt_failed code text pull (external text)
