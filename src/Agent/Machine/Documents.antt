-- ===== src/Agent/Machine/Documents.antt =====
-- The results that the virtual machine's command prints, and their checks: internal/agent/machine.go. The
-- text of an error leaves out the values that Go prints into it.
use k8s.Prelude.{ℕ, Bool, ◌||◌, ◌&&◌, List, ◌++◌, Option, not, if◌then◌else◌, ◌==◌}
use k8s.Prelude.Int.{ℤ, pos, eq_ℤ}
use k8s.Prelude.Text.{Str, lit, str_eq, is_empty, is_some}
use k8s.Errors.{Checked, MachineErrorBody, invalid_machine_output, ◌>>◌, fail_if}
use k8s.Agent.Machine.{validate_machine_error}

-- A document is of a schema at a version.
abbrev pub of_schema : Str → ℤ → Str → ℕ → Bool
of_schema schema version want number = str_eq schema want && eq_ℤ version (pos number)

pub record VersionResult : Type 0 where
  pub schema : Str
  pub schema_version : ℤ
  pub version : Str
  pub build_mode : Str

unfoldable pub validate_version : VersionResult → Checked
validate_version r = do
  fail_if (not (of_schema r.schema r.schema_version (lit "spore.version.result.v1") 1))
      (invalid_machine_output (lit "version schema"))
  fail_if (is_empty r.version) (invalid_machine_output (lit "version is empty"))

pub record DigestRef : Type 0 where
  pub algorithm : Str
  pub hex : Str

-- DigestRef.String.
unfoldable pub digest_string : DigestRef → Str
digest_string d =
    if is_empty d.algorithm || is_empty d.hex then lit "" else d.algorithm ++ lit ":" ++ d.hex

pub record CacheState : Type 0 where
  pub hit_count : ℤ
  pub miss_count : ℤ
  pub bytes_fetched : ℤ

pub record ChunkMaterializationSummary : Type 0 where
  pub chunk_count : ℤ
  pub materialized_chunk_count : ℤ
  pub payload_bytes : ℤ
  pub linked_chunk_count : ℤ
  pub copied_chunk_count : ℤ
  pub cache : CacheState

pub record RootfsMaterializationSummary : Type 0 where
  pub artifact_count : ℤ
  pub payload_bytes : ℤ
  pub cache : CacheState

pub record ChunkpackSummary : Type 0 where
  pub chunk_count : ℤ
  pub pack_count : ℤ
  pub payload_bytes : ℤ

pub record BundleChildSummary : Type 0 where
  pub id : Str
  pub manifest : Str

pub record BundleSelectionSummary : Type 0 where
  pub kind : Str
  pub selected_count : ℤ
  pub children : List BundleChildSummary

pub record RootfsBundleSummary : Type 0 where
  pub artifact_count : ℤ
  pub exact_bytes_count : ℤ
  pub metadata_only_count : ℤ
  pub payload_bytes : ℤ

pub record InspectBundleResult : Type 0 where
  pub schema : Str
  pub schema_version : ℤ
  pub source : Str
  pub bundle_dir : Str
  pub bundle_digest : DigestRef
  pub parent_manifest : Str
  pub chunkpack_index : Str
  pub chunkpack : ChunkpackSummary
  pub child_count : ℤ
  pub children : List BundleChildSummary
  pub selection : BundleSelectionSummary
  pub rootfs : RootfsBundleSummary

unfoldable pub validate_inspect_result : InspectBundleResult → Checked
validate_inspect_result r = do
  fail_if (not (of_schema r.schema r.schema_version (lit "spore.bundle.inspect.v1") 1))
      (invalid_machine_output (lit "inspect-bundle schema"))
  fail_if (is_empty (digest_string r.bundle_digest))
      (invalid_machine_output (lit "inspect-bundle bundle_digest is empty"))

pub record RemoteBundleCache : Type 0 where
  pub cache_hit : Bool
  pub origin_bytes_read : ℤ
  pub peer_bytes_read : ℤ

pub record BundleChildrenSummary : Type 0 where
  pub count : ℤ
  pub selected_child : Option Str

pub record PullResult : Type 0 where
  pub schema : Str
  pub schema_version : ℤ
  pub source : Str
  pub bundle_dir : Str
  pub out_dir : Str
  pub bundle_digest : DigestRef
  pub materialization : ChunkMaterializationSummary
  pub rootfs : RootfsMaterializationSummary
  pub remote : RemoteBundleCache
  pub children : BundleChildrenSummary

unfoldable pub validate_pull_result : PullResult → Checked
validate_pull_result r = do
  fail_if (not (of_schema r.schema r.schema_version (lit "spore.pull.result.v1") 1))
      (invalid_machine_output (lit "pull schema"))
  fail_if (is_empty (digest_string r.bundle_digest))
      (invalid_machine_output (lit "pull bundle_digest is empty"))
  fail_if (is_empty r.out_dir) (invalid_machine_output (lit "pull out_dir is empty"))

pub record NamedLifecycleTiming : Type 0 where
  pub prepare_ms : ℕ
  pub spawn_monitor_ms : ℕ
  pub wait_exec_ready_ms : ℕ
  pub total_ms : ℕ

pub record NamedLifecycleResult : Type 0 where
  pub schema : Str
  pub schema_version : ℕ
  pub action : Str
  pub name : Str
  pub state : Str
  pub timing : Option NamedLifecycleTiming

-- NamedLifecycleResult.validateRestored.
unfoldable pub validate_restored : Str → NamedLifecycleResult → Checked
validate_restored name r = do
  fail_if (not (str_eq r.schema (lit "spore.lifecycle.v1")) || not (r.schema_version == 1))
      (invalid_machine_output (lit "named lifecycle schema"))
  fail_if (not (str_eq r.action (lit "restored")) || not (str_eq r.state (lit "ready")))
      (invalid_machine_output (lit "named lifecycle action and state"))
  fail_if (not (str_eq r.name name)) (invalid_machine_output (lit "named lifecycle name"))
  fail_if (not (is_some r.timing))
      (invalid_machine_output (lit "named lifecycle timing is missing"))

pub record RemovedSavedSporeResult : Type 0 where
  pub schema : Str
  pub schema_version : ℤ
  pub action : Str

unfoldable pub validate_removed_saved_spore : RemovedSavedSporeResult → Checked
validate_removed_saved_spore r = do
  fail_if
      (not (of_schema r.schema r.schema_version (lit "spore.saved.remove.result.v1") 1)
        && not (of_schema r.schema r.schema_version (lit "spore.saved.remove.result.v2") 2))
      (invalid_machine_output (lit "remove saved spore schema"))
  fail_if (not (str_eq r.action (lit "removed_spore")))
      (invalid_machine_output (lit "remove saved spore action"))

pub record CacheGcResult : Type 0 where
  pub schema : Str
  pub schema_version : ℤ
  pub dry_run : Bool
  pub deleted_count : ℤ
  pub deleted_bytes : ℕ

unfoldable pub validate_cache_gc : CacheGcResult → Checked
validate_cache_gc r = do
  fail_if
      (not (of_schema r.schema r.schema_version (lit "spore.cache.gc.result.v1") 1)
        && not (of_schema r.schema r.schema_version (lit "spore.cache.gc.result.v2") 2))
      (invalid_machine_output (lit "cache gc schema"))
  fail_if r.dry_run (invalid_machine_output (lit "cache gc reported a dry run"))

pub record MachineErrorEnvelope : Type 0 where
  pub schema : Str
  pub schema_version : ℤ
  pub error : MachineErrorBody

unfoldable pub validate_error_envelope : MachineErrorEnvelope → Checked
validate_error_envelope e = do
  fail_if (not (of_schema e.schema e.schema_version (lit "spore.error.v1") 1))
      (invalid_machine_output (lit "error schema"))
  validate_machine_error e.error
