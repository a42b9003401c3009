-- ===== src/Agent/Client.antt =====
-- The boundary of the agent in internal/agent/runtime.go and internal/agent/interactive.go: `SporeClient`, the
-- calls of the file system, and the state of a `Runner`. What the calls do is the world's, which is an argument.
use k8s.Prelude.{ℕ, Bool, true, List, [], Option, none}
use k8s.Prelude.Int.{ℤ}
use k8s.Prelude.Text.{Str}
use k8s.Prelude.StrMap.{StrMap}
use k8s.Errors.{Checked, Result}
use k8s.Fleet.Types.{HostClass, Run, BundleRun, AttemptResult, AttemptTimings, Time, Float64}
use k8s.Agent.Io.{Effect}
use k8s.Agent.Slots.{SlotLimiter}
use k8s.Agent.Machine.{RunEvent}
use k8s.Agent.Machine.Documents.{
  InspectBundleResult, PullResult, NamedLifecycleResult, CacheGcResult,
}
use k8s.Agent.Machine.HostInfo.{HostInfo}
use k8s.Agent.Machine.Requests.{
  InspectBundleRequest, RunCaptureRequest, ForkRequest, PackRequest, PullRequest, ResumeRequest,
  RestoreNamedRequest, RunFromRequest, ExecRequest, RemoveVmRequest, RemoveSavedSporeRequest,
}
use k8s.Agent.Sandboxes.{Agent}

-- What a command that prints events returns: the events that were read, beside its error.
abbrev pub Ran : Type 0
Ran = List RunEvent × Checked

pub record SporeClient (W : Type 0) : Type 0 where
  pub executable : Effect W Str
  pub version : Effect W Str
  pub host_info : Effect W HostInfo
  pub inspect_bundle : InspectBundleRequest → Effect W InspectBundleResult
  pub run_capture : RunCaptureRequest → Effect W Ran
  pub fork : ForkRequest → Effect W Unit
  pub pack : PackRequest → Effect W Unit
  pub pull : PullRequest → Effect W PullResult
  pub resume : ResumeRequest → Effect W Ran
  pub restore_named : RestoreNamedRequest → Effect W NamedLifecycleResult
  pub run_from : RunFromRequest → Effect W Ran
  pub exec : ExecRequest → Effect W Ran
  pub remove_vm : RemoveVmRequest → Effect W Unit
  pub remove_saved_spore : RemoveSavedSporeRequest → Effect W Unit
  pub collect_cache : Effect W CacheGcResult

-- ResultStore of internal/agent/result_store.go.
pub record ResultStore (W : Type 0) : Type 0 where
  pub terminal_result : BundleRun → ℤ → Effect W (Option AttemptResult)
  pub write_attempt_result : BundleRun → AttemptResult → Effect W (Unit {0})
  pub commit_terminal_result : BundleRun → AttemptResult → Effect W Bool

pub record AttemptMetrics : Type 0 where
  pub run_id : Str
  pub bundle_digest : Str
  pub child_id : ℤ
  pub attempt_id : Str
  pub agent_id : Str
  pub shard_id : Str
  pub status : Str
  pub timings_ms : AttemptTimings
  pub origin_bytes_read : ℤ
  pub peer_bytes_read : ℤ
  pub chunk_cache_hits : ℤ
  pub chunk_cache_misses : ℤ
  pub rootfs_cache_hits : ℤ
  pub rootfs_cache_misses : ℤ
  pub materialized_chunk_count : ℤ
  pub linked_chunk_count : ℤ
  pub copied_chunk_count : ℤ
  pub platform_mismatch : Bool
  pub terminal_commit_attempted : Bool
  pub terminal_commit_successful : Bool

-- The agent's clock, the span of two of its times in milliseconds (elapsedMS) and `float64(n)`.
pub record Clock (W : Type 0) : Type 0 where
  pub now : W → Time × W
  pub elapsed_ms : Time → Time → Float64
  pub float_of : ℕ → Float64

pub record GenerationPayload : Type 0 where
  pub run_id : Str
  pub child_id : ℤ
  pub parallel_index : ℤ
  pub parallel_count : ℤ
  pub fork_index : ℤ
  pub fork_count : ℤ
  pub fork_batch_id : Str
  pub vm_id : Str

-- What the agent compares of an `os.FileInfo`: the file's identity, its size and its two times.
pub record FileInfo : Type 0 where
  pub file : ℕ
  pub size : ℤ
  pub mod_time : ℤ
  pub change_time : ℤ

pub record BootTemplateRuntimeIdentity : Type 0 where
  pub version : Str
  pub digest : Str
  pub host_class : HostClass
  pub executable : FileInfo

pub record BootTemplateKey : Type 0 where
  pub schema : Str
  pub image : Str
  pub memory : Str
  pub backend : Str
  pub version : Str
  pub digest : Str
  pub host_class : HostClass

-- What the agent reads of an `os.DirEntry`.
pub record DirEntry : Type 0 where
  pub name : Str
  pub is_dir : Bool
  pub is_symlink : Bool

-- What os.Lstat says of a path that is there.
pub data FileKind : Type 0 where
  directory : FileKind
  symlink : FileKind
  other : FileKind

-- The calls of `os`, of `filepath` and of the hash and JSON libraries.
pub record FileSystem (W : Type 0) : Type 0 where
  pub join : List Str → Str
  -- os.Stat of an executable, and its hash with the stat of the file that was read.
  pub stat : Str → Effect W FileInfo
  pub hash_file : Str → Effect W (Str × FileInfo)
  -- Whether a path is there and is no directory.
  pub is_file : Str → W → Bool
  pub mod_time_ns : Str → W → ℤ
  -- The entries of a directory; nothing where there is none.
  pub read_dir : Str → W → Result (Option (List DirEntry))
  pub remove_all : Str → Effect W Unit
  pub mkdir_all : Str → Effect W Unit
  pub mkdir_temp : Str → Effect W Str
  pub write_file : Str → Str → Effect W Unit
  -- The directory of a path (filepath.Dir), and os.Remove without its error.
  pub dir : Str → Str
  pub remove : Str → W → W
  -- validatePathWithin, of a root and a path, and whether os.Stat finds a directory.
  pub within : Str → Str → Checked
  pub stat_dir : Str → W → Result Bool
  -- os.Lstat; nothing where the path is not there.
  pub lstat : Str → W → Result (Option FileKind)
  -- The parts of a path below a base (filepath.Rel).
  pub parts_below : Str → Str → Result (List Str)
  -- A ledger's file, if it is there, and what it decodes as.
  pub read_ledger : Str → W → Result (Option (Result (List Str)))
  -- The ledger's temporary file, written, synced and closed; and a directory, synced.
  pub write_synced : Str → List Str → Effect W Unit
  pub sync_dir : Str → Effect W Unit
  pub file_uri : Str → Result Str
  -- localPreparedDigest.
  pub run_digest : Run → HostClass → Str
  pub generation_text : GenerationPayload → Str
  pub rename : Str → Str → Effect W Unit
  -- The hexadecimal SHA-256 of a key's JSON, and the text of its indented JSON.
  pub key_digest : BootTemplateKey → Str
  pub key_text : BootTemplateKey → Str
  -- What a file holds if it decodes as a key.
  pub read_key : Str → W → Option BootTemplateKey

-- The release closure of a template: the directory, and whether it has been called.
pub record TemplateLease : Type 0 where
  pub template_dir : Str
  pub done : Bool

-- A Runner's state between its calls, with the world.
pub record Node (W : Type 0) : Type 0 where
  pub agent : Agent
  pub host_classes : StrMap HostClass
  pub template_identity : Option BootTemplateRuntimeIdentity
  pub template_uses : StrMap ℤ
  pub template_leases : List TemplateLease
  pub cache_gc_pending : Bool
  pub world : W

-- What a Runner is configured with; the client is `none` where it is nil.
pub record Config (W : Type 0) : Type 0 where
  pub client : Option (SporeClient W)
  pub results : Option (ResultStore W)
  pub metrics : Option (AttemptMetrics → W → W)
  pub clock : Clock W
  pub files : FileSystem W
  pub work_root : Str
  pub backend : Str
  pub cache_gc : Bool

-- NewRunner, behind its limiter.
unfoldable pub new_runner : {W : Type 0} → SlotLimiter → W → Node W
new_runner limiter w = record {
  agent = record { slots = record { limiter = limiter; grants = [] }; sandboxes = [] };
  host_classes = [];
  template_identity = none;
  template_uses = [];
  template_leases = [];
  cache_gc_pending = true;
  world = w;
}

-- A call of the world.
abbrev pub set_world : {W : Type 0} → W → Node W → Node W
set_world w n = record n { world = w }

abbrev pub on_world : {W A : Type 0} → Effect W A → Effect (Node W) A
on_world m n = ((m n.world).0, set_world (m n.world).1 n)
