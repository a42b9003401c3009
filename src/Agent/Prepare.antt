-- ===== src/Agent/Prepare.antt =====
-- The preparation of a source run in internal/agent/runtime.go, and its release through the ledger of what is
-- still to be removed. A path's join, the timer's ticks and the error of its context are arguments.
pub mod Gates
pub mod Removal
pub mod Progress
use k8s.Prelude.{
  ℕ, zero, suc, ◌+◌, Bool, true, false, ◌&&◌, ◌||◌, not, List, [], ◌∷◌, ◌++◌, Option, none, some,
  if◌then◌else◌, all,
}
use k8s.Prelude.Int.{ℤ, pos}
use k8s.Prelude.Text.{Str, lit, str_eq, is_empty, has_prefix, is_some}
use k8s.Errors.{
  Error, Checked, Result, ok, err, external, joined, invalid_machine_output,
  spore_client_not_configured, work_root_not_configured, fail_if,
}
use k8s.Fleet.Types.{
  HostClass, Run, Bundle, PreparedBundle, PreparedLocalBundle, PrepareTimings, children_range,
  end_of,
}
use k8s.Fleet.Validate.{validate_run, compile}
use k8s.Agent.Io.{Effect, pure, lift, read, ◌>>=◌, ◌>>◌}
use k8s.Agent.Machine.{RunEvent, terminal_event}
use k8s.Agent.Machine.Documents.{InspectBundleResult, digest_string}
use k8s.Agent.Machine.Requests.{
  RunCaptureRequest, ForkRequest, PackRequest, InspectBundleRequest, ChildRangeSelection,
}
use k8s.Agent.Cleanup.{is_prepared_child_dir, validate_cleanup_ledger_paths}
use k8s.Agent.Client.{
  SporeClient, DirEntry, FileKind, directory, symlink, other, Config, Node, on_world,
}
use k8s.Agent.Host.{with_client, host_class, remove_prepared_spore}
use k8s.Agent.PreparedTree.{joined_to, write_cleanup_ledger, load_or_create_cleanup_ledger}

pub record PrepareBundleRequest : Type 0 where
  pub run : Run
  pub backend : Str

pub record PreparedRunCleanup : Type 0 where
  pub run_id : Str
  pub removed_children : ℕ

pub record LocalPreparation : Type 0 where
  pub host_class : HostClass
  pub parent_dir : Str
  pub children_dir : Str
  pub bundle_dir : Str

abbrev pub Cleanup : Type 0 → Type 0
Cleanup W = (PreparedRunCleanup × Checked) × Node W

module _ {W : Type 0} (config : Config W) (ticks : ℕ) (ended : Error) where
  -- What os.Lstat may say of a pending entry: it is gone, or it is a directory.
  abbrev removable : Result (Option FileKind) → Checked
  removable (err e) = err e
  removable (ok none) = ok tt
  removable (ok (some directory)) = ok tt
  removable (ok (some symlink)) = err (external (lit "pending prepared spore is not a directory"))
  removable (ok (some other)) = err (external (lit "pending prepared spore is not a directory"))

  unfoldable pub remove_entry : Str → Str → Effect (Node W) Unit
  remove_entry root rel = do
    (λ n. (removable (config.files.lstat (joined_to config root rel) n.world), n))
    remove_prepared_spore config ticks ended (joined_to config root rel)

  abbrev pub one_child : Str → ℕ
  one_child rel = if has_prefix rel (lit "children/") then 1 else 0

  -- The loop over the ledger: the number of children removed, and the error that ended it.
  unfoldable pub remove_pending : Str → List Str → ℕ → Node W → (ℕ × Checked) × Node W
  remove_pending root [] removed n = ((removed, ok tt), n)
  remove_pending root (rel ∷ rest) removed n =
      let gone = remove_entry root rel n in
      let noted = write_cleanup_ledger config root rest gone.1 in
      let later = remove_pending root rest (removed + one_child rel) noted.1 in
      elim gone.0 [
        | err e ↦ ((removed, err e), gone.1)
        | ok _ ↦ elim noted.0 [ err e ↦ ((removed + one_child rel, err e), noted.1) | ok _ ↦ later ]
      ]

  abbrev counted_as : Str → ℕ → PreparedRunCleanup
  counted_as run_id removed = record { run_id = run_id; removed_children = removed }

  abbrev removed_all : Str → Str → (ℕ × Checked) × Node W → Cleanup W
  removed_all run_id root ((removed, err e), n) = ((counted_as run_id removed, err e), n)
  removed_all run_id root ((removed, ok _), n) = (
    (counted_as run_id removed, (on_world (config.files.remove_all root) n).0),
    (on_world (config.files.remove_all root) n).1,
  )

  abbrev with_ledger : Str → Str → Result (List Str) × Node W → Cleanup W
  with_ledger run_id root (err e, n) = ((counted_as run_id 0, err e), n)
  with_ledger run_id root (ok pending, n) =
      removed_all run_id root (remove_pending root pending 0 n)

  -- The loop of validateNoSymlinkPath.
  unfoldable pub no_symlinks : Str → List Str → W → Checked
  no_symlinks current [] w = ok tt
  no_symlinks current (part ∷ parts) w =
      let rest = no_symlinks (joined_to config current part) parts w in
      elim (config.files.lstat (joined_to config current part) w) [
        | err e ↦ err e
        | ok none ↦ ok tt
        | ok (some k) ↦ elim k [
          | directory ↦ rest
          | symlink ↦ err (external (lit "prepared path contains symlink"))
          | other ↦ err (external (lit "prepared path component is not a directory"))
        ]
      ]

  abbrev no_symlink_path : Str → Node W → Checked
  no_symlink_path root n = elim (config.files.parts_below config.work_root root) [
    | err e ↦ err e
    | ok parts ↦ no_symlinks config.work_root parts n.world
  ]

  -- Runner.prepareWorkDir.
  abbrev pub prepare_work_dir : Run → Str
  prepare_work_dir run = config.files.join (config.work_root ∷ run.run_id ∷ lit "prepare" ∷ [])

  -- What is checked before a release looks at the directory.
  unfoldable pub release_checks : Run → Effect (Node W) Unit
  release_checks run = do
    lift (fail_if (not (is_some config.client)) spore_client_not_configured)
    lift (fail_if (is_empty config.work_root) work_root_not_configured)
    lift (validate_run run)
    lift (config.files.within config.work_root (prepare_work_dir run))
    (λ n. (no_symlink_path (prepare_work_dir run) n, n))

  abbrev release_there : Run → Result (Option FileKind) → Node W → Cleanup W
  release_there run (err e) n = ((counted_as run.run_id 0, err e), n)
  release_there run (ok none) n = ((counted_as run.run_id 0, ok tt), n)
  release_there run (ok (some _)) n =
      with_ledger run.run_id (prepare_work_dir run)
        (load_or_create_cleanup_ledger config (prepare_work_dir run) n)

  abbrev release_checked : Run → Checked × Node W → Cleanup W
  release_checked run (err e, n) = ((counted_as run.run_id 0, err e), n)
  release_checked run (ok _, n) =
      release_there run (config.files.lstat (prepare_work_dir run) n.world) n

  -- Runner.releasePreparedRun.
  unfoldable pub release_prepared_run : Run → Node W → Cleanup W
  release_prepared_run run n = release_checked run (release_checks run n)

  abbrev or_joined : Error → Cleanup W → Error × Node W
  or_joined cause ((c, ok _), n) = (cause, n)
  or_joined cause ((c, err e), n) = (joined cause e, n)

  -- Runner.releasePreparedAfterError, deferred over a call.
  unfoldable pub releasing_after_error : {A : Type 0} → Run → Effect (Node W) A → Effect (Node W) A
  releasing_after_error run m n = elim (m n).0 [
    | ok a ↦ (ok a, (m n).1)
    | err e ↦ (
      err (or_joined e (release_prepared_run run (m n).1)).0,
      (or_joined e (release_prepared_run run (m n).1)).1,
    )
  ]

  abbrev captured : RunEvent → Bool
  captured e = e.captured && is_some e.capture_path

  -- The part of prepareChildren behind the working directory.
  unfoldable pub capture_and_fork :
      PrepareBundleRequest → Str → HostClass → Effect (Node W) LocalPreparation
  capture_and_fork req backend class =
      let root = prepare_work_dir req.run in
      let parent = joined_to config root (lit "parent.spore") in
      let children = joined_to config root (lit "children") in
      do
        ran ← with_client config (λ c. c.run_capture (record {
          image = req.run.source.image;
          capture_dir = parent;
          capture_signal = req.run.prepare.capture_signal;
          ready_marker = req.run.prepare.ready_marker;
          backend = backend;
          memory = req.run.prepare.memory;
          command = req.run.prepare.command;
        }))
        lift ran.1
        terminal ← lift (terminal_event ran.0)
        lift (
            fail_if (not (captured terminal))
              (invalid_machine_output (lit "prepare did not capture parent")))
        with_client config (λ c.
            c.fork (record { parent_dir = parent; count = req.run.fork.count; out_dir = children }))
        pure (record {
          host_class = class;
          parent_dir = parent;
          children_dir = children;
          bundle_dir = joined_to config root (lit "bundle");
        })

  abbrev pub released : Cleanup W → Checked × Node W
  released ((c, r), n) = (r, n)

  -- Runner.prepareChildren, without its spans.
  unfoldable pub prepare_children : PrepareBundleRequest → Effect (Node W) LocalPreparation
  prepare_children req =
      let backend = if is_empty req.backend then config.backend else req.backend in
      do
        lift (fail_if (not (is_some config.client)) spore_client_not_configured)
        lift (fail_if (is_empty config.work_root) work_root_not_configured)
        lift (validate_run req.run)
        class ← host_class config backend
        (λ n. released (release_prepared_run req.run n))
        on_world (config.files.mkdir_all (prepare_work_dir req.run))
        releasing_after_error req.run (capture_and_fork req backend class)

  module _ (spans : PrepareTimings) where
    abbrev local_bundle : PrepareBundleRequest → LocalPreparation → PreparedBundle
    local_bundle req p = record {
      bundle = record {
        uri = lit "local://prepared/" ++ req.run.run_id;
        digest = config.files.run_digest req.run p.host_class;
      };
      child_count = req.run.fork.count;
      host_class = p.host_class;
      local =
          some
            (record { parent_dir = p.parent_dir; children_dir = p.children_dir; bundle_dir = [] });
      timings_ms = spans;
    }

    abbrev compiled_only : Run → PreparedBundle → Effect (Node W) PreparedBundle
    compiled_only run b = do compiled ← lift (compile run b); pure b

    -- Runner.prepareLocal; the spans of its calls are an argument.
    unfoldable pub prepare_local : PrepareBundleRequest → Effect (Node W) PreparedBundle
    prepare_local req = do
      prepared ← prepare_children req
      releasing_after_error req.run (compiled_only req.run (local_bundle req prepared))

    abbrev packed_bundle : LocalPreparation → Str → InspectBundleResult → PreparedBundle
    packed_bundle p uri i = record {
      bundle = record { uri = uri; digest = digest_string i.bundle_digest };
      child_count = i.child_count;
      host_class = p.host_class;
      local = some (record {
        parent_dir = p.parent_dir;
        children_dir = p.children_dir;
        bundle_dir = p.bundle_dir;
      });
      timings_ms = spans;
    }

    abbrev pack_and_inspect :
        PrepareBundleRequest → LocalPreparation → Effect (Node W) PreparedBundle
    pack_and_inspect req p = do
      with_client config (λ c. c.pack (record {
        parent_dir = p.parent_dir;
        children_dir = p.children_dir;
        out_dir = p.bundle_dir;
      }))
      uri ← lift (config.files.file_uri p.bundle_dir)
      inspection ← with_client config (λ c. c.inspect_bundle (record {
        source = uri;
        child_id = [];
        child_range = some (record {
          start = req.run.children.start;
          stop = end_of (children_range req.run.children);
        });
      }))
      compiled_only req.run (packed_bundle p uri inspection)

    -- Runner.prepareBundle.
    unfoldable pub prepare_bundle : PrepareBundleRequest → Effect (Node W) PreparedBundle
    prepare_bundle req = do
      prepared ← prepare_children req
      releasing_after_error req.run (pack_and_inspect req prepared)
