-- ===== src/Agent/PreparedTree.antt =====
-- The directory of a prepared run in internal/agent/runtime.go: what may stand in it, and the ledger of what is
-- still to be removed.
use k8s.Prelude.{Bool, ◌&&◌, ◌||◌, not, List, [], ◌∷◌, ◌++◌, Option, none, some, if◌then◌else◌, all}
use k8s.Prelude.Text.{Str, lit, str_eq}
use k8s.Errors.{Checked, Result, ok, err, external, fail_if}
use k8s.Agent.Io.{Effect, pure, lift, ◌>>=◌, ◌>>◌}
use k8s.Agent.Cleanup.{is_prepared_child_dir, validate_cleanup_ledger_paths}
use k8s.Agent.Client.{DirEntry, FileKind, directory, symlink, other, Config, Node, on_world}

abbrev pub ledger_name : Str
ledger_name = lit ".cleanup-pending.json"

abbrev pub ledger_temp_name : Str
ledger_temp_name = lit ".cleanup-pending.json.tmp"

-- The entries of a prepared directory that validatePreparedTree accepts.
unfoldable pub prepared_entry : DirEntry → Bool
prepared_entry e =
    let ledger_file = str_eq e.name ledger_name || str_eq e.name ledger_temp_name in
    (ledger_file
      || (str_eq e.name (lit "children")
          || (str_eq e.name (lit "parent.spore") || str_eq e.name (lit "bundle"))))
    && not (e.is_symlink || ((not e.is_dir && not ledger_file) || (e.is_dir && ledger_file)))

unfoldable pub prepared_child_entry : DirEntry → Bool
prepared_child_entry e = not (
    e.is_symlink
    || (not e.is_dir
        || (not (is_prepared_child_dir e.name) && not (str_eq e.name (lit "shared-chunks")))))

unfoldable pub pending_children : List DirEntry → List Str
pending_children [] = []
pending_children (e ∷ es) =
    let rest = pending_children es in
    if is_prepared_child_dir e.name then (lit "children/" ++ e.name) ∷ rest else rest

module _ {W : Type 0} (config : Config W) where
  abbrev pub joined_to : Str → Str → Str
  joined_to root name = config.files.join (root ∷ name ∷ [])

  abbrev pub entries_or_none : Result (Option (List DirEntry)) → Result (List DirEntry)
  entries_or_none (err e) = err e
  entries_or_none (ok none) = ok []
  entries_or_none (ok (some es)) = ok es

  abbrev pub entries_of : Result (Option (List DirEntry)) → Result (List DirEntry)
  entries_of (err e) = err e
  entries_of (ok none) = err (external (lit "file does not exist"))
  entries_of (ok (some es)) = ok es

  abbrev pub is_tree_root : Result (Option FileKind) → Checked
  is_tree_root (err e) = err e
  is_tree_root (ok none) = err (external (lit "file does not exist"))
  is_tree_root (ok (some directory)) = ok tt
  is_tree_root (ok (some symlink)) = err (external (lit "prepared root is not a directory"))
  is_tree_root (ok (some other)) = err (external (lit "prepared root is not a directory"))

  -- validatePreparedTree.
  unfoldable pub validate_prepared_tree : Str → Effect (Node W) Unit
  validate_prepared_tree root = do
    (λ n. (is_tree_root (config.files.lstat root n.world), n))
    entries ← (λ n. (entries_of (config.files.read_dir root n.world), n))
    lift (fail_if (not (all prepared_entry entries)) (external (lit "unsafe prepared entry")))
    children ← (λ n.
        (entries_or_none (config.files.read_dir (joined_to root (lit "children")) n.world), n))
    lift (
        fail_if (not (all prepared_child_entry children))
          (external (lit "unsafe prepared child entry")))

  -- writeCleanupLedger.
  unfoldable pub write_cleanup_ledger : Str → List Str → Effect (Node W) Unit
  write_cleanup_ledger root pending = do
    on_world (config.files.write_synced (joined_to root ledger_temp_name) pending)
    on_world (config.files.rename (joined_to root ledger_temp_name) (joined_to root ledger_name))
    on_world (config.files.sync_dir root)

  abbrev pub checked_ledger : Result (List Str) → Effect (Node W) (List Str)
  checked_ledger decoded = do
    pending ← lift decoded
    lift (validate_cleanup_ledger_paths pending)
    pure pending

  -- A ledger whose rename was interrupted.
  abbrev pub interrupted_ledger : Str → Result (List Str) → Effect (Node W) (List Str)
  interrupted_ledger root decoded = do
    pending ← checked_ledger decoded
    on_world (config.files.rename (joined_to root ledger_temp_name) (joined_to root ledger_name))
    on_world (config.files.sync_dir root)
    pure pending

  abbrev pub with_parent : List Str → Option FileKind → List Str
  with_parent pending none = pending
  with_parent pending (some _) = pending ++ (lit "parent.spore" ∷ [])

  -- A new ledger: the children in the order of the directory, and the parent behind them.
  unfoldable pub create_ledger : Str → Effect (Node W) (List Str)
  create_ledger root = do
    children ← (λ n.
        (entries_or_none (config.files.read_dir (joined_to root (lit "children")) n.world), n))
    parent ← (λ n. (config.files.lstat (joined_to root (lit "parent.spore")) n.world, n))
    let pending = with_parent (pending_children children) parent
    write_cleanup_ledger root pending
    pure pending

  abbrev pub ledger_or_new :
      Str → Option (Result (List Str)) → Option (Result (List Str)) → Effect (Node W) (List Str)
  ledger_or_new root (some decoded) temp = checked_ledger decoded
  ledger_or_new root none (some decoded) = interrupted_ledger root decoded
  ledger_or_new root none none = create_ledger root

  abbrev pub temp_if_needed :
      Str → Option (Result (List Str)) → Effect (Node W) (Option (Result (List Str)))
  temp_if_needed root (some decoded) n = (ok none, n)
  temp_if_needed root none n =
      (config.files.read_ledger (joined_to root ledger_temp_name) n.world, n)

  -- loadOrCreateCleanupLedger.
  unfoldable pub load_or_create_cleanup_ledger : Str → Effect (Node W) (List Str)
  load_or_create_cleanup_ledger root = do
    validate_prepared_tree root
    there ← (λ n. (config.files.read_ledger (joined_to root ledger_name) n.world, n))
    temp ← temp_if_needed root there
    ledger_or_new root there temp
