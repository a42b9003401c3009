-- ===== src/Agent/Templates/Reconcile.antt =====
-- internal/agent/template_reconcile.go: the cleanup of the boot templates. `templateMu` is held all the while,
-- so nothing else changes the uses. Go's `sort.Slice` is an insertion sort; the paths differ, so the order
-- leaves nothing open. The text of an error leaves out what Go wraps around it.
pub mod Accounting
pub mod Removal
pub mod Retention
pub mod Newest
pub mod Uses
pub mod InUse
use k8s.Prelude.{
  ℕ, zero, suc, ◌+◌, Bool, true, false, ◌&&◌, ◌||◌, not, List, [], ◌∷◌, ◌++◌, Option, none, some,
  if◌then◌else◌, length, ◌==◌, all, leb, ltb,
}
use k8s.Prelude.Int.{ℤ, pos, negsuc, ltb_ℤ, eq_ℤ}
use k8s.Prelude.Text.{Str, lit, str_eq, str_lt, has_prefix}
use k8s.Errors.{Error, Checked, Result, ok, err, external, join_errors}
use k8s.Fleet.Types.{host_class_equal}
use k8s.Agent.Io.{Effect, pure, lift, read, change, outcome, ◌>>=◌, ◌>>◌}
use k8s.Agent.Client.{
  BootTemplateRuntimeIdentity, BootTemplateKey, DirEntry, Config, Node, on_world,
}
use k8s.Agent.Host.{remove_saved_spore}
use k8s.Agent.Templates.{
  key, uses_of, boot_template_ready, boot_template_identity, template_root, template_dir,
}

pub record TemplateReconcileResult : Type 0 where
  pub removed_builds : ℕ
  pub removed_templates : ℕ
  pub retained_templates : ℕ

pub record BootTemplateEntry : Type 0 where
  pub path : Str
  pub template_dir : Str
  pub modified_ns : ℤ

-- A digit that hex.EncodeToString writes.
unfoldable pub is_lower_hex : ℕ → Bool
is_lower_hex c = (leb b'0' c && leb c b'9') || (leb b'a' c && leb c b'f')

-- isBootTemplateEntryName: the encoding of 32 bytes.
unfoldable pub is_boot_template_entry_name : Str → Bool
is_boot_template_entry_name name = (length name == 64) && all is_lower_hex name

unfoldable pub key_equal : BootTemplateKey → BootTemplateKey → Bool
key_equal a b =
    str_eq a.schema b.schema
    && (str_eq a.image b.image
        && (str_eq a.memory b.memory
            && (str_eq a.backend b.backend
                && (str_eq a.version b.version
                    && (str_eq a.digest b.digest && host_class_equal a.host_class b.host_class)))))

-- What the loops have found and done so far.
pub record Sweep : Type 0 where
  pub result : TemplateReconcileResult
  pub complete : List BootTemplateEntry
  pub stale_in_use : ℕ
  pub errors : List Error

abbrev pub count_build : Sweep → Sweep
count_build s = record {
  result = record {
    removed_builds = suc s.result.removed_builds;
    removed_templates = s.result.removed_templates;
    retained_templates = s.result.retained_templates;
  };
  complete = s.complete;
  stale_in_use = s.stale_in_use;
  errors = s.errors;
}

abbrev pub count_removed : Sweep → Sweep
count_removed s = record {
  result = record {
    removed_builds = s.result.removed_builds;
    removed_templates = suc s.result.removed_templates;
    retained_templates = s.result.retained_templates;
  };
  complete = s.complete;
  stale_in_use = s.stale_in_use;
  errors = s.errors;
}

abbrev pub count_retained : ℕ → Sweep → Sweep
count_retained k s = record {
  result = record {
    removed_builds = s.result.removed_builds;
    removed_templates = s.result.removed_templates;
    retained_templates = s.result.retained_templates + k;
  };
  complete = s.complete;
  stale_in_use = s.stale_in_use;
  errors = s.errors;
}

abbrev pub add_error : Error → Sweep → Sweep
add_error e s = record s { errors = s.errors ++ (e ∷ []) }

-- The counter of a removal that succeeds, or its error.
abbrev pub count_removal : (Sweep → Sweep) → Sweep → Checked → Sweep
count_removal count s (ok _) = count s
count_removal count s (err e) = add_error e s

unfoldable pub before_entry : BootTemplateEntry → BootTemplateEntry → Bool
before_entry a b =
    if eq_ℤ a.modified_ns b.modified_ns
    then str_lt b.path a.path
    else ltb_ℤ b.modified_ns a.modified_ns

unfoldable pub insert_entry : BootTemplateEntry → List BootTemplateEntry → List BootTemplateEntry
insert_entry a [] = a ∷ []
insert_entry a (b ∷ bs) = if before_entry b a then b ∷ insert_entry a bs else a ∷ b ∷ bs

unfoldable pub sort_entries : List BootTemplateEntry → List BootTemplateEntry
sort_entries [] = []
sort_entries (a ∷ others) = insert_entry a (sort_entries others)

abbrev pub no_sweep : Sweep
no_sweep = record {
  result = record { removed_builds = 0; removed_templates = 0; retained_templates = 0 };
  complete = [];
  stale_in_use = 0;
  errors = [];
}

-- What an entry of the directory is, at a state and the identity if it is known.
pub data Kind : Type 0 where
  ignored : Kind
  abandoned : Kind
  incomplete : Kind
  stale : Kind
  complete : Kind

module _ {W : Type 0} (config : Config W) where
  -- Runner.removeBootTemplateEntry.
  unfoldable pub remove_boot_template_entry : Str → Str → Effect (Node W) (Unit {0})
  remove_boot_template_entry entry template = do
    ready ← read (boot_template_ready config template)
    if ready then remove_saved_spore config template else pure tt
    on_world (config.files.remove_all entry)

  abbrev pub path_of : Str → Str
  path_of name = config.files.join (template_root config ∷ name ∷ [])

  abbrev pub metadata_path : Str → Str
  metadata_path entry = config.files.join (entry ∷ lit "template.json" ∷ [])

  abbrev current_key : BootTemplateRuntimeIdentity → Option BootTemplateKey → Bool
  current_key i none = false
  current_key i (some k) = key_equal k (key i config.backend k.image k.memory)

  -- Runner.bootTemplateCurrent.
  unfoldable pub boot_template_current : Str → BootTemplateRuntimeIdentity → Node W → Bool
  boot_template_current path i n = current_key i (config.files.read_key path n.world)

  abbrev is_stale : Option BootTemplateRuntimeIdentity → Str → Node W → Bool
  is_stale none path n = false
  is_stale (some i) path n = not (boot_template_current path i n)

  -- The conditions of the loop over the directory, in their order.
  unfoldable pub kind_of : Option BootTemplateRuntimeIdentity → DirEntry → Node W → Kind
  kind_of identity e n =
      if not e.is_dir
      then ignored
      else if has_prefix e.name (lit ".build-")
      then abandoned
      else if not (is_boot_template_entry_name e.name)
      then ignored
      else if not (boot_template_ready config (template_dir config (path_of e.name)) n)
          || not (config.files.is_file (metadata_path (path_of e.name)) n.world)
      then incomplete
      else if is_stale identity (metadata_path (path_of e.name)) n
      then stale
      else complete

  abbrev pub in_use : Str → Node W → Bool
  in_use dir n = ltb_ℤ (pos 0) (uses_of dir n.template_uses)

  abbrev pub removing_it : (Sweep → Sweep) → Sweep → Str → Node W → Sweep × Node W
  removing_it count s entry n = (
    count_removal count s (remove_boot_template_entry entry (template_dir config entry) n).0,
    (remove_boot_template_entry entry (template_dir config entry) n).1,
  )

  abbrev pub found : Str → Sweep → Node W → Sweep
  found entry s n = record s {
    complete =
        s.complete
        ++ (record {
          path = entry;
          template_dir = template_dir config entry;
          modified_ns = config.files.mod_time_ns (metadata_path entry) n.world;
        }
            ∷ []);
  }

  abbrev pub stale_used : Sweep → Sweep
  stale_used s = record s { stale_in_use = suc s.stale_in_use }

  abbrev pub treat : Kind → Str → Sweep → Node W → Sweep × Node W
  treat ignored entry s n = (s, n)
  treat abandoned entry s n = removing_it count_build s entry n
  treat incomplete entry s n = removing_it count_removed s entry n
  treat stale entry s n =
      if in_use (template_dir config entry) n
      then (stale_used s, n)
      else removing_it count_removed s entry n
  treat complete entry s n = (found entry s n, n)

  -- One round of the loop over the directory.
  unfoldable pub sweep_entry :
      Option BootTemplateRuntimeIdentity → DirEntry → Sweep → Node W → Sweep × Node W
  sweep_entry identity e s n = treat (kind_of identity e n) (path_of e.name) s n

  unfoldable pub sweep :
      Option BootTemplateRuntimeIdentity → List DirEntry → Sweep → Node W → Sweep × Node W
  sweep identity [] s n = (s, n)
  sweep identity (e ∷ es) s n =
      sweep identity es (sweep_entry identity e s n).0 (sweep_entry identity e s n).1

  -- Whether an entry is retained: `RetainedTemplates < retain`, or it is in use.
  abbrev pub keeps : ℕ → ℕ → BootTemplateEntry → Node W → Bool
  keeps retain retained e n = ltb retained retain || in_use e.template_dir n

  abbrev pub dispose : Bool → BootTemplateEntry → Sweep → Node W → Sweep × Node W
  dispose true e s n = (count_retained 1 s, n)
  dispose false e s n = (
    count_removal count_removed s (remove_boot_template_entry e.path e.template_dir n).0,
    (remove_boot_template_entry e.path e.template_dir n).1,
  )

  -- One round of the loop over the complete templates.
  unfoldable pub expire_entry : ℕ → BootTemplateEntry → Sweep → Node W → Sweep × Node W
  expire_entry retain e s n = dispose (keeps retain s.result.retained_templates e n) e s n

  -- The loop over the complete templates.
  unfoldable pub expire : ℕ → List BootTemplateEntry → Sweep → Node W → Sweep × Node W
  expire retain [] s n = (s, n)
  expire retain (e ∷ es) s n =
      expire retain es (expire_entry retain e s n).0 (expire_entry retain e s n).1

  abbrev pub identified :
      Result BootTemplateRuntimeIdentity → Option BootTemplateRuntimeIdentity × Sweep
  identified (ok i) = (some i, no_sweep)
  identified (err e) = (none, add_error e no_sweep)

  -- Both loops, from what the identity's call returned.
  unfoldable pub clean :
      ℕ → List DirEntry → Result BootTemplateRuntimeIdentity × Node W → Sweep × Node W
  clean retain entries (identity, n) =
      let swept = sweep (identified identity).0 entries (identified identity).1 n in
      expire retain (sort_entries swept.0.complete) swept.0 swept.1

  abbrev pub finished : Sweep × Node W → (TemplateReconcileResult × Checked) × Node W
  finished (s, n) = (((count_retained s.stale_in_use s).result, join_errors s.errors), n)

  abbrev pub reconciled :
      ℕ → Node W → Result (Option (List DirEntry)) → (TemplateReconcileResult × Checked) × Node W
  reconciled retain n (err e) = ((no_sweep.result, err e), n)
  reconciled retain n (ok none) = ((no_sweep.result, ok tt), n)
  reconciled retain n (ok (some entries)) =
      finished (clean retain entries (boot_template_identity config n))

  -- Runner.ReconcileBootTemplates: the result stands beside the error.
  unfoldable pub reconcile_boot_templates :
      ℤ → Node W → (TemplateReconcileResult × Checked) × Node W
  reconcile_boot_templates (negsuc _) n =
      ((no_sweep.result, err (external (lit "template retain count must be >= 0"))), n)
  reconcile_boot_templates (pos retain) n =
      reconciled retain n (config.files.read_dir (template_root config) n.world)
