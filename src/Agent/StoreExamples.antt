-- ===== src/Agent/StoreExamples.antt =====
-- Concrete runs of the handlers, the templates and the ledgers of internal/agent.
use k8s.Prelude.{
  ◌≤◌, ℕ, zero, suc, ◌+◌, ◌&&◌, ◌++◌, false, sym, ◌≡◌, ◌↔◌, ◌⊎◌, refl, ap, true, List, [], ◌∷◌,
  none, some, arith, all, any, subst, inl, inr, Bool-cases, Option-cases, ◌∙◌,
}
use k8s.Prelude.Int.{pos}
use k8s.Prelude.Text.{
  Str, lit, str_eq, str_eq_refl, str_eq→eq, eq→str_eq, is_empty, strip_prefix, has_prefix,
}
use k8s.Prelude.StrMap.{StrMap, find_key, find_key-store, store, remove, total}
use k8s.Errors.{Error, ok, err, canceled, join_errors}
use k8s.Fleet.Samples.{run}
use k8s.Agent.Interactive.{validate_pinned_image}
use k8s.Agent.Interactive.Images.{IsPinned, validate_pinned_image_iff}
use k8s.Agent.Sandboxes.{moves, Created, restored}
use k8s.Agent.Handlers.Refinement.{alone, creation_steps, create_sandbox-moves}
use k8s.Agent.Handlers.{create_sandbox}
use k8s.Agent.Client.{Node, Config, BootTemplateRuntimeIdentity, new_runner, SporeClient}
use k8s.Agent.Host.{remove_saved_spore}
use k8s.Agent.Templates.Leases.{
  IsLeased, open_leases, take_use, give_use_up, use_steps, use_steps-IsLeased, Lease,
}
use k8s.Agent.Templates.Reconcile.{
  BootTemplateEntry, Sweep, no_sweep, expire, TemplateReconcileResult, reconcile_boot_templates,
}
use k8s.Agent.Templates.Reconcile.Retention.{Expired}
use k8s.Agent.Templates.Reconcile.Newest.{NewestFirst, swept, expire-removes}
use mathlib.Core.List.{Perm}
use k8s.Agent.PreparedTree.{joined_to, ledger_name, ledger_temp_name}
use k8s.Agent.Prepare.{remove_pending}
use k8s.Agent.Prepare.Progress.{PreparedFacts, Progress, remove_pending-Progress}
use k8s.Agent.Templates.{boot_template_identity, boot_template_ready, same_executable, template_dir}
use k8s.Agent.Templates.Reconcile.{
  remove_boot_template_entry, clean, kind_of, abandoned, incomplete, sweep, sweep_entry, treat,
  path_of, in_use, metadata_path, sort_entries, is_lower_hex, is_boot_template_entry_name,
}
use k8s.Agent.Templates.Reconcile.Accounting.{number_of, reconcile-accounts}
use k8s.Agent.Templates.Reconcile.InUse.{reconcile-spares}
use k8s.Agent.Prepare.Gates.{GateEvent, enters, takes, puts, leaves, gate_steps}
use k8s.Agent.Prepare.Gates.Counts.{holders_of}
use k8s.Agent.Prepare.Gates.Exclusion.{no_callers, one_holder}
use k8s.Agent.Toy.{
  Toy, empty_toy, toy_config, toy_client, toy_remove, entry_name, toy_entries, build_entry,
  template_entry,
}
use k8s.Agent.NodeExamples.{create_request, quiet, two_slots, image}

abbrev pub node : Node Toy
node = new_runner two_slots empty_toy

create_sandbox-moves_example :
    (outcome : Created) × (moves
        (creation_steps toy_config create_request quiet outcome)
        (alone node.agent)
      ≡ alone (create_sandbox toy_config create_request quiet node).1.agent)
    × ((outcome ≡ restored)
        ⊎ ((e : Error) × ((create_sandbox toy_config create_request quiet node).0 ≡ err e)))
create_sandbox-moves_example = create_sandbox-moves toy_config create_request quiet node

validate_pinned_image_iff_example : (validate_pinned_image image ≡ ok tt) ↔ IsPinned image
validate_pinned_image_iff_example = validate_pinned_image_iff image

abbrev leases : List Lease
leases =
    take_use (lit "a")
    ∷ take_use (lit "a")
    ∷ give_use_up 0
    ∷ give_use_up 0
    ∷ take_use (lit "b")
    ∷ []

no_leases : IsLeased [] []
unfolding open_leases total find_key
no_leases = record { counted = λ dir. refl; once = λ dir. omega arith }

use_steps-IsLeased_example :
    IsLeased (use_steps leases node).template_uses (use_steps leases node).template_leases
unfolding new_runner
use_steps-IsLeased_example = use_steps-IsLeased leases node no_leases

abbrev pending : List Str
pending = lit "children/000000" ∷ lit "children/000001" ∷ lit "parent.spore" ∷ []

abbrev prepared_root : Str
prepared_root = lit "/work/run-1/prepare"

same_client : (c : SporeClient Toy) → some toy_client ≡ some c → toy_client ≡ c
same_client c h = ap (λ o. elim o [ none ↦ toy_client | some x ↦ x ]) h

abbrev Noted : Str → Toy → Type 0
Noted dir w = any (str_eq dir) w.removed ≡ true

abbrev HasLedger : Str → List Str → Toy → Type 0
HasLedger path l w = find_key path w.ledgers ≡ some l

ledger_stored :
    (path : Str) (l : List Str) (m : StrMap (List Str)) → find_key path (store path l m) ≡ some l
ledger_stored path l m = find_key-store path path l m ∙ rw (str_eq_refl path) refl

other_ledger :
    (path other : Str) (l m : List Str) (files : StrMap (List Str))
    → (other ≡ path → ⊥)
    → find_key other files ≡ some m
    → find_key other (store path l files) ≡ some m
other_ledger path other l m files h k = elim (Bool-cases (str_eq path other)) [
  | inl same ↦ absurd (h (sym (str_eq→eq path other same)))
  | inr apart ↦ find_key-store path other l files ∙ rw apart k
]

ledger_renamed :
    (from to : Str) (l : List Str) (w : Toy)
    → HasLedger from l w
    → HasLedger to l (toy_config.files.rename from to w).1
ledger_renamed from to l w h = rw h (ledger_stored to l (remove from w.ledgers))

ledger_not_renamed :
    (from to path : Str) (l : List Str) (e : Error) (w : Toy)
    → HasLedger path l w
    → (toy_config.files.rename from to w).0 ≡ err e
    → HasLedger path l (toy_config.files.rename from to w).1
ledger_not_renamed from to path l e w h = elim (Option-cases (find_key from w.ledgers)) [
  | inl absent ↦ rw absent (λ k. h)
  | inr (x, there) ↦ rw there (λ k. absurd cc)
]

rename-Noted :
    (from to dir : Str) (w : Toy) → Noted dir w → Noted dir (toy_config.files.rename from to w).1
rename-Noted from to dir w h = elim (Option-cases (find_key from w.ledgers)) [
  | inl absent ↦ rw absent h
  | inr (x, there) ↦ rw there h
]

removal-Noted : (dir : Str) (w : Toy) → Noted dir (toy_remove dir w).1
unfolding any
removal-Noted dir w = ground (arith, str_eq_refl dir)

still-Noted : (dir other : Str) (w : Toy) → Noted other w → Noted other (toy_remove dir w).1
unfolding any
still-Noted dir other w h = ground (arith, h)

-- In the small world a spore is gone once its removal is noted.
unfoldable toy_facts : PreparedFacts toy_config
toy_facts = record {
  Gone = Noted;
  Holds = HasLedger;
  removed = λ c dir w h gone.
      subst (λ c'. Noted dir (c'.remove_saved_spore (record { spore_dir = dir }) w).1)
        (same_client c h) (removal-Noted dir w);
  removal-Gone = λ c dir other w h gone.
      subst (λ c'. Noted other (c'.remove_saved_spore (record { spore_dir = dir }) w).1)
        (same_client c h) (still-Noted dir other w gone);
  removal-Holds = λ c dir path l w h outside kept.
      subst (λ c'. HasLedger path l (c'.remove_saved_spore (record { spore_dir = dir }) w).1)
        (same_client c h) kept;
  written = λ path l w h. ledger_stored path l w.ledgers;
  write-Gone = λ path l dir w o h. h;
  write-Holds = λ path other l m w. other_ledger path other l m w.ledgers;
  renamed = λ from to l w h k. ledger_renamed from to l w h;
  not_renamed = ledger_not_renamed;
  rename-Gone = λ from to dir w o h. rename-Noted from to dir w h;
  sync-Gone = λ path dir w h. h;
  sync-Holds = λ dir path l w h. h;
}

abbrev ledger_path : Str
ledger_path = joined_to toy_config prepared_root ledger_name

abbrev ledgered : Node Toy
ledgered =
    new_runner two_slots
      (record { ready = []; removed = []; ledgers = (ledger_path, pending) ∷ []; stored = [] })

apart_paths : str_eq ledger_path (joined_to toy_config prepared_root ledger_temp_name) ≡ true → ⊥
unfolding str_eq lit
apart_paths h = absurd cc

two_ledgers : ledger_path ≡ joined_to toy_config prepared_root ledger_temp_name → ⊥
two_ledgers h = apart_paths (eq→str_eq _ _ h)

remove_pending-Progress_example :
    Progress toy_config 3 canceled prepared_root toy_facts two_ledgers pending
      (remove_pending toy_config 3 canceled prepared_root pending 0 ledgered)
unfolding new_runner toy_facts has_prefix strip_prefix lit find_key str_eq
remove_pending-Progress_example =
    remove_pending-Progress toy_config 3 canceled prepared_root toy_facts two_ledgers pending 0
      ledgered ((refl, refl), ((refl, refl), ((refl, refl), tt))) refl

abbrev identity : BootTemplateRuntimeIdentity
identity = record {
  version = lit "1";
  digest = lit "sha256:0";
  host_class = run.host_class;
  executable = record { file = 1; size = pos 1; mod_time = pos 1; change_time = pos 1 };
}

-- A node that knows its machine already.
abbrev knowing : Node Toy
knowing = record {
  agent = node.agent;
  host_classes = [];
  template_identity = some identity;
  template_uses = [];
  template_leases = [];
  cache_gc_pending = true;
  world = empty_toy;
}

abbrev after_cleaning : TemplateReconcileResult
after_cleaning = record { removed_builds = 1; removed_templates = 1; retained_templates = 0 }

identity_known : boot_template_identity toy_config knowing ≡ (ok identity, knowing)
unfolding boot_template_identity same_executable is_empty lit
identity_known = refl

build_abandoned : kind_of toy_config (some identity) build_entry knowing ≡ abandoned
unfolding kind_of has_prefix strip_prefix lit
build_abandoned = refl

abbrev settled_sweep : Sweep
settled_sweep = record { result = after_cleaning; complete = []; stale_in_use = 0; errors = [] }

name_fits : is_boot_template_entry_name entry_name ≡ true
unfolding is_boot_template_entry_name all is_lower_hex lit
name_fits = refl

entry_incomplete :
    (n : Node Toy)
    → n.world.ready ≡ []
    → kind_of toy_config (some identity) template_entry n ≡ incomplete
unfolding kind_of has_prefix strip_prefix lit boot_template_ready any
entry_incomplete n h = rw (name_fits, h, kind_of) refl

abbrev after_build : Node Toy
after_build = (treat toy_config abandoned (path_of toy_config build_entry.name) no_sweep knowing).1

all_swept : (sweep toy_config (some identity) toy_entries no_sweep knowing).0 ≡ settled_sweep
unfolding sweep sweep_entry remove_boot_template_entry boot_template_ready any
all_swept = rw (build_abandoned, sweep) (rw (entry_incomplete after_build refl, sweep) refl)

toy_reconciled : (reconcile_boot_templates toy_config (pos 1) knowing).0 ≡ (after_cleaning, ok tt)
unfolding reconcile_boot_templates clean sort_entries expire join_errors
toy_reconciled = rw (identity_known, reconcile_boot_templates) (rw (all_swept, expire) refl)

reconcile-accounts_example : 1 + 1 + 0 ≡ number_of toy_entries
reconcile-accounts_example =
    reconcile-accounts toy_config 1 knowing toy_entries after_cleaning refl toy_reconciled

-- An agent without a client, which cannot learn its identity, and still removes what is broken.
abbrev bare : Config Toy
bare = record toy_config { client = none }

abbrev used_entry : Str
used_entry = path_of bare entry_name

abbrev used_template : Str
used_template = template_dir bare used_entry

abbrev complete_files : List Str
complete_files = (used_template ++ lit "/manifest.json") ∷ (used_entry ++ lit "/template.json") ∷ []

-- The template is complete, and its directory has not been removed.
abbrev Spared : Toy → Type 0
Spared w = (any (str_eq used_entry) w.removed ≡ false) × (w.ready ≡ complete_files)

-- A node with a user of the template.
abbrev serving : Node Toy
serving = record {
  agent = node.agent;
  host_classes = [];
  template_identity = none;
  template_uses = (used_template, pos 1) ∷ [];
  template_leases = [];
  cache_gc_pending = true;
  world = record { ready = complete_files; removed = []; ledgers = []; stored = [] };
}

complete-Spared :
    (n : Node Toy)
    → Spared n.world
    → (boot_template_ready bare used_template n
        && bare.files.is_file (metadata_path bare used_entry) n.world)
      ≡ true
unfolding boot_template_ready any str_eq lit
complete-Spared n h = rw (h.1, boot_template_ready) refl

identity_spares : (n : Node Toy) → Spared n.world → Spared (boot_template_identity bare n).1.world
unfolding boot_template_identity
identity_spares n h = h

abbrev behind : ℕ → Str → Str
behind zero s = s
behind (suc k) [] = []
behind (suc k) (c ∷ s) = behind k s

-- The directories of two names differ.
other_entry :
    (other : Str) → (other ≡ entry_name → ⊥) → str_eq used_entry (path_of bare other) ≡ false
unfolding lit
other_entry other h = elim (Bool-cases (str_eq used_entry (path_of bare other))) [
  | inl same ↦ absurd (h (ap (behind 16) (sym (str_eq→eq used_entry (path_of bare other) same))))
  | inr apart ↦ apart
]

others_spare :
    (other : Str) (n : Node Toy)
    → (other ≡ entry_name → ⊥)
    → Spared n.world
    → Spared
        (remove_boot_template_entry bare
          (path_of bare other)
          (template_dir bare (path_of bare other))
          n).1.world
unfolding remove_boot_template_entry remove_saved_spore any
others_spare other n h v =
    elim (Bool-cases (boot_template_ready bare (template_dir bare (path_of bare other)) n)) [
      | inl e ↦ rw (e, remove_boot_template_entry) v
      | inr e ↦ rw (e, remove_boot_template_entry) (rw (other_entry other h) v.0, v.1)
    ]

template_used : in_use bare used_template serving ≡ true
unfolding find_key str_eq lit
template_used = refl

entry_name_fits : has_prefix entry_name (lit ".build-") ≡ false
unfolding has_prefix strip_prefix lit
entry_name_fits = refl

reconcile-spares_example : Spared (reconcile_boot_templates bare (pos 1) serving).1.world
unfolding any
reconcile-spares_example =
    reconcile-spares bare Spared entry_name entry_name_fits complete-Spared identity_spares
      others_spare (pos 1) serving template_used (refl, refl)

expire-removes_example :
    (sorted : List BootTemplateEntry) × Perm sorted
      (swept bare toy_entries (err canceled) serving).0.complete
    × NewestFirst sorted
    × (clean bare 1 toy_entries (err canceled, serving)
        ≡ expire bare 1 sorted
            (swept bare toy_entries (err canceled) serving).0
            (swept bare toy_entries (err canceled) serving).1)
    × Expired bare 1 sorted
        (swept bare toy_entries (err canceled) serving).0
        (swept bare toy_entries (err canceled) serving).1
expire-removes_example = expire-removes bare 1 toy_entries (err canceled) serving

-- Two preparations of one run: the second gets the token when the first has put it back.
abbrev two_preparations : List GateEvent
two_preparations =
    enters (lit "run-1")
    ∷ enters (lit "run-1")
    ∷ takes 0
    ∷ takes 1
    ∷ puts 0
    ∷ takes 1
    ∷ leaves 1
    ∷ []

one_holder_example : holders_of (lit "run-1") (gate_steps two_preparations no_callers).calls ≤ 1
one_holder_example = one_holder two_preparations (lit "run-1")
