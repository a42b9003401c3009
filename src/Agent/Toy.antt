-- ===== src/Agent/Toy.antt =====
-- A small world for the concrete runs: what has been removed, the ledgers, the results stored and the
-- templates that are ready.
use k8s.Prelude.{true, false, List, [], ◌∷◌, ◌++◌, Option, none, some, any}
use k8s.Prelude.Int.{pos}
use k8s.Prelude.Text.{Str, lit, str_eq}
use k8s.Prelude.StrMap.{StrMap, find_key, store, remove}
use k8s.Errors.{ok, err, external}
use k8s.Fleet.Types.{AttemptResult}
use k8s.Agent.Io.{Effect}
use k8s.Agent.Machine.{RunEvent}
use k8s.Agent.Machine.HostInfo.{HostInfo, PathFact}
use k8s.Agent.Client.{SporeClient, FileSystem, ResultStore, Config, DirEntry, directory}

pub record Toy : Type 0 where
  pub ready : List Str
  pub removed : List Str
  pub ledgers : StrMap (List Str)
  pub stored : List AttemptResult

abbrev pub empty_toy : Toy
empty_toy = record { ready = []; removed = []; ledgers = []; stored = [] }

abbrev pub give : {A : Type 0} → A → Effect Toy A
give a w = (ok a, w)

abbrev pub completion : RunEvent
completion = record {
  schema = lit "spore.automation.event.v1";
  schema_version = pos 1;
  event = lit "completion";
  outcome = lit "completed";
  command = lit "run";
  requested_backend = [];
  backend = none;
  offset = 0;
  byte_count = pos 0;
  data_base64 = [];
  exit_code = some (pos 0);
  vcpus = 0;
  memory_bytes = 0;
  max_memory_bytes = 0;
  captured = true;
  capture_path = some (lit "parent.spore");
  timings = none;
  error = none;
}

abbrev path_fact : PathFact
path_fact = record { path = none; resolved = false; source = [] }

abbrev pub toy_host : HostInfo
toy_host = record {
  schema = lit "spore.host-info.v2";
  schema_version = pos 2;
  host_class = lit "linux";
  platform = record {
    os = lit "linux";
    arch = lit "aarch64";
    cpu_profile = lit "base";
    device_model_version = 1;
    ram_base = 0;
    gic_dist_base = 0;
    gic_redist_base = 0;
    counter_frequency_source = [];
    counter_frequency_hz = 0;
  };
  backends = record { name = lit "kvm"; supported = true; available = true; reason = [] } ∷ [];
  cache_roots = record {
    kernels = path_fact;
    rootfs = path_fact;
    bundles = path_fact;
    runtime = path_fact;
  };
}

abbrev pub toy_remove : Str → Effect Toy Unit
toy_remove dir w = (ok tt, record w { removed = dir ∷ w.removed })

abbrev pub toy_client : SporeClient Toy
toy_client = record {
  executable = give (lit "spore");
  version = give (lit "1");
  host_info = give toy_host;
  inspect_bundle = λ r w. (err (external (lit "no bundle")), w);
  run_capture = λ r w. (
    ok (completion ∷ [], ok tt),
    record w { ready = (r.capture_dir ++ lit "/manifest.json") ∷ w.ready },
  );
  fork = λ r. give tt;
  pack = λ r. give tt;
  pull = λ r w. (err (external (lit "no bundle")), w);
  resume = λ r. give (completion ∷ [], ok tt);
  restore_named = λ r. give (record {
    schema = lit "spore.lifecycle.v1";
    schema_version = 1;
    action = lit "restored";
    name = r.name;
    state = lit "ready";
    timing =
        some
          (record { prepare_ms = 1; spawn_monitor_ms = 2; wait_exec_ready_ms = 3; total_ms = 6 });
  });
  run_from = λ r. give (completion ∷ [], ok tt);
  exec = λ r. give (completion ∷ [], ok tt);
  remove_vm = λ r. give tt;
  remove_saved_spore = λ r. toy_remove r.spore_dir;
  collect_cache = give (record {
    schema = lit "spore.cache.gc.result.v2";
    schema_version = pos 2;
    dry_run = false;
    deleted_count = pos 1;
    deleted_bytes = 4096;
  });
}

abbrev joined_paths : List Str → Str
joined_paths [] = []
joined_paths (p ∷ []) = p
joined_paths (p ∷ q ∷ ps) = p ++ lit "/" ++ joined_paths (q ∷ ps)

abbrev pub entry_name : Str
entry_name = lit "0123456789abcdef0123456789abcdef0123456789abcdef0123456789abcdef"

abbrev pub build_entry : DirEntry
build_entry = record { name = lit ".build-1"; is_dir = true; is_symlink = false }

abbrev pub template_entry : DirEntry
template_entry = record { name = entry_name; is_dir = true; is_symlink = false }

abbrev pub toy_entries : List DirEntry
toy_entries = build_entry ∷ template_entry ∷ []

abbrev pub moved : Str → Option (List Str) → Str → Effect Toy Unit
moved to none from w = (err (external (lit "file does not exist")), w)
moved to (some l) from w = (ok tt, record w { ledgers = store to l (remove from w.ledgers) })

abbrev pub toy_files : FileSystem Toy
toy_files = record {
  join = joined_paths;
  stat = λ p. give (record { file = 1; size = pos 1; mod_time = pos 1; change_time = pos 1 });
  hash_file = λ p.
      give
        (lit "sha256:0", record { file = 1; size = pos 1; mod_time = pos 1; change_time = pos 1 });
  is_file = λ p w. any (str_eq p) w.ready;
  mod_time_ns = λ p w. pos 1;
  read_dir = λ p w. ok (some toy_entries);
  remove_all = toy_remove;
  mkdir_all = λ p. give tt;
  mkdir_temp = λ p. give (lit "tmp");
  write_file = λ p t. give tt;
  dir = λ p. p;
  remove = λ p w. w;
  within = λ a b. ok tt;
  stat_dir = λ p w. ok true;
  lstat = λ p w. ok (some directory);
  parts_below = λ a b. ok (b ∷ []);
  read_ledger = λ p w. ok none;
  write_synced = λ p l w. (ok tt, record w { ledgers = store p l w.ledgers });
  sync_dir = λ p. give tt;
  file_uri = λ p. ok (lit "file://" ++ p);
  run_digest = λ r h. lit "sha256:1";
  generation_text = λ g. lit "{}";
  rename = λ a b w. moved b (find_key a w.ledgers) a w;
  key_digest = λ k. entry_name;
  key_text = λ k. lit "{}";
  read_key = λ p w. none;
}

abbrev pub toy_results : ResultStore Toy
toy_results = record {
  terminal_result = λ r c. give none;
  write_attempt_result = λ r a w. (ok tt, record w { stored = a ∷ w.stored });
  commit_terminal_result = λ r a. give true;
}

abbrev pub toy_config : Config Toy
toy_config = record {
  client = some toy_client;
  results = some toy_results;
  metrics = none;
  clock = record { now = λ w. (pos 1, w); elapsed_ms = λ a b. pos 0; float_of = λ n. pos n };
  files = toy_files;
  work_root = lit "/work";
  backend = lit "kvm";
  cache_gc = true;
}
