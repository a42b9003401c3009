-- ===== src/Agent/Host.antt =====
-- What a Runner of internal/agent/runtime.go does beside its work: the host class that it caches, its status,
-- the removal of saved spores and the collection of the machine's cache.
use k8s.Prelude.{ℕ, zero, suc, Bool, true, false, ◌&&◌, not, Option, none, some, if◌then◌else◌, []}
use k8s.Prelude.Int.{pos}
use k8s.Prelude.Text.{Str, lit, str_eq, is_empty}
use k8s.Prelude.StrMap.{find_key, store}
use k8s.Errors.{
  Error, Checked, Result, ok, err, MachineErrorBody, spore_client_not_configured, joined,
}
use k8s.Fleet.Types.{Time, is_zero_time, HostClass, AgentStatus, CacheStatus, Pressure, critical}
use k8s.Fleet.Validate.{validate_agent_status}
use k8s.Agent.Io.{Effect, pure, lift, read, change, ◌>>=◌, ◌>>◌}
use k8s.Agent.Slots.{available}
use k8s.Agent.Attempt.{as_machine_error}
use k8s.Agent.Machine.Documents.{CacheGcResult}
use k8s.Agent.Machine.HostInfo.{fleet_host_class}
use k8s.Agent.Client.{SporeClient, Config, Node, on_world}

pub record StatusRequest : Type 0 where
  pub agent_id : Str
  pub cell_id : Str
  pub backend : Str
  pub cache : CacheStatus
  pub pressure : Pressure
  pub observed_at : Time

abbrev zero_collection : CacheGcResult
zero_collection = record {
  schema = [];
  schema_version = pos 0;
  dry_run = false;
  deleted_count = pos 0;
  deleted_bytes = 0;
}

-- Whether a removal failed since the machine still uses the saved spore.
abbrev source_in_use : Option (MachineErrorBody × Str) → Bool
source_in_use none = false
source_in_use (some m) = str_eq m.0.source (lit "SavedSporeInUse")

unfoldable pub saved_spore_in_use : Error → Bool
saved_spore_in_use e = source_in_use (as_machine_error e)

abbrev pub set_pending : {W : Type 0} → Bool → Node W → Node W
set_pending b n = record n { cache_gc_pending = b }

module _ {W : Type 0} (config : Config W) where
  -- A method call on the client, which is never nil where the code calls it.
  abbrev pub with_client : {A : Type 0} → (SporeClient W → Effect W A) → Effect (Node W) A
  with_client f = elim config.client [
    | none ↦ lift (err spore_client_not_configured)
    | some c ↦ on_world (f c)
  ]

  abbrev learn_host_class : Str → Effect (Node W) HostClass
  learn_host_class backend = do
    info ← with_client (λ c. c.host_info)
    class ← lift (fleet_host_class info backend)
    change (λ n. record n { host_classes = store backend class n.host_classes })
    pure class

  abbrev class_or : Str → Option HostClass → Effect (Node W) HostClass
  class_or backend none = learn_host_class backend
  class_or backend (some class) = pure class

  -- Runner.hostClass.
  unfoldable pub host_class : Str → Effect (Node W) HostClass
  host_class backend n = class_or backend (find_key backend n.host_classes) n

  abbrev status_of : StatusRequest → Time → HostClass → Node W → AgentStatus
  status_of req observed class n = record {
    agent_id = req.agent_id;
    cell_id = req.cell_id;
    observed_at = observed;
    host_class = class;
    execution_slots = record {
      total = n.agent.slots.limiter.total;
      available = available n.agent.slots.limiter;
    };
    cache = req.cache;
    pressure = req.pressure;
    healthy = not (critical req.pressure);
  }

  -- Runner.Status at the agent's clock. The document is returned beside the error of its check.
  unfoldable pub status : Time → StatusRequest → Effect (Node W) (AgentStatus × Checked)
  status now req = do
    class ← (elim config.client [
      | none ↦ lift (err spore_client_not_configured)
      | some _ ↦ host_class (if is_empty req.backend then config.backend else req.backend)
    ])
    document ←
        read (status_of req (if is_zero_time req.observed_at then now else req.observed_at) class)
    pure (document, validate_agent_status document)

  -- Runner.removeSavedSpore.
  unfoldable pub remove_saved_spore : Str → Effect (Node W) Unit
  remove_saved_spore dir = do
    with_client (λ c. c.remove_saved_spore (record { spore_dir = dir }))
    change (set_pending true)

  -- Runner.removePreparedSpore, in a context that ends with an error behind a number of ticks of the timer.
  unfoldable pub remove_prepared_spore : ℕ → Error → Str → Effect (Node W) Unit
  remove_prepared_spore zero ended path n = elim (remove_saved_spore path n).0 [
    | ok _ ↦ (ok tt, (remove_saved_spore path n).1)
    | err e ↦ (
      (if saved_spore_in_use e then err (joined e ended) else err e),
      (remove_saved_spore path n).1,
    )
  ]
  remove_prepared_spore (suc ticks) ended path n =
      let later = remove_prepared_spore ticks ended path (remove_saved_spore path n).1 in
      elim (remove_saved_spore path n).0 [
        | ok _ ↦ (ok tt, (remove_saved_spore path n).1)
        | err e ↦ if saved_spore_in_use e then later else (err e, (remove_saved_spore path n).1)
      ]

  abbrev collected : Result CacheGcResult × Node W → Result CacheGcResult × Node W
  collected (ok r, n) = (ok r, n)
  collected (err e, n) = (err e, set_pending true n)

  -- Runner.CollectCache.
  unfoldable pub collect_cache : Effect (Node W) CacheGcResult
  collect_cache n = elim (config.cache_gc && n.cache_gc_pending) [
    | false ↦ (ok zero_collection, n)
    | true ↦ elim config.client [
      | none ↦ (err spore_client_not_configured, set_pending false n)
      | some c ↦ collected (on_world c.collect_cache (set_pending false n))
    ]
  ]
