-- ===== src/Agent/Machine/HostInfo.antt =====
-- The host facts that the virtual machine's command prints, in two schemas, and the host class that the
-- agent reports of them: internal/agent/machine.go. Decoding JSON is the library's: a document comes decoded.
use k8s.Prelude.{ℕ, Bool, ◌||◌, ◌&&◌, List, [], ◌∷◌, ◌++◌, Option, none, some, not, if◌then◌else◌}
use k8s.Prelude.Int.{ℤ}
use k8s.Prelude.Text.{Str, lit, str_eq, is_empty, is_some}
use k8s.Prelude.Decimal.{decimal}
use k8s.Errors.{Checked, Result, ok, err, invalid_machine_output, ◌>>=◌, ◌>>◌, fail_if}
use k8s.Fleet.Types.{HostClass}
use k8s.Fleet.Validate.{validate_host_class}
use k8s.Agent.Machine.Documents.{of_schema}

pub record PlatformFacts : Type 0 where
  pub os : Str
  pub arch : Str
  pub cpu_profile : Str
  pub device_model_version : ℕ
  pub ram_base : ℕ
  pub gic_dist_base : ℕ
  pub gic_redist_base : ℕ
  pub counter_frequency_source : Str
  pub counter_frequency_hz : ℕ

pub record BackendAvailability : Type 0 where
  pub name : Str
  pub supported : Bool
  pub available : Bool
  pub reason : Str

pub record PathFact : Type 0 where
  pub path : Option Str
  pub resolved : Bool
  pub source : Str

pub record CacheRoots : Type 0 where
  pub kernels : PathFact
  pub rootfs : PathFact
  pub bundles : PathFact
  pub runtime : PathFact

pub record HostInfo : Type 0 where
  pub schema : Str
  pub schema_version : ℤ
  pub host_class : Str
  pub platform : PlatformFacts
  pub backends : List BackendAvailability
  pub cache_roots : CacheRoots

pub record InterruptController : Type 0 where
  pub distributor_base : ℕ
  pub redistributor_base : ℕ

pub record Counter : Type 0 where
  pub source : Str
  pub frequency_hz : ℕ

pub record Arm64Platform : Type 0 where
  pub os : Str
  pub cpu_profile : Str
  pub device_model_version : ℕ
  pub ram_base : ℕ
  pub interrupt_controller : InterruptController
  pub counter : Counter

pub record Amd64Platform : Type 0 where
  pub os : Str
  pub cpu_profile : Str
  pub device_model_version : ℕ
  pub ram_base : ℕ

pub record HostInfoV3Platform : Type 0 where
  pub arm64 : Option Arm64Platform
  pub amd64 : Option Amd64Platform

pub record HostInfoV3 : Type 0 where
  pub schema : Str
  pub schema_version : ℤ
  pub host_class : Str
  pub architecture : Str
  pub platform : HostInfoV3Platform
  pub backends : List BackendAvailability
  pub cache_roots : CacheRoots

abbrev arm64_facts : Arm64Platform → PlatformFacts
arm64_facts p = record {
  os = p.os;
  arch = lit "aarch64";
  cpu_profile = p.cpu_profile;
  device_model_version = p.device_model_version;
  ram_base = p.ram_base;
  gic_dist_base = p.interrupt_controller.distributor_base;
  gic_redist_base = p.interrupt_controller.redistributor_base;
  counter_frequency_source = p.counter.source;
  counter_frequency_hz = p.counter.frequency_hz;
}

abbrev amd64_facts : Amd64Platform → PlatformFacts
amd64_facts p = record {
  os = p.os;
  arch = lit "x86_64";
  cpu_profile = p.cpu_profile;
  device_model_version = p.device_model_version;
  ram_base = p.ram_base;
  gic_dist_base = 0;
  gic_redist_base = 0;
  counter_frequency_source = lit "";
  counter_frequency_hz = 0;
}

abbrev arm64_variant : Option Arm64Platform → Option Amd64Platform → Result PlatformFacts
arm64_variant (some p) none = ok (arm64_facts p)
arm64_variant none _ =
    err (invalid_machine_output (lit "host-info v3 arm64 platform variant is invalid"))
arm64_variant (some p) (some _) =
    err (invalid_machine_output (lit "host-info v3 arm64 platform variant is invalid"))

abbrev amd64_variant : Option Arm64Platform → Option Amd64Platform → Result PlatformFacts
amd64_variant none (some p) = ok (amd64_facts p)
amd64_variant _ none =
    err (invalid_machine_output (lit "host-info v3 amd64 platform variant is invalid"))
amd64_variant (some _) (some p) =
    err (invalid_machine_output (lit "host-info v3 amd64 platform variant is invalid"))

-- hostInfoV3Platform.normalize.
unfoldable pub normalize : HostInfoV3Platform → Str → Result PlatformFacts
normalize p architecture =
    if str_eq architecture (lit "arm64")
    then arm64_variant p.arm64 p.amd64
    else if str_eq architecture (lit "amd64")
    then amd64_variant p.arm64 p.amd64
    else err (invalid_machine_output (lit "host-info v3 architecture"))

unfoldable pub normalize_machine_architecture : Str → Str
normalize_machine_architecture architecture =
    if str_eq architecture (lit "arm64")
    then lit "aarch64"
    else if str_eq architecture (lit "amd64")
    then lit "x86_64"
    else architecture

abbrev machine_facts : PlatformFacts → PlatformFacts
machine_facts p = record p { arch = normalize_machine_architecture p.arch }

abbrev pub from_v2 : HostInfo → HostInfo
from_v2 h = record h { platform = machine_facts h.platform }

abbrev from_v3 : HostInfoV3 → PlatformFacts → HostInfo
from_v3 d facts = record {
  schema = d.schema;
  schema_version = d.schema_version;
  host_class = d.host_class;
  platform = facts;
  backends = d.backends;
  cache_roots = d.cache_roots;
}

-- The document of the second branch, with its facts brought to the shared view.
abbrev normalized : HostInfoV3 → Result HostInfo
normalized d = normalize d.platform d.architecture >>= λ facts. ok (from_v3 d facts)

-- HostInfo.UnmarshalJSON: what the header says, and what the library decodes the document as in each schema.
unfoldable pub unmarshal_host_info : Str → ℤ → Result HostInfo → Result HostInfoV3 → Result HostInfo
unmarshal_host_info schema version v2 v3 =
    if of_schema schema version (lit "spore.host-info.v2") 2
    then v2 >>= (λ h. ok (from_v2 h))
    else if of_schema schema version (lit "spore.host-info.v3") 3
    then v3 >>= normalized
    else err (invalid_machine_output (lit "host-info schema"))

-- HostInfo.AvailableBackend.
unfoldable pub available_backend : Str → List BackendAvailability → Option BackendAvailability
available_backend name [] = none
available_backend name (b ∷ bs) =
    if str_eq b.name name && (b.supported && b.available) then some b else available_backend name bs

unfoldable pub validate_host_info : HostInfo → Checked
validate_host_info h = do
  fail_if
      (not (of_schema h.schema h.schema_version (lit "spore.host-info.v2") 2)
        && not (of_schema h.schema h.schema_version (lit "spore.host-info.v3") 3))
      (invalid_machine_output (lit "host-info schema"))
  fail_if (is_empty h.host_class) (invalid_machine_output (lit "host-info host_class is empty"))
  fail_if (is_empty h.platform.arch || is_empty h.platform.cpu_profile)
      (invalid_machine_output (lit "host-info platform is incomplete"))

-- The host class of host facts, before it is checked.
abbrev pub host_class_of : HostInfo → Str → HostClass
host_class_of h backend = record {
  id =
      h.host_class
      ++ lit "-"
      ++ h.platform.cpu_profile
      ++ lit "-v"
      ++ decimal h.platform.device_model_version;
  spore_platform_version = lit "v0";
  architecture = h.platform.arch;
  backend = backend;
  cpu_profile = h.platform.cpu_profile;
  device_model =
      lit "sporevm-" ++ h.platform.arch ++ lit "-v" ++ decimal h.platform.device_model_version;
}

-- A failed check of the class, under the machine's error.
abbrev unsupported : Checked → Checked
unsupported (ok _) = ok tt
unsupported (err e) = err (invalid_machine_output (lit "unsupported fleet host class"))

-- HostInfo.FleetHostClass.
unfoldable pub fleet_host_class : HostInfo → Str → Result HostClass
fleet_host_class h backend = do
  validate_host_info h
  fail_if (not (is_some (available_backend backend h.backends)))
      (invalid_machine_output (lit "backend is not available"))
  unsupported (validate_host_class (host_class_of h backend) (lit "hostClass"))
  ok (host_class_of h backend)
