-- ===== src/Fleet/Validate/Spec.antt =====
-- The conditions on their fields under which Run.Validate and BundleRun.Validate of
-- internal/fleet/validate.go admit the documents.
use k8s.Prelude.{ℕ, ◌+◌, ◌≡◌, ◌≢◌, ◌↔◌, ◌⊎◌, refl, true, false, List, [], ◌∷◌, ◌++◌, arith, All}
use k8s.Prelude.Int.{pos, ◌≤ℤ◌}
use k8s.Prelude.Text.{Str, lit, is_empty, str_eq_iff}
use k8s.Errors.{ok}
use k8s.Fleet.Types.{ChildRange, HostClass, Execution, RetryPolicy, SideEffects, BundleRun}
use k8s.Fleet.Patterns.{id_pattern, digest_pattern}
use k8s.Fleet.Patterns.S3.{IsS3Uri, IsDirectory, IsDirectory-iff, bucket_and_key_iff}
use k8s.Fleet.Validate.{
  validate_id, validate_digest, validate_s3_prefix, validate_args, validate_command, validate_range,
  validate_host_class, validate_policies, validate_bundle_run,
}

pub record IsRange (r : ChildRange) : Type 0 where
  pub start : pos 0 ≤ℤ r.start
  pub count : pos 1 ≤ℤ r.count

pub record IsHostClass (h : HostClass) : Type 0 where
  pub id : id_pattern h.id ≡ true
  pub version : h.spore_platform_version ≡ lit "v0"
  pub architecture : h.architecture ≡ lit "aarch64"
  pub backend : h.backend ≡ lit "kvm"
  pub cpu_profile : h.cpu_profile ≢ []
  pub device_model : h.device_model ≢ []

pub record IsCommand (command : List Str) : Type 0 where
  pub some_argument : command ≢ []
  pub arguments : All (λ a. a ≢ []) command

-- The schemas of both kinds of run ask for some text before the last slash of the key: they refuse the
-- first case of `directory`, which is s3://bucket//.
pub record IsResultStore (s : Str) : Type 0 where
  pub bucket : Str
  pub key : Str
  pub uri : IsS3Uri s bucket key
  pub directory : IsDirectory key

-- What both kinds of run ask of their policies and their result store.
pub record IsPolicies (e : Execution) (p : RetryPolicy) (s : SideEffects) (store : Str)
    : Type 0 where
  pub in_flight : pos 1 ≤ℤ e.max_in_flight_per_agent
  pub attempts : pos 1 ≤ℤ p.max_attempts_per_child
  pub no_rerun : p.rerun_committed_children ≡ false
  pub idempotent : s.idempotency_required ≡ true
  pub result_store : IsResultStore store

pub record IsBundleRun (r : BundleRun) : Type 0 where
  pub run_id : id_pattern r.run_id ≡ true
  pub uri : r.bundle.uri ≢ []
  pub digest : digest_pattern r.bundle.digest ≡ true
  pub children : IsRange r.children
  pub child_command : (r.child_command ≡ []) ⊎ IsCommand r.child_command
  pub host_class : IsHostClass r.host_class
  pub policies : IsPolicies r.execution r.retry_policy r.side_effects r.result_store

pub is_empty_iff : (s : Str) → (is_empty s ≡ false) ↔ (s ≢ [])
unfolding is_empty
is_empty_iff [] = ground arith
is_empty_iff (c ∷ s) = ground arith

pub validate_id_iff : (v p : Str) → (validate_id v p ≡ ok tt) ↔ (id_pattern v ≡ true)
unfolding validate_id
validate_id_iff v p = ground arith

pub validate_digest_iff : (v p : Str) → (validate_digest v p ≡ ok tt) ↔ (digest_pattern v ≡ true)
unfolding validate_digest
validate_digest_iff v p = ground arith

pub validate_range_iff : (r : ChildRange) (p : Str) → (validate_range r p ≡ ok tt) ↔ IsRange r
unfolding validate_range
validate_range_iff r p =
    (λ h. record { start = ground arith; count = ground arith }, λ v. ground arith)

pub validate_host_class_iff :
    (h : HostClass) (p : Str) → (validate_host_class h p ≡ ok tt) ↔ IsHostClass h
unfolding validate_host_class
validate_host_class_iff h p = ground (
  arith,
  validate_id_iff h.id (p ++ lit ".id"),
  str_eq_iff h.spore_platform_version (lit "v0"),
  str_eq_iff h.architecture (lit "aarch64"),
  str_eq_iff h.backend (lit "kvm"),
  is_empty_iff h.cpu_profile,
  is_empty_iff h.device_model,
)

validate_args_iff :
    (p : Str) (i : ℕ) (args : List Str) → (validate_args p i args ≡ ok tt) ↔ All (λ a. a ≢ []) args
unfolding validate_args
validate_args_iff p i [] = ground arith
validate_args_iff p i (a ∷ args) = ground (arith, is_empty_iff a, validate_args_iff p (i + 1) args)

pub validate_command_iff :
    (command : List Str) (p : Str)
    → (validate_command (record { command = command }) p ≡ ok tt) ↔ IsCommand command
unfolding validate_command
validate_command_iff [] p = (λ h. cc, λ v. absurd (v.some_argument refl))
validate_command_iff (a ∷ args) p = (
  λ h. record { some_argument = λ e. cc; arguments = (validate_args_iff p 0 (a ∷ args)).0 h },
  λ v. (validate_args_iff p 0 (a ∷ args)).1 v.arguments,
)

pub validate_s3_prefix_iff : (s p : Str) → (validate_s3_prefix s p ≡ ok tt) ↔ IsResultStore s
unfolding validate_s3_prefix
validate_s3_prefix_iff s p = (
  λ h.
      let (bucket, key, uri) = (bucket_and_key_iff s).0 (ground arith, ground arith) in
      record {
        bucket = bucket;
        key = key;
        uri = uri;
        directory = (IsDirectory-iff s bucket key uri).0 (ground arith);
      },
  λ v. ground (
    arith,
    (bucket_and_key_iff s).1 (v.bucket, v.key, v.uri),
    (IsDirectory-iff s v.bucket v.key v.uri).1 v.directory,
  ),
)

pub validate_policies_iff :
    (e : Execution) (p : RetryPolicy) (s : SideEffects) (store : Str)
    → (validate_policies e p s store ≡ ok tt) ↔ IsPolicies e p s store
unfolding validate_policies
validate_policies_iff e p s store = (
  λ h. record {
    in_flight = ground arith;
    attempts = ground arith;
    no_rerun = ground arith;
    idempotent = ground arith;
    result_store = (validate_s3_prefix_iff store (lit "resultStore")).0 (ground arith);
  },
  λ v. ground (arith, (validate_s3_prefix_iff store (lit "resultStore")).1 v.result_store),
)

-- BundleRun.Validate passes exactly on the documents that meet these conditions on their fields,
-- where a command that is empty counts as absent, and a result store may have the key of a single
-- slash, which the schema of a bundle run refuses.
pub validate_bundle_run_iff : (r : BundleRun) → (validate_bundle_run r ≡ ok tt) ↔ IsBundleRun r
unfolding validate_bundle_run
validate_bundle_run_iff r = ground (
  arith,
  validate_id_iff r.run_id (lit "runID"),
  is_empty_iff r.bundle.uri,
  validate_digest_iff r.bundle.digest (lit "bundle.digest"),
  validate_range_iff r.children (lit "children"),
  validate_command_iff r.child_command (lit "childCommand"),
  validate_host_class_iff r.host_class (lit "hostClass"),
  validate_policies_iff r.execution r.retry_policy r.side_effects r.result_store,
)
