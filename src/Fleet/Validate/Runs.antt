-- ===== src/Fleet/Validate/Runs.antt =====
-- Source runs, and what Compile makes of them: Run.Validate and Run.Compile of internal/fleet/validate.go.
use k8s.Prelude.{
  ℕ, ◌+◌, ◌^◌, ◌<◌, ◌≤◌, ◌≡◌, ◌≢◌, ◌↔◌, ◌⊎◌, inr, refl, ap, sym, subst, ◌∙◌, true, false, [], ◌∷◌,
  arith,
}
use k8s.Prelude.Int.{pos, ◌≤ℤ◌, ◌<ℤ◌, ◌+ℤ◌, add_int, wrap_int_self, IsInt, add_int_overflow}
use k8s.Prelude.Text.{Str, lit, is_empty, str_eq_iff}
use k8s.Errors.{ok}
use k8s.Fleet.Types.{end_of, PrepareSpec, children_range, Run, PreparedBundle, BundleRun}
use k8s.Fleet.Patterns.{id_pattern, digest_pattern, valid_memory_value}
use k8s.Fleet.Validate.{validate_prepare, validate_run, validate_bundle_run, compile, compiled}
use k8s.Fleet.Validate.Spec.{
  IsRange, IsHostClass, IsCommand, IsPolicies, IsBundleRun, is_empty_iff, validate_id_iff,
  validate_digest_iff, validate_range_iff, validate_command_iff, validate_host_class_iff,
  validate_policies_iff, validate_bundle_run_iff,
}

-- A capture needs both its signal, which is USR1, and its marker.
pub record IsPrepare (p : PrepareSpec) : Type 0 where
  pub command : IsCommand p.command
  pub memory : (p.memory ≡ []) ⊎ (valid_memory_value p.memory ≡ true)
  pub capture :
      ((p.capture_signal ≡ []) × (p.ready_marker ≡ []))
      ⊎ ((p.capture_signal ≡ lit "USR1") × (p.ready_marker ≢ []))

pub record IsRun (r : Run) : Type 0 where
  pub run_id : id_pattern r.run_id ≡ true
  pub image : r.source.image ≢ []
  pub platform : r.source.platform ≡ lit "linux/arm64"
  pub prepare : IsPrepare r.prepare
  pub fork : pos 1 ≤ℤ r.fork.count
  pub children : IsRange (children_range r.children)
  pub fits : end_of (children_range r.children) ≤ℤ r.fork.count
  pub child_command : IsCommand r.children.command
  pub policies : IsPolicies r.execution r.retry_policy r.side_effects r.result_store

usr1_nonempty : is_empty (lit "USR1") ≡ false
unfolding is_empty lit
usr1_nonempty = refl

is_empty-true_iff : (s : Str) → (is_empty s ≡ true) ↔ (s ≡ [])
unfolding is_empty
is_empty-true_iff [] = ground arith
is_empty-true_iff (c ∷ s) = ground arith

pub validate_prepare_iff :
    (p : PrepareSpec) (at : Str) → (validate_prepare p at ≡ ok tt) ↔ IsPrepare p
unfolding validate_prepare
validate_prepare_iff p at = ground (
  arith,
  validate_command_iff p.command at,
  is_empty-true_iff p.memory,
  is_empty-true_iff p.capture_signal,
  is_empty-true_iff p.ready_marker,
  str_eq_iff p.capture_signal (lit "USR1"),
  usr1_nonempty,
)

-- Run.Validate passes exactly on the source runs that meet these conditions on their fields, the
-- end of the range being the wrapped sum, where a result store may have the key of a single slash,
-- which the schema of a run refuses.
pub validate_run_iff : (r : Run) → (validate_run r ≡ ok tt) ↔ IsRun r
unfolding validate_run
validate_run_iff r = ground (
  arith,
  validate_id_iff r.run_id (lit "runID"),
  is_empty_iff r.source.image,
  str_eq_iff r.source.platform (lit "linux/arm64"),
  validate_prepare_iff r.prepare (lit "prepare"),
  validate_range_iff (children_range r.children) (lit "children"),
  validate_command_iff r.children.command (lit "children"),
  validate_policies_iff r.execution r.retry_policy r.side_effects r.result_store,
)

-- Where the sum of its start and its count does not overflow, a run that passes Run.Validate has
-- its children among its forks.
pub validate_run-fits :
    (r : Run)
    → validate_run r ≡ ok tt
    → IsInt (r.children.start +ℤ r.children.count)
    → r.children.start +ℤ r.children.count ≤ℤ r.fork.count
unfolding end_of children_range add_int
validate_run-fits r h small =
    let v = (validate_run_iff r).0 h in
    ground (arith, v.fits, wrap_int_self (r.children.start +ℤ r.children.count) small)

abbrev pub with_range : Run → ℕ → ℕ → Run
with_range r start count = record r {
  children = record r.children { start = pos start; count = pos count };
}

-- A run that passes Run.Validate still passes with a start and a count whose sum overflows,
-- although that range leaves its forks.
pub validate_run_overflow :
    (r : Run) (start count : ℕ)
    → validate_run r ≡ ok tt
    → IsInt r.fork.count
    → start < 2 ^ 63
    → count < 2 ^ 63
    → 2 ^ 63 ≤ start + count
    → (validate_run (with_range r start count) ≡ ok tt) × (r.fork.count <ℤ pos (start + count))
validate_run_overflow r start count h small hs hc over =
    let v = (validate_run_iff r).0 h in
    (
      (validate_run_iff (with_range r start count)).1 (record {
        run_id = v.run_id;
        image = v.image;
        platform = v.platform;
        prepare = v.prepare;
        fork = v.fork;
        children = unfold children_range in record { start = omega arith; count = omega arith };
        fits =
            unfold end_of children_range in
            omega (arith, v.fork, add_int_overflow start count hs hc over);
        child_command = v.child_command;
        policies = v.policies;
      }),
      ground arith,
    )

pub record IsPrepared (r : Run) (p : PreparedBundle) : Type 0 where
  pub uri : p.bundle.uri ≢ []
  pub digest : digest_pattern p.bundle.digest ≡ true
  pub covers : end_of (children_range r.children) ≤ℤ p.child_count
  pub host_class : IsHostClass p.host_class

-- What a bundle run takes from its source run and from the bundle that was prepared.
pub record Compiles (r : Run) (p : PreparedBundle) (b : BundleRun) : Type 0 where
  pub run_id : b.run_id ≡ r.run_id
  pub bundle_uri : b.bundle.uri ≡ p.bundle.uri
  pub bundle_digest : b.bundle.digest ≡ p.bundle.digest
  pub start : b.children.start ≡ r.children.start
  pub count : b.children.count ≡ r.children.count
  pub child_command : b.child_command ≡ r.children.command
  pub host_class : b.host_class ≡ p.host_class
  pub in_flight : b.execution.max_in_flight_per_agent ≡ r.execution.max_in_flight_per_agent
  pub attempts : b.retry_policy.max_attempts_per_child ≡ r.retry_policy.max_attempts_per_child
  pub rerun : b.retry_policy.rerun_committed_children ≡ r.retry_policy.rerun_committed_children
  pub idempotency : b.side_effects.idempotency_required ≡ r.side_effects.idempotency_required
  pub result_store : b.result_store ≡ r.result_store

compiled-Compiles : (r : Run) (p : PreparedBundle) → Compiles r p (compiled r p)
unfolding children_range
compiled-Compiles r p = record {
  run_id = refl;
  bundle_uri = refl;
  bundle_digest = refl;
  start = refl;
  count = refl;
  child_command = refl;
  host_class = refl;
  in_flight = refl;
  attempts = refl;
  rerun = refl;
  idempotency = refl;
  result_store = refl;
}

Compiles-compiled :
    (r : Run) (p : PreparedBundle) (b : BundleRun) → Compiles r p b → b ≡ compiled r p
unfolding children_range
Compiles-compiled r p b v = ground (
  arith, v.run_id, v.bundle_uri, v.bundle_digest, v.start, v.count, v.child_command, v.host_class,
  v.in_flight, v.attempts, v.rerun, v.idempotency, v.result_store,
)

compiled-IsBundleRun :
    (r : Run) (p : PreparedBundle) → IsRun r → IsPrepared r p → IsBundleRun (compiled r p)
compiled-IsBundleRun r p v q = record {
  run_id = v.run_id;
  uri = q.uri;
  digest = q.digest;
  children = v.children;
  child_command = inr v.child_command;
  host_class = q.host_class;
  policies = v.policies;
}

validate_compiled :
    (r : Run) (p : PreparedBundle)
    → validate_run r ≡ ok tt
    → IsPrepared r p
    → validate_bundle_run (compiled r p) ≡ ok tt
validate_compiled r p h q =
    (validate_bundle_run_iff (compiled r p)).1
      (compiled-IsBundleRun r p ((validate_run_iff r).0 h) q)

compile_sound :
    (r : Run) (p : PreparedBundle) (b : BundleRun)
    → compile r p ≡ ok b
    → (validate_run r ≡ ok tt) × IsPrepared r p × (b ≡ compiled r p)
unfolding compile
compile_sound r p b h = (
  ground arith,
  ground (
    arith,
    is_empty_iff p.bundle.uri,
    validate_digest_iff p.bundle.digest (lit "prepared.bundle.digest"),
    validate_host_class_iff p.host_class (lit "prepared.hostClass"),
  ),
  ground arith,
)

compile_complete :
    (r : Run) (p : PreparedBundle)
    → validate_run r ≡ ok tt
    → IsPrepared r p
    → compile r p ≡ ok (compiled r p)
unfolding compile
compile_complete r p h q = ground (
  arith,
  is_empty_iff p.bundle.uri,
  validate_digest_iff p.bundle.digest (lit "prepared.bundle.digest"),
  validate_host_class_iff p.host_class (lit "prepared.hostClass"),
  validate_compiled r p h q,
)

-- Compile gives a bundle run exactly if the source run meets the conditions of Run.Validate, the
-- prepared bundle has a URI, a digest and a host class that pass and covers the range, and the
-- bundle run has the source run's id, range, command, policies and result store, and the prepared
-- bundle's URI, digest and host class.
pub compile_iff :
    (r : Run) (p : PreparedBundle) (b : BundleRun)
    → (compile r p ≡ ok b) ↔ ((validate_run r ≡ ok tt) × IsPrepared r p × Compiles r p b)
compile_iff r p b = (
  λ h.
      let s = compile_sound r p b h in
      (s.0, s.1, subst (Compiles r p) (sym s.2) (compiled-Compiles r p)),
  λ (h, q, v). compile_complete r p h q ∙ ap ok (sym (Compiles-compiled r p b v)),
)
