-- ===== src/Fleet/ContractExamples.antt =====
-- Concrete documents under the contract of internal/fleet/validate.go.
use k8s.Prelude.{ℕ, ◌+◌, ◌^◌, ◌≤◌, ◌≡◌, ◌↔◌, refl, true, arith, all, any, length}
use k8s.Prelude.Int.{pos, add_int, ◌+ℤ◌, sub_ℤ, wrap_int, ◌<ℤ◌}
use k8s.Prelude.Text.{
  Str, lit, str_eq, is_empty, strip_prefix, has_prefix, trim_prefix, has_suffix, split_once,
}
use k8s.Prelude.Decimal.{
  is_digit, digits_rev, rev_onto, decimal, itoa, value_from, value, zeros, pad_zeros,
}
use k8s.Errors.{ok}
use k8s.Fleet.Types.{AttemptResult, end_of, children_range}
use k8s.Fleet.Patterns.{
  is_lower_alnum, is_id_char, id_pattern, is_hex, digest_pattern, bucket_and_key, span_digits,
  memory_pattern, parse_uint, unit_multiplier, valid_amount, valid_memory_value,
}
use k8s.Fleet.Validate.{
  validate_id, validate_digest, validate_s3_prefix, validate_args, validate_command,
  validate_prepare, validate_range, validate_host_class, validate_policies, validate_run,
  validate_s3_json_uri, validate_bundle_run,
}
use k8s.Fleet.Attempts.{
  format_attempt_id, two_digits, validate_result, validate_timings, valid_attempt_status,
}
use k8s.Fleet.Attempts.Ids.{format_attempt_id-injective, validate_result_long_id}
use k8s.Fleet.Patterns.Memory.{IsMemoryValue, valid_memory_value_iff}
use k8s.Fleet.Validate.Spec.{IsBundleRun, validate_bundle_run_iff}
use k8s.Fleet.Validate.Runs.{
  IsRun, IsPrepared, Compiles, validate_run_iff, with_range, validate_run_overflow, compile_iff,
}
use k8s.Fleet.Validate.{compile, compiled}
use k8s.Fleet.Samples.{success, prepared, run, source_run}

validate_bundle_run_iff_example : (validate_bundle_run run ≡ ok tt) ↔ IsBundleRun run
validate_bundle_run_iff_example = validate_bundle_run_iff run

validate_run_iff_example : (validate_run source_run ≡ ok tt) ↔ IsRun source_run
validate_run_iff_example = validate_run_iff source_run

source_run_valid : validate_run source_run ≡ ok tt
unfolding validate_run validate_prepare valid_memory_value memory_pattern span_digits is_digit any
    children_range end_of add_int wrap_int ◌+ℤ◌ parse_uint value value_from unit_multiplier
    valid_amount validate_bundle_run validate_id validate_digest validate_s3_prefix validate_args
    validate_command validate_range validate_host_class validate_policies id_pattern digest_pattern
    is_id_char is_lower_alnum is_hex all lit bucket_and_key has_prefix strip_prefix trim_prefix
    split_once has_suffix is_empty str_eq
source_run_valid = refl

validate_run_overflow_example :
    (validate_run (with_range source_run (2 ^ 62) (2 ^ 62)) ≡ ok tt)
    × (pos 3 <ℤ pos (2 ^ 62 + 2 ^ 62))
validate_run_overflow_example =
    validate_run_overflow source_run (2 ^ 62) (2 ^ 62) source_run_valid (omega arith, omega arith)
      (omega arith) (omega arith) (omega arith)

compile_iff_example : (compile source_run prepared ≡ ok (compiled source_run prepared)) ↔ (
    (validate_run source_run ≡ ok tt)
    × IsPrepared source_run prepared
    × Compiles source_run prepared (compiled source_run prepared))
compile_iff_example = compile_iff source_run prepared (compiled source_run prepared)

abbrev attempt_result : AttemptResult
attempt_result = success run (pos 1) (pos 2)

attempt_result_valid : validate_result attempt_result run ≡ ok tt
unfolding validate_result validate_timings validate_s3_json_uri valid_attempt_status end_of add_int
    wrap_int ◌+ℤ◌ sub_ℤ format_attempt_id two_digits decimal digits_rev rev_onto itoa zeros
    pad_zeros validate_bundle_run validate_id validate_digest validate_s3_prefix validate_args
    validate_command validate_range validate_host_class validate_policies id_pattern digest_pattern
    is_id_char is_lower_alnum is_hex all lit bucket_and_key has_prefix strip_prefix trim_prefix
    split_once has_suffix is_empty str_eq
attempt_result_valid = refl

validate_result_long_id_example : length run.run_id ≤ 109
validate_result_long_id_example =
    validate_result_long_id attempt_result run 1 2 refl attempt_result_valid

format_attempt_id-injective_example : (◌≡◌ {A = ℕ} 3 3) × (◌≡◌ {A = ℕ} 1 1)
format_attempt_id-injective_example = format_attempt_id-injective (lit "run-1") 3 3 1 1 refl

run_id_valid : id_pattern (lit "run-1") ≡ true
unfolding id_pattern is_id_char is_lower_alnum all lit
run_id_valid = refl

valid_memory_value_iff_example :
    (valid_memory_value (lit "512mib") ≡ true)
    ↔ ((digits : Str) × (unit : Str) × IsMemoryValue (lit "512mib") digits unit)
valid_memory_value_iff_example = valid_memory_value_iff (lit "512mib")
