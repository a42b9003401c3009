-- ===== src/Agent/ResultExamples.antt =====
-- Concrete result objects and cleanup ledgers of internal/agent.
use k8s.Prelude.{arith, ◌↔◌, ◌≡◌, refl, true, false, List, [], ◌∷◌, none, some, all, any, ◌++◌}
use k8s.Prelude.Int.{pos, negsuc, ◌+ℤ◌, sub_ℤ, add_int, wrap_int}
use k8s.Prelude.Text.{
  Str, lit, str_eq, is_empty, strip_prefix, has_prefix, trim_prefix, has_suffix, split_once,
}
use k8s.Prelude.Decimal.{decimal, digits_rev, rev_onto, itoa, zeros, pad_zeros}
use k8s.Errors.{Result, ok}
use k8s.Fleet.Types.{end_of, AttemptResult}
use k8s.Fleet.Patterns.{
  is_lower_alnum, is_id_char, id_pattern, is_hex, digest_pattern, bucket_and_key,
}
use k8s.Fleet.Validate.{
  validate_id, validate_digest, validate_s3_prefix, validate_s3_json_uri, validate_args,
  validate_command, validate_range, validate_host_class, validate_policies, validate_bundle_run,
}
use k8s.Fleet.Attempts.{
  validate_result, validate_timings, valid_attempt_status, format_attempt_id, two_digits,
}
use k8s.Fleet.Samples.{run, success}
use k8s.Agent.Attempt.{terminal_result_uri}
use k8s.Agent.Results.{
  lookup, fine, link, write_json_create_only, commit_checks, commit_terminal_result,
  terminal_result, Write, commit, write, after_writes,
}
use k8s.Agent.Cleanup.{validate_cleanup_ledger_paths}
use k8s.Agent.Cleanup.Ledger.{ledger, AscendsFrom, validate_ledger_iff}
use k8s.Agent.Results.Paths.{
  ParsedUrl, split, unsafe_local_path_segment, s3_parts, check_parts, parse_s3_result_uri,
  path_for_uri, IsBelow, path_for_uri-IsBelow,
}
use k8s.Agent.Results.FirstWins.{committed_result_stays, commit_once}

abbrev path_for : Str → Result Str
path_for u = ok u

abbrev child_result : AttemptResult
child_result = success run (pos 1) (pos 1)

abbrev committed : AttemptResult
committed = record child_result { result_uri = terminal_result_uri run (pos 1) }

abbrev second_result : AttemptResult
second_result = success run (pos 1) (pos 2)

abbrev second : AttemptResult
second = record second_result { result_uri = terminal_result_uri run (pos 1) }

abbrev writes : List (Write path_for)
writes = write fine none run committed ∷ commit fine none run second ∷ []

commit_made : (commit_terminal_result path_for fine none run committed []).0.0 ≡ true
unfolding commit_terminal_result write_json_create_only link lookup commit_checks
    terminal_result_uri validate_result validate_timings validate_s3_json_uri valid_attempt_status
    end_of add_int wrap_int ◌+ℤ◌ sub_ℤ format_attempt_id two_digits decimal digits_rev rev_onto itoa
    zeros pad_zeros validate_bundle_run validate_id validate_digest validate_s3_prefix validate_args
    validate_command validate_range validate_host_class validate_policies id_pattern digest_pattern
    is_id_char is_lower_alnum is_hex all lit bucket_and_key has_prefix strip_prefix trim_prefix
    split_once has_suffix is_empty str_eq
commit_made = refl

committed_result_stays_example :
    terminal_result path_for none run
      (pos 1)
      (after_writes path_for writes (commit_terminal_result path_for fine none run committed []).1)
    ≡ ok (some committed)
committed_result_stays_example =
    committed_result_stays path_for fine none run committed writes [] commit_made

commit_once_example :
    (commit_terminal_result path_for fine none run second (
      after_writes path_for writes
        (commit_terminal_result path_for fine none run committed []).1)).0.0
    ≡ false
commit_once_example =
    commit_once path_for fine fine none none run committed second writes [] commit_made refl

abbrev parse : Str → Result ParsedUrl
parse raw = ok (record {
  scheme = lit "s3";
  host = lit "bucket";
  path = lit "/results/children/1/terminal.json";
  raw_query = [];
  fragment = [];
})

abbrev join : List Str → Str
join [] = []
join (p ∷ ps) = lit "/" ++ (p ++ join ps)

abbrev local_path : Str
local_path = lit "/data/bucket/results/children/1/terminal.json"

uri_path :
    path_for_uri parse join (lit "data") (lit "s3://bucket/results/children/1/terminal.json")
    ≡ ok local_path
unfolding path_for_uri parse_s3_result_uri s3_parts check_parts split unsafe_local_path_segment any
    lit str_eq is_empty trim_prefix strip_prefix
uri_path = refl

path_for_uri-IsBelow_example : IsBelow join (lit "data") local_path
path_for_uri-IsBelow_example =
    path_for_uri-IsBelow parse join (lit "data")
      (lit "s3://bucket/results/children/1/terminal.json") local_path uri_path

validate_ledger_iff_example :
    (validate_cleanup_ledger_paths (ledger (3 ∷ 7 ∷ [])) ≡ ok tt)
    ↔ AscendsFrom (negsuc 0) (3 ∷ 7 ∷ [])
validate_ledger_iff_example = validate_ledger_iff (3 ∷ 7 ∷ []) (omega arith, (omega arith, tt))
