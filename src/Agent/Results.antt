-- ===== src/Agent/Results.antt =====
-- The local result store of internal/agent/result_store.go. The files are a list of paths and documents; the
-- JSON of a document is read back as it was written. How the file system answers a call is an argument of it,
-- and so is `path_for`, the path of a URI, which is `path_for_uri` of Paths.
pub mod FirstWins
pub mod Paths
use k8s.Prelude.{Bool, true, false, ◌||◌, not, List, [], ◌∷◌, Option, none, some, if◌then◌else◌}
use k8s.Prelude.Int.{ℤ, ltb_ℤ, leb_ℤ}
use k8s.Prelude.Text.{Str, lit, str_eq}
use k8s.Errors.{
  Error, Checked, Result, ok, err, contract, external, result_exists, invalid_machine_output, ◌>>=◌,
  ◌>>◌, fail_if,
}
use k8s.Fleet.Types.{BundleRun, end_of, AttemptResult}
use k8s.Fleet.Validate.{validate_bundle_run}
use k8s.Fleet.Attempts.{validate_result}
use k8s.Agent.Attempt.{terminal_result_uri, attempt_result_uri}

abbrev pub Files : Type 0
Files = List (Str × AttemptResult)

unfoldable pub lookup : Str → Files → Option AttemptResult
lookup path [] = none
lookup path ((p, r) ∷ files) = if str_eq p path then some r else lookup path files

-- What happens in a create-only write beside the link: nothing, or an error before or after it.
pub data Io : Type 0 where
  fine : Io
  fails_before : Error → Io
  fails_after : Error → Io

abbrev linked : Io → Option Error
linked (fails_after e) = some e
linked _ = none

-- writeJSONCreateOnly, from `os.Link` on.
unfoldable pub link : Io → Str → AttemptResult → Files → (Bool × Option Error) × Files
link io path r files = elim (lookup path files) [
  | some there ↦ ((false, none), files)
  | none ↦ ((true, linked io), (path, r) ∷ files)
]

unfoldable pub write_json_create_only :
    Io → Str → AttemptResult → Files → (Bool × Option Error) × Files
write_json_create_only (fails_before e) path r files = ((false, some e), files)
write_json_create_only fine path r files = link fine path r files
write_json_create_only (fails_after e) path r files = link (fails_after e) path r files

-- What CommitTerminalResult checks of a result before it looks for a path.
unfoldable pub commit_checks : Option Error → BundleRun → AttemptResult → Checked
commit_checks (some e) run r = err e
commit_checks none run r = do
  validate_result r run
  fail_if (not r.terminal) (external (lit "cannot commit non-terminal result"))
  fail_if (not (str_eq r.result_uri (terminal_result_uri run r.child_id)))
      (external (lit "terminal result URI"))

unfoldable pub write_checks : Option Error → BundleRun → AttemptResult → Checked
write_checks (some e) run r = err e
write_checks none run r = validate_result r run

unfoldable pub read_checks : Option Error → BundleRun → ℤ → Checked
read_checks (some e) run child = err e
read_checks none run child = do
  validate_bundle_run run
  fail_if (ltb_ℤ child run.children.start || leb_ℤ (end_of run.children) child)
      (contract (lit "terminal child id is outside the run"))

-- decodeTerminalResult, behind the decoding.
unfoldable pub decode_terminal_result : BundleRun → AttemptResult → Result (Option AttemptResult)
decode_terminal_result run r = do
  validate_result r run
  fail_if (not r.terminal)
      (invalid_machine_output (lit "committed terminal result is not terminal"))
  ok (some r)

abbrev decoded : BundleRun → Option AttemptResult → Result (Option AttemptResult)
decoded run none = ok none
decoded run (some r) = decode_terminal_result run r

-- An attempt's document that is there already is an error.
abbrev created : Bool × Option Error → Option Error
created (b, some e) = some e
created (false, none) = some result_exists
created (true, none) = none

module _ (path_for : Str → Result Str) where
  -- CommitTerminalResult: whether the result was committed, and the error.
  unfoldable pub commit_terminal_result :
      Io → Option Error → BundleRun → AttemptResult → Files → (Bool × Option Error) × Files
  commit_terminal_result io cancelled run r files = elim (commit_checks cancelled run r) [
    | err e ↦ ((false, some e), files)
    | ok _ ↦ elim (path_for (terminal_result_uri run r.child_id)) [
      | err e ↦ ((false, some e), files)
      | ok path ↦ write_json_create_only io path r files
    ]
  ]

  -- WriteAttemptResult.
  unfoldable pub write_attempt_result :
      Io → Option Error → BundleRun → AttemptResult → Files → Option Error × Files
  write_attempt_result io cancelled run r files = elim (write_checks cancelled run r) [
    | err e ↦ (some e, files)
    | ok _ ↦ elim (path_for (attempt_result_uri run r.child_id r.attempt_id)) [
      | err e ↦ (some e, files)
      | ok path ↦ (
        created (write_json_create_only io path r files).0,
        (write_json_create_only io path r files).1,
      )
    ]
  ]

  -- TerminalResult, where the file can be opened if it is there.
  unfoldable pub terminal_result :
      Option Error → BundleRun → ℤ → Files → Result (Option AttemptResult)
  terminal_result cancelled run child files = elim (read_checks cancelled run child) [
    | err e ↦ err e
    | ok _ ↦ elim (path_for (terminal_result_uri run child)) [
      | err e ↦ err e
      | ok path ↦ decoded run (lookup path files)
    ]
  ]

  pub data Write : Type 0 where
    commit : Io → Option Error → BundleRun → AttemptResult → Write
    write : Io → Option Error → BundleRun → AttemptResult → Write

  unfoldable pub after_write : Write → Files → Files
  after_write (commit io cancelled run r) files =
      (commit_terminal_result io cancelled run r files).1
  after_write (write io cancelled run r) files = (write_attempt_result io cancelled run r files).1

  unfoldable pub after_writes : List Write → Files → Files
  after_writes [] files = files
  after_writes (x ∷ xs) files = after_writes xs (after_write x files)
