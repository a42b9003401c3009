-- ===== src/Agent/Machine/Requests.antt =====
-- The requests that the agent makes of the virtual machine's command, and their checks:
-- internal/agent/machine.go. The text of an error leaves out the position that Go prints into it.
use k8s.Prelude.{
  Bool, true, false, if◌then◌else◌, ◌||◌, ◌&&◌, List, [], ◌∷◌, Option, none, some, any, not,
}
use k8s.Prelude.Int.{ℤ, pos, ltb_ℤ, leb_ℤ, is_neg}
use k8s.Prelude.Text.{Str, lit, is_empty, is_some}
use k8s.Errors.{Checked, ok, invalid_spore_request, ◌>>◌, fail_if}

-- `if value == "" { return invalidSporeRequest(...) }`.
abbrev required : Str → Str → Checked
required value what = fail_if (is_empty value) (invalid_spore_request what)

-- The command of a request: there is one, and no argument is empty.
unfoldable pub check_command : Str → Str → List Str → Checked
check_command missing empty [] = fail_if true (invalid_spore_request missing)
check_command missing empty (arg ∷ args) =
    fail_if (any is_empty (arg ∷ args)) (invalid_spore_request empty)

pub record ChildRangeSelection : Type 0 where
  pub start : ℤ
  pub stop : ℤ

pub record InspectBundleRequest : Type 0 where
  pub source : Str
  pub child_id : Str
  pub child_range : Option ChildRangeSelection

abbrev bad_range : Option ChildRangeSelection → Bool
bad_range none = false
bad_range (some r) = is_neg r.start || leb_ℤ r.stop r.start

unfoldable pub validate_inspect_request : InspectBundleRequest → Checked
validate_inspect_request r = do
  required r.source (lit "inspect-bundle source is required")
  fail_if (not (is_empty r.child_id) && is_some r.child_range)
      (invalid_spore_request (lit "inspect-bundle cannot select both child id and child range"))
  fail_if (bad_range r.child_range)
      (invalid_spore_request (lit "inspect-bundle child range must be non-empty and non-negative"))

pub record PullRequest : Type 0 where
  pub source : Str
  pub out_dir : Str
  pub child_id : Str
  pub region : Str
  pub allow_metadata_only_rootfs : Bool

unfoldable pub validate_pull_request : PullRequest → Checked
validate_pull_request r = do
  required r.source (lit "pull source is required")
  required r.out_dir (lit "pull out dir is required")

pub record RunCaptureRequest : Type 0 where
  pub image : Str
  pub capture_dir : Str
  pub capture_signal : Str
  pub ready_marker : Str
  pub backend : Str
  pub memory : Str
  pub command : List Str

-- The signal and the marker are set together, or neither is.
abbrev check_signal : RunCaptureRequest → Checked
check_signal r = if is_empty r.capture_signal && is_empty r.ready_marker then ok tt else do
  required r.capture_signal (lit "run capture signal is required when ready marker is set")
  required r.ready_marker (lit "run capture ready marker is required when capture signal is set")

unfoldable pub validate_run_capture_request : RunCaptureRequest → Checked
validate_run_capture_request r = do
  required r.image (lit "run capture image is required")
  required r.capture_dir (lit "run capture dir is required")
  check_command (lit "run capture command is required")
      (lit "run capture command must not be empty") r.command
  check_signal r

pub record ForkRequest : Type 0 where
  pub parent_dir : Str
  pub count : ℤ
  pub out_dir : Str

unfoldable pub validate_fork_request : ForkRequest → Checked
validate_fork_request r = do
  required r.parent_dir (lit "fork parent dir is required")
  fail_if (ltb_ℤ r.count (pos 1)) (invalid_spore_request (lit "fork count must be >= 1"))
  required r.out_dir (lit "fork out dir is required")

pub record PackRequest : Type 0 where
  pub parent_dir : Str
  pub children_dir : Str
  pub out_dir : Str

unfoldable pub validate_pack_request : PackRequest → Checked
validate_pack_request r = do
  required r.parent_dir (lit "pack parent dir is required")
  required r.children_dir (lit "pack children dir is required")
  required r.out_dir (lit "pack out dir is required")

pub record ResumeRequest : Type 0 where
  pub spore_dir : Str
  pub backend : Str
  pub generation_path : Str

unfoldable pub validate_resume_request : ResumeRequest → Checked
validate_resume_request r = required r.spore_dir (lit "resume spore dir is required")

pub record RestoreNamedRequest : Type 0 where
  pub spore_dir : Str
  pub backend : Str
  pub generation_path : Str
  pub name : Str

unfoldable pub validate_restore_named_request : RestoreNamedRequest → Checked
validate_restore_named_request r = do
  required r.spore_dir (lit "named restore spore dir is required")
  required r.name (lit "named restore VM name is required")

pub record RunFromRequest : Type 0 where
  pub spore_dir : Str
  pub backend : Str
  pub generation_path : Str
  pub command : List Str

unfoldable pub validate_run_from_request : RunFromRequest → Checked
validate_run_from_request r = do
  required r.spore_dir (lit "run-from spore dir is required")
  check_command (lit "run-from command is required") (lit "run-from command must not be empty")
      r.command

pub record ExecRequest : Type 0 where
  pub name : Str
  pub command : List Str

unfoldable pub validate_exec_request : ExecRequest → Checked
validate_exec_request r = do
  required r.name (lit "exec VM name is required")
  check_command (lit "exec command is required") (lit "exec command must not be empty") r.command

pub record RemoveVmRequest : Type 0 where
  pub name : Str

unfoldable pub validate_remove_vm_request : RemoveVmRequest → Checked
validate_remove_vm_request r = required r.name (lit "remove VM name is required")

pub record RemoveSavedSporeRequest : Type 0 where
  pub spore_dir : Str

unfoldable pub validate_remove_saved_spore_request : RemoveSavedSporeRequest → Checked
validate_remove_saved_spore_request r =
    required r.spore_dir (lit "remove saved spore dir is required")
