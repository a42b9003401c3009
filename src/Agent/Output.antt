-- ===== src/Agent/Output.antt =====
-- The summary of an attempt's output: attemptOutputFromEvents and appendOutputPreview of
-- internal/agent/runtime.go. The text of an error leaves out the values that Go prints into it.
pub mod Preview
pub mod Summary
use k8s.Prelude.{
  ℕ, ◌-◌, ◌*◌, Bool, true, false, ◌&&◌, ◌||◌, not, List, [], ◌∷◌, ◌++◌, Option, none, some,
  if◌then◌else◌, length, take, ltb, leb,
}
use k8s.Prelude.Int.{ℤ, pos, add_int, eq_ℤ, ltb_ℤ}
use k8s.Prelude.Text.{Str, lit, str_eq, is_empty}
use k8s.Prelude.Base64
use k8s.Errors.{Error, Result, ok, err, invalid_machine_output}
use k8s.Fleet.Types.{AttemptOutput}
use k8s.Agent.Machine.{RunEvent}

-- attemptOutputPreviewLimit
abbrev pub preview_limit : ℕ
preview_limit = 16 * 1024

unfoldable pub append_output_preview : ℕ → Str → Str → Str
append_output_preview limit preview bytes =
    if leb limit (length preview)
    then preview
    else preview
      ++ (if ltb (limit - length preview) (length bytes)
          then take (limit - length preview) bytes
          else bytes)

-- The variables of the loop: the two counts and the two previews.
pub record Seen : Type 0 where
  pub stdout_bytes : ℤ
  pub stderr_bytes : ℤ
  pub stdout_preview : Str
  pub stderr_preview : Str

-- `output` is another name of `stdout`.
unfoldable pub stream_of : RunEvent → Str
stream_of e = if str_eq e.event (lit "output") then lit "stdout" else e.event

unfoldable pub see : Str → Str → Seen → Seen
see stream bytes s =
    if str_eq stream (lit "stdout")
    then record s {
      stdout_bytes = add_int s.stdout_bytes (pos (length bytes));
      stdout_preview = append_output_preview preview_limit s.stdout_preview bytes;
    }
    else record s {
      stderr_bytes = add_int s.stderr_bytes (pos (length bytes));
      stderr_preview = append_output_preview preview_limit s.stderr_preview bytes;
    }

abbrev pub is_output : RunEvent → Bool
is_output e = str_eq (stream_of e) (lit "stdout") || str_eq (stream_of e) (lit "stderr")

-- One round of the loop.
unfoldable pub see_event : RunEvent → Seen → Result Seen
see_event e s = if not (is_output e) then ok s else elim (Base64.decode e.data_base64) [
  | none ↦ err (invalid_machine_output (lit "event has invalid data_base64"))
  | some bytes ↦
      if not (eq_ℤ e.byte_count (pos 0)) && not (eq_ℤ e.byte_count (pos (length bytes)))
      then err (invalid_machine_output (lit "event byte_count"))
      else ok (see (stream_of e) bytes s)
]

unfoldable pub see_events : List RunEvent → Seen → Result Seen
see_events [] s = ok s
see_events (e ∷ es) s = elim (see_event e s) [ err x ↦ err x | ok t ↦ see_events es t ]

abbrev pub encoded : Str → Str
encoded preview = if is_empty preview then [] else Base64.encode preview

abbrev pub truncated : ℤ → Str → Bool
truncated total preview = not (is_empty preview) && ltb_ℤ (pos (length preview)) total

-- What the counts and previews become.
unfoldable pub output_of : Seen → Option AttemptOutput
output_of s =
    if eq_ℤ s.stdout_bytes (pos 0) && eq_ℤ s.stderr_bytes (pos 0)
    then none
    else some (record {
      stdout_bytes = s.stdout_bytes;
      stderr_bytes = s.stderr_bytes;
      stdout_preview_base64 = encoded s.stdout_preview;
      stderr_preview_base64 = encoded s.stderr_preview;
      stdout_truncated = truncated s.stdout_bytes s.stdout_preview;
      stderr_truncated = truncated s.stderr_bytes s.stderr_preview;
    })

abbrev pub nothing_seen : Seen
nothing_seen = record {
  stdout_bytes = pos 0;
  stderr_bytes = pos 0;
  stdout_preview = [];
  stderr_preview = [];
}

unfoldable pub attempt_output_from_events : List RunEvent → Result (Option AttemptOutput)
attempt_output_from_events events = elim (see_events events nothing_seen) [
  | err x ↦ err x
  | ok s ↦ ok (output_of s)
]
