-- ===== src/Agent/Interactive.antt =====
-- The requests of interactive work and their checks: internal/agent/interactive.go. The text of an error
-- leaves out the values that Go prints into it, and the spans of the agent's clock are left out.
pub mod Images
use k8s.Prelude.{
  ℕ, zero, suc, Bool, true, false, ◌||◌, ◌&&◌, List, [], ◌∷◌, Option, none, some, not, all,
  if◌then◌else◌, length, leb, ◌==◌,
}
use k8s.Prelude.Text.{Str, lit, is_empty, strip_prefix}
use k8s.Errors.{Checked, ok, err, invalid_spore_request, mutable_image, ◌>>=◌, ◌>>◌, fail_if}
use k8s.Agent.Machine.{RunEvent}
use k8s.Agent.Machine.Requests.{check_command}

-- strings.Cut at a text: what stands before its first occurrence and behind it.
unfoldable pub cut : Str → Str → Option (Str × Str)
cut sep [] = elim (strip_prefix sep []) [ none ↦ none | some rest ↦ some ([], rest) ]
cut sep (c ∷ s) =
    let later = cut sep s in
    elim (strip_prefix sep (c ∷ s)) [
      | some rest ↦ some ([], rest)
      | none ↦ elim later [ none ↦ none | some (a, b) ↦ some (c ∷ a, b) ]
    ]

-- strings.Contains of one byte.
unfoldable pub contains_byte : ℕ → Str → Bool
contains_byte b [] = false
contains_byte b (c ∷ s) = (c == b) || contains_byte b s

-- The digits that hex.DecodeString reads, in either case.
unfoldable pub is_hex_digit : ℕ → Bool
is_hex_digit c =
    (leb b'0' c && leb c b'9') || ((leb b'a' c && leb c b'f') || (leb b'A' c && leb c b'F'))

-- Whether hex.DecodeString succeeds, and then the number of bytes that it returns is half the length.
unfoldable pub hex_decodes : Str → Bool
hex_decodes [] = true
hex_decodes (c ∷ []) = false
hex_decodes (c ∷ d ∷ s) = (is_hex_digit c && is_hex_digit d) && hex_decodes s

abbrev check_digest : Option (Str × Str) → Checked
check_digest none = err mutable_image
check_digest (some (prefix, digest)) = do
  fail_if
      (is_empty prefix
        || (contains_byte b'@' prefix || (not (length digest == 64) || contains_byte b'@' digest)))
      mutable_image
  fail_if (not (hex_decodes digest)) mutable_image

unfoldable pub validate_pinned_image : Str → Checked
validate_pinned_image image = check_digest (cut (lit "@sha256:") image)

pub record RunRequest : Type 0 where
  pub run_id : Str
  pub image : Str
  pub memory : Str
  pub command : List Str

-- RunRequest.validate, with validateCommand at the name `run`.
unfoldable pub validate_run_request : RunRequest → Checked
validate_run_request r = do
  validate_pinned_image r.image
  check_command (lit "run command is required") (lit "run command must not be empty") r.command

pub record SandboxCreateRequest : Type 0 where
  pub name : Str
  pub image : Str
  pub memory : Str

unfoldable pub validate_create_request : SandboxCreateRequest → Checked
validate_create_request r = do
  fail_if (is_empty r.name) (invalid_spore_request (lit "sandbox name is required"))
  validate_pinned_image r.image

pub record TemplateStatus : Type 0 where
  pub id : Str
  pub cache_hit : Bool

-- The memory of a request, with the default where it names none.
abbrev pub memory_of : Str → Str
memory_of memory = if is_empty memory then lit "1024mb" else memory

pub record RunTimings : Type 0 where
  pub runtime_start : ℕ
  pub runtime_vsock_connect : ℕ
  pub runtime_exec_response : ℕ
  pub runtime_probe : ℕ

pub record RunResponse : Type 0 where
  pub run_id : Str
  pub template : TemplateStatus
  pub timings : RunTimings
  pub events : List RunEvent

pub record SandboxTimings : Type 0 where
  pub restore_prepare : ℕ
  pub restore_spawn_monitor : ℕ
  pub restore_wait_exec_ready : ℕ
  pub restore_spore_total : ℕ

pub record SandboxCreateResponse : Type 0 where
  pub name : Str
  pub template : TemplateStatus
  pub timings : SandboxTimings
