-- ===== src/Fleet/Runtime/Recording.antt =====
-- What recordResults and recordExistingTerminal of internal/fleet/runtime.go keep and change.
use k8s.Prelude.{
  ℕ, suc, ◌+◌, ◌≡◌, refl, sym, ap, ◌∙◌, Bool, true, ◌&&◌, ◌||◌, not, List, [], ◌∷◌, Option, none,
  some, arith, if◌then◌else◌, Bool-cases, inl, inr,
}
use k8s.Prelude.Int.{ℤ, eq_ℤ, eq_ℤ_iff}
use k8s.Prelude.IntMap.{get, get-put}
use k8s.Prelude.Text.{is_some, str_eq, is_empty}
use k8s.Fleet.Types.{
  AttemptResult, attempt_skipped_terminal_exists, attempt_platform_mismatch, attempt_failed,
}
use k8s.Fleet.Runtime.{
  RuntimeState, terminal_known, record_existing_terminal, record_result, record_results,
}

-- The entry of one child after one result: only its own terminal results count, the last one wins, and a
-- skip never replaces an entry.
abbrev pub entry_after : ℤ → AttemptResult → Option AttemptResult → Option AttemptResult
entry_after child r old =
    if is_empty r.attempt_id || (not r.terminal || not (eq_ℤ r.child_id child))
    then old
    else elim old [
      | none ↦ some r
      | some kept ↦ if str_eq r.status attempt_skipped_terminal_exists then some kept else some r
    ]

pub entry_after_all : ℤ → List AttemptResult → Option AttemptResult → Option AttemptResult
entry_after_all child [] old = old
entry_after_all child (r ∷ rs) old = entry_after_all child rs (entry_after child r old)

get-record_result :
    (child : ℤ) (r : AttemptResult) (s : RuntimeState)
    → get child (record_result r s).terminal ≡ entry_after child r (get child s.terminal)
unfolding record_result
get-record_result child r s = elim (Bool-cases (eq_ℤ r.child_id child)) [
  | inl same ↦ ground (
    arith,
    (eq_ℤ_iff r.child_id child).0 same,
    get-put r.child_id child r s.terminal,
    ap (λ k. get k s.terminal) ((eq_ℤ_iff r.child_id child).0 same),
  )
  | inr other ↦ ground (arith, other, get-put r.child_id child r s.terminal)
]

-- The entry of a child after a batch of results is folded from the entry before and the child's
-- own terminal results with an attempt id: the last one wins, and a skip never replaces an entry.
pub get-record_results :
    (child : ℤ) (rs : List AttemptResult) (s : RuntimeState)
    → get child (record_results rs s).terminal ≡ entry_after_all child rs (get child s.terminal)
unfolding record_results entry_after_all
get-record_results child [] s = refl
get-record_results child (r ∷ rs) s =
    get-record_results child rs (record_result r s)
    ∙ ap (entry_after_all child rs) (get-record_result child r s)

entry_after-some :
    (child : ℤ) (r : AttemptResult) (o : Option AttemptResult)
    → is_some o ≡ true
    → is_some (entry_after child r o) ≡ true
entry_after-some child r o h = ground arith

entry_after_all-some :
    (child : ℤ) (rs : List AttemptResult) (o : Option AttemptResult)
    → is_some o ≡ true
    → is_some (entry_after_all child rs o) ≡ true
unfolding entry_after_all
entry_after_all-some child [] o h = h
entry_after_all-some child (r ∷ rs) o h =
    entry_after_all-some child rs (entry_after child r o) (entry_after-some child r o h)

terminal_known-is_some :
    (child : ℤ) (s : RuntimeState) → terminal_known child s ≡ is_some (get child s.terminal)
unfolding terminal_known
terminal_known-is_some child s = ground arith

-- A child that is known stays known.
pub terminal_known-record_results :
    (child : ℤ) (rs : List AttemptResult) (s : RuntimeState)
    → terminal_known child s ≡ true
    → terminal_known child (record_results rs s) ≡ true
terminal_known-record_results child rs s h =
    terminal_known-is_some child (record_results rs s)
    ∙ ap is_some (get-record_results child rs s)
    ∙ entry_after_all-some child rs (get child s.terminal)
        (sym (terminal_known-is_some child s) ∙ h)

pub terminal_known-record_existing :
    (child k : ℤ) (r : AttemptResult) (s : RuntimeState)
    → terminal_known child (record_existing_terminal k r s)
      ≡ (if eq_ℤ k child then true else terminal_known child s)
unfolding terminal_known record_existing_terminal
terminal_known-record_existing child k r s = elim (Bool-cases (eq_ℤ k child)) [
  | inl same ↦ ground (
    arith,
    ap (λ j. get j s.terminal) ((eq_ℤ_iff k child).0 same),
    get-put k child (record r { status = attempt_skipped_terminal_exists }) s.terminal,
    get-put k child r s.terminal,
  )
  | inr other ↦ ground (
    arith,
    other,
    get-put k child (record r { status = attempt_skipped_terminal_exists }) s.terminal,
    get-put k child r s.terminal,
  )
]

-- How often a test holds in a list.
abbrev pub count {ℓ} : {A : Type ℓ} → (A → Bool) → List A → ℕ
count p [] = 0
count p (x ∷ xs) = if p x then suc (count p xs) else count p xs

abbrev pub counts : AttemptResult → Bool
counts r = not (is_empty r.attempt_id)

abbrev one : Bool → ℕ
one b = if b then 1 else 0

record_result-counters :
    (r : AttemptResult) (s : RuntimeState)
    → ((record_result r s).attempt_count ≡ s.attempt_count + one (counts r))
      × ((record_result r s).platform_mismatches
          ≡ s.platform_mismatches + one (counts r && str_eq r.status attempt_platform_mismatch))
      × ((record_result r s).non_terminal_failures
          ≡ s.non_terminal_failures
            + one (counts r && (str_eq r.status attempt_failed && not r.terminal)))
      × ((record_result r s).lease_errors ≡ s.lease_errors)
unfolding record_result
record_result-counters r s = (ground arith, ground arith, ground arith, ground arith)

-- A batch of results adds to the counters the results with an attempt id, those of them that
-- report a platform mismatch, and those that failed without being terminal; the count of lease
-- errors stays.
pub record_results-counters :
    (rs : List AttemptResult) (s : RuntimeState)
    → ((record_results rs s).attempt_count ≡ s.attempt_count + count counts rs)
      × ((record_results rs s).platform_mismatches
          ≡ s.platform_mismatches
            + count (λ r. counts r && str_eq r.status attempt_platform_mismatch) rs)
      × ((record_results rs s).non_terminal_failures
          ≡ s.non_terminal_failures
            + count (λ r. counts r && (str_eq r.status attempt_failed && not r.terminal)) rs)
      × ((record_results rs s).lease_errors ≡ s.lease_errors)
unfolding record_results
record_results-counters [] s = (omega arith, omega arith, omega arith, refl)
record_results-counters (r ∷ rs) s =
    let rest = record_results-counters rs (record_result r s) in
    let step = record_result-counters r s in
    (
      ground (arith, rest, step),
      ground (arith, rest, step),
      ground (arith, rest, step),
      rest.3 ∙ step.3,
    )
