-- ===== src/Fleet/Runtime/Completion.antt =====
-- The end of a lease: runLease of internal/fleet/runtime.go.
use mathlib.Core.Path.{ap₂}
use k8s.Prelude.{
  ℕ, zero, suc, ◌+◌, ◌-◌, ◌^◌, ◌≤◌, ◌<◌, ◌≡◌, sym, ap, subst, ◌∙◌, false, List, Option, none, some,
  arith, Bool-cases, Option-cases, inl, inr,
}
use k8s.Prelude.Int.{ℤ, pos, pos_part, add_int, add_int_exact, eq_ℤ}
use k8s.Prelude.Text.{Str}
use k8s.Errors.{Error, ok, Result-cases}
use k8s.Fleet.Types.{AttemptResult, BundleRun, ShardLease, end_of, lease_range}
use k8s.Fleet.Runtime.{Env, RuntimeState, has_platform_mismatch, rounds}
use k8s.Fleet.Runtime.Lease.{
  Next, stop, again, scan_children, lease_has_pending_children, after_shard, start_round,
  attempt_round, attempts, run_lease, executor_of,
}
use k8s.Fleet.Runtime.Scan.{AllKnown, scan_children_lem, outcome_done}

-- A lease in plain numbers: `count` children from `start` on, and a budget of attempts. An admitted lease
-- has such numbers unless its end overflows.
pub record IsPlain (lease : ShardLease) (start count budget : ℕ) : Type 0 where
  pub start_eq : lease.child_start ≡ pos start
  pub count_eq : lease.child_count ≡ pos count
  pub budget_eq : lease.attempt_budget ≡ pos budget
  pub end_fits : start + count < 2 ^ 63
  pub budget_fits : budget < 2 ^ 63
  pub some_attempt : 1 ≤ budget

rounds_plain :
    (lease : ShardLease) (start count budget : ℕ)
    → IsPlain lease start count budget
    → rounds lease.child_start (end_of (lease_range lease)) ≡ count
unfolding end_of lease_range
rounds_plain lease start count budget p = ground (arith, p, add_int_exact start count)

module _ (env : Env) (run : BundleRun) (lease : ShardLease) (start count budget : ℕ)
    (plain : IsPlain lease start count budget) where
  open env use {World, Executor, terminal_result, run_shard, ctx_err}

  -- What a round may end with.
  DoneOr : ℤ → Next → RuntimeState → Type 0
  DoneOr attempt (stop none) s = AllKnown start count s
  DoneOr attempt (stop (some e)) s = Unit
  DoneOr attempt again s = eq_ℤ attempt lease.attempt_budget ≡ false

  pending-scan :
      (s : RuntimeState) (w : World)
      → lease_has_pending_children env run lease s w
        ≡ scan_children env run count (pos start) false s w
  unfolding lease_has_pending_children
  pending-scan s w =
      ap₂ (λ n id. scan_children env run n id false s w)
        (rounds_plain lease start count budget plain) plain.start_eq

  pending_done :
      (s : RuntimeState) (w : World)
      → (lease_has_pending_children env run lease s w).0 ≡ ok false
      → AllKnown start count (lease_has_pending_children env run lease s w).1
  pending_done s w = rw (pending-scan s w) (
      outcome_done env start count false s (scan_children env run count (pos start) false s w)
        (scan_children_lem env run count start false s w plain.end_fits))

  after_shard_done :
      (attempt : ℤ) (results : List AttemptResult) (run_err : Option Error) (s : RuntimeState)
      (w : World)
      → let r = after_shard env run lease attempt results run_err s w in DoneOr attempt r.0 r.1
  unfolding after_shard DoneOr
  after_shard_done attempt results run_err s w = elim (Bool-cases (has_platform_mismatch results)) [
    | inl e ↦ rw (e, after_shard) tt
    | inr e ↦ elim (Result-cases (lease_has_pending_children env run lease s w).0) [
      | inl (x, f) ↦ rw (e, f, after_shard) tt
      | inr (p, f) ↦ elim (Bool-cases p) [
        | inr g ↦ rw (e, f, g, after_shard) (pending_done s w (f ∙ ap ok g))
        | inl g ↦ elim (Bool-cases (eq_ℤ attempt lease.attempt_budget)) [
          | inl k ↦ elim (Option-cases run_err) [
            | inl n ↦ rw (e, f, g, k, n, after_shard) tt
            | inr (x, n) ↦ rw (e, f, g, k, n, after_shard) tt
          ]
          | inr k ↦ rw (e, f, g, k, after_shard) k
        ]
      ]
    ]
  ]

  start_round_done :
      (executor : Executor) (attempt : ℤ) (s : RuntimeState) (w : World)
      → let r = start_round env run lease executor attempt s w in DoneOr attempt r.0 r.1
  unfolding start_round DoneOr
  start_round_done executor attempt s w =
      elim (Result-cases (lease_has_pending_children env run lease s w).0) [
        | inl (x, f) ↦ rw (f, start_round) tt
        | inr (p, f) ↦ elim (Bool-cases p) [
          | inr g ↦ rw (f, g, start_round) (pending_done s w (f ∙ ap ok g))
          | inl g ↦ rw (f, g, start_round) (after_shard_done attempt _ _ _ _)
        ]
      ]

  attempt_round_done :
      (executor : Executor) (attempt : ℤ) (s : RuntimeState) (w : World)
      → let r = attempt_round env run lease executor attempt s w in DoneOr attempt r.0 r.1
  unfolding attempt_round DoneOr
  attempt_round_done executor attempt s w = elim (Option-cases (ctx_err w).0) [
    | inl n ↦ rw (n, attempt_round) (start_round_done executor attempt s (ctx_err w).1)
    | inr (x, n) ↦ rw (n, attempt_round) tt
  ]

  abbrev Finished : Option Error × RuntimeState × World → Type 0
  Finished (none, s, w) = AllKnown start count s
  Finished (some e, s, w) = Unit

  Finished-known :
      (r : Option Error × RuntimeState × World) → Finished r → r.0 ≡ none → AllKnown start count r.1
  Finished-known (none, s, w) h e = h
  Finished-known (some x, s, w) h e = cc

  next_attempt :
      (attempt n : ℕ)
      → attempt + suc (suc n) ≡ budget + 1
      → add_int (pos attempt) (pos 1) ≡ pos (suc attempt)
  next_attempt attempt n e =
      add_int_exact attempt 1 (omega (arith, plain.budget_fits)) ∙ ap pos (omega arith)

  finish_round :
      (executor : Executor) (n : ℕ) (attempt : ℤ) (r : Next × RuntimeState × World)
      → DoneOr attempt r.0 r.1
      → (eq_ℤ attempt lease.attempt_budget ≡ false
          → Finished (attempts env run lease executor n (add_int attempt (pos 1)) r.1 r.2))
      → Finished (elim r.0 [
        | stop result ↦ (result, r.1, r.2)
        | again ↦ attempts env run lease executor n (add_int attempt (pos 1)) r.1 r.2
      ])
  unfolding DoneOr
  finish_round executor n attempt (stop none, s, w) d k = d
  finish_round executor n attempt (stop (some e), s, w) d k = tt
  finish_round executor n attempt (again, s, w) d k = k d

  -- The loop never runs out: in the round of the last attempt it returns.
  attempts_done :
      (executor : Executor) (n attempt : ℕ) (s : RuntimeState) (w : World)
      → attempt + suc n ≡ budget + 1
      → Finished (attempts env run lease executor (suc n) (pos attempt) s w)
  unfolding attempts
  attempts_done executor zero attempt s w e =
      finish_round executor zero (pos attempt)
        (attempt_round env run lease executor (pos attempt) s w)
        (attempt_round_done executor (pos attempt) s w)
        (λ d. absurd (ground (arith, d, e, plain.budget_eq)))
  attempts_done executor (suc n) attempt s w e =
      finish_round executor (suc n) (pos attempt)
        (attempt_round env run lease executor (pos attempt) s w)
        (attempt_round_done executor (pos attempt) s w)
        λ d.
          subst
            (λ a. Finished (
              attempts env run lease executor (suc n) a
                (attempt_round env run lease executor (pos attempt) s w).1
                (attempt_round env run lease executor (pos attempt) s w).2))
            (sym (next_attempt attempt n e))
            (attempts_done executor n (suc attempt)
              (attempt_round env run lease executor (pos attempt) s w).1
              (attempt_round env run lease executor (pos attempt) s w).2 (omega (arith, e)))

  start_attempts :
      (executor : Executor) (s : RuntimeState) (w : World)
      → Finished (attempts env run lease executor (pos_part lease.attempt_budget) (pos 1) s w)
  start_attempts executor s w =
      let fuel : pos_part lease.attempt_budget ≡ suc (budget - 1) =
        ap pos_part plain.budget_eq ∙ omega (arith, plain.some_attempt) in
      rw fuel (attempts_done executor (budget - 1) 1 s w (omega (arith, plain.some_attempt)))

  run_lease-Finished :
      (executors : List (Str × Executor)) (s : RuntimeState) (w : World)
      → Finished (run_lease env executors run lease s w)
  unfolding run_lease
  run_lease-Finished executors s w =
      elim (Option-cases (executor_of env lease.agent_id executors)) [
        | inl e ↦ rw (e, run_lease) tt
        | inr (x, e) ↦ rw (e, run_lease) (start_attempts x s w)
      ]

  -- A lease whose numbers fit, with an attempt at least, and that ends without an error leaves a
  -- state that knows a terminal result for each of its children.
  pub run_lease-AllKnown :
      (executors : List (Str × Executor)) (s : RuntimeState) (w : World)
      → (run_lease env executors run lease s w).0 ≡ none
      → AllKnown start count (run_lease env executors run lease s w).1
  run_lease-AllKnown executors s w =
      Finished-known (run_lease env executors run lease s w) (run_lease-Finished executors s w)
