-- ===== src/Fleet/Runtime/Budget.antt =====
-- How often a lease calls its executor: runLease of internal/fleet/runtime.go.
use k8s.Prelude.{
  ℕ, zero, suc, ◌+◌, ◌≤◌, ◌≡◌, refl, ◌∙◌, Bool, true, false, List, Option, none, arith, Bool-cases,
  Option-cases, inl, inr,
}
use k8s.Prelude.Int.{ℤ, pos, pos_part, add_int, eq_ℤ}
use k8s.Prelude.Text.{Str}
use k8s.Errors.{Error, Result, Result-cases}
use k8s.Fleet.Types.{AttemptResult, BundleRun, ShardLease, ShardExecutionRequest}
use k8s.Fleet.Runtime.{
  Env, RuntimeState, terminal_known, record_existing_terminal, record_results,
  has_platform_mismatch,
}
use k8s.Fleet.Runtime.Lease.{
  Next, stop, again, scan_children, lease_has_pending_children, after_shard, start_round,
  attempt_round, attempts, run_lease, executor_of,
}

-- A count of the calls of RunShard that the world keeps: only that call raises it.
pub record IsCount (env : Env) (calls : env.World → ℕ) : Type 0 where
  pub of_ctx : (w : env.World) → calls (env.ctx_err w).1 ≡ calls w
  pub of_read :
      (run : BundleRun) (child : ℤ) (w : env.World)
      → calls (env.terminal_result run child w).1 ≡ calls w
  pub of_shard :
      (e : env.Executor) (request : ShardExecutionRequest) (w : env.World)
      → calls (env.run_shard e request w).1 ≡ calls w + 1

module _ (env : Env) (calls : env.World → ℕ) (is_count : IsCount env calls) where
  open env use {World, Executor, terminal_result, run_shard, ctx_err}

  scan_children-calls :
      (run : BundleRun) (n : ℕ) (child : ℤ) (pending : Bool) (s : RuntimeState) (w : World)
      → calls (scan_children env run n child pending s w).2 ≡ calls w
  unfolding scan_children
  scan_children-calls run zero child pending s w = refl
  scan_children-calls run (suc n) child pending s w =
      let next = add_int child (pos 1) in
      let w' = (terminal_result run child w).1 in
      elim (Bool-cases (terminal_known child s)) [
        | inl known ↦ rw (known, scan_children) (scan_children-calls run n next pending s w)
        | inr unknown ↦ elim (Result-cases (terminal_result run child w).0) [
          | inl (e, failed) ↦ rw (unknown, failed, scan_children) (is_count.of_read run child w)
          | inr (found, read) ↦ elim (Option-cases found) [
            | inl missing ↦
                rw (unknown, read, missing, scan_children)
                  (scan_children-calls run n next true s w' ∙ is_count.of_read run child w)
            | inr (r, there) ↦
                rw (unknown, read, there, scan_children)
                  (scan_children-calls run n next pending (record_existing_terminal child r s) w'
                    ∙ is_count.of_read run child w)
          ]
        ]
      ]

  pending-calls :
      (run : BundleRun) (lease : ShardLease) (s : RuntimeState) (w : World)
      → calls (lease_has_pending_children env run lease s w).2 ≡ calls w
  unfolding lease_has_pending_children
  pending-calls run lease s w = scan_children-calls run _ lease.child_start false s w

  after_shard-calls :
      (run : BundleRun) (lease : ShardLease) (attempt : ℤ) (results : List AttemptResult)
      (run_err : Option Error) (s : RuntimeState) (w : World)
      → calls (after_shard env run lease attempt results run_err s w).2 ≡ calls w
  unfolding after_shard
  after_shard-calls run lease attempt results run_err s w =
      let same = pending-calls run lease s w in
      elim (Bool-cases (has_platform_mismatch results)) [
        | inl e ↦ rw (e, after_shard) refl
        | inr e ↦ elim (Result-cases (lease_has_pending_children env run lease s w).0) [
          | inl (x, f) ↦ rw (e, f, after_shard) same
          | inr (p, f) ↦ elim (Bool-cases p) [
            | inr g ↦ rw (e, f, g, after_shard) same
            | inl g ↦ elim (Bool-cases (eq_ℤ attempt lease.attempt_budget)) [
              | inl k ↦ rw (e, f, g, k, after_shard) same
              | inr k ↦ rw (e, f, g, k, after_shard) same
            ]
          ]
        ]
      ]

  start_round-calls :
      (run : BundleRun) (lease : ShardLease) (executor : Executor) (attempt : ℤ) (s : RuntimeState)
      (w : World)
      → calls (start_round env run lease executor attempt s w).2 ≤ calls w + 1
  unfolding start_round
  start_round-calls run lease executor attempt s w =
      let same = pending-calls run lease s w in
      let p : Result Bool × RuntimeState × World = lease_has_pending_children env run lease s w in
      let request : ShardExecutionRequest = record {
        run = run;
        lease = lease;
        attempt = attempt;
        local = none;
      } in
      let r = run_shard executor request p.2 in
      elim (Result-cases (lease_has_pending_children env run lease s w).0) [
        | inl (x, f) ↦ rw (f, start_round) (omega (arith, same))
        | inr (b, f) ↦ elim (Bool-cases b) [
          | inr g ↦ rw (f, g, start_round) (omega (arith, same))
          | inl g ↦
              rw (f, g, start_round)
                (omega (
                  arith,
                  same,
                  is_count.of_shard executor request p.2,
                  after_shard-calls run lease attempt r.0.0 r.0.1 (record_results r.0.0 p.1) r.1,
                ))
        ]
      ]

  attempt_round-calls :
      (run : BundleRun) (lease : ShardLease) (executor : Executor) (attempt : ℤ) (s : RuntimeState)
      (w : World)
      → calls (attempt_round env run lease executor attempt s w).2 ≤ calls w + 1
  unfolding attempt_round
  attempt_round-calls run lease executor attempt s w =
      let same = is_count.of_ctx w in
      elim (Option-cases (ctx_err w).0) [
        | inl n ↦
            rw (n, attempt_round)
              (omega (arith, same, start_round-calls run lease executor attempt s (ctx_err w).1))
        | inr (x, n) ↦ rw (n, attempt_round) (omega (arith, same))
      ]

  abbrev AtMost : ℕ → Option Error × RuntimeState × World → Type 0
  AtMost n (e, s, w) = calls w ≤ n

  finish_round :
      (run : BundleRun) (lease : ShardLease) (executor : Executor) (n m : ℕ) (attempt : ℤ)
      (r : Next × RuntimeState × World)
      → calls r.2 ≤ m + 1
      → ((s : RuntimeState) (w : World)
          → AtMost (calls w + n) (attempts env run lease executor n (add_int attempt (pos 1)) s w))
      → AtMost (m + suc n) (elim r.0 [
        | stop result ↦ (result, r.1, r.2)
        | again ↦ attempts env run lease executor n (add_int attempt (pos 1)) r.1 r.2
      ])
  finish_round run lease executor n m attempt (stop x, t, u) h k = omega (arith, h)
  finish_round run lease executor n m attempt (again, t, u) h k = omega (arith, h, k t u)

  attempts-calls :
      (run : BundleRun) (lease : ShardLease) (executor : Executor) (n : ℕ) (attempt : ℤ)
      (s : RuntimeState) (w : World)
      → AtMost (calls w + n) (attempts env run lease executor n attempt s w)
  unfolding attempts
  attempts-calls run lease executor zero attempt s w = omega arith
  attempts-calls run lease executor (suc n) attempt s w =
      finish_round run lease executor n (calls w) attempt
        (attempt_round env run lease executor attempt s w)
        (attempt_round-calls run lease executor attempt s w)
        (attempts-calls run lease executor n (add_int attempt (pos 1)))

  -- A lease raises any count that only RunShard raises, by one at each call, by its budget of
  -- attempts at most, however it ends.
  pub run_lease-calls :
      (executors : List (Str × Executor)) (run : BundleRun) (lease : ShardLease) (s : RuntimeState)
      (w : World)
      → calls (run_lease env executors run lease s w).2 ≤ calls w + pos_part lease.attempt_budget
  unfolding run_lease
  run_lease-calls executors run lease s w =
      elim (Option-cases (executor_of env lease.agent_id executors)) [
        | inl e ↦ rw (e, run_lease) (omega arith)
        | inr (x, e) ↦
            rw (e, run_lease)
              (attempts-calls run lease x (pos_part lease.attempt_budget) (pos 1) s w)
      ]
