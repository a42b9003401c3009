-- ===== src/Fleet/Runtime/Scan.antt =====
-- The scan of the children of a lease: leaseHasPendingChildren of internal/fleet/runtime.go.
use k8s.Prelude.{
  ℕ, zero, suc, ◌+◌, ◌^◌, ◌≤◌, ◌<◌, ◌≡◌, refl, ap, ◌∙◌, Bool, true, false, arith, Bool-cases,
  Option-cases, inl, inr, ◌==◌, ==→eq,
}
use k8s.Prelude.Int.{pos, add_int, add_int_exact}
use k8s.Errors.{Result, ok, err, Result-cases}
use k8s.Fleet.Types.{AttemptResult, BundleRun}
use k8s.Fleet.Runtime.{Env, RuntimeState, terminal_known, record_existing_terminal}
use k8s.Fleet.Runtime.Lease.{scan_children}
use k8s.Fleet.Runtime.Recording.{terminal_known-record_existing}

-- `child` is known.
abbrev pub Known : ℕ → RuntimeState → Type 0
Known child s = terminal_known (pos child) s ≡ true

-- Every child from `m` on, `n` of them, is known.
abbrev pub AllKnown : ℕ → ℕ → RuntimeState → Type 0
AllKnown m n s = (k : ℕ) → m ≤ k → k < m + n → Known k s

module _ (env : Env) where
  open env use {World, Executor, terminal_result}

  pub ScanOutcome : ℕ → ℕ → Bool → RuntimeState → Result Bool × RuntimeState × World → Type 0
  ScanOutcome m n pending s (err e, t, w) = Unit
  ScanOutcome m n pending s (ok true, t, w) = Unit
  ScanOutcome m n pending s (ok false, t, w) =
      (pending ≡ false) × AllKnown m n t × ((k : ℕ) → Known k s → Known k t)

  -- One more child in front, which is known behind its round.
  ScanOutcome-cons :
      (m n : ℕ) (pending : Bool) (s t : RuntimeState) (r : Result Bool × RuntimeState × World)
      → Known m t
      → ((k : ℕ) → Known k s → Known k t)
      → ScanOutcome (suc m) n pending t r
      → ScanOutcome m (suc n) pending s r
  unfolding ScanOutcome
  ScanOutcome-cons m n pending s t (err e, u, w) known keep h = tt
  ScanOutcome-cons m n pending s t (ok true, u, w) known keep h = tt
  ScanOutcome-cons m n pending s t (ok false, u, w) known keep (p, all_known, keeps) = (
    p,
    (λ k lo hi. elim (Bool-cases (k == m)) [
      | inl e ↦ rw (==→eq k m e) (keeps m known)
      | inr ne ↦ all_known k (ground arith) (omega arith)
    ]),
    (λ k h. keeps k (keep k h)),
  )

  -- A child that was found missing leaves `pending` true.
  ScanOutcome-missing :
      (m n : ℕ) (pending : Bool) (s : RuntimeState) (r : Result Bool × RuntimeState × World)
      → ScanOutcome (suc m) n true s r
      → ScanOutcome m (suc n) pending s r
  unfolding ScanOutcome
  ScanOutcome-missing m n pending s (err e, u, w) h = tt
  ScanOutcome-missing m n pending s (ok true, u, w) h = tt
  ScanOutcome-missing m n pending s (ok false, u, w) h = cc (h.0)

  next_child : (m : ℕ) → m + 1 < 2 ^ 63 → add_int (pos m) (pos 1) ≡ pos (suc m)
  next_child m h = add_int_exact m 1 h ∙ ap pos (omega arith)

  Known-existing :
      (m k : ℕ) (r : AttemptResult) (s : RuntimeState)
      → Known k s
      → Known k (record_existing_terminal (pos m) r s)
  Known-existing m k r s h = ground (arith, terminal_known-record_existing (pos k) (pos m) r s)

  Known-self :
      (m : ℕ) (r : AttemptResult) (s : RuntimeState)
      → Known m (record_existing_terminal (pos m) r s)
  Known-self m r s = ground (arith, terminal_known-record_existing (pos m) (pos m) r s)

  pub scan_children_lem :
      (run : BundleRun) (n m : ℕ) (pending : Bool) (s : RuntimeState) (w : World)
      → m + n < 2 ^ 63
      → ScanOutcome m n pending s (scan_children env run n (pos m) pending s w)
  unfolding scan_children ScanOutcome
  scan_children_lem run zero m true s w h = tt
  scan_children_lem run zero m false s w h =
      (refl, (λ k lo hi. absurd (omega arith)), λ k known. known)
  scan_children_lem run (suc n) m pending s w h =
      let step = next_child m (omega arith) in
      elim (Bool-cases (terminal_known (pos m) s)) [
        | inl known ↦
            rw (known, step, scan_children)
              (ScanOutcome-cons m n pending s s _ known (λ k e. e)
                (scan_children_lem run n (suc m) pending s w (omega arith)))
        | inr unknown ↦ elim (Result-cases (terminal_result run (pos m) w).0) [
          | inl (e, failed) ↦ rw (unknown, failed, scan_children) tt
          | inr (found, read) ↦ elim (Option-cases found) [
            | inl missing ↦
                rw (unknown, read, missing, step, scan_children)
                  (ScanOutcome-missing m n pending s _ (
                    scan_children_lem run n (suc m) true s (terminal_result run (pos m) w).1
                      (omega arith)))
            | inr (r, there) ↦
                rw (unknown, read, there, step, scan_children)
                  (ScanOutcome-cons m n pending s (record_existing_terminal (pos m) r s) _
                    (Known-self m r s) (λ k e. Known-existing m k r s e)
                    (scan_children_lem run n (suc m) pending (record_existing_terminal (pos m) r s)
                      (terminal_result run (pos m) w).1 (omega arith)))
          ]
        ]
      ]

  pub outcome_done :
      (m n : ℕ) (pending : Bool) (s : RuntimeState) (r : Result Bool × RuntimeState × World)
      → ScanOutcome m n pending s r
      → r.0 ≡ ok false
      → AllKnown m n r.1
  unfolding ScanOutcome
  outcome_done m n pending s (err e, t, w) h e' = cc
  outcome_done m n pending s (ok true, t, w) h e' = cc
  outcome_done m n pending s (ok false, t, w) h e' = h.1
