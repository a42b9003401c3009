-- ===== src/Fleet/Runtime/Timings.antt =====
-- runtimeState.timingSummary of internal/fleet/runtime.go. Sums, products and conversions of `float64` are those of
-- the machine, whose rounding the language leaves open (a product and a sum may be fused): an argument.
use k8s.Prelude.{
  ℕ, ◌-◌, ◌||◌, not, List, [], ◌∷◌, Option, none, some, if◌then◌else◌, length, get_or, leb, map,
}
use k8s.Prelude.Int.{ℤ, pos, ◌+ℤ◌, leb_ℤ, sub_ℤ}
use k8s.Prelude.IntMap.{IntMap}
use k8s.Prelude.Text.{str_eq}
use k8s.Fleet.Types.{
  Time, Float64, is_zero_time, before, AttemptResult, attempt_succeeded, RuntimePercentiles,
  RuntimeTimingSummary,
}

pub record FloatOps : Type 0 where
  pub add_float : Float64 → Float64 → Float64
  -- time.Duration(ms * float64(time.Millisecond)), in nanoseconds
  pub duration_of_ms : Float64 → ℤ
  -- float64(d.Microseconds()) / 1000, of nanoseconds
  pub ms_of_duration : ℤ → Float64
  -- int(p*float64(n) + 0.999999999), of p in hundredths and a length n
  pub rank : ℕ → ℕ → ℕ

unfoldable pub insert_value : Float64 → List Float64 → List Float64
insert_value v [] = v ∷ []
insert_value v (u ∷ us) = if leb_ℤ v u then v ∷ u ∷ us else u ∷ insert_value v us

unfoldable pub sort_values : List Float64 → List Float64
sort_values [] = []
sort_values (v ∷ vs) = insert_value v (sort_values vs)

module _ (f : FloatOps) where
  -- `rank - 1`, held between 0 and the last index.
  unfoldable pub percentile_index : ℕ → ℕ → ℕ
  percentile_index percent n =
      let index = f.rank percent n - 1 in if leb n index then n - 1 else index

  unfoldable pub runtime_percentile : List Float64 → ℕ → Float64
  unfolding percentile_index
  runtime_percentile sorted percent =
      get_or sorted (percentile_index percent (length sorted)) (pos 0)

  unfoldable pub runtime_percentiles : List Float64 → RuntimePercentiles
  unfolding sort_values
  runtime_percentiles [] = record { p50 = pos 0; p95 = pos 0; p99 = pos 0 }
  runtime_percentiles (v ∷ vs) =
      let sorted = sort_values (v ∷ vs) in
      record {
        p50 = runtime_percentile sorted 50;
        p95 = runtime_percentile sorted 95;
        p99 = runtime_percentile sorted 99;
      }

module _ (f : FloatOps) where
  open f use {add_float, duration_of_ms, ms_of_duration}

  unfoldable pub elapsed_ms : Time → Time → Float64
  elapsed_ms start end = if before end start then pos 0 else ms_of_duration (sub_ℤ end start)

  -- The instant at which the guest of a result was ready.
  unfoldable pub ready_at : AttemptResult → Time
  ready_at r =
      let t = r.timings_ms in
      r.started_at
      +ℤ duration_of_ms (
          add_float (add_float (add_float t.artifact_pull t.materialization) t.resume)
            t.guest_ready)

  -- The results that count: the terminal successes with a start.
  unfoldable pub timed : IntMap AttemptResult → List AttemptResult
  timed [] = []
  timed ((k, r) ∷ m) =
      if not (str_eq r.status attempt_succeeded) || is_zero_time r.started_at
      then timed m
      else r ∷ timed m

  abbrev column : (AttemptResult → Float64) → List AttemptResult → RuntimePercentiles
  column g rs = runtime_percentiles f (map g rs)

  abbrev summary_of : Time → List AttemptResult → Option RuntimeTimingSummary
  summary_of started_at [] = none
  summary_of started_at (r ∷ rs) = some (record {
    child_ready_ms = column (λ x. elapsed_ms started_at (ready_at x)) (r ∷ rs);
    stage_percentiles_ms = record {
      artifact_pull = column (λ x. x.timings_ms.artifact_pull) (r ∷ rs);
      materialization = column (λ x. x.timings_ms.materialization) (r ∷ rs);
      resume = column (λ x. x.timings_ms.resume) (r ∷ rs);
      guest_ready = column (λ x. x.timings_ms.guest_ready) (r ∷ rs);
      result_commit = column (λ x. x.timings_ms.result_commit) (r ∷ rs);
    };
  })

  unfoldable pub timing_summary : Time → IntMap AttemptResult → Option RuntimeTimingSummary
  timing_summary started_at m = summary_of started_at (timed m)
